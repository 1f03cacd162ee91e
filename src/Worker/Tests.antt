-- ===== src/Worker/Tests.antt =====
-- The theorems on backend/app/worker at concrete rows.
mod Data
mod Reports
mod Execution
use ai_data_operations_emplo.Prelude.{
  ℕ, ◌≤◌, ◌≡◌, ◌≢◌, refl, true, false, none, some, [], ◌∷◌, arith, All,
}
use ai_data_operations_emplo.Worker.Model.{
  TaskRun, pending, running, success, Task, Env, Settings, Metrics, World, get_run,
}
use ai_data_operations_emplo.Worker.Table.{
  assign, update, check_constraints, status_invariants, finished_after_started, lease_consistency,
}
use ai_data_operations_emplo.Worker.Table.Laws.{AllChecked}
use ai_data_operations_emplo.Worker.Session.{done, pending_count}
use ai_data_operations_emplo.Worker.Claim.{claim_batch}
use ai_data_operations_emplo.Worker.Lease.{heartbeat, complete_success, success_values}
use ai_data_operations_emplo.Worker.Failure.{
  complete_failure, report_failure, should_retry, retry_delay, requeue_values, failed_values,
}
use ai_data_operations_emplo.Worker.Reaper.{reap_expired_runs}
use ai_data_operations_emplo.Worker.Scheduler.{run_due_schedules}
use ai_data_operations_emplo.Worker.System.{Anything, Reach, here, next, beat, succeed}
use ai_data_operations_emplo.Worker.System.Fencing.{IsFresh, IsRefused, stale_lease-IsRefused}
use ai_data_operations_emplo.Worker.System.Reported.{success_reported_once, failure_reported_once}
use ai_data_operations_emplo.Worker.System.Constraints.{claim_batch_accepted}
use ai_data_operations_emplo.Worker.System.Lifecycle.{Later, run_lifecycle, finished_run_frozen}
use ai_data_operations_emplo.Worker.System.Attempts.{Within}
use ai_data_operations_emplo.Worker.System.Sessions.{complete_failure-within}
use ai_data_operations_emplo.Worker.Tests.Data.{
  settings, env, metrics, task, waiting, working, world, succeeded_run, fresh, waiting-checked,
  working-checked,
}

abbrev after_success : World
after_success = (complete_success 1500 100 7 "w" none (world working)).1

success-done : complete_success 1500 100 7 "w" none (world working) ≡ (done, after_success)
unfolding complete_success update assign success_values check_constraints status_invariants
    finished_after_started lease_consistency pending_count
success-done = refl

abbrev after_failure : World
after_failure = (complete_failure env (λ w. w) 1500 100 7 "w" "lost" true none (world working)).1

failure-done :
    complete_failure env (λ w. w) 1500 100 7 "w" "lost" true none (world working)
    ≡ (done, after_failure)
unfolding complete_failure report_failure should_retry retry_delay requeue_values failed_values
    update assign check_constraints status_invariants finished_after_started lease_consistency
    pending_count
failure-done = refl

stale_lease-IsRefused_example :
    IsRefused env 100 7 (heartbeat env 1600 100 7 (world succeeded_run)).1
stale_lease-IsRefused_example =
    stale_lease-IsRefused env {policy = Anything} 100 7 fresh
      ((7, omega arith, refl), ((λ _ held. cc held), tt))
      (next here (beat 1600 100 7 (world succeeded_run)))

success_reported_once_example : IsRefused env 100 7 after_success
success_reported_once_example =
    success_reported_once env {policy = Anything} 1500 100 7 "w" none (world working) fresh
      working-checked (7, omega arith, refl) success-done here

failure_reported_once_example : IsRefused env 100 7 after_failure
failure_reported_once_example =
    failure_reported_once env {policy = Anything} (λ w. w) 1500 100 7 "w" "lost" true none
      (world working) fresh working-checked (7, omega arith, refl) failure-done here

claim_batch_accepted_example :
    AllChecked (world waiting).runs
    × (claim_batch env (λ _. false) 1000 "w" none (world waiting) ≢ none)
claim_batch_accepted_example =
    claim_batch_accepted env {policy = Anything} (λ _. false) 1000 "w" none waiting-checked here

run_lifecycle_example : Later 100 working after_success.runs
run_lifecycle_example =
    run_lifecycle env {policy = Anything} 100 working
      (next here (succeed 1500 100 7 "w" none (world working))) refl

finished_run_frozen_example :
    get_run 100 (heartbeat env 1600 100 7 (world succeeded_run)).1.runs ≡ some succeeded_run
finished_run_frozen_example =
    finished_run_frozen env {policy = Anything} 100 succeeded_run tt
      (next here (beat 1600 100 7 (world succeeded_run))) refl

keyed :
    (i : ℕ) (run : TaskRun)
    → get_run i (world working).runs ≡ some run
    → All (λ r. r.id ≡ i → r ≡ run) (world working).runs
keyed i run e = ((λ same. ground (arith, e, same)), tt)

complete_failure-within_example : Reach env (Within 3) (world working) after_failure
complete_failure-within_example =
    complete_failure-within env 3 (λ w. w) 1500 100 7 "w" "lost" true none (world working) fresh
      keyed (7, omega arith, refl) (λ task_id. ground arith) here
