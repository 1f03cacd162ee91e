-- ===== src/Worker/Tests/Reports.antt =====
-- The theorems on one report and on one pass at concrete rows.
use ai_data_operations_emplo.Prelude.{
  arith, ℕ, ◌+◌, ◌≤◌, ◌≡◌, refl, true, false, none, some, if◌then◌else◌, tally, ◌==◌,
}
use ai_data_operations_emplo.Worker.Model.{
  TaskRun, TaskRunStatus, pending, success, World, get_run, seconds,
}
use ai_data_operations_emplo.Worker.Session.{done, lease_lost}
use ai_data_operations_emplo.Worker.Lease.{complete_success}
use ai_data_operations_emplo.Worker.Failure.{
  complete_failure, should_retry, count_retry, count_failure,
}
use ai_data_operations_emplo.Worker.Reaper.{Others, reap_expired_runs}
use ai_data_operations_emplo.Worker.Reaper.Sweep.{
  IsExpired, IsKept, IsReaped, reap_expired_runs_lem,
}
use ai_data_operations_emplo.Worker.System.Holder.{
  IsHeld, complete_success_lem, complete_failure_lem,
}
use ai_data_operations_emplo.Worker.System.LostRace.{complete_failure_lost}
use ai_data_operations_emplo.Worker.Scheduler.{Surroundings, run_due_schedules}
use ai_data_operations_emplo.Worker.Scheduler.Once.{run_due_schedules_once}
use ai_data_operations_emplo.Worker.Tests.Data.{
  env, waiting, working, succeeded_run, world, working-checked,
}

held : IsHeld 100 7 1500 (world working).runs working
held = record {
  found = refl;
  unique = refl;
  checked = working-checked;
  held = refl;
  started = refl;
}

complete_success_example :
    (r : TaskRun) × ((complete_success 1500 100 7 "w" (some "log") (world working)).0 ≡ done)
    × (get_run 100 (complete_success 1500 100 7 "w" (some "log") (world working)).1.runs ≡ some r)
    × (r.status ≡ success)
    × (r.finished_at ≡ some 1500)
    × (r.log_output ≡ some "log")
    × (r.lease_token ≡ none)
    × (r.attempt_count ≡ working.attempt_count)
complete_success_example =
    complete_success_lem 100 7 1500 "w" (some "log") (world working) working held refl

abbrev failure : World
failure = (complete_failure env (λ w. w) 1500 100 7 "w" "lost" true none (world working)).1

complete_failure_example :
    (r : TaskRun) × ((complete_failure env
        (λ w. w)
        1500
        100
        7
        "w"
        "lost"
        true
        none
        (world working)).0
      ≡ done)
    × (get_run 100 failure.runs ≡ some r)
    × (r.lease_token ≡ none)
    × (r.attempt_count ≡ working.attempt_count)
    × (should_retry env (world working) working true ≡ true
        → (r.status ≡ pending)
          × ((d : ℕ) × (r.next_retry_at ≡ some (1500 + d))
              × (d ≤ seconds env.settings.worker_retry_max_delay_seconds)))
    × (should_retry env (world working) working true ≡ false
        → (r.status ≡ TaskRunStatus.failed)
          × (r.finished_at ≡ some 1500)
          × (r.error_message ≡ some "lost"))
complete_failure_example =
    complete_failure_lem env (λ w. w) 100 7 1500 "w" "lost" true none (world working) working held
      held

-- Another session has reported the success before the UPDATE.
abbrev beaten : World → World
beaten _ = world succeeded_run

complete_failure_lost_example :
    complete_failure env beaten 1500 100 7 "w" "lost" true none (world working) ≡ (
      lease_lost,
      if should_retry env (world working) working true
          then count_retry (world succeeded_run)
          else count_failure (world succeeded_run),
    )
complete_failure_lost_example =
    complete_failure_lost env beaten 1500 100 7 "w" "lost" true none (world working) working refl
      refl ((λ _ e. cc e), tt)

abbrev alone : Surroundings
alone = record { locked = λ _. false; others = λ _ w. w; raises = λ _. false }

run_due_schedules_once_example :
    tally
      (λ r. r.task_id == 1)
      (run_due_schedules env alone 1200 1201 (some 5) (world waiting)).1.runs
    ≤ tally (λ r. r.task_id == 1) (world waiting).runs + 1
run_due_schedules_once_example =
    run_due_schedules_once env alone 1200 1201 1 (λ _ _. refl) (some 5) (world waiting)
      (refl, ((λ e. cc e), tt))

abbrev no_others : Others
no_others = record { before = λ _ w. w; during = λ _ w. w }

abbrev swept : World
swept =
    (reap_expired_runs env no_others (λ _. false) 2500 (λ k. 2600 + k) "reaper" (world working)).1

-- The lease of the run ends at 2000.
reap_expired_runs_example :
    (IsExpired (λ _. false) 2500 working → IsReaped 100 working swept)
    × (IsKept (λ _. false) 2500 working → get_run 100 swept.runs ≡ some working)
reap_expired_runs_example =
    reap_expired_runs_lem 100 env no_others (λ k. 2600 + k) "reaper" (λ _ _ _ h. h) (λ _ _ _ h. h)
      (λ _. false) 2500 (world working) working (refl, (refl, working-checked)) (λ k. ground arith)
