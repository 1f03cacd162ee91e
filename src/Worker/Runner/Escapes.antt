-- ===== src/Worker/Runner/Escapes.antt =====
-- Which exceptions leave `execute_one` (backend/app/worker/runner.py), and what it has counted then.
use Prim.Native.String as String
use ai_data_operations_emplo.Prelude.{
  ℕ, ◌≡◌, refl, ap, ◌∙◌, Bool, true, false, none, some, List, ◌∷◌, String, All, holds, ◌&&◌, arith,
  if◌then◌else◌,
}
use ai_data_operations_emplo.Worker.Model.{TaskRun, running, World, Env, get_run, is_running}
use ai_data_operations_emplo.Worker.Session.{lease_lost}
use ai_data_operations_emplo.Worker.Failure.{should_retry, count_retry, count_failure}
use ai_data_operations_emplo.Worker.Runner.{
  Attempt, returned, transient, permanent, lookup_failed, unexpected, Exit, finished, raised, Job,
  execute_attempt, execute_row, execute_one, execute_claimed, report, report_attempt, concluded,
  and_then,
}
use ai_data_operations_emplo.Worker.System.Fencing.{NotHeld, complete_success_stale}
use ai_data_operations_emplo.Worker.System.LostRace.{complete_failure_lost}

-- What becomes of LeaseLostError after each kind of attempt.
abbrev pub exit_of : Attempt → Exit
exit_of (returned _) = finished
exit_of (transient _) = raised lease_lost
exit_of (permanent _) = raised lease_lost
exit_of (lookup_failed _) = raised lease_lost
exit_of (unexpected _) = finished

concluded_lost :
    (attempt : Attempt) (w : World) → concluded attempt (lease_lost, w) ≡ (exit_of attempt, w)
concluded_lost (returned _) w = refl
concluded_lost (transient _) w = refl
concluded_lost (permanent _) w = refl
concluded_lost (lookup_failed _) w = refl
concluded_lost (unexpected _) w = refl

-- The run is under the token when its turn comes, and no row is any more when the report is written.
pub record IsLost (job : Job) (token : ℕ) (w : World) (run : TaskRun) : Type 0 where
  pub found : get_run job.task_run_id w.runs ≡ some run
  pub leased : run.lease_token ≡ some token
  pub is_running : run.status ≡ running
  pub lost : All (NotHeld job.task_run_id token) (job.during w).runs

module _ (env : Env) (worker_id : String) where
  -- The world after a failure that is refused.
  abbrev pub counted : Bool → TaskRun → World → World → World
  counted retryable run w refused =
      if should_retry env w run retryable then count_retry refused else count_failure refused

  abbrev pub counted_for : Attempt → TaskRun → World → World → World
  counted_for (returned _) run w refused = refused
  counted_for (transient _) run w refused = counted true run w refused
  counted_for (permanent _) run w refused = count_failure refused
  counted_for (lookup_failed _) run w refused = count_failure refused
  counted_for (unexpected _) run w refused = counted true run w refused

  report_lost :
      (job : Job) (token : ℕ) (retryable : Bool) (message : String) (w : World) (run : TaskRun)
      → IsLost job token w run
      → report env worker_id job token retryable message w
        ≡ (lease_lost, counted retryable run w (job.during w))
  unfolding report
  report_lost job token retryable message w run h =
      let guard : (holds run.lease_token token && is_running run.status) ≡ true =
        rw (h.leased, h.is_running) (ground arith) in
      complete_failure_lost env job.during job.now job.task_run_id token worker_id message retryable
        none w run h.found guard h.lost

  never_retried : (w : World) (run : TaskRun) → should_retry env w run false ≡ false
  unfolding should_retry
  never_retried w run = refl

  report_attempt_lost :
      (job : Job) (token : ℕ) (attempt : Attempt) (w : World) (run : TaskRun)
      → IsLost job token w run
      → report_attempt env worker_id job token attempt w
        ≡ (lease_lost, counted_for attempt run w (job.during w))
  unfolding report_attempt
  report_attempt_lost job token (returned log_output) w run h =
      complete_success_stale job.now job.task_run_id token worker_id log_output (job.during w)
        h.lost
  report_attempt_lost job token (transient message) w run h =
      report_lost job token true message w run h
  report_attempt_lost job token (permanent message) w run h =
      rw (report_lost job token false message w run h, never_retried w run) refl
  report_attempt_lost job token (lookup_failed message) w run h =
      rw (report_lost job token false message w run h, never_retried w run) refl
  report_attempt_lost job token (unexpected message) w run h =
      report_lost job token true (String.◌++◌ "Unexpected error: " message) w run h

  execute_one_lost :
      (job : Job) (token : ℕ) (w : World) (run : TaskRun)
      → IsLost job token w run
      → execute_one env worker_id job w
        ≡ (exit_of job.attempt, counted_for job.attempt run w (job.during w))
  execute_one_lost job token w run h =
      ap (λ row. execute_row env worker_id job row w) h.found
      ∙ ap (λ t. execute_attempt env worker_id job t w) h.leased
      ∙ ap (concluded job.attempt) (report_attempt_lost job token job.attempt w run h)
      ∙ concluded_lost job.attempt (counted_for job.attempt run w (job.during w))

  -- When a run is under some lease at its turn, and no row holds that token any more when the report
  -- of its attempt is written, `execute_one` leaves all rows and events as the other sessions left
  -- them. It returns after a success or an unexpected exception. After a transient or a permanent
  -- error, or when no handler was found, LeaseLostError leaves it, and the runs that were claimed with
  -- it are not executed. Each attempt that is not a success has raised a counter by one for a report
  -- that did not happen: the counter of retries if the run was to be retried, and otherwise the
  -- counter of failures.
  pub execute_claimed_lost :
      (job : Job) (jobs : List Job) (token : ℕ) (w : World) (run : TaskRun)
      → IsLost job token (job.until_turn w) run
      → let turn = job.until_turn w in
        let left = counted_for job.attempt run turn (job.during turn) in
        (execute_one env worker_id job turn ≡ (exit_of job.attempt, left))
        × (exit_of job.attempt ≡ raised lease_lost
            → execute_claimed env worker_id (job ∷ jobs) w ≡ (raised lease_lost, left))
        × (exit_of job.attempt ≡ finished
            → execute_claimed env worker_id (job ∷ jobs) w
              ≡ execute_claimed env worker_id jobs left)
  unfolding execute_claimed
  execute_claimed_lost job jobs token w run h =
      let e = execute_one_lost job token (job.until_turn w) run h in
      let rest = execute_claimed env worker_id jobs in
      let left = counted_for job.attempt run (job.until_turn w) (job.during (job.until_turn w)) in
      let began = ap (λ result. and_then result rest) e in
      (
        e,
        λ l. began ∙ ap (λ exit. and_then (exit, left) rest) l,
        λ l. began ∙ ap (λ exit. and_then (exit, left) rest) l,
      )
