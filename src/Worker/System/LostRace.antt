-- ===== src/Worker/System/LostRace.antt =====
-- `complete_failure` of backend/app/worker/engine.py when its lease is lost between its read and its
-- UPDATE.
use ai_data_operations_emplo.Prelude.{
  ℕ, ◌+◌, ◌≡◌, refl, Bool, true, ◌&&◌, Option, some, String, holds, if◌then◌else◌, Bool-cases, inl,
  inr, All,
}
use ai_data_operations_emplo.Worker.Model.{TaskRun, Env, World, get_run, is_running}
use ai_data_operations_emplo.Worker.Session.{lease_lost}
use ai_data_operations_emplo.Worker.Failure.{
  retry_delay, requeue_values, failed_values, should_retry, report_failure, complete_failure,
  count_retry, count_failure,
}
use ai_data_operations_emplo.Worker.System.Fencing.{NotHeld, update_none}

-- When the run was held at the read but no row holds the token any more when the UPDATE meets the
-- table, `complete_failure` raises LeaseLostError and no row changes, but the counter of retries, or
-- of failures when the run is not to be retried, has been raised by one for a report that was refused.
pub complete_failure_lost :
    (env : Env) (others : World → World) (now i token : ℕ) (worker_id error_message : String)
    (retryable : Bool) (log_output : Option String) (w : World) (run : TaskRun)
    → get_run i w.runs ≡ some run
    → (holds run.lease_token token && is_running run.status) ≡ true
    → All (NotHeld i token) (others w).runs
    → complete_failure env others now i token worker_id error_message retryable log_output w ≡ (
      lease_lost,
      if should_retry env w run retryable then count_retry (others w) else count_failure (others w),
    )
unfolding complete_failure report_failure
complete_failure_lost env others now i token worker_id error_message retryable log_output w run
      found guard lost =
    elim (Bool-cases (should_retry env w run retryable)) [
      | inl e ↦
          rw
            (
              found,
              guard,
              e,
              update_none i token
                  (requeue_values (now + retry_delay env run.attempt_count) log_output)
                  (others w).runs lost,
            )
            refl
      | inr e ↦
          rw
            (
              found,
              guard,
              e,
              update_none i token (failed_values now error_message log_output) (others w).runs lost,
            )
            refl
    ]
