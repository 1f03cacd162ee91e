-- ===== src/Worker/Failure.antt =====
-- `complete_failure` of backend/app/worker/engine.py.
use ai_data_operations_emplo.Prelude.{
  List, ℕ, ◌+◌, ◌-◌, ◌*◌, ◌^◌, min, Bool, ◌&&◌, Option, none, some, String, ltb, ◌==◌,
  if◌then◌else◌, holds, or_default,
}
use ai_data_operations_emplo.Worker.Model.{
  TaskRun, TaskRunStatus, pending, running, Detail, World, Env, is_running, seconds, get_run,
  get_task, max_attempts_of,
}
use ai_data_operations_emplo.Worker.Table.{update}
use ai_data_operations_emplo.Worker.Session.{Outcome, lease_lost, record_event, pending_count}
use ai_data_operations_emplo.Worker.Lease.{owned, guarded}

-- `base * 2 ** (attempt - 1)` seconds, capped; with no attempt Python's power is 0.5.
unfoldable pub retry_delay : Env → ℕ → ℕ
retry_delay env attempt =
    min
      (if attempt == 0
        then env.settings.worker_retry_base_delay_seconds * 500_000
        else seconds (env.settings.worker_retry_base_delay_seconds * 2 ^ (attempt - 1)))
      (seconds env.settings.worker_retry_max_delay_seconds)

unfoldable pub requeue_values : ℕ → Option String → TaskRun → TaskRun
requeue_values next_retry_at log_output r = record r {
  status = pending;
  started_at = none;
  finished_at = none;
  error_message = none;
  log_output = log_output;
  lease_token = none;
  lease_expires_at = none;
  next_retry_at = some next_retry_at;
}

unfoldable pub failed_values : ℕ → String → Option String → TaskRun → TaskRun
failed_values now error_message log_output r = record r {
  status = TaskRunStatus.failed;
  finished_at = some now;
  error_message = some error_message;
  log_output = log_output;
  lease_token = none;
  lease_expires_at = none;
}

unfoldable pub should_retry : Env → World → TaskRun → Bool → Bool
should_retry env w run retryable =
    retryable
    && ltb run.attempt_count (
        or_default (max_attempts_of (get_task run.task_id w.tasks))
          env.settings.worker_default_max_attempts)

abbrev pub count_retry : World → World
count_retry w = record w {
  metrics = record w.metrics { tasks_retried_total = w.metrics.tasks_retried_total + 1 };
}

abbrev pub count_failure : World → World
count_failure w = record w {
  metrics = record w.metrics { tasks_failed_total = w.metrics.tasks_failed_total + 1 };
}

abbrev pub refresh_queue_depth : World → World
refresh_queue_depth w = record w {
  metrics = record w.metrics { queue_depth = pending_count w.runs };
}

abbrev pub requeued : ℕ → String → String → TaskRun → World → List TaskRun → World
requeued next_retry_at worker_id error_message run w rows = refresh_queue_depth (
    record_event (count_retry (record w { runs = rows })) run "requeued" running pending worker_id
      (Detail.requeued error_message next_retry_at run.attempt_count))

abbrev pub terminated : String → String → Bool → TaskRun → World → List TaskRun → World
terminated worker_id error_message retryable run w rows = refresh_queue_depth (
    record_event (count_failure (record w { runs = rows })) run "failed" running
      TaskRunStatus.failed worker_id (Detail.failed error_message run.attempt_count retryable))

-- The UPDATE of complete_failure and what follows, in the world that it then meets; `run` and
-- `retry` were read before. The counter is raised before the row count is tested.
unfoldable pub report_failure :
    Env
    → ℕ
    → ℕ
    → ℕ
    → String
    → String
    → Bool
    → Option String
    → TaskRun
    → Bool
    → World
    → Outcome × World
report_failure env now i token worker_id error_message retryable log_output run retry w =
    let next_retry_at = now + retry_delay env run.attempt_count in
    if retry
    then guarded (update (owned i token) (requeue_values next_retry_at log_output) w.runs) w
        (count_retry w) (requeued next_retry_at worker_id error_message run w)
    else guarded (update (owned i token) (failed_values now error_message log_output) w.runs) w
        (count_failure w) (terminated worker_id error_message retryable run w)

abbrev pub failure_of :
    Env
    → (World → World)
    → ℕ
    → ℕ
    → ℕ
    → String
    → String
    → Bool
    → Option String
    → World
    → Option TaskRun
    → Outcome × World
failure_of env others now i token worker_id error_message retryable log_output w none =
    (lease_lost, w)
failure_of env others now i token worker_id error_message retryable log_output w (some run) =
    if holds run.lease_token token && is_running run.status
    then report_failure env now i token worker_id error_message retryable log_output run
        (should_retry env w run retryable) (others w)
    else (lease_lost, w)

-- `w` is the world from which the session has its copy of the row, without a lock, and `others` is
-- what other sessions commit from then to the UPDATE. `db.get` loads the copy itself when a commit or
-- a rollback has expired it, as for the reaper; where the session already has one, as execute_one has
-- from its first line, `db.get` returns that (Worker.Runner).
unfoldable pub complete_failure :
    Env
    → (World → World)
    → ℕ
    → ℕ
    → ℕ
    → String
    → String
    → Bool
    → Option String
    → World
    → Outcome × World
complete_failure env others now i token worker_id error_message retryable log_output w =
    failure_of env others now i token worker_id error_message retryable log_output w
      (get_run i w.runs)
