-- ===== src/Worker/Model.antt =====
-- The rows that the worker reads and writes (backend/app/models/task.py, task_run.py and
-- task_run_event.py), its settings (backend/app/core/config.py) and its counters
-- (backend/app/worker/metrics.py). Identifiers and tokens are UUIDs, which are only compared, and
-- an instant is a number of microseconds; `uuid4` is a parameter, the n-th draw.
use ai_data_operations_emplo.Prelude.{
  ℕ, ◌*◌, Bool, true, false, Option, none, some, List, String, ◌==◌, find,
}

pub data TaskRunStatus : Type 0 where
  pending running success failed : TaskRunStatus

abbrev pub is_pending : TaskRunStatus → Bool
is_pending pending = true
is_pending _ = false

abbrev pub is_running : TaskRunStatus → Bool
is_running running = true
is_running _ = false

pub record TaskRun : Type 0 where
  pub id : ℕ
  pub organization_id : ℕ
  pub task_id : ℕ
  pub status : TaskRunStatus
  pub triggered_by : Option ℕ
  pub started_at : Option ℕ
  pub finished_at : Option ℕ
  pub log_output : Option String
  pub error_message : Option String
  pub created_at : ℕ
  pub idempotency_key : ℕ
  pub lease_token : Option ℕ
  pub lease_expires_at : Option ℕ
  pub last_heartbeat_at : Option ℕ
  pub attempt_count : ℕ
  pub next_retry_at : Option ℕ
  pub source_task_run_id : Option ℕ

-- The columns of a task that the engine and the scheduler use.
pub record Task : Type 0 where
  pub id : ℕ
  pub organization_id : ℕ
  pub schedule_interval_seconds : Option ℕ
  pub next_run_at : Option ℕ
  pub max_attempts : Option ℕ
  pub timeout_seconds : Option ℕ
  pub is_active : Bool

-- The `detail` dictionaries that the engine writes. A duration is `finished - started`, kept as
-- the pair.
pub data Detail : Type 0 where
  claimed : (attempt_count lease_expires_at : ℕ) → Detail
  succeeded : (duration : Option (ℕ × ℕ)) → Detail
  requeued : (error_message : String) (next_retry_at attempt_count : ℕ) → Detail
  failed : (error_message : String) (attempt_count : ℕ) (retryable : Bool) → Detail

pub record TaskRunEvent : Type 0 where
  pub organization_id : ℕ
  pub task_run_id : ℕ
  pub event_type : String
  pub from_status : TaskRunStatus
  pub to_status : TaskRunStatus
  pub worker_id : String
  pub detail : Detail

pub record Settings : Type 0 where
  pub worker_claim_batch_size : ℕ
  pub worker_default_timeout_seconds : ℕ
  pub worker_default_max_attempts : ℕ
  pub worker_retry_base_delay_seconds : ℕ
  pub worker_retry_max_delay_seconds : ℕ
  pub scheduler_claim_batch_size : ℕ

pub record Metrics : Type 0 where
  pub tasks_claimed_total : ℕ
  pub tasks_completed_total : ℕ
  pub tasks_failed_total : ℕ
  pub tasks_retried_total : ℕ
  pub task_execution_durations : List (ℕ × ℕ)
  pub queue_depth : ℕ
  pub scheduler_passes_total : ℕ
  pub scheduler_errors_total : ℕ
  pub scheduler_runs_created_total : ℕ

-- What is committed, the counters, and how many UUIDs have been drawn.
pub record World : Type 0 where
  pub runs : List TaskRun
  pub tasks : List Task
  pub events : List TaskRunEvent
  pub metrics : Metrics
  pub draws : ℕ

-- The settings and the source of UUIDs.
pub record Env : Type 0 where
  pub settings : Settings
  pub uuid4 : ℕ → ℕ

-- `timedelta(seconds=n)`
abbrev pub seconds : ℕ → ℕ
seconds n = n * 1_000_000

-- `db.get(TaskRun, id)`
abbrev pub get_run : ℕ → List TaskRun → Option TaskRun
get_run i = find (λ r. r.id == i)

abbrev pub get_task : ℕ → List Task → Option Task
get_task i = find (λ t. t.id == i)

-- `task_run.task.timeout_seconds` and `.max_attempts`. The foreign key fk_task_runs_org_task
-- excludes a run with no task, which would give `none` here.
abbrev pub timeout_of : Option Task → Option ℕ
timeout_of none = none
timeout_of (some t) = t.timeout_seconds

abbrev pub max_attempts_of : Option Task → Option ℕ
max_attempts_of none = none
max_attempts_of (some t) = t.max_attempts
