-- ===== src/Worker/Tests/Data.antt =====
-- Rows, settings and worlds for the tests of backend/app/worker.
use ai_data_operations_emplo.Prelude.{refl, true, none, some, [], ◌∷◌}
use ai_data_operations_emplo.Worker.Model.{
  TaskRun, pending, running, success, Task, Env, Settings, Metrics, World,
}
use ai_data_operations_emplo.Worker.Table.{
  check_constraints, status_invariants, finished_after_started, lease_consistency,
}
use ai_data_operations_emplo.Worker.Table.Laws.{AllChecked}
use ai_data_operations_emplo.Worker.System.Fencing.{IsFresh}

abbrev pub settings : Settings
settings = record {
  worker_claim_batch_size = 2;
  worker_default_timeout_seconds = 60;
  worker_default_max_attempts = 3;
  worker_retry_base_delay_seconds = 5;
  worker_retry_max_delay_seconds = 60;
  scheduler_claim_batch_size = 2;
}

abbrev pub env : Env
env = record { settings = settings; uuid4 = λ n. n }

abbrev pub metrics : Metrics
metrics = record {
  tasks_claimed_total = 0;
  tasks_completed_total = 0;
  tasks_failed_total = 0;
  tasks_retried_total = 0;
  task_execution_durations = [];
  queue_depth = 0;
  scheduler_passes_total = 0;
  scheduler_errors_total = 0;
  scheduler_runs_created_total = 0;
}

abbrev pub task : Task
task = record {
  id = 1;
  organization_id = 9;
  schedule_interval_seconds = some 30;
  next_run_at = some 1000;
  max_attempts = some 3;
  timeout_seconds = none;
  is_active = true;
}

abbrev pub waiting : TaskRun
waiting = record {
  id = 100;
  organization_id = 9;
  task_id = 1;
  status = pending;
  triggered_by = none;
  started_at = none;
  finished_at = none;
  log_output = none;
  error_message = none;
  created_at = 500;
  idempotency_key = 101;
  lease_token = none;
  lease_expires_at = none;
  last_heartbeat_at = none;
  attempt_count = 0;
  next_retry_at = none;
  source_task_run_id = none;
}

-- The run under the lease 7.
abbrev pub working : TaskRun
working = record waiting {
  status = running;
  started_at = some 1000;
  lease_token = some 7;
  lease_expires_at = some 2000;
  last_heartbeat_at = some 1000;
  attempt_count = 1;
}

abbrev pub world : TaskRun → World
world r = record { runs = r ∷ []; tasks = task ∷ []; events = []; metrics = metrics; draws = 200 }

abbrev pub succeeded_run : TaskRun
succeeded_run = record working {
  status = success;
  finished_at = some 1500;
  lease_token = none;
  lease_expires_at = none;
}

pub fresh : IsFresh env
fresh a b e = e

pub waiting-checked : AllChecked (world waiting).runs
unfolding check_constraints status_invariants finished_after_started lease_consistency
waiting-checked = (refl, tt)

pub working-checked : AllChecked (world working).runs
unfolding check_constraints status_invariants finished_after_started lease_consistency
working-checked = (refl, tt)
