-- ===== src/Worker/Lease.antt =====
-- `heartbeat` and `complete_success` of backend/app/worker/engine.py: the updates that a lease
-- token guards.
use ai_data_operations_emplo.Prelude.{
  ℕ, ◌+◌, Bool, ◌&&◌, Option, none, some, List, [], ◌∷◌, ◌++◌, String, ◌==◌, if◌then◌else◌, holds,
  or_default,
}
use ai_data_operations_emplo.Worker.Model.{
  TaskRun, running, success, Detail, World, Env, is_running, seconds, get_run, get_task, timeout_of,
}
use ai_data_operations_emplo.Worker.Table.{update}
use ai_data_operations_emplo.Worker.Session.{
  Outcome, done, lease_lost, integrity_error, record_event, pending_count,
}

-- `WHERE id = :id AND lease_token = :token AND status = 'running'`
abbrev pub owned : ℕ → ℕ → TaskRun → Bool
owned i token r = r.id == i && holds r.lease_token token && is_running r.status

-- What follows a guarded UPDATE: the statement is refused, or the row count is tested.
abbrev pub guarded :
    Option (List TaskRun × ℕ) → World → World → (List TaskRun → World) → Outcome × World
guarded none refused lost committed = (integrity_error, refused)
guarded (some (rows, rowcount)) refused lost committed =
    if rowcount == 1 then (done, committed rows) else (lease_lost, lost)

unfoldable pub heartbeat_values : ℕ → ℕ → TaskRun → TaskRun
heartbeat_values now expires r = record r {
  last_heartbeat_at = some now;
  lease_expires_at = some expires;
}

abbrev pub run_timeout : World → Option TaskRun → Option ℕ
run_timeout w none = none
run_timeout w (some r) = timeout_of (get_task r.task_id w.tasks)

abbrev pub heartbeat_expiry : Env → ℕ → ℕ → World → ℕ
heartbeat_expiry env now i w =
    now
    + seconds
        (or_default (run_timeout w (get_run i w.runs)) env.settings.worker_default_timeout_seconds)

unfoldable pub heartbeat : Env → ℕ → ℕ → ℕ → World → Outcome × World
heartbeat env now i token w =
    guarded (update (owned i token) (heartbeat_values now (heartbeat_expiry env now i w)) w.runs) w
      w (λ rows. record w { runs = rows })

unfoldable pub success_values : ℕ → Option String → TaskRun → TaskRun
success_values now log_output r = record r {
  status = success;
  finished_at = some now;
  log_output = log_output;
  lease_token = none;
  lease_expires_at = none;
}

abbrev pub observed : ℕ → Option ℕ → Option (ℕ × ℕ)
observed now none = none
observed now (some started) = some (now, started)

abbrev pub observe : Option (ℕ × ℕ) → List (ℕ × ℕ) → List (ℕ × ℕ)
observe none l = l
observe (some d) l = l ++ d ∷ []

abbrev pub succeeded : ℕ → String → World → Option TaskRun → World
succeeded now worker_id w none = w
succeeded now worker_id w (some run) =
    let duration = observed now run.started_at in
    record (record_event w run "succeeded" running success worker_id (Detail.succeeded duration)) {
      metrics = record w.metrics {
        tasks_completed_total = w.metrics.tasks_completed_total + 1;
        task_execution_durations = observe duration w.metrics.task_execution_durations;
        queue_depth = pending_count w.runs;
      };
    }

unfoldable pub complete_success : ℕ → ℕ → ℕ → String → Option String → World → Outcome × World
complete_success now i token worker_id log_output w =
    guarded (update (owned i token) (success_values now log_output) w.runs) w w
      (λ rows. succeeded now worker_id (record w { runs = rows }) (get_run i rows))
