-- ===== src/Worker/Session.antt =====
-- What the functions of backend/app/worker/engine.py share. A session's statements up to its commit
-- are one transition of the committed world; PostgreSQL's row locks keep the rows that it has
-- selected for update.
use ai_data_operations_emplo.Prelude.{ℕ, List, [], ◌∷◌, ◌++◌, String, tally}
use ai_data_operations_emplo.Worker.Model.{TaskRun, TaskRunStatus, Detail, World, is_pending}

-- How a call ends: it returns, it raises LeaseLostError, or the database raises IntegrityError.
pub data Outcome : Type 0 where
  done lease_lost integrity_error : Outcome

unfoldable pub pending_count : List TaskRun → ℕ
pending_count rows = tally (λ r. is_pending r.status) rows

abbrev pub record_event :
    World → TaskRun → String → TaskRunStatus → TaskRunStatus → String → Detail → World
record_event w run event_type from_status to_status worker_id detail = record w {
  events =
      w.events
      ++ (record {
        organization_id = run.organization_id;
        task_run_id = run.id;
        event_type = event_type;
        from_status = from_status;
        to_status = to_status;
        worker_id = worker_id;
        detail = detail;
      })
        ∷ [];
}
