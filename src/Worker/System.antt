-- ===== src/Worker/System.antt =====
-- The system of workers, reapers and schedulers as a step relation: one step is one committed
-- transaction of backend/app/worker/engine.py or an edit of the task table, by any session.
pub mod Moves
pub mod Fencing
pub mod Reported
pub mod Constraints
pub mod Lifecycle
pub mod Attempts
pub mod Sessions
pub mod Holder
pub mod LostRace
use ai_data_operations_emplo.Prelude.{
  ℕ, ◌≡◌, Bool, true, false, ◌&&◌, Option, none, some, List, String, holds,
}
use ai_data_operations_emplo.Worker.Model.{TaskRun, Task, Env, World, Metrics, get_run, is_running}
use ai_data_operations_emplo.Worker.Claim.{claim_batch}
use ai_data_operations_emplo.Worker.Lease.{heartbeat, complete_success}
use ai_data_operations_emplo.Worker.Failure.{report_failure}
use ai_data_operations_emplo.Worker.Scheduler.{create_task_run_record}

-- Which requeues are considered: of a run, under a token, at the rows that the UPDATE meets.
abbrev pub Policy : Type 1
Policy = ℕ → ℕ → List TaskRun → Type 0

abbrev pub Anything : Policy
Anything _ _ _ = Unit

-- `report` allows any row read before, and any decision to retry that the policy allows.
pub data Step (env : Env) (policy : Policy) : World → World → Type 0 where
  claim :
      {w w' : World} (locked : ℕ → Bool) (now : ℕ) (worker_id : String) (batch_size : Option ℕ)
      (claimed : List TaskRun)
      → claim_batch env locked now worker_id batch_size w ≡ some (w', claimed)
      → Step env policy w w'
  beat : (now i token : ℕ) (w : World) → Step env policy w (heartbeat env now i token w).1
  succeed :
      (now i token : ℕ) (worker_id : String) (log_output : Option String) (w : World)
      → Step env policy w (complete_success now i token worker_id log_output w).1
  report :
      (now i token : ℕ) (worker_id error_message : String) (retryable : Bool)
      (log_output : Option String) (run : TaskRun) (retry : Bool) (w : World)
      → (retry ≡ true → policy i token w.runs)
      → Step env policy w
          (report_failure env now i token worker_id error_message retryable log_output run retry
            w).1
  create :
      (created_at organization_id task_id : ℕ) (triggered_by source_task_run_id : Option ℕ)
      (w : World)
      → Step env policy w (
          create_task_run_record env created_at organization_id task_id triggered_by
            source_task_run_id w)
  edit :
      (tasks : List Task) (metrics : Metrics) (w : World)
      → Step env policy w (record w { tasks = tasks; metrics = metrics })

pub data Reach (env : Env) (policy : Policy) (w : World) : World → Type 0 where
  here : Reach env policy w w
  next : {u v : World} → Reach env policy w u → Step env policy u v → Reach env policy w v

-- A property that every step keeps holds after any steps.
pub Reach_induction {κ} :
    (env : Env) {policy : Policy} (P : World → Type κ)
    → ((w w' : World) → Step env policy w w' → P w → P w')
    → {w w' : World} → Reach env policy w w'
    → P w
    → P w'
Reach_induction env P keep here h = h
Reach_induction env P keep (next r st) h = keep _ _ st (Reach_induction env P keep r h)
