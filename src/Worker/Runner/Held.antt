-- ===== src/Worker/Runner/Held.antt =====
-- `execute_one` (backend/app/worker/runner.py) by the holder of the lease.
use Prim.Native.String as String
use ai_data_operations_emplo.Prelude.{ℕ, ◌≡◌, none, some, String}
use ai_data_operations_emplo.Worker.Model.{TaskRun, World, Env, get_run}
use ai_data_operations_emplo.Worker.Runner.{Exit, finished, Job}
use ai_data_operations_emplo.Worker.System.Holder.{IsHeld}

-- The run is over for this worker: it has no lease and its attempts are counted as before.
abbrev pub IsReported : ℕ → TaskRun → World → Type 0
IsReported i run w =
    (r : TaskRun) × (get_run i w.runs ≡ some r)
    × (r.lease_token ≡ none)
    × (r.attempt_count ≡ run.attempt_count)

module _ (env : Env) (worker_id : String) (job : Job) (w : World) (token : ℕ) (run : TaskRun)
    (held : IsHeld job.task_run_id token job.now w.runs run)
    (still_held : IsHeld job.task_run_id token job.now (job.during w).runs run) where
  abbrev Ends : Exit × World → Type 0
  Ends result = (result.0 ≡ finished) × IsReported job.task_run_id run result.1
