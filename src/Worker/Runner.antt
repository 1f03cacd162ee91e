-- ===== src/Worker/Runner.antt =====
-- `execute_one` of backend/app/worker/runner.py, and the loop of `run_forever` over the claimed runs.
-- The handler, which the registry finds, is a parameter: what it did before the report is an Attempt,
-- and it commits in sessions of its own. The thread of the heartbeats is another session, as in
-- Worker.System. Every commit expires the objects of the session (`expire_on_commit` of SQLAlchemy),
-- so `task_run.lease_token` of line 42 loads the row as it is when the turn of the run comes, with
-- the token that it has then. The session commits nothing more before the report, so the `db.get` of
-- complete_failure returns that copy, without a SELECT.
pub mod Escapes
pub mod Held
use Prim.Native.String as String
use ai_data_operations_emplo.Prelude.{
  ℕ, Bool, true, false, Option, none, some, List, [], ◌∷◌, String,
}
use ai_data_operations_emplo.Worker.Model.{TaskRun, World, Env, get_run}
use ai_data_operations_emplo.Worker.Session.{Outcome, done, lease_lost, integrity_error}
use ai_data_operations_emplo.Worker.Lease.{complete_success}
use ai_data_operations_emplo.Worker.Failure.{complete_failure}

-- How get_handler and handler.execute end: with the text of the exception, where they raise one.
pub data Attempt : Type 0 where
  returned : Option String → Attempt
  transient permanent lookup_failed unexpected : String → Attempt

-- `execute_one` returns, an exception of a report leaves it, or the row is gone at line 42
-- (ObjectDeletedError).
pub data Exit : Type 0 where
  finished : Exit
  raised : Outcome → Exit
  row_deleted : Exit

-- One call: what other sessions commit between the call before and the turn of this run, and between
-- line 42 and the UPDATE of the report.
pub record Job : Type 0 where
  pub task_run_id : ℕ
  pub until_turn : World → World
  pub during : World → World
  pub now : ℕ
  pub attempt : Attempt

-- A report with no handler of exceptions around it.
abbrev pub unguarded : Outcome × World → Exit × World
unguarded (done, w) = (finished, w)
unguarded (lease_lost, w) = (raised lease_lost, w)
unguarded (integrity_error, w) = (raised integrity_error, w)

-- `except LeaseLostError: pass`
abbrev pub lease_guarded : Outcome × World → Exit × World
lease_guarded (done, w) = (finished, w)
lease_guarded (lease_lost, w) = (finished, w)
lease_guarded (integrity_error, w) = (raised integrity_error, w)

-- The handler of exceptions around the report of each attempt. A success that the database refuses
-- goes to `except Exception`, whose report is refused with it: PostgreSQL takes no statement in a
-- transaction that has failed.
abbrev pub concluded : Attempt → Outcome × World → Exit × World
concluded (returned _) = lease_guarded
concluded (transient _) = unguarded
concluded (permanent _) = unguarded
concluded (lookup_failed _) = unguarded
concluded (unexpected _) = lease_guarded

-- A failure, in the world of line 42.
unfoldable pub report : Env → String → Job → ℕ → Bool → String → World → Outcome × World
report env worker_id job token retryable error_message w =
    complete_failure env job.during job.now job.task_run_id token worker_id error_message retryable
      none w

unfoldable pub report_attempt : Env → String → Job → ℕ → Attempt → World → Outcome × World
report_attempt env worker_id job token (returned log_output) w =
    complete_success job.now job.task_run_id token worker_id log_output (job.during w)
report_attempt env worker_id job token (transient message) w =
    report env worker_id job token true message w
report_attempt env worker_id job token (permanent message) w =
    report env worker_id job token false message w
report_attempt env worker_id job token (lookup_failed message) w =
    report env worker_id job token false message w
report_attempt env worker_id job token (unexpected message) w =
    report env worker_id job token true (String.◌++◌ "Unexpected error: " message) w

-- With no token the run is not running (ck_task_runs_lease_consistency): the guard of a failure
-- refuses it, and the UPDATE of a success finds no running row whose token IS NULL.
abbrev pub execute_attempt : Env → String → Job → Option ℕ → World → Exit × World
execute_attempt env worker_id job none w = concluded job.attempt (lease_lost, job.during w)
execute_attempt env worker_id job (some token) w =
    concluded job.attempt (report_attempt env worker_id job token job.attempt w)

abbrev pub execute_row : Env → String → Job → Option TaskRun → World → Exit × World
execute_row env worker_id job none w = (row_deleted, w)
execute_row env worker_id job (some task_run) w =
    execute_attempt env worker_id job task_run.lease_token w

-- In the world of line 42.
abbrev pub execute_one : Env → String → Job → World → Exit × World
execute_one env worker_id job w = execute_row env worker_id job (get_run job.task_run_id w.runs) w

abbrev pub and_then : Exit × World → (World → Exit × World) → Exit × World
and_then (finished, w) rest = rest w
and_then (raised outcome, w) rest = (raised outcome, w)
and_then (row_deleted, w) rest = (row_deleted, w)

-- `for task_run in claimed: execute_one(...)`: an exception ends the loop, and `run_forever` with it.
unfoldable pub execute_claimed : Env → String → List Job → World → Exit × World
execute_claimed env worker_id [] w = (finished, w)
execute_claimed env worker_id (job ∷ jobs) w =
    and_then (execute_one env worker_id job (job.until_turn w)) (execute_claimed env worker_id jobs)
