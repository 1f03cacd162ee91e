-- ===== src/Worker/Reaper.antt =====
-- backend/app/worker/reaper.py.
pub mod Rows
pub mod Sweep
use ai_data_operations_emplo.Prelude.{
  ℕ, ◌+◌, Bool, true, false, not, ◌&&◌, Option, none, some, List, [], ◌∷◌, String, select, ltb,
}
use ai_data_operations_emplo.Worker.Model.{TaskRun, World, Env, is_running}
use ai_data_operations_emplo.Worker.Session.{
  Outcome, done, lease_lost, integrity_error, pending_count,
}
use ai_data_operations_emplo.Worker.Failure.{complete_failure}

-- What other sessions commit before the k-th report reads its row, and between that and its UPDATE.
pub record Others : Type 0 where
  pub before : ℕ → World → World
  pub during : ℕ → World → World

-- `column < now` of SQL.
abbrev pub past : Option ℕ → ℕ → Bool
past none now = false
past (some t) now = ltb t now

unfoldable pub lease_expired : (ℕ → Bool) → ℕ → TaskRun → Bool
lease_expired locked now r = is_running r.status && past r.lease_expires_at now && not (locked r.id)

abbrev add_lease : ℕ → Option ℕ → List (ℕ × ℕ) → List (ℕ × ℕ)
add_lease i none rest = rest
add_lease i (some token) rest = (i, token) ∷ rest

-- The identifier and the token of each row; a running row has a token by
-- ck_task_runs_lease_consistency.
unfoldable pub leases : List TaskRun → List (ℕ × ℕ)
leases [] = []
leases (r ∷ rows) = add_lease r.id r.lease_token (leases rows)

abbrev pub reaper_message : String
reaper_message =
    "Execution timed out: lease expired without a heartbeat (worker likely crashed or lost connectivity)."

abbrev recovered_by : Outcome → ℕ
recovered_by done = 1
recovered_by lease_lost = 0
recovered_by integrity_error = 0

-- The loop over the expired leases; an exception is logged and the sweep goes on. The k-th report
-- takes the time `clock k`.
unfoldable pub reap_loop : Env → Others → (ℕ → ℕ) → String → ℕ → List (ℕ × ℕ) → World → ℕ × World
reap_loop env others clock worker_id k [] w = (0, w)
reap_loop env others clock worker_id k ((i, token) ∷ rest) w =
    let (outcome, w') =
      complete_failure env (others.during k) (clock k) i token worker_id reaper_message true none
        (others.before k w) in
    let (recovered, w'') = reap_loop env others clock worker_id (k + 1) rest w' in
    (recovered_by outcome + recovered, w'')

abbrev set_queue_depth : World → World
set_queue_depth w = record w { metrics = record w.metrics { queue_depth = pending_count w.runs } }

unfoldable pub reap_expired_runs :
    Env → Others → (ℕ → Bool) → ℕ → (ℕ → ℕ) → String → World → ℕ × World
reap_expired_runs env others locked now clock worker_id w =
    let (recovered, w') =
      reap_loop env others clock worker_id 0 (leases (select (lease_expired locked now) w.runs))
        w in
    (recovered, set_queue_depth w')
