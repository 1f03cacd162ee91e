-- ===== src/Worker/Claim.antt =====
-- `claim_batch` of backend/app/worker/engine.py.
use ai_data_operations_emplo.Prelude.{
  ℕ, ◌+◌, Bool, true, not, ◌&&◌, Option, none, some, List, [], ◌∷◌, ◌++◌, String, map, length,
  select, take, leb, ltb, ◌==◌, if◌then◌else◌, is_none, or_default,
}
use ai_data_operations_emplo.Prelude.Order.{sort_by}
use ai_data_operations_emplo.Worker.Model.{
  TaskRun, Task, pending, running, Detail, World, Env, is_pending, seconds, get_run, get_task,
  timeout_of,
}
use ai_data_operations_emplo.Worker.Table.{update}
use ai_data_operations_emplo.Worker.Session.{record_event, pending_count}

-- `next_retry_at IS NULL OR next_retry_at <= now`
abbrev pub retry_due : Option ℕ → ℕ → Bool
retry_due none now = true
retry_due (some t) now = leb t now

-- The rows of the claiming query; `locked` are those that other sessions hold, which SKIP LOCKED
-- leaves out.
unfoldable pub claimable : (ℕ → Bool) → ℕ → List Task → TaskRun → Bool
claimable locked now tasks r =
    is_pending r.status
    && retry_due r.next_retry_at now
    && not (is_none (get_task r.task_id tasks))
    && not (locked r.id)

abbrev pub created_before : TaskRun → TaskRun → Bool
created_before a b = ltb a.created_at b.created_at

unfoldable pub candidates : (ℕ → Bool) → ℕ → ℕ → World → List (ℕ × Option ℕ)
candidates locked now batch_size w =
    map (λ r. (r.id, timeout_of (get_task r.task_id w.tasks)))
      (take batch_size (sort_by created_before (select (claimable locked now w.tasks) w.runs)))

abbrev pub pending_row : ℕ → TaskRun → Bool
pending_row i r = r.id == i && is_pending r.status

unfoldable pub claim_values : ℕ → ℕ → ℕ → TaskRun → TaskRun
claim_values now token expires r = record r {
  status = running;
  started_at = some now;
  lease_token = some token;
  lease_expires_at = some expires;
  last_heartbeat_at = some now;
  attempt_count = r.attempt_count + 1;
}

abbrev claimed_row : String → ℕ → World → List TaskRun → Option TaskRun → World × List TaskRun
claimed_row worker_id expires w claimed none = (w, claimed)
claimed_row worker_id expires w claimed (some run) = (
  record_event w run "claimed" pending running worker_id (Detail.claimed run.attempt_count expires),
  claimed ++ run ∷ [],
)

abbrev claim_result :
    ℕ
    → String
    → ℕ
    → World
    → List TaskRun
    → Option (List TaskRun × ℕ)
    → Option (World × List TaskRun)
claim_result i worker_id expires w claimed none = none
claim_result i worker_id expires w claimed (some (rows, rowcount)) =
    let w' = record w { runs = rows; draws = w.draws + 1 } in
    some (
      if rowcount == 1
      then claimed_row worker_id expires w' claimed (get_run i rows)
      else (w', claimed))

-- One round of the loop over the candidates.
unfoldable pub claim_one :
    Env → ℕ → String → ℕ × Option ℕ → World × List TaskRun → Option (World × List TaskRun)
claim_one env now worker_id (i, timeout_seconds) (w, claimed) =
    let expires =
      now + seconds (or_default timeout_seconds env.settings.worker_default_timeout_seconds) in
    claim_result i worker_id expires w claimed
      (update (pending_row i) (claim_values now (env.uuid4 w.draws) expires) w.runs)

unfoldable pub claim_loop :
    Env → ℕ → String → List (ℕ × Option ℕ) → World × List TaskRun → Option (World × List TaskRun)
claim_loop env now worker_id [] s = some s
claim_loop env now worker_id (c ∷ cs) s = elim (claim_one env now worker_id c s) [
  | none ↦ none
  | some s' ↦ claim_loop env now worker_id cs s'
]

abbrev claim_committed : World → Option (World × List TaskRun) → Option (World × List TaskRun)
claim_committed w none = none
claim_committed w (some (w', claimed)) = some (
  record w' {
    metrics = record w'.metrics {
      tasks_claimed_total = w'.metrics.tasks_claimed_total + length claimed;
      queue_depth = pending_count w'.runs;
    };
  },
  claimed,
)

abbrev pub batch_size_or_default : Env → Option ℕ → ℕ
batch_size_or_default env none = env.settings.worker_claim_batch_size
batch_size_or_default env (some n) = n

-- `none` is an IntegrityError, which rolls the batch back.
unfoldable pub claim_batch :
    Env → (ℕ → Bool) → ℕ → String → Option ℕ → World → Option (World × List TaskRun)
claim_batch env locked now worker_id batch_size w = claim_committed w (
    claim_loop env now worker_id (candidates locked now (batch_size_or_default env batch_size) w)
      (w, []))
