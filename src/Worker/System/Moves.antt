-- ===== src/Worker/System/Moves.antt =====
-- The steps of the system as sequences of moves, each one accepted UPDATE or INSERT of task_runs.
use ai_data_operations_emplo.Prelude.{
  ℕ, ◌+◌, ◌≡◌, refl, Bool, true, false, Option, none, some, List, [], ◌∷◌, ◌++◌, String, ◌==◌,
  arith, Option-cases, Bool-cases, inl, inr, or_default,
}
use ai_data_operations_emplo.Worker.Model.{TaskRun, TaskRunStatus, Env, World, get_run, seconds}
use ai_data_operations_emplo.Worker.Table.{update}
use ai_data_operations_emplo.Worker.Claim.{
  candidates, batch_size_or_default, pending_row, claim_values, claim_one, claim_loop, claim_batch,
}
use ai_data_operations_emplo.Worker.Lease.{
  owned, guarded, heartbeat_values, heartbeat_expiry, heartbeat, success_values, succeeded,
  complete_success,
}
use ai_data_operations_emplo.Worker.Failure.{
  requeue_values, failed_values, report_failure, retry_delay, requeued, terminated, count_retry,
  count_failure,
}
use ai_data_operations_emplo.Worker.Scheduler.{create_task_run_record}
use ai_data_operations_emplo.Worker.System.{
  Policy, Step, claim, beat, succeed, report, create, edit,
}

-- The row that `create_task_run_record` adds.
abbrev pub new_run : Env → ℕ → ℕ → ℕ → Option ℕ → Option ℕ → ℕ → TaskRun
new_run env created_at organization_id task_id triggered_by source_task_run_id draws = record {
  id = env.uuid4 draws;
  organization_id = organization_id;
  task_id = task_id;
  status = TaskRunStatus.pending;
  triggered_by = triggered_by;
  started_at = none;
  finished_at = none;
  log_output = none;
  error_message = none;
  created_at = created_at;
  idempotency_key = env.uuid4 (draws + 1);
  lease_token = none;
  lease_expires_at = none;
  last_heartbeat_at = none;
  attempt_count = 0;
  next_retry_at = none;
  source_task_run_id = source_task_run_id;
}

-- The rows and the number of draws, before and after.
pub data Move (env : Env) (policy : Policy) : List TaskRun → ℕ → List TaskRun → ℕ → Type 0 where
  claim_row :
      {rows rows' : List TaskRun} {d d' : ℕ} (i now expires : ℕ) (n : ℕ)
      → d' ≡ d + 1
      → update (pending_row i) (claim_values now (env.uuid4 d) expires) rows ≡ some (rows', n)
      → Move env policy rows d rows' d'
  beat_row :
      {rows rows' : List TaskRun} {d : ℕ} (i token now expires : ℕ) (n : ℕ)
      → update (owned i token) (heartbeat_values now expires) rows ≡ some (rows', n)
      → Move env policy rows d rows' d
  succeed_row :
      {rows rows' : List TaskRun} {d : ℕ} (i token now : ℕ) (log_output : Option String) (n : ℕ)
      → update (owned i token) (success_values now log_output) rows ≡ some (rows', n)
      → Move env policy rows d rows' d
  requeue_row :
      {rows rows' : List TaskRun} {d : ℕ} (i token at : ℕ) (log_output : Option String) (n : ℕ)
      → policy i token rows
      → update (owned i token) (requeue_values at log_output) rows ≡ some (rows', n)
      → Move env policy rows d rows' d
  fail_row :
      {rows rows' : List TaskRun} {d : ℕ} (i token now : ℕ) (error_message : String)
      (log_output : Option String) (n : ℕ)
      → update (owned i token) (failed_values now error_message log_output) rows ≡ some (rows', n)
      → Move env policy rows d rows' d
  insert_row :
      {rows rows' : List TaskRun} {d d' : ℕ} (created_at organization_id task_id : ℕ)
      (triggered_by source_task_run_id : Option ℕ)
      → d' ≡ d + 2
      → rows'
        ≡ rows
          ++ new_run env created_at organization_id task_id triggered_by source_task_run_id d ∷ []
      → Move env policy rows d rows' d'

pub data Moves (env : Env) (policy : Policy) (rows : List TaskRun) (d : ℕ)
    : List TaskRun → ℕ → Type 0 where
  stay : Moves env policy rows d rows d
  then_move :
      {rows' rows'' : List TaskRun} {d' d'' : ℕ}
      → Moves env policy rows d rows' d'
      → Move env policy rows' d' rows'' d''
      → Moves env policy rows d rows'' d''

Moves-trans :
    {env : Env} {policy : Policy} {rows rows' : List TaskRun} {d d' : ℕ} {rows'' : List TaskRun}
    {d'' : ℕ}
    → Moves env policy rows d rows' d'
    → Moves env policy rows' d' rows'' d''
    → Moves env policy rows d rows'' d''
Moves-trans m stay = m
Moves-trans m (then_move k st) = then_move (Moves-trans m k) st

-- A property of rows and draws that each move keeps is kept by moves.
pub Moves_induction {κ} :
    (env : Env) {policy : Policy} (P : List TaskRun → ℕ → Type κ)
    → ((rows : List TaskRun) (d : ℕ) (rows' : List TaskRun) (d' : ℕ)
        → Move env policy rows d rows' d'
        → P rows d
        → P rows' d')
    → {rows : List TaskRun} {d : ℕ} {rows' : List TaskRun} {d' : ℕ}
    → Moves env policy rows d rows' d'
    → P rows d
    → P rows' d'
Moves_induction env P keep stay h = h
Moves_induction env P keep (then_move m st) h = keep _ _ _ _ st (Moves_induction env P keep m h)

abbrev WorldMoves : Env → Policy → World → World → Type 0
WorldMoves env policy w w' = Moves env policy w.runs w.draws w'.runs w'.draws

-- The rows and the draws are all that moves see.
Moves-eq :
    (env : Env) (policy : Policy) (w v v' : World)
    → v.runs ≡ v'.runs
    → v.draws ≡ v'.draws
    → WorldMoves env policy w v
    → WorldMoves env policy w v'
Moves-eq env policy w v v' e f m = rw (← e, ← f) m

guarded-Moves :
    (env : Env) (policy : Policy) (w lost : World) (result : Option (List TaskRun × ℕ))
    (committed : List TaskRun → World)
    → Moves env policy w.runs w.draws lost.runs lost.draws
    → ((rows : List TaskRun) (n : ℕ)
        → result ≡ some (rows, n)
        → Moves env policy w.runs w.draws (committed rows).runs (committed rows).draws)
    → WorldMoves env policy w (guarded result w lost committed).1
guarded-Moves env policy w lost none committed ml mc = stay
guarded-Moves env policy w lost (some (rows, n)) committed ml mc = elim (Bool-cases (n == 1)) [
  | inl e ↦ rw e (mc rows n refl)
  | inr e ↦ rw e ml
]

-- What one round of the claiming loop has done to the rows.
pub claim_one-update :
    (env : Env) (now : ℕ) (worker_id : String) (i : ℕ) (timeout : Option ℕ) (w : World)
    (claimed : List TaskRun) (w' : World) (claimed' : List TaskRun)
    → claim_one env now worker_id (i, timeout) (w, claimed) ≡ some (w', claimed')
    → (n : ℕ) × (update
          (pending_row i)
          (claim_values now
            (env.uuid4 w.draws)
            (now + seconds (or_default timeout env.settings.worker_default_timeout_seconds)))
          w.runs
        ≡ some (w'.runs, n))
      × (w'.draws ≡ w.draws + 1)
unfolding claim_one
claim_one-update env now worker_id i timeout w claimed w' claimed' h =
    elim (Option-cases (
      update (pending_row i)
        (claim_values now (env.uuid4 w.draws)
          (now + seconds (or_default timeout env.settings.worker_default_timeout_seconds)))
        w.runs)) [
          | inl e ↦ absurd (cc (rw e at h))
          | inr (p, e) ↦ (p.1, ground arith, ground arith)
        ]

claim_loop-Moves :
    (env : Env) (policy : Policy) (now : ℕ) (worker_id : String) (cs : List (ℕ × Option ℕ))
    (w : World) (claimed : List TaskRun) (w' : World) (claimed' : List TaskRun)
    → claim_loop env now worker_id cs (w, claimed) ≡ some (w', claimed')
    → WorldMoves env policy w w'
unfolding claim_loop
claim_loop-Moves env policy now worker_id [] w claimed w' claimed' h =
    Moves-eq env policy w w w' (ground arith) (ground arith) stay
claim_loop-Moves env policy now worker_id ((i, timeout) ∷ cs) w claimed w' claimed' h =
    elim (Option-cases (claim_one env now worker_id (i, timeout) (w, claimed))) [
      | inl e ↦ absurd (cc (rw (e, claim_loop) at h))
      | inr ((v, claimed_v), e) ↦
          let (n, u, d) = claim_one-update env now worker_id i timeout w claimed v claimed_v e in
          Moves-trans (then_move stay (claim_row i now _ n d u)) (
            claim_loop-Moves env policy now worker_id cs v claimed_v w' claimed'
              (rw (e, claim_loop) at h))
    ]

claim_batch-Moves :
    (env : Env) (policy : Policy) (locked : ℕ → Bool) (now : ℕ) (worker_id : String)
    (batch_size : Option ℕ) (w w' : World) (claimed : List TaskRun)
    → claim_batch env locked now worker_id batch_size w ≡ some (w', claimed)
    → WorldMoves env policy w w'
unfolding claim_batch
claim_batch-Moves env policy locked now worker_id batch_size w w' claimed h =
    elim (Option-cases (
      claim_loop env now worker_id (candidates locked now (batch_size_or_default env batch_size) w)
        (w, []))) [
          | inl e ↦ absurd (cc (rw e at h))
          | inr ((v, claimed_v), e) ↦
              let m =
                claim_loop-Moves env policy now worker_id
                  (candidates locked now (batch_size_or_default env batch_size) w) w [] v claimed_v
                  e in
              let h' = rw e at h in Moves-eq env policy w v w' (ground arith) (ground arith) m
        ]

succeeded-Moves :
    (env : Env) (policy : Policy) (w : World) (now : ℕ) (worker_id : String) (v : World)
    (o : Option TaskRun)
    → WorldMoves env policy w v
    → WorldMoves env policy w (succeeded now worker_id v o)
succeeded-Moves env policy w now worker_id v none m = m
succeeded-Moves env policy w now worker_id v (some r) m = m

-- Every step of the system is a sequence of moves of the rows.
pub Step-Moves :
    {env : Env} {policy : Policy} {w w' : World} → Step env policy w w' → WorldMoves env policy w w'
unfolding heartbeat complete_success report_failure create_task_run_record
Step-Moves {env} {policy} (claim {w} {w'} locked now worker_id batch_size claimed h) =
    claim_batch-Moves env policy locked now worker_id batch_size w w' claimed h
Step-Moves {env} {policy} (beat now i token w) =
    guarded-Moves env policy w w
      (update (owned i token) (heartbeat_values now (heartbeat_expiry env now i w)) w.runs)
      (λ rows. record w { runs = rows }) stay
      (λ rows n e. then_move stay (beat_row i token now (heartbeat_expiry env now i w) n e))
Step-Moves {env} {policy} (succeed now i token worker_id log_output w) =
    guarded-Moves env policy w w (update (owned i token) (success_values now log_output) w.runs)
      (λ rows. succeeded now worker_id (record w { runs = rows }) (get_run i rows)) stay
      λ rows n e.
        succeeded-Moves env policy w now worker_id (record w { runs = rows }) (get_run i rows)
          (then_move stay (succeed_row i token now log_output n e))
Step-Moves {env} {policy}
      (report now i token worker_id error_message retryable log_output run true w ok) =
    let at : ℕ = now + retry_delay env run.attempt_count in
    guarded-Moves env policy w (count_retry w)
      (update (owned i token) (requeue_values at log_output) w.runs)
      (requeued at worker_id error_message run w) stay
      (λ rows n e. then_move stay (requeue_row i token at log_output n (ok refl) e))
Step-Moves {env} {policy}
      (report now i token worker_id error_message retryable log_output run false w ok) =
    guarded-Moves env policy w (count_failure w)
      (update (owned i token) (failed_values now error_message log_output) w.runs)
      (terminated worker_id error_message retryable run w) stay
      (λ rows n e. then_move stay (fail_row i token now error_message log_output n e))
Step-Moves {env} {policy}
      (create created_at organization_id task_id triggered_by source_task_run_id w) =
    then_move stay
      (insert_row created_at organization_id task_id triggered_by source_task_run_id refl refl)
Step-Moves {env} {policy} (edit tasks metrics w) = stay
