-- ===== src/Worker/System/Fencing.antt =====
-- The lease token of backend/app/worker/engine.py as a fencing token.
use ai_data_operations_emplo.Prelude.{
  ℕ, ◌<◌, ◌≡◌, ◌≢◌, refl, Bool, false, ◌&&◌, Option, some, List, [], ◌∷◌, String, ◌==◌, holds,
  arith, Bool-cases, Option-cases, inl, inr, All, All-append, All-map_implies, tally,
}
use ai_data_operations_emplo.Worker.Model.{TaskRun, Env, World, get_run, is_running}
use ai_data_operations_emplo.Worker.Table.{assign, update}
use ai_data_operations_emplo.Worker.Table.Laws.{
  All-assign, All-get_run, id-get_run, update-eq-some, update_accepted,
}
use ai_data_operations_emplo.Worker.Session.{lease_lost}
use ai_data_operations_emplo.Worker.Claim.{claim_values}
use ai_data_operations_emplo.Worker.Lease.{
  owned, heartbeat_values, heartbeat_expiry, heartbeat, success_values, complete_success,
}
use ai_data_operations_emplo.Worker.Failure.{requeue_values, failed_values, complete_failure}
use ai_data_operations_emplo.Worker.System.{Policy, Step, Reach, Reach_induction}
use ai_data_operations_emplo.Worker.System.Moves.{
  Move, claim_row, beat_row, succeed_row, requeue_row, fail_row, insert_row, new_run,
  Moves_induction, Step-Moves,
}

-- UUIDs do not collide.
abbrev pub IsFresh : Env → Type 0
IsFresh env = (a b : ℕ) → env.uuid4 a ≡ env.uuid4 b → a ≡ b

-- The token was drawn before.
abbrev pub IsIssued : Env → ℕ → ℕ → Type 0
IsIssued env token draws = (k : ℕ) × (k < draws) × (env.uuid4 k ≡ token)

abbrev pub NotHeld : ℕ → ℕ → TaskRun → Type 0
NotHeld i token r = r.id ≡ i → r.lease_token ≢ some token

-- The run `i` no longer holds the token, which has been drawn.
abbrev pub IsStale : Env → ℕ → ℕ → List TaskRun → ℕ → Type 0
IsStale env i token rows draws = IsIssued env token draws × All (NotHeld i token) rows

module _ (env : Env) (policy : Policy) (fresh : IsFresh env) (i token : ℕ) where
  NotHeld-claim :
      (d now expires : ℕ) (r : TaskRun)
      → IsIssued env token d
      → NotHeld i token (claim_values now (env.uuid4 d) expires r)
  unfolding claim_values
  NotHeld-claim d now expires r (k, lt, e) same held =
      let p : env.uuid4 d ≡ env.uuid4 k = cc in let q = fresh d k p in absurd (omega arith)

  NotHeld-assign :
      (selects : TaskRun → Bool) (values : TaskRun → TaskRun) (rows rows' : List TaskRun) (n : ℕ)
      → ((r : TaskRun) → NotHeld i token r → NotHeld i token (values r))
      → update selects values rows ≡ some (rows', n)
      → All (NotHeld i token) rows
      → All (NotHeld i token) rows'
  NotHeld-assign selects values rows rows' n keep u h =
      rw ((update-eq-some selects values rows rows' n u).0)
        (All-assign (NotHeld i token) selects values (λ r _ q. keep r q) rows h)

  -- No move gives a stale lease back.
  Move-IsStale :
      (rows : List TaskRun) (d : ℕ) (rows' : List TaskRun) (d' : ℕ)
      → Move env policy rows d rows' d'
      → IsStale env i token rows d
      → IsStale env i token rows' d'
  unfolding heartbeat_values success_values requeue_values failed_values
  Move-IsStale rows d rows' d' (claim_row j now expires n e u) ((k, lt, is), h) = (
    (k, omega arith, is),
    NotHeld-assign _ _ rows rows' n (λ r _. NotHeld-claim d now expires r (k, lt, is)) u h,
  )
  Move-IsStale rows d rows' d' (beat_row j t now expires n u) (is, h) =
      (is, NotHeld-assign _ _ rows rows' n (λ r q. q) u h)
  Move-IsStale rows d rows' d' (succeed_row j t now log n u) (is, h) =
      (is, NotHeld-assign _ _ rows rows' n (λ r q s. (cc)) u h)
  Move-IsStale rows d rows' d' (requeue_row j t at log n _ u) (is, h) =
      (is, NotHeld-assign _ _ rows rows' n (λ r q s. (cc)) u h)
  Move-IsStale rows d rows' d' (fail_row j t now msg log n u) (is, h) =
      (is, NotHeld-assign _ _ rows rows' n (λ r q s. (cc)) u h)
  Move-IsStale rows d rows' d' (insert_row c o t b s e f) ((k, lt, is), h) = (
    (k, omega arith, is),
    rw f (All-append (NotHeld i token) rows (new_run env c o t b s d ∷ []) h ((λ _. (cc)), tt)),
  )

  pub Step-IsStale :
      (w w' : World)
      → Step env policy w w'
      → IsStale env i token w.runs w.draws
      → IsStale env i token w'.runs w'.draws
  Step-IsStale w w' st h = Moves_induction env (IsStale env i token) Move-IsStale (Step-Moves st) h

-- Without the lease the guarded UPDATE selects no row.
owned_none : (i token : ℕ) (r : TaskRun) → NotHeld i token r → owned i token r ≡ false
owned_none i token r h = elim (Bool-cases (r.id == i)) [
  | inl e ↦ elim (Option-cases r.lease_token) [
    | inl n ↦ rw (e, n)
    | inr (t, f) ↦ elim (Bool-cases (t == token)) [
      | inl g ↦ absurd (h (ground arith) (ground arith))
      | inr g ↦ rw (e, f, g)
    ]
  ]
  | inr e ↦ rw e
]

tally_none :
    (i token : ℕ) (rows : List TaskRun)
    → All (NotHeld i token) rows
    → tally (owned i token) rows ≡ 0
tally_none i token [] h = refl
tally_none i token (r ∷ rows) h = rw (owned_none i token r h.0) (tally_none i token rows h.1)

pub update_none :
    (i token : ℕ) (values : TaskRun → TaskRun) (rows : List TaskRun)
    → All (NotHeld i token) rows
    → update (owned i token) values rows ≡ some (assign (owned i token) values rows, 0)
update_none i token values rows h = rw (← tally_none i token rows h) (
    update_accepted (owned i token) values rows
      (All-map_implies (λ r q e. absurd (cc (owned_none i token r q))) rows h))

pub heartbeat_stale :
    (env : Env) (now i token : ℕ) (w : World)
    → All (NotHeld i token) w.runs
    → heartbeat env now i token w ≡ (lease_lost, w)
unfolding heartbeat
heartbeat_stale env now i token w h =
    rw (update_none i token (heartbeat_values now (heartbeat_expiry env now i w)) w.runs h)

pub complete_success_stale :
    (now i token : ℕ) (worker_id : String) (log_output : Option String) (w : World)
    → All (NotHeld i token) w.runs
    → complete_success now i token worker_id log_output w ≡ (lease_lost, w)
unfolding complete_success
complete_success_stale now i token worker_id log_output w h =
    rw (update_none i token (success_values now log_output) w.runs h)

NotHeld-guard :
    (i token : ℕ) (r : TaskRun)
    → NotHeld i token r
    → r.id ≡ i
    → (holds r.lease_token token && is_running r.status) ≡ false
NotHeld-guard i token r h e = elim (Option-cases r.lease_token) [
  | inl n ↦ rw n
  | inr (t, f) ↦ elim (Bool-cases (t == token)) [
    | inl g ↦ absurd (h e (ground arith))
    | inr g ↦ rw (f, g)
  ]
]

pub complete_failure_stale :
    (env : Env) (others : World → World) (now i token : ℕ) (worker_id error_message : String)
    (retryable : Bool) (log_output : Option String) (w : World)
    → All (NotHeld i token) w.runs
    → complete_failure env others now i token worker_id error_message retryable log_output w
      ≡ (lease_lost, w)
unfolding complete_failure
complete_failure_stale env others now i token worker_id error_message retryable log_output w h =
    elim (Option-cases (get_run i w.runs)) [
      | inl e ↦ rw e
      | inr (r, e) ↦ rw e (
          rw (
            NotHeld-guard i token r (All-get_run (NotHeld i token) i w.runs r h e)
              (id-get_run i w.runs r e)))
    ]

-- The three reports of a worker, each with a lost lease and no effect.
pub record IsRefused (env : Env) (i token : ℕ) (w : World) : Type 0 where
  pub beat_refused : (now : ℕ) → heartbeat env now i token w ≡ (lease_lost, w)
  pub success_refused :
      (now : ℕ) (worker_id : String) (log_output : Option String)
      → complete_success now i token worker_id log_output w ≡ (lease_lost, w)
  pub failure_refused :
      (others : World → World) (now : ℕ) (worker_id error_message : String) (retryable : Bool)
      (log_output : Option String)
      → complete_failure env others now i token worker_id error_message retryable log_output w
        ≡ (lease_lost, w)

-- Where UUIDs do not collide, once run `i` no longer holds a token that has been drawn, then after any steps of any sessions a
-- heartbeat, a success and a failure that present this token for `i` raise LeaseLostError and
-- change nothing, whatever other sessions do between the read and the UPDATE.
pub stale_lease-IsRefused :
    (env : Env) {policy : Policy} (i token : ℕ) {w w' : World}
    → IsFresh env
    → IsStale env i token w.runs w.draws
    → Reach env policy w w'
    → IsRefused env i token w'
stale_lease-IsRefused env {policy} i token fresh h r =
    let (_, none_hold) =
      Reach_induction env (λ v. IsStale env i token v.runs v.draws)
        (Step-IsStale env policy fresh i token) r h in
    record {
      beat_refused = λ now. heartbeat_stale env now i token _ none_hold;
      success_refused = λ now wid log. complete_success_stale now i token wid log _ none_hold;
      failure_refused = λ others now wid msg retryable log.
          complete_failure_stale env others now i token wid msg retryable log _ none_hold;
    }
