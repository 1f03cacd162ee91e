-- ===== src/Worker/System/Lifecycle.antt =====
-- The life of one run under the functions of backend/app/worker/engine.py, as an abstract state machine.
use ai_data_operations_emplo.Prelude.{
  ℕ, ◌+◌, ◌≡◌, refl, sym, Bool, true, some, List, arith, Bool-cases, inl, inr, ◌∙◌, ap, subst,
}
use ai_data_operations_emplo.Worker.Model.{
  TaskRun, TaskRunStatus, pending, running, success, failed, Env, World, get_run,
}
use ai_data_operations_emplo.Worker.Table.{update}
use ai_data_operations_emplo.Worker.Table.Laws.{
  update-eq-some, get_run-assign, get_run-append, assigned,
}
use ai_data_operations_emplo.Worker.Claim.{pending_row, claim_values}
use ai_data_operations_emplo.Worker.Lease.{owned, heartbeat_values, success_values}
use ai_data_operations_emplo.Worker.Failure.{requeue_values, failed_values}
use ai_data_operations_emplo.Worker.System.{Policy, Reach, here, next}
use ai_data_operations_emplo.Worker.System.Moves.{
  Move, claim_row, beat_row, succeed_row, requeue_row, fail_row, insert_row, new_run, Moves, stay,
  then_move, Step-Moves,
}

-- What never changes in a row: what it is of, who asked for it, and its idempotency key.
pub record SameIdentity (r r' : TaskRun) : Type 0 where
  pub same_id : r'.id ≡ r.id
  pub same_organization : r'.organization_id ≡ r.organization_id
  pub same_task : r'.task_id ≡ r.task_id
  pub same_trigger : r'.triggered_by ≡ r.triggered_by
  pub same_creation : r'.created_at ≡ r.created_at
  pub same_key : r'.idempotency_key ≡ r.idempotency_key
  pub same_source : r'.source_task_run_id ≡ r.source_task_run_id

-- A pending run is claimed, which counts an attempt; a running one may change state, which does not.
pub data Transition (r r' : TaskRun) : Type 0 where
  claims :
      r.status ≡ pending
      → r'.status ≡ running
      → r'.attempt_count ≡ r.attempt_count + 1
      → SameIdentity r r'
      → Transition r r'
  works :
      r.status ≡ running → r'.attempt_count ≡ r.attempt_count → SameIdentity r r' → Transition r r'

pub data Evolves (r : TaskRun) : TaskRun → Type 0 where
  unmoved : Evolves r r
  then_step : {r' r'' : TaskRun} → Evolves r r' → Transition r' r'' → Evolves r r''

Evolves-trans : {r r' r'' : TaskRun} → Evolves r r' → Evolves r' r'' → Evolves r r''
Evolves-trans e unmoved = e
Evolves-trans e (then_step f t) = then_step (Evolves-trans e f) t

-- The row looked up later, and how it came about.
abbrev pub Later : ℕ → TaskRun → List TaskRun → Type 0
Later i r rows = (r' : TaskRun) × (get_run i rows ≡ some r') × Evolves r r'

Later-update :
    (i : ℕ) (selects : TaskRun → Bool) (values : TaskRun → TaskRun) (rows rows' : List TaskRun)
    (n : ℕ) (r : TaskRun)
    → ((x : TaskRun) → (values x).id ≡ x.id)
    → (selects r ≡ true → Transition r (values r))
    → update selects values rows ≡ some (rows', n)
    → get_run i rows ≡ some r
    → Later i r rows'
Later-update i selects values rows rows' n r keeps moves u e =
    let found : get_run i rows' ≡ some (assigned selects values r) =
      rw
        (
          (update-eq-some selects values rows rows' n u).0,
          get_run-assign i selects values keeps rows,
          e,
        )
        refl in
    elim (Bool-cases (selects r)) [
      | inl s ↦ (values r, rw s at found, then_step unmoved (moves s))
      | inr s ↦ (r, rw s at found, unmoved)
    ]

claims_row :
    (i now token expires : ℕ) (r : TaskRun)
    → pending_row i r ≡ true
    → Transition r (claim_values now token expires r)
unfolding claim_values
claims_row i now token expires r h = claims (ground arith) refl refl (record {
  same_id = refl;
  same_organization = refl;
  same_task = refl;
  same_trigger = refl;
  same_creation = refl;
  same_key = refl;
  same_source = refl;
})

owned-running : (i token : ℕ) (r : TaskRun) → owned i token r ≡ true → r.status ≡ running
owned-running i token r h = ground arith

Move-Later :
    (env : Env) (policy : Policy) (rows : List TaskRun) (d : ℕ) (rows' : List TaskRun) (d' : ℕ)
    → Move env policy rows d rows' d'
    → (i : ℕ) (r : TaskRun) → get_run i rows ≡ some r
    → Later i r rows'
unfolding claim_values heartbeat_values success_values requeue_values failed_values
Move-Later env policy rows d rows' d' (claim_row j now expires n e u) i r h =
    Later-update i _ _ rows rows' n r (λ x. refl) (claims_row j now (env.uuid4 d) expires r) u h
Move-Later env policy rows d rows' d' (beat_row j t now expires n u) i r h =
    Later-update i _ _ rows rows' n r (λ x. refl)
      (λ o. works (owned-running j t r o) refl (ground arith)) u h
Move-Later env policy rows d rows' d' (succeed_row j t now log n u) i r h =
    Later-update i _ _ rows rows' n r (λ x. refl)
      (λ o. works (owned-running j t r o) refl (ground arith)) u h
Move-Later env policy rows d rows' d' (requeue_row j t at log n _ u) i r h =
    Later-update i _ _ rows rows' n r (λ x. refl)
      (λ o. works (owned-running j t r o) refl (ground arith)) u h
Move-Later env policy rows d rows' d' (fail_row j t now msg log n u) i r h =
    Later-update i _ _ rows rows' n r (λ x. refl)
      (λ o. works (owned-running j t r o) refl (ground arith)) u h
Move-Later env policy rows d rows' d' (insert_row c o t b s e f) i r h =
    (r, rw f (get_run-append i rows (new_run env c o t b s d) r h), unmoved)

Moves-Later :
    (env : Env) (policy : Policy) (i : ℕ) (r : TaskRun) {rows : List TaskRun} {d : ℕ}
    {rows' : List TaskRun} {d' : ℕ}
    → Moves env policy rows d rows' d'
    → get_run i rows ≡ some r
    → Later i r rows'
Moves-Later env policy i r stay h = (r, h, unmoved)
Moves-Later env policy i r (then_move m st) h =
    let (r', h', e) = Moves-Later env policy i r m h in
    let (r'', h'', e') = Move-Later env policy _ _ _ _ st i r' h' in (r'', h'', Evolves-trans e e')

-- Whatever the sessions do, a run that is in the table stays in it, and its row has come about by
-- transitions of the abstract machine: an attempt is counted exactly at each claim of a pending
-- row, only a running row changes otherwise, and its identity and idempotency key never change.
pub run_lifecycle :
    (env : Env) {policy : Policy} (i : ℕ) (r : TaskRun) {w w' : World}
    → Reach env policy w w'
    → get_run i w.runs ≡ some r
    → Later i r w'.runs
run_lifecycle env i r here h = (r, h, unmoved)
run_lifecycle env {policy} i r (next s st) h =
    let (r', h', e) = run_lifecycle env i r s h in
    let (r'', h'', e') = Moves-Later env policy i r' (Step-Moves st) h' in
    (r'', h'', Evolves-trans e e')

abbrev pub IsFinished : TaskRunStatus → Type 0
IsFinished pending = ⊥
IsFinished running = ⊥
IsFinished success = Unit
IsFinished failed = Unit

finished_stays : (r r' r'' : TaskRun) → IsFinished r.status → r' ≡ r → Transition r' r'' → r'' ≡ r
finished_stays r r' r'' f e (claims p _ _ _) =
    absurd (subst IsFinished (sym (ap (λ (x : TaskRun). x.status) e) ∙ p) f)
finished_stays r r' r'' f e (works p _ _) =
    absurd (subst IsFinished (sym (ap (λ (x : TaskRun). x.status) e) ∙ p) f)

Evolves-finished : {r r' : TaskRun} → IsFinished r.status → Evolves r r' → r' ≡ r
Evolves-finished f unmoved = refl
Evolves-finished f (then_step e t) = finished_stays _ _ _ f (Evolves-finished f e) t

-- A run that has succeeded or failed is never touched again: its row stays as it is.
pub finished_run_frozen :
    (env : Env) {policy : Policy} (i : ℕ) (r : TaskRun) {w w' : World}
    → IsFinished r.status
    → Reach env policy w w'
    → get_run i w.runs ≡ some r
    → get_run i w'.runs ≡ some r
finished_run_frozen env i r {w} {w'} f reach h =
    let (r', h', e) = run_lifecycle env i r reach h in
    subst (λ (x : TaskRun). get_run i w'.runs ≡ some x) (Evolves-finished f e) h'
