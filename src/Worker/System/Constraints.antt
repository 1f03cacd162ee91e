-- ===== src/Worker/System/Constraints.antt =====
-- The CHECK constraints of task_runs (backend/app/models/task_run.py) in the reachable states.
use ai_data_operations_emplo.Prelude.{
  ℕ, ◌+◌, ◌≡◌, ◌≢◌, refl, Bool, true, Option, none, List, [], ◌∷◌, String, arith, Option-cases, inl,
  inr, All-append, All-map_implies, or_default,
}
use ai_data_operations_emplo.Worker.Model.{TaskRun, Env, World, seconds}
use ai_data_operations_emplo.Worker.Table.{check_constraints}
use ai_data_operations_emplo.Worker.Table.Laws.{AllChecked, update-AllChecked, update_accepted}
use ai_data_operations_emplo.Worker.Claim.{
  candidates, batch_size_or_default, pending_row, claim_values, claim_one, claim_loop, claim_batch,
}
use ai_data_operations_emplo.Worker.System.{Policy, Reach, Reach_induction}
use ai_data_operations_emplo.Worker.System.Moves.{
  Move, claim_row, beat_row, succeed_row, requeue_row, fail_row, insert_row, new_run,
  Moves_induction, Step-Moves, claim_one-update,
}

Move-AllChecked :
    (env : Env) (policy : Policy) (rows : List TaskRun) (d : ℕ) (rows' : List TaskRun) (d' : ℕ)
    → Move env policy rows d rows' d'
    → AllChecked rows
    → AllChecked rows'
unfolding check_constraints
Move-AllChecked env policy rows d rows' d' (claim_row j now expires n e u) h =
    update-AllChecked _ _ rows rows' n u h
Move-AllChecked env policy rows d rows' d' (beat_row j t now expires n u) h =
    update-AllChecked _ _ rows rows' n u h
Move-AllChecked env policy rows d rows' d' (succeed_row j t now log n u) h =
    update-AllChecked _ _ rows rows' n u h
Move-AllChecked env policy rows d rows' d' (requeue_row j t at log n _ u) h =
    update-AllChecked _ _ rows rows' n u h
Move-AllChecked env policy rows d rows' d' (fail_row j t now msg log n u) h =
    update-AllChecked _ _ rows rows' n u h
Move-AllChecked env policy rows d rows' d' (insert_row c o t b s e f) h =
    rw f (
      All-append (λ r. check_constraints r ≡ true) rows (new_run env c o t b s d ∷ []) h (refl, tt))

pub Reach-AllChecked :
    (env : Env) {policy : Policy} {w w' : World}
    → Reach env policy w w'
    → AllChecked w.runs
    → AllChecked w'.runs
Reach-AllChecked env {policy} r =
    Reach_induction env (λ v. AllChecked v.runs)
      (λ w w' st.
        Moves_induction env (λ rows d. AllChecked rows) (Move-AllChecked env policy)
          (Step-Moves st))
      r

-- A pending row within the constraints can be claimed.
claim_values-checked :
    (i now token expires : ℕ) (r : TaskRun)
    → check_constraints r ≡ true
    → pending_row i r ≡ true
    → check_constraints (claim_values now token expires r) ≡ true
unfolding check_constraints claim_values
claim_values-checked i now token expires r h p = ground arith

claim_one_accepted :
    (env : Env) (now : ℕ) (worker_id : String) (c : ℕ × Option ℕ) (w : World)
    (claimed : List TaskRun)
    → AllChecked w.runs
    → claim_one env now worker_id c (w, claimed) ≢ none
unfolding claim_one
claim_one_accepted env now worker_id (i, timeout) w claimed h e =
    let expires : ℕ =
      now + seconds (or_default timeout env.settings.worker_default_timeout_seconds) in
    let accepted =
      update_accepted (pending_row i) (claim_values now (env.uuid4 w.draws) expires) w.runs
        (All-map_implies (claim_values-checked i now (env.uuid4 w.draws) expires) w.runs h) in
    cc (rw accepted at e)

claim_loop_accepted :
    (env : Env) (now : ℕ) (worker_id : String) (cs : List (ℕ × Option ℕ)) (w : World)
    (claimed : List TaskRun)
    → AllChecked w.runs
    → claim_loop env now worker_id cs (w, claimed) ≢ none
unfolding claim_loop
claim_loop_accepted env now worker_id [] w claimed h e = cc e
claim_loop_accepted env now worker_id ((i, timeout) ∷ cs) w claimed h e =
    elim (Option-cases (claim_one env now worker_id (i, timeout) (w, claimed))) [
      | inl f ↦ claim_one_accepted env now worker_id (i, timeout) w claimed h f
      | inr ((v, claimed_v), f) ↦
          let (n, u, _) = claim_one-update env now worker_id i timeout w claimed v claimed_v f in
          claim_loop_accepted env now worker_id cs v claimed_v
            (update-AllChecked _ _ w.runs v.runs n u h) (rw (f, claim_loop) at e)
    ]

-- From rows within the CHECK constraints, claiming never meets an IntegrityError, and every
-- reachable world is again within the constraints.
pub claim_batch_accepted :
    (env : Env) {policy : Policy} (locked : ℕ → Bool) (now : ℕ) (worker_id : String)
    (batch_size : Option ℕ) {w w' : World}
    → AllChecked w.runs
    → Reach env policy w w'
    → AllChecked w'.runs × (claim_batch env locked now worker_id batch_size w' ≢ none)
unfolding claim_batch
claim_batch_accepted env locked now worker_id batch_size {w} {w'} h r =
    let h' = Reach-AllChecked env r h in
    (
      h',
      λ e.
          elim (Option-cases (
            claim_loop env now worker_id
              (candidates locked now (batch_size_or_default env batch_size) w') (w', []))) [
                | inl f ↦ claim_loop_accepted env now worker_id _ w' [] h' f
                | inr (s, f) ↦ cc (rw f at e)
              ],
    )
