-- ===== src/Worker/System/Attempts.antt =====
-- The attempts of a run under the functions of backend/app/worker/engine.py.
use ai_data_operations_emplo.Prelude.{
  ℕ, ◌<◌, ◌≡◌, Bool, some, List, [], ◌∷◌, arith, All, All-append,
}
use ai_data_operations_emplo.Worker.Model.{TaskRun, Env}
use ai_data_operations_emplo.Worker.Table.{update}
use ai_data_operations_emplo.Worker.Table.Laws.{All-assign, update-eq-some}
use ai_data_operations_emplo.Worker.Claim.{claim_values}
use ai_data_operations_emplo.Worker.Lease.{heartbeat_values, success_values}
use ai_data_operations_emplo.Worker.Failure.{requeue_values, failed_values}
use ai_data_operations_emplo.Worker.System.{Policy}
use ai_data_operations_emplo.Worker.System.Moves.{
  Move, claim_row, beat_row, succeed_row, requeue_row, fail_row, insert_row, new_run,
}
use ai_data_operations_emplo.Worker.System.Fencing.{IsFresh, IsIssued}

abbrev pub HasRoom : ℕ → ℕ → ℕ → TaskRun → Type 0
HasRoom limit i token r = r.id ≡ i → r.lease_token ≡ some token → r.attempt_count < limit

-- A requeue is considered only while the run under that token has attempts left.
abbrev pub Within : ℕ → Policy
Within limit i token rows = All (HasRoom limit i token) rows

-- What a session has read of a run under its lease stays true as long as the token does.
module _ (env : Env) (policy : Policy) (fresh : IsFresh env) (limit i token : ℕ) where
  abbrev pub RoomKept : List TaskRun → ℕ → Type 0
  RoomKept rows d = IsIssued env token d × All (HasRoom limit i token) rows

  HasRoom-update :
      (selects : TaskRun → Bool) (values : TaskRun → TaskRun) (rows rows' : List TaskRun) (n : ℕ)
      → ((r : TaskRun) → HasRoom limit i token r → HasRoom limit i token (values r))
      → update selects values rows ≡ some (rows', n)
      → All (HasRoom limit i token) rows
      → All (HasRoom limit i token) rows'
  HasRoom-update selects values rows rows' n keep u h =
      rw ((update-eq-some selects values rows rows' n u).0)
        (All-assign (HasRoom limit i token) selects values (λ r _ q. keep r q) rows h)

  HasRoom-claim :
      (d now expires : ℕ) (r : TaskRun)
      → IsIssued env token d
      → HasRoom limit i token (claim_values now (env.uuid4 d) expires r)
  unfolding claim_values
  HasRoom-claim d now expires r (k, lt, e) same held =
      let p : env.uuid4 d ≡ env.uuid4 k = cc in let q = fresh d k p in absurd (omega arith)

  pub Move-RoomKept :
      (rows : List TaskRun) (d : ℕ) (rows' : List TaskRun) (d' : ℕ)
      → Move env policy rows d rows' d'
      → RoomKept rows d
      → RoomKept rows' d'
  unfolding heartbeat_values success_values requeue_values failed_values
  Move-RoomKept rows d rows' d' (claim_row j now expires n e u) ((k, lt, is), h) = (
    (k, omega arith, is),
    HasRoom-update _ _ rows rows' n (λ r _. HasRoom-claim d now expires r (k, lt, is)) u h,
  )
  Move-RoomKept rows d rows' d' (beat_row j t now expires n u) (is, h) =
      (is, HasRoom-update _ _ rows rows' n (λ r q. q) u h)
  Move-RoomKept rows d rows' d' (succeed_row j t now log n u) (is, h) =
      (is, HasRoom-update _ _ rows rows' n (λ r q same held. absurd (cc held)) u h)
  Move-RoomKept rows d rows' d' (requeue_row j t at log n _ u) (is, h) =
      (is, HasRoom-update _ _ rows rows' n (λ r q same held. absurd (cc held)) u h)
  Move-RoomKept rows d rows' d' (fail_row j t now msg log n u) (is, h) =
      (is, HasRoom-update _ _ rows rows' n (λ r q same held. absurd (cc held)) u h)
  Move-RoomKept rows d rows' d' (insert_row c o t b s e f) ((k, lt, is), h) = (
    (k, omega arith, is),
    rw f (
        All-append (HasRoom limit i token) rows (new_run env c o t b s d ∷ []) h
          ((λ same held. absurd (cc held)), tt)),
  )
