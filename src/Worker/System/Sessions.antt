-- ===== src/Worker/System/Sessions.antt =====
-- `complete_failure` (backend/app/worker/engine.py) and what other sessions do between its read and its
-- UPDATE, as a sequence of steps.
use ai_data_operations_emplo.Prelude.{
  ℕ, ◌≤◌, ◌<◌, ◌≡◌, Bool, true, false, ◌&&◌, Option, some, List, String, holds, arith, Option-cases,
  Bool-cases, inl, inr, All, All-map_implies, or_default, ltb→lt,
}
use ai_data_operations_emplo.Worker.Model.{
  TaskRun, Env, World, get_run, get_task, max_attempts_of, is_running,
}
use ai_data_operations_emplo.Worker.Failure.{complete_failure, should_retry}
use ai_data_operations_emplo.Worker.System.{Policy, Reach, here, next, report, Reach_induction}
use ai_data_operations_emplo.Worker.System.Moves.{Moves_induction, Step-Moves}
use ai_data_operations_emplo.Worker.System.Fencing.{IsFresh, IsIssued}
use ai_data_operations_emplo.Worker.System.Attempts.{Within, RoomKept, Move-RoomKept}

module _ (env : Env) (policy : Policy) (others : World → World) (now i token : ℕ)
    (worker_id error_message : String) (retryable : Bool) (log_output : Option String)
    (w : World) where
  -- The call is what other sessions do, and one more step.
  complete_failure-steps :
      ((run : TaskRun)
        → get_run i w.runs ≡ some run
        → holds run.lease_token token && is_running run.status ≡ true
        → should_retry env w run retryable ≡ true
        → policy i token (others w).runs)
      → Reach env policy w (others w)
      → Reach env policy w
          (complete_failure env others now i token worker_id error_message retryable log_output w).1
  unfolding complete_failure
  complete_failure-steps allowed reach = elim (Option-cases (get_run i w.runs)) [
    | inl e ↦ rw e here
    | inr (run, e) ↦ elim (Bool-cases (holds run.lease_token token && is_running run.status)) [
      | inl g ↦ rw e (
          rw g (
            next reach (
              report now i token worker_id error_message retryable log_output run
                (should_retry env w run retryable) (others w) (allowed run e g))))
      | inr g ↦ rw e (rw g here)
    ]
  ]

-- The primary key, and no task that allows more than `limit` attempts.
abbrev pub IsKeyed : List TaskRun → Type 0
IsKeyed rows =
    (i : ℕ) (run : TaskRun) → get_run i rows ≡ some run → All (λ r. r.id ≡ i → r ≡ run) rows

abbrev pub AllowsAtMost : ℕ → Env → World → Type 0
AllowsAtMost limit env w =
    (task_id : ℕ)
    → or_default (max_attempts_of (get_task task_id w.tasks))
        env.settings.worker_default_max_attempts
      ≤ limit

should_retry-lt :
    (env : Env) (w : World) (limit : ℕ) (run : TaskRun) (retryable : Bool)
    → AllowsAtMost limit env w
    → should_retry env w run retryable ≡ true
    → run.attempt_count < limit
unfolding should_retry
should_retry-lt env w limit run true most h =
    let p = ltb→lt run.attempt_count _ h in let q = most run.task_id in omega arith
should_retry-lt env w limit run false most h = absurd (cc h)

-- Reporting a failure keeps to the policy: where UUIDs do not collide, the primary key holds, the
-- token has been drawn
-- and no task allows more than `limit` attempts, and other sessions keep to the policy between the
-- read and the UPDATE, a run is requeued only while it has had fewer than `limit` attempts.
pub complete_failure-within :
    (env : Env) (limit : ℕ) (others : World → World) (now i token : ℕ)
    (worker_id error_message : String) (retryable : Bool) (log_output : Option String) (w : World)
    → IsFresh env
    → IsKeyed w.runs
    → IsIssued env token w.draws
    → AllowsAtMost limit env w
    → Reach env (Within limit) w (others w)
    → Reach env
        (Within limit)
        w
        (complete_failure env others now i token worker_id error_message retryable log_output w).1
complete_failure-within env limit others now i token wid msg retryable log w fresh key issued most
      reach =
    complete_failure-steps env (Within limit) others now i token wid msg retryable log w
      (λ run e g retry.
        (Reach_induction env (λ v. RoomKept env (Within limit) fresh limit i token v.runs v.draws)
          (λ u v st.
            Moves_induction env (RoomKept env (Within limit) fresh limit i token)
              (Move-RoomKept env (Within limit) fresh limit i token) (Step-Moves st))
          reach
          (
            issued,
            All-map_implies
                (λ r same id held.
                  rw (same id) (should_retry-lt env w limit run retryable most retry))
                w.runs (key i run e),
          )).1)
      reach
