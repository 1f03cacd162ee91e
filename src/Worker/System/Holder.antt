-- ===== src/Worker/System/Holder.antt =====
-- A report by the holder of a lease (complete_success and complete_failure of
-- backend/app/worker/engine.py).
use ai_data_operations_emplo.Prelude.{
  ℕ, ◌+◌, ◌≤◌, ◌≡◌, refl, Bool, true, false, ◌&&◌, Option, none, some, List, [], ◌∷◌, String, ◌==◌,
  holds, arith, Bool-cases, inl, inr, All, tally,
}
use ai_data_operations_emplo.Worker.Model.{
  TaskRun, TaskRunStatus, pending, success, Env, World, get_run, is_running, seconds,
}
use ai_data_operations_emplo.Worker.Table.{assign, update, check_constraints, not_before}
use ai_data_operations_emplo.Worker.Table.Laws.{
  AllChecked, All-get_run, get_run-assign, update_accepted,
}
use ai_data_operations_emplo.Worker.Session.{done}
use ai_data_operations_emplo.Worker.Lease.{
  owned, heartbeat_values, success_values, complete_success,
}
use ai_data_operations_emplo.Worker.Failure.{
  retry_delay, requeue_values, failed_values, should_retry, report_failure, complete_failure,
}

-- The row `run` is the only one with its identifier, it is within the constraints and holds the
-- lease, and it started no later than `now`.
pub record IsHeld (i token now : ℕ) (rows : List TaskRun) (run : TaskRun) : Type 0 where
  pub found : get_run i rows ≡ some run
  pub unique : tally (λ r. r.id == i) rows ≡ 1
  pub checked : AllChecked rows
  pub held : owned i token run ≡ true
  pub started : not_before (some now) run.started_at ≡ true

module _ (i token : ℕ) where
  tally-owned-zero :
      (rows : List TaskRun) → tally (λ r. r.id == i) rows ≡ 0 → tally (owned i token) rows ≡ 0
  tally-owned-zero [] e = refl
  tally-owned-zero (r ∷ rows) e = ground (arith, e, tally-owned-zero rows)

  tally-owned-one :
      (rows : List TaskRun) (run : TaskRun)
      → get_run i rows ≡ some run
      → tally (λ r. r.id == i) rows ≡ 1
      → owned i token run ≡ true
      → tally (owned i token) rows ≡ 1
  tally-owned-one [] run f e h = absurd (cc f)
  tally-owned-one (r ∷ rows) run f e h = elim (Bool-cases (r.id == i)) [
    | inl t ↦
        let same : r ≡ run = cc (rw t at f) in
        let rest : tally (λ r. r.id == i) rows ≡ 0 = ground (arith, t, e) in
        rw (same, h, tally-owned-zero rows rest)
    | inr t ↦
        let rest : tally (λ r. r.id == i) rows ≡ 1 = ground (arith, t, e) in
        rw t (tally-owned-one rows run (rw t at f) rest h)
  ]

  only-zero :
      (P : TaskRun → Type 0) (rows : List TaskRun)
      → tally (λ r. r.id == i) rows ≡ 0
      → All (λ r. owned i token r ≡ true → P r) rows
  only-zero P [] e = tt
  only-zero P (r ∷ rows) e = (λ o. ground (arith, e, o), only-zero P rows (ground (arith, e)))

  -- What holds of the row found holds of every row that the guard selects.
  only-found :
      (P : TaskRun → Type 0) (rows : List TaskRun) (run : TaskRun)
      → get_run i rows ≡ some run
      → tally (λ r. r.id == i) rows ≡ 1
      → P run
      → All (λ r. owned i token r ≡ true → P r) rows
  only-found P [] run f e p = tt
  only-found P (r ∷ rows) run f e p = elim (Bool-cases (r.id == i)) [
    | inl t ↦
        let same : r ≡ run = cc (rw t at f) in
        let rest : tally (λ r. r.id == i) rows ≡ 0 = ground (arith, t, e) in
        (λ _. rw same p, only-zero P rows rest)
    | inr t ↦
        let rest : tally (λ r. r.id == i) rows ≡ 1 = ground (arith, t, e) in
        (λ o. ground (arith, t, o), only-found P rows run (rw t at f) rest p)
  ]

  module _ (now : ℕ) (rows : List TaskRun) (run : TaskRun) (h : IsHeld i token now rows run) where
    update-held :
        (values : TaskRun → TaskRun)
        → check_constraints (values run) ≡ true
        → update (owned i token) values rows ≡ some (assign (owned i token) values rows, 1)
    update-held values keeps = rw (← tally-owned-one rows run h.found h.unique h.held) (
        update_accepted (owned i token) values rows
          (only-found (λ r. check_constraints (values r) ≡ true) rows run h.found h.unique keeps))

    get_run-held :
        (values : TaskRun → TaskRun)
        → ((r : TaskRun) → (values r).id ≡ r.id)
        → get_run i (assign (owned i token) values rows) ≡ some (values run)
    get_run-held values keeps =
        rw (get_run-assign i (owned i token) values keeps rows, h.found, h.held) refl

    checked-run : check_constraints run ≡ true
    checked-run = All-get_run (λ r. check_constraints r ≡ true) i rows run h.checked h.found

    heartbeat-checked : (expires : ℕ) → check_constraints (heartbeat_values now expires run) ≡ true
    unfolding check_constraints heartbeat_values
    heartbeat-checked expires = ground (arith, checked-run, h.held)

    success-checked :
        (log_output : Option String)
        → run.error_message ≡ none
        → check_constraints (success_values now log_output run) ≡ true
    unfolding check_constraints success_values
    success-checked log_output clean = ground (arith, checked-run, h.held, clean, h.started)

    requeue-checked :
        (at : ℕ) (log_output : Option String)
        → check_constraints (requeue_values at log_output run) ≡ true
    unfolding check_constraints requeue_values
    requeue-checked at log_output = refl

    failed-checked :
        (error_message : String) (log_output : Option String)
        → check_constraints (failed_values now error_message log_output run) ≡ true
    unfolding check_constraints failed_values
    failed-checked error_message log_output = ground (arith, checked-run, h.held, h.started)

retry_delay-le :
    (env : Env) (n : ℕ) → retry_delay env n ≤ seconds env.settings.worker_retry_max_delay_seconds
unfolding retry_delay
retry_delay-le env n = omega arith

-- The holder of a lease, whose run is alone under its identifier, within the constraints, without
-- an error message and started no later than `now`, gets a success through: the call returns
-- normally, and the run is then a success, finished now with the given log, without a lease and with
-- the same attempt count.
pub complete_success_lem :
    (i token now : ℕ) (worker_id : String) (log_output : Option String) (w : World) (run : TaskRun)
    → IsHeld i token now w.runs run
    → run.error_message ≡ none
    → (r : TaskRun) × ((complete_success now i token worker_id log_output w).0 ≡ done)
      × (get_run i (complete_success now i token worker_id log_output w).1.runs ≡ some r)
      × (r.status ≡ success)
      × (r.finished_at ≡ some now)
      × (r.log_output ≡ log_output)
      × (r.lease_token ≡ none)
      × (r.attempt_count ≡ run.attempt_count)
unfolding complete_success success_values
complete_success_lem i token now worker_id log_output w run h clean =
    let values = success_values now log_output in
    let accepted =
      update-held i token now w.runs run h values
        (success-checked i token now w.runs run h log_output clean) in
    let after = get_run-held i token now w.runs run h values (λ r. refl) in
    (values run, rw accepted refl, rw (accepted, after) after, refl, refl, refl, refl, refl)

-- The holder of a lease gets a failure through: the call returns normally if the run is held when it
-- is read and still held, as it was, when the UPDATE meets it, alone under its identifier, within the
-- constraints and started no later than `now`. The run has then lost its lease with the same attempt count; it
-- is pending, to be retried after at most the configured maximal delay, when the failure is retryable
-- and attempts are left, and otherwise failed, finished now with the error message.
pub complete_failure_lem :
    (env : Env) (others : World → World) (i token now : ℕ) (worker_id error_message : String)
    (retryable : Bool) (log_output : Option String) (w : World) (run : TaskRun)
    → IsHeld i token now w.runs run
    → IsHeld i token now (others w).runs run
    → let result =
        complete_failure env others now i token worker_id error_message retryable log_output w in
      (r : TaskRun) × (result.0 ≡ done)
      × (get_run i result.1.runs ≡ some r)
      × (r.lease_token ≡ none)
      × (r.attempt_count ≡ run.attempt_count)
      × (should_retry env w run retryable ≡ true
          → (r.status ≡ pending)
            × ((d : ℕ) × (r.next_retry_at ≡ some (now + d))
                × (d ≤ seconds env.settings.worker_retry_max_delay_seconds)))
      × (should_retry env w run retryable ≡ false
          → (r.status ≡ TaskRunStatus.failed)
            × (r.finished_at ≡ some now)
            × (r.error_message ≡ some error_message))
unfolding complete_failure report_failure requeue_values failed_values
complete_failure_lem env others i token now worker_id error_message retryable log_output w run h
      h' =
    let guard : (holds run.lease_token token && is_running run.status) ≡ true =
      ground (arith, h.held) in
    elim (Bool-cases (should_retry env w run retryable)) [
      | inl e ↦
          let values = requeue_values (now + retry_delay env run.attempt_count) log_output in
          let accepted =
            update-held i token now (others w).runs run h' values
              (requeue-checked i token now (others w).runs run h' _ log_output) in
          let after = get_run-held i token now (others w).runs run h' values (λ r. refl) in
          (
            values run,
            rw (h.found, guard, e, accepted) refl,
            rw (h.found, guard, e, accepted) after,
            refl,
            refl,
            (λ _. (
              refl,
              (retry_delay env run.attempt_count, refl, retry_delay-le env run.attempt_count),
            )),
            λ f. absurd (cc (e, f)),
          )
      | inr e ↦
          let values = failed_values now error_message log_output in
          let accepted =
            update-held i token now (others w).runs run h' values
              (failed-checked i token now (others w).runs run h' error_message log_output) in
          let after = get_run-held i token now (others w).runs run h' values (λ r. refl) in
          (
            values run,
            rw (h.found, guard, e, accepted) refl,
            rw (h.found, guard, e, accepted) after,
            refl,
            refl,
            (λ f. absurd (cc (e, f))),
            λ _. (refl, refl, refl),
          )
    ]
