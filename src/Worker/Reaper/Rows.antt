-- ===== src/Worker/Reaper/Rows.antt =====
-- What a report of `complete_failure` (backend/app/worker/engine.py) leaves of the table: identifiers and
-- constraints, and every other run.
use ai_data_operations_emplo.Prelude.{
  ℕ, ◌+◌, ◌≡◌, ◌≢◌, refl, ◌∙◌, ap, Bool, true, false, ◌&&◌, Option, none, some, List, [], ◌∷◌,
  String, ◌==◌, holds, arith, Bool-cases, Option-cases, inl, inr, tally,
}
use ai_data_operations_emplo.Worker.Model.{TaskRun, Env, World, get_run, is_running}
use ai_data_operations_emplo.Worker.Table.{assign, update}
use ai_data_operations_emplo.Worker.Table.Laws.{
  AllChecked, update-eq-some, update-AllChecked, get_run-assign, assigned_opt, id-get_run,
}
use ai_data_operations_emplo.Worker.Session.{Outcome}
use ai_data_operations_emplo.Worker.Lease.{owned, guarded}
use ai_data_operations_emplo.Worker.Failure.{
  retry_delay, requeue_values, failed_values, should_retry, report_failure, complete_failure,
  count_retry, count_failure, requeued, terminated,
}

-- One row has the identifier, and all rows are within the constraints.
abbrev pub IsSound : ℕ → List TaskRun → Type 0
IsSound i rows = (tally (λ r. r.id == i) rows ≡ 1) × AllChecked rows

guarded-runs :
    (P : List TaskRun → Type 0) (updated : Option (List TaskRun × ℕ)) (refused lost : World)
    (committed : List TaskRun → World)
    → P refused.runs
    → P lost.runs
    → ((rows : List TaskRun) (n : ℕ) → updated ≡ some (rows, n) → P (committed rows).runs)
    → P (guarded updated refused lost committed).1.runs
guarded-runs P none refused lost committed p q next = p
guarded-runs P (some (rows, n)) refused lost committed p q next = elim (Bool-cases (n == 1)) [
  | inl e ↦ rw e (next rows n refl)
  | inr e ↦ rw e q
]

-- The UPDATE leaves the table as it met it, or with the values of the report.
report_failure-runs :
    (P : List TaskRun → Type 0) (env : Env) (now j token : ℕ) (worker_id error_message : String)
    (retryable : Bool) (log_output : Option String) (run : TaskRun) (retry : Bool) (w : World)
    → P w.runs
    → ((values : TaskRun → TaskRun) (rows : List TaskRun) (n : ℕ)
        → ((r : TaskRun) → (values r).id ≡ r.id)
        → update (owned j token) values w.runs ≡ some (rows, n)
        → P rows)
    → P
        (report_failure env now j token worker_id error_message retryable log_output run retry
          w).1.runs
unfolding report_failure requeue_values failed_values
report_failure-runs P env now j token wid msg retryable log run true w p next =
    let next_retry_at = now + retry_delay env run.attempt_count in
    let values = requeue_values next_retry_at log in
    guarded-runs P (update (owned j token) values w.runs) w (count_retry w)
      (requeued next_retry_at wid msg run w) p p (λ rows n u. next values rows n (λ r. refl) u)
report_failure-runs P env now j token wid msg retryable log run false w p next =
    let values = failed_values now msg log in
    guarded-runs P (update (owned j token) values w.runs) w (count_failure w)
      (terminated wid msg retryable run w) p p (λ rows n u. next values rows n (λ r. refl) u)

-- A report leaves the table as it read it, as the UPDATE met it, or with the values of the report.
complete_failure-runs :
    (P : List TaskRun → Type 0) (env : Env) (others : World → World) (now j token : ℕ)
    (worker_id error_message : String) (retryable : Bool) (log_output : Option String) (w : World)
    → P w.runs
    → P (others w).runs
    → ((values : TaskRun → TaskRun) (rows : List TaskRun) (n : ℕ)
        → ((r : TaskRun) → (values r).id ≡ r.id)
        → update (owned j token) values (others w).runs ≡ some (rows, n)
        → P rows)
    → P
        (complete_failure env others now j token worker_id error_message retryable log_output
          w).1.runs
unfolding complete_failure
complete_failure-runs P env others now j token wid msg retryable log w p q next =
    elim (Option-cases (get_run j w.runs)) [
      | inl e ↦ rw e p
      | inr (run, e) ↦ elim (Bool-cases (holds run.lease_token token && is_running run.status)) [
        | inr g ↦ rw e (rw g p)
        | inl g ↦ rw e (
            rw g (
              report_failure-runs P env now j token wid msg retryable log run
                (should_retry env w run retryable) (others w) q next))
      ]
    ]

module _ (i : ℕ) (selects : TaskRun → Bool) (values : TaskRun → TaskRun)
    (keeps : (r : TaskRun) → (values r).id ≡ r.id) where
  tally-assign :
      (rows : List TaskRun)
      → tally (λ r. r.id == i) (assign selects values rows) ≡ tally (λ r. r.id == i) rows
  unfolding assign
  tally-assign [] = refl
  tally-assign (r ∷ rows) = ground (arith, keeps r, tally-assign rows)

  update-IsSound :
      (rows rows' : List TaskRun) (n : ℕ)
      → update selects values rows ≡ some (rows', n)
      → IsSound i rows
      → IsSound i rows'
  update-IsSound rows rows' n u h = (
    ap (tally (λ r. r.id == i)) ((update-eq-some selects values rows rows' n u).0)
        ∙ tally-assign rows
        ∙ h.0,
    update-AllChecked selects values rows rows' n u h.1,
  )

  update-other :
      (rows rows' : List TaskRun) (n : ℕ) (run : TaskRun)
      → update selects values rows ≡ some (rows', n)
      → get_run i rows ≡ some run
      → selects run ≡ false
      → get_run i rows' ≡ some run
  update-other rows rows' n run u found other =
      ap (get_run i) ((update-eq-some selects values rows rows' n u).0)
      ∙ get_run-assign i selects values keeps rows
      ∙ ap (assigned_opt selects values) found
      ∙ rw other refl

module _ (env : Env) (others : World → World) (now j token : ℕ) (worker_id error_message : String)
    (retryable : Bool) (log_output : Option String) (w : World) (i : ℕ) where
  abbrev result : Outcome × World
  result = complete_failure env others now j token worker_id error_message retryable log_output w

  pub complete_failure-IsSound :
      IsSound i w.runs → IsSound i (others w).runs → IsSound i result.1.runs
  complete_failure-IsSound h h' =
      complete_failure-runs (IsSound i) env others now j token worker_id error_message retryable
        log_output w h h'
        (λ values rows n keeps u.
          update-IsSound i (owned j token) values keeps (others w).runs rows n u h')

  -- A report of another run leaves the run as other sessions do.
  pub complete_failure-other :
      (run : TaskRun)
      → j ≢ i
      → get_run i w.runs ≡ some run
      → get_run i (others w).runs ≡ some run
      → get_run i result.1.runs ≡ some run
  complete_failure-other run ne h h' =
      complete_failure-runs (λ rows. get_run i rows ≡ some run) env others now j token worker_id
        error_message retryable log_output w h h'
        (λ values rows n keeps u.
          let same = id-get_run i (others w).runs run h' in
          update-other i (owned j token) values keeps (others w).runs rows n run u h'
            (ground (arith, ne, same)))
