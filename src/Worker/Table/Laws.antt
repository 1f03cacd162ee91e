-- ===== src/Worker/Table/Laws.antt =====
-- What an UPDATE of task_runs does to predicates on all rows, to a row looked up, and to the
-- constraints.
use ai_data_operations_emplo.Prelude.{
  ℕ, ◌≡◌, refl, Bool, true, false, not, ◌&&◌, Option, none, some, List, [], ◌∷◌, ◌++◌, ◌==◌,
  if◌then◌else◌, arith, subst, All, any, tally, Bool-cases, inl, inr,
}
use ai_data_operations_emplo.Worker.Model.{TaskRun, get_run}
use ai_data_operations_emplo.Worker.Table.{assign, update, check_constraints}

-- Every row satisfies the CHECK constraints.
abbrev pub AllChecked : List TaskRun → Type 0
AllChecked rows = All (λ r. check_constraints r ≡ true) rows

pub All-assign {κ} :
    (P : TaskRun → Type κ) (selects : TaskRun → Bool) (values : TaskRun → TaskRun)
    → ((r : TaskRun) → selects r ≡ true → P r → P (values r))
    → (rows : List TaskRun) → All P rows
    → All P (assign selects values rows)
unfolding assign
All-assign P selects values keep [] h = tt
All-assign P selects values keep (r ∷ rows) h = elim (Bool-cases (selects r)) [
  | inl e ↦ rw e (keep r e h.0, All-assign P selects values keep rows h.1)
  | inr e ↦ rw e (h.0, All-assign P selects values keep rows h.1)
]

-- A successful UPDATE returns the assigned rows and the number of rows selected.
pub update-eq-some :
    (selects : TaskRun → Bool) (values : TaskRun → TaskRun) (rows rows' : List TaskRun) (n : ℕ)
    → update selects values rows ≡ some (rows', n)
    → (rows' ≡ assign selects values rows) × (n ≡ tally selects rows)
unfolding update
update-eq-some selects values rows rows' n h =
    elim (Bool-cases (any (λ r. selects r && not (check_constraints (values r))) rows)) [
      | inl e ↦ cc (rw e at h)
      | inr e ↦ let h' = rw e at h in (cc h', cc h')
    ]

none_refused :
    (selects : TaskRun → Bool) (values : TaskRun → TaskRun) (rows : List TaskRun)
    → All (λ r. selects r ≡ true → check_constraints (values r) ≡ true) rows
    → any (λ r. selects r && not (check_constraints (values r))) rows ≡ false
none_refused selects values [] h = refl
none_refused selects values (r ∷ rows) h =
    let ih = none_refused selects values rows h.1 in
    elim (Bool-cases (selects r)) [ inl e ↦ rw e (rw (h.0 e) ih) | inr e ↦ rw e ih ]

-- An UPDATE whose values keep the constraints is not refused.
pub update_accepted :
    (selects : TaskRun → Bool) (values : TaskRun → TaskRun) (rows : List TaskRun)
    → All (λ r. selects r ≡ true → check_constraints (values r) ≡ true) rows
    → update selects values rows ≡ some (assign selects values rows, tally selects rows)
unfolding update
update_accepted selects values rows h = rw (none_refused selects values rows h)

assign-AllChecked :
    (selects : TaskRun → Bool) (values : TaskRun → TaskRun) (rows : List TaskRun)
    → any (λ r. selects r && not (check_constraints (values r))) rows ≡ false
    → AllChecked rows
    → AllChecked (assign selects values rows)
unfolding assign
assign-AllChecked selects values [] e h = tt
assign-AllChecked selects values (r ∷ rows) e h =
    let ih = assign-AllChecked selects values rows in (ground (arith, h.0), ih (ground arith) h.1)

-- A successful UPDATE leaves every row within the constraints.
pub update-AllChecked :
    (selects : TaskRun → Bool) (values : TaskRun → TaskRun) (rows rows' : List TaskRun) (n : ℕ)
    → update selects values rows ≡ some (rows', n)
    → AllChecked rows
    → AllChecked rows'
unfolding update
update-AllChecked selects values rows rows' n h all =
    elim (Bool-cases (any (λ r. selects r && not (check_constraints (values r))) rows)) [
      | inl e ↦ cc (rw e at h)
      | inr e ↦
          rw ((update-eq-some selects values rows rows' n h).0)
            (assign-AllChecked selects values rows e all)
    ]

-- The row that an UPDATE makes of one that it may select.
abbrev pub assigned : (TaskRun → Bool) → (TaskRun → TaskRun) → TaskRun → TaskRun
assigned selects values r = if selects r then values r else r

abbrev pub assigned_opt : (TaskRun → Bool) → (TaskRun → TaskRun) → Option TaskRun → Option TaskRun
assigned_opt selects values none = none
assigned_opt selects values (some r) = some (assigned selects values r)

-- A row looked up after an UPDATE that keeps identifiers is the row from before, assigned.
pub get_run-assign :
    (i : ℕ) (selects : TaskRun → Bool) (values : TaskRun → TaskRun)
    → ((r : TaskRun) → (values r).id ≡ r.id)
    → (rows : List TaskRun)
    → get_run i (assign selects values rows) ≡ assigned_opt selects values (get_run i rows)
unfolding assign
get_run-assign i selects values keeps [] = refl
get_run-assign i selects values keeps (r ∷ rows) =
    ground (arith, keeps r, get_run-assign i selects values keeps rows)

pub get_run-append :
    (i : ℕ) (rows : List TaskRun) (x r : TaskRun)
    → get_run i rows ≡ some r
    → get_run i (rows ++ x ∷ []) ≡ some r
get_run-append i [] x r h = cc h
get_run-append i (y ∷ rows) x r h = ground (arith, get_run-append i rows x r)

-- A row looked up satisfies what all rows satisfy, and has the identifier.
pub All-get_run {κ} :
    (P : TaskRun → Type κ) (i : ℕ) (rows : List TaskRun) (r : TaskRun)
    → All P rows
    → get_run i rows ≡ some r
    → P r
All-get_run P i [] r h e = absurd (cc e)
All-get_run P i (x ∷ rows) r h e = elim (Bool-cases (x.id == i)) [
  | inl t ↦ subst P (cc (rw t at e)) h.0
  | inr t ↦ All-get_run P i rows r h.1 (rw t at e)
]

pub id-get_run : (i : ℕ) (rows : List TaskRun) (r : TaskRun) → get_run i rows ≡ some r → r.id ≡ i
id-get_run i [] r e = cc e
id-get_run i (x ∷ rows) r e = ground (arith, id-get_run i rows r)
