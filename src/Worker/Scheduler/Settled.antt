-- ===== src/Worker/Scheduler/Settled.antt =====
-- The candidate and the UPDATE of one round of backend/app/worker/scheduler.py, and whether rows of its
-- task are still due.
use ai_data_operations_emplo.Prelude.{
  ℕ, ◌<◌, ◌≡◌, ◌≢◌, refl, subst, inl, inr, Bool, true, false, some, List, [], ◌∷◌, ◌==◌, arith, All,
  Bool-cases, tally, select,
}
use ai_data_operations_emplo.Prelude.Order.{sort_by, All-sort_by}
use ai_data_operations_emplo.Worker.Model.{Task}
use ai_data_operations_emplo.Worker.Scheduler.{
  Surroundings, task_due, due_before, eligible, next_candidate, unchanged, advance, head?,
}

select-All :
    {A : Type 0} (test : A → Bool) (P : A → Type 0) (xs : List A)
    → All P xs
    → All (λ x. P x × (test x ≡ true)) (select test xs)
select-All test P [] h = tt
select-All test P (x ∷ xs) h = elim (Bool-cases (test x)) [
  | inl e ↦ rw e ((h.0, e), select-All test P xs h.1)
  | inr e ↦ rw e (select-All test P xs h.1)
]

-- The candidate is one of the tasks, and eligible.
pub next_candidate-All :
    (s : Surroundings) (now : ℕ) (excluded : List ℕ) (P : Task → Type 0) (tasks : List Task)
    (row : Task)
    → All P tasks
    → next_candidate s now excluded tasks ≡ some row
    → P row × (eligible s now excluded row ≡ true)
unfolding next_candidate
next_candidate-All s now excluded P tasks row h e =
    first (sort_by due_before (select (eligible s now excluded) tasks))
      (All-sort_by due_before (λ x. P x × (eligible s now excluded x ≡ true)) _
        (select-All (eligible s now excluded) P tasks h))
      e
  where
    first :
        (xs : List Task)
        → All (λ x. P x × (eligible s now excluded x ≡ true)) xs
        → head? xs ≡ some row
        → P row × (eligible s now excluded row ≡ true)
    first [] h e = cc e
    first (x ∷ xs) h e = subst (λ x. P x × (eligible s now excluded x ≡ true)) (cc e) h.0

module _ (now t : ℕ) where
  abbrev pub is_task : Task → Bool
  is_task x = x.id == t

  -- No row of the task `t` is due.
  abbrev pub IsSettled : List Task → Type 0
  IsSettled tasks = All (λ x. x.id ≡ t → task_due now x ≡ false) tasks

  abbrev pub HasInterval : List Task → Type 0
  HasInterval tasks = All (λ x. x.schedule_interval_seconds ≢ some 0) tasks

  module _ (selects : Task → Bool) (next : ℕ) where
    pub tally-advance :
        (tasks : List Task)
        → tally is_task (advance selects (some next) tasks) ≡ tally is_task tasks
    unfolding advance
    tally-advance [] = refl
    tally-advance (x ∷ tasks) = ground (arith, tally-advance tasks)

    pub HasInterval-advance :
        (tasks : List Task) → HasInterval tasks → HasInterval (advance selects (some next) tasks)
    unfolding advance
    HasInterval-advance [] h = tt
    HasInterval-advance (x ∷ tasks) h = elim (Bool-cases (selects x)) [
      | inl e ↦ rw e (h.0, HasInterval-advance tasks h.1)
      | inr e ↦ rw e (h.0, HasInterval-advance tasks h.1)
    ]

    pub IsSettled-advance :
        (tasks : List Task)
        → now < next
        → IsSettled tasks
        → IsSettled (advance selects (some next) tasks)
    unfolding advance task_due
    IsSettled-advance [] lt h = tt
    IsSettled-advance (x ∷ tasks) lt h = elim (Bool-cases (selects x)) [
      | inl e ↦ rw e ((λ same. ground (arith, lt)), IsSettled-advance tasks lt h.1)
      | inr e ↦ rw e (h.0, IsSettled-advance tasks lt h.1)
    ]

    IsSettled-none : (tasks : List Task) → tally is_task tasks ≡ 0 → IsSettled tasks
    IsSettled-none [] e = tt
    IsSettled-none (x ∷ tasks) e =
        ((λ same. ground (arith, e, same)), IsSettled-none tasks (ground (arith, e)))

  tally-unchanged-zero :
      (row : Task) (tasks : List Task)
      → row.id ≡ t
      → tally is_task tasks ≡ 0
      → tally (unchanged row) tasks ≡ 0
  unfolding unchanged
  tally-unchanged-zero row [] same e = refl
  tally-unchanged-zero row (x ∷ tasks) same e =
      ground (arith, same, e, tally-unchanged-zero row tasks)

  unchanged-id : (row x : Task) → unchanged row x ≡ true → x.id ≡ row.id
  unfolding unchanged
  unchanged-id row x h = ground (arith, h)

  -- The UPDATE that succeeds for a row of the task settles it.
  pub advance-settles :
      (row : Task) (next : ℕ) (tasks : List Task)
      → now < next
      → row.id ≡ t
      → tally is_task tasks ≡ 1
      → tally (unchanged row) tasks ≡ 1
      → IsSettled (advance (unchanged row) (some next) tasks)
  unfolding advance task_due
  advance-settles row next [] lt same one hit = tt
  advance-settles row next (x ∷ tasks) lt same one hit = elim (Bool-cases (x.id == t)) [
    | inl e ↦
        let rest : tally is_task tasks ≡ 0 = ground (arith, e, one) in
        let settled =
          IsSettled-advance (unchanged row) next tasks lt
            (IsSettled-none (unchanged row) next tasks rest) in
        elim (Bool-cases (unchanged row x)) [
          | inl u ↦ rw u ((λ _. ground (arith, lt)), settled)
          | inr u ↦ absurd (ground (arith, u, hit, tally-unchanged-zero row tasks same rest))
        ]
    | inr e ↦
        let rest : tally is_task tasks ≡ 1 = ground (arith, e, one) in
        elim (Bool-cases (unchanged row x)) [
          | inl u ↦ absurd (ground (arith, e, same, unchanged-id row x u))
          | inr u ↦ rw u (
            (λ f. absurd (ground (arith, e, f))),
            advance-settles row next tasks lt same rest (ground (arith, u, hit)),
          )
        ]
  ]
