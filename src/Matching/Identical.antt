-- ===== src/Matching/Identical.antt =====
-- The dict of stage 1 of `match` (backend/app/matching/engine.py), and what the stage connects.
use ai_data_operations_emplo.Prelude.{
  ℕ, zero, suc, ◌+◌, ◌≡◌, ◌↔◌, refl, sym, ap, ◌∙◌, inl, inr, Bool, true, none, some, List, [], ◌∷◌,
  ◌++◌, if◌then◌else◌, ◌==◌, ==_iff, arith, All, All-append-one, any, Bool-cases, subst,
}
use mathlib.Core.Option.{some-injective}
use ai_data_operations_emplo.Prelude.Texts.{Text, text_eq_iff}
use ai_data_operations_emplo.Matching.Blocking.{nth}
use ai_data_operations_emplo.Matching.Chains.{Together, Inside, exact_groups-IsTracked}
use ai_data_operations_emplo.Matching.Clustering.Partition.{back, chain}
use ai_data_operations_emplo.Matching.Decisions.{MatchState}
use ai_data_operations_emplo.Matching.Exact.{
  Representatives, row_eq, add_row, group_rows, exact_stage,
}
use ai_data_operations_emplo.Matching.Recorded.{Linked}
use ai_data_operations_emplo.Matching.Rows.{IsTable}
use ai_data_operations_emplo.Matching.Tracked.{Arguments, IsTracked}

row_eq_iff : (s t : List Text) → (row_eq s t ≡ true) ↔ (s ≡ t)
unfolding row_eq
row_eq_iff [] [] = (λ _. refl, λ _. refl)
row_eq_iff [] (b ∷ t) = (λ e. absurd (cc e), λ e. absurd (cc e))
row_eq_iff (a ∷ s) [] = (λ e. absurd (cc e), λ e. absurd (cc e))
row_eq_iff (a ∷ s) (b ∷ t) = (
  λ e. ground (arith, (row_eq_iff s t).0, text_eq_iff a b),
  λ e. ground (arith, (row_eq_iff s t).1, text_eq_iff a b),
)

abbrev RowGroups : Type 0
RowGroups = List (List Text × List ℕ)

-- The indices of the group of a row.
unfoldable indices_of : List Text → RowGroups → List ℕ
indices_of row [] = []
indices_of row ((r, indices) ∷ groups) = if row_eq r row then indices else indices_of row groups

abbrev pub contains : ℕ → List ℕ → Bool
contains i indices = any (λ j. j == i) indices

contains-append : (i j : ℕ) (xs : List ℕ) → contains i xs ≡ true → contains i (xs ++ j ∷ []) ≡ true
contains-append i j [] h = absurd (cc h)
contains-append i j (x ∷ xs) h = ground (arith, h, contains-append i j xs)

contains-last : (i : ℕ) (xs : List ℕ) → contains i (xs ++ i ∷ []) ≡ true
contains-last i [] = ground arith
contains-last i (x ∷ xs) = ground (arith, contains-last i xs)

pub All-contains {κ} :
    (P : ℕ → Type κ) (i : ℕ) (xs : List ℕ) → All P xs → contains i xs ≡ true → P i
All-contains P i [] h c = absurd (cc c)
All-contains P i (x ∷ xs) h c = elim (Bool-cases (x == i)) [
  | inl e ↦ subst P ((==_iff x i).0 e) h.0
  | inr e ↦ All-contains P i xs h.1 (rw e at c)
]

indices_of-add_row :
    (row r : List Text) (idx : ℕ) (groups : RowGroups)
    → indices_of r (add_row row idx groups)
      ≡ (if row_eq row r then indices_of r groups ++ idx ∷ [] else indices_of r groups)
unfolding indices_of add_row
indices_of-add_row row r idx [] = ground arith
indices_of-add_row row r idx ((s, indices) ∷ groups) =
    ground (
      arith,
      indices_of-add_row row r idx groups,
      row_eq_iff s row,
      row_eq_iff s r,
      row_eq_iff row r,
    )

kept-in-group :
    (i idx : ℕ) (row : List Text) (rows : List (List Text)) (groups : RowGroups)
    → contains i (indices_of row groups) ≡ true
    → contains i (indices_of row (group_rows idx rows groups)) ≡ true
unfolding group_rows
kept-in-group i idx row [] groups h = h
kept-in-group i idx row (r ∷ rows) groups h =
    kept-in-group i (idx + 1) row rows (add_row r idx groups) (elim (Bool-cases (row_eq r row)) [
      | inl e ↦
          rw (indices_of-add_row r row idx groups, e)
            (contains-append i idx (indices_of row groups) h)
      | inr e ↦ rw (indices_of-add_row r row idx groups, e) h
    ])

group_rows-contains :
    (i idx : ℕ) (row : List Text) (rows : List (List Text)) (groups : RowGroups)
    → nth i rows ≡ some row
    → contains (idx + i) (indices_of row (group_rows idx rows groups)) ≡ true
unfolding group_rows nth
group_rows-contains i idx row [] groups h = absurd (cc h)
group_rows-contains zero idx row (r ∷ rows) groups h =
    kept-in-group (idx + 0) (idx + 1) row rows (add_row r idx groups) (
      let same = (row_eq_iff r row).1 (some-injective _ _ h) in
      let here : idx + 0 ≡ idx = omega arith in
      rw (indices_of-add_row r row idx groups, same, here)
        (contains-last idx (indices_of row groups)))
group_rows-contains (suc i) idx row (r ∷ rows) groups h =
    let there : idx + suc i ≡ idx + 1 + i = omega arith in
    rw there (group_rows-contains i (idx + 1) row rows (add_row r idx groups) h)

module _ (all : List (List Text)) where
  -- Every index of a group is one of its row.
  abbrev IsSound : RowGroups → Type 0
  IsSound groups = All (λ g. All (λ i. nth i all ≡ some g.0) g.1) groups

  add_row-IsSound :
      (row : List Text) (idx : ℕ) (groups : RowGroups)
      → nth idx all ≡ some row
      → IsSound groups
      → IsSound (add_row row idx groups)
  unfolding add_row
  add_row-IsSound row idx [] e h = ((e, tt), tt)
  add_row-IsSound row idx ((r, indices) ∷ groups) e h = elim (Bool-cases (row_eq r row)) [
    | inl same ↦ rw same (
      All-append-one (λ i. nth i all ≡ some r) indices idx h.0
          (e ∙ ap (λ x. some x) (sym ((row_eq_iff r row).0 same))),
      h.1,
    )
    | inr other ↦ rw other (h.0, add_row-IsSound row idx groups e h.1)
  ]

  group_rows-IsSound :
      (idx : ℕ) (rows : List (List Text)) (groups : RowGroups)
      → ((i : ℕ) → nth (idx + i) all ≡ nth i rows)
      → IsSound groups
      → IsSound (group_rows idx rows groups)
  unfolding group_rows nth
  group_rows-IsSound idx [] groups e h = h
  group_rows-IsSound idx (row ∷ rows) groups e h =
      let here : idx + 0 ≡ idx = omega arith in
      group_rows-IsSound (idx + 1) rows (add_row row idx groups)
        (λ i. let there : idx + 1 + i ≡ idx + suc i = omega arith in rw there (e (suc i)))
        (add_row-IsSound row idx groups (rw here at (e 0)) h)

All-indices_of {κ} :
    (P : List ℕ → Type κ) (row : List Text) (groups : RowGroups)
    → P []
    → All (λ g. P g.1) groups
    → P (indices_of row groups)
unfolding indices_of
All-indices_of P row [] p h = p
All-indices_of P row ((r, indices) ∷ groups) p h = elim (Bool-cases (row_eq r row)) [
  | inl e ↦ rw e h.0
  | inr e ↦ rw e (All-indices_of P row groups p h.1)
]

module _ (args : Arguments) (table : IsTable args.headers args.rows) where
  -- Equal rows are connected.
  abbrev pub LinksEqualRows : MatchState args.library → Type 0
  LinksEqualRows st =
      (i j : ℕ) (row : List Text)
      → nth i args.rows ≡ some row
      → nth j args.rows ≡ some row
      → Linked args st i j

  pub exact_stage-IsTracked :
      (st : MatchState args.library)
      → IsTracked args st
      → (reps : Representatives) × (st' : MatchState args.library) × (exact_stage args.library
            args.arithmetic args.rows args.headers args.limits st
          ≡ some (reps, st'))
        × IsTracked args st'
        × Inside args table reps
        × LinksEqualRows st'
  unfolding exact_stage
  exact_stage-IsTracked st h =
      let groups = group_rows 0 args.rows [] in
      let first : (i : ℕ) → nth (0 + i) args.rows ≡ nth i args.rows =
        λ i. let same : 0 + i ≡ i = omega arith in rw same refl in
      let (reps, st', made, h', ins, _, together) =
        exact_groups-IsTracked args table groups (λ _. none) st h (λ j r e. absurd (cc e))
          (group_rows-IsSound args.rows 0 args.rows [] first tt) in
      (
        reps,
        st',
        made,
        h',
        ins,
        λ i j row ei ej.
            let (r, linked) =
              All-indices_of (Together args table st') row groups (0, tt) together in
            let has : (k : ℕ)
                → nth k args.rows ≡ some row
                → contains k (indices_of row groups) ≡ true =
              λ k e.
                let same : 0 + k ≡ k = omega arith in
                rw same at (group_rows-contains k 0 row args.rows [] e) in
            chain
              (back (
                All-contains (λ x. Linked args st' r x) i (indices_of row groups) linked
                  (has i ei)))
              (All-contains (λ x. Linked args st' r x) j (indices_of row groups) linked (has j ej)),
      )
