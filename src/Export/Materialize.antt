-- ===== src/Export/Materialize.antt =====
-- `materialize` (backend/app/export/engine.py) and a direct description of its rows and exclusions.
use ai_data_operations_emplo.Prelude.{
  ℕ, zero, suc, ◌+◌, ◌-◌, ◌≡◌, refl, Bool, not, ◌&&◌, ◌||◌, Option, none, some, List, [], ◌∷◌, ◌++◌,
  map, length, ltb, ◌==◌, if◌then◌else◌, any, take, arith, ltb→lt, Option-cases, Bool-cases, inl,
  inr, length-append, is_none, sym, ◌∙◌, ap,
}
use mathlib.Core.List.{append_assoc, append-nil, map-append}
use ai_data_operations_emplo.Prelude.Texts.{Text, codes, decimal}
use ai_data_operations_emplo.Export.Engine.{
  ExportLimits, GroupInput, RowExclusion, Excluded, exclude_members, exclude_groups, excluded_by,
  exclusion, Output, emit, materialize_loop, materialize, reserved_columns,
}

-- The group names the row as a member that is not its canonical one.
abbrev pub excludes : ℕ → GroupInput → Bool
excludes i g = not (i == g.canonical_row_index) && any (λ m. m == i) g.member_row_indices

abbrev pub excluded_by_any : ℕ → List GroupInput → Bool
excluded_by_any i groups = any (excludes i) groups

-- The surviving rows from the index `i` on, each with its provenance.
unfoldable pub survivors : List GroupInput → ℕ → List (List Text) → List (List Text)
survivors groups i [] = []
survivors groups i (row ∷ rows) =
    let rest = survivors groups (i + 1) rows in
    if excluded_by_any i groups then rest else (row ++ codes "True" ∷ decimal i ∷ []) ∷ rest

-- The indices of the excluded rows.
unfoldable pub excluded_indices : List GroupInput → ℕ → List (List Text) → List ℕ
excluded_indices groups i [] = []
excluded_indices groups i (row ∷ rows) =
    let rest = excluded_indices groups (i + 1) rows in
    if excluded_by_any i groups then i ∷ rest else rest

abbrev known : Option GroupInput → Bool
known o = not (is_none o)

exclude_members-known :
    (i : ℕ) (g : GroupInput) (members : List ℕ) (excluded : Excluded)
    → known (excluded_by i (exclude_members g members excluded))
      ≡ (not (i == g.canonical_row_index) && any (λ m. m == i) members)
        || known (excluded_by i excluded)
unfolding exclude_members excluded_by
exclude_members-known i g [] excluded = ground arith
exclude_members-known i g (m ∷ members) excluded = ground (
  arith,
  exclude_members-known i g members
      (if m == g.canonical_row_index then excluded else (m, g) ∷ excluded),
)

exclude_groups-known :
    (i : ℕ) (groups : List GroupInput) (excluded : Excluded)
    → known (excluded_by i (exclude_groups groups excluded))
      ≡ excluded_by_any i groups || known (excluded_by i excluded)
unfolding exclude_groups
exclude_groups-known i [] excluded = refl
exclude_groups-known i (g ∷ groups) excluded = ground (
  arith,
  exclude_groups-known i groups (exclude_members g g.member_row_indices excluded),
  exclude_members-known i g g.member_row_indices excluded,
)

excluded_by_lem :
    (i : ℕ) (groups : List GroupInput)
    → known (excluded_by i (exclude_groups groups [])) ≡ excluded_by_any i groups
unfolding excluded_by
excluded_by_lem i groups = ground (arith, exclude_groups-known i groups [])

abbrev indices : List RowExclusion → List ℕ
indices = map (λ x. x.row_index)

survivors-length :
    (groups : List GroupInput) (i : ℕ) (rows : List (List Text))
    → length (survivors groups i rows) + length (excluded_indices groups i rows) ≡ length rows
unfolding survivors excluded_indices
survivors-length groups i [] = refl
survivors-length groups i (row ∷ rows) = ground (arith, survivors-length groups (i + 1) rows)

take-none : (n : ℕ) → let nil : List ℕ = [] in take n nil ≡ nil
take-none zero = refl
take-none (suc n) = refl

take-room :
    (m : ℕ) (i : ℕ) (is : List ℕ) (xs : List RowExclusion) (x : RowExclusion)
    → x.row_index ≡ i
    → indices (if ltb (length xs) m then xs ++ x ∷ [] else xs)
        ++ take (m - length (if ltb (length xs) m then xs ++ x ∷ [] else xs)) is
      ≡ indices xs ++ take (m - length xs) (i ∷ is)
take-room m i is xs x e = elim (Bool-cases (ltb (length xs) m)) [
  | inl t ↦
      let k : ℕ = m - length (xs ++ x ∷ []) in
      let room : m - length xs ≡ suc k =
        omega (arith, ltb→lt (length xs) m t, length-append xs (x ∷ [])) in
      rw (t, room)
        (ap (λ l. l ++ take k is)
            (map-append (λ y. y.row_index) xs (x ∷ []) ∙ ap (λ n. indices xs ++ n ∷ []) e)
          ∙ append_assoc (indices xs) (i ∷ []) (take k is))
  | inr t ↦ let room : m - length xs ≡ zero = ground (arith, t) in rw (t, room) refl
]

module _ (groups : List GroupInput) (limits : ExportLimits) (table : Excluded)
    (same : (i : ℕ) → known (excluded_by i table) ≡ excluded_by_any i groups) where
  loop-step :
      (i : ℕ) (row : List Text) (rows : List (List Text)) (out : Output) {o : Option GroupInput}
      → excluded_by i table ≡ o
      → materialize_loop limits table i (row ∷ rows) out
        ≡ materialize_loop limits table (i + 1) rows (emit limits i row o out)
  unfolding materialize_loop
  loop-step i row rows out e =
      ap (λ o. materialize_loop limits table (i + 1) rows (emit limits i row o out)) e

  by_any :
      (i : ℕ) {o : Option GroupInput} → excluded_by i table ≡ o → excluded_by_any i groups ≡ known o
  by_any i e = sym (same i) ∙ ap known e

  loop-rows :
      (i : ℕ) (rows : List (List Text)) (out : Output)
      → (materialize_loop limits table i rows out).0 ≡ out.0 ++ survivors groups i rows
  unfolding materialize_loop survivors
  loop-rows i [] out = sym (append-nil out.0)
  loop-rows i (row ∷ rows) (kept, exclusions) =
      let line : List Text = row ++ codes "True" ∷ decimal i ∷ [] in
      let rest : List (List Text) = survivors groups (i + 1) rows in
      elim (Option-cases (excluded_by i table)) [
        | inl e ↦
            ap (λ o. o.0) (loop-step i row rows (kept, exclusions) e)
            ∙ loop-rows (i + 1) rows (kept ++ line ∷ [], exclusions)
            ∙ append_assoc kept (line ∷ []) rest
            ∙ ap (λ b. kept ++ (if b then rest else line ∷ rest)) (sym (by_any i e))
        | inr (g, e) ↦
            ap (λ o. o.0) (loop-step i row rows (kept, exclusions) e)
            ∙ loop-rows (i + 1) rows (emit limits i row (some g) (kept, exclusions))
            ∙ ap (λ b. kept ++ (if b then rest else line ∷ rest)) (sym (by_any i e))
      ]

  -- Room left under the limit.
  loop-exclusions :
      (i : ℕ) (rows : List (List Text)) (out : Output)
      → indices (materialize_loop limits table i rows out).1
        ≡ indices out.1
          ++ take (limits.max_persisted_exclusions - length out.1) (excluded_indices groups i rows)
  unfolding materialize_loop excluded_indices exclusion
  loop-exclusions i [] (kept, exclusions) =
      rw (take-none (limits.max_persisted_exclusions - length exclusions))
        (sym (append-nil (indices exclusions)))
  loop-exclusions i (row ∷ rows) (kept, exclusions) =
      let rest : List ℕ = excluded_indices groups (i + 1) rows in
      let room : ℕ = limits.max_persisted_exclusions - length exclusions in
      elim (Option-cases (excluded_by i table)) [
        | inl e ↦
            ap (λ o. indices o.1) (loop-step i row rows (kept, exclusions) e)
            ∙ loop-exclusions (i + 1) rows (emit limits i row none (kept, exclusions))
            ∙ ap (λ b. indices exclusions ++ take room (if b then i ∷ rest else rest))
                (sym (by_any i e))
        | inr (g, e) ↦
            ap (λ o. indices o.1) (loop-step i row rows (kept, exclusions) e)
            ∙ loop-exclusions (i + 1) rows (emit limits i row (some g) (kept, exclusions))
            ∙ take-room limits.max_persisted_exclusions i rest exclusions (exclusion i g) refl
            ∙ ap (λ b. indices exclusions ++ take room (if b then i ∷ rest else rest))
                (sym (by_any i e))
      ]

-- The exported rows are exactly the rows that no group excludes, in their order, each with its two
-- provenance cells; exported and excluded rows add up to all rows; the excluded count is the true
-- number whatever the cap; the recorded exclusions are the first excluded row indices up to the
-- cap, in order; and the column count is that of the headers and the two reserved columns.
pub materialize_lem :
    (rows : List (List Text)) (headers : List Text) (groups : List GroupInput)
    (limits : ExportLimits)
    → let result = materialize rows headers groups limits in
      (result.output_rows ≡ survivors groups 0 rows)
      × (result.row_count + result.excluded_row_count ≡ length rows)
      × (result.excluded_row_count ≡ length (excluded_indices groups 0 rows))
      × (indices result.exclusions
          ≡ take limits.max_persisted_exclusions (excluded_indices groups 0 rows))
      × (result.output_column_count ≡ length headers + 2)
unfolding materialize
materialize_lem rows headers groups limits =
    let kept =
      loop-rows groups limits (exclude_groups groups []) (λ i. excluded_by_lem i groups) 0 rows
        ([], []) in
    let sum = survivors-length groups 0 rows in
    let all_room : limits.max_persisted_exclusions - 0 ≡ limits.max_persisted_exclusions =
      omega arith in
    (
      kept,
      rw kept (omega (arith, sum)),
      rw kept (omega (arith, sum)),
      loop-exclusions groups limits (exclude_groups groups []) (λ i. excluded_by_lem i groups) 0
            rows ([], [])
          ∙ ap (λ n. take n (excluded_indices groups 0 rows)) all_room,
      length-append headers reserved_columns,
    )
