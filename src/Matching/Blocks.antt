-- ===== src/Matching/Blocks.antt =====
-- The blocks of `build_blocks` (backend/app/matching/blocking.py).
use ai_data_operations_emplo.Prelude.{
  ℕ, ◌≡◌, refl, sym, ap, ◌∙◌, inl, inr, Bool, not, ◌&&◌, Option, some, List, [], ◌∷◌, ◌++◌,
  if◌then◌else◌, arith, All, Bool-cases, select,
}
use mathlib.Core.List.{append_assoc, append-nil}
use ai_data_operations_emplo.Prelude.Texts.{Text, text_eq, text_eq_iff}
use ai_data_operations_emplo.Matching.Blocking.{
  Library, Blocks, add_to_block, MatchRuleFieldSpec, normalize_blocking_value, column_index,
  raw_value, place, build_loop, build_blocks,
}

-- The rows of the block `key`, in order.
unfoldable pub members : Text → Blocks → List ℕ
members key [] = []
members key ((k, rows) ∷ blocks) = if text_eq k key then rows else members key blocks

members-add_to_block :
    (key : Text) (i : ℕ) (j : Text) (blocks : Blocks)
    → members j (add_to_block key i blocks)
      ≡ (if text_eq key j then members j blocks ++ i ∷ [] else members j blocks)
unfolding members add_to_block
members-add_to_block key i j [] = ground arith
members-add_to_block key i j ((k, rows) ∷ blocks) = ground (
  arith,
  members-add_to_block key i j blocks,
  text_eq_iff k key,
  text_eq_iff k j,
  text_eq_iff key j,
)

select-front :
    (test : ℕ → Bool) (i : ℕ) (xs : List ℕ)
    → select test (i ∷ []) ++ select test xs ≡ select test (i ∷ xs)
select-front test i xs = elim (Bool-cases (test i)) [ inl e ↦ rw e refl | inr e ↦ rw e refl ]

module _ (library : Library) (rows : List (List Text)) (col : Option ℕ) (value : ℕ → Text) where
  -- The row belongs to the block: its normalized value is the key, and not blank.
  abbrev pub belongs : Text → ℕ → Bool
  belongs key i =
      let normalized = normalize_blocking_value library (value i) in
      not (text_eq normalized []) && text_eq normalized key

  members-place :
      (i : ℕ) (key : Text) (blocks : Blocks)
      → members key (place library i (normalize_blocking_value library (value i)) blocks)
        ≡ members key blocks ++ select (belongs key) (i ∷ [])
  unfolding place
  members-place i key blocks = ground (
    arith,
    members-add_to_block (normalize_blocking_value library (value i)) i key blocks,
    append-nil (members key blocks),
  )

  loop-members :
      (indices : List ℕ) (blocks : Blocks)
      → All (λ i. raw_value library rows col i ≡ some (value i)) indices
      → (result : Blocks) × (build_loop library rows col indices blocks ≡ some result)
        × ((key : Text) → members key result ≡ members key blocks ++ select (belongs key) indices)
  unfolding build_loop
  loop-members [] blocks h = (blocks, refl, λ key. sym (append-nil (members key blocks)))
  loop-members (i ∷ indices) blocks h =
      let placed = place library i (normalize_blocking_value library (value i)) blocks in
      let (result, made, rest) = loop-members indices placed h.1 in
      (
        result,
        rw (h.0, build_loop) made,
        λ key.
            rest key
            ∙ ap (λ l. l ++ select (belongs key) indices) (members-place i key blocks)
            ∙ append_assoc (members key blocks) (select (belongs key) (i ∷ []))
                (select (belongs key) indices)
            ∙ ap (λ l. members key blocks ++ l) (select-front (belongs key) i indices),
      )

module _ (library : Library) (rows : List (List Text)) (headers : List Text)
    (blocking_field : MatchRuleFieldSpec library) (value : ℕ → Text) where
  -- If every candidate row has a cell in the blocking column (whose value is `value`, and the empty
  -- text when no header names the column), then `build_blocks` returns normally, and the block of a
  -- key is the list of the candidates, in their order, whose normalized value is that key, where a
  -- row whose normalized value is blank is in no block.
  pub build_blocks_lem :
      (indices : List ℕ)
      → All
          (λ i.
            raw_value library rows (column_index library headers blocking_field.column_name) i
            ≡ some (value i))
          indices
      → (result : Blocks) × (build_blocks library indices rows headers blocking_field ≡ some result)
        × ((key : Text)
            → members key result
              ≡ select
                  (belongs library rows
                    (column_index library headers blocking_field.column_name)
                    value
                    key)
                  indices)
  unfolding build_blocks members
  build_blocks_lem indices h =
      loop-members library rows (column_index library headers blocking_field.column_name) value
        indices [] h
