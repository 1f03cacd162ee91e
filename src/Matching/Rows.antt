-- ===== src/Matching/Rows.antt =====
-- Which cells backend/app/matching reads: the rows of a table with at least as many cells as headers.
use ai_data_operations_emplo.Prelude.{
  ℕ, zero, suc, ◌+◌, ◌≤◌, ◌<◌, ◌≡◌, refl, inl, inr, some, List, [], ◌∷◌, subst, arith, All, length,
  Bool-cases, Option-cases,
}
use mathlib.Core.Option.{some-injective}
use ai_data_operations_emplo.Prelude.Dicts.{set_key}
use ai_data_operations_emplo.Prelude.Texts.{Text, text_eq}
use ai_data_operations_emplo.Matching.Blocking.{
  Library, MatchRuleFieldSpec, nth, column_index, index_from,
}
use ai_data_operations_emplo.Matching.Comparison.{
  cell_of, Weights, add_comparison, compare_fields, compare_pair, score,
}
use ai_data_operations_emplo.Matching.Exact.{exact_comparison, exact_comparisons}
use ai_data_operations_emplo.Matching.Types.{Arithmetic, FieldComparison}

abbrev pub IsTable : List Text → List (List Text) → Type 0
IsTable headers rows = All (λ row. length headers ≤ length row) rows

pub nth-inside {ℓ} :
    {A : Type ℓ} (i : ℕ) (xs : List A) → i < length xs → (x : A) × (nth i xs ≡ some x)
unfolding nth
nth-inside i [] h = absurd (omega arith)
nth-inside zero (x ∷ xs) h = (x, refl)
nth-inside (suc i) (x ∷ xs) h = nth-inside i xs (omega arith)

pub nth-lt {ℓ} : {A : Type ℓ} (i : ℕ) (xs : List A) {x : A} → nth i xs ≡ some x → i < length xs
unfolding nth
nth-lt i [] e = absurd (cc e)
nth-lt zero (x ∷ xs) e = omega arith
nth-lt (suc i) (x ∷ xs) e = omega (arith, nth-lt i xs e)

pub nth-All {ℓ κ} :
    {A : Type ℓ} (P : A → Type κ) (i : ℕ) (xs : List A) {x : A} → All P xs → nth i xs ≡ some x → P x
unfolding nth
nth-All P i [] h e = absurd (cc e)
nth-All P zero (x ∷ xs) h e = subst P (some-injective _ _ e) h.0
nth-All P (suc i) (x ∷ xs) h e = nth-All P i xs h.1 e

module _ (library : Library) where
  index_from-bound :
      (i : ℕ) (headers : List Text) (target : Text) (c : ℕ)
      → index_from library i headers target ≡ some c
      → c < i + length headers
  unfolding index_from
  index_from-bound i [] target c h = absurd (cc h)
  index_from-bound i (header ∷ headers) target c h =
      elim (Bool-cases (text_eq (library.casefold (library.strip header)) target)) [
        | inl e ↦ let same = some-injective _ _ (rw e at h) in omega arith
        | inr e ↦ let later = index_from-bound (i + 1) headers target c (rw e at h) in omega arith
      ]

  pub cell_of-column :
      (headers row : List Text) (name : Text)
      → length headers ≤ length row
      → (value : Text) × (cell_of row (column_index library headers name) ≡ some value)
  unfolding column_index cell_of
  cell_of-column headers row name wide = elim (Option-cases (column_index library headers name)) [
    | inl e ↦ ([], rw e refl)
    | inr (c, e) ↦
        let inside = index_from-bound 0 headers (library.casefold (library.strip name)) c e in
        let (value, found) = nth-inside c row (omega arith) in (value, rw e found)
  ]

module _ (library : Library) (arithmetic : Arithmetic library.Float) where
  pub exact_comparisons-returns :
      (col : ℕ) (headers row_a row_b : List Text) (entries : List (Text × FieldComparison library))
      → col + length headers ≤ length row_a
      → col + length headers ≤ length row_b
      → (result : List (Text × FieldComparison library)) × (exact_comparisons library arithmetic col
            headers row_a row_b entries
          ≡ some result)
  unfolding exact_comparisons
  exact_comparisons-returns col [] row_a row_b entries la lb = (entries, refl)
  exact_comparisons-returns col (header ∷ headers) row_a row_b entries la lb =
      let (value_a, ea) = nth-inside col row_a (omega arith) in
      let (value_b, eb) = nth-inside col row_b (omega arith) in
      let (result, e) =
        exact_comparisons-returns (col + 1) headers row_a row_b
          (set_key header (exact_comparison library arithmetic value_a value_b) entries)
          (omega arith) (omega arith) in
      (result, rw (ea, eb) e)

  compare_fields-returns :
      (headers row_a row_b : List Text) (fields : List (MatchRuleFieldSpec library))
      (weights : Weights library arithmetic)
      → length headers ≤ length row_a
      → length headers ≤ length row_b
      → (result : Weights library arithmetic) × (compare_fields library arithmetic row_a row_b
            headers fields weights
          ≡ some result)
  unfolding compare_fields
  compare_fields-returns headers row_a row_b [] weights la lb = (weights, refl)
  compare_fields-returns headers row_a row_b (spec ∷ fields) weights la lb =
      let (value_a, ea) = cell_of-column library headers row_a spec.column_name la in
      let (value_b, eb) = cell_of-column library headers row_b spec.column_name lb in
      let (result, e) =
        compare_fields-returns headers row_a row_b fields
          (add_comparison library arithmetic spec value_a value_b weights) la lb in
      (result, rw (ea, eb) e)

  pub compare_pair-returns :
      (headers row_a row_b : List Text) (fields : List (MatchRuleFieldSpec library))
      → length headers ≤ length row_a
      → length headers ≤ length row_b
      → (field_comparisons : List (Text × FieldComparison library)) × (total_score : library.Float)
        × (compare_pair library arithmetic row_a row_b headers fields
            ≡ some (field_comparisons, total_score))
  unfolding compare_pair
  compare_pair-returns headers row_a row_b fields la lb =
      let (weights, e) =
        compare_fields-returns headers row_a row_b fields
          (record {
            field_comparisons = [];
            total_weight = arithmetic.zero;
            matched_weight = arithmetic.zero;
          })
          la lb in
      (weights.field_comparisons, score library arithmetic weights, rw e refl)
