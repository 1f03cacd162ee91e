-- ===== src/Matching/Exact.antt =====
-- Stage 1 of `match` (backend/app/matching/engine.py): the rows that are equal as a whole.
use ai_data_operations_emplo.Prelude.{
  ℕ, ◌+◌, Bool, true, false, ◌&&◌, Option, none, some, List, [], ◌∷◌, ◌++◌, length, ltb, ◌==◌,
  if◌then◌else◌, ◌>>=◌,
}
use ai_data_operations_emplo.Prelude.Dicts.{set_key}
use ai_data_operations_emplo.Prelude.Order.{sort_by}
use ai_data_operations_emplo.Prelude.Texts.{Text, text_eq, codes, decimal}
use ai_data_operations_emplo.Matching.Blocking.{Library, nth}
use ai_data_operations_emplo.Matching.Clustering.{union}
use ai_data_operations_emplo.Matching.Decisions.{MatchState, record_decision}
use ai_data_operations_emplo.Matching.Types.{
  MatchLimits, Arithmetic, FieldComparison, Decision, duplicate,
}

unfoldable pub row_eq : List Text → List Text → Bool
row_eq [] [] = true
row_eq (a ∷ s) (b ∷ t) = text_eq a b && row_eq s t
row_eq _ _ = false

-- `exact_groups.setdefault(tuple(row), []).append(idx)`
unfoldable pub add_row : List Text → ℕ → List (List Text × List ℕ) → List (List Text × List ℕ)
add_row row idx [] = (row, idx ∷ []) ∷ []
add_row row idx ((r, indices) ∷ groups) =
    if row_eq r row
    then (r, indices ++ idx ∷ []) ∷ groups
    else (r, indices) ∷ add_row row idx groups

-- The loop over `enumerate(rows)`.
unfoldable pub group_rows :
    ℕ → List (List Text) → List (List Text × List ℕ) → List (List Text × List ℕ)
group_rows idx [] groups = groups
group_rows idx (row ∷ rows) groups = group_rows (idx + 1) rows (add_row row idx groups)

-- `stage1_representative_for`
abbrev pub Representatives : Type 0
Representatives = ℕ → Option ℕ

-- `for i in indices: stage1_representative_for[i] = rep`
unfoldable pub represent : ℕ → List ℕ → Representatives → Representatives
represent rep [] reps = reps
represent rep (i ∷ indices) reps = represent rep indices (λ j. if j == i then some rep else reps j)

abbrev pub match_engine_version : Text
match_engine_version = codes "1.0"

abbrev pub exact_row_match : Text
exact_row_match = codes "exact_row_match"

-- The reason of a decision of this stage.
unfoldable pub exact_reason : ℕ → Text
exact_reason group_size =
    codes "identical row (Stage 1 exact match, chain-linked within a "
    ++ decimal group_size
    ++ codes "-row duplicate group)"

module _ (library : Library) (arithmetic : Arithmetic library.Float) where
  abbrev pub exact_comparison : Text → Text → FieldComparison library
  exact_comparison value_a value_b = record {
    value_a = value_a;
    value_b = value_b;
    matched = true;
    weight = arithmetic.one;
    contribution = arithmetic.one;
  }

  -- The dict of the field comparisons, from the column `col` on.
  unfoldable pub exact_comparisons :
      ℕ
      → List Text
      → List Text
      → List Text
      → List (Text × FieldComparison library)
      → Option (List (Text × FieldComparison library))
  exact_comparisons col [] row_a row_b entries = some entries
  exact_comparisons col (header ∷ headers) row_a row_b entries =
      nth col row_a >>= λ (value_a : Text). nth col row_b >>= λ (value_b : Text).
      exact_comparisons (col + 1) headers row_a row_b
        (set_key header (exact_comparison value_a value_b) entries)

  abbrev pub exact_decision : ℕ → ℕ → ℕ → List (Text × FieldComparison library) → Decision library
  exact_decision group_size a b field_comparisons = record {
    record_a_row_index = a;
    record_b_row_index = b;
    blocking_key = none;
    rule_name = exact_row_match;
    field_comparisons = field_comparisons;
    total_score = arithmetic.one;
    threshold_used = arithmetic.one;
    decision = duplicate;
    confidence_score = arithmetic.one;
    reason = exact_reason group_size;
    rule_version = match_engine_version;
    group_index = none;
  }

  module _ (rows : List (List Text)) (headers : List Text) (limits : MatchLimits) where
    unfoldable pub chain_step : ℕ → ℕ → ℕ → MatchState library → Option (MatchState library)
    chain_step group_size a b st = do
      uf ← union st.uf a b
      row_a ← nth a rows
      row_b ← nth b rows
      field_comparisons ← exact_comparisons 0 headers row_a row_b []
      some (
          record_decision library limits (exact_decision group_size a b field_comparisons)
            (record st {
              uf = uf;
              duplicate_edges = st.duplicate_edges ++ (a, b, arithmetic.one) ∷ [];
              total_comparisons_count = st.total_comparisons_count + 1;
            }))

    -- `for i in range(group_size - 1)`, of the index `a` and those after it.
    unfoldable pub chain_loop : ℕ → ℕ → List ℕ → MatchState library → Option (MatchState library)
    chain_loop group_size a [] st = some st
    chain_loop group_size a (b ∷ indices) st =
        chain_step group_size a b st >>= chain_loop group_size b indices

    abbrev pub Stage1 : Type 0
    Stage1 = Representatives × MatchState library

    -- A group of sorted indices: `indices[0]` is the representative.
    unfoldable pub exact_group : List ℕ → Stage1 → Option Stage1
    exact_group [] (reps, st) = some (reps, st)
    exact_group (rep ∷ indices) (reps, st) =
        chain_loop (length (rep ∷ indices)) rep indices st >>= λ (st' : MatchState library).
        some (represent rep (rep ∷ indices) reps, st')

    unfoldable pub exact_groups : List (List Text × List ℕ) → Stage1 → Option Stage1
    exact_groups [] stage = some stage
    exact_groups ((row, indices) ∷ groups) stage =
        (if ltb (length indices) 2 then some stage else exact_group (sort_by ltb indices) stage)
        >>= exact_groups groups

    unfoldable pub exact_stage : MatchState library → Option Stage1
    exact_stage st = exact_groups (group_rows 0 rows []) ((λ _. none), st)
