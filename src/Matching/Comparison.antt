-- ===== src/Matching/Comparison.antt =====
-- backend/app/matching/comparison.py. Its `_column_index` is the text of the one of blocking.py, whose
-- definition it shares here.
use ai_data_operations_emplo.Prelude.{
  ℕ, Bool, Option, none, some, List, [], ◌∷◌, if◌then◌else◌, ◌>>=◌,
}
use ai_data_operations_emplo.Prelude.Dicts.{set_key}
use ai_data_operations_emplo.Prelude.Texts.{Text, text_eq, codes}
use ai_data_operations_emplo.Matching.Blocking.{
  Library, MatchRuleFieldSpec, normalize_blocking_value, column_index, nth,
}
use ai_data_operations_emplo.Matching.Types.{Arithmetic, FieldComparison}

-- `row[col_index] if col_index is not None else ""`: `none` is an IndexError.
unfoldable pub cell_of : List Text → Option ℕ → Option Text
cell_of row none = some []
cell_of row (some c) = nth c row

module _ (library : Library) (arithmetic : Arithmetic library.Float) where
  unfoldable pub compare_field : Text → Text → Text → Bool × Text × Text
  compare_field value_a value_b comparison_type =
      if text_eq comparison_type (codes "normalized_exact")
      then (let norm_a = normalize_blocking_value library value_a in
          let norm_b = normalize_blocking_value library value_b in
          (text_eq norm_a norm_b, norm_a, norm_b))
      else (text_eq value_a value_b, value_a, value_b)

  pub record Weights : Type 0 where
    pub field_comparisons : List (Text × FieldComparison library)
    pub total_weight : library.Float
    pub matched_weight : library.Float

  unfoldable pub add_comparison : MatchRuleFieldSpec library → Text → Text → Weights → Weights
  add_comparison spec value_a value_b weights =
      let (matched, norm_a, norm_b) = compare_field value_a value_b spec.comparison_type in
      let contribution = if matched then spec.weight else arithmetic.zero in
      record {
        field_comparisons =
            set_key spec.column_name
              (record {
                value_a = norm_a;
                value_b = norm_b;
                matched = matched;
                weight = spec.weight;
                contribution = contribution;
              })
              weights.field_comparisons;
        total_weight = arithmetic.add weights.total_weight spec.weight;
        matched_weight = arithmetic.add weights.matched_weight contribution;
      }

  -- The loop over the fields.
  unfoldable pub compare_fields :
      List Text
      → List Text
      → List Text
      → List (MatchRuleFieldSpec library)
      → Weights
      → Option Weights
  compare_fields row_a row_b headers [] weights = some weights
  compare_fields row_a row_b headers (spec ∷ fields) weights =
      let col_index = column_index library headers spec.column_name in
      cell_of row_a col_index >>= λ (value_a : Text).
      cell_of row_b col_index >>= λ (value_b : Text).
      compare_fields row_a row_b headers fields (add_comparison spec value_a value_b weights)

  abbrev pub score : Weights → library.Float
  score weights =
      if library.gt weights.total_weight arithmetic.zero
      then arithmetic.divide weights.matched_weight weights.total_weight
      else arithmetic.zero

  unfoldable pub compare_pair :
      List Text
      → List Text
      → List Text
      → List (MatchRuleFieldSpec library)
      → Option (List (Text × FieldComparison library) × library.Float)
  compare_pair row_a row_b headers fields =
      compare_fields row_a row_b headers fields (record {
        field_comparisons = [];
        total_weight = arithmetic.zero;
        matched_weight = arithmetic.zero;
      })
      >>= λ (weights : Weights). some (weights.field_comparisons, score weights)
