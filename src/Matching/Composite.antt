-- ===== src/Matching/Composite.antt =====
-- Stage 2 of `match` (backend/app/matching/engine.py): the pairs of each block by weighted score.
use ai_data_operations_emplo.Prelude.{
  ℕ, zero, suc, ◌+◌, true, false, Option, none, some, List, [], ◌∷◌, ◌++◌, length, take, tally, any,
  ltb, ◌==◌, if◌then◌else◌, ◌>>=◌,
}
use ai_data_operations_emplo.Prelude.Order.{sort_by}
use ai_data_operations_emplo.Prelude.Texts.{Text, text_ltb, codes, decimal}
use ai_data_operations_emplo.Matching.Blocking.{
  Library, Blocks, nth, select_blocking_field, build_blocks,
}
use ai_data_operations_emplo.Matching.Clustering.{union}
use ai_data_operations_emplo.Matching.Comparison.{compare_pair}
use ai_data_operations_emplo.Matching.Decisions.{MatchState, record_decision}
use ai_data_operations_emplo.Matching.Exact.{Representatives, match_engine_version}
use ai_data_operations_emplo.Matching.Types.{
  MatchLimits, MatchRuleSetConfig, Arithmetic, FieldComparison, Decision, Label, duplicate,
  ambiguous,
}

-- The loop over `range(n)`, with the `left` indices from `idx` on.
unfoldable pub candidate_loop : ℕ → ℕ → Representatives → List ℕ → List ℕ → List ℕ
candidate_loop zero idx reps seen candidates = candidates
candidate_loop (suc left) idx reps seen candidates = elim (reps idx) [
  | none ↦ candidate_loop left (idx + 1) reps seen (candidates ++ idx ∷ [])
  | some rep ↦ elim (any (λ s. s == rep) seen) [
    | true ↦ candidate_loop left (idx + 1) reps seen candidates
    | false ↦ candidate_loop left (idx + 1) reps (rep ∷ seen) (candidates ++ rep ∷ [])
  ]
]

unfoldable pub candidate_indices : ℕ → Representatives → List ℕ
candidate_indices n reps = sort_by ltb (candidate_loop n 0 reps [] [])

module _ (library : Library) (arithmetic : Arithmetic library.Float) where
  -- `sum(1 for fc in field_comparisons.values() if fc["matched"])`
  abbrev pub matched_count : List (Text × FieldComparison library) → ℕ
  matched_count field_comparisons = tally (λ entry. entry.1.matched) field_comparisons

  unfoldable pub composite_reason :
      MatchRuleSetConfig library
      → Label
      → List (Text × FieldComparison library)
      → library.Float
      → Text
  composite_reason rule_set label field_comparisons total_score =
      decimal (matched_count field_comparisons)
      ++ codes " of "
      ++ decimal (length field_comparisons)
      ++ codes " configured fields matched (score "
      ++ arithmetic.show total_score
      ++ elim label [
        | duplicate ↦
            codes " >= threshold " ++ arithmetic.show rule_set.duplicate_threshold ++ codes ")"
        | ambiguous ↦
            codes " is between the review threshold "
            ++ arithmetic.show rule_set.review_threshold
            ++ codes " and the duplicate threshold "
            ++ arithmetic.show rule_set.duplicate_threshold
            ++ codes ") -- flagged for manual review, not grouped"
      ]

  -- `none` below the review threshold.
  unfoldable pub label_of : MatchRuleSetConfig library → library.Float → Option Label
  label_of rule_set total_score =
      if arithmetic.ge total_score rule_set.duplicate_threshold
      then some duplicate
      else (if arithmetic.ge total_score rule_set.review_threshold then some ambiguous else none)

  unfoldable pub rule_name : MatchRuleSetConfig library → Text
  rule_name rule_set =
      if length rule_set.fields == 1
      then codes "normalized_exact_match"
      else codes "composite_weighted_match"

  abbrev pub composite_decision :
      MatchRuleSetConfig library
      → Text
      → ℕ
      → ℕ
      → Label
      → List (Text × FieldComparison library)
      → library.Float
      → Decision library
  composite_decision rule_set key a b label field_comparisons total_score = record {
    record_a_row_index = a;
    record_b_row_index = b;
    blocking_key = some key;
    rule_name = rule_name rule_set;
    field_comparisons = field_comparisons;
    total_score = total_score;
    threshold_used = rule_set.duplicate_threshold;
    decision = label;
    confidence_score = total_score;
    reason = composite_reason rule_set label field_comparisons total_score;
    rule_version = match_engine_version;
    group_index = none;
  }

  -- The union and the edge of a pair that is a duplicate.
  unfoldable pub join_pair :
      Label → ℕ → ℕ → library.Float → MatchState library → Option (MatchState library)
  join_pair ambiguous a b total_score st = some st
  join_pair duplicate a b total_score st = do
    uf ← union st.uf a b
    some (record st { uf = uf; duplicate_edges = st.duplicate_edges ++ (a, b, total_score) ∷ [] })

  module _ (rows : List (List Text)) (headers : List Text) (limits : MatchLimits)
      (rule_set : MatchRuleSetConfig library) where
    -- What follows the comparison of a pair; a pair without a label is passed over.
    unfoldable pub judge_pair :
        Option Label
        → Text
        → ℕ
        → ℕ
        → List (Text × FieldComparison library)
        → library.Float
        → MatchState library
        → Option (MatchState library)
    judge_pair none key a b field_comparisons total_score st = some st
    judge_pair (some label) key a b field_comparisons total_score st = do
      joined ← join_pair label a b total_score st
      some (
          record_decision library limits
            (composite_decision rule_set key a b label field_comparisons total_score) joined)

    unfoldable pub compare_rows :
        ℕ → ℕ → Option (List (Text × FieldComparison library) × library.Float)
    compare_rows a b = do
      row_a ← nth a rows
      row_b ← nth b rows
      compare_pair library arithmetic row_a row_b headers rule_set.fields

    unfoldable pub pair_step : Text → ℕ → ℕ → MatchState library → Option (MatchState library)
    pair_step key a b st = do
      (field_comparisons, total_score) ← compare_rows a b
      judge_pair (label_of rule_set total_score) key a b field_comparisons total_score
          (record st { total_comparisons_count = st.total_comparisons_count + 1 })

    -- The inner loop over `j`, and the loop over `i`.
    unfoldable pub pairs_with : Text → ℕ → List ℕ → MatchState library → Option (MatchState library)
    pairs_with key a [] st = some st
    pairs_with key a (b ∷ members) st = pair_step key a b st >>= pairs_with key a members

    unfoldable pub pair_loop : Text → List ℕ → MatchState library → Option (MatchState library)
    pair_loop key [] st = some st
    pair_loop key (a ∷ members) st = pairs_with key a members st >>= pair_loop key members

    abbrev pub skip_block : Text → List ℕ → MatchState library → MatchState library
    skip_block key members st = record st {
      skipped_blocks =
          st.skipped_blocks
          ++ (record {
            blocking_key = key;
            block_size = length members;
            sample_row_indices = take limits.max_skipped_row_sample members;
          })
            ∷ [];
    }

    unfoldable pub block_step : Text → List ℕ → MatchState library → Option (MatchState library)
    block_step key members st =
        if ltb limits.max_block_size (length members)
        then some (skip_block key members st)
        else pair_loop key members st

    -- The loop over the sorted keys, of the entries of the dict: its keys are distinct.
    unfoldable pub block_loop : Blocks → MatchState library → Option (MatchState library)
    block_loop [] st = some st
    block_loop ((key, members) ∷ blocks) st =
        block_step key (sort_by ltb members) st >>= block_loop blocks

    unfoldable pub composite_stage :
        Representatives → MatchState library → Option (MatchState library)
    composite_stage reps st = do
      blocking_field ← select_blocking_field library rule_set.fields
      blocks ←
          build_blocks library (candidate_indices (length rows) reps) rows headers blocking_field
      block_loop (sort_by (λ p q. text_ltb p.0 q.0) blocks) st
