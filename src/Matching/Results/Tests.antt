-- ===== src/Matching/Results/Tests.antt =====
-- The theorems on the result of `match` (backend/app/matching/engine.py) for five rows of which two are
-- equal, with a rule set of one field, where one decision may be stored.
use ai_data_operations_emplo.Prelude.{
  arith, ℕ, ◌+◌, ◌≡◌, refl, some, List, [], ◌∷◌, ltb, leb, All, length, ◌≢◌, true,
}
use ai_data_operations_emplo.Prelude.Order.{sort_by}
use ai_data_operations_emplo.Prelude.Texts.{Text, text_ltb, codes, decimal}
use ai_data_operations_emplo.Matching.Blocking.{
  Library, nth, Blocks, MatchRuleFieldSpec, select_blocking_field, build_blocks,
}
use ai_data_operations_emplo.Matching.Composite.{compare_rows, candidate_indices}
use ai_data_operations_emplo.Matching.Decisions.{MatchState, start}
use ai_data_operations_emplo.Matching.Exact.{Representatives, exact_stage}
use ai_data_operations_emplo.Matching.Scores.{compared_pairs}
use ai_data_operations_emplo.Matching.Engine.{match}
use ai_data_operations_emplo.Matching.Grouped.{IsGroup, holding}
use ai_data_operations_emplo.Matching.Partition.{IsCounted}
use ai_data_operations_emplo.Matching.Results.{
  match-equal_rows, match-IsGroup, match-IsCounted, match-joins,
}
use ai_data_operations_emplo.Matching.Rows.{IsTable}
use ai_data_operations_emplo.Matching.Tracked.{Arguments}
use ai_data_operations_emplo.Matching.Types.{MatchResult, MatchRuleSetConfig, FieldComparison}

-- Scores count matched weights, in whole numbers.
abbrev whole : Library
whole = record {
  Float = ℕ;
  gt = λ a b. ltb b a;
  strip = λ s. s;
  casefold = λ s. s;
  substitute_whitespace = λ s. s;
}

abbrev city : MatchRuleFieldSpec whole
city = record { column_name = codes "city"; comparison_type = codes "exact"; weight = 2 }

abbrev config : MatchRuleSetConfig whole
config = record { duplicate_threshold = 2; review_threshold = 1; fields = city ∷ [] }

abbrev small : Arguments
small = record {
  library = whole;
  arithmetic = record {
    zero = 0;
    one = 1;
    add = λ a b. a + b;
    divide = λ a b. a;
    ge = λ a b. leb b a;
    show = decimal;
  };
  rows =
      (codes "1" ∷ codes "Oslo" ∷ [])
      ∷ (codes "2" ∷ codes "Rome" ∷ [])
      ∷ (codes "1" ∷ codes "Oslo" ∷ [])
      ∷ (codes "3" ∷ codes "Rome" ∷ [])
      ∷ (codes "4" ∷ [] ∷ [])
      ∷ [];
  headers = codes "id" ∷ codes "city" ∷ [];
  limits = record { max_block_size = 10; max_persisted_decisions = 1; max_skipped_row_sample = 3 };
  rule_set = some config;
}

small-IsTable : IsTable small.headers small.rows
small-IsTable = (omega arith, (omega arith, (omega arith, (omega arith, (omega arith, tt)))))

match-equal_rows_example :
    (result : MatchResult whole) × (match small.library small.arithmetic small.rows small.headers
        small.rule_set small.limits
      ≡ some result)
    × (holding small 0 2 result.groups ≡ 1)
unfolding nth
match-equal_rows_example =
    match-equal_rows small small-IsTable 0 2 (codes "1" ∷ codes "Oslo" ∷ []) (omega arith) refl refl

match-IsGroup_example :
    (result : MatchResult whole) × (match small.library small.arithmetic small.rows small.headers
        small.rule_set small.limits
      ≡ some result)
    × All (IsGroup small) result.groups
match-IsGroup_example = match-IsGroup small small-IsTable

match-IsCounted_example :
    (result : MatchResult whole) × (match small.library small.arithmetic small.rows small.headers
        small.rule_set small.limits
      ≡ some result)
    × IsCounted small result
match-IsCounted_example = match-IsCounted small small-IsTable

match-joins_example :
    (result : MatchResult whole) × (reps : Representatives) × (st : MatchState whole)
    × (best : MatchRuleFieldSpec whole) × (blocks : Blocks) × (match small.library small.arithmetic
          small.rows small.headers small.rule_set small.limits
        ≡ some result)
    × (exact_stage small.library small.arithmetic small.rows small.headers small.limits
          (start whole (length small.rows))
        ≡ some (reps, st))
    × (select_blocking_field whole config.fields ≡ some best)
    × (build_blocks whole (candidate_indices (length small.rows) reps) small.rows small.headers best
        ≡ some blocks)
    × All
        (λ p.
          p.0 ≢ p.1
          → (comparisons : List (Text × FieldComparison whole)) (score : ℕ)
          → compare_rows whole small.arithmetic small.rows small.headers small.limits config p.0 p.1
            ≡ some (comparisons, score)
          → leb 2 score ≡ true
          → holding small p.0 p.1 result.groups ≡ 1)
        (compared_pairs 10 (sort_by (λ p q. text_ltb p.0 q.0) blocks))
match-joins_example = match-joins small small-IsTable config city [] refl refl
