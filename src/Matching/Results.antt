-- ===== src/Matching/Results.antt =====
-- What `match` (backend/app/matching/engine.py) returns, for rows with at least as many cells as there
-- are headers.
mod Tests
use ai_data_operations_emplo.Prelude.{
  ℕ, ◌≡◌, ◌≢◌, Option, some, List, All, length, ◌<◌, true, ◌∷◌, All-map_implies, subst, >>=-eq-some,
}
use ai_data_operations_emplo.Prelude.Order.{sort_by}
use ai_data_operations_emplo.Prelude.Texts.{Text, text_ltb}
use ai_data_operations_emplo.Matching.Blocking.{
  nth, Blocks, MatchRuleFieldSpec, select_blocking_field, build_blocks,
}
use ai_data_operations_emplo.Matching.Composite.{compare_rows, candidate_indices}
use ai_data_operations_emplo.Matching.Decisions.{MatchState, start}
use ai_data_operations_emplo.Matching.Exact.{Representatives, exact_stage}
use ai_data_operations_emplo.Matching.Scores.{compared_pairs}
use ai_data_operations_emplo.Matching.Engine.{match}
use ai_data_operations_emplo.Matching.Grouped.{IsGroup, holding}
use ai_data_operations_emplo.Matching.Partition.{IsCounted, match-returns, Completes}
use ai_data_operations_emplo.Matching.Rows.{IsTable, nth-lt}
use ai_data_operations_emplo.Matching.Tracked.{Arguments}
use ai_data_operations_emplo.Matching.Types.{MatchResult, MatchRuleSetConfig, FieldComparison}

module _ (args : Arguments) (table : IsTable args.headers args.rows) where
  -- Two different rows with the same cells are together in exactly one group of the result of
  -- `match`, whatever the rule set and the limits are.
  pub match-equal_rows :
      (i j : ℕ) (row : List Text)
      → i ≢ j
      → nth i args.rows ≡ some row
      → nth j args.rows ≡ some row
      → (result : MatchResult args.library) × (match args.library args.arithmetic args.rows
            args.headers args.rule_set args.limits
          ≡ some result)
        × (holding args i j result.groups ≡ 1)
  match-equal_rows i j row ne ei ej =
      let (result, h) = match-returns args table in
      (
        result,
        h.returned,
        (h.partition i j (nth-lt i args.rows ei) (nth-lt j args.rows ej) ne).1.1
            (h.equal_rows i j row ei ej),
      )

  -- In every group of the result of `match`, the members are at least two rows, none of them twice,
  -- and the canonical row is a member and no member is smaller.
  pub match-IsGroup :
      (result : MatchResult args.library) × (match args.library args.arithmetic args.rows
          args.headers args.rule_set args.limits
        ≡ some result)
      × All (IsGroup args) result.groups
  match-IsGroup = let (result, h) = match-returns args table in (result, h.returned, h.groups)

  -- In the result of `match`, the counts by rule add up to the duplicate and the ambiguous pairs
  -- together, which are at most the compared pairs; as many decisions are stored as there are such
  -- pairs, up to the limit; the number of groups, of skipped blocks and of rows is the one reported.
  pub match-IsCounted :
      (result : MatchResult args.library) × (match args.library args.arithmetic args.rows
          args.headers args.rule_set args.limits
        ≡ some result)
      × IsCounted args result
  match-IsCounted = let (result, h) = match-returns args table in (result, h.returned, h.counts)

  compare_rows-inside :
      (config : MatchRuleSetConfig args.library) (a b : ℕ)
      (compared : List (Text × FieldComparison args.library) × args.library.Float)
      → compare_rows args.library args.arithmetic args.rows args.headers args.limits config a b
        ≡ some compared
      → (a < length args.rows) × (b < length args.rows)
  unfolding compare_rows
  compare_rows-inside config a b compared e =
      let (row_a, ea, rest) = >>=-eq-some (nth a args.rows) _ e in
      let (row_b, eb, _) = >>=-eq-some (nth b args.rows) _ rest in
      (nth-lt a args.rows ea, nth-lt b args.rows eb)

  -- With a rule set that has fields, `match` returns a result, after it has selected a blocking field
  -- and built blocks of the candidates, the rows that stage 1 leaves; any two different rows of one
  -- block, the smaller first, are together in exactly one group of the result if the block has at
  -- most the maximal size and their score is at least the duplicate threshold.
  pub match-joins :
      (config : MatchRuleSetConfig args.library) (field : MatchRuleFieldSpec args.library)
      (fields : List (MatchRuleFieldSpec args.library))
      → args.rule_set ≡ some config
      → config.fields ≡ field ∷ fields
      → (result : MatchResult args.library) × (reps : Representatives) × (st : MatchState
          args.library)
        × (best : MatchRuleFieldSpec args.library) × (blocks : Blocks) × (match args.library
              args.arithmetic args.rows args.headers args.rule_set args.limits
            ≡ some result)
        × (exact_stage args.library args.arithmetic args.rows args.headers args.limits
              (start args.library (length args.rows))
            ≡ some (reps, st))
        × (select_blocking_field args.library config.fields ≡ some best)
        × (build_blocks args.library
              (candidate_indices (length args.rows) reps)
              args.rows
              args.headers
              best
            ≡ some blocks)
        × All
            (λ p.
              p.0 ≢ p.1
              → (comparisons : List (Text × FieldComparison args.library))
                (score : args.library.Float)
              → compare_rows args.library args.arithmetic args.rows args.headers args.limits config
                  p.0 p.1
                ≡ some (comparisons, score)
              → args.arithmetic.ge score config.duplicate_threshold ≡ true
              → holding args p.0 p.1 result.groups ≡ 1)
            (compared_pairs args.limits.max_block_size (sort_by (λ p q. text_ltb p.0 q.0) blocks))
  match-joins config field fields is_set some_field =
      let (result, h) = match-returns args table in
      let completes : Completes args (some config) h.representatives h.edges =
        subst (λ r. Completes args r h.representatives h.edges) is_set h.completes in
      let (best, blocks, chosen, blocked, joins) = completes field fields some_field in
      (
        result,
        h.representatives,
        h.after_exact,
        best,
        blocks,
        h.returned,
        h.exact,
        chosen,
        blocked,
        All-map_implies
            (λ p joined ne comparisons score e high.
              let (la, lb) = compare_rows-inside config p.0 p.1 (comparisons, score) e in
              (h.partition p.0 p.1 la lb ne).1.1 (joined comparisons score e high))
            (compared_pairs args.limits.max_block_size (sort_by (λ p q. text_ltb p.0 q.0) blocks))
            joins,
      )
