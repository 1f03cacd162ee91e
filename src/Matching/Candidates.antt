-- ===== src/Matching/Candidates.antt =====
-- The candidates of stage 2 of `match` (backend/app/matching/engine.py) and the whole stage.
use ai_data_operations_emplo.Prelude.{
  ℕ, zero, suc, ◌+◌, ◌≤◌, ◌<◌, ◌≡◌, refl, ◌∙◌, inl, inr, Option, none, some, List, [], ◌∷◌, ◌++◌,
  ltb, ◌==◌, arith, All, All-append-one, any, length, Bool-cases, Option-cases,
}
use ai_data_operations_emplo.Prelude.Order.{sort_by, All-sort_by}
use ai_data_operations_emplo.Prelude.Texts.{Text, text_eq, text_ltb}
use ai_data_operations_emplo.Matching.Blocking.{
  Blocks, nth, MatchRuleFieldSpec, select_blocking_field, select_from, build_blocks, build_loop,
  place, add_to_block, raw_value, column_index, normalize_blocking_value,
}
use ai_data_operations_emplo.Matching.Chains.{Inside}
use ai_data_operations_emplo.Matching.Composite.{candidate_loop, candidate_indices, composite_stage}
use ai_data_operations_emplo.Matching.Comparison.{cell_of}
use ai_data_operations_emplo.Matching.Exact.{Representatives}
use ai_data_operations_emplo.Matching.Rows.{IsTable, nth-inside, nth-All, cell_of-column}
use ai_data_operations_emplo.Matching.Scores.{GoesOn, block_loop-GoesOn, compared_pairs}
use ai_data_operations_emplo.Matching.Tracked.{Arguments}
use ai_data_operations_emplo.Matching.Types.{MatchRuleSetConfig}

module _ (args : Arguments) (table : IsTable args.headers args.rows)
    (config : MatchRuleSetConfig args.library) (configured : args.rule_set ≡ some config) where
  abbrev IsRow : ℕ → Type 0
  IsRow i = i < length args.rows

  candidate_loop-All :
      (left idx : ℕ) (reps : Representatives) (seen candidates : List ℕ)
      → Inside args table reps
      → idx + left ≤ length args.rows
      → All IsRow candidates
      → All IsRow (candidate_loop left idx reps seen candidates)
  unfolding candidate_loop
  candidate_loop-All zero idx reps seen candidates ins le h = h
  candidate_loop-All (suc left) idx reps seen candidates ins le h = elim (Option-cases (reps idx)) [
    | inl e ↦
        rw (e, candidate_loop)
          (candidate_loop-All left (idx + 1) reps seen (candidates ++ idx ∷ []) ins (omega arith)
            (All-append-one IsRow candidates idx h (omega arith)))
    | inr (rep, e) ↦ elim (Bool-cases (any (λ s. s == rep) seen)) [
      | inl old ↦
          rw (e, candidate_loop, old)
            (candidate_loop-All left (idx + 1) reps seen candidates ins (omega arith) h)
      | inr new ↦
          rw (e, candidate_loop, new)
            (candidate_loop-All left (idx + 1) reps (rep ∷ seen) (candidates ++ rep ∷ []) ins
              (omega arith) (All-append-one IsRow candidates rep h (ins idx rep e)))
    ]
  ]

  add_to_block-All :
      (key : Text) (i : ℕ) (blocks : Blocks)
      → IsRow i
      → All (λ b. All IsRow b.1) blocks
      → All (λ b. All IsRow b.1) (add_to_block key i blocks)
  unfolding add_to_block
  add_to_block-All key i [] lt h = ((lt, tt), tt)
  add_to_block-All key i ((k, members) ∷ blocks) lt h = elim (Bool-cases (text_eq k key)) [
    | inl e ↦ rw e (All-append-one IsRow members i h.0 lt, h.1)
    | inr e ↦ rw e (h.0, add_to_block-All key i blocks lt h.1)
  ]

  place-All :
      (i : ℕ) (normalized : Text) (blocks : Blocks)
      → IsRow i
      → All (λ b. All IsRow b.1) blocks
      → All (λ b. All IsRow b.1) (place args.library i normalized blocks)
  unfolding place
  place-All i normalized blocks lt h = elim (Bool-cases (text_eq normalized [])) [
    | inl e ↦ rw e h
    | inr e ↦ rw e (add_to_block-All normalized i blocks lt h)
  ]

  raw_value-cell_of :
      (col : Option ℕ) (i : ℕ) (row : List Text)
      → nth i args.rows ≡ some row
      → raw_value args.library args.rows col i ≡ cell_of row col
  unfolding raw_value cell_of
  raw_value-cell_of none i row e = refl
  raw_value-cell_of (some c) i row e = rw e refl

  raw_value-returns :
      (name : Text) (i : ℕ)
      → IsRow i
      → (value : Text) × (raw_value args.library args.rows
            (column_index args.library args.headers name)
            i
          ≡ some value)
  raw_value-returns name i lt =
      let (row, e) = nth-inside i args.rows lt in
      let wide = nth-All (λ r. length args.headers ≤ length r) i args.rows table e in
      let (value, found) = cell_of-column args.library args.headers row name wide in
      (value, raw_value-cell_of (column_index args.library args.headers name) i row e ∙ found)

  build_loop-returns :
      (name : Text) (indices : List ℕ) (blocks : Blocks)
      → All IsRow indices
      → All (λ b. All IsRow b.1) blocks
      → (result : Blocks) × (build_loop args.library args.rows
            (column_index args.library args.headers name)
            indices
            blocks
          ≡ some result)
        × All (λ b. All IsRow b.1) result
  unfolding build_loop
  build_loop-returns name [] blocks lt h = (blocks, refl, h)
  build_loop-returns name (i ∷ indices) blocks lt h =
      let (raw, e) = raw_value-returns name i lt.0 in
      let placed = place args.library i (normalize_blocking_value args.library raw) blocks in
      let (result, made, rest) =
        build_loop-returns name indices placed lt.1
          (place-All i (normalize_blocking_value args.library raw) blocks lt.0 h) in
      (result, rw (e, build_loop) made, rest)

  select_blocking_field-returns :
      (fields : List (MatchRuleFieldSpec args.library)) (field : MatchRuleFieldSpec args.library)
      (more : List (MatchRuleFieldSpec args.library))
      → fields ≡ field ∷ more
      → (best : MatchRuleFieldSpec args.library) × (select_blocking_field args.library fields
          ≡ some best)
  unfolding select_blocking_field
  select_blocking_field-returns fields field more e =
      (select_from args.library field more, rw e refl)

  build_blocks-returns :
      (indices : List ℕ) (field : MatchRuleFieldSpec args.library)
      → All IsRow indices
      → (blocks : Blocks) × (build_blocks args.library indices args.rows args.headers field
          ≡ some blocks)
        × All (λ b. All IsRow b.1) blocks
  unfolding build_blocks
  build_blocks-returns indices field h = build_loop-returns field.column_name indices [] h tt

  candidate_indices-All :
      (reps : Representatives)
      → Inside args table reps
      → All IsRow (candidate_indices (length args.rows) reps)
  unfolding candidate_indices
  candidate_indices-All reps ins =
      All-sort_by ltb IsRow (candidate_loop (length args.rows) 0 reps [] [])
        (candidate_loop-All (length args.rows) 0 reps [] [] ins (omega arith) tt)

  -- The blocks of stage 2, and the whole stage.
  pub composite_stage-GoesOn :
      (reps : Representatives) (field : MatchRuleFieldSpec args.library)
      (fields : List (MatchRuleFieldSpec args.library))
      → config.fields ≡ field ∷ fields
      → Inside args table reps
      → (best : MatchRuleFieldSpec args.library) × (blocks : Blocks) × (select_blocking_field
            args.library config.fields
          ≡ some best)
        × (build_blocks args.library
              (candidate_indices (length args.rows) reps)
              args.rows
              args.headers
              best
            ≡ some blocks)
        × GoesOn args table config configured
            (composite_stage args.library args.arithmetic args.rows args.headers args.limits config
              reps)
            (compared_pairs args.limits.max_block_size (sort_by (λ p q. text_ltb p.0 q.0) blocks))
  unfolding composite_stage
  composite_stage-GoesOn reps field fields some_field ins =
      let (best, chosen) = select_blocking_field-returns config.fields field fields some_field in
      let (blocks, made, rows) =
        build_blocks-returns (candidate_indices (length args.rows) reps) best
          (candidate_indices-All reps ins) in
      (
        best,
        blocks,
        chosen,
        made,
        λ st h.
            let (st', e, tracked, keeps, joins) =
              block_loop-GoesOn args table config configured
                (sort_by (λ p q. text_ltb p.0 q.0) blocks)
                (All-sort_by (λ p q. text_ltb p.0 q.0) (λ b. All IsRow b.1) blocks rows) st h in
            (st', rw (chosen, made) e, tracked, keeps, joins),
      )
