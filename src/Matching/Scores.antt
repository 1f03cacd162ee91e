-- ===== src/Matching/Scores.antt =====
-- The pairs of stage 2 of `match` (backend/app/matching/engine.py).
use mathlib.Core.Option.{some-injective}
use ai_data_operations_emplo.Prelude.{
  ℕ, ◌+◌, ◌≤◌, ◌<◌, ◌≡◌, refl, inl, inr, true, Option, none, some, List, [], ◌∷◌, ltb, All, length,
  Bool-cases, ◌>>=◌, map, ◌++◌, All-append, All-map_implies, ap, sym, ◌∙◌, ◌≢◌, if◌then◌else◌,
}
use ai_data_operations_emplo.Prelude.Order.{sort_by, All-sort_by}
use ai_data_operations_emplo.Prelude.Texts.{Text}
use ai_data_operations_emplo.Matching.Blocking.{Blocks}
use ai_data_operations_emplo.Matching.Composite.{
  compare_rows, judge_pair, join_pair, label_of, pair_step, pairs_with, pair_loop, block_step,
  block_loop, composite_decision, skip_block,
}
use ai_data_operations_emplo.Matching.Clustering.Partition.{Connected}
use ai_data_operations_emplo.Matching.Decisions.{MatchState, record_decision}
use ai_data_operations_emplo.Matching.Recorded.{
  Keeps, record_duplicate, record_ambiguous, pass_over,
}
use ai_data_operations_emplo.Matching.Rows.{IsTable, nth-inside, nth-All, compare_pair-returns}
use ai_data_operations_emplo.Matching.Tracked.{Edge, pairs, Arguments, IsTracked, scored, joined}
use ai_data_operations_emplo.Matching.Types.{
  MatchRuleSetConfig, FieldComparison, Label, duplicate, ambiguous,
}

-- All pairs of a list, the earlier first.
unfoldable pub pairs_in : List ℕ → List (ℕ × ℕ)
pairs_in [] = []
pairs_in (a ∷ members) = map (λ b. (a, b)) members ++ pairs_in members

-- The pairs of the blocks that are not too large.
unfoldable pub compared_pairs : ℕ → Blocks → List (ℕ × ℕ)
compared_pairs max_block_size [] = []
compared_pairs max_block_size ((key, members) ∷ blocks) =
    (if ltb max_block_size (length (sort_by ltb members))
      then []
      else pairs_in (sort_by ltb members))
    ++ compared_pairs max_block_size blocks

-- If the two rows score high enough, they are connected.
abbrev pub Joins :
    (args : Arguments) → MatchRuleSetConfig args.library → List (Edge args) → ℕ × ℕ → Type 0
Joins args config edges p =
    (field_comparisons : List (Text × FieldComparison args.library))
    (total_score : args.library.Float)
    → compare_rows args.library args.arithmetic args.rows args.headers args.limits config p.0 p.1
      ≡ some (field_comparisons, total_score)
    → args.arithmetic.ge total_score config.duplicate_threshold ≡ true
    → Connected (pairs edges) p.0 p.1

module _ (args : Arguments) (table : IsTable args.headers args.rows)
    (config : MatchRuleSetConfig args.library) (configured : args.rule_set ≡ some config) where
  abbrev pub Row : ℕ → Type 0
  Row i = i < length args.rows

  compare_rows-returns :
      (a b : ℕ)
      → Row a
      → Row b
      → (field_comparisons : List (Text × FieldComparison args.library))
        × (total_score : args.library.Float) × (compare_rows args.library args.arithmetic args.rows
              args.headers args.limits config a b
            ≡ some (field_comparisons, total_score))
  unfolding compare_rows
  compare_rows-returns a b la lb =
      let (row_a, ea) = nth-inside a args.rows la in
      let (row_b, eb) = nth-inside b args.rows lb in
      let (comparisons, score, e) =
        compare_pair-returns args.library args.arithmetic args.headers row_a row_b config.fields
          (nth-All (λ r. length args.headers ≤ length r) a args.rows table ea)
          (nth-All (λ r. length args.headers ≤ length r) b args.rows table eb) in
      (comparisons, score, rw (ea, eb) e)

  -- A step that does not raise, keeps the invariant and connects those of some pairs that score high.
  abbrev pub GoesOn :
      (MatchState args.library → Option (MatchState args.library)) → List (ℕ × ℕ) → Type 0
  GoesOn step compared =
      (st : MatchState args.library)
      → IsTracked args st
      → (st' : MatchState args.library) × (step st ≡ some st')
        × IsTracked args st'
        × Keeps args st st'
        × All (Joins args config st'.duplicate_edges) compared

  idle-GoesOn : GoesOn (λ st. some st) []
  idle-GoesOn st h = (st, refl, h, (λ x y k. k), tt)

  both-GoesOn :
      (f g : MatchState args.library → Option (MatchState args.library)) (ps qs : List (ℕ × ℕ))
      → GoesOn f ps
      → GoesOn g qs
      → GoesOn (λ st. f st >>= g) (ps ++ qs)
  both-GoesOn f g ps qs hf hg st h =
      let (st1, e1, h1, k1, j1) = hf st h in
      let (st2, e2, h2, k2, j2) = hg st1 h1 in
      (
        st2,
        rw e1 e2,
        h2,
        (λ x y k. k2 x y (k1 x y k)),
        All-append (Joins args config st2.duplicate_edges) ps qs
            (All-map_implies (λ p j fc score e high. k2 p.0 p.1 (j fc score e high)) ps j1) j2,
      )

  high_enough :
      (total_score : args.library.Float)
      → label_of args.library args.arithmetic config total_score ≡ some duplicate
      → args.arithmetic.ge total_score config.duplicate_threshold ≡ true
  unfolding label_of
  high_enough total_score h =
      elim (Bool-cases (args.arithmetic.ge total_score config.duplicate_threshold)) [
        | inl e ↦ e
        | inr e ↦ elim (Bool-cases (args.arithmetic.ge total_score config.review_threshold)) [
          | inl e' ↦ absurd (cc (rw (e, e') at h))
          | inr e' ↦ absurd (cc (rw (e, e') at h))
        ]
      ]

  high-IsDuplicate :
      (total_score : args.library.Float)
      → args.arithmetic.ge total_score config.duplicate_threshold ≡ true
      → label_of args.library args.arithmetic config total_score ≡ some duplicate
  unfolding label_of
  high-IsDuplicate total_score e = rw e refl

  -- A pair that does not get the label scores too low.
  not_high :
      (a b : ℕ) (comparisons : List (Text × FieldComparison args.library))
      (score : args.library.Float) (label : Option Label) (edges : List (Edge args))
      → compare_rows args.library args.arithmetic args.rows args.headers args.limits config a b
        ≡ some (comparisons, score)
      → label_of args.library args.arithmetic config score ≡ label
      → label ≢ some duplicate
      → Joins args config edges (a, b)
  not_high a b comparisons score label edges e l low fc score' e' high =
      let same : score ≡ score' = ap (λ p. p.1) (some-injective _ _ (sym e ∙ e')) in
      absurd (low (sym l ∙ high-IsDuplicate score (rw same high)))

  judge_pair-GoesOn :
      (key : Text) (a b : ℕ) (comparisons : List (Text × FieldComparison args.library))
      (score : args.library.Float) (label : Option Label)
      → Row a
      → Row b
      → compare_rows args.library args.arithmetic args.rows args.headers args.limits config a b
        ≡ some (comparisons, score)
      → label_of args.library args.arithmetic config score ≡ label
      → GoesOn
          (λ st.
            judge_pair args.library args.arithmetic args.rows args.headers args.limits config label
              key a b comparisons score
              (record st { total_comparisons_count = st.total_comparisons_count + 1 }))
          ((a, b) ∷ [])
  unfolding judge_pair join_pair
  judge_pair-GoesOn key a b comparisons score none la lb e l st h = (
    joined args st.uf st.duplicate_edges st,
    refl,
    pass_over args st h,
    (λ x y k. k),
    (not_high a b comparisons score none st.duplicate_edges e l (λ f. cc f), tt),
  )
  judge_pair-GoesOn key a b comparisons score (some duplicate) la lb e l st h =
      let d =
        composite_decision args.library args.arithmetic config key a b duplicate comparisons
          score in
      let (uf, made, tracked, keeps, linked) =
        record_duplicate args a b score d st h refl refl la lb
          (scored configured e (high_enough score l)) in
      (_, rw made refl, tracked, keeps, ((λ fc s _ _. linked), tt))
  judge_pair-GoesOn key a b comparisons score (some ambiguous) la lb e l st h =
      let d =
        composite_decision args.library args.arithmetic config key a b ambiguous comparisons
          score in
      let (tracked, keeps) = record_ambiguous args d st h refl la in
      (
        record_decision args.library args.limits d (joined args st.uf st.duplicate_edges st),
        refl,
        tracked,
        keeps,
        (
          not_high a b comparisons score (some ambiguous)
              (record_decision args.library args.limits d
                (joined args st.uf st.duplicate_edges st)).duplicate_edges
              e l (λ f. cc f),
          tt,
        ),
      )

  pair_step-GoesOn :
      (key : Text) (a b : ℕ)
      → Row a
      → Row b
      → GoesOn
          (pair_step args.library args.arithmetic args.rows args.headers args.limits config key a b)
          ((a, b) ∷ [])
  unfolding pair_step
  pair_step-GoesOn key a b la lb st h =
      let (comparisons, score, e) = compare_rows-returns a b la lb in
      let (st', made, tracked, keeps, joins) =
        judge_pair-GoesOn key a b comparisons score
          (label_of args.library args.arithmetic config score) la lb e refl st h in
      (st', rw e made, tracked, keeps, joins)

  pairs_with-GoesOn :
      (key : Text) (a : ℕ) (members : List ℕ)
      → Row a
      → All Row members
      → GoesOn
          (pairs_with args.library args.arithmetic args.rows args.headers args.limits config key a
            members)
          (map (λ b. (a, b)) members)
  unfolding pairs_with
  pairs_with-GoesOn key a [] la h = idle-GoesOn
  pairs_with-GoesOn key a (b ∷ members) la h =
      both-GoesOn
        (pair_step args.library args.arithmetic args.rows args.headers args.limits config key a b)
        (pairs_with args.library args.arithmetic args.rows args.headers args.limits config key a
          members)
        ((a, b) ∷ []) (map (λ c. (a, c)) members) (pair_step-GoesOn key a b la h.0)
        (pairs_with-GoesOn key a members la h.1)

  pair_loop-GoesOn :
      (key : Text) (members : List ℕ)
      → All Row members
      → GoesOn
          (pair_loop args.library args.arithmetic args.rows args.headers args.limits config key
            members)
          (pairs_in members)
  unfolding pair_loop pairs_in
  pair_loop-GoesOn key [] h = idle-GoesOn
  pair_loop-GoesOn key (a ∷ members) h =
      both-GoesOn
        (pairs_with args.library args.arithmetic args.rows args.headers args.limits config key a
          members)
        (pair_loop args.library args.arithmetic args.rows args.headers args.limits config key
          members)
        (map (λ b. (a, b)) members) (pairs_in members) (pairs_with-GoesOn key a members h.0 h.1)
        (pair_loop-GoesOn key members h.1)

  skip_block-IsTracked :
      (key : Text) (members : List ℕ) (st : MatchState args.library)
      → IsTracked args st
      → IsTracked args (
          skip_block args.library args.arithmetic args.rows args.headers args.limits config key
            members st)
  skip_block-IsTracked key members st h = record {
    clusters = h.clusters;
    justified = h.justified;
    inside = h.inside;
    edges = h.edges;
    by_rule = h.by_rule;
    persisted = h.persisted;
    compared = h.compared;
    positions = h.positions;
    decided = h.decided;
  }

  block_step-GoesOn :
      (key : Text) (members : List ℕ)
      → All Row members
      → GoesOn
          (block_step args.library args.arithmetic args.rows args.headers args.limits config key
            members)
          (if ltb args.limits.max_block_size (length members) then [] else pairs_in members)
  unfolding block_step
  block_step-GoesOn key members h st t =
      elim (Bool-cases (ltb args.limits.max_block_size (length members))) [
        | inl e ↦ rw e (_, refl, skip_block-IsTracked key members st t, (λ x y k. k), tt)
        | inr e ↦ rw e (pair_loop-GoesOn key members h st t)
      ]

  pub block_loop-GoesOn :
      (blocks : Blocks)
      → All (λ b. All Row b.1) blocks
      → GoesOn
          (block_loop args.library args.arithmetic args.rows args.headers args.limits config blocks)
          (compared_pairs args.limits.max_block_size blocks)
  unfolding block_loop compared_pairs
  block_loop-GoesOn [] h = idle-GoesOn
  block_loop-GoesOn ((key, members) ∷ blocks) h =
      both-GoesOn
        (block_step args.library args.arithmetic args.rows args.headers args.limits config key
          (sort_by ltb members))
        (block_loop args.library args.arithmetic args.rows args.headers args.limits config blocks)
        (if ltb args.limits.max_block_size (length (sort_by ltb members))
          then []
          else pairs_in (sort_by ltb members))
        (compared_pairs args.limits.max_block_size blocks)
        (block_step-GoesOn key (sort_by ltb members) (All-sort_by ltb Row members h.0))
        (block_loop-GoesOn blocks h.1)
