-- ===== src/Matching/Partition.antt =====
-- The result of `match` (backend/app/matching/engine.py).
use ai_data_operations_emplo.Prelude.{
  ℕ, zero, suc, ◌+◌, ◌≤◌, ◌<◌, min, ◌≡◌, ◌≢◌, ◌↔◌, refl, sym, ◌∙◌, inl, inr, Option, none, some,
  List, [], arith, All, All-map_implies, All-and, All-select, select, tally, tally-select-le,
  length, List-cases, if◌then◌else◌, ◌==◌, subst, ◌∷◌,
}
use ai_data_operations_emplo.Prelude.Counts.{total}
use ai_data_operations_emplo.Prelude.Texts.{Text, text_ltb}
use ai_data_operations_emplo.Prelude.Order.{sort_by}
use ai_data_operations_emplo.Matching.Blocking.{
  nth, Blocks, MatchRuleFieldSpec, select_blocking_field, build_blocks,
}
use ai_data_operations_emplo.Matching.Composite.{candidate_indices}
use ai_data_operations_emplo.Matching.Scores.{Joins, compared_pairs}
use ai_data_operations_emplo.Matching.Candidates.{composite_stage-GoesOn}
use ai_data_operations_emplo.Matching.Chains.{Inside}
use ai_data_operations_emplo.Matching.Clustering.Components.{
  range, Groups, IsGrouping, components-IsGrouping,
}
use ai_data_operations_emplo.Matching.Clustering.Partition.{Connected}
use ai_data_operations_emplo.Matching.Decisions.{MatchState, start}
use ai_data_operations_emplo.Matching.Engine.{match, configured_stage, cluster_stage, match_result}
use ai_data_operations_emplo.Matching.Exact.{Representatives, exact_stage}
use ai_data_operations_emplo.Matching.Grouped.{
  IsGroup, holding, IsComponent, Once, sorted_components-returns, group_loop-returns,
}
use ai_data_operations_emplo.Matching.Identical.{exact_stage-IsTracked}
use ai_data_operations_emplo.Matching.Pairings.{both, both-tally, classes}
use ai_data_operations_emplo.Matching.Recorded.{Keeps}
use ai_data_operations_emplo.Matching.Rows.{IsTable}
use ai_data_operations_emplo.Matching.Tracked.{
  Arguments, Edge, pairs, IsDuplicate, IsTracked, IsTracked-start,
}
use ai_data_operations_emplo.Matching.Types.{MatchResult, MatchRuleSetConfig, Group}
use ai_data_operations_emplo.Matching.Wiring.{
  confidence_loop-returns, rate_groups-returns, wire_groups-returns,
}

range-All : (i n size : ℕ) → i + n ≤ size → All (λ j. j < size) (range i n)
unfolding range
range-All i zero size le = tt
range-All i (suc n) size le = (omega arith, range-All (i + 1) n size (omega arith))

range-before : (j i n : ℕ) → j < i → tally (λ k. k == j) (range i n) ≡ 0
unfolding range
range-before j i zero lt = refl
range-before j i (suc n) lt = ground (arith, lt, range-before j (i + 1) n (omega arith))

range-Once : (i n : ℕ) → Once (range i n)
unfolding range
range-Once i zero j = omega arith
range-Once i (suc n) j =
    ground (arith, range-Once (i + 1) n j, range-before i (i + 1) n (omega arith))

module _ (args : Arguments) where
  -- The groups are the components of more than one row.
  abbrev pub Partitions : List (Edge args) → List (Group args.library) → Type 0
  Partitions edges groups =
      (x y : ℕ)
      → x < length args.rows
      → y < length args.rows
      → x ≢ y
      → (holding args x y groups ≤ 1)
        × ((holding args x y groups ≡ 1) ↔ Connected (pairs edges) x y)

  -- The counters of a result of `match`.
  pub record IsCounted (result : MatchResult args.library) : Type 0 where
    pub by_rule :
        total result.decisions_by_rule ≡ result.duplicate_pairs_count + result.ambiguous_pairs_count
    pub persisted :
        length result.decisions
        ≡ min args.limits.max_persisted_decisions
            (result.duplicate_pairs_count + result.ambiguous_pairs_count)
    pub compared :
        result.duplicate_pairs_count + result.ambiguous_pairs_count ≤ result.total_comparisons_count
    pub groups : result.duplicate_group_count ≡ length result.groups
    pub blocks : result.skipped_block_count ≡ length result.skipped_blocks
    pub rows : result.row_count ≡ length args.rows

module _ (args : Arguments) where
  -- With a rule set that has fields, the edges connect the pairs of the blocks that score high enough.
  abbrev pub Completes :
      Option (MatchRuleSetConfig args.library) → Representatives → List (Edge args) → Type 0
  Completes none reps edges = Unit
  Completes (some config) reps edges =
      (field : MatchRuleFieldSpec args.library) (fields : List (MatchRuleFieldSpec args.library))
      → config.fields ≡ field ∷ fields
      → (best : MatchRuleFieldSpec args.library) × (blocks : Blocks) × (select_blocking_field
            args.library config.fields
          ≡ some best)
        × (build_blocks args.library (candidate_indices (length args.rows) reps) args.rows
              args.headers best
            ≡ some blocks)
        × All (Joins args config edges)
            (compared_pairs args.limits.max_block_size (sort_by (λ p q. text_ltb p.0 q.0) blocks))

module _ (args : Arguments) (table : IsTable args.headers args.rows) where
  components-IsComponent :
      (repr : ℕ → ℕ) (comps : Groups)
      → IsGrouping repr (range 0 (length args.rows)) comps
      → All (λ g. IsComponent (length args.rows) g.1) comps
  components-IsComponent repr comps h =
      let rows = range 0 (length args.rows) in
      All-map_implies
        (λ g k. (
          k.0,
          subst (λ l. All (λ i. i < length args.rows) l) (sym k.1)
              (All-select (λ i. i < length args.rows) (λ j. repr j == g.0) rows
                (range-All 0 (length args.rows) (length args.rows) (omega arith))),
          λ i.
              let le = tally-select-le (λ j. j == i) (λ j. repr j == g.0) rows in
              let once = range-Once 0 (length args.rows) i in rw k.1 (omega (arith, le, once)),
        ))
        comps
        (All-and (λ g. g.1 ≢ []) (λ g. g.1 ≡ select (λ j. repr j == g.0) rows) comps h.full
          (classes repr rows comps h))

  cluster_stage-returns :
      (st : MatchState args.library)
      → IsTracked args st
      → (result : MatchResult args.library) × (cluster_stage args.library args.arithmetic
            (length args.rows)
            st
          ≡ some result)
        × All (IsGroup args) result.groups
        × Partitions args st.duplicate_edges result.groups
        × IsCounted args result
        × (result.duplicate_pairs_count ≡ st.duplicate_pairs_count)
  unfolding cluster_stage
  cluster_stage-returns st h =
      let (comps, uf, c, e1, same, grouping) =
        components-IsGrouping (length args.rows) (pairs st.duplicate_edges) st.uf h.clusters in
      let are_components = components-IsComponent h.clusters.repr comps grouping in
      let (entries, e2, ok, tallies) =
        sorted_components-returns (length args.rows) comps are_components in
      let (grouped, e3, groups_ok, counted) =
        group_loop-returns args entries ([], λ _. none) ok tt in
      let (conf, uf1, e4, c1) =
        confidence_loop-returns args (pairs st.duplicate_edges) st.duplicate_edges uf (λ _. []) c
          h.inside in
      let (rated, uf2, e5, c2, rated_ok, kept) =
        rate_groups-returns args (pairs st.duplicate_edges) conf grouped.0 uf1 c1 groups_ok in
      let (wired, e6, same_length) =
        wire_groups-returns args (pairs st.duplicate_edges) grouped.1
          st.pending_duplicate_edge_positions st.decisions uf2 c2 h.positions h.decided in
      (
        match_result args.library args.arithmetic (length args.rows) rated wired st,
        rw (e1, e2, e3, e4, e5, e6) refl,
        rated_ok,
        λ x y lx ly ne.
            let n = both-tally h.clusters.repr (length args.rows) comps grouping x y lx ly in
            let start : 0 + tally (λ e. both x y e.2) entries ≡ tally (λ e. both x y e.2) entries =
              omega arith in
            let all : holding args x y rated
                ≡ (if h.clusters.repr x == h.clusters.repr y then 1 else 0) =
              kept x y ∙ counted x y ne ∙ start ∙ tallies (both x y) ∙ n in
            (
              ground (arith, all),
              (
                λ one. h.clusters.sound x y (ground (arith, all, one)),
                λ linked. let e = h.clusters.complete x y linked in ground (arith, all, e),
              ),
            ),
        record {
          by_rule = h.by_rule;
          persisted = same_length ∙ h.persisted;
          compared = h.compared;
          groups = refl;
          blocks = refl;
          rows = refl;
        },
        refl,
      )

  configured_stage-returns :
      (rule_set : Option (MatchRuleSetConfig args.library)) (reps : Representatives)
      (st : MatchState args.library)
      → args.rule_set ≡ rule_set
      → IsTracked args st
      → Inside args table reps
      → (st' : MatchState args.library) × (configured_stage args.library args.arithmetic args.rows
            args.headers args.limits rule_set reps st
          ≡ some st')
        × IsTracked args st'
        × Keeps args st st'
        × Completes args rule_set reps st'.duplicate_edges
  unfolding configured_stage
  configured_stage-returns none reps st is_set h ins = (st, refl, h, (λ x y k. k), tt)
  configured_stage-returns (some config) reps st is_set h ins = elim (List-cases config.fields) [
    | inl e ↦ rw e (st, refl, h, (λ x y k. k), λ field fields f. absurd (cc (e, f)))
    | inr (field, fields, e) ↦
        let (best, blocks, chosen, blocked, goes_on) =
          composite_stage-GoesOn args table config is_set reps field fields e ins in
        let (st', made, h', keeps, joins) = goes_on st h in
        (st', rw e made, h', keeps, λ _ _ _. (best, blocks, chosen, blocked, joins))
  ]

  -- The edges of `match` on its way to a result.
  pub record IsExplained (result : MatchResult args.library) : Type 0 where
    pub edges : List (Edge args)
    pub returned :
        match args.library args.arithmetic args.rows args.headers args.rule_set args.limits
        ≡ some result
    pub justified : All (λ e. IsDuplicate args e.0 e.1) edges
    pub counted : length edges ≡ result.duplicate_pairs_count
    pub equal_rows :
        (i j : ℕ) (row : List Text)
        → nth i args.rows ≡ some row
        → nth j args.rows ≡ some row
        → Connected (pairs edges) i j
    pub partition : Partitions args edges result.groups
    pub groups : All (IsGroup args) result.groups
    pub counts : IsCounted args result
    pub representatives : Representatives
    pub after_exact : MatchState args.library
    pub exact :
        exact_stage args.library args.arithmetic args.rows args.headers args.limits
          (start args.library (length args.rows))
        ≡ some (representatives, after_exact)
    pub completes : Completes args args.rule_set representatives edges

  pub match-returns : (result : MatchResult args.library) × IsExplained result
  unfolding match
  match-returns =
      let (reps, st1, e1, h1, ins, equal) =
        exact_stage-IsTracked args table (start args.library (length args.rows))
          (IsTracked-start args) in
      let (st2, e2, h2, k2, completes) =
        configured_stage-returns args.rule_set reps st1 refl h1 ins in
      let (result, e3, groups, parts, counts, dup) = cluster_stage-returns st2 h2 in
      (
        result,
        record {
          edges = st2.duplicate_edges;
          returned = rw (e1, e2) e3;
          justified = h2.justified;
          counted = h2.edges ∙ sym dup;
          equal_rows = λ i j row ei ej. k2 i j (equal i j row ei ej);
          partition = parts;
          groups = groups;
          counts = counts;
          representatives = reps;
          after_exact = st1;
          exact = e1;
          completes = completes;
        },
      )
