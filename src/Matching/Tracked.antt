-- ===== src/Matching/Tracked.antt =====
-- The invariant of the variables of `match` (backend/app/matching/engine.py), and the steps that keep it.
use ai_data_operations_emplo.Prelude.{
  ℕ, ◌+◌, ◌≤◌, ◌<◌, min, ◌≡◌, refl, ap, inl, inr, true, Option, some, List, [], ◌∷◌, ◌++◌, map,
  arith, All, All-append-one, All-map_implies, length, length-append, ltb, Bool-cases,
  if◌then◌else◌,
}
use ai_data_operations_emplo.Prelude.Counts.{count_key, total, total-count_key}
use ai_data_operations_emplo.Prelude.Texts.{Text}
use ai_data_operations_emplo.Matching.Blocking.{Library, nth}
use ai_data_operations_emplo.Matching.Clustering.{UnionFind}
use ai_data_operations_emplo.Matching.Clustering.Partition.{Clusters, Clusters-singletons}
use ai_data_operations_emplo.Matching.Composite.{compare_rows}
use ai_data_operations_emplo.Matching.Decisions.{
  MatchState, start, count_label, pending_after, record_decision,
}
use ai_data_operations_emplo.Matching.Types.{
  MatchLimits, MatchRuleSetConfig, Arithmetic, Decision, FieldComparison, Label, duplicate,
  ambiguous,
}

abbrev pub pairs {ℓ} : {A : Type ℓ} → List (ℕ × ℕ × A) → List (ℕ × ℕ)
pairs edges = map (λ e. (e.0, e.1)) edges

-- The arguments of `match`, and the library it runs on.
pub record Arguments : Type 1 where
  pub library : Library
  pub arithmetic : Arithmetic library.Float
  pub rows : List (List Text)
  pub headers : List Text
  pub limits : MatchLimits
  pub rule_set : Option (MatchRuleSetConfig library)

module _ (args : Arguments) where
  -- Why two args.rows are duplicates: they are equal, or the fields of the rule set score high enough.
  pub data IsDuplicate (a b : ℕ) : Type 0 where
    same_row :
        {row : List Text}
        → nth a args.rows ≡ some row
        → nth b args.rows ≡ some row
        → IsDuplicate a b
    scored :
        {config : MatchRuleSetConfig args.library}
        {field_comparisons : List (Text × FieldComparison args.library)}
        {total_score : args.library.Float}
        → args.rule_set ≡ some config
        → compare_rows args.library args.arithmetic args.rows args.headers args.limits config a b
          ≡ some (field_comparisons, total_score)
        → args.arithmetic.ge total_score config.duplicate_threshold ≡ true
        → IsDuplicate a b

  abbrev pub Edge : Type 0
  Edge = ℕ × ℕ × args.library.Float

  pub record IsTracked (st : MatchState args.library) : Type 0 where
    pub clusters : Clusters (length args.rows) (pairs st.duplicate_edges) st.uf
    pub justified : All (λ e. IsDuplicate e.0 e.1) st.duplicate_edges
    pub inside : All (λ e. (e.0 < length args.rows) × (e.1 < length args.rows)) st.duplicate_edges
    pub edges : length st.duplicate_edges ≡ st.duplicate_pairs_count
    pub by_rule : total st.decisions_by_rule ≡ st.duplicate_pairs_count + st.ambiguous_pairs_count
    pub persisted :
        length st.decisions
        ≡ min args.limits.max_persisted_decisions
            (st.duplicate_pairs_count + st.ambiguous_pairs_count)
    pub compared : st.duplicate_pairs_count + st.ambiguous_pairs_count ≤ st.total_comparisons_count
    pub positions : All (λ p. p < length st.decisions) st.pending_duplicate_edge_positions
    pub decided : All (λ d. d.record_a_row_index < length args.rows) st.decisions

  pub IsTracked-start : IsTracked (start args.library (length args.rows))
  unfolding total
  IsTracked-start = record {
    clusters = Clusters-singletons (length args.rows);
    justified = tt;
    inside = tt;
    edges = refl;
    by_rule = refl;
    persisted = omega arith;
    compared = omega arith;
    positions = tt;
    decided = tt;
  }

  -- The state in front of `record_decision`: the union and the edge are made and the pair is counted.
  abbrev pub joined : UnionFind → List Edge → MatchState args.library → MatchState args.library
  joined uf edges st = record st {
    uf = uf;
    duplicate_edges = edges;
    total_comparisons_count = st.total_comparisons_count + 1;
  }

  abbrev pub extra : Label → ℕ
  extra duplicate = 1
  extra ambiguous = 0

  abbrev pub counted :
      Label → Decision args.library → MatchState args.library → MatchState args.library
  counted label d st =
      count_label args.library label
        (record st { decisions_by_rule = count_key d.rule_name st.decisions_by_rule })

  -- `record_decision` once the label is known.
  abbrev pub recorded :
      Label → Decision args.library → MatchState args.library → MatchState args.library
  recorded label d st =
      let st' = counted label d st in
      if ltb (length st.decisions) args.limits.max_persisted_decisions
      then record st' {
        decisions = st'.decisions ++ d ∷ [];
        pending_duplicate_edge_positions =
            pending_after args.library label (length st'.decisions)
              st'.pending_duplicate_edge_positions;
      }
      else st'

  pub recorded-eq :
      (label : Label) (d : Decision args.library) (st : MatchState args.library)
      → d.decision ≡ label
      → record_decision args.library args.limits d st ≡ recorded label d st
  unfolding record_decision
  recorded-eq label d st e = ap (λ l. recorded l d st) e

  later :
      (d : Decision args.library) (st : MatchState args.library)
      → IsTracked st
      → All (λ p. p < length (st.decisions ++ d ∷ [])) st.pending_duplicate_edge_positions
  later d st h =
      All-map_implies (λ p k. omega (arith, length-append st.decisions (d ∷ []), k))
        st.pending_duplicate_edge_positions h.positions

  pub record_decision-IsTracked :
      (label : Label) (uf : UnionFind) (edges : List Edge) (d : Decision args.library)
      (st : MatchState args.library)
      → IsTracked st
      → d.record_a_row_index < length args.rows
      → Clusters (length args.rows) (pairs edges) uf
      → All (λ e. IsDuplicate e.0 e.1) edges
      → All (λ e. (e.0 < length args.rows) × (e.1 < length args.rows)) edges
      → length edges ≡ length st.duplicate_edges + extra label
      → IsTracked (recorded label d (joined uf edges st))
  unfolding count_label pending_after
  record_decision-IsTracked duplicate uf edges d st h lt c js ins count =
      let more_rules = total-count_key d.rule_name st.decisions_by_rule in
      elim (Bool-cases (ltb (length st.decisions) args.limits.max_persisted_decisions)) [
        | inl e ↦ rw e (record {
          clusters = c;
          justified = js;
          inside = ins;
          edges = omega (arith, count, h.edges);
          by_rule = omega (arith, more_rules, h.by_rule);
          persisted = ground (arith, e, length-append st.decisions (d ∷ []), h.persisted);
          compared = omega (arith, h.compared);
          positions =
              All-append-one (λ p. p < length (st.decisions ++ d ∷ []))
                st.pending_duplicate_edge_positions (length st.decisions) (later d st h)
                (ground (arith, length-append st.decisions (d ∷ [])));
          decided =
              All-append-one (λ x. x.record_a_row_index < length args.rows) st.decisions d h.decided
                lt;
        })
        | inr e ↦ rw e (record {
          clusters = c;
          justified = js;
          inside = ins;
          edges = omega (arith, count, h.edges);
          by_rule = omega (arith, more_rules, h.by_rule);
          persisted = ground (arith, e, h.persisted);
          compared = omega (arith, h.compared);
          positions = h.positions;
          decided = h.decided;
        })
      ]
  record_decision-IsTracked ambiguous uf edges d st h lt c js ins count =
      let more_rules = total-count_key d.rule_name st.decisions_by_rule in
      elim (Bool-cases (ltb (length st.decisions) args.limits.max_persisted_decisions)) [
        | inl e ↦ rw e (record {
          clusters = c;
          justified = js;
          inside = ins;
          edges = omega (arith, count, h.edges);
          by_rule = omega (arith, more_rules, h.by_rule);
          persisted = ground (arith, e, length-append st.decisions (d ∷ []), h.persisted);
          compared = omega (arith, h.compared);
          positions = later d st h;
          decided =
              All-append-one (λ x. x.record_a_row_index < length args.rows) st.decisions d h.decided
                lt;
        })
        | inr e ↦ rw e (record {
          clusters = c;
          justified = js;
          inside = ins;
          edges = omega (arith, count, h.edges);
          by_rule = omega (arith, more_rules, h.by_rule);
          persisted = ground (arith, e, h.persisted);
          compared = omega (arith, h.compared);
          positions = h.positions;
          decided = h.decided;
        })
      ]
