-- ===== src/Matching/Recorded.antt =====
-- The steps of `match` (backend/app/matching/engine.py) that record a pair, and the invariant.
use mathlib.Core.List.{map-append, Memᴰ}
use mathlib.Core.List.Memᴰ
use ai_data_operations_emplo.Prelude.{
  ℕ, ◌<◌, ◌≡◌, refl, sym, ap, ◌∙◌, inl, inr, some, List, [], ◌∷◌, ◌++◌, arith, All-append-one,
  length, length-append, ltb, Bool-cases, subst,
}
use ai_data_operations_emplo.Matching.Clustering.{UnionFind, union}
use ai_data_operations_emplo.Matching.Clustering.Partition.{
  Clusters, Connected, edge, Connected-append, union-Clusters,
}
use ai_data_operations_emplo.Matching.Decisions.{MatchState, count_label, record_decision}
use ai_data_operations_emplo.Matching.Types.{Decision, Label, duplicate, ambiguous}
use ai_data_operations_emplo.Matching.Tracked.{
  pairs, Arguments, IsDuplicate, IsTracked, Edge, joined, recorded, recorded-eq,
  record_decision-IsTracked,
}

module _ (args : Arguments) where
  edges-recorded :
      (label : Label) (d : Decision args.library) (st : MatchState args.library)
      → (recorded args label d st).duplicate_edges ≡ st.duplicate_edges
  unfolding count_label
  edges-recorded duplicate d st =
      elim (Bool-cases (ltb (length st.decisions) args.limits.max_persisted_decisions)) [
        | inl e ↦ rw e refl
        | inr e ↦ rw e refl
      ]
  edges-recorded ambiguous d st =
      elim (Bool-cases (ltb (length st.decisions) args.limits.max_persisted_decisions)) [
        | inl e ↦ rw e refl
        | inr e ↦ rw e refl
      ]

  abbrev pub Linked : MatchState args.library → ℕ → ℕ → Type 0
  Linked st x y = Connected (pairs st.duplicate_edges) x y

  -- What was connected stays so.
  abbrev pub Keeps : MatchState args.library → MatchState args.library → Type 0
  Keeps st st' = (x y : ℕ) → Linked st x y → Linked st' x y

  -- A duplicate: the union is made, and the recorded state is tracked.
  pub record_duplicate :
      (a b : ℕ) (confidence : args.library.Float) (d : Decision args.library)
      (st : MatchState args.library)
      → IsTracked args st
      → d.decision ≡ duplicate
      → d.record_a_row_index ≡ a
      → a < length args.rows
      → b < length args.rows
      → IsDuplicate args a b
      → (uf : UnionFind) × (union st.uf a b ≡ some uf)
        × IsTracked args (
            record_decision args.library args.limits d
              (joined args uf (st.duplicate_edges ++ (a, b, confidence) ∷ []) st))
        × Keeps st (
            record_decision args.library args.limits d
              (joined args uf (st.duplicate_edges ++ (a, b, confidence) ∷ []) st))
        × Linked
            (record_decision args.library args.limits d
              (joined args uf (st.duplicate_edges ++ (a, b, confidence) ∷ []) st))
            a
            b
  record_duplicate a b confidence d st h is_duplicate is_a la lb why =
      let (uf, made, c) =
        union-Clusters (length args.rows) (pairs st.duplicate_edges) st.uf a b h.clusters la lb in
      let edges : List (Edge args) = st.duplicate_edges ++ (a, b, confidence) ∷ [] in
      let added : pairs edges ≡ pairs st.duplicate_edges ++ (a, b) ∷ [] =
        map-append (λ e. (e.0, e.1)) st.duplicate_edges ((a, b, confidence) ∷ []) in
      let shape = recorded-eq args duplicate d (joined args uf edges st) is_duplicate in
      let same : (record_decision args.library args.limits d
            (joined args uf edges st)).duplicate_edges
          ≡ edges =
        ap (λ s. s.duplicate_edges) shape ∙ edges-recorded duplicate d (joined args uf edges st) in
      let all : pairs
            (record_decision args.library args.limits d (joined args uf edges st)).duplicate_edges
          ≡ pairs st.duplicate_edges ++ (a, b) ∷ [] =
        ap (λ l. pairs l) same ∙ added in
      (
        uf,
        made,
        subst (IsTracked args) (sym shape) (
            record_decision-IsTracked args duplicate uf edges d st h
              (subst (λ i. i < length args.rows) (sym is_a) la)
              (subst (λ l. Clusters (length args.rows) l uf) (sym added) c)
              (All-append-one (λ e. IsDuplicate args e.0 e.1) st.duplicate_edges (a, b, confidence)
                h.justified why)
              (All-append-one (λ e. (e.0 < length args.rows) × (e.1 < length args.rows))
                st.duplicate_edges (a, b, confidence) h.inside (la, lb))
              (length-append st.duplicate_edges ((a, b, confidence) ∷ []))),
        λ x y k. subst (λ l. Connected l x y) (sym all) (Connected-append ((a, b) ∷ []) k),
        subst (λ l. Connected l a b) (sym all)
            (edge (Memᴰ.append_right (pairs st.duplicate_edges) (Memᴰ.head refl))),
      )

  pub record_ambiguous :
      (d : Decision args.library) (st : MatchState args.library)
      → IsTracked args st
      → d.decision ≡ ambiguous
      → d.record_a_row_index < length args.rows
      → IsTracked args
          (record_decision args.library args.limits d (joined args st.uf st.duplicate_edges st))
        × Keeps st
            (record_decision args.library args.limits d (joined args st.uf st.duplicate_edges st))
  record_ambiguous d st h is_ambiguous la =
      let shape =
        recorded-eq args ambiguous d (joined args st.uf st.duplicate_edges st) is_ambiguous in
      let same =
        ap (λ s. s.duplicate_edges) shape
        ∙ edges-recorded ambiguous d (joined args st.uf st.duplicate_edges st) in
      (
        subst (IsTracked args) (sym shape) (
            record_decision-IsTracked args ambiguous st.uf st.duplicate_edges d st h la h.clusters
              h.justified h.inside (omega arith)),
        λ x y k. subst (λ l. Connected (pairs l) x y) (sym same) k,
      )

  -- A pair that is only counted.
  pub pass_over :
      (st : MatchState args.library)
      → IsTracked args st
      → IsTracked args (joined args st.uf st.duplicate_edges st)
  pass_over st h = record {
    clusters = h.clusters;
    justified = h.justified;
    inside = h.inside;
    edges = h.edges;
    by_rule = h.by_rule;
    persisted = h.persisted;
    compared = omega (arith, h.compared);
    positions = h.positions;
    decided = h.decided;
  }
