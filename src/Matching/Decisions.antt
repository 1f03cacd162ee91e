-- ===== src/Matching/Decisions.antt =====
-- The variables of `match` (backend/app/matching/engine.py) that its stages change, and
-- `record_decision`.
use ai_data_operations_emplo.Prelude.{ℕ, ◌+◌, List, [], ◌∷◌, ◌++◌, length, ltb, if◌then◌else◌}
use ai_data_operations_emplo.Prelude.Counts.{Counts, count_key}
use ai_data_operations_emplo.Matching.Blocking.{Library}
use ai_data_operations_emplo.Matching.Clustering.{UnionFind, singletons}
use ai_data_operations_emplo.Matching.Types.{
  MatchLimits, Label, duplicate, ambiguous, Decision, SkippedBlock,
}

module _ (library : Library) where
  pub record MatchState : Type 0 where
    pub uf : UnionFind
    pub decisions : List (Decision library)
    pub decisions_by_rule : Counts
    pub duplicate_pairs_count : ℕ
    pub ambiguous_pairs_count : ℕ
    pub total_comparisons_count : ℕ
    pub skipped_blocks : List SkippedBlock
    pub duplicate_edges : List (ℕ × ℕ × library.Float)
    pub pending_duplicate_edge_positions : List ℕ

  abbrev pub start : ℕ → MatchState
  start n = record {
    uf = singletons n;
    decisions = [];
    decisions_by_rule = [];
    duplicate_pairs_count = 0;
    ambiguous_pairs_count = 0;
    total_comparisons_count = 0;
    skipped_blocks = [];
    duplicate_edges = [];
    pending_duplicate_edge_positions = [];
  }

  unfoldable pub count_label : Label → MatchState → MatchState
  count_label duplicate st = record st { duplicate_pairs_count = st.duplicate_pairs_count + 1 }
  count_label ambiguous st = record st { ambiguous_pairs_count = st.ambiguous_pairs_count + 1 }

  unfoldable pub pending_after : Label → ℕ → List ℕ → List ℕ
  pending_after duplicate position positions = positions ++ position ∷ []
  pending_after ambiguous position positions = positions

  -- The part of `record_decision` below `max_persisted_decisions`.
  abbrev pub persist : Decision library → MatchState → MatchState
  persist d st = record st {
    decisions = st.decisions ++ d ∷ [];
    pending_duplicate_edge_positions =
        pending_after d.decision (length st.decisions) st.pending_duplicate_edge_positions;
  }

  -- The arguments are the fields of the decision, whose `group_index` is not set yet.
  unfoldable pub record_decision : MatchLimits → Decision library → MatchState → MatchState
  record_decision limits d st =
      let counted =
        count_label d.decision
          (record st { decisions_by_rule = count_key d.rule_name st.decisions_by_rule }) in
      if ltb (length st.decisions) limits.max_persisted_decisions
      then persist d counted
      else counted
