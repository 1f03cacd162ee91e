-- ===== src/Matching/Engine.antt =====
-- `match` of backend/app/matching/engine.py: `none` is an exception, of a row that is too short.
use ai_data_operations_emplo.Prelude.{ℕ, Option, none, some, List, [], ◌∷◌, map, length, ◌>>=◌}
use ai_data_operations_emplo.Prelude.Texts.{Text}
use ai_data_operations_emplo.Matching.Blocking.{Library}
use ai_data_operations_emplo.Matching.Clustering.{components}
use ai_data_operations_emplo.Matching.Composite.{composite_stage}
use ai_data_operations_emplo.Matching.Decisions.{MatchState, start}
use ai_data_operations_emplo.Matching.Exact.{Representatives, exact_stage}
use ai_data_operations_emplo.Matching.Groups.{
  sorted_components, group_loop, confidence_loop, rate_groups, wire_groups, minimum,
}
use ai_data_operations_emplo.Matching.Types.{
  MatchLimits, MatchRuleSetConfig, Arithmetic, Decision, Group, MatchResult,
}

module _ (library : Library) (arithmetic : Arithmetic library.Float) where
  -- `if rule_set is not None and rule_set.fields`
  unfoldable pub configured_stage :
      List (List Text)
      → List Text
      → MatchLimits
      → Option (MatchRuleSetConfig library)
      → Representatives
      → MatchState library
      → Option (MatchState library)
  configured_stage rows headers limits none reps st = some st
  configured_stage rows headers limits (some rule_set) reps st = elim rule_set.fields [
    | [] ↦ some st
    | _ ∷ _ ↦ composite_stage library arithmetic rows headers limits rule_set reps st
  ]

  abbrev pub match_result :
      ℕ → List (Group library) → List (Decision library) → MatchState library → MatchResult library
  match_result n groups decisions st = record {
    groups = groups;
    decisions = decisions;
    skipped_blocks = st.skipped_blocks;
    row_count = n;
    total_comparisons_count = st.total_comparisons_count;
    duplicate_group_count = length groups;
    duplicate_pairs_count = st.duplicate_pairs_count;
    ambiguous_pairs_count = st.ambiguous_pairs_count;
    skipped_block_count = length st.skipped_blocks;
    decisions_by_rule = st.decisions_by_rule;
    confidence_score = minimum library arithmetic (map (λ g. g.confidence_score) groups);
  }

  unfoldable pub cluster_stage : ℕ → MatchState library → Option (MatchResult library)
  cluster_stage n st = do
    (members_by_root, uf) ← components st.uf
    entries ← sorted_components members_by_root
    (groups, root_to_group_index) ← group_loop library arithmetic entries ([], λ _. none)
    (confidences, uf1) ← confidence_loop library arithmetic st.duplicate_edges uf (λ _. [])
    (rated, uf2) ← rate_groups library arithmetic confidences groups uf1
    decisions ←
        wire_groups library arithmetic root_to_group_index st.pending_duplicate_edge_positions
          st.decisions uf2
    some (match_result n rated decisions st)

  unfoldable pub match :
      List (List Text)
      → List Text
      → Option (MatchRuleSetConfig library)
      → MatchLimits
      → Option (MatchResult library)
  match rows headers rule_set limits = do
    (reps, st1) ← exact_stage library arithmetic rows headers limits (start library (length rows))
    st2 ← configured_stage rows headers limits rule_set reps st1
    cluster_stage (length rows) st2
