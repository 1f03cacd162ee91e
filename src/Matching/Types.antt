-- ===== src/Matching/Types.antt =====
-- backend/app/matching/types.py, over any floats. The keys of a field comparison are the fields of a
-- record, and the two labels of a decision are constructors.
use ai_data_operations_emplo.Prelude.{ℕ, Bool, Option, List}
use ai_data_operations_emplo.Prelude.Counts.{Counts}
use ai_data_operations_emplo.Prelude.Texts.{Text}
use ai_data_operations_emplo.Matching.Blocking.{Library, MatchRuleFieldSpec}

pub record MatchLimits : Type 0 where
  pub max_block_size : ℕ
  pub max_persisted_decisions : ℕ
  pub max_skipped_row_sample : ℕ

pub data Label : Type 0 where
  duplicate : Label
  ambiguous : Label

pub record SkippedBlock : Type 0 where
  pub blocking_key : Text
  pub block_size : ℕ
  pub sample_row_indices : List ℕ

-- The other operations on floats that the engine uses; `show` is the format `.4f`.
pub record Arithmetic (Float : Type 0) : Type 0 where
  pub zero : Float
  pub one : Float
  pub add : Float → Float → Float
  pub divide : Float → Float → Float
  pub ge : Float → Float → Bool
  pub show : Float → Text

module _ (library : Library) where
  pub record MatchRuleSetConfig : Type 0 where
    pub duplicate_threshold : library.Float
    pub review_threshold : library.Float
    pub fields : List (MatchRuleFieldSpec library)

  pub record FieldComparison : Type 0 where
    pub value_a : Text
    pub value_b : Text
    pub matched : Bool
    pub weight : library.Float
    pub contribution : library.Float

  pub record Decision : Type 0 where
    pub record_a_row_index : ℕ
    pub record_b_row_index : ℕ
    pub blocking_key : Option Text
    pub rule_name : Text
    pub field_comparisons : List (Text × FieldComparison)
    pub total_score : library.Float
    pub threshold_used : library.Float
    pub decision : Label
    pub confidence_score : library.Float
    pub reason : Text
    pub rule_version : Text
    pub group_index : Option ℕ

  pub record Group : Type 0 where
    pub canonical_row_index : ℕ
    pub member_row_indices : List ℕ
    pub confidence_score : library.Float

  pub record MatchResult : Type 0 where
    pub groups : List Group
    pub decisions : List Decision
    pub skipped_blocks : List SkippedBlock
    pub row_count : ℕ
    pub total_comparisons_count : ℕ
    pub duplicate_group_count : ℕ
    pub duplicate_pairs_count : ℕ
    pub ambiguous_pairs_count : ℕ
    pub skipped_block_count : ℕ
    pub decisions_by_rule : Counts
    pub confidence_score : library.Float
