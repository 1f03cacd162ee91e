-- ===== src/Quality/Types.antt =====
-- backend/app/quality/types.py and base.py. Identifiers are numbers, texts are lists of code points.
use ai_data_operations_emplo.Prelude.{ℕ, Bool, Option, List}
use ai_data_operations_emplo.Prelude.Texts.{Text}

-- Python's float, of which nothing is assumed: the operations and the constants that the engine uses.
pub record Floats : Type 1 where
  pub Float : Type 0
  pub zero_point_zero : Float
  pub sixty : Float
  pub eighty_five : Float
  pub float : ℕ → Float
  pub add : Float → Float → Float
  pub multiply : Float → Float → Float
  pub divide : Float → Float → Float
  -- `a / b` of two ints
  pub ratio : ℕ → ℕ → Float
  pub lt : Float → Float → Bool
  pub gt : Float → Float → Bool
  pub ge : Float → Float → Bool

-- A weight override is an int of either sign.
pub data ℤ : Type 0 where
  pos : ℕ → ℤ
  negsuc : ℕ → ℤ

pub record ValidationResultSnapshot : Type 0 where
  pub id : ℕ
  pub outcome : Text
  pub rule_name : Text
  pub column_name : Option Text
  pub source_issue_id : Option ℕ
  pub remediation_change_id : Option ℕ

pub record ValidationRunSnapshot : Type 0 where
  pub id : ℕ
  pub approved_changes_considered : ℕ
  pub passed_count : ℕ
  pub failed_count : ℕ
  pub skipped_count : ℕ
  pub results_by_rule : List (Text × ℕ)

pub record IssueSnapshot : Type 0 where
  pub id : ℕ
  pub severity : Text
  pub issue_type : Text

pub record IssueDetectionRunSnapshot : Type 0 where
  pub id : ℕ
  pub total_issues_found : ℕ

pub record DataProfileSnapshot : Type 0 where
  pub id : ℕ
  pub row_count : ℕ
  pub column_count : ℕ
  pub duplicate_row_count : ℕ
  pub missing_value_total : ℕ
  pub source_sha256 : Text

pub record EffectiveDatasetStats : Type 0 where
  pub effective_row_count : ℕ
  pub effective_duplicate_row_count : ℕ
  pub effective_missing_value_total : ℕ
  pub unresolved_high_count : ℕ
  pub unresolved_critical_count : ℕ
  pub addressed_issue_count : ℕ

pub record QualityLimits : Type 0 where
  pub max_persisted_findings : ℕ

pub record QualityFindingResult : Type 0 where
  pub category : Text
  pub rule_name : Text
  pub rule_version : Text
  pub severity : Text
  pub outcome : Text
  pub reason : Text
  pub affected_row_count : Option ℕ
  pub affected_column : Option Text
  pub source_issue_id : Option ℕ
  pub remediation_change_id : Option ℕ
  pub validation_result_id : Option ℕ

-- The statuses and the recommendations are strings in the source, one for each constructor.
pub data CategoryStatus : Type 0 where
  passed warning failed skipped : CategoryStatus

pub data Recommendation : Type 0 where
  pass pass_with_warnings fail : Recommendation

module _ (floats : Floats) where
  pub record QualityThresholdConfig : Type 0 where
    pub fail_score_threshold : floats.Float
    pub pass_score_threshold : floats.Float
    pub max_validation_failure_rate : floats.Float
    pub max_validation_skip_rate : floats.Float
    pub max_high_severity_unresolved : ℕ
    pub max_critical_severity_unresolved : ℕ
    pub max_warnings_for_clean_pass : ℕ
    pub category_weights : Option (List (Text × ℤ))
    pub threshold_config_id : Option ℕ
    pub threshold_config_source : Text

  pub record QualityEngineInput : Type 0 where
    pub organization_id : ℕ
    pub data_source_id : ℕ
    pub validation_run : ValidationRunSnapshot
    pub validation_results : List ValidationResultSnapshot
    pub issue_detection_run : IssueDetectionRunSnapshot
    pub data_profile : DataProfileSnapshot
    pub effective_stats : EffectiveDatasetStats
    pub issues : List IssueSnapshot
    pub thresholds : QualityThresholdConfig
    pub limits : QualityLimits

  pub record CategoryEvaluationResult : Type 0 where
    pub score : floats.Float
    pub findings : List QualityFindingResult

  pub record QualityEngineResult : Type 0 where
    pub overall_score : Option floats.Float
    pub recommendation : Recommendation
    pub findings : List QualityFindingResult
    pub total_findings : ℕ
    pub blocking_count : ℕ
    pub warning_count : ℕ
    pub info_count : ℕ
    pub category_scores : List (Text × floats.Float)
    pub category_statuses : List (Text × CategoryStatus)
    pub category_weights_used : List (Text × floats.Float)

  -- The interface of base.py that every category implements.
  pub record QualityCategory : Type 0 where
    pub category_name : Text
    pub default_weight : ℕ
    pub category_rule_version : Text
    pub is_applicable : QualityEngineInput → Bool
    pub evaluate : QualityEngineInput → CategoryEvaluationResult
