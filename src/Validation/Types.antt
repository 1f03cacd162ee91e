-- ===== src/Validation/Types.antt =====
-- backend/app/validation/types.py and base.py.
use ai_data_operations_emplo.Prelude.{ℕ, Option, List}
use ai_data_operations_emplo.Prelude.Texts.{Text}
use ai_data_operations_emplo.Prelude.Counts.{Counts}

pub record ValidationChangeInput : Type 0 where
  pub change_id : ℕ
  pub source_issue_id : ℕ
  pub row_number : ℕ
  pub column_name : Option Text
  pub action : Text
  pub original_value : Option Text
  pub proposed_value : Option Text

pub record ValidationColumnConfig : Type 0 where
  pub source_date_format : Option Text
  pub target_date_format : Option Text
  pub default_country : Option Text
  pub capitalization_target : Option Text
  pub allowed_values : Option (List Text)

-- VALIDATION_OUTCOMES, to which `__post_init__` holds every outcome.
pub data ValidationOutcome : Type 0 where
  passed failed skipped : ValidationOutcome

pub record ValidationRuleOutcome : Type 0 where
  pub outcome : ValidationOutcome
  pub reason : Text

pub record ValidationResultItem : Type 0 where
  pub change_id : ℕ
  pub source_issue_id : ℕ
  pub row_number : ℕ
  pub column_name : Option Text
  pub validation_rule : Text
  pub outcome : ValidationOutcome
  pub reason : Text
  pub original_value : Option Text
  pub proposed_value : Option Text
  pub validation_rule_version : Text

pub record ValidationLimits : Type 0 where
  pub max_persisted_results : ℕ

pub record ValidationRunResult : Type 0 where
  pub results : List ValidationResultItem
  pub approved_changes_considered : ℕ
  pub passed_count : ℕ
  pub failed_count : ℕ
  pub skipped_count : ℕ
  pub results_by_rule : Counts

-- The interface of backend/app/validation/base.py that every rule implements.
pub record ValidationRule : Type 0 where
  pub rule_name : Text
  pub rule_version : Text
  pub validate : ValidationChangeInput → Option ValidationColumnConfig → ValidationRuleOutcome
