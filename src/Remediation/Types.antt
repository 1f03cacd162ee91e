-- ===== src/Remediation/Types.antt =====
-- backend/app/remediation/types.py and base.py. Text is a list of code points, an identifier a
-- number.
use ai_data_operations_emplo.Prelude.{ℕ, Bool, Option, List}
use ai_data_operations_emplo.Prelude.Texts.{Text}
use ai_data_operations_emplo.Prelude.Counts.{Counts}

pub record RemediationDataset : Type 0 where
  pub headers : List Text
  pub rows : List (List Text)

pub record RemediationIssueInput : Type 0 where
  pub issue_id : ℕ
  pub row_number : ℕ
  pub column_name : Option Text
  pub issue_type : Text
  pub original_value : Option Text
  pub suggested_fix : Option Text

pub record RemediationColumnConfig : Type 0 where
  pub source_date_format : Option Text
  pub target_date_format : Option Text
  pub default_country : Option Text
  pub capitalization_target : Option Text
  pub allowed_values : Option (List Text)

pub record RemediationDatasetConfigInput : Type 0 where
  pub remove_duplicate_rows_enabled : Bool
  pub remove_duplicate_primary_keys_enabled : Bool

pub record RemediationLimits : Type 0 where
  pub max_persisted_changes : ℕ

-- The checks of `__post_init__` leave two forms: a change with its reason, or a skip with its own.
pub data RuleOutcome : Type 0 where
  changed : (proposed_value : Option Text) (reason : Text) → RuleOutcome
  unchanged : (skip_reason : Text) → RuleOutcome

pub record RemediationChangeProposal : Type 0 where
  pub source_issue_id : ℕ
  pub row_number : ℕ
  pub column_name : Option Text
  pub action : Text
  pub original_value : Option Text
  pub proposed_value : Option Text
  pub reason : Text

pub record SkippedIssue : Type 0 where
  pub source_issue_id : ℕ
  pub row_number : ℕ
  pub column_name : Option Text
  pub issue_type : Text
  pub reason : Text

pub record RemediationResult : Type 0 where
  pub changes : List RemediationChangeProposal
  pub skipped : List SkippedIssue
  pub issues_considered_count : ℕ
  pub total_changes_count : ℕ
  pub issues_skipped_count : ℕ
  pub changes_by_action : Counts

-- The interface of backend/app/remediation/base.py that every action implements.
pub record RemediationRule : Type 0 where
  pub action : Text
  pub propose :
      RemediationIssueInput
      → Option RemediationColumnConfig
      → RemediationDatasetConfigInput
      → RuleOutcome
