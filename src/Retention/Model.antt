-- ===== src/Retention/Model.antt =====
-- The data of backend/app/worker/retention.py: the columns that it reads of the three run tables
-- (models/cleaning_run.py, standardization_run.py, export_run.py), its events and its result. The file
-- system is a parameter.
use ai_data_operations_emplo.Prelude.{ℕ, ◌+◌, Bool, Option}
use ai_data_operations_emplo.Prelude.Texts.{Text}

-- `_RUN_TYPE_CONFIGS`, by artifact type.
pub data RunType : Type 0 where
  cleaning standardization exported : RunType

-- The CHECK constraint on the column `status`.
pub data RunStatus : Type 0 where
  pending_review approved rejected rolled_back : RunStatus

pub record ArtifactRun : Type 0 where
  pub id : ℕ
  pub organization_id : ℕ
  pub status : RunStatus
  pub approved_at : Option ℕ
  pub rejected_at : Option ℕ
  pub rolled_back_at : Option ℕ
  pub output_file_path : Text
  pub output_deleted_at : Option ℕ

-- `outcome` and `failure_reason_code` of an ArtifactRetentionEvent.
pub data EventOutcome : Type 0 where
  completed already_missing failed : EventOutcome

pub data Reason : Type 0 where
  unsafe_path permission_denied filesystem_error : Reason

pub record RetentionEvent : Type 0 where
  pub organization_id : ℕ
  pub run_type : RunType
  pub run_id : ℕ
  pub outcome : EventOutcome
  pub failure_reason_code : Option Reason
  pub dry_run : Bool
  pub retention_window_days_applied : ℕ
  pub artifact_size_bytes : Option ℕ
  pub completed_at : ℕ

-- An operation of the file system: its value, or the OSError that it raises.
pub data OsError : Type 0 where
  file_not_found permission_error other_error : OsError

pub data OsResult (A : Type 0) : Type 0 where
  ok : A → OsResult A
  error : OsError → OsResult A

-- pathlib on a disk, and the roots of the settings with the organization appended.
pub record FileSystem : Type 1 where
  pub Location : Type 0
  pub Disk : Type 0
  pub tenant_root : RunType → ℕ → Text
  pub resolve : Text → Location
  pub is_relative_to : Location → Location → Bool
  pub is_file : Disk → Location → OsResult Bool
  pub unlink : Disk → Location → OsResult Unit × Disk
  pub stat_size : Disk → Location → OsResult ℕ

pub record RetentionSettings : Type 0 where
  pub output_retention_enabled : Bool
  pub output_retention_dry_run : Bool
  pub output_retention_window_days : ℕ
  pub retention_claim_batch_size : ℕ

pub record RetentionPassResult : Type 0 where
  pub purged_count : ℕ
  pub already_missing_count : ℕ
  pub failed_count : ℕ
  pub dry_run_would_purge_count : ℕ
  pub bytes_reclaimed : ℕ
  pub dry_run : Bool

unfoldable pub candidates_considered : RetentionPassResult → ℕ
candidates_considered r =
    r.purged_count + r.already_missing_count + r.failed_count + r.dry_run_would_purge_count
