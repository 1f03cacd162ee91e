-- ===== src/Retention/Artifacts.antt =====
-- backend/app/artifacts/storage.py and resolve_artifact_path of download.py, with `_evaluate_and_act` of
-- backend/app/worker/retention.py, on any file system.
use ai_data_operations_emplo.Prelude.{ℕ, Bool, true, false, Option, none, some, if◌then◌else◌}
use ai_data_operations_emplo.Prelude.Texts.{Text}
use ai_data_operations_emplo.Retention.Model.{
  RunType, EventOutcome, completed, already_missing, failed, Reason, unsafe_path, permission_denied,
  filesystem_error, OsError, file_not_found, permission_error, other_error, OsResult, ok, error,
  FileSystem,
}

unfoldable pub classify_os_error : OsError → Reason
classify_os_error permission_error = permission_denied
classify_os_error file_not_found = filesystem_error
classify_os_error other_error = filesystem_error

module _ (fs : FileSystem) where
  -- `none` is ArtifactPathError.
  unfoldable pub resolve_artifact_path : Text → Text → Option fs.Location
  resolve_artifact_path tenant_root output_file_path =
      let root = fs.resolve tenant_root in
      let resolved = fs.resolve output_file_path in
      if fs.is_relative_to resolved root then some resolved else none

  abbrev pub missing_is_no_error : OsResult Unit × fs.Disk → OsResult Bool × fs.Disk
  missing_is_no_error (ok _, disk) = (ok true, disk)
  missing_is_no_error (error file_not_found, disk) = (ok false, disk)
  missing_is_no_error (error permission_error, disk) = (error permission_error, disk)
  missing_is_no_error (error other_error, disk) = (error other_error, disk)

  -- LocalFilesystemArtifactStorage
  unfoldable pub exists : fs.Disk → fs.Location → OsResult Bool
  exists disk path = fs.is_file disk path

  unfoldable pub delete : fs.Disk → fs.Location → OsResult Bool × fs.Disk
  delete disk path = missing_is_no_error (fs.unlink disk path)

  abbrev size_or_none : OsResult ℕ → Option ℕ
  size_or_none (ok n) = some n
  size_or_none (error _) = none

  unfoldable pub best_effort_size : fs.Disk → fs.Location → Option ℕ
  best_effort_size disk path = size_or_none (fs.stat_size disk path)

  -- The tuple that `_evaluate_and_act` returns.
  pub record Verdict : Type 0 where
    pub outcome : EventOutcome
    pub reason_code : Option Reason
    pub size_bytes : Option ℕ
    pub set_deleted_at : Bool

  abbrev pub failure : Reason → Verdict
  failure reason = record {
    outcome = failed;
    reason_code = some reason;
    size_bytes = none;
    set_deleted_at = false;
  }

  unfoldable pub dry_verdict : Option ℕ → OsResult Bool → Verdict
  dry_verdict size (error e) = failure (classify_os_error e)
  dry_verdict size (ok false) = record {
    outcome = already_missing;
    reason_code = none;
    size_bytes = none;
    set_deleted_at = false;
  }
  dry_verdict size (ok true) = record {
    outcome = completed;
    reason_code = none;
    size_bytes = size;
    set_deleted_at = false;
  }

  unfoldable pub real_verdict : Option ℕ → OsResult Bool → Verdict
  real_verdict size (error e) = failure (classify_os_error e)
  real_verdict size (ok true) = record {
    outcome = completed;
    reason_code = none;
    size_bytes = size;
    set_deleted_at = true;
  }
  real_verdict size (ok false) = record {
    outcome = already_missing;
    reason_code = none;
    size_bytes = none;
    set_deleted_at = true;
  }

  abbrev pub real_pass : Option ℕ → OsResult Bool × fs.Disk → Verdict × fs.Disk
  real_pass size (deleted, disk) = (real_verdict size deleted, disk)

  unfoldable pub act_on : Bool → fs.Disk → Option fs.Location → Verdict × fs.Disk
  act_on dry_run disk none = (failure unsafe_path, disk)
  act_on true disk (some path) = (dry_verdict (best_effort_size disk path) (exists disk path), disk)
  act_on false disk (some path) = real_pass (best_effort_size disk path) (delete disk path)

  unfoldable pub evaluate_and_act : RunType → Bool → ℕ → Text → fs.Disk → Verdict × fs.Disk
  evaluate_and_act run_type dry_run organization_id output_file_path disk =
      act_on dry_run disk
        (resolve_artifact_path (fs.tenant_root run_type organization_id) output_file_path)
