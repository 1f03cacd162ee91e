-- ===== src/Retention/Tests.antt =====
-- The theorems on backend/app/worker/retention.py for an approved, a rolled-back and a pending run, where
-- the disk is the list of the files that exist and no operation of it fails.
use ai_data_operations_emplo.Prelude.{
  refl, inr, true, false, not, none, some, List, [], ◌∷◌, any, select, if◌then◌else◌,
}
use ai_data_operations_emplo.Prelude.Texts.{Text, text_eq, codes}
use ai_data_operations_emplo.Retention.DryRun.{SameStore, purge_expired_artifacts_dry}
use ai_data_operations_emplo.Retention.Marks.{cutoff_of, purge_expired_artifacts-AllMarked}
use ai_data_operations_emplo.Retention.Model.{
  RunType, cleaning, standardization, exported, pending_review, approved, rolled_back, ArtifactRun,
  file_not_found, ok, error, FileSystem, RetentionSettings,
}
use ai_data_operations_emplo.Retention.Pass.{Surroundings}
use ai_data_operations_emplo.Retention.Purge.{Store, purge_expired_artifacts}
use ai_data_operations_emplo.Retention.Reports.{IsReported, purge_expired_artifacts-IsReported}
use ai_data_operations_emplo.Retention.Safety.{AllMarked}

abbrev files : FileSystem
files = record {
  Location = Text;
  Disk = List Text;
  tenant_root = λ t o. codes "out";
  resolve = λ path. path;
  is_relative_to = λ path root. true;
  is_file = λ disk path. ok (any (text_eq path) disk);
  unlink = λ disk path.
      if any (text_eq path) disk
      then (ok tt, select (λ f. not (text_eq path f)) disk)
      else (error file_not_found, disk);
  stat_size = λ disk path. if any (text_eq path) disk then ok 10 else error file_not_found;
}

abbrev decided : ArtifactRun
decided = record {
  id = 1;
  organization_id = 9;
  status = approved;
  approved_at = some 1000;
  rejected_at = none;
  rolled_back_at = none;
  output_file_path = codes "out/1.csv";
  output_deleted_at = none;
}

abbrev undone : ArtifactRun
undone = record decided {
  id = 2;
  status = rolled_back;
  rolled_back_at = some 2000;
  output_file_path = codes "out/2.csv";
}

abbrev waiting : ArtifactRun
waiting = record decided { id = 3; status = pending_review; approved_at = none }

abbrev store : Store files
store = record {
  tables = λ t. elim t [
    | cleaning ↦ decided ∷ waiting ∷ []
    | standardization ↦ []
    | exported ↦ undone ∷ []
  ];
  events = [];
  disk = codes "out/1.csv" ∷ codes "out/3.csv" ∷ [];
  metrics = record {
    retention_passes_total = 0;
    artifacts_eligible_total = 0;
    artifacts_purged_total = 0;
    artifacts_already_missing_total = 0;
    purge_failures_total = 0;
    dry_run_artifacts_total = 0;
    bytes_reclaimed_total = 0;
    backlog_artifacts = 0;
    oldest_eligible_artifact_age = 0;
  };
}

abbrev around : RunType → Surroundings
around t = record {
  locked = λ k i. false;
  others = λ k rows. rows;
  clock = λ k. 600_000_000_000;
  raises = λ k. false;
}

abbrev settings : RetentionSettings
settings = record {
  output_retention_enabled = true;
  output_retention_dry_run = true;
  output_retention_window_days = 1;
  retention_claim_batch_size = 5;
}

purge_expired_artifacts_dry_example :
    SameStore files
      (purge_expired_artifacts files settings around 600_000_000_000 600_000_000_001 none none
        store).1
      store
purge_expired_artifacts_dry_example =
    purge_expired_artifacts_dry files settings around 600_000_000_000 600_000_000_001 none none
      store (inr refl)

purge_expired_artifacts-IsReported_example :
    let ended =
      purge_expired_artifacts files settings around 600_000_000_000 600_000_000_001
        (some 2)
        (some false)
        store in
    IsReported files [] ended.1.events 2 ended.0
purge_expired_artifacts-IsReported_example =
    purge_expired_artifacts-IsReported files settings around 600_000_000_000 600_000_000_001
      (some 2) (some false) store

purge_expired_artifacts-AllMarked_example :
    AllMarked (cutoff_of settings 600_000_000_000) (decided ∷ waiting ∷ []) (
      (purge_expired_artifacts files settings around 600_000_000_000 600_000_000_001 none
          (some false)
          store).1.tables
        cleaning)
purge_expired_artifacts-AllMarked_example =
    purge_expired_artifacts-AllMarked files around (λ t k rows. refl) settings 600_000_000_000
      600_000_000_001 none (some false) store cleaning
