-- ===== src/Retention/Purge.antt =====
-- `purge_expired_artifacts` and `_compute_backlog_snapshot` of backend/app/worker/retention.py, with the
-- retention metrics of backend/app/worker/metrics.py but the duration.
use ai_data_operations_emplo.Prelude.{
  ℕ, ◌+◌, ◌-◌, ◌*◌, Bool, true, false, Option, none, some, List, [], ◌∷◌, tally, ltb, ◌==◌,
  if◌then◌else◌,
}
use ai_data_operations_emplo.Retention.Model.{
  RunType, cleaning, standardization, exported, ArtifactRun, RetentionEvent, FileSystem,
  RetentionSettings, RetentionPassResult, candidates_considered,
}
use ai_data_operations_emplo.Retention.Pass.{
  Surroundings, Progress, expired, decision_timestamp, process_loop,
}

pub record RetentionMetrics : Type 0 where
  pub retention_passes_total : ℕ
  pub artifacts_eligible_total : ℕ
  pub artifacts_purged_total : ℕ
  pub artifacts_already_missing_total : ℕ
  pub purge_failures_total : ℕ
  pub dry_run_artifacts_total : ℕ
  pub bytes_reclaimed_total : ℕ
  pub backlog_artifacts : ℕ
  pub oldest_eligible_artifact_age : ℕ

abbrev pub same_type : RunType → RunType → Bool
same_type cleaning cleaning = true
same_type standardization standardization = true
same_type exported exported = true
same_type _ _ = false

unfoldable pub run_types : List RunType
run_types = cleaning ∷ standardization ∷ exported ∷ []

-- The smaller of two decision timestamps, `None` for a table with no row.
abbrev pub earlier : Option ℕ → Option ℕ → Option ℕ
earlier none t = t
earlier (some s) none = some s
earlier (some s) (some t) = if ltb t s then some t else some s

-- `MIN(decision_ts)` of the expired rows.
unfoldable pub oldest_in : ℕ → List ArtifactRun → Option ℕ
oldest_in cutoff [] = none
oldest_in cutoff (r ∷ rows) =
    if expired cutoff r
    then earlier (decision_timestamp r) (oldest_in cutoff rows)
    else oldest_in cutoff rows

unfoldable pub backlog_loop :
    ℕ → (RunType → List ArtifactRun) → List RunType → ℕ × Option ℕ → ℕ × Option ℕ
backlog_loop cutoff tables [] (total, oldest) = (total, oldest)
backlog_loop cutoff tables (t ∷ types) (total, oldest) =
    backlog_loop cutoff tables types
      (total + tally (expired cutoff) (tables t), earlier oldest (oldest_in cutoff (tables t)))

-- `max((now - oldest).total_seconds(), 0.0)`, in microseconds.
abbrev age : ℕ → Option ℕ → ℕ
age now none = 0
age now (some t) = now - t

abbrev pub aged : ℕ → ℕ × Option ℕ → ℕ × ℕ
aged now (total, oldest) = (total, age now oldest)

unfoldable pub compute_backlog_snapshot : ℕ → ℕ → (RunType → List ArtifactRun) → ℕ × ℕ
compute_backlog_snapshot now cutoff tables =
    aged now (backlog_loop cutoff tables run_types (0, none))

module _ (fs : FileSystem) where
  pub record Store : Type 0 where
    pub tables : RunType → List ArtifactRun
    pub events : List RetentionEvent
    pub disk : fs.Disk
    pub metrics : RetentionMetrics

  -- The totals of the pass, and the budget that is left.
  pub record Totals : Type 0 where
    pub store : Store
    pub purged : ℕ
    pub already_missing : ℕ
    pub failed : ℕ
    pub would_purge : ℕ
    pub bytes_reclaimed : ℕ
    pub remaining_budget : ℕ

  abbrev pub open_table : RunType → Store → Progress fs
  open_table t store = record {
    rows = store.tables t;
    events = store.events;
    disk = store.disk;
    purged = 0;
    already_missing = 0;
    failed = 0;
    would_purge = 0;
    bytes_reclaimed = 0;
    attempted = 0;
    excluded_ids = [];
  }

  abbrev pub close_table : RunType → Progress fs → Totals → Totals
  close_table t p totals = record {
    store = record totals.store {
      tables = λ u. if same_type u t then p.rows else totals.store.tables u;
      events = p.events;
      disk = p.disk;
    };
    purged = totals.purged + p.purged;
    already_missing = totals.already_missing + p.already_missing;
    failed = totals.failed + p.failed;
    would_purge = totals.would_purge + p.would_purge;
    bytes_reclaimed = totals.bytes_reclaimed + p.bytes_reclaimed;
    remaining_budget = totals.remaining_budget - p.attempted;
  }

  module _ (around : RunType → Surroundings) (dry_run : Bool) (cutoff window_days : ℕ) where
    unfoldable pub process_one_run_type : RunType → ℕ → Store → Progress fs
    process_one_run_type t budget store =
        process_loop fs t (around t) dry_run cutoff window_days budget (open_table t store)

    -- The loop over `_RUN_TYPE_CONFIGS`, which ends when the budget is spent.
    unfoldable pub type_loop : List RunType → Totals → Totals
    type_loop [] totals = totals
    type_loop (t ∷ types) totals =
        let rest =
          type_loop types
            (close_table t (process_one_run_type t totals.remaining_budget totals.store) totals) in
        if totals.remaining_budget == 0 then totals else rest

  abbrev pub result_of : Bool → Totals → RetentionPassResult
  result_of dry_run totals = record {
    purged_count = totals.purged;
    already_missing_count = totals.already_missing;
    failed_count = totals.failed;
    dry_run_would_purge_count = totals.would_purge;
    bytes_reclaimed = totals.bytes_reclaimed;
    dry_run = dry_run;
  }

  abbrev pub start_totals : ℕ → Store → Totals
  start_totals batch_size store = record {
    store = store;
    purged = 0;
    already_missing = 0;
    failed = 0;
    would_purge = 0;
    bytes_reclaimed = 0;
    remaining_budget = batch_size;
  }

  abbrev pub count_pass : Store → Store
  count_pass store = record store {
    metrics = record store.metrics {
      retention_passes_total = store.metrics.retention_passes_total + 1;
    };
  }

  -- The metrics of the pass, once its totals are known.
  unfoldable pub report_pass : ℕ → ℕ → RetentionPassResult → Store → Store
  report_pass now cutoff r store =
      let (backlog, oldest) = compute_backlog_snapshot now cutoff store.tables in
      let m = store.metrics in
      record store {
        metrics = record {
          retention_passes_total = m.retention_passes_total;
          artifacts_eligible_total = m.artifacts_eligible_total + candidates_considered r;
          artifacts_purged_total = m.artifacts_purged_total + r.purged_count;
          artifacts_already_missing_total =
              m.artifacts_already_missing_total + r.already_missing_count;
          purge_failures_total = m.purge_failures_total + r.failed_count;
          dry_run_artifacts_total = m.dry_run_artifacts_total + r.dry_run_would_purge_count;
          bytes_reclaimed_total = m.bytes_reclaimed_total + r.bytes_reclaimed;
          backlog_artifacts = backlog;
          oldest_eligible_artifact_age = oldest;
        };
      }

  abbrev pub or_setting {ℓ} : {A : Type ℓ} → Option A → A → A
  or_setting none d = d
  or_setting (some a) d = a

  -- `now` is read for the cutoff and `later` for the snapshot; a cutoff before the epoch, where no
  -- decision is, is 0.
  unfoldable pub purge_expired_artifacts :
      RetentionSettings
      → (RunType → Surroundings)
      → ℕ
      → ℕ
      → Option ℕ
      → Option Bool
      → Store
      → RetentionPassResult × Store
  purge_expired_artifacts settings around now later batch_size dry_run store =
      let dry = or_setting dry_run settings.output_retention_dry_run in
      let budget = or_setting batch_size settings.retention_claim_batch_size in
      let days = settings.output_retention_window_days in
      let cutoff = now - days * 86_400_000_000 in
      let started = start_totals budget (count_pass store) in
      let totals = type_loop around dry cutoff days run_types started in
      let result = result_of dry totals in
      if settings.output_retention_enabled
      then (result, report_pass later cutoff result totals.store)
      else (result_of dry (start_totals 0 (count_pass store)), count_pass store)
