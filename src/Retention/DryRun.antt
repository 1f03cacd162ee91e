-- ===== src/Retention/DryRun.antt =====
-- A dry run of backend/app/worker/retention.py.
use ai_data_operations_emplo.Prelude.{
  ℕ, zero, suc, ◌≡◌, refl, ◌∙◌, inl, inr, Bool, true, false, Option, none, some, List, [], ◌∷◌,
  Bool-cases, Option-cases, if◌then◌else◌, ◌==◌, ◌⊎◌, ◌-◌, ◌*◌,
}
use ai_data_operations_emplo.Retention.Artifacts.{
  Verdict, act_on, evaluate_and_act, dry_verdict, exists, best_effort_size, resolve_artifact_path,
}
use ai_data_operations_emplo.Retention.Model.{
  RunType, cleaning, standardization, exported, ArtifactRun, EventOutcome, completed,
  already_missing, failed, FileSystem, OsResult, ok, error, RetentionSettings,
}
use ai_data_operations_emplo.Retention.Pass.{
  Surroundings, Progress, next_artifact, count_outcome, finish_attempt, settle, process_row,
  process_loop,
}
use ai_data_operations_emplo.Retention.Purge.{
  Store, Totals, process_one_run_type, type_loop, purge_expired_artifacts, report_pass, run_types,
  same_type, open_table, close_table, start_totals, count_pass, or_setting,
}

module _ (fs : FileSystem) where
  -- The same rows and the same disk.
  abbrev pub SameFiles : Progress fs → Progress fs → Type 0
  SameFiles p q = (p.rows ≡ q.rows) × (p.disk ≡ q.disk)

  dry_verdict_keeps :
      (size : Option ℕ) (found : OsResult Bool) → (dry_verdict fs size found).set_deleted_at ≡ false
  unfolding dry_verdict
  dry_verdict_keeps size (error e) = refl
  dry_verdict_keeps size (ok true) = refl
  dry_verdict_keeps size (ok false) = refl

  act_on_dry :
      (disk : fs.Disk) (path : Option fs.Location)
      → ((act_on fs true disk path).0.set_deleted_at ≡ false)
        × ((act_on fs true disk path).1 ≡ disk)
  unfolding act_on
  act_on_dry disk none = (refl, refl)
  act_on_dry disk (some path) =
      (dry_verdict_keeps (best_effort_size fs disk path) (exists fs disk path), refl)

  pub count_outcome-SameFiles :
      (outcome : EventOutcome) (dry_run : Bool) (size : Option ℕ) (p : Progress fs)
      → SameFiles (count_outcome fs outcome dry_run size p) p
  unfolding count_outcome
  count_outcome-SameFiles completed true size p = (refl, refl)
  count_outcome-SameFiles completed false size p = (refl, refl)
  count_outcome-SameFiles already_missing dry_run size p = (refl, refl)
  count_outcome-SameFiles failed dry_run size p = (refl, refl)

  module _ (run_type : RunType) (s : Surroundings) (cutoff window_days : ℕ) where
    finish_attempt-SameFiles :
        (row : ArtifactRun) (verdict : Verdict fs) (p : Progress fs)
        → SameFiles (finish_attempt fs run_type s true cutoff window_days row verdict p) p
    unfolding finish_attempt
    finish_attempt-SameFiles row verdict p =
        count_outcome-SameFiles verdict.outcome true verdict.size_bytes _

    process_row-SameFiles :
        (row : ArtifactRun) (p : Progress fs)
        → SameFiles (process_row fs run_type s true cutoff window_days row p) p
    unfolding process_row evaluate_and_act settle
    process_row-SameFiles row p =
        let path =
          resolve_artifact_path fs (fs.tenant_root run_type row.organization_id)
            row.output_file_path in
        let (kept, same) = act_on_dry p.disk path in
        elim (Bool-cases (s.raises p.attempted)) [
          | inl e ↦ rw e (refl, same)
          | inr e ↦
              rw (e, kept)
                (let (rows, disk) = finish_attempt-SameFiles row (act_on fs true p.disk path).0 _ in
                  (rows, disk ∙ same))
        ]

    process_loop-SameFiles :
        (left : ℕ) (p : Progress fs)
        → SameFiles (process_loop fs run_type s true cutoff window_days left p) p
    unfolding process_loop
    process_loop-SameFiles zero p = (refl, refl)
    process_loop-SameFiles (suc left) p =
        elim (Option-cases (next_artifact (s.locked p.attempted) cutoff p.excluded_ids p.rows)) [
          | inl e ↦ rw (e, process_loop) (refl, refl)
          | inr (row, e) ↦
              let (rows, disk) = process_row-SameFiles row p in
              let (rows', disk') =
                process_loop-SameFiles left
                  (process_row fs run_type s true cutoff window_days row p) in
              rw (e, process_loop) (rows' ∙ rows, disk' ∙ disk)
        ]

  close_rows :
      (tables : RunType → List ArtifactRun) (u t : RunType) (rows : List ArtifactRun)
      → rows ≡ tables t
      → (if same_type u t then rows else tables u) ≡ tables u
  close_rows tables cleaning cleaning rows e = e
  close_rows tables cleaning standardization rows e = refl
  close_rows tables cleaning exported rows e = refl
  close_rows tables standardization cleaning rows e = refl
  close_rows tables standardization standardization rows e = e
  close_rows tables standardization exported rows e = refl
  close_rows tables exported cleaning rows e = refl
  close_rows tables exported standardization rows e = refl
  close_rows tables exported exported rows e = e

  -- The same tables and the same disk.
  abbrev pub SameStore : Store fs → Store fs → Type 0
  SameStore a b = ((t : RunType) → a.tables t ≡ b.tables t) × (a.disk ≡ b.disk)

  type_loop-SameStore :
      (around : RunType → Surroundings) (cutoff window_days : ℕ) (types : List RunType)
      (totals : Totals fs)
      → SameStore (type_loop fs around true cutoff window_days types totals).store totals.store
  unfolding type_loop process_one_run_type
  type_loop-SameStore around cutoff window_days [] totals = (λ t. refl, refl)
  type_loop-SameStore around cutoff window_days (t ∷ types) totals =
      elim (Bool-cases (totals.remaining_budget == 0)) [
        | inl e ↦ rw e (λ t. refl, refl)
        | inr e ↦
            let p =
              process_one_run_type fs around true cutoff window_days t totals.remaining_budget
                totals.store in
            let (rows, disk) =
              process_loop-SameFiles t (around t) cutoff window_days totals.remaining_budget
                (open_table fs t totals.store) in
            let (tables', disk') =
              type_loop-SameStore around cutoff window_days types (close_table fs t p totals) in
            rw e (λ u. tables' u ∙ close_rows totals.store.tables u t p.rows rows, disk' ∙ disk)
      ]

  -- A pass that is disabled by the settings, or that runs dry by its argument or else by the settings,
  -- itself leaves every row of the three run tables and the disk as they were.
  pub purge_expired_artifacts_dry :
      (settings : RetentionSettings) (around : RunType → Surroundings) (now later : ℕ)
      (batch_size : Option ℕ) (dry_run : Option Bool) (store : Store fs)
      → (settings.output_retention_enabled ≡ false)
        ⊎ (or_setting fs dry_run settings.output_retention_dry_run ≡ true)
      → SameStore
          (purge_expired_artifacts fs settings around now later batch_size dry_run store).1
          store
  unfolding purge_expired_artifacts report_pass
  purge_expired_artifacts_dry settings around now later batch_size dry_run store (inl off) =
      rw off (λ t. refl, refl)
  purge_expired_artifacts_dry settings around now later batch_size dry_run store (inr dry) =
      elim (Bool-cases settings.output_retention_enabled) [
        | inl on ↦
            rw (on, dry)
              (type_loop-SameStore around
                (now - settings.output_retention_window_days * 86_400_000_000)
                settings.output_retention_window_days run_types
                (start_totals fs (or_setting fs batch_size settings.retention_claim_batch_size)
                  (count_pass fs store)))
        | inr off ↦ rw off (λ t. refl, refl)
      ]
