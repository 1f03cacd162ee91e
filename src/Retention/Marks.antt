-- ===== src/Retention/Marks.antt =====
-- Which rows `purge_expired_artifacts` (backend/app/worker/retention.py) marks.
use ai_data_operations_emplo.Prelude.{
  ℕ, ◌-◌, ◌*◌, ◌≡◌, inl, inr, Bool, Option, List, [], ◌∷◌, Bool-cases, ◌==◌, if◌then◌else◌,
}
use ai_data_operations_emplo.Retention.Model.{
  RunType, cleaning, standardization, exported, ArtifactRun, FileSystem, RetentionSettings,
}
use ai_data_operations_emplo.Retention.Pass.{Surroundings}
use ai_data_operations_emplo.Retention.Purge.{
  Store, Totals, open_table, close_table, process_one_run_type, type_loop, start_totals, count_pass,
  same_type, or_setting, purge_expired_artifacts, report_pass, run_types,
}
use ai_data_operations_emplo.Retention.Safety.{
  AllMarked, AllMarked-refl, AllMarked-trans, process_loop-AllMarked,
}

module _ (cutoff : ℕ) where
  close-AllMarked :
      (tables : RunType → List ArtifactRun) (u t : RunType) (rows : List ArtifactRun)
      → AllMarked cutoff (tables t) rows
      → AllMarked cutoff (tables u) (if same_type u t then rows else tables u)
  close-AllMarked tables cleaning cleaning rows h = h
  close-AllMarked tables cleaning standardization rows h = AllMarked-refl cutoff _
  close-AllMarked tables cleaning exported rows h = AllMarked-refl cutoff _
  close-AllMarked tables standardization cleaning rows h = AllMarked-refl cutoff _
  close-AllMarked tables standardization standardization rows h = h
  close-AllMarked tables standardization exported rows h = AllMarked-refl cutoff _
  close-AllMarked tables exported cleaning rows h = AllMarked-refl cutoff _
  close-AllMarked tables exported standardization rows h = AllMarked-refl cutoff _
  close-AllMarked tables exported exported rows h = h

-- No other session writes the rows.
abbrev pub IsAlone : (RunType → Surroundings) → Type 0
IsAlone around = (t : RunType) (k : ℕ) (rows : List ArtifactRun) → (around t).others k rows ≡ rows

abbrev pub cutoff_of : RetentionSettings → ℕ → ℕ
cutoff_of settings now = now - settings.output_retention_window_days * 86_400_000_000

module _ (fs : FileSystem) (around : RunType → Surroundings) (alone : IsAlone around) where
  type_loop-AllMarked :
      (dry_run : Bool) (cutoff window_days : ℕ) (types : List RunType) (totals : Totals fs)
      (u : RunType)
      → AllMarked cutoff
          (totals.store.tables u)
          ((type_loop fs around dry_run cutoff window_days types totals).store.tables u)
  unfolding type_loop process_one_run_type
  type_loop-AllMarked dry_run cutoff window_days [] totals u = AllMarked-refl cutoff _
  type_loop-AllMarked dry_run cutoff window_days (t ∷ types) totals u =
      elim (Bool-cases (totals.remaining_budget == 0)) [
        | inl e ↦ rw e (AllMarked-refl cutoff _)
        | inr e ↦
            let p =
              process_one_run_type fs around dry_run cutoff window_days t totals.remaining_budget
                totals.store in
            let here =
              process_loop-AllMarked fs t (around t) dry_run cutoff window_days (alone t)
                totals.remaining_budget (open_table fs t totals.store) in
            rw e (
              AllMarked-trans cutoff (close-AllMarked cutoff totals.store.tables u t p.rows here) (
                type_loop-AllMarked dry_run cutoff window_days types (close_table fs t p totals) u))
      ]

  -- While no other session writes the rows, a pass of `purge_expired_artifacts` leaves each row of the
  -- three run tables as it was, or has set its `output_deleted_at` alone, where the run was expired
  -- before: in a terminal status, with no `output_deleted_at`, and with the decision of that status
  -- no later than the retention window before `now`.
  pub purge_expired_artifacts-AllMarked :
      (settings : RetentionSettings) (now later : ℕ) (batch_size : Option ℕ) (dry_run : Option Bool)
      (store : Store fs) (t : RunType)
      → AllMarked (cutoff_of settings now) (store.tables t) (
          (purge_expired_artifacts fs settings around now later batch_size dry_run store).1.tables
            t)
  unfolding purge_expired_artifacts report_pass
  purge_expired_artifacts-AllMarked settings now later batch_size dry_run store t =
      elim (Bool-cases settings.output_retention_enabled) [
        | inl on ↦ rw on (
            type_loop-AllMarked (or_setting fs dry_run settings.output_retention_dry_run)
              (cutoff_of settings now) settings.output_retention_window_days run_types
              (start_totals fs (or_setting fs batch_size settings.retention_claim_batch_size)
                (count_pass fs store))
              t)
        | inr off ↦ rw off (AllMarked-refl (cutoff_of settings now) (store.tables t))
      ]
