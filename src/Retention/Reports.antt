-- ===== src/Retention/Reports.antt =====
-- The result of `purge_expired_artifacts` (backend/app/worker/retention.py) and its events.
use ai_data_operations_emplo.Prelude.{
  ℕ, ◌+◌, ◌-◌, ◌*◌, ◌≤◌, ◌≡◌, inl, inr, Bool, Option, List, [], ◌∷◌, Bool-cases, ◌==◌, arith,
  length,
}
use ai_data_operations_emplo.Retention.Counts.{process_loop-IsTallied}
use ai_data_operations_emplo.Retention.Tallies.{
  Adds, is_purge, is_dry_purge, is_missing, is_failure,
}
use ai_data_operations_emplo.Retention.Model.{
  RunType, RetentionEvent, FileSystem, RetentionSettings, RetentionPassResult,
  candidates_considered,
}
use ai_data_operations_emplo.Retention.Pass.{Surroundings}
use ai_data_operations_emplo.Retention.Purge.{
  Store, Totals, open_table, close_table, process_one_run_type, type_loop, start_totals, count_pass,
  or_setting, purge_expired_artifacts, report_pass, run_types,
}

module _ (fs : FileSystem) where
  -- The totals are the numbers of their events, within the budget.
  record IsSummed (before : List RetentionEvent) (budget : ℕ) (t : Totals fs) : Type 0 where
    purges : Adds is_purge before t.store.events t.purged
    dry_purges : Adds is_dry_purge before t.store.events t.would_purge
    missing : Adds is_missing before t.store.events t.already_missing
    failures : Adds is_failure before t.store.events t.failed
    events :
        length t.store.events
        ≡ length before + (t.purged + t.already_missing + t.failed + t.would_purge)
    within : t.purged + t.already_missing + t.failed + t.would_purge + t.remaining_budget ≤ budget

  -- Every count of a result is the number of its events after `before`, there are no other events,
  -- and at most `budget` artifacts are considered.
  pub record IsReported (before after : List RetentionEvent) (budget : ℕ) (r : RetentionPassResult)
      : Type 0 where
    pub purges : Adds is_purge before after r.purged_count
    pub dry_purges : Adds is_dry_purge before after r.dry_run_would_purge_count
    pub missing : Adds is_missing before after r.already_missing_count
    pub failures : Adds is_failure before after r.failed_count
    pub events : length after ≡ length before + candidates_considered r
    pub within : candidates_considered r ≤ budget

  module _ (around : RunType → Surroundings) (dry_run : Bool) (cutoff window_days budget : ℕ)
      (before : List RetentionEvent) where
    type_step :
        (t : RunType) (totals : Totals fs)
        → IsSummed before budget totals
        → IsSummed before budget (
            close_table fs t
              (process_one_run_type fs around dry_run cutoff window_days t totals.remaining_budget
                totals.store)
              totals)
    unfolding process_one_run_type
    type_step t totals h =
        let opened = open_table fs t totals.store in
        let zero_of : (n : ℕ) → n ≡ n + 0 = λ n. omega arith in
        let (p, (a, b, c)) =
          process_loop-IsTallied fs t (around t) dry_run cutoff window_days totals.store.events
            totals.remaining_budget opened
            (record {
              purges = zero_of _;
              dry_purges = zero_of _;
              missing = zero_of _;
              failures = zero_of _;
              events = zero_of _;
            }) in
        record {
          purges = omega (arith, p.purges, h.purges);
          dry_purges = omega (arith, p.dry_purges, h.dry_purges);
          missing = omega (arith, p.missing, h.missing);
          failures = omega (arith, p.failures, h.failures);
          events = omega (arith, p.events, h.events);
          within = omega (arith, h.within, a, c);
        }

    type_loop-IsSummed :
        (types : List RunType) (totals : Totals fs)
        → IsSummed before budget totals
        → IsSummed before budget (type_loop fs around dry_run cutoff window_days types totals)
    unfolding type_loop
    type_loop-IsSummed [] totals h = h
    type_loop-IsSummed (t ∷ types) totals h = elim (Bool-cases (totals.remaining_budget == 0)) [
      | inl e ↦ rw e h
      | inr e ↦ rw e (
          type_loop-IsSummed types
            (close_table fs t
              (process_one_run_type fs around dry_run cutoff window_days t totals.remaining_budget
                totals.store)
              totals)
            (type_step t totals h))
    ]

  -- Whatever other sessions do and whichever transactions raise, a pass of
  -- `purge_expired_artifacts` returns as its counts of purged, dry-run, missing and failed artifacts
  -- the numbers of the events of these kinds that it has added, it adds no other events, and these are
  -- together at most the batch size, of the argument or else of the settings.
  pub purge_expired_artifacts-IsReported :
      (settings : RetentionSettings) (around : RunType → Surroundings) (now later : ℕ)
      (batch_size : Option ℕ) (dry_run : Option Bool) (store : Store fs)
      → let ended = purge_expired_artifacts fs settings around now later batch_size dry_run store in
        IsReported store.events ended.1.events
          (or_setting fs batch_size settings.retention_claim_batch_size)
          ended.0
  unfolding purge_expired_artifacts report_pass candidates_considered
  purge_expired_artifacts-IsReported settings around now later batch_size dry_run store =
      let zero_of : (n : ℕ) → n ≡ n + 0 = λ n. omega arith in
      elim (Bool-cases settings.output_retention_enabled) [
        | inl on ↦
            let budget = or_setting fs batch_size settings.retention_claim_batch_size in
            let h =
              type_loop-IsSummed around (or_setting fs dry_run settings.output_retention_dry_run)
                (now - settings.output_retention_window_days * 86_400_000_000)
                settings.output_retention_window_days budget store.events run_types
                (start_totals fs budget (count_pass fs store))
                (record {
                  purges = zero_of _;
                  dry_purges = zero_of _;
                  missing = zero_of _;
                  failures = zero_of _;
                  events = zero_of _;
                  within = omega arith;
                }) in
            rw on (record {
              purges = h.purges;
              dry_purges = h.dry_purges;
              missing = h.missing;
              failures = h.failures;
              events = h.events;
              within = omega (arith, h.within);
            })
        | inr off ↦ rw off (record {
          purges = zero_of _;
          dry_purges = zero_of _;
          missing = zero_of _;
          failures = zero_of _;
          events = zero_of _;
          within = omega arith;
        })
      ]
