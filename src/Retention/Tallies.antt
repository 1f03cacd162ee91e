-- ===== src/Retention/Tallies.antt =====
-- The events of a pass of backend/app/worker/retention.py by their kinds, and its counters.
use ai_data_operations_emplo.Prelude.{
  ℕ, suc, ◌+◌, ◌≡◌, refl, Bool, true, false, not, ◌&&◌, Option, List, [], ◌∷◌, ◌++◌, ap, ◌∙◌, arith,
  tally, tally-append, length, length-append,
}
use ai_data_operations_emplo.Retention.Artifacts.{Verdict}
use ai_data_operations_emplo.Retention.Model.{
  RunType, ArtifactRun, EventOutcome, completed, already_missing, failed, Reason, RetentionEvent,
  FileSystem,
}
use ai_data_operations_emplo.Retention.Pass.{
  Surroundings, Progress, count_outcome, finish_attempt, event_of,
}

abbrev is_completed : EventOutcome → Bool
is_completed completed = true
is_completed already_missing = false
is_completed failed = false

abbrev pub is_purge : RetentionEvent → Bool
is_purge e = is_completed e.outcome && not e.dry_run

abbrev pub is_dry_purge : RetentionEvent → Bool
is_dry_purge e = is_completed e.outcome && e.dry_run

abbrev pub is_missing : RetentionEvent → Bool
is_missing e = elim e.outcome [ completed ↦ false | already_missing ↦ true | failed ↦ false ]

abbrev pub is_failure : RetentionEvent → Bool
is_failure e = elim e.outcome [ completed ↦ false | already_missing ↦ false | failed ↦ true ]

-- `n` of the events after `before` pass the test.
abbrev pub Adds : (RetentionEvent → Bool) → List RetentionEvent → List RetentionEvent → ℕ → Type 0
Adds test before after n = tally test after ≡ tally test before + n

module _ (fs : FileSystem) where
  abbrev pub settled : Progress fs → ℕ
  settled p = p.purged + p.already_missing + p.failed + p.would_purge

  -- Every counter is the number of its events, and there are no others.
  pub record IsTallied (before : List RetentionEvent) (p : Progress fs) : Type 0 where
    pub purges : Adds is_purge before p.events p.purged
    pub dry_purges : Adds is_dry_purge before p.events p.would_purge
    pub missing : Adds is_missing before p.events p.already_missing
    pub failures : Adds is_failure before p.events p.failed
    pub events : length p.events ≡ length before + settled p

  module _ (run_type : RunType) (s : Surroundings) (dry_run : Bool) (cutoff window_days : ℕ)
      (before : List RetentionEvent) where
    -- One event and its counter.
    one_more :
        (e : RetentionEvent) (p q : Progress fs)
        → IsTallied before p
        → q.events ≡ p.events ++ e ∷ []
        → (q.purged ≡ p.purged + tally is_purge (e ∷ []))
          × (q.would_purge ≡ p.would_purge + tally is_dry_purge (e ∷ []))
          × (q.already_missing ≡ p.already_missing + tally is_missing (e ∷ []))
          × (q.failed ≡ p.failed + tally is_failure (e ∷ []))
        → settled q ≡ suc (settled p)
        → IsTallied before q
    one_more e p q h added (a, b, c, d) one =
        let more : (test : RetentionEvent → Bool)
            → tally test q.events ≡ tally test p.events + tally test (e ∷ []) =
          λ test. ap (tally test) added ∙ tally-append test p.events (e ∷ []) in
        let longer : length q.events ≡ length p.events + 1 =
          ap (λ l. length l) added ∙ length-append p.events (e ∷ []) in
        record {
          purges = omega (arith, more is_purge, a, h.purges);
          dry_purges = omega (arith, more is_dry_purge, b, h.dry_purges);
          missing = omega (arith, more is_missing, c, h.missing);
          failures = omega (arith, more is_failure, d, h.failures);
          events = omega (arith, longer, one, h.events);
        }

    pub finish_attempt-IsTallied :
        (outcome : EventOutcome) (reason : Option Reason) (size : Option ℕ) (set dry : Bool)
        (row : ArtifactRun) (p : Progress fs)
        → IsTallied before p
        → let q =
            finish_attempt fs run_type s dry cutoff window_days row
              (record {
                outcome = outcome;
                reason_code = reason;
                size_bytes = size;
                set_deleted_at = set;
              })
              p in
          IsTallied before q × (settled q ≡ suc (settled p)) × (q.attempted ≡ p.attempted)
    unfolding finish_attempt count_outcome
    finish_attempt-IsTallied completed reason size set true row p h =
        let v : Verdict fs = record {
          outcome = completed;
          reason_code = reason;
          size_bytes = size;
          set_deleted_at = set;
        } in
        let e = event_of fs run_type s true cutoff window_days row v (s.clock p.attempted) in
        (
          one_more e p _ h refl (omega arith, omega arith, omega arith, omega arith) (omega arith),
          omega arith,
          refl,
        )
    finish_attempt-IsTallied completed reason size set false row p h =
        let v : Verdict fs = record {
          outcome = completed;
          reason_code = reason;
          size_bytes = size;
          set_deleted_at = set;
        } in
        let e = event_of fs run_type s false cutoff window_days row v (s.clock p.attempted) in
        (
          one_more e p _ h refl (omega arith, omega arith, omega arith, omega arith) (omega arith),
          omega arith,
          refl,
        )
    finish_attempt-IsTallied already_missing reason size set true row p h =
        let v : Verdict fs = record {
          outcome = already_missing;
          reason_code = reason;
          size_bytes = size;
          set_deleted_at = set;
        } in
        let e = event_of fs run_type s true cutoff window_days row v (s.clock p.attempted) in
        (
          one_more e p _ h refl (omega arith, omega arith, omega arith, omega arith) (omega arith),
          omega arith,
          refl,
        )
    finish_attempt-IsTallied already_missing reason size set false row p h =
        let v : Verdict fs = record {
          outcome = already_missing;
          reason_code = reason;
          size_bytes = size;
          set_deleted_at = set;
        } in
        let e = event_of fs run_type s false cutoff window_days row v (s.clock p.attempted) in
        (
          one_more e p _ h refl (omega arith, omega arith, omega arith, omega arith) (omega arith),
          omega arith,
          refl,
        )
    finish_attempt-IsTallied failed reason size set true row p h =
        let v : Verdict fs = record {
          outcome = failed;
          reason_code = reason;
          size_bytes = size;
          set_deleted_at = set;
        } in
        let e = event_of fs run_type s true cutoff window_days row v (s.clock p.attempted) in
        (
          one_more e p _ h refl (omega arith, omega arith, omega arith, omega arith) (omega arith),
          omega arith,
          refl,
        )
    finish_attempt-IsTallied failed reason size set false row p h =
        let v : Verdict fs = record {
          outcome = failed;
          reason_code = reason;
          size_bytes = size;
          set_deleted_at = set;
        } in
        let e = event_of fs run_type s false cutoff window_days row v (s.clock p.attempted) in
        (
          one_more e p _ h refl (omega arith, omega arith, omega arith, omega arith) (omega arith),
          omega arith,
          refl,
        )
