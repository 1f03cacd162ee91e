-- ===== src/Retention/Counts.antt =====
-- The attempts of a pass of backend/app/worker/retention.py and their counts.
use ai_data_operations_emplo.Prelude.{
  ℕ, zero, suc, ◌+◌, ◌≤◌, ◌≡◌, refl, inl, inr, Bool, true, false, List, ◌∷◌, Bool-cases,
  Option-cases, ◌==◌, arith, tally,
}
use ai_data_operations_emplo.Retention.Artifacts.{Verdict, evaluate_and_act}
use ai_data_operations_emplo.Retention.Model.{RunType, ArtifactRun, RetentionEvent, FileSystem}
use ai_data_operations_emplo.Retention.Pass.{
  Surroundings, Progress, next_artifact, settle, process_row, process_loop, unpurged, mark_deleted,
}
use ai_data_operations_emplo.Retention.Tallies.{IsTallied, settled, finish_attempt-IsTallied}

module _ (fs : FileSystem) where
  module _ (run_type : RunType) (s : Surroundings) (dry_run : Bool) (cutoff window_days : ℕ)
      (before : List RetentionEvent) where
    -- The loop has settled at most as many artifacts as it has attempted.
    abbrev pub Within : ℕ → Progress fs → Progress fs → Type 0
    Within left p q =
        (settled fs q + p.attempted ≤ settled fs p + q.attempted)
        × (p.attempted ≤ q.attempted)
        × (q.attempted ≤ p.attempted + left)

    moved :
        (rows : List ArtifactRun) (disk : fs.Disk) (attempted : ℕ) (excluded_ids : List ℕ)
        (p : Progress fs)
        → IsTallied fs before p
        → IsTallied fs before (record p {
          rows = rows;
          disk = disk;
          attempted = attempted;
          excluded_ids = excluded_ids;
        })
    moved rows disk attempted excluded_ids p h = record {
      purges = h.purges;
      dry_purges = h.dry_purges;
      missing = h.missing;
      failures = h.failures;
      events = h.events;
    }

    settle-IsTallied :
        (row : ArtifactRun) (verdict : Verdict fs) (p : Progress fs)
        → IsTallied fs before p
        → let q = settle fs run_type s dry_run cutoff window_days row verdict p in
          IsTallied fs before q × (settled fs q ≤ suc (settled fs p)) × (q.attempted ≡ p.attempted)
    unfolding settle
    settle-IsTallied row v p h = elim (Bool-cases v.set_deleted_at) [
      | inl set ↦
          let met = s.others p.attempted p.rows in
          elim (Bool-cases (tally (unpurged row.id) met == 1)) [
            | inl one ↦
                let rows = mark_deleted row.id (s.clock p.attempted) met in
                let (t, more, same) =
                  finish_attempt-IsTallied fs run_type s dry_run cutoff window_days before v.outcome
                    v.reason_code v.size_bytes true dry_run row (record p { rows = rows })
                    (moved rows p.disk p.attempted p.excluded_ids p h) in
                rw (set, one) (t, omega (arith, more), same)
            | inr lost ↦
                rw (set, lost)
                  (moved met p.disk p.attempted (row.id ∷ p.excluded_ids) p h, omega arith, refl)
          ]
      | inr kept ↦
          let (t, more, same) =
            finish_attempt-IsTallied fs run_type s dry_run cutoff window_days before v.outcome
              v.reason_code v.size_bytes false dry_run row p h in
          rw kept (t, omega (arith, more), same)
    ]

    process_row-IsTallied :
        (row : ArtifactRun) (p : Progress fs)
        → IsTallied fs before p
        → let q = process_row fs run_type s dry_run cutoff window_days row p in
          IsTallied fs before q × Within 1 p q
    unfolding process_row
    process_row-IsTallied row p h =
        let acted =
          evaluate_and_act fs run_type dry_run row.organization_id row.output_file_path p.disk in
        let p1 : Progress fs = record p { disk = acted.1; attempted = p.attempted + 1 } in
        let h1 = moved p.rows acted.1 (p.attempted + 1) p.excluded_ids p h in
        elim (Bool-cases (s.raises p.attempted)) [
          | inl e ↦ rw e (
            moved p.rows acted.1 (p.attempted + 1) (row.id ∷ p.excluded_ids) p h,
            (omega arith, omega arith, omega arith),
          )
          | inr e ↦
              let (t, more, same) = settle-IsTallied row acted.0 p1 h1 in
              rw e (t, (omega (arith, more, same), omega (arith, same), omega (arith, same)))
        ]

    pub process_loop-IsTallied :
        (left : ℕ) (p : Progress fs)
        → IsTallied fs before p
        → let q = process_loop fs run_type s dry_run cutoff window_days left p in
          IsTallied fs before q × Within left p q
    unfolding process_loop
    process_loop-IsTallied zero p h = (h, (omega arith, omega arith, omega arith))
    process_loop-IsTallied (suc left) p h =
        elim (Option-cases (next_artifact (s.locked p.attempted) cutoff p.excluded_ids p.rows)) [
          | inl e ↦ rw (e, process_loop) (h, (omega arith, omega arith, omega arith))
          | inr (row, e) ↦
              let (h1, (a, b, c)) = process_row-IsTallied row p h in
              let (h2, (a', b', c')) =
                process_loop-IsTallied left
                  (process_row fs run_type s dry_run cutoff window_days row p) h1 in
              rw (e, process_loop)
                (h2, (omega (arith, a, a'), omega (arith, b, b'), omega (arith, c, c')))
        ]
