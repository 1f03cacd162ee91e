-- ===== src/Retention/Pass.antt =====
-- The pass of backend/app/worker/retention.py.
use ai_data_operations_emplo.Prelude.{
  ℕ, zero, suc, ◌+◌, Bool, true, false, not, ◌&&◌, Option, none, some, List, [], ◌∷◌, ◌++◌, select,
  tally, any, ltb, leb, ◌==◌, if◌then◌else◌, is_none, or_default,
}
use ai_data_operations_emplo.Prelude.Order.{sort_by}
use ai_data_operations_emplo.Retention.Artifacts.{Verdict, evaluate_and_act}
use ai_data_operations_emplo.Retention.Model.{
  RunType, RunStatus, pending_review, approved, rejected, rolled_back, ArtifactRun, EventOutcome,
  completed, RetentionEvent, FileSystem,
}

unfoldable pub decision_timestamp : ArtifactRun → Option ℕ
decision_timestamp r = elim r.status [
  | pending_review ↦ none
  | approved ↦ r.approved_at
  | rejected ↦ r.rejected_at
  | rolled_back ↦ r.rolled_back_at
]

abbrev pub is_terminal : RunStatus → Bool
is_terminal pending_review = false
is_terminal approved = true
is_terminal rejected = true
is_terminal rolled_back = true

abbrev at_most : Option ℕ → ℕ → Bool
at_most none cutoff = false
at_most (some t) cutoff = leb t cutoff

-- The WHERE clause that the pass and the backlog snapshot share.
unfoldable pub expired : ℕ → ArtifactRun → Bool
expired cutoff r =
    is_terminal r.status && is_none r.output_deleted_at && at_most (decision_timestamp r) cutoff

abbrev key : Option ℕ → ℕ
key none = 0
key (some t) = t

-- `ORDER BY decision_ts, id`
abbrev pub decided_before : ArtifactRun → ArtifactRun → Bool
decided_before a b =
    if key (decision_timestamp a) == key (decision_timestamp b)
    then ltb a.id b.id
    else ltb (key (decision_timestamp a)) (key (decision_timestamp b))

-- What the k-th attempt meets: the rows that other sessions lock, what the table is at its UPDATE, the
-- clock, and whether the database raises in its transaction, which is after the file operation.
pub record Surroundings : Type 0 where
  pub locked : ℕ → ℕ → Bool
  pub others : ℕ → List ArtifactRun → List ArtifactRun
  pub clock : ℕ → ℕ
  pub raises : ℕ → Bool

unfoldable pub selectable : (ℕ → Bool) → ℕ → List ℕ → ArtifactRun → Bool
selectable locked cutoff excluded r =
    expired cutoff r && not (any (λ i. i == r.id) excluded) && not (locked r.id)

abbrev first : List ArtifactRun → Option ArtifactRun
first [] = none
first (r ∷ _) = some r

unfoldable pub next_artifact : (ℕ → Bool) → ℕ → List ℕ → List ArtifactRun → Option ArtifactRun
next_artifact locked cutoff excluded rows =
    first (sort_by decided_before (select (selectable locked cutoff excluded) rows))

-- The guard of the UPDATE of `output_deleted_at`, and the UPDATE.
abbrev pub unpurged : ℕ → ArtifactRun → Bool
unpurged i r = r.id == i && is_none r.output_deleted_at

unfoldable pub mark_deleted : ℕ → ℕ → List ArtifactRun → List ArtifactRun
mark_deleted i now [] = []
mark_deleted i now (r ∷ rows) =
    (if unpurged i r then record r { output_deleted_at = some now } else r)
    ∷ mark_deleted i now rows

module _ (fs : FileSystem) where
  -- One table with the disk and the events, and the variables of `_process_one_run_type`.
  pub record Progress : Type 0 where
    pub rows : List ArtifactRun
    pub events : List RetentionEvent
    pub disk : fs.Disk
    pub purged : ℕ
    pub already_missing : ℕ
    pub failed : ℕ
    pub would_purge : ℕ
    pub bytes_reclaimed : ℕ
    pub attempted : ℕ
    pub excluded_ids : List ℕ

  abbrev pub exclude : ℕ → Progress → Progress
  exclude i p = record p { excluded_ids = i ∷ p.excluded_ids }

  -- The counters after the commit.
  unfoldable pub count_outcome : EventOutcome → Bool → Option ℕ → Progress → Progress
  count_outcome completed false size p = record p {
    purged = p.purged + 1;
    bytes_reclaimed = p.bytes_reclaimed + or_default size 0;
  }
  count_outcome completed true size p = record p { would_purge = p.would_purge + 1 }
  count_outcome EventOutcome.already_missing dry_run size p = record p {
    already_missing = p.already_missing + 1;
  }
  count_outcome EventOutcome.failed dry_run size p = record p { failed = p.failed + 1 }

  abbrev pub is_failed : EventOutcome → Bool
  is_failed completed = false
  is_failed EventOutcome.already_missing = false
  is_failed EventOutcome.failed = true

  module _ (run_type : RunType) (s : Surroundings) (dry_run : Bool) (cutoff window_days : ℕ) where
    abbrev pub event_of : ArtifactRun → Verdict fs → ℕ → RetentionEvent
    event_of row verdict now = record {
      organization_id = row.organization_id;
      run_type = run_type;
      run_id = row.id;
      outcome = verdict.outcome;
      failure_reason_code = verdict.reason_code;
      dry_run = dry_run;
      retention_window_days_applied = window_days;
      artifact_size_bytes = verdict.size_bytes;
      completed_at = now;
    }

    -- The event, the commit, and what follows it.
    unfoldable pub finish_attempt : ArtifactRun → Verdict fs → Progress → Progress
    finish_attempt row verdict p =
        let recorded = record p {
          events = p.events ++ event_of row verdict (s.clock p.attempted) ∷ [];
        } in
        let kept =
          if dry_run
          then exclude row.id recorded
          else (if is_failed verdict.outcome then exclude row.id recorded else recorded) in
        count_outcome verdict.outcome dry_run verdict.size_bytes kept

    -- The UPDATE, when there is one; a lost race is rolled back and the row excluded.
    unfoldable pub settle : ArtifactRun → Verdict fs → Progress → Progress
    settle row verdict p =
        if verdict.set_deleted_at
        then (let met = s.others p.attempted p.rows in
            if tally (unpurged row.id) met == 1
            then finish_attempt row verdict
                (record p { rows = mark_deleted row.id (s.clock p.attempted) met })
            else exclude row.id (record p { rows = met }))
        else finish_attempt row verdict p

    -- The transaction of the selected row. An exception rolls the rows back, not the disk.
    unfoldable pub process_row : ArtifactRun → Progress → Progress
    process_row row p =
        let (verdict, disk) =
          evaluate_and_act fs run_type dry_run row.organization_id row.output_file_path p.disk in
        if s.raises p.attempted
        then exclude row.id (record p { disk = disk; attempted = p.attempted + 1 })
        else settle row verdict (record p { disk = disk; attempted = p.attempted + 1 })

    -- `while attempted < budget`, with the attempts that are left.
    unfoldable pub process_loop : ℕ → Progress → Progress
    process_loop zero p = p
    process_loop (suc left) p =
        elim (next_artifact (s.locked p.attempted) cutoff p.excluded_ids p.rows) [
          | none ↦ p
          | some row ↦ process_loop left (process_row row p)
        ]
