-- ===== src/Retention/Safety.antt =====
-- Which rows a pass of backend/app/worker/retention.py marks.
use ai_data_operations_emplo.Prelude.{
  ℕ, zero, suc, ◌+◌, ◌≤◌, ◌≡◌, ◌⊎◌, refl, ◌∙◌, inl, inr, Bool, true, false, ◌&&◌, none, some, List,
  [], ◌∷◌, Bool-cases, Option-cases, if◌then◌else◌, ◌==◌, arith, tally, select, All, All-tally,
  tally-select-le, All-select-test, subst,
}
use mathlib.Core.Option.{some-injective}
use ai_data_operations_emplo.Prelude.Order.{sort_by, tally-sort_by, All-sort_by}
use ai_data_operations_emplo.Retention.Artifacts.{Verdict, evaluate_and_act}
use ai_data_operations_emplo.Retention.DryRun.{count_outcome-SameFiles}
use ai_data_operations_emplo.Retention.Model.{RunType, ArtifactRun, FileSystem}
use ai_data_operations_emplo.Retention.Pass.{
  Surroundings, Progress, expired, selectable, next_artifact, decided_before, unpurged,
  mark_deleted, exclude, is_failed, finish_attempt, settle, process_row, process_loop,
}

module _ (cutoff : ℕ) where
  -- A row is as it was, or it was expired and is marked.
  abbrev pub Marked : ArtifactRun → ArtifactRun → Type 0
  Marked r r' =
      (r' ≡ r)
      ⊎ ((expired cutoff r ≡ true) × ((at : ℕ) × (r' ≡ record r { output_deleted_at = some at })))

  pub data AllMarked : List ArtifactRun → List ArtifactRun → Type 0 where
    no_rows : AllMarked [] []
    a_row :
        {r r' : ArtifactRun} {rows rows' : List ArtifactRun}
        → Marked r r'
        → AllMarked rows rows'
        → AllMarked (r ∷ rows) (r' ∷ rows')

  pub AllMarked-refl : (rows : List ArtifactRun) → AllMarked rows rows
  AllMarked-refl [] = no_rows
  AllMarked-refl (r ∷ rows) = a_row (inl refl) (AllMarked-refl rows)

  marked_is_kept :
      (r : ArtifactRun) (at : ℕ) → expired cutoff (record r { output_deleted_at = some at }) ≡ false
  unfolding expired
  marked_is_kept r at = ground arith

  Marked-trans : (a b c : ArtifactRun) → Marked a b → Marked b c → Marked a c
  Marked-trans a b c (inl e) (inl f) = inl (f ∙ e)
  Marked-trans a b c (inl e) (inr h) = inr (rw e at h)
  Marked-trans a b c (inr h) (inl f) = inr (h.0, (h.1.0, f ∙ h.1.1))
  Marked-trans a b c (inr h) (inr k) = absurd (cc (marked_is_kept a h.1.0, rw h.1.1 at k.0))

  pub AllMarked-trans :
      {xs ys zs : List ArtifactRun} → AllMarked xs ys → AllMarked ys zs → AllMarked xs zs
  AllMarked-trans no_rows k = k
  AllMarked-trans (a_row {r} {r'} h hs) (a_row {r' = z} k ks) =
      a_row (Marked-trans r r' z h k) (AllMarked-trans hs ks)

  mark_deleted-AllMarked :
      (i now : ℕ) (rows : List ArtifactRun)
      → All (λ r. unpurged i r ≡ true → expired cutoff r ≡ true) rows
      → AllMarked rows (mark_deleted i now rows)
  unfolding mark_deleted
  mark_deleted-AllMarked i now [] h = no_rows
  mark_deleted-AllMarked i now (r ∷ rows) h = elim (Bool-cases (unpurged i r)) [
    | inl e ↦ rw e (a_row (inr (h.0 e, (now, refl))) (mark_deleted-AllMarked i now rows h.1))
    | inr e ↦ rw e (a_row (inl refl) (mark_deleted-AllMarked i now rows h.1))
  ]

  -- The test of the selected row, in the table.
  abbrev due : ℕ → ArtifactRun → Bool
  due i r = unpurged i r && expired cutoff r

  due-selectable :
      (locked : ℕ → Bool) (excluded : List ℕ) (r : ArtifactRun)
      → selectable locked cutoff excluded r ≡ true
      → due r.id r ≡ true
  unfolding selectable expired
  due-selectable locked excluded r h = ground (arith, h)

  first-tally :
      (rows : List ArtifactRun) (row : ArtifactRun) (test : ArtifactRun → Bool)
      → elim rows [ [] ↦ none | r ∷ _ ↦ some r ] ≡ some row
      → test row ≡ true
      → 1 ≤ tally test rows
  first-tally [] row test e h = absurd (cc e)
  first-tally (r ∷ rows) row test e h =
      let same : r ≡ row = some-injective _ _ e in rw (same, h) (omega arith)

  first-All :
      (P : ArtifactRun → Type 0) (rows : List ArtifactRun) (row : ArtifactRun)
      → elim rows [ [] ↦ none | r ∷ _ ↦ some r ] ≡ some row
      → All P rows
      → P row
  first-All P [] row e h = absurd (cc e)
  first-All P (r ∷ rows) row e h = subst P (some-injective _ _ e) h.0

  -- The selected row is due, and it is in the table.
  next_artifact-due :
      (locked : ℕ → Bool) (excluded : List ℕ) (rows : List ArtifactRun) (row : ArtifactRun)
      → next_artifact locked cutoff excluded rows ≡ some row
      → 1 ≤ tally (due row.id) rows
  unfolding next_artifact
  next_artifact-due locked excluded rows row e =
      let keep = selectable locked cutoff excluded in
      let chosen = select keep rows in
      let ok =
        first-All (λ r. keep r ≡ true) (sort_by decided_before chosen) row e
          (All-sort_by decided_before (λ r. keep r ≡ true) chosen (All-select-test keep rows)) in
      let some_due =
        first-tally (sort_by decided_before chosen) row (due row.id) e
          (due-selectable locked excluded row ok) in
      omega (
        arith,
        some_due,
        tally-sort_by decided_before (due row.id) chosen,
        tally-select-le (due row.id) keep rows,
      )

module _ (fs : FileSystem) (run_type : RunType) (s : Surroundings) (dry_run : Bool)
    (cutoff window_days : ℕ)
    (alone : (k : ℕ) (rows : List ArtifactRun) → s.others k rows ≡ rows) where
  kept_rows : (b : Bool) (i : ℕ) (q : Progress fs) → (if b then exclude fs i q else q).rows ≡ q.rows
  kept_rows true i q = refl
  kept_rows false i q = refl

  finish_attempt-rows :
      (row : ArtifactRun) (verdict : Verdict fs) (p : Progress fs)
      → (finish_attempt fs run_type s dry_run cutoff window_days row verdict p).rows ≡ p.rows
  unfolding finish_attempt
  finish_attempt-rows row verdict p = elim (Bool-cases dry_run) [
    | inl dry ↦ rw dry ((count_outcome-SameFiles fs verdict.outcome true verdict.size_bytes _).0)
    | inr real ↦ rw real (
        (count_outcome-SameFiles fs verdict.outcome false verdict.size_bytes _).0
        ∙ kept_rows (is_failed fs verdict.outcome) row.id _)
  ]

  settle-AllMarked :
      (row : ArtifactRun) (verdict : Verdict fs) (p : Progress fs)
      → 1 ≤ tally (due cutoff row.id) p.rows
      → AllMarked cutoff p.rows (settle fs run_type s dry_run cutoff window_days row verdict p).rows
  unfolding settle finish_attempt
  settle-AllMarked row verdict p h = elim (Bool-cases verdict.set_deleted_at) [
    | inl set ↦
        let same = alone p.attempted p.rows in
        elim (Bool-cases (tally (unpurged row.id) p.rows == 1)) [
          | inl one ↦
              let rows = mark_deleted row.id (s.clock p.attempted) p.rows in
              let marked =
                mark_deleted-AllMarked cutoff row.id (s.clock p.attempted) p.rows
                  (All-tally (unpurged row.id) (expired cutoff) p.rows (ground (arith, one, h))) in
              rw (set, same, one)
                (rw (finish_attempt-rows row verdict (record p { rows = rows })) marked)
          | inr lost ↦ rw (set, same, lost) (AllMarked-refl cutoff p.rows)
        ]
    | inr kept ↦ rw kept (rw (finish_attempt-rows row verdict p) (AllMarked-refl cutoff p.rows))
  ]

  process_row-AllMarked :
      (row : ArtifactRun) (p : Progress fs)
      → 1 ≤ tally (due cutoff row.id) p.rows
      → AllMarked cutoff p.rows (process_row fs run_type s dry_run cutoff window_days row p).rows
  unfolding process_row
  process_row-AllMarked row p h =
      let acted =
        evaluate_and_act fs run_type dry_run row.organization_id row.output_file_path p.disk in
      elim (Bool-cases (s.raises p.attempted)) [
        | inl e ↦ rw e (AllMarked-refl cutoff p.rows)
        | inr e ↦ rw e (
            settle-AllMarked row acted.0 (record p { disk = acted.1; attempted = p.attempted + 1 })
              h)
      ]

  pub process_loop-AllMarked :
      (left : ℕ) (p : Progress fs)
      → AllMarked cutoff p.rows (process_loop fs run_type s dry_run cutoff window_days left p).rows
  unfolding process_loop
  process_loop-AllMarked zero p = AllMarked-refl cutoff p.rows
  process_loop-AllMarked (suc left) p =
      elim (Option-cases (next_artifact (s.locked p.attempted) cutoff p.excluded_ids p.rows)) [
        | inl e ↦ rw (e, process_loop) (AllMarked-refl cutoff p.rows)
        | inr (row, e) ↦
            rw (e, process_loop)
              (AllMarked-trans cutoff
                (process_row-AllMarked row p
                  (next_artifact-due cutoff (s.locked p.attempted) p.excluded_ids p.rows row e))
                (process_loop-AllMarked left
                  (process_row fs run_type s dry_run cutoff window_days row p)))
      ]
