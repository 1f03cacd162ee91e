-- ===== src/Remediation/Partition.antt =====
-- The changes, the skipped issues and the counts of `remediate` (backend/app/remediation/engine.py).
use mathlib.Core.List.{append-nil}
use ai_data_operations_emplo.Prelude.{
  ℕ, suc, ◌+◌, ◌≤◌, ◌≡◌, refl, Bool, Option, List, [], ◌∷◌, ◌++◌, map, length, leb, ◌==◌, arith,
  tally, tally-append, take-append-drop, length-append, length-take-le, Bool-cases, inl, inr, ap,
}
use ai_data_operations_emplo.Prelude.Order.{sort_by, tally-sort_by, length-sort_by}
use ai_data_operations_emplo.Prelude.Texts.{Text, text_eq}
use ai_data_operations_emplo.Prelude.Counts.{
  Counts, count_key, count_of, total, total-count_key, count_of-count_key,
}
use ai_data_operations_emplo.Remediation.Types.{
  RemediationDataset, RemediationIssueInput, RemediationColumnConfig, RemediationDatasetConfigInput,
  RemediationLimits, RemediationChangeProposal, SkippedIssue, RemediationResult, RemediationRule,
}
use ai_data_operations_emplo.Remediation.Engine.{
  issue_before, skipped_before, PendingChange, skip, Verdict, change, no_change, judge, judge_all,
  apply_persisted_change_ceiling, overflow_skip, count_actions, proposals, finish, remediate,
}

abbrev pub is_issue : ℕ → RemediationIssueInput → Bool
is_issue i issue = issue.issue_id == i

abbrev pub is_change : ℕ → RemediationChangeProposal → Bool
is_change i p = p.source_issue_id == i

abbrev pub is_skipped : ℕ → SkippedIssue → Bool
is_skipped i s = s.source_issue_id == i

abbrev pending_of : ℕ → PendingChange → Bool
pending_of i p = p.proposal.source_issue_id == i

abbrev verdict_id : Verdict → ℕ
verdict_id (change p) = p.proposal.source_issue_id
verdict_id (no_change s) = s.source_issue_id

abbrev Rules : Type 0
Rules = Text → Option RemediationRule

module _ (rules : Rules) (dataset : RemediationDataset)
    (config : Text → Option RemediationColumnConfig) (flags : RemediationDatasetConfigInput) where
  judge_id :
      (issue : RemediationIssueInput)
      → verdict_id (judge rules dataset config flags issue) ≡ issue.issue_id
  unfolding judge skip
  judge_id issue = ground arith

  judge_all-tally :
      (i : ℕ) (issues : List RemediationIssueInput)
      → let (pending, skipped) = judge_all rules dataset config flags issues in
        tally (pending_of i) pending + tally (is_skipped i) skipped ≡ tally (is_issue i) issues
  unfolding judge_all
  judge_all-tally i [] = refl
  judge_all-tally i (issue ∷ issues) = ground (arith, judge_id issue, judge_all-tally i issues)

  judge_all-length :
      (issues : List RemediationIssueInput)
      → let (pending, skipped) = judge_all rules dataset config flags issues in
        length pending + length skipped ≡ length issues
  unfolding judge_all
  judge_all-length [] = refl
  judge_all-length (issue ∷ issues) = ground (arith, judge_all-length issues)

ceiling-append :
    (pending : List PendingChange) (limits : RemediationLimits)
    → let (kept, overflow) = apply_persisted_change_ceiling pending limits in
      kept ++ overflow ≡ pending
unfolding apply_persisted_change_ceiling
ceiling-append pending limits =
    elim (Bool-cases (leb (length pending) limits.max_persisted_changes)) [
      | inl e ↦ rw e (append-nil pending)
      | inr e ↦ rw e (take-append-drop limits.max_persisted_changes pending)
    ]

ceiling-length :
    (pending : List PendingChange) (limits : RemediationLimits)
    → length (apply_persisted_change_ceiling pending limits).0 ≤ limits.max_persisted_changes
unfolding apply_persisted_change_ceiling
ceiling-length pending limits = ground (arith, length-take-le limits.max_persisted_changes pending)

tally-proposals :
    (i : ℕ) (ps : List PendingChange) → tally (is_change i) (proposals ps) ≡ tally (pending_of i) ps
tally-proposals i [] = refl
tally-proposals i (p ∷ ps) = ground (arith, tally-proposals i ps)

length-proposals : (ps : List PendingChange) → length (proposals ps) ≡ length ps
length-proposals [] = refl
length-proposals (p ∷ ps) = ap suc (length-proposals ps)

tally-overflow :
    (i : ℕ) (ps : List PendingChange)
    → tally (is_skipped i) (map overflow_skip ps) ≡ tally (pending_of i) ps
unfolding overflow_skip
tally-overflow i [] = refl
tally-overflow i (p ∷ ps) = ground (arith, tally-overflow i ps)

length-overflow : (ps : List PendingChange) → length (map overflow_skip ps) ≡ length ps
length-overflow [] = refl
length-overflow (p ∷ ps) = ap suc (length-overflow ps)

count_actions-total :
    (ps : List RemediationChangeProposal) (counts : Counts)
    → total (count_actions ps counts) ≡ total counts + length ps
unfolding count_actions
count_actions-total [] counts = omega arith
count_actions-total (p ∷ ps) counts =
    omega
      (arith, count_actions-total ps (count_key p.action counts), total-count_key p.action counts)

abbrev pub has_action : Text → RemediationChangeProposal → Bool
has_action a p = text_eq p.action a

count_actions-count_of :
    (a : Text) (ps : List RemediationChangeProposal) (counts : Counts)
    → count_of a (count_actions ps counts) ≡ count_of a counts + tally (has_action a) ps
unfolding count_actions
count_actions-count_of a [] counts = omega arith
count_actions-count_of a (p ∷ ps) counts = ground (
  arith,
  count_actions-count_of a ps (count_key p.action counts),
  count_of-count_key p.action a counts,
)

finish-tally :
    (i n : ℕ) (kept overflow : List PendingChange) (skipped : List SkippedIssue)
    → let r = finish n (kept, overflow) skipped in
      tally (is_change i) r.changes + tally (is_skipped i) r.skipped
      ≡ tally (pending_of i) (kept ++ overflow) + tally (is_skipped i) skipped
unfolding finish
finish-tally i n kept overflow skipped = omega (
  arith,
  tally-proposals i kept,
  tally-sort_by skipped_before (is_skipped i) (skipped ++ map overflow_skip overflow),
  tally-append (is_skipped i) skipped (map overflow_skip overflow),
  tally-overflow i overflow,
  tally-append (pending_of i) kept overflow,
)

finish-length :
    (n : ℕ) (kept overflow : List PendingChange) (skipped : List SkippedIssue)
    → let r = finish n (kept, overflow) skipped in
      r.total_changes_count + r.issues_skipped_count ≡ length (kept ++ overflow) + length skipped
unfolding finish
finish-length n kept overflow skipped = omega (
  arith,
  length-proposals kept,
  length-sort_by skipped_before (skipped ++ map overflow_skip overflow),
  length-append skipped (map overflow_skip overflow),
  length-overflow overflow,
  length-append kept overflow,
)

module _ (rules : Rules) (dataset : RemediationDataset) (issues : List RemediationIssueInput)
    (config : Text → Option RemediationColumnConfig) (flags : RemediationDatasetConfigInput)
    (limits : RemediationLimits) where
  abbrev result : RemediationResult
  result = remediate rules dataset issues config flags limits

  -- Each identifier occurs among the changes and the skipped issues together as often as among the
  -- considered issues, and the three counts of the result are the lengths and reconcile.
  pub remediate_partition :
      ((i : ℕ)
        → tally (is_change i) result.changes + tally (is_skipped i) result.skipped
          ≡ tally (is_issue i) issues)
      × (result.issues_considered_count ≡ result.total_changes_count + result.issues_skipped_count)
      × (result.issues_considered_count ≡ length issues)
      × (result.total_changes_count ≡ length result.changes)
      × (result.issues_skipped_count ≡ length result.skipped)
  unfolding remediate finish
  remediate_partition =
      let sorted = sort_by issue_before issues in
      let (pending, skipped) = judge_all rules dataset config flags sorted in
      let (kept, overflow) = apply_persisted_change_ceiling pending limits in
      let whole = ceiling-append pending limits in
      (
        (λ i. omega (
          arith,
          finish-tally i (length issues) kept overflow skipped,
          ap (tally (pending_of i)) whole,
          judge_all-tally rules dataset config flags i sorted,
          tally-sort_by issue_before (is_issue i) issues,
        )),
        omega (
          arith,
          finish-length (length issues) kept overflow skipped,
          ap (length {A = PendingChange}) whole,
          judge_all-length rules dataset config flags sorted,
          length-sort_by issue_before issues,
        ),
        refl,
        refl,
        refl,
      )

  -- The changes never exceed the ceiling, the counters by action add up to the number of changes,
  -- and each counter is the number of changes with that action.
  pub remediate_bounds :
      (length result.changes ≤ limits.max_persisted_changes)
      × (total result.changes_by_action ≡ result.total_changes_count)
      × ((a : Text) → count_of a result.changes_by_action ≡ tally (has_action a) result.changes)
  unfolding remediate finish total count_of
  remediate_bounds =
      let (pending, skipped) = judge_all rules dataset config flags (sort_by issue_before issues) in
      let kept = (apply_persisted_change_ceiling pending limits).0 in
      (
        omega (arith, length-proposals kept, ceiling-length pending limits),
        omega (arith, count_actions-total (proposals kept) []),
        λ a. omega (arith, count_actions-count_of a (proposals kept) []),
      )
