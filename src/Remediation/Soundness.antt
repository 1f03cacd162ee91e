-- ===== src/Remediation/Soundness.antt =====
-- Where the changes of `remediate` (backend/app/remediation/engine.py) come from, and the order of its
-- skipped issues.
use ai_data_operations_emplo.Prelude.{
  ◌+◌, ◌≤◌, ◌≡◌, refl, true, Option, some, List, [], ◌∷◌, ◌++◌, map, length, leb, arith, All,
  All-take, Option-cases, Bool-cases, inl, inr,
}
use ai_data_operations_emplo.Prelude.Order.{sort_by, All-sort_by, IsSorted, IsSorted-sort_by}
use ai_data_operations_emplo.Prelude.SortKeys.{key_ltb-IsOrder, IsOrder-on}
use ai_data_operations_emplo.Prelude.Texts.{Text}
use ai_data_operations_emplo.Remediation.Types.{
  RemediationDataset, RemediationIssueInput, RemediationColumnConfig, RemediationDatasetConfigInput,
  RemediationLimits, RuleOutcome, changed, unchanged, RemediationChangeProposal, SkippedIssue,
  RemediationRule,
}
use ai_data_operations_emplo.Remediation.Engine.{
  skipped_sort_key, issue_before, skipped_before, PendingChange, Verdict, change, no_change,
  of_outcome, add_verdict, judge, judge_all, row_in_dataset, apply_persisted_change_ceiling,
  overflow_skip, proposals, finish, remediate, resolved,
}

-- The change is what a registered rule proposed for an issue with property `P` whose row is in the
-- dataset, under that issue's identity and column.
pub record IsJustified (rules : Text → Option RemediationRule) (dataset : RemediationDataset)
    (config : Text → Option RemediationColumnConfig) (flags : RemediationDatasetConfigInput)
    (P : RemediationIssueInput → Type 0) (p : RemediationChangeProposal) : Type 0 where
  pub issue : RemediationIssueInput
  pub considered : P issue
  pub rule : RemediationRule
  pub registered : rules issue.issue_type ≡ some rule
  pub in_dataset : (2 ≤ issue.row_number) × (issue.row_number ≤ length dataset.rows + 1)
  pub proposed :
      rule.propose issue (resolved config issue.column_name) flags
      ≡ changed p.proposed_value p.reason
  pub same_source : p.source_issue_id ≡ issue.issue_id
  pub same_row : p.row_number ≡ issue.row_number
  pub same_column : p.column_name ≡ issue.column_name
  pub same_original : p.original_value ≡ issue.original_value
  pub same_action : p.action ≡ rule.action

module _ (rules : Text → Option RemediationRule) (dataset : RemediationDataset)
    (config : Text → Option RemediationColumnConfig) (flags : RemediationDatasetConfigInput)
    (P : RemediationIssueInput → Type 0) where
  abbrev Justified : PendingChange → Type 0
  Justified p = IsJustified rules dataset config flags P p.proposal

  abbrev JustifiedVerdict : Verdict → Type 0
  JustifiedVerdict (change p) = Justified p
  JustifiedVerdict (no_change s) = Unit

  outcome_justified :
      (issue : RemediationIssueInput) (rule : RemediationRule) (outcome : RuleOutcome)
      → P issue
      → rules issue.issue_type ≡ some rule
      → row_in_dataset dataset issue.row_number ≡ true
      → rule.propose issue (resolved config issue.column_name) flags ≡ outcome
      → JustifiedVerdict (of_outcome issue rule outcome)
  unfolding row_in_dataset
  outcome_justified issue rule (changed value reason) considered registered inside proposed =
      record {
        issue = issue;
        considered = considered;
        rule = rule;
        registered = registered;
        in_dataset = (ground arith, ground arith);
        proposed = proposed;
        same_source = refl;
        same_row = refl;
        same_column = refl;
        same_original = refl;
        same_action = refl;
      }
  outcome_justified issue rule (unchanged reason) considered registered inside proposed = tt

  judge_justified :
      (issue : RemediationIssueInput)
      → P issue
      → JustifiedVerdict (judge rules dataset config flags issue)
  unfolding judge
  judge_justified issue h = elim (Option-cases (rules issue.issue_type)) [
    | inl e ↦ rw e tt
    | inr (rule, e) ↦ elim (Bool-cases (row_in_dataset dataset issue.row_number)) [
      | inl f ↦ rw (e, f) (outcome_justified issue rule _ h e f refl)
      | inr f ↦ rw (e, f) tt
    ]
  ]

  add-Justified :
      (v : Verdict) (acc : List PendingChange × List SkippedIssue)
      → JustifiedVerdict v
      → All Justified acc.0
      → All Justified (add_verdict v acc).0
  add-Justified (change p) (pending, skipped) h k = (h, k)
  add-Justified (no_change s) (pending, skipped) h k = k

  judge_all-Justified :
      (issues : List RemediationIssueInput)
      → All P issues
      → All Justified (judge_all rules dataset config flags issues).0
  unfolding judge_all
  judge_all-Justified [] h = tt
  judge_all-Justified (issue ∷ issues) h =
      add-Justified (judge rules dataset config flags issue)
        (judge_all rules dataset config flags issues) (judge_justified issue h.0)
        (judge_all-Justified issues h.1)

  ceiling-Justified :
      (pending : List PendingChange) (limits : RemediationLimits)
      → All Justified pending
      → All Justified (apply_persisted_change_ceiling pending limits).0
  unfolding apply_persisted_change_ceiling
  ceiling-Justified pending limits h =
      elim (Bool-cases (leb (length pending) limits.max_persisted_changes)) [
        | inl e ↦ rw e h
        | inr e ↦ rw e (All-take Justified limits.max_persisted_changes pending h)
      ]

  proposals-Justified :
      (ps : List PendingChange)
      → All Justified ps
      → All (IsJustified rules dataset config flags P) (proposals ps)
  proposals-Justified [] h = tt
  proposals-Justified (p ∷ ps) h = (h.0, proposals-Justified ps h.1)

  -- Where all considered issues have a property `P` (such as standing in the list), every change
  -- of the result is what the registered rule proposed for an issue with `P` in the dataset, with
  -- that issue's identifier, row, column and original value; and the skipped issues stand in the
  -- order of their sort keys.
  pub remediate-IsJustified :
      (issues : List RemediationIssueInput) (limits : RemediationLimits)
      → All P issues
      → let r = remediate rules dataset issues config flags limits in
        All (IsJustified rules dataset config flags P) r.changes × IsSorted skipped_before r.skipped
  unfolding remediate finish
  remediate-IsJustified issues limits h =
      let (pending, skipped) = judge_all rules dataset config flags (sort_by issue_before issues) in
      let (kept, overflow) = apply_persisted_change_ceiling pending limits in
      (
        proposals-Justified kept (
            ceiling-Justified pending limits (
              judge_all-Justified (sort_by issue_before issues)
                (All-sort_by issue_before P issues h))),
        IsSorted-sort_by skipped_before (IsOrder-on skipped_sort_key key_ltb-IsOrder)
            (skipped ++ map overflow_skip overflow),
      )
