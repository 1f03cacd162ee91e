-- ===== src/Remediation/Engine.antt =====
-- backend/app/remediation/engine.py, over any registry of rules.
use ai_data_operations_emplo.Prelude.{
  ℕ, ◌+◌, Bool, ◌&&◌, Option, none, some, List, [], ◌∷◌, ◌++◌, map, length, take, drop, leb,
  if◌then◌else◌,
}
use ai_data_operations_emplo.Prelude.Order.{sort_by}
use ai_data_operations_emplo.Prelude.Texts.{Text, text_or_empty, codes}
use ai_data_operations_emplo.Prelude.SortKeys.{SortKey, key_ltb}
use ai_data_operations_emplo.Prelude.Counts.{Counts, count_key}
use ai_data_operations_emplo.Remediation.Types.{
  RemediationDataset, RemediationIssueInput, RemediationColumnConfig, RemediationDatasetConfigInput,
  RemediationLimits, RuleOutcome, changed, unchanged, RemediationChangeProposal, SkippedIssue,
  RemediationResult, RemediationRule,
}

abbrev pub issue_type_not_remediable : Text
issue_type_not_remediable = codes "issue_type_not_remediable"

abbrev pub row_not_found_in_dataset : Text
row_not_found_in_dataset = codes "row_not_found_in_dataset"

abbrev pub persisted_change_limit_reached : Text
persisted_change_limit_reached = codes "persisted_change_limit_reached"

abbrev pub issue_sort_key : RemediationIssueInput → SortKey
issue_sort_key i = (i.row_number, text_or_empty i.column_name, i.issue_type)

abbrev pub skipped_sort_key : SkippedIssue → SortKey
skipped_sort_key s = (s.row_number, text_or_empty s.column_name, s.issue_type)

abbrev pub issue_before : RemediationIssueInput → RemediationIssueInput → Bool
issue_before a b = key_ltb (issue_sort_key a) (issue_sort_key b)

abbrev pub skipped_before : SkippedIssue → SkippedIssue → Bool
skipped_before a b = key_ltb (skipped_sort_key a) (skipped_sort_key b)

-- `_PendingChange`
pub record PendingChange : Type 0 where
  pub proposal : RemediationChangeProposal
  pub issue_type : Text

unfoldable pub skip : RemediationIssueInput → Text → SkippedIssue
skip issue reason = record {
  source_issue_id = issue.issue_id;
  row_number = issue.row_number;
  column_name = issue.column_name;
  issue_type = issue.issue_type;
  reason = reason;
}

-- `column_config.get(column_name) if column_name else None`: an empty name is falsy too.
abbrev pub resolved :
    (Text → Option RemediationColumnConfig) → Option Text → Option RemediationColumnConfig
resolved column_config none = none
resolved column_config (some []) = none
resolved column_config (some (c ∷ name)) = column_config (c ∷ name)

-- The verdict on one issue: a pending change or a skip.
pub data Verdict : Type 0 where
  change : PendingChange → Verdict
  no_change : SkippedIssue → Verdict

abbrev pub of_outcome : RemediationIssueInput → RemediationRule → RuleOutcome → Verdict
of_outcome issue rule (changed proposed_value reason) = change (record {
  proposal = record {
    source_issue_id = issue.issue_id;
    row_number = issue.row_number;
    column_name = issue.column_name;
    action = rule.action;
    original_value = issue.original_value;
    proposed_value = proposed_value;
    reason = reason;
  };
  issue_type = issue.issue_type;
})
of_outcome issue rule (unchanged skip_reason) = no_change (skip issue skip_reason)

-- The header is row 1 of the file.
unfoldable pub row_in_dataset : RemediationDataset → ℕ → Bool
row_in_dataset dataset row_number = leb 2 row_number && leb row_number (length dataset.rows + 1)

abbrev pub add_verdict :
    Verdict → List PendingChange × List SkippedIssue → List PendingChange × List SkippedIssue
add_verdict (change p) (pending, skipped) = (p ∷ pending, skipped)
add_verdict (no_change s) (pending, skipped) = (pending, s ∷ skipped)

module _ (get_rule_for_issue_type : Text → Option RemediationRule) (dataset : RemediationDataset)
    (column_config : Text → Option RemediationColumnConfig)
    (dataset_config : RemediationDatasetConfigInput) where
  abbrev pub with_rule : RemediationIssueInput → Option RemediationRule → Verdict
  with_rule issue none = no_change (skip issue issue_type_not_remediable)
  with_rule issue (some rule) =
      if row_in_dataset dataset issue.row_number
      then of_outcome issue rule
          (rule.propose issue (resolved column_config issue.column_name) dataset_config)
      else no_change (skip issue row_not_found_in_dataset)

  unfoldable pub judge : RemediationIssueInput → Verdict
  judge issue = with_rule issue (get_rule_for_issue_type issue.issue_type)

  -- The loop over the sorted issues.
  unfoldable pub judge_all : List RemediationIssueInput → List PendingChange × List SkippedIssue
  judge_all [] = ([], [])
  judge_all (issue ∷ issues) = add_verdict (judge issue) (judge_all issues)

unfoldable pub apply_persisted_change_ceiling :
    List PendingChange → RemediationLimits → List PendingChange × List PendingChange
apply_persisted_change_ceiling pending limits =
    if leb (length pending) limits.max_persisted_changes
    then (pending, [])
    else (take limits.max_persisted_changes pending, drop limits.max_persisted_changes pending)

unfoldable pub overflow_skip : PendingChange → SkippedIssue
overflow_skip p = record {
  source_issue_id = p.proposal.source_issue_id;
  row_number = p.proposal.row_number;
  column_name = p.proposal.column_name;
  issue_type = p.issue_type;
  reason = persisted_change_limit_reached;
}

-- `for proposal in changes: changes_by_action[action] = get(action, 0) + 1`
unfoldable pub count_actions : List RemediationChangeProposal → Counts → Counts
count_actions [] counts = counts
count_actions (p ∷ ps) counts = count_actions ps (count_key p.action counts)

abbrev pub proposals : List PendingChange → List RemediationChangeProposal
proposals = map (λ p. p.proposal)

unfoldable pub finish :
    ℕ → List PendingChange × List PendingChange → List SkippedIssue → RemediationResult
finish considered (kept, overflow) skipped =
    let all_skipped = sort_by skipped_before (skipped ++ map overflow_skip overflow) in
    record {
      changes = proposals kept;
      skipped = all_skipped;
      issues_considered_count = considered;
      total_changes_count = length (proposals kept);
      issues_skipped_count = length all_skipped;
      changes_by_action = count_actions (proposals kept) [];
    }

unfoldable pub remediate :
    (Text → Option RemediationRule)
    → RemediationDataset
    → List RemediationIssueInput
    → (Text → Option RemediationColumnConfig)
    → RemediationDatasetConfigInput
    → RemediationLimits
    → RemediationResult
remediate get_rule_for_issue_type dataset issues column_config dataset_config limits =
    let (pending, skipped) =
      judge_all get_rule_for_issue_type dataset column_config dataset_config
        (sort_by issue_before issues) in
    finish (length issues) (apply_persisted_change_ceiling pending limits) skipped
