-- ===== src/Remediation/Tests.antt =====
-- The theorems on backend/app/remediation for a registry of one rule and four issues.
use ai_data_operations_emplo.Prelude.{
  ℕ, ◌+◌, ◌≤◌, ◌≡◌, refl, true, false, Option, none, some, List, [], ◌∷◌, length, if◌then◌else◌,
  tally, All,
}
use ai_data_operations_emplo.Prelude.Order.{IsSorted}
use ai_data_operations_emplo.Prelude.Texts.{Text, text_eq, codes}
use ai_data_operations_emplo.Prelude.Counts.{total, count_of}
use ai_data_operations_emplo.Remediation.Types.{
  RemediationDataset, RemediationIssueInput, RemediationColumnConfig, RemediationDatasetConfigInput,
  RemediationLimits, RemediationResult, RemediationRule, changed,
}
use ai_data_operations_emplo.Remediation.Engine.{skipped_before, remediate}
use ai_data_operations_emplo.Remediation.Partition.{
  is_issue, is_change, is_skipped, has_action, remediate_partition, remediate_bounds,
}
use ai_data_operations_emplo.Remediation.Soundness.{IsJustified, remediate-IsJustified}

abbrev fill : RemediationRule
fill = record {
  action = codes "fill_missing_value";
  propose = λ issue _ _. changed issue.suggested_fix (codes "suggested");
}

abbrev registry : Text → Option RemediationRule
registry t = if text_eq t (codes "missing_value") then some fill else none

abbrev issue : ℕ → ℕ → Text → RemediationIssueInput
issue i row issue_type = record {
  issue_id = i;
  row_number = row;
  column_name = some (codes "city");
  issue_type = issue_type;
  original_value = none;
  suggested_fix = some (codes "Oslo");
}

-- One that is remediable, one beyond the ceiling, one outside the dataset and one with no rule.
abbrev issues : List RemediationIssueInput
issues =
    issue 4 2 (codes "outlier")
    ∷ issue 3 9 (codes "missing_value")
    ∷ issue 2 3 (codes "missing_value")
    ∷ issue 1 2 (codes "missing_value")
    ∷ []

abbrev dataset : RemediationDataset
dataset = record { headers = codes "city" ∷ []; rows = ([] ∷ []) ∷ ([] ∷ []) ∷ [] }

abbrev no_config : Text → Option RemediationColumnConfig
no_config _ = none

abbrev flags : RemediationDatasetConfigInput
flags = record {
  remove_duplicate_rows_enabled = true;
  remove_duplicate_primary_keys_enabled = false;
}

abbrev limits : RemediationLimits
limits = record { max_persisted_changes = 1 }

abbrev outcome : RemediationResult
outcome = remediate registry dataset issues no_config flags limits

remediate_partition_example :
    ((i : ℕ)
      → tally (is_change i) outcome.changes + tally (is_skipped i) outcome.skipped
        ≡ tally (is_issue i) issues)
    × (outcome.issues_considered_count ≡ outcome.total_changes_count + outcome.issues_skipped_count)
    × (outcome.issues_considered_count ≡ length issues)
    × (outcome.total_changes_count ≡ length outcome.changes)
    × (outcome.issues_skipped_count ≡ length outcome.skipped)
remediate_partition_example = remediate_partition registry dataset issues no_config flags limits

remediate_bounds_example :
    (length outcome.changes ≤ limits.max_persisted_changes)
    × (total outcome.changes_by_action ≡ outcome.total_changes_count)
    × ((a : Text) → count_of a outcome.changes_by_action ≡ tally (has_action a) outcome.changes)
remediate_bounds_example = remediate_bounds registry dataset issues no_config flags limits

remediate-IsJustified_example :
    All
      (IsJustified registry dataset no_config flags (λ i. (i.suggested_fix ≡ some (codes "Oslo"))))
      outcome.changes
    × IsSorted skipped_before outcome.skipped
remediate-IsJustified_example =
    remediate-IsJustified registry dataset no_config flags
      (λ i. (i.suggested_fix ≡ some (codes "Oslo"))) issues limits
      (refl, (refl, (refl, (refl, tt))))
