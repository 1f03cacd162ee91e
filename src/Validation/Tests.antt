-- ===== src/Validation/Tests.antt =====
-- The theorem on backend/app/validation for a registry of one rule, with a ceiling that one change exceeds.
use ai_data_operations_emplo.Prelude.{
  ℕ, ◌+◌, ◌≤◌, ◌≡◌, Option, none, some, List, [], ◌∷◌, length, if◌then◌else◌, tally,
}
use ai_data_operations_emplo.Prelude.Texts.{Text, text_eq, codes}
use ai_data_operations_emplo.Prelude.Counts.{total}
use ai_data_operations_emplo.Validation.Types.{
  ValidationChangeInput, ValidationColumnConfig, ValidationLimits, ValidationRunResult,
  ValidationRule, passed,
}
use ai_data_operations_emplo.Validation.Engine.{validate}
use ai_data_operations_emplo.Validation.Reconcile.{
  is_passed, is_failed, is_skipped, is_result, is_change, validate_reconciles,
}

abbrev present : ValidationRule
present = record {
  rule_name = codes "value_present";
  rule_version = codes "1.0";
  validate = λ _ _. record { outcome = passed; reason = codes "ok" };
}

abbrev registry : Text → Option ValidationRule
registry t = if text_eq t (codes "fill_missing_value") then some present else none

abbrev no_config : Text → Option ValidationColumnConfig
no_config _ = none

abbrev change : ℕ → ℕ → Text → ValidationChangeInput
change i row action = record {
  change_id = i;
  source_issue_id = i;
  row_number = row;
  column_name = some (codes "city");
  action = action;
  original_value = none;
  proposed_value = some (codes "Oslo");
}

abbrev changes : List ValidationChangeInput
changes =
    change 3 4 (codes "fill_missing_value")
    ∷ change 2 3 (codes "drop_row")
    ∷ change 1 2 (codes "fill_missing_value")
    ∷ []

abbrev limits : ValidationLimits
limits = record { max_persisted_results = 2 }

validate_reconciles_example :
    (r : ValidationRunResult) × (validate registry changes no_config limits ≡ some r)
    × (r.approved_changes_considered ≡ length changes)
    × (length r.results ≡ length changes)
    × ((i : ℕ) → tally (is_result i) r.results ≡ tally (is_change i) changes)
    × (r.passed_count + r.failed_count + r.skipped_count ≡ length changes)
    × (r.passed_count ≡ tally is_passed r.results)
    × (r.failed_count ≡ tally is_failed r.results)
    × (r.skipped_count ≡ tally is_skipped r.results)
    × (r.passed_count + r.failed_count ≤ limits.max_persisted_results)
    × (total r.results_by_rule ≤ length changes)
validate_reconciles_example = validate_reconciles registry no_config limits changes
