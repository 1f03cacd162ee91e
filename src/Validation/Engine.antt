-- ===== src/Validation/Engine.antt =====
-- backend/app/validation/engine.py, over any registry of rules.
use ai_data_operations_emplo.Prelude.{
  ℕ, ◌+◌, Bool, Option, none, some, List, [], ◌∷◌, ◌++◌, length, leb, ltb, ◌==◌, if◌then◌else◌,
}
use ai_data_operations_emplo.Prelude.Order.{sort_by}
use ai_data_operations_emplo.Prelude.Texts.{Text, text_eq, text_ltb, text_or_empty, codes}
use ai_data_operations_emplo.Prelude.Counts.{Counts, count_key}
use ai_data_operations_emplo.Validation.Types.{
  ValidationChangeInput, ValidationColumnConfig, ValidationOutcome, passed, failed, skipped,
  ValidationResultItem, ValidationLimits, ValidationRunResult, ValidationRule,
}

abbrev pub action_not_recognised : Text
action_not_recognised = codes "action_not_recognised"

abbrev pub result_limit_reached : Text
result_limit_reached = codes "result_limit_reached"

-- The sort key `(row_number, column_name or "", action)`.
unfoldable pub change_before : ValidationChangeInput → ValidationChangeInput → Bool
change_before a b =
    let (s, t) : Text × Text = (text_or_empty a.column_name, text_or_empty b.column_name) in
    if a.row_number == b.row_number
    then (if text_eq s t then text_ltb a.action b.action else text_ltb s t)
    else ltb a.row_number b.row_number

-- The loop's variables.
pub record Progress : Type 0 where
  pub results : List ValidationResultItem
  pub passed_count : ℕ
  pub failed_count : ℕ
  pub skipped_count : ℕ
  pub results_by_rule : Counts

unfoldable pub result_item :
    ValidationChangeInput → Text → Text → ValidationOutcome → Text → ValidationResultItem
result_item change rule_name rule_version outcome reason = record {
  change_id = change.change_id;
  source_issue_id = change.source_issue_id;
  row_number = change.row_number;
  column_name = change.column_name;
  validation_rule = rule_name;
  outcome = outcome;
  reason = reason;
  original_value = change.original_value;
  proposed_value = change.proposed_value;
  validation_rule_version = rule_version;
}

-- The three branches on `rule_outcome.outcome`.
abbrev pub count_outcome : ValidationOutcome → Progress → Progress
count_outcome passed p = record p { passed_count = p.passed_count + 1 }
count_outcome failed p = record p { failed_count = p.failed_count + 1 }
count_outcome skipped p = record p { skipped_count = p.skipped_count + 1 }

abbrev pub add_item : ValidationResultItem → Progress → Progress
add_item item p = count_outcome item.outcome (record p { results = p.results ++ item ∷ [] })

abbrev pub count_rule : Text → Progress → Progress
count_rule rule_name p = record p { results_by_rule = count_key rule_name p.results_by_rule }

-- `column_config.get(column_name) if column_name else None`
abbrev pub resolved :
    (Text → Option ValidationColumnConfig) → Option Text → Option ValidationColumnConfig
resolved column_config none = none
resolved column_config (some []) = none
resolved column_config (some (c ∷ name)) = column_config (c ∷ name)

abbrev pub unrecognised_item : ValidationChangeInput → ValidationResultItem
unrecognised_item change = result_item change [] [] skipped action_not_recognised

abbrev pub over_limit_item : ValidationChangeInput → ValidationRule → ValidationResultItem
over_limit_item change rule =
    result_item change rule.rule_name rule.rule_version skipped result_limit_reached

abbrev pub judged_item :
    (Text → Option ValidationColumnConfig)
    → ValidationChangeInput
    → ValidationRule
    → ValidationResultItem
judged_item column_config change rule =
    let verdict = rule.validate change (resolved column_config change.column_name) in
    result_item change rule.rule_name rule.rule_version verdict.outcome verdict.reason

module _ (get_rule_for_action : Text → Option ValidationRule)
    (column_config : Text → Option ValidationColumnConfig) (limits : ValidationLimits) where
  abbrev pub with_rule : ValidationChangeInput → Progress → Option ValidationRule → Progress
  with_rule change p none = add_item (unrecognised_item change) p
  with_rule change p (some rule) =
      if leb limits.max_persisted_results (length p.results)
      then count_rule rule.rule_name (add_item (over_limit_item change rule) p)
      else count_rule rule.rule_name (add_item (judged_item column_config change rule) p)

  -- One round of the loop.
  unfoldable pub validate_one : ValidationChangeInput → Progress → Progress
  validate_one change p = with_rule change p (get_rule_for_action change.action)

  unfoldable pub validate_loop : List ValidationChangeInput → Progress → Progress
  validate_loop [] p = p
  validate_loop (change ∷ changes) p = validate_loop changes (validate_one change p)

abbrev pub no_progress : Progress
no_progress = record {
  results = [];
  passed_count = 0;
  failed_count = 0;
  skipped_count = 0;
  results_by_rule = [];
}

-- The assertion, and the result.
unfoldable pub checked_result : ℕ → Progress → Option ValidationRunResult
checked_result considered p =
    if p.passed_count + p.failed_count + p.skipped_count == considered
    then some (record {
      results = p.results;
      approved_changes_considered = considered;
      passed_count = p.passed_count;
      failed_count = p.failed_count;
      skipped_count = p.skipped_count;
      results_by_rule = p.results_by_rule;
    })
    else none

-- `none` is an AssertionError.
unfoldable pub validate :
    (Text → Option ValidationRule)
    → List ValidationChangeInput
    → (Text → Option ValidationColumnConfig)
    → ValidationLimits
    → Option ValidationRunResult
validate get_rule_for_action changes column_config limits =
    let sorted_changes = sort_by change_before changes in
    checked_result (length sorted_changes)
      (validate_loop get_rule_for_action column_config limits sorted_changes no_progress)
