-- ===== src/Quality/Tests.antt =====
-- The theorems on backend/app/quality for two categories, of which one is skipped, over floats that
-- are natural numbers.
use ai_data_operations_emplo.Prelude.{
  All, ℕ, ◌+◌, ◌*◌, ◌/◌, ◌≡◌, ◌≢◌, ◌↔◌, refl, inl, inr, min, true, false, none, some, List, [], ◌∷◌,
  length, ltb, leb, tally,
}
use ai_data_operations_emplo.Prelude.Order.{IsSorted}
use ai_data_operations_emplo.Prelude.Texts.{text_eq, codes}
use ai_data_operations_emplo.Quality.Types.{
  Floats, QualityFindingResult, QualityEngineInput, QualityEngineResult, QualityCategory,
  QualityThresholdConfig, pass, fail,
}
use ai_data_operations_emplo.Prelude.Dicts.{get_key}
use ai_data_operations_emplo.Quality.Engine.{
  is_blocking, is_warning, is_info, finding_before, quality_control, asserted, evaluate_categories,
  nothing_yet, engine_result, effective_weight,
}
use ai_data_operations_emplo.Quality.Findings.{reported, Stores, quality_control_reconciles}
use ai_data_operations_emplo.Quality.Statuses.{
  IsDistinct, status_of, score_of, weight_used, category_statuses_lem,
}
use ai_data_operations_emplo.Quality.Release.{IsReleasable, IsClean, recommendation_lem}

abbrev whole : Floats
whole = record {
  Float = ℕ;
  zero_point_zero = 0;
  sixty = 60;
  eighty_five = 85;
  float = λ n. n;
  add = λ a b. a + b;
  multiply = λ a b. a * b;
  divide = λ a b. a / b;
  ratio = λ a b. a / b;
  lt = ltb;
  gt = λ a b. ltb b a;
  ge = λ a b. leb b a;
}

abbrev finding : QualityFindingResult
finding = record {
  category = codes "completeness";
  rule_name = codes "missing";
  rule_version = codes "1.0";
  severity = codes "warning";
  outcome = codes "failed";
  reason = codes "MISSING";
  affected_row_count = none;
  affected_column = none;
  source_issue_id = none;
  remediation_change_id = none;
  validation_result_id = none;
}

abbrev completeness : QualityCategory whole
completeness = record {
  category_name = codes "completeness";
  default_weight = 2;
  category_rule_version = codes "1.0";
  is_applicable = λ _. true;
  evaluate = λ _. record { score = 90; findings = finding ∷ finding ∷ [] };
}

abbrev integrity : QualityCategory whole
integrity = record {
  category_name = codes "referential_integrity";
  default_weight = 1;
  category_rule_version = codes "1.0";
  is_applicable = λ _. false;
  evaluate = λ _. record { score = 0; findings = [] };
}

abbrev rules : List (QualityCategory whole)
rules = completeness ∷ integrity ∷ []

abbrev thresholds : QualityThresholdConfig whole
thresholds = record {
  fail_score_threshold = 60;
  pass_score_threshold = 85;
  max_validation_failure_rate = 0;
  max_validation_skip_rate = 1;
  max_high_severity_unresolved = 0;
  max_critical_severity_unresolved = 0;
  max_warnings_for_clean_pass = 2;
  category_weights = none;
  threshold_config_id = none;
  threshold_config_source = codes "built_in_defaults";
}

abbrev inputs : QualityEngineInput whole
inputs = record {
  organization_id = 1;
  data_source_id = 2;
  validation_run = record {
    id = 3;
    approved_changes_considered = 4;
    passed_count = 4;
    failed_count = 0;
    skipped_count = 0;
    results_by_rule = [];
  };
  validation_results = [];
  issue_detection_run = record { id = 5; total_issues_found = 4 };
  data_profile = record {
    id = 6;
    row_count = 10;
    column_count = 2;
    duplicate_row_count = 0;
    missing_value_total = 1;
    source_sha256 = [];
  };
  effective_stats = record {
    effective_row_count = 10;
    effective_duplicate_row_count = 0;
    effective_missing_value_total = 1;
    unresolved_high_count = 0;
    unresolved_critical_count = 0;
    addressed_issue_count = 4;
  };
  issues = [];
  thresholds = thresholds;
  limits = record { max_persisted_findings = 1 };
}

quality_control_reconciles_example :
    (r : QualityEngineResult whole) × (quality_control whole rules inputs ≡ some r)
    × (r.total_findings ≡ r.blocking_count + r.warning_count + r.info_count)
    × (r.total_findings ≡ length (reported whole inputs rules))
    × (r.blocking_count ≡ tally is_blocking (reported whole inputs rules))
    × (r.warning_count ≡ tally is_warning (reported whole inputs rules))
    × (r.info_count ≡ tally is_info (reported whole inputs rules))
    × (length r.findings ≡ min inputs.limits.max_persisted_findings r.total_findings)
    × IsSorted finding_before r.findings
    × Stores whole inputs (reported whole inputs rules) r
quality_control_reconciles_example =
    quality_control_reconciles whole inputs rules ((inr (inl refl), (inr (inl refl), tt)), (tt, tt))

abbrev outcome : QualityEngineResult whole
outcome =
    engine_result whole inputs (evaluate_categories whole inputs rules (nothing_yet whole))
      (some 90) (finding ∷ finding ∷ [])

outcome-made : quality_control whole rules inputs ≡ some outcome
unfolding quality_control asserted evaluate_categories effective_weight text_eq
outcome-made = refl

recommendation_example :
    ((outcome.recommendation ≢ fail)
      ↔ IsReleasable whole inputs outcome.overall_score outcome.blocking_count)
    × ((outcome.recommendation ≡ pass) ↔ (
        (h : IsReleasable whole inputs outcome.overall_score outcome.blocking_count) × IsClean whole
          inputs h.score outcome.warning_count))
recommendation_example = recommendation_lem whole inputs rules outcome outcome-made

distinct : IsDistinct whole inputs rules
unfolding text_eq
distinct = ((refl, tt), (tt, tt))

category_statuses_example :
    All
      (λ q.
        (get_key q.category_name outcome.category_statuses ≡ some (status_of whole inputs q))
        × (get_key q.category_name outcome.category_scores ≡ score_of whole inputs q)
        × (get_key q.category_name outcome.category_weights_used ≡ weight_used whole inputs q))
      rules
category_statuses_example = category_statuses_lem whole inputs rules outcome distinct outcome-made
