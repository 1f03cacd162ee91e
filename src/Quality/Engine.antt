-- ===== src/Quality/Engine.antt =====
-- backend/app/quality/engine.py, over any floats and any registry of categories.
use ai_data_operations_emplo.Prelude.{
  ℕ, ◌+◌, Bool, true, false, not, ◌&&◌, ◌||◌, Option, none, some, List, [], ◌∷◌, ◌++◌, length, ltb,
  leb, ◌==◌, if◌then◌else◌, any, tally, take,
}
use ai_data_operations_emplo.Prelude.Order.{sort_by}
use ai_data_operations_emplo.Prelude.Texts.{Text, text_eq, text_ltb, codes}
use ai_data_operations_emplo.Prelude.Dicts.{set_key, get_key}
use ai_data_operations_emplo.Quality.Types.{
  Floats, ℤ, pos, negsuc, QualityFindingResult, CategoryStatus, passed, warning, failed, skipped,
  Recommendation, pass, pass_with_warnings, fail, QualityThresholdConfig, QualityEngineInput,
  QualityEngineResult, QualityCategory, ValidationRunSnapshot,
}

abbrev pub has_severity : Text → QualityFindingResult → Bool
has_severity severity f = text_eq f.severity severity

abbrev pub is_blocking : QualityFindingResult → Bool
is_blocking = has_severity (codes "blocking")

abbrev pub is_warning : QualityFindingResult → Bool
is_warning = has_severity (codes "warning")

abbrev pub is_info : QualityFindingResult → Bool
is_info = has_severity (codes "info")

abbrev positive_or : ℕ → Option ℤ → ℕ
positive_or default_weight none = default_weight
positive_or default_weight (some (pos n)) = if ltb 0 n then n else default_weight
positive_or default_weight (some (negsuc n)) = default_weight

unfoldable pub effective_weight : Text → ℕ → Option (List (Text × ℤ)) → ℕ
effective_weight category_name default_weight none = default_weight
effective_weight category_name default_weight (some overrides) =
    positive_or default_weight (get_key category_name overrides)

-- `affected_column or "\xff"`
abbrev pub column_or_last : Option Text → Text
column_or_last none = 255 ∷ []
column_or_last (some []) = 255 ∷ []
column_or_last (some (c ∷ name)) = c ∷ name

abbrev pub finding_sort_key : QualityFindingResult → List Text
finding_sort_key f = f.category ∷ f.rule_name ∷ column_or_last f.affected_column ∷ f.reason ∷ []

-- `<` of tuples: by the first component that differs.
unfoldable pub key_before : List Text → List Text → Bool
key_before _ [] = false
key_before [] (t ∷ ts) = true
key_before (s ∷ ss) (t ∷ ts) = if text_eq s t then key_before ss ts else text_ltb s t

abbrev pub finding_before : QualityFindingResult → QualityFindingResult → Bool
finding_before f g = key_before (finding_sort_key f) (finding_sort_key g)

abbrev pub no_applicable_categories : QualityFindingResult
no_applicable_categories = record {
  category = codes "quality_control";
  rule_name = codes "no_applicable_categories";
  rule_version = codes "1.0";
  severity = codes "blocking";
  outcome = codes "failed";
  reason = codes "NO_APPLICABLE_CATEGORIES";
  affected_row_count = none;
  affected_column = none;
  source_issue_id = none;
  remediation_change_id = none;
  validation_result_id = none;
}

module _ (floats : Floats) where
  unfoldable pub category_status : floats.Float → List QualityFindingResult → CategoryStatus
  category_status score findings =
      let has_blocking = any is_blocking findings in
      let has_warning = any is_warning findings in
      if has_blocking || floats.lt score floats.sixty
      then failed
      else (if floats.ge score floats.eighty_five && not has_warning then passed else warning)

  -- The fourth FAIL condition: the rate is not computed when nothing was considered.
  abbrev pub fails_validation : ValidationRunSnapshot → QualityThresholdConfig floats → Bool
  fails_validation run thresholds =
      ltb 0 run.approved_changes_considered
      && floats.gt (floats.ratio run.failed_count run.approved_changes_considered)
          thresholds.max_validation_failure_rate

  abbrev pub recommend_score : floats.Float → ℕ → ℕ → QualityEngineInput floats → Recommendation
  recommend_score overall_score blocking_count warning_count inputs =
      if ltb 0 blocking_count
      then fail
      else (if floats.lt overall_score inputs.thresholds.fail_score_threshold
          then fail
          else (if fails_validation inputs.validation_run inputs.thresholds
              then fail
              else (if ltb inputs.thresholds.max_critical_severity_unresolved
                    inputs.effective_stats.unresolved_critical_count
                  then fail
                  else (if ltb inputs.thresholds.max_high_severity_unresolved
                        inputs.effective_stats.unresolved_high_count
                      then fail
                      else (if floats.ge overall_score inputs.thresholds.pass_score_threshold
                            && leb warning_count inputs.thresholds.max_warnings_for_clean_pass
                          then pass
                          else pass_with_warnings)))))

  unfoldable pub compute_recommendation :
      Option floats.Float → ℕ → ℕ → QualityEngineInput floats → Recommendation
  compute_recommendation none blocking_count warning_count inputs = fail
  compute_recommendation (some score) blocking_count warning_count inputs =
      recommend_score score blocking_count warning_count inputs

  -- The accumulators of the loop over the categories.
  pub record Accumulators : Type 0 where
    pub all_findings : List QualityFindingResult
    pub category_scores : List (Text × floats.Float)
    pub category_statuses : List (Text × CategoryStatus)
    pub category_weights_used : List (Text × floats.Float)
    pub weighted_score_sum : floats.Float
    pub weight_sum : ℕ

  abbrev pub nothing_yet : Accumulators
  nothing_yet = record {
    all_findings = [];
    category_scores = [];
    category_statuses = [];
    category_weights_used = [];
    weighted_score_sum = floats.zero_point_zero;
    weight_sum = 0;
  }

  abbrev pub skip_category : QualityCategory floats → Accumulators → Accumulators
  skip_category rule acc = record acc {
    category_statuses = set_key rule.category_name skipped acc.category_statuses;
  }

  abbrev pub add_category :
      QualityEngineInput floats → QualityCategory floats → Accumulators → Accumulators
  add_category inputs rule acc =
      let result = rule.evaluate inputs in
      let status = category_status result.score result.findings in
      let eff_weight =
        effective_weight rule.category_name rule.default_weight
          inputs.thresholds.category_weights in
      record {
        all_findings = acc.all_findings ++ result.findings;
        category_scores = set_key rule.category_name result.score acc.category_scores;
        category_statuses = set_key rule.category_name status acc.category_statuses;
        category_weights_used =
            set_key rule.category_name (floats.float eff_weight) acc.category_weights_used;
        weighted_score_sum =
            floats.add acc.weighted_score_sum
              (floats.multiply result.score (floats.float eff_weight));
        weight_sum = acc.weight_sum + eff_weight;
      }

  -- The loop over QUALITY_RULES.
  unfoldable pub evaluate_categories :
      QualityEngineInput floats → List (QualityCategory floats) → Accumulators → Accumulators
  evaluate_categories inputs [] acc = acc
  evaluate_categories inputs (rule ∷ rules) acc =
      evaluate_categories inputs rules
        (if rule.is_applicable inputs then add_category inputs rule acc else skip_category rule acc)

  -- Both results of `if weight_sum == 0`.
  abbrev pub overall : Accumulators → Option floats.Float × List QualityFindingResult
  overall acc = if acc.weight_sum == 0 then (none, no_applicable_categories ∷ []) else (
    some (floats.divide acc.weighted_score_sum (floats.float acc.weight_sum)),
    acc.all_findings,
  )

  -- The counts and the QualityEngineResult.
  abbrev pub engine_result :
      QualityEngineInput floats
      → Accumulators
      → Option floats.Float
      → List QualityFindingResult
      → QualityEngineResult floats
  engine_result inputs acc overall_score findings =
      let blocking_count = tally is_blocking findings in
      let warning_count = tally is_warning findings in
      record {
        overall_score = overall_score;
        recommendation = compute_recommendation overall_score blocking_count warning_count inputs;
        findings = take inputs.limits.max_persisted_findings (sort_by finding_before findings);
        total_findings = length findings;
        blocking_count = blocking_count;
        warning_count = warning_count;
        info_count = tally is_info findings;
        category_scores = acc.category_scores;
        category_statuses = acc.category_statuses;
        category_weights_used = acc.category_weights_used;
      }

  -- The assertion on the counts: `none` is an AssertionError.
  unfoldable pub asserted : QualityEngineResult floats → Option (QualityEngineResult floats)
  asserted r =
      if r.blocking_count + r.warning_count + r.info_count == r.total_findings then some r else none

  unfoldable pub quality_control :
      List (QualityCategory floats)
      → QualityEngineInput floats
      → Option (QualityEngineResult floats)
  quality_control quality_rules inputs =
      let acc = evaluate_categories inputs quality_rules nothing_yet in
      let (overall_score, findings) = overall acc in
      asserted (engine_result inputs acc overall_score findings)
