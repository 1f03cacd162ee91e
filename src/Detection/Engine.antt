-- ===== src/Detection/Engine.antt =====
-- backend/app/detection/engine.py, types.py and base.py, over any registry of detectors. Floats and
-- the dictionaries of structural issues, which the engine does not look into, are parameters.
use ai_data_operations_emplo.Prelude.{ℕ, Bool, Option, List, [], ◌∷◌, ◌++◌, length, take}
use ai_data_operations_emplo.Prelude.Order.{sort_by}
use ai_data_operations_emplo.Prelude.SortKeys.{SortKey, key_ltb}
use ai_data_operations_emplo.Prelude.Texts.{Text, text_or_empty}
use ai_data_operations_emplo.Prelude.Counts.{Counts, count_key}

pub record DetectionLimits : Type 0 where
  pub max_persisted_issues : ℕ

module _ (Float StructuralIssue : Type 0) where
  pub record ColumnRuleConfig : Type 0 where
    pub expected_type : Option Text
    pub is_required : Bool
    pub is_primary_key : Bool
    pub allowed_values : Option (List Text)
    pub outlier_enabled : Bool
    pub outlier_zscore_threshold : Option Float
    pub capitalization_check_enabled : Bool

  pub record Finding : Type 0 where
    pub row_number : ℕ
    pub column_name : Option Text
    pub issue_type : Text
    pub severity : Text
    pub original_value : Option Text
    pub suggested_fix : Option Text
    pub confidence : Float

  pub record DetectionDataset : Type 0 where
    pub headers : List Text
    pub rows : List (List Text)
    pub structural_issues : List StructuralIssue
    pub column_rules : List (Text × ColumnRuleConfig)

  pub record DetectionResult : Type 0 where
    pub findings : List Finding
    pub total_issues_found : ℕ
    pub persisted_issue_count : ℕ
    pub issues_by_severity : Counts
    pub issues_by_type : Counts
    pub rows_scanned : ℕ
    pub columns_scanned : ℕ

  -- The interface of base.py that every detector implements; what `detect` yields is a list.
  pub record DetectionRule : Type 0 where
    pub issue_type : Text
    pub detect : DetectionDataset → List Finding

  abbrev pub sort_key : Finding → SortKey
  sort_key finding = (finding.row_number, text_or_empty finding.column_name, finding.issue_type)

  abbrev pub finding_order : Finding → Finding → Bool
  finding_order a b = key_ltb (sort_key a) (sort_key b)

  -- The loop over DETECTION_RULES.
  unfoldable pub collect : DetectionDataset → List DetectionRule → List Finding → List Finding
  collect dataset [] all_findings = all_findings
  collect dataset (rule ∷ rules) all_findings =
      collect dataset rules (all_findings ++ rule.detect dataset)

  -- The summary loop: both dictionaries, by severity and by type.
  unfoldable pub summarize : List Finding → Counts × Counts → Counts × Counts
  summarize [] counts = counts
  summarize (finding ∷ findings) (by_severity, by_type) =
      summarize findings
        (count_key finding.severity by_severity, count_key finding.issue_type by_type)

  unfoldable pub detect_issues :
      List DetectionRule → DetectionDataset → DetectionLimits → DetectionResult
  detect_issues detection_rules dataset limits =
      let all_findings = sort_by finding_order (collect dataset detection_rules []) in
      let persisted_findings = take limits.max_persisted_issues all_findings in
      let (by_severity, by_type) = summarize all_findings ([], []) in
      record {
        findings = persisted_findings;
        total_issues_found = length all_findings;
        persisted_issue_count = length persisted_findings;
        issues_by_severity = by_severity;
        issues_by_type = by_type;
        rows_scanned = length dataset.rows;
        columns_scanned = length dataset.headers;
      }
