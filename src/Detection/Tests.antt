-- ===== src/Detection/Tests.antt =====
-- The theorem on backend/app/detection for two detectors and a cap of one.
use ai_data_operations_emplo.Prelude.{
  ℕ, ◌≡◌, false, none, List, [], ◌∷◌, length, min, tally, drop, All,
}
use ai_data_operations_emplo.Prelude.Order.{sort_by, IsSorted}
use ai_data_operations_emplo.Prelude.Texts.{Text, codes}
use ai_data_operations_emplo.Prelude.Counts.{total, count_of}
use ai_data_operations_emplo.Detection.Engine.{
  DetectionLimits, Finding, DetectionDataset, DetectionResult, DetectionRule, finding_order,
  detect_issues,
}
use ai_data_operations_emplo.Detection.Totals.{found, of_severity, of_type, detect_issues_lem}

abbrev finding : ℕ → Text → Text → Finding ℕ ℕ
finding row issue_type severity = record {
  row_number = row;
  column_name = none;
  issue_type = issue_type;
  severity = severity;
  original_value = none;
  suggested_fix = none;
  confidence = 1;
}

abbrev rules : List (DetectionRule ℕ ℕ)
rules =
    record {
      issue_type = codes "missing_value";
      detect = λ _.
          finding 4 (codes "missing_value") (codes "LOW")
          ∷ finding 2 (codes "missing_value") (codes "LOW")
          ∷ [];
    }
    ∷ record {
      issue_type = codes "outlier";
      detect = λ _. finding 3 (codes "outlier") (codes "HIGH") ∷ [];
    }
    ∷ []

abbrev dataset : DetectionDataset ℕ ℕ
dataset = record {
  headers = codes "name" ∷ [];
  rows = [];
  structural_issues = [];
  column_rules = [];
}

abbrev limits : DetectionLimits
limits = record { max_persisted_issues = 1 }

abbrev result : DetectionResult ℕ ℕ
result = detect_issues ℕ ℕ rules dataset limits

detect_issues_example :
    (result.total_issues_found ≡ length (found ℕ ℕ dataset rules))
    × (total result.issues_by_severity ≡ result.total_issues_found)
    × (total result.issues_by_type ≡ result.total_issues_found)
    × ((key : Text)
        → count_of key result.issues_by_severity
          ≡ tally (of_severity ℕ ℕ key) (found ℕ ℕ dataset rules))
    × ((key : Text)
        → count_of key result.issues_by_type ≡ tally (of_type ℕ ℕ key) (found ℕ ℕ dataset rules))
    × (result.persisted_issue_count ≡ min limits.max_persisted_issues result.total_issues_found)
    × (result.persisted_issue_count ≡ length result.findings)
    × IsSorted (finding_order ℕ ℕ) result.findings
    × All
        (λ kept.
          All
            (λ left. finding_order ℕ ℕ left kept ≡ false)
            (drop limits.max_persisted_issues
              (sort_by (finding_order ℕ ℕ) (found ℕ ℕ dataset rules))))
        result.findings
detect_issues_example = detect_issues_lem ℕ ℕ rules dataset limits
