-- ===== src/Detection/Totals.antt =====
-- The findings and the summaries of `detect_issues` (backend/app/detection/engine.py).
use ai_data_operations_emplo.Prelude.{
  ◌+◌, ◌≡◌, refl, sym, ap, ◌∙◌, min, Bool, false, List, [], ◌∷◌, ◌++◌, length, drop, tally, All,
  arith, length-take,
}
use mathlib.Core.List.{append_assoc, append-nil}
use ai_data_operations_emplo.Prelude.Order.{
  sort_by, IsSorted, IsSorted-take, IsSorted-sort_by, length-sort_by, tally-sort_by,
  take-before-drop,
}
use ai_data_operations_emplo.Prelude.SortKeys.{key_ltb-IsOrder, IsOrder-on}
use ai_data_operations_emplo.Prelude.Texts.{Text, text_eq}
use ai_data_operations_emplo.Prelude.Counts.{
  Counts, count_key, count_of, total, total-count_key, count_of-count_key,
}
use ai_data_operations_emplo.Detection.Engine.{
  DetectionLimits, Finding, DetectionDataset, DetectionRule, sort_key, finding_order, collect,
  summarize, detect_issues,
}

module _ (Float StructuralIssue : Type 0) where
  abbrev pub of_severity : Text → Finding Float StructuralIssue → Bool
  of_severity s f = text_eq f.severity s

  abbrev pub of_type : Text → Finding Float StructuralIssue → Bool
  of_type t f = text_eq f.issue_type t

  -- What the detectors yield, in the order of the registry.
  unfoldable pub found :
      DetectionDataset Float StructuralIssue
      → List (DetectionRule Float StructuralIssue)
      → List (Finding Float StructuralIssue)
  found dataset [] = []
  found dataset (rule ∷ rules) = rule.detect dataset ++ found dataset rules

  collect-found :
      (dataset : DetectionDataset Float StructuralIssue)
      (rules : List (DetectionRule Float StructuralIssue))
      (findings : List (Finding Float StructuralIssue))
      → collect Float StructuralIssue dataset rules findings ≡ findings ++ found dataset rules
  unfolding collect found
  collect-found dataset [] findings = sym (append-nil findings)
  collect-found dataset (rule ∷ rules) findings =
      collect-found dataset rules (findings ++ rule.detect dataset)
      ∙ append_assoc findings (rule.detect dataset) (found dataset rules)

  summarize-total :
      (findings : List (Finding Float StructuralIssue)) (by_severity by_type : Counts)
      → let counts = summarize Float StructuralIssue findings (by_severity, by_type) in
        (total counts.0 ≡ total by_severity + length findings)
        × (total counts.1 ≡ total by_type + length findings)
  unfolding summarize
  summarize-total [] by_severity by_type = (omega arith, omega arith)
  summarize-total (f ∷ findings) by_severity by_type =
      let (s, t) =
        summarize-total findings (count_key f.severity by_severity)
          (count_key f.issue_type by_type) in
      (
        omega (arith, s, total-count_key f.severity by_severity),
        omega (arith, t, total-count_key f.issue_type by_type),
      )

  summarize-count :
      (key : Text) (findings : List (Finding Float StructuralIssue)) (by_severity by_type : Counts)
      → let counts = summarize Float StructuralIssue findings (by_severity, by_type) in
        (count_of key counts.0 ≡ count_of key by_severity + tally (of_severity key) findings)
        × (count_of key counts.1 ≡ count_of key by_type + tally (of_type key) findings)
  unfolding summarize
  summarize-count key [] by_severity by_type = (omega arith, omega arith)
  summarize-count key (f ∷ findings) by_severity by_type =
      let (s, t) =
        summarize-count key findings (count_key f.severity by_severity)
          (count_key f.issue_type by_type) in
      (
        ground (arith, s, count_of-count_key f.severity key by_severity),
        ground (arith, t, count_of-count_key f.issue_type key by_type),
      )

  -- The total is the number of findings that the detectors yield, and both summaries count all of
  -- them: each adds up to the total, and each entry is the number of findings with that severity or
  -- type. As many findings are stored as the total and the cap allow, they are sorted by the sort
  -- key, and what the cap leaves out is nowhere before what is stored.
  pub detect_issues_lem :
      (rules : List (DetectionRule Float StructuralIssue))
      (dataset : DetectionDataset Float StructuralIssue) (limits : DetectionLimits)
      → let r = detect_issues Float StructuralIssue rules dataset limits in
        let all_findings = found dataset rules in
        let before = finding_order Float StructuralIssue in
        (r.total_issues_found ≡ length all_findings)
        × (total r.issues_by_severity ≡ r.total_issues_found)
        × (total r.issues_by_type ≡ r.total_issues_found)
        × ((key : Text) → count_of key r.issues_by_severity ≡ tally (of_severity key) all_findings)
        × ((key : Text) → count_of key r.issues_by_type ≡ tally (of_type key) all_findings)
        × (r.persisted_issue_count ≡ min limits.max_persisted_issues r.total_issues_found)
        × (r.persisted_issue_count ≡ length r.findings)
        × IsSorted before r.findings
        × All
            (λ kept.
              All
                (λ left. before left kept ≡ false)
                (drop limits.max_persisted_issues (sort_by before all_findings)))
            r.findings
  unfolding detect_issues total count_of
  detect_issues_lem rules dataset limits =
      let before = finding_order Float StructuralIssue in
      let order = IsOrder-on (sort_key Float StructuralIssue) key_ltb-IsOrder in
      let yielded = collect Float StructuralIssue dataset rules [] in
      let same : yielded ≡ found dataset rules = collect-found dataset rules [] in
      let sorted = sort_by before yielded in
      let (severities, types) = summarize-total sorted [] [] in
      let cap = limits.max_persisted_issues in
      (
        length-sort_by before yielded ∙ ap length same,
        omega (arith, severities),
        omega (arith, types),
        λ key. omega (
          arith,
          (summarize-count key sorted [] []).0,
          tally-sort_by before (of_severity key) yielded,
          ap (tally (of_severity key)) same,
        ),
        λ key. omega (
          arith,
          (summarize-count key sorted [] []).1,
          tally-sort_by before (of_type key) yielded,
          ap (tally (of_type key)) same,
        ),
        length-take cap sorted,
        refl,
        IsSorted-take before cap sorted (IsSorted-sort_by before order yielded),
        rw (← same)
            (take-before-drop before order cap sorted (IsSorted-sort_by before order yielded)),
      )
