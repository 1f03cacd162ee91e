-- ===== src/Quality/Findings.antt =====
-- The findings and the counts of `quality_control` (backend/app/quality/engine.py).
use ai_data_operations_emplo.Prelude.{
  ℕ, ◌+◌, ◌≡◌, refl, sym, ap, subst, ==_iff, ◌∙◌, ◌⊎◌, inl, inr, min, Bool, true, false, Option,
  some, List, [], ◌∷◌, ◌++◌, length, ◌==◌, if◌then◌else◌, tally, length-take, All, arith, drop,
  take-append-drop, All-append, Bool-cases,
}
use mathlib.Core.List.{append_assoc, append-nil}
use ai_data_operations_emplo.Prelude.Order.{
  sort_by, IsSorted, IsSorted-take, IsOrder, IsSorted-sort_by, length-sort_by, tally-sort_by,
  take-before-drop,
}
use ai_data_operations_emplo.Prelude.Texts.{
  Text, text_eq, codes, text_eq_iff, text_ltb-IsOrder, text_ltb_connected,
}
use ai_data_operations_emplo.Quality.Types.{
  Floats, QualityFindingResult, QualityEngineInput, QualityEngineResult, QualityCategory,
}
use ai_data_operations_emplo.Quality.Engine.{
  is_blocking, is_warning, is_info, key_before, finding_before, finding_sort_key,
  no_applicable_categories, effective_weight, Accumulators, nothing_yet, evaluate_categories,
  overall, asserted, engine_result, quality_control, skip_category, add_category,
}

key_before_asym : (s t : List Text) → key_before s t ≡ true → key_before t s ≡ false
unfolding key_before
key_before_asym s [] h = absurd (cc h)
key_before_asym [] (b ∷ t) h = refl
key_before_asym (a ∷ s) (b ∷ t) h =
    ground
      (arith, h, key_before_asym s t, text_ltb-IsOrder.asym a b, text_eq_iff a b, text_eq_iff b a)

key_before_incomparable :
    (s t u : List Text) → key_before t s ≡ false → key_before u t ≡ false → key_before u s ≡ false
unfolding key_before
key_before_incomparable [] t u h k = refl
key_before_incomparable (a ∷ s) [] u h k = absurd (cc h)
key_before_incomparable (a ∷ s) (b ∷ t) [] h k = absurd (cc k)
key_before_incomparable (a ∷ s) (b ∷ t) (c ∷ u) h k = ground (
  arith,
  h,
  k,
  key_before_incomparable s t u,
  text_ltb-IsOrder.incomparable a b c,
  text_ltb_connected a b,
  text_ltb_connected b c,
  text_ltb-IsOrder.asym a b,
  text_ltb-IsOrder.asym b c,
  text_eq_iff b a,
  text_eq_iff c b,
  text_eq_iff c a,
)

pub finding_before-IsOrder : IsOrder finding_before
finding_before-IsOrder = record {
  asym = λ f g. key_before_asym (finding_sort_key f) (finding_sort_key g);
  incomparable = λ f g h.
      key_before_incomparable (finding_sort_key f) (finding_sort_key g) (finding_sort_key h);
}

abbrev pub IsKnownSeverity : QualityFindingResult → Type 0
IsKnownSeverity f =
    (f.severity ≡ codes "blocking") ⊎ (f.severity ≡ codes "warning") ⊎ (f.severity ≡ codes "info")

one_severity :
    (f : QualityFindingResult)
    → IsKnownSeverity f
    → tally is_blocking (f ∷ []) + tally is_warning (f ∷ []) + tally is_info (f ∷ []) ≡ 1
unfolding text_eq
one_severity f (inl e) = rw e refl
one_severity f (inr (inl e)) = rw e refl
one_severity f (inr (inr e)) = rw e refl

All-counted :
    (findings : List QualityFindingResult)
    → All IsKnownSeverity findings
    → tally is_blocking findings + tally is_warning findings + tally is_info findings
      ≡ length findings
All-counted [] h = refl
All-counted (f ∷ findings) h = ground (arith, one_severity f h.0, All-counted findings h.1)

module _ (floats : Floats) (inputs : QualityEngineInput floats) where
  -- The findings of the applicable categories, in the order of the registry.
  unfoldable pub raised : List (QualityCategory floats) → List QualityFindingResult
  raised [] = []
  raised (rule ∷ rules) =
      if rule.is_applicable inputs
      then (rule.evaluate inputs).findings ++ raised rules
      else raised rules

  -- The effective weights of the applicable categories.
  unfoldable pub weight_of : List (QualityCategory floats) → ℕ
  weight_of [] = 0
  weight_of (rule ∷ rules) =
      if rule.is_applicable inputs
      then effective_weight rule.category_name rule.default_weight
          inputs.thresholds.category_weights
        + weight_of rules
      else weight_of rules

  abbrev pub reported : List (QualityCategory floats) → List QualityFindingResult
  reported rules = if weight_of rules == 0 then no_applicable_categories ∷ [] else raised rules

  pub loop-step :
      (rule : QualityCategory floats) (rules : List (QualityCategory floats))
      (acc : Accumulators floats) {b : Bool}
      → rule.is_applicable inputs ≡ b
      → evaluate_categories floats inputs (rule ∷ rules) acc
        ≡ evaluate_categories floats inputs rules
            (if b then add_category floats inputs rule acc else skip_category floats rule acc)
  unfolding evaluate_categories
  loop-step rule rules acc e =
      ap
        (λ b.
          evaluate_categories floats inputs rules
            (if b then add_category floats inputs rule acc else skip_category floats rule acc))
        e

  loop-findings :
      (rules : List (QualityCategory floats)) (acc : Accumulators floats)
      → (evaluate_categories floats inputs rules acc).all_findings
        ≡ acc.all_findings ++ raised rules
  unfolding evaluate_categories raised
  loop-findings [] acc = sym (append-nil acc.all_findings)
  loop-findings (rule ∷ rules) acc =
      let own = (rule.evaluate inputs).findings in
      elim (Bool-cases (rule.is_applicable inputs)) [
        | inl e ↦
            ap (λ a. a.all_findings) (loop-step rule rules acc e)
            ∙ loop-findings rules (add_category floats inputs rule acc)
            ∙ append_assoc acc.all_findings own (raised rules)
            ∙ ap (λ b. acc.all_findings ++ (if b then own ++ raised rules else raised rules))
                (sym e)
        | inr e ↦
            ap (λ a. a.all_findings) (loop-step rule rules acc e)
            ∙ loop-findings rules (skip_category floats rule acc)
            ∙ ap (λ b. acc.all_findings ++ (if b then own ++ raised rules else raised rules))
                (sym e)
      ]

  loop-weight :
      (rules : List (QualityCategory floats)) (acc : Accumulators floats)
      → (evaluate_categories floats inputs rules acc).weight_sum ≡ acc.weight_sum + weight_of rules
  unfolding evaluate_categories weight_of
  loop-weight [] acc = omega arith
  loop-weight (rule ∷ rules) acc = elim (Bool-cases (rule.is_applicable inputs)) [
    | inl e ↦ rw e (
        omega (
          arith,
          ap (λ a. a.weight_sum) (loop-step rule rules acc e),
          loop-weight rules (add_category floats inputs rule acc),
        ))
    | inr e ↦ rw e (
        ap (λ a. a.weight_sum) (loop-step rule rules acc e)
        ∙ loop-weight rules (skip_category floats rule acc))
  ]

  pub overall-findings :
      (rules : List (QualityCategory floats))
      → (overall floats (evaluate_categories floats inputs rules (nothing_yet floats))).1
        ≡ reported rules
  overall-findings rules =
      let weight : (evaluate_categories floats inputs rules (nothing_yet floats)).weight_sum
          ≡ weight_of rules =
        omega (arith, loop-weight rules (nothing_yet floats)) in
      rw (weight, loop-findings rules (nothing_yet floats))
        (elim (Bool-cases (weight_of rules == 0)) [ inl e ↦ rw e refl | inr e ↦ rw e refl ])

  raised-All :
      (rules : List (QualityCategory floats))
      → All (λ rule. All IsKnownSeverity (rule.evaluate inputs).findings) rules
      → All IsKnownSeverity (raised rules)
  unfolding raised
  raised-All [] h = tt
  raised-All (rule ∷ rules) h = elim (Bool-cases (rule.is_applicable inputs)) [
    | inl e ↦ rw e (
        All-append IsKnownSeverity (rule.evaluate inputs).findings (raised rules) h.0
          (raised-All rules h.1))
    | inr e ↦ rw e (raised-All rules h.1)
  ]

  pub reported-All :
      (rules : List (QualityCategory floats))
      → All (λ rule. All IsKnownSeverity (rule.evaluate inputs).findings) rules
      → All IsKnownSeverity (reported rules)
  reported-All rules h = elim (Bool-cases (weight_of rules == 0)) [
    | inl e ↦ rw e (inl refl, tt)
    | inr e ↦ rw e (raised-All rules h)
  ]

  -- `left` is what the cap cuts off the sorted findings.
  abbrev pub Stores : List QualityFindingResult → QualityEngineResult floats → Type 0
  Stores all_findings r =
      (left : List QualityFindingResult) × ((test : QualityFindingResult → Bool)
        → tally test (r.findings ++ left) ≡ tally test all_findings)
      × All (λ kept. All (λ f. finding_before f kept ≡ false) left) r.findings

  -- The result, for a list of findings of known severity.
  asserted_lem :
      (acc : Accumulators floats) (score : Option floats.Float)
      (findings listed : List QualityFindingResult)
      → findings ≡ listed
      → All IsKnownSeverity listed
      → (r : QualityEngineResult floats) × (asserted floats
            (engine_result floats inputs acc score findings)
          ≡ some r)
        × (r.total_findings ≡ r.blocking_count + r.warning_count + r.info_count)
        × (r.total_findings ≡ length listed)
        × (r.blocking_count ≡ tally is_blocking listed)
        × (r.warning_count ≡ tally is_warning listed)
        × (r.info_count ≡ tally is_info listed)
        × (length r.findings ≡ min inputs.limits.max_persisted_findings r.total_findings)
        × IsSorted finding_before r.findings
        × Stores listed r
  unfolding asserted
  asserted_lem acc score findings listed e h =
      let sum = All-counted findings (subst (All IsKnownSeverity) (sym e) h) in
      let sorted = sort_by finding_before findings in
      let in_order = IsSorted-sort_by finding_before finding_before-IsOrder findings in
      let cap = inputs.limits.max_persisted_findings in
      (
        engine_result floats inputs acc score findings,
        rw ((==_iff _ _).1 sum) refl,
        sym sum,
        ap length e,
        ap (tally is_blocking) e,
        ap (tally is_warning) e,
        ap (tally is_info) e,
        length-take cap sorted ∙ ap (min cap) (length-sort_by finding_before findings),
        IsSorted-take finding_before cap sorted in_order,
        (
          drop cap sorted,
          λ test.
              ap (tally test) (take-append-drop cap sorted)
              ∙ tally-sort_by finding_before test findings
              ∙ ap (tally test) e,
          take-before-drop finding_before finding_before-IsOrder cap sorted in_order,
        ),
      )

  -- If every finding of every category has one of the three severities, the assertion of
  -- `quality_control` does not fail: it returns a result whose three counts are the numbers of
  -- blocking, warning and info findings of the applicable categories (of the meta-finding alone, when
  -- their effective weights sum to 0) and add up to the total, which is the number of these findings.
  -- The stored findings are as many as the total and the cap allow, and they are sorted by the sort
  -- key. Together with what the cap leaves out they are these findings, each as often, and what it
  -- leaves out is nowhere before what is stored.
  pub quality_control_reconciles :
      (rules : List (QualityCategory floats))
      → All (λ rule. All IsKnownSeverity (rule.evaluate inputs).findings) rules
      → (r : QualityEngineResult floats) × (quality_control floats rules inputs ≡ some r)
        × (r.total_findings ≡ r.blocking_count + r.warning_count + r.info_count)
        × (r.total_findings ≡ length (reported rules))
        × (r.blocking_count ≡ tally is_blocking (reported rules))
        × (r.warning_count ≡ tally is_warning (reported rules))
        × (r.info_count ≡ tally is_info (reported rules))
        × (length r.findings ≡ min inputs.limits.max_persisted_findings r.total_findings)
        × IsSorted finding_before r.findings
        × Stores (reported rules) r
  unfolding quality_control
  quality_control_reconciles rules h =
      let acc = evaluate_categories floats inputs rules (nothing_yet floats) in
      asserted_lem acc (overall floats acc).0 (overall floats acc).1 (reported rules)
        (overall-findings rules) (reported-All rules h)
