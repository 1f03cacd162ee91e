-- ===== src/Quality/Statuses.antt =====
-- The dictionaries by category of `quality_control` (backend/app/quality/engine.py).
use ai_data_operations_emplo.Prelude.{
  ◌≡◌, refl, inl, inr, true, false, Option, none, some, List, [], ◌∷◌, if◌then◌else◌, arith, All,
  All-map_implies, Bool-cases,
}
use ai_data_operations_emplo.Prelude.Texts.{Text, text_eq, text_eq_iff}
use ai_data_operations_emplo.Quality.Types.{
  Floats, CategoryStatus, skipped, QualityEngineInput, QualityEngineResult, QualityCategory,
}
use ai_data_operations_emplo.Prelude.Dicts.{get_key, get_key-set_key}
use ai_data_operations_emplo.Quality.Engine.{
  category_status, effective_weight, Accumulators, nothing_yet, skip_category, add_category,
  evaluate_categories, quality_control, overall, engine_result,
}
use ai_data_operations_emplo.Quality.Release.{asserted-some}

text_eq_sym : (s t : Text) → text_eq s t ≡ false → text_eq t s ≡ false
text_eq_sym s t h = ground (arith, h, text_eq_iff s t, text_eq_iff t s)

module _ (floats : Floats) (inputs : QualityEngineInput floats) where
  -- No two categories share a name.
  abbrev pub IsDistinct : List (QualityCategory floats) → Type 0
  IsDistinct [] = Unit
  IsDistinct (rule ∷ rules) =
      All (λ q. text_eq rule.category_name q.category_name ≡ false) rules × IsDistinct rules

  abbrev pub status_of : QualityCategory floats → CategoryStatus
  status_of rule =
      let result = rule.evaluate inputs in
      if rule.is_applicable inputs
      then category_status floats result.score result.findings
      else skipped

  abbrev pub score_of : QualityCategory floats → Option floats.Float
  score_of rule = if rule.is_applicable inputs then some (rule.evaluate inputs).score else none

  abbrev pub weight_used : QualityCategory floats → Option floats.Float
  weight_used rule =
      if rule.is_applicable inputs
      then some (
          floats.float (
            effective_weight rule.category_name rule.default_weight
              inputs.thresholds.category_weights))
      else none

  -- The entries of one category.
  abbrev Entries :
      Text
      → Accumulators floats
      → Option CategoryStatus
      → Option floats.Float
      → Option floats.Float
      → Type 0
  Entries k acc status score weight =
      (get_key k acc.category_statuses ≡ status)
      × (get_key k acc.category_scores ≡ score)
      × (get_key k acc.category_weights_used ≡ weight)

  abbrev round : QualityCategory floats → Accumulators floats → Accumulators floats
  round rule acc =
      if rule.is_applicable inputs
      then add_category floats inputs rule acc
      else skip_category floats rule acc

  round-other :
      (rule : QualityCategory floats) (k : Text) (acc : Accumulators floats)
      (status : Option CategoryStatus) (score weight : Option floats.Float)
      → text_eq rule.category_name k ≡ false
      → Entries k acc status score weight
      → Entries k (round rule acc) status score weight
  round-other rule k acc status score weight h (a, b, c) =
      elim (Bool-cases (rule.is_applicable inputs)) [
        | inl e ↦ rw e (
          rw (get_key-set_key rule.category_name k, h) a,
          rw (get_key-set_key rule.category_name k, h) b,
          rw (get_key-set_key rule.category_name k, h) c,
        )
        | inr e ↦ rw e (rw (get_key-set_key rule.category_name k, h) a, b, c)
      ]

  round-own :
      (rule : QualityCategory floats) (acc : Accumulators floats)
      → Entries rule.category_name acc none none none
      → Entries rule.category_name
          (round rule acc)
          (some (status_of rule))
          (score_of rule)
          (weight_used rule)
  round-own rule acc (a, b, c) =
      let k : Text = rule.category_name in
      let same : text_eq k k ≡ true = (text_eq_iff k k).1 refl in
      elim (Bool-cases (rule.is_applicable inputs)) [
        | inl e ↦ rw e (
          rw (get_key-set_key k k, same) refl,
          rw (get_key-set_key k k, same) refl,
          rw (get_key-set_key k k, same) refl,
        )
        | inr e ↦ rw e (rw (get_key-set_key k k, same) refl, b, c)
      ]

  loop-other :
      (rules : List (QualityCategory floats)) (k : Text) (acc : Accumulators floats)
      (status : Option CategoryStatus) (score weight : Option floats.Float)
      → All (λ q. text_eq q.category_name k ≡ false) rules
      → Entries k acc status score weight
      → Entries k (evaluate_categories floats inputs rules acc) status score weight
  unfolding evaluate_categories
  loop-other [] k acc status score weight h e = e
  loop-other (rule ∷ rules) k acc status score weight h e =
      loop-other rules k (round rule acc) status score weight h.1
        (round-other rule k acc status score weight h.0 e)

  still_absent :
      (rule : QualityCategory floats) (rules : List (QualityCategory floats))
      (acc : Accumulators floats)
      → All (λ q. text_eq rule.category_name q.category_name ≡ false) rules
      → All (λ q. Entries q.category_name acc none none none) rules
      → All (λ q. Entries q.category_name (round rule acc) none none none) rules
  still_absent rule [] acc h k = tt
  still_absent rule (q ∷ rules) acc h k = (
    round-other rule q.category_name acc none none none h.0 k.0,
    still_absent rule rules acc h.1 k.1,
  )

  loop-Entries :
      (rules : List (QualityCategory floats)) (acc : Accumulators floats)
      → IsDistinct rules
      → All (λ q. Entries q.category_name acc none none none) rules
      → All
          (λ q.
            Entries q.category_name
              (evaluate_categories floats inputs rules acc)
              (some (status_of q))
              (score_of q)
              (weight_used q))
          rules
  unfolding evaluate_categories
  loop-Entries [] acc d h = tt
  loop-Entries (rule ∷ rules) acc (apart, d) (own, others) = (
    loop-other rules rule.category_name (round rule acc) (some (status_of rule)) (score_of rule)
        (weight_used rule)
        (All-map_implies (λ q. text_eq_sym rule.category_name q.category_name) rules apart)
        (round-own rule acc own),
    loop-Entries rules (round rule acc) d (still_absent rule rules acc apart others),
  )

  none_yet :
      (rules : List (QualityCategory floats))
      → All (λ q. Entries q.category_name (nothing_yet floats) none none none) rules
  unfolding get_key
  none_yet [] = tt
  none_yet (q ∷ rules) = ((refl, refl, refl), none_yet rules)

  -- If no two categories share a name, then in a result that `quality_control` returns every category
  -- of the registry has the status of its own score and findings, or is skipped when it is not
  -- applicable, and it has a score and a used weight exactly when it is applicable.
  pub category_statuses_lem :
      (rules : List (QualityCategory floats)) (r : QualityEngineResult floats)
      → IsDistinct rules
      → quality_control floats rules inputs ≡ some r
      → All
          (λ q.
            (get_key q.category_name r.category_statuses ≡ some (status_of q))
            × (get_key q.category_name r.category_scores ≡ score_of q)
            × (get_key q.category_name r.category_weights_used ≡ weight_used q))
          rules
  unfolding quality_control
  category_statuses_lem rules r d h =
      let acc = evaluate_categories floats inputs rules (nothing_yet floats) in
      let made = engine_result floats inputs acc (overall floats acc).0 (overall floats acc).1 in
      rw (← asserted-some floats inputs made r h)
        (loop-Entries rules (nothing_yet floats) d (none_yet rules))
