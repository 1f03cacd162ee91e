-- ===== src/Validation/Reconcile.antt =====
-- The results and the counts of `validate` (backend/app/validation/engine.py).
use ai_data_operations_emplo.Prelude.{
  ℕ, ◌+◌, ◌≤◌, ◌<◌, ◌≡◌, refl, Bool, true, false, Option, some, List, [], ◌∷◌, length, leb, ◌==◌,
  arith, tally, tally-append, length-append, Option-cases, Bool-cases, inl, inr,
}
use ai_data_operations_emplo.Prelude.Order.{sort_by, length-sort_by, tally-sort_by}
use ai_data_operations_emplo.Prelude.Texts.{Text}
use ai_data_operations_emplo.Prelude.Counts.{total, total-count_key}
use ai_data_operations_emplo.Validation.Types.{
  ValidationChangeInput, ValidationColumnConfig, passed, failed, skipped, ValidationResultItem,
  ValidationLimits, ValidationRunResult, ValidationRule,
}
use ai_data_operations_emplo.Validation.Engine.{
  change_before, Progress, result_item, add_item, count_rule, validate_one, validate_loop,
  no_progress, checked_result, validate, unrecognised_item, over_limit_item, judged_item,
}

abbrev pub is_passed : ValidationResultItem → Bool
is_passed r = elim r.outcome [ passed ↦ true | failed ↦ false | skipped ↦ false ]

abbrev pub is_failed : ValidationResultItem → Bool
is_failed r = elim r.outcome [ passed ↦ false | failed ↦ true | skipped ↦ false ]

abbrev pub is_skipped : ValidationResultItem → Bool
is_skipped r = elim r.outcome [ passed ↦ false | failed ↦ false | skipped ↦ true ]

abbrev pub is_result : ℕ → ValidationResultItem → Bool
is_result i r = r.change_id == i

abbrev pub is_change : ℕ → ValidationChangeInput → Bool
is_change i c = c.change_id == i

-- What the loop keeps true of its variables, under the ceiling `cap`.
pub record IsReconciled (cap : ℕ) (p : Progress) : Type 0 where
  pub passes : p.passed_count ≡ tally is_passed p.results
  pub fails : p.failed_count ≡ tally is_failed p.results
  pub skips : p.skipped_count ≡ tally is_skipped p.results
  pub all_counted : p.passed_count + p.failed_count + p.skipped_count ≡ length p.results
  pub under_cap : p.passed_count + p.failed_count ≤ cap
  pub by_rule : total p.results_by_rule ≤ length p.results

-- One more result, within the ceiling unless it is a skip.
add_item-IsReconciled :
    (cap : ℕ) (item : ValidationResultItem) (p : Progress)
    → (is_skipped item ≡ false → length p.results < cap)
    → IsReconciled cap p
    → IsReconciled cap (add_item item p)
add_item-IsReconciled cap item p room h = ground (
  arith,
  length-append p.results (item ∷ []),
  tally-append is_passed p.results (item ∷ []),
  tally-append is_failed p.results (item ∷ []),
  tally-append is_skipped p.results (item ∷ []),
)

-- Counting the rule of the result that has just been added.
count_rule-IsReconciled :
    (cap : ℕ) (item : ValidationResultItem) (rule_name : Text) (p : Progress)
    → (is_skipped item ≡ false → length p.results < cap)
    → IsReconciled cap p
    → IsReconciled cap (count_rule rule_name (add_item item p))
count_rule-IsReconciled cap item rule_name p room h =
    let k = add_item-IsReconciled cap item p room h in
    record {
      passes = k.passes;
      fails = k.fails;
      skips = k.skips;
      all_counted = k.all_counted;
      under_cap = k.under_cap;
      by_rule = ground (
        arith,
        h.by_rule,
        length-append p.results (item ∷ []),
        total-count_key rule_name p.results_by_rule,
      );
    }

item_result :
    (item : ValidationResultItem) (p : Progress)
    → let q = add_item item p in
      (length q.results ≡ length p.results + 1)
      × ((i : ℕ)
          → tally (is_result i) q.results
            ≡ tally (is_result i) p.results + tally (is_result i) (item ∷ []))
item_result item p = (
  ground (arith, length-append p.results (item ∷ [])),
  λ i. ground (arith, tally-append (is_result i) p.results (item ∷ [])),
)

module _ (rules : Text → Option ValidationRule) (config : Text → Option ValidationColumnConfig)
    (limits : ValidationLimits) where
  validate_one-IsReconciled :
      (change : ValidationChangeInput) (p : Progress)
      → IsReconciled limits.max_persisted_results p
      → IsReconciled limits.max_persisted_results (validate_one rules config limits change p)
  unfolding validate_one result_item
  validate_one-IsReconciled change p h = elim (Option-cases (rules change.action)) [
    | inl e ↦ rw e (
        add_item-IsReconciled limits.max_persisted_results (unrecognised_item change) p
          (λ f. absurd (cc f)) h)
    | inr (rule, e) ↦ elim (Bool-cases (leb limits.max_persisted_results (length p.results))) [
      | inl f ↦
          rw (e, f)
            (count_rule-IsReconciled limits.max_persisted_results (over_limit_item change rule)
              rule.rule_name p (λ g. absurd (cc g)) h)
      | inr f ↦
          rw (e, f)
            (count_rule-IsReconciled limits.max_persisted_results (judged_item config change rule)
              rule.rule_name p (λ _. ground arith) h)
    ]
  ]

  validate_one-result :
      (change : ValidationChangeInput) (p : Progress)
      → let q = validate_one rules config limits change p in
        (length q.results ≡ length p.results + 1)
        × ((i : ℕ)
            → tally (is_result i) q.results
              ≡ tally (is_result i) p.results + tally (is_change i) (change ∷ []))
  unfolding validate_one result_item
  validate_one-result change p = elim (Option-cases (rules change.action)) [
    | inl e ↦ rw e (item_result (unrecognised_item change) p)
    | inr (rule, e) ↦ elim (Bool-cases (leb limits.max_persisted_results (length p.results))) [
      | inl f ↦ rw (e, f) (item_result (over_limit_item change rule) p)
      | inr f ↦ rw (e, f) (item_result (judged_item config change rule) p)
    ]
  ]

  validate_loop-IsReconciled :
      (changes : List ValidationChangeInput) (p : Progress)
      → IsReconciled limits.max_persisted_results p
      → IsReconciled limits.max_persisted_results (validate_loop rules config limits changes p)
  unfolding validate_loop
  validate_loop-IsReconciled [] p h = h
  validate_loop-IsReconciled (change ∷ changes) p h =
      validate_loop-IsReconciled changes (validate_one rules config limits change p)
        (validate_one-IsReconciled change p h)

  validate_loop-result :
      (changes : List ValidationChangeInput) (p : Progress)
      → let q = validate_loop rules config limits changes p in
        (length q.results ≡ length p.results + length changes)
        × ((i : ℕ)
            → tally (is_result i) q.results
              ≡ tally (is_result i) p.results + tally (is_change i) changes)
  unfolding validate_loop
  validate_loop-result [] p = (omega arith, λ i. omega arith)
  validate_loop-result (change ∷ changes) p =
      let (len, count) = validate_one-result change p in
      let (len', count') =
        validate_loop-result changes (validate_one rules config limits change p) in
      (omega (arith, len, len'), λ i. ground (arith, count i, count' i))

  -- The engine's assertion never fails. The result has exactly one item for each considered
  -- change, whatever the ceiling; its three counts are the numbers of items with that outcome and
  -- add up to the number of changes; and at most `max_persisted_results` items are passed or
  -- failed.
  pub validate_reconciles :
      (changes : List ValidationChangeInput)
      → (r : ValidationRunResult) × (validate rules changes config limits ≡ some r)
        × (r.approved_changes_considered ≡ length changes)
        × (length r.results ≡ length changes)
        × ((i : ℕ) → tally (is_result i) r.results ≡ tally (is_change i) changes)
        × (r.passed_count + r.failed_count + r.skipped_count ≡ length changes)
        × (r.passed_count ≡ tally is_passed r.results)
        × (r.failed_count ≡ tally is_failed r.results)
        × (r.skipped_count ≡ tally is_skipped r.results)
        × (r.passed_count + r.failed_count ≤ limits.max_persisted_results)
        × (total r.results_by_rule ≤ length changes)
  unfolding validate checked_result total
  validate_reconciles changes =
      let sorted = sort_by change_before changes in
      let same = length-sort_by change_before changes in
      let p = validate_loop rules config limits sorted no_progress in
      let h = validate_loop-IsReconciled sorted no_progress (record {
        passes = refl;
        fails = refl;
        skips = refl;
        all_counted = refl;
        under_cap = omega arith;
        by_rule = omega arith;
      }) in
      let (len, count) = validate_loop-result sorted no_progress in
      (
        record {
          results = p.results;
          approved_changes_considered = length sorted;
          passed_count = p.passed_count;
          failed_count = p.failed_count;
          skipped_count = p.skipped_count;
          results_by_rule = p.results_by_rule;
        },
        ground (arith, h.all_counted, len),
        same,
        omega (arith, len, same),
        λ i. omega (arith, count i, tally-sort_by change_before (is_change i) changes),
        omega (arith, h.all_counted, len, same),
        h.passes,
        h.fails,
        h.skips,
        h.under_cap,
        omega (arith, h.by_rule, len, same),
      )
