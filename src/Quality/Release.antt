-- ===== src/Quality/Release.antt =====
-- The recommendation of `quality_control` (backend/app/quality/engine.py).
use ai_data_operations_emplo.Prelude.{
  ℕ, ◌+◌, ◌≤◌, ◌≡◌, ◌≢◌, ◌↔◌, refl, subst, inl, inr, true, false, Option, none, some, List, ◌==◌,
  arith, Bool-cases,
}
use ai_data_operations_emplo.Quality.Types.{
  Floats, pass, fail, QualityEngineInput, QualityEngineResult, QualityCategory,
}
use ai_data_operations_emplo.Quality.Engine.{
  fails_validation, compute_recommendation, recommend_score, asserted, engine_result, overall,
  evaluate_categories, nothing_yet, quality_control,
}

module _ (floats : Floats) (inputs : QualityEngineInput floats) where
  -- None of the six FAIL conditions of the architecture document.
  pub record IsReleasable (overall_score : Option floats.Float) (blocking_count : ℕ) : Type 0 where
    pub score : floats.Float
    pub scored : overall_score ≡ some score
    pub unblocked : blocking_count ≡ 0
    pub high_enough : floats.lt score inputs.thresholds.fail_score_threshold ≡ false
    pub validated : fails_validation floats inputs.validation_run inputs.thresholds ≡ false
    pub critical_resolved :
        inputs.effective_stats.unresolved_critical_count
        ≤ inputs.thresholds.max_critical_severity_unresolved
    pub high_resolved :
        inputs.effective_stats.unresolved_high_count
        ≤ inputs.thresholds.max_high_severity_unresolved

  -- The two further conditions of a clean PASS.
  abbrev pub IsClean : floats.Float → ℕ → Type 0
  IsClean score warning_count =
      (floats.ge score inputs.thresholds.pass_score_threshold ≡ true)
      × (warning_count ≤ inputs.thresholds.max_warnings_for_clean_pass)

  released :
      (score : floats.Float) (b w : ℕ)
      → recommend_score floats score b w inputs ≢ fail
      → IsReleasable (some score) b
  released score b w h = record {
    score = score;
    scored = refl;
    unblocked = ground arith;
    high_enough = ground arith;
    validated = ground arith;
    critical_resolved = ground arith;
    high_resolved = ground arith;
  }

  releasable :
      (score : floats.Float) (b w : ℕ)
      → IsReleasable (some score) b
      → recommend_score floats score b w inputs ≢ fail
  releasable score b w h =
      let same : h.score ≡ score = cc h.scored in
      ground
        (arith, h.unblocked, same, h.high_enough, h.validated, h.critical_resolved, h.high_resolved)

  recommended :
      (overall_score : Option floats.Float) (b w : ℕ)
      → (compute_recommendation floats overall_score b w inputs ≢ fail)
        ↔ IsReleasable overall_score b
  unfolding compute_recommendation
  recommended none b w = (λ h. absurd (h refl), λ h. absurd (cc h.scored))
  recommended (some score) b w = (released score b w, releasable score b w)

  passing :
      (score : floats.Float) (b w : ℕ)
      → recommend_score floats score b w inputs ≡ pass
      → IsClean score w
  passing score b w h = (ground (arith, h), ground (arith, h))

  passes :
      (score : floats.Float) (b w : ℕ)
      → recommend_score floats score b w inputs ≢ fail
      → IsClean score w
      → recommend_score floats score b w inputs ≡ pass
  passes score b w h k = ground (arith, h, k)

  recommended-IsClean :
      (overall_score : Option floats.Float) (b w : ℕ)
      → (compute_recommendation floats overall_score b w inputs ≡ pass)
        ↔ ((h : IsReleasable overall_score b) × IsClean h.score w)
  unfolding compute_recommendation
  recommended-IsClean none b w = (λ h. absurd (cc h), λ h. absurd (cc h.0.scored))
  recommended-IsClean (some score) b w = (
    λ h.
        let k = released score b w (λ f. absurd (cc (h, f))) in
        (k, subst (λ s. IsClean s w) (cc k.scored) (passing score b w h)),
    λ h. passes score b w (releasable score b w h.0) (subst (λ s. IsClean s w) (cc h.0.scored) h.1),
  )

  pub asserted-some : (r s : QualityEngineResult floats) → asserted floats r ≡ some s → r ≡ s
  unfolding asserted
  asserted-some r s h =
      elim (Bool-cases (r.blocking_count + r.warning_count + r.info_count == r.total_findings)) [
        | inl e ↦ ground (arith, h, e)
        | inr e ↦ ground (arith, h, e)
      ]

  -- For a result that `quality_control` returns, the recommendation is other than FAIL exactly when
  -- none of the six FAIL conditions holds, and it is PASS exactly when moreover the score reaches
  -- the pass threshold and the warnings are within the limit of a clean pass.
  pub recommendation_lem :
      (rules : List (QualityCategory floats)) (r : QualityEngineResult floats)
      → quality_control floats rules inputs ≡ some r
      → ((r.recommendation ≢ fail) ↔ IsReleasable r.overall_score r.blocking_count)
        × ((r.recommendation ≡ pass) ↔ (
            (h : IsReleasable r.overall_score r.blocking_count) × IsClean h.score r.warning_count))
  unfolding quality_control
  recommendation_lem rules r h =
      let acc = evaluate_categories floats inputs rules (nothing_yet floats) in
      let made = engine_result floats inputs acc (overall floats acc).0 (overall floats acc).1 in
      subst
        (λ s.
          ((s.recommendation ≢ fail) ↔ IsReleasable s.overall_score s.blocking_count)
          × ((s.recommendation ≡ pass) ↔ (
              (k : IsReleasable s.overall_score s.blocking_count) × IsClean k.score
                s.warning_count)))
        (asserted-some made r h)
        (
          recommended made.overall_score made.blocking_count made.warning_count,
          recommended-IsClean made.overall_score made.blocking_count made.warning_count,
        )
