-- ===== src/Matching/Field.antt =====
-- The field that `select_blocking_field` (backend/app/matching/blocking.py) selects.
use ai_data_operations_emplo.Prelude.{
  ◌≡◌, refl, sym, ap, ◌∙◌, subst, inl, inr, true, false, some, List, [], ◌∷◌, ◌++◌, if◌then◌else◌,
  All, All-append, All-map_implies, Bool-cases,
}
use mathlib.Core.List.{append_assoc, append-nil}
use ai_data_operations_emplo.Prelude.Order.{IsOrder}
use ai_data_operations_emplo.Matching.Blocking.{
  Library, MatchRuleFieldSpec, select_from, select_blocking_field,
}

module _ (library : Library) (order : IsOrder library.gt) where
  abbrev Field : Type 0
  Field = MatchRuleFieldSpec library

  -- The first of the heaviest fields: all fields in front of it are lighter, and none is heavier.
  pub record IsFirstHeaviest (best : Field) (fields : List Field) : Type 0 where
    pub front : List Field
    pub rest : List Field
    pub split : fields ≡ front ++ best ∷ rest
    pub lighter : All (λ f. library.gt best.weight f.weight ≡ true) front
    pub heaviest : All (λ f. library.gt f.weight best.weight ≡ false) fields

  irreflexive : (x : library.Float) → library.gt x x ≡ false
  irreflexive x = elim (Bool-cases (library.gt x x)) [ inl e ↦ order.asym x x e | inr e ↦ e ]

  -- What is heavier than the best is heavier than what is not heavier than the best.
  heavier :
      (c best x : library.Float)
      → library.gt c best ≡ true
      → library.gt x best ≡ false
      → library.gt c x ≡ true
  heavier c best x h k = elim (Bool-cases (library.gt c x)) [
    | inl e ↦ e
    | inr e ↦ absurd (cc (h, order.incomparable best x c k e))
  ]

  first-step :
      (best c : Field) (fields : List Field)
      → IsFirstHeaviest best fields
      → IsFirstHeaviest (if library.gt c.weight best.weight then c else best) (fields ++ c ∷ [])
  first-step best c fields h = elim (Bool-cases (library.gt c.weight best.weight)) [
    | inl e ↦
        let below : All (λ f. library.gt c.weight f.weight ≡ true) fields =
          All-map_implies (λ f k. heavier c.weight best.weight f.weight e k) fields h.heaviest in
        rw e (record {
          front = fields;
          rest = [];
          split = refl;
          lighter = below;
          heaviest =
              All-append (λ f. library.gt f.weight c.weight ≡ false) fields (c ∷ [])
                (All-map_implies (λ f k. order.asym c.weight f.weight k) fields below)
                (irreflexive c.weight, tt);
        })
    | inr e ↦ rw e (record {
      front = h.front;
      rest = h.rest ++ c ∷ [];
      split = ap (λ l. l ++ c ∷ []) h.split ∙ append_assoc h.front (best ∷ h.rest) (c ∷ []);
      lighter = h.lighter;
      heaviest =
          All-append (λ f. library.gt f.weight best.weight ≡ false) fields (c ∷ []) h.heaviest
            (e, tt);
    })
  ]

  select_from-IsFirstHeaviest :
      (best : Field) (seen fields : List Field)
      → IsFirstHeaviest best seen
      → IsFirstHeaviest (select_from library best fields) (seen ++ fields)
  unfolding select_from
  select_from-IsFirstHeaviest best seen [] h =
      subst (IsFirstHeaviest best) (sym (append-nil seen)) h
  select_from-IsFirstHeaviest best seen (c ∷ fields) h =
      subst (IsFirstHeaviest (select_from library best (c ∷ fields)))
        (append_assoc seen (c ∷ []) fields)
        (select_from-IsFirstHeaviest (if library.gt c.weight best.weight then c else best)
          (seen ++ c ∷ []) fields (first-step best c seen h))

  -- If the comparison of weights is a strict weak order (which it is of floats other than NaN), then
  -- the blocking field of a list of fields that is not empty is the first of the heaviest: every
  -- field in front of it is lighter, and no field is heavier.
  pub select_blocking_field_lem :
      (field : Field) (fields : List Field)
      → (best : Field) × (select_blocking_field library (field ∷ fields) ≡ some best)
        × IsFirstHeaviest best (field ∷ fields)
  unfolding select_blocking_field
  select_blocking_field_lem field fields = (
    select_from library field fields,
    refl,
    select_from-IsFirstHeaviest field (field ∷ []) fields (record {
      front = [];
      rest = [];
      split = refl;
      lighter = tt;
      heaviest = (irreflexive field.weight, tt);
    }),
  )
