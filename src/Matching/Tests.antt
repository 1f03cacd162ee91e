-- ===== src/Matching/Tests.antt =====
-- The theorems on backend/app/matching/blocking.py for three fields, and for four rows of which one is
-- blank, where casefold, strip and the substitution change nothing.
use ai_data_operations_emplo.Prelude.{
  arith, ℕ, ◌≡◌, refl, some, List, [], ◌∷◌, ltb, ◌==◌, if◌then◌else◌, select,
}
use ai_data_operations_emplo.Prelude.Texts.{Text, text_eq, codes}
use ai_data_operations_emplo.Matching.Blocking.{
  Library, Blocks, MatchRuleFieldSpec, column_index, index_from, raw_value, nth, build_blocks,
  select_blocking_field,
}
use ai_data_operations_emplo.Prelude.Order.{IsOrder}
use ai_data_operations_emplo.Matching.Field.{IsFirstHeaviest, select_blocking_field_lem}
use ai_data_operations_emplo.Matching.Blocks.{members, belongs, build_blocks_lem}

abbrev plain : Library
plain = record {
  Float = ℕ;
  gt = λ a b. ltb b a;
  strip = λ s. s;
  casefold = λ s. s;
  substitute_whitespace = λ s. s;
}

abbrev field : MatchRuleFieldSpec plain
field = record { column_name = codes "city"; comparison_type = codes "exact"; weight = 2 }

abbrev headers : List Text
headers = codes "id" ∷ codes "city" ∷ []

abbrev rows : List (List Text)
rows =
    (codes "1" ∷ codes "Oslo" ∷ [])
    ∷ (codes "2" ∷ [] ∷ [])
    ∷ (codes "3" ∷ codes "Rome" ∷ [])
    ∷ (codes "4" ∷ codes "Oslo" ∷ [])
    ∷ []

abbrev value : ℕ → Text
value i = if i == 1 then [] else (if i == 2 then codes "Rome" else codes "Oslo")

build_blocks_example :
    (result : Blocks) × (build_blocks plain (0 ∷ 1 ∷ 2 ∷ 3 ∷ []) rows headers field ≡ some result)
    × ((key : Text)
        → members key result
          ≡ select
              (belongs plain rows (column_index plain headers field.column_name) value key)
              (0 ∷ 1 ∷ 2 ∷ 3 ∷ []))
unfolding column_index index_from raw_value nth text_eq
build_blocks_example =
    build_blocks_lem plain rows headers field value (0 ∷ 1 ∷ 2 ∷ 3 ∷ [])
      (refl, (refl, (refl, (refl, tt))))

abbrev heavy : Text → MatchRuleFieldSpec plain
heavy name = record { column_name = name; comparison_type = codes "exact"; weight = 5 }

plain-IsOrder : IsOrder plain.gt
plain-IsOrder = record {
  asym = λ a b h. ground (arith, h);
  incomparable = λ a b c h k. ground (arith, h, k);
}

select_blocking_field_example :
    (best : MatchRuleFieldSpec plain) × (select_blocking_field plain
        (field ∷ heavy (codes "name") ∷ heavy (codes "zip") ∷ [])
      ≡ some best)
    × IsFirstHeaviest plain plain-IsOrder best
        (field ∷ heavy (codes "name") ∷ heavy (codes "zip") ∷ [])
select_blocking_field_example =
    select_blocking_field_lem plain plain-IsOrder field
      (heavy (codes "name") ∷ heavy (codes "zip") ∷ [])
