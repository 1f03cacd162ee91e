-- ===== src/Matching/Blocking.antt =====
-- backend/app/matching/blocking.py, with the field of types.py that it reads and trim_whitespace of
-- backend/app/cleaning/rules.py. Python's strip, casefold and the substitution of white space are
-- parameters, and so are floats with their comparison.
use ai_data_operations_emplo.Prelude.{
  ℕ, zero, suc, ◌+◌, Bool, Option, none, some, List, [], ◌∷◌, ◌++◌, if◌then◌else◌,
}
use ai_data_operations_emplo.Prelude.Texts.{Text, text_eq}

-- The library functions that the module calls.
pub record Library : Type 1 where
  pub Float : Type 0
  pub gt : Float → Float → Bool
  pub strip : Text → Text
  pub casefold : Text → Text
  pub substitute_whitespace : Text → Text

-- `xs[i]`: `none` is an IndexError.
unfoldable pub nth {ℓ} : {A : Type ℓ} → ℕ → List A → Option A
nth i [] = none
nth zero (x ∷ xs) = some x
nth (suc i) (x ∷ xs) = nth i xs

abbrev pub Blocks : Type 0
Blocks = List (Text × List ℕ)

-- `blocks.setdefault(key, []).append(row_index)`
unfoldable pub add_to_block : Text → ℕ → Blocks → Blocks
add_to_block key i [] = (key, i ∷ []) ∷ []
add_to_block key i ((k, members) ∷ blocks) =
    if text_eq k key
    then (k, members ++ i ∷ []) ∷ blocks
    else (k, members) ∷ add_to_block key i blocks

module _ (library : Library) where
  pub record MatchRuleFieldSpec : Type 0 where
    pub column_name : Text
    pub comparison_type : Text
    pub weight : library.Float

  -- The value that `trim_whitespace` returns; the name of its rule is not used here.
  abbrev pub trim_whitespace : Text → Text
  trim_whitespace value =
      let collapsed = library.substitute_whitespace (library.strip value) in
      if text_eq collapsed value then value else collapsed

  unfoldable pub normalize_blocking_value : Text → Text
  normalize_blocking_value value = library.casefold (trim_whitespace value)

  unfoldable pub select_from : MatchRuleFieldSpec → List MatchRuleFieldSpec → MatchRuleFieldSpec
  select_from best [] = best
  select_from best (candidate ∷ fields) =
      select_from (if library.gt candidate.weight best.weight then candidate else best) fields

  -- `none` is the IndexError of `fields[0]`.
  unfoldable pub select_blocking_field : List MatchRuleFieldSpec → Option MatchRuleFieldSpec
  select_blocking_field [] = none
  select_blocking_field (field ∷ fields) = some (select_from field fields)

  unfoldable pub index_from : ℕ → List Text → Text → Option ℕ
  index_from i [] target = none
  index_from i (header ∷ headers) target =
      if text_eq (library.casefold (library.strip header)) target
      then some i
      else index_from (i + 1) headers target

  unfoldable pub column_index : List Text → Text → Option ℕ
  column_index headers column_name =
      index_from 0 headers (library.casefold (library.strip column_name))

  abbrev cell : Option (List Text) → ℕ → Option Text
  cell none c = none
  cell (some row) c = nth c row

  -- `rows[row_index][col_index] if col_index is not None else ""`
  unfoldable pub raw_value : List (List Text) → Option ℕ → ℕ → Option Text
  raw_value rows none i = some []
  raw_value rows (some c) i = cell (nth i rows) c

  -- A blank value is in no block.
  unfoldable pub place : ℕ → Text → Blocks → Blocks
  place i normalized blocks =
      if text_eq normalized [] then blocks else add_to_block normalized i blocks

  unfoldable pub build_loop : List (List Text) → Option ℕ → List ℕ → Blocks → Option Blocks
  build_loop rows col_index [] blocks = some blocks
  build_loop rows col_index (i ∷ indices) blocks = elim (raw_value rows col_index i) [
    | none ↦ none
    | some raw ↦ build_loop rows col_index indices (place i (normalize_blocking_value raw) blocks)
  ]

  unfoldable pub build_blocks :
      List ℕ → List (List Text) → List Text → MatchRuleFieldSpec → Option Blocks
  build_blocks candidate_row_indices rows headers blocking_field =
      build_loop rows (column_index headers blocking_field.column_name) candidate_row_indices []
