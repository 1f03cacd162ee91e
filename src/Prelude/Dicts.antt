-- ===== src/Prelude/Dicts.antt =====
-- A dict keyed by text, in insertion order.
use mathlib.Core.List.{List, [], ◌∷◌}
use mathlib.Core.Option.{Option, none, some}
use mathlib.Core.Path.{◌≡◌, refl}
use native.Mathlib.Omega.{arith}
use ai_data_operations_emplo.Prelude.Tests.{if◌then◌else◌}
use ai_data_operations_emplo.Prelude.Texts.{Text, text_eq, text_eq_iff}

-- `dict[key] = value`: an old key keeps its place.
unfoldable pub set_key {ℓ} : {A : Type ℓ} → Text → A → List (Text × A) → List (Text × A)
set_key k x [] = (k, x) ∷ []
set_key k x ((j, y) ∷ entries) =
    if text_eq j k then (j, x) ∷ entries else (j, y) ∷ set_key k x entries

-- `dict.get(key)`
unfoldable pub get_key {ℓ} : {A : Type ℓ} → Text → List (Text × A) → Option A
get_key k [] = none
get_key k ((j, y) ∷ entries) = if text_eq j k then some y else get_key k entries

pub get_key-set_key {ℓ} :
    {A : Type ℓ} (k j : Text) (x : A) (entries : List (Text × A))
    → get_key j (set_key k x entries) ≡ (if text_eq k j then some x else get_key j entries)
unfolding get_key set_key
get_key-set_key k j x [] = refl
get_key-set_key k j x ((i, y) ∷ entries) =
    ground (arith, get_key-set_key k j x entries, text_eq_iff i k, text_eq_iff i j, text_eq_iff k j)
