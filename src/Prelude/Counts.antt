-- ===== src/Prelude/Counts.antt =====
-- A dict of counters keyed by text, `counts[key] = counts.get(key, 0) + 1`, in insertion order.
use Prim.Native.Nat.{ℕ, ◌+◌}
use mathlib.Core.List.{List, [], ◌∷◌}
use mathlib.Core.Path.{◌≡◌, refl}
use native.Mathlib.Omega.{arith}
use ai_data_operations_emplo.Prelude.Tests.{if◌then◌else◌}
use ai_data_operations_emplo.Prelude.Texts.{Text, text_eq, text_eq_iff}

abbrev pub Counts : Type 0
Counts = List (Text × ℕ)

unfoldable pub count_key : Text → Counts → Counts
count_key k [] = (k, 1) ∷ []
count_key k ((j, n) ∷ counts) =
    if text_eq j k then (j, n + 1) ∷ counts else (j, n) ∷ count_key k counts

-- `counts.get(key, 0)`
unfoldable pub count_of : Text → Counts → ℕ
count_of k [] = 0
count_of k ((j, n) ∷ counts) = if text_eq j k then n else count_of k counts

unfoldable pub total : Counts → ℕ
total [] = 0
total ((j, n) ∷ counts) = n + total counts

pub total-count_key : (k : Text) (counts : Counts) → total (count_key k counts) ≡ total counts + 1
unfolding total count_key
total-count_key k [] = refl
total-count_key k ((j, n) ∷ counts) = ground (arith, total-count_key k counts)

pub count_of-count_key :
    (k j : Text) (counts : Counts)
    → count_of j (count_key k counts)
      ≡ (if text_eq k j then count_of j counts + 1 else count_of j counts)
unfolding count_of count_key
count_of-count_key k j [] = ground arith
count_of-count_key k j ((i, n) ∷ counts) =
    ground (arith, count_of-count_key k j counts, text_eq_iff i k, text_eq_iff i j, text_eq_iff k j)
