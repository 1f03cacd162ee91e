-- ===== src/Prelude/Texts.antt =====
-- Text as the list of its code points, with Python's equality and order, and `str(n)`.
use Prim.Native.Char.{code}
use Prim.Native.Nat.{ℕ, zero, suc, ◌+◌, ◌/◌, ◌%◌}
use Prim.Native.String.{String}
use mathlib.Core.Bool.{Bool, true, false, ◌&&◌}
use mathlib.Core.List.{List, [], ◌∷◌}
use mathlib.Core.Logic.{◌↔◌}
use mathlib.Core.Path.{◌≡◌, refl}
use mathlib.Core.Option.{Option, none, some}
use native.Mathlib.Omega.{arith}
use ai_data_operations_emplo.Prelude.Order.{IsOrder}
use ai_data_operations_emplo.Prelude.Tests.{ltb, ◌==◌, if◌then◌else◌}

abbrev pub Text : Type 0
Text = List ℕ

abbrev pub codes : String → Text
codes String.[] = []
codes (String.◌∷◌ c s) = code c ∷ codes s

unfoldable pub text_eq : Text → Text → Bool
text_eq [] [] = true
text_eq (a ∷ s) (b ∷ t) = a == b && text_eq s t
text_eq _ _ = false

pub text_eq_iff : (s t : Text) → (text_eq s t ≡ true) ↔ (s ≡ t)
unfolding text_eq
text_eq_iff [] [] = (λ _. refl, λ _. refl)
text_eq_iff [] (b ∷ t) = (λ e. absurd (cc e), λ e. absurd (cc e))
text_eq_iff (a ∷ s) [] = (λ e. absurd (cc e), λ e. absurd (cc e))
text_eq_iff (a ∷ s) (b ∷ t) =
    (λ e. ground (arith, (text_eq_iff s t).0), λ e. ground (arith, (text_eq_iff s t).1))

-- `s < t` of Python: by code points, a proper prefix first.
unfoldable pub text_ltb : Text → Text → Bool
text_ltb _ [] = false
text_ltb [] (b ∷ t) = true
text_ltb (a ∷ s) (b ∷ t) = if a == b then text_ltb s t else ltb a b

-- `text or ""` of Python.
abbrev pub text_or_empty : Option Text → Text
text_or_empty none = []
text_or_empty (some t) = t

text_ltb_asym : (s t : Text) → text_ltb s t ≡ true → text_ltb t s ≡ false
unfolding text_ltb
text_ltb_asym s [] h = absurd (cc h)
text_ltb_asym [] (b ∷ t) h = refl
text_ltb_asym (a ∷ s) (b ∷ t) h = ground (arith, text_ltb_asym s t)

text_ltb_incomparable :
    (s t u : Text) → text_ltb t s ≡ false → text_ltb u t ≡ false → text_ltb u s ≡ false
unfolding text_ltb
text_ltb_incomparable [] t u h k = refl
text_ltb_incomparable (a ∷ s) [] u h k = absurd (cc h)
text_ltb_incomparable (a ∷ s) (b ∷ t) [] h k = absurd (cc k)
text_ltb_incomparable (a ∷ s) (b ∷ t) (c ∷ u) h k = ground (arith, text_ltb_incomparable s t u)

pub text_ltb-IsOrder : IsOrder text_ltb
text_ltb-IsOrder = record { asym = text_ltb_asym; incomparable = text_ltb_incomparable }

pub text_ltb_connected : (s t : Text) → text_ltb s t ≡ false → text_ltb t s ≡ false → s ≡ t
unfolding text_ltb
text_ltb_connected [] [] h k = refl
text_ltb_connected [] (b ∷ t) h k = absurd (cc h)
text_ltb_connected (a ∷ s) [] h k = absurd (cc k)
text_ltb_connected (a ∷ s) (b ∷ t) h k = ground (arith, text_ltb_connected s t)

-- The decimal digits of `n` in front of `rest`. `suc n` rounds are enough for `n`.
unfoldable pub decimal_digits : ℕ → ℕ → Text → Text
decimal_digits zero n rest = rest
decimal_digits (suc fuel) n rest =
    let more = decimal_digits fuel (n / 10) ((b'0' + n % 10) ∷ rest) in
    if ltb n 10 then (b'0' + n) ∷ rest else more

-- `str(n)`
unfoldable pub decimal : ℕ → Text
unfolding decimal_digits
decimal n = decimal_digits (suc n) n []
