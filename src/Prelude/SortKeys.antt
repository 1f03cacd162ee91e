-- ===== src/Prelude/SortKeys.antt =====
-- The sort key `(row_number, column_name or "", issue_type)` that several engines share.
use Prim.Native.Nat.{ℕ}
use mathlib.Core.Bool.{Bool, true, false}
use mathlib.Core.Path.{◌≡◌}
use native.Mathlib.Omega.{arith}
use ai_data_operations_emplo.Prelude.Order.{IsOrder}
use ai_data_operations_emplo.Prelude.Tests.{ltb, ◌==◌, if◌then◌else◌}
use ai_data_operations_emplo.Prelude.Texts.{
  Text, text_eq, text_eq_iff, text_ltb, text_ltb-IsOrder, text_ltb_connected,
}

-- A tuple `(row_number, column_name or "", issue_type)`, compared lexicographically.
abbrev pub SortKey : Type 0
SortKey = ℕ × Text × Text

unfoldable pub key_ltb : SortKey → SortKey → Bool
key_ltb (a, s, t) (b, u, v) =
    if a == b then (if text_eq s u then text_ltb t v else text_ltb s u) else ltb a b

key_ltb_asym : (x y : SortKey) → key_ltb x y ≡ true → key_ltb y x ≡ false
unfolding key_ltb
key_ltb_asym (a, s, t) (b, u, v) h =
    ground (
      arith,
      text_ltb-IsOrder.asym s u,
      text_ltb-IsOrder.asym t v,
      text_eq_iff s u,
      text_eq_iff u s,
    )

text_part_incomparable :
    (s t u v p q : Text)
    → (if text_eq u s then text_ltb v t else text_ltb u s) ≡ false
    → (if text_eq p u then text_ltb q v else text_ltb p u) ≡ false
    → (if text_eq p s then text_ltb q t else text_ltb p s) ≡ false
text_part_incomparable s t u v p q h k = ground (
  arith,
  text_ltb-IsOrder.incomparable s u p,
  text_ltb-IsOrder.incomparable t v q,
  text_ltb_connected s u,
  text_eq_iff u s,
  text_eq_iff p u,
  text_eq_iff p s,
)

key_ltb_incomparable :
    (x y z : SortKey) → key_ltb y x ≡ false → key_ltb z y ≡ false → key_ltb z x ≡ false
unfolding key_ltb
key_ltb_incomparable (a, s, t) (b, u, v) (c, p, q) h k =
    ground (arith, text_part_incomparable s t u v p q)

pub key_ltb-IsOrder : IsOrder key_ltb
key_ltb-IsOrder = record { asym = key_ltb_asym; incomparable = key_ltb_incomparable }

-- An order on keys orders what has them.
pub IsOrder-on {ℓ κ} :
    {A : Type ℓ} {B : Type κ} {before : B → B → Bool} (key : A → B)
    → IsOrder before
    → IsOrder (λ a b. before (key a) (key b))
IsOrder-on key order = record {
  asym = λ a b. order.asym (key a) (key b);
  incomparable = λ a b c. order.incomparable (key a) (key b) (key c);
}
