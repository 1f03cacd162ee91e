-- ===== src/Matching/Pairings.antt =====
-- How many groups of stage 3 of `match` (backend/app/matching/engine.py) hold two given rows.
use ai_data_operations_emplo.Prelude.{
  ℕ, zero, suc, ◌+◌, ◌≤◌, ◌<◌, ◌≡◌, ◌≢◌, refl, sym, ◌∙◌, inl, inr, Bool, true, false, ◌&&◌, List,
  [], ◌∷◌, if◌then◌else◌, ◌==◌, ==_iff, arith, All, All-map_implies, All-and, select, tally,
  Bool-cases, subst,
}
use ai_data_operations_emplo.Matching.Clustering.Components.{
  Groups, range, members_of, keyed, IsGrouping,
}
use ai_data_operations_emplo.Matching.Identical.{contains}

abbrev pub both : ℕ → ℕ → List ℕ → Bool
both x y members = contains x members && contains y members

-- With distinct roots, an entry is found under its root.
other_roots :
    (k : ℕ) (groups : Groups) → tally (keyed k) groups ≡ 0 → All (λ g. (k == g.0) ≡ false) groups
other_roots k [] h = tt
other_roots k ((r, members) ∷ groups) h =
    (ground (arith, h), other_roots k groups (ground (arith, h)))

found_under_root :
    (groups : Groups)
    → ((r : ℕ) → tally (keyed r) groups ≤ 1)
    → All (λ g. members_of g.0 groups ≡ g.1) groups
unfolding members_of
found_under_root [] h = tt
found_under_root ((k, members) ∷ groups) h =
    let same : (k == k) ≡ true = ground arith in
    let alone : tally (keyed k) groups ≡ 0 = ground (arith, h k) in
    let rest = found_under_root groups (λ r. ground (arith, h r)) in
    (
      rw same refl,
      All-map_implies (λ g h. let (apart, e) = h in rw apart e) groups
          (All-and (λ g. (k == g.0) ≡ false) (λ g. members_of g.0 groups ≡ g.1) groups
            (other_roots k groups alone) rest),
    )

contains-select :
    (test : ℕ → Bool) (x : ℕ) (xs : List ℕ)
    → contains x (select test xs) ≡ (test x && contains x xs)
contains-select test x [] = ground arith
contains-select test x (j ∷ xs) = ground (arith, contains-select test x xs, ==_iff j x)

contains-range : (i n x : ℕ) → i ≤ x → x < i + n → contains x (range i n) ≡ true
unfolding range
contains-range i zero x le lt = absurd (omega arith)
contains-range i (suc n) x le lt = elim (Bool-cases (i == x)) [
  | inl e ↦ rw e refl
  | inr e ↦ rw e (contains-range (i + 1) n x (ground (arith, e)) (omega arith))
]

tally-ext {ℓ} :
    {A : Type ℓ} (f g : A → Bool) (xs : List A) → All (λ x. f x ≡ g x) xs → tally f xs ≡ tally g xs
tally-ext f g [] h = refl
tally-ext f g (x ∷ xs) h = rw (h.0, tally-ext f g xs h.1) refl

tally-zero : (r : ℕ) (groups : Groups) → tally (keyed r) groups ≡ 0 → members_of r groups ≡ []
unfolding members_of
tally-zero r [] h = refl
tally-zero r ((k, members) ∷ groups) h = ground (arith, h, tally-zero r groups)

tally-false {ℓ} : {A : Type ℓ} (xs : List A) → tally (λ _. false) xs ≡ 0
tally-false [] = refl
tally-false (x ∷ xs) = tally-false xs

-- Every group is the class of its root.
pub classes :
    (repr : ℕ → ℕ) (seen : List ℕ) (groups : Groups)
    → IsGrouping repr seen groups
    → All (λ g. g.1 ≡ select (λ j. repr j == g.0) seen) groups
classes repr seen groups h =
    All-map_implies (λ g e. sym e ∙ h.exact g.0) groups (found_under_root groups h.distinct)

module _ (repr : ℕ → ℕ) (size : ℕ) (groups : Groups)
    (h : IsGrouping repr (range 0 size) groups) where
  both-entry :
      (x y r : ℕ) (members : List ℕ)
      → x < size
      → y < size
      → members ≡ select (λ j. repr j == r) (range 0 size)
      → both x y members ≡ ((repr x == r) && (repr y == r))
  both-entry x y r members lx ly e =
      let x_in = contains-range 0 size x (omega arith) (omega arith) in
      let y_in = contains-range 0 size y (omega arith) (omega arith) in
      rw
        (
          e,
          contains-select (λ j. repr j == r) x (range 0 size),
          contains-select (λ j. repr j == r) y (range 0 size),
          x_in,
          y_in,
        )
        (ground arith)

  one_root : (x : ℕ) → x < size → tally (keyed (repr x)) groups ≡ 1
  one_root x lt =
      let most = h.distinct (repr x) in
      let has : tally (keyed (repr x)) groups ≢ 0 = λ none_there.
        let x_in = contains-range 0 size x (omega arith) (omega arith) in
        let same : (repr x == repr x) ≡ true = ground arith in
        let filled : contains x (members_of (repr x) groups) ≡ true =
          rw
            (h.exact (repr x), contains-select (λ j. repr j == repr x) x (range 0 size), x_in, same)
            refl in
        let missing : contains x [] ≡ true =
          subst (λ l. contains x l ≡ true) (tally-zero (repr x) groups none_there) filled in
        cc missing in
      omega (arith, has)

  pub both-tally :
      (x y : ℕ)
      → x < size
      → y < size
      → tally (λ g. both x y g.1) groups ≡ (if repr x == repr y then 1 else 0)
  both-tally x y lx ly =
      let entries = classes repr (range 0 size) groups h in
      elim (Bool-cases (repr x == repr y)) [
        | inl e ↦ rw e (
            tally-ext (λ g. both x y g.1) (keyed (repr x)) groups
              (All-map_implies (λ g k. both-entry x y g.0 g.1 lx ly k ∙ ground (arith, e)) groups
                entries)
            ∙ one_root x lx)
        | inr e ↦ rw e (
            tally-ext (λ g. both x y g.1) (λ _. false) groups
              (All-map_implies (λ g k. both-entry x y g.0 g.1 lx ly k ∙ ground (arith, e)) groups
                entries)
            ∙ tally-false groups)
      ]
