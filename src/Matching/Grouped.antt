-- ===== src/Matching/Grouped.antt =====
-- The loop of stage 3 of `match` (backend/app/matching/engine.py) that makes the groups.
use ai_data_operations_emplo.Prelude.{
  ℕ, ◌+◌, ◌≤◌, ◌<◌, ◌≡◌, ◌≢◌, refl, ◌∙◌, inl, inr, Bool, true, false, some, List, [], ◌∷◌, ◌++◌,
  if◌then◌else◌, ltb, ◌==◌, arith, All, All-append-one, tally, tally-append, length, Bool-cases,
}
use ai_data_operations_emplo.Prelude.Order.{
  sort_by, insert_by, All-sort_by, tally-sort_by, length-sort_by,
}
use ai_data_operations_emplo.Matching.Groups.{
  Keyed, select_canonical, smallest, with_keys, sorted_components, Grouped, new_group, add_group,
  group_loop,
}
use ai_data_operations_emplo.Matching.Identical.{contains, All-contains}
use ai_data_operations_emplo.Matching.Pairings.{both}
use ai_data_operations_emplo.Matching.Tracked.{Arguments}
use ai_data_operations_emplo.Matching.Types.{Group}

-- The smallest of some rows.
pub record IsLeast (row : ℕ) (members : List ℕ) : Type 0 where
  pub member : contains row members ≡ true
  pub least : All (λ i. row ≤ i) members

smallest-le :
    (best : ℕ) (xs : List ℕ) → (smallest best xs ≤ best) × All (λ i. smallest best xs ≤ i) xs
unfolding smallest
smallest-le best [] = (omega arith, tt)
smallest-le best (i ∷ xs) =
    let (below, all) = smallest-le (if ltb i best then i else best) xs in
    (ground (arith, below), (ground (arith, below), all))

chosen-contains :
    (s best i : ℕ) (xs : List ℕ)
    → contains s ((if ltb i best then i else best) ∷ xs) ≡ true
    → contains s (best ∷ i ∷ xs) ≡ true
chosen-contains s best i xs h = ground (arith, h)

smallest-contains : (best : ℕ) (xs : List ℕ) → contains (smallest best xs) (best ∷ xs) ≡ true
unfolding smallest
smallest-contains best [] = ground arith
smallest-contains best (i ∷ xs) =
    chosen-contains (smallest (if ltb i best then i else best) xs) best i xs
      (smallest-contains (if ltb i best then i else best) xs)

select_canonical-IsLeast :
    (members : List ℕ)
    → members ≢ []
    → (c : ℕ) × (select_canonical members ≡ some c) × IsLeast c members
unfolding select_canonical
select_canonical-IsLeast [] h = absurd (h refl)
select_canonical-IsLeast (i ∷ members) h = (
  smallest i members,
  refl,
  record { member = smallest-contains i members; least = smallest-le i members },
)

contains-insert_by : (x i : ℕ) (xs : List ℕ) → contains x (insert_by ltb i xs) ≡ contains x (i ∷ xs)
unfolding insert_by
contains-insert_by x i [] = refl
contains-insert_by x i (j ∷ xs) = ground (arith, contains-insert_by x i xs)

contains-sort_by : (x : ℕ) (xs : List ℕ) → contains x (sort_by ltb xs) ≡ contains x xs
unfolding sort_by
contains-sort_by x [] = refl
contains-sort_by x (i ∷ xs) =
    ground (arith, contains-insert_by x i (sort_by ltb xs), contains-sort_by x xs)

IsLeast-sorted : (c : ℕ) (members : List ℕ) → IsLeast c members → IsLeast c (sort_by ltb members)
IsLeast-sorted c members h = record {
  member = contains-sort_by c members ∙ h.member;
  least = All-sort_by ltb (λ i. c ≤ i) members h.least;
}

both-few :
    (x y : ℕ) (members : List ℕ) → x ≢ y → ltb (length members) 2 ≡ true → both x y members ≡ false
both-few x y [] ne h = refl
both-few x y (i ∷ []) ne h = ground (arith, ne)
both-few x y (i ∷ j ∷ members) ne h = absurd (ground (arith, h))

-- No row occurs twice.
abbrev pub Once : List ℕ → Type 0
Once members = (i : ℕ) → tally (λ j. j == i) members ≤ 1

-- At least two rows, none of them twice.
abbrev pub IsSeveral : List ℕ → Type 0
IsSeveral members = (2 ≤ length members) × Once members

IsSeveral-sorted :
    (members : List ℕ)
    → ltb (length members) 2 ≡ false
    → Once members
    → IsSeveral (sort_by ltb members)
IsSeveral-sorted members large once = (
  ground (arith, large, length-sort_by ltb members),
  λ i. omega (arith, once i, tally-sort_by ltb (λ j. j == i) members),
)

module _ (n : ℕ) where
  -- A component: some rows of the table, none of them twice.
  abbrev pub IsComponent : List ℕ → Type 0
  IsComponent members = (members ≢ []) × All (λ i. i < n) members × Once members

  pub with_keys-returns :
      (components : List (ℕ × List ℕ))
      → All (λ g. IsComponent g.1) components
      → (entries : List Keyed) × (with_keys components ≡ some entries)
        × All (λ e. IsComponent e.2) entries
        × ((test : List ℕ → Bool)
            → tally (λ e. test e.2) entries ≡ tally (λ g. test g.1) components)
  unfolding with_keys
  with_keys-returns [] h = ([], refl, tt, λ test. refl)
  with_keys-returns ((root, members) ∷ components) h =
      let (key, chosen, _) = select_canonical-IsLeast members h.0.0 in
      let (entries, made, all, same) = with_keys-returns components h.1 in
      (
        (key, root, members) ∷ entries,
        rw (chosen, made) refl,
        (h.0, all),
        λ test. rw (same test) refl,
      )

  pub sorted_components-returns :
      (components : List (ℕ × List ℕ))
      → All (λ g. IsComponent g.1) components
      → (entries : List Keyed) × (sorted_components components ≡ some entries)
        × All (λ e. IsComponent e.2) entries
        × ((test : List ℕ → Bool)
            → tally (λ e. test e.2) entries ≡ tally (λ g. test g.1) components)
  unfolding sorted_components
  sorted_components-returns components h =
      let (entries, made, all, same) = with_keys-returns components h in
      (
        sort_by (λ p q. ltb p.0 q.0) entries,
        rw made refl,
        All-sort_by (λ p q. ltb p.0 q.0) (λ e. IsComponent e.2) entries all,
        λ test. tally-sort_by (λ p q. ltb p.0 q.0) (λ e. test e.2) entries ∙ same test,
      )

module _ (args : Arguments) where
  -- The canonical row is the smallest member, and the members are at least two rows, none twice.
  pub record IsGroup (g : Group args.library) : Type 0 where
    pub canonical : IsLeast g.canonical_row_index g.member_row_indices
    pub canonical_row : g.canonical_row_index < length args.rows
    pub rows : All (λ i. i < length args.rows) g.member_row_indices
    pub several : IsSeveral g.member_row_indices

  abbrev pub holding : ℕ → ℕ → List (Group args.library) → ℕ
  holding x y groups = tally (λ g. both x y g.member_row_indices) groups

  add_group-returns :
      (root : ℕ) (members : List ℕ) (grouped : Grouped args.library args.arithmetic)
      → IsComponent (length args.rows) members
      → ltb (length members) 2 ≡ false
      → All IsGroup grouped.0
      → (after : Grouped args.library args.arithmetic) × (add_group args.library args.arithmetic
            root members grouped
          ≡ some after)
        × All IsGroup after.0
        × ((x y : ℕ)
            → holding x y after.0 ≡ holding x y grouped.0 + (if both x y members then 1 else 0))
  unfolding add_group
  add_group-returns root members (groups, index) h large all =
      let (c, chosen, least) = select_canonical-IsLeast members h.0 in
      let g = new_group args.library args.arithmetic c members in
      (
        (groups ++ g ∷ [], λ r. if r == root then some (length groups) else index r),
        rw chosen refl,
        All-append-one IsGroup groups g all (record {
          canonical = IsLeast-sorted c members least;
          canonical_row = All-contains (λ i. i < length args.rows) c members h.1 least.member;
          rows = All-sort_by ltb (λ i. i < length args.rows) members h.1;
          several = IsSeveral-sorted members large h.2;
        }),
        λ x y.
            let append = tally-append (λ g. both x y g.member_row_indices) groups (g ∷ []) in
            rw (contains-sort_by x members, contains-sort_by y members) at append,
      )

  -- One round of the loop: two different rows are in no group that is passed over.
  IsGroup-round :
      (root : ℕ) (members : List ℕ) (grouped : Grouped args.library args.arithmetic)
      → IsComponent (length args.rows) members
      → All IsGroup grouped.0
      → (after : Grouped args.library args.arithmetic) × ((if ltb (length members) 2
            then some grouped
            else add_group args.library args.arithmetic root members grouped)
          ≡ some after)
        × All IsGroup after.0
        × ((x y : ℕ)
            → x ≢ y
            → holding x y after.0 ≡ holding x y grouped.0 + (if both x y members then 1 else 0))
  IsGroup-round root members grouped h all = elim (Bool-cases (ltb (length members) 2)) [
    | inl e ↦
        rw e
          (grouped, refl, all, λ x y ne. let no = both-few x y members ne e in rw no (omega arith))
    | inr e ↦
        let (after, made, all', counted) = add_group-returns root members grouped h e all in
        rw e (after, made, all', λ x y _. counted x y)
  ]

  pub group_loop-returns :
      (entries : List Keyed) (grouped : Grouped args.library args.arithmetic)
      → All (λ e. IsComponent (length args.rows) e.2) entries
      → All IsGroup grouped.0
      → (after : Grouped args.library args.arithmetic) × (group_loop args.library args.arithmetic
            entries grouped
          ≡ some after)
        × All IsGroup after.0
        × ((x y : ℕ)
            → x ≢ y
            → holding x y after.0 ≡ holding x y grouped.0 + tally (λ e. both x y e.2) entries)
  unfolding group_loop
  group_loop-returns [] grouped h all = (grouped, refl, all, λ x y ne. omega arith)
  group_loop-returns ((key, root, members) ∷ entries) grouped h all =
      let (grouped1, e1, all1, c1) = IsGroup-round root members grouped h.0 all in
      let (grouped2, e2, all2, c2) = group_loop-returns entries grouped1 h.1 all1 in
      (grouped2, rw e1 e2, all2, λ x y ne. ground (arith, c1 x y ne, c2 x y ne))
