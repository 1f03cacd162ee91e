-- ===== src/Matching/Clustering/Components.antt =====
-- `components` of backend/app/matching/clustering.py.
use ai_data_operations_emplo.Prelude.{
  ℕ, zero, suc, ◌+◌, ◌≤◌, ◌<◌, ◌≡◌, ◌≢◌, ◌↔◌, refl, ap, ◌∙◌, inl, inr, Bool, some, List, [], ◌∷◌,
  ◌++◌, ◌==◌, if◌then◌else◌, arith, Bool-cases, select, All, tally,
}
use mathlib.Core.List.{append_assoc, append-nil}
use ai_data_operations_emplo.Matching.Clustering.{
  UnionFind, singletons, add_member, components_loop, components,
}
use ai_data_operations_emplo.Matching.Clustering.Roots.{find_lem}
use ai_data_operations_emplo.Matching.Clustering.Partition.{
  Clusters, Clusters-singletons, Connected, union_all, union_all-Clusters,
}

abbrev pub Groups : Type 0
Groups = List (ℕ × List ℕ)

-- `range(i, i + n)`
unfoldable pub range : ℕ → ℕ → List ℕ
range i zero = []
range i (suc n) = i ∷ range (i + 1) n

-- The members of the group of a root, and whether there is one.
unfoldable pub members_of : ℕ → Groups → List ℕ
members_of r [] = []
members_of r ((root, members) ∷ groups) = if root == r then members else members_of r groups

abbrev pub keyed : ℕ → ℕ × List ℕ → Bool
keyed r group = group.0 == r

members_of-add_member :
    (root i r : ℕ) (groups : Groups)
    → members_of r (add_member root i groups)
      ≡ (if root == r then members_of r groups ++ i ∷ [] else members_of r groups)
unfolding members_of add_member
members_of-add_member root i r [] = ground arith
members_of-add_member root i r ((k, members) ∷ groups) =
    ground (arith, members_of-add_member root i r groups)

tally-add_member :
    (root i r : ℕ) (groups : Groups)
    → tally (keyed r) (add_member root i groups) ≡ (
        if root == r
        then (if tally (keyed r) groups == 0 then 1 else tally (keyed r) groups)
        else tally (keyed r) groups)
unfolding add_member
tally-add_member root i r [] = ground arith
tally-add_member root i r ((k, members) ∷ groups) = ground (arith, tally-add_member root i r groups)

-- The roots of the groups are distinct, no group is empty, and each has the indices of its root among
-- those seen.
pub record IsGrouping (repr : ℕ → ℕ) (seen : List ℕ) (groups : Groups) : Type 0 where
  pub distinct : (r : ℕ) → tally (keyed r) groups ≤ 1
  pub full : All (λ g. g.1 ≢ []) groups
  pub exact : (r : ℕ) → members_of r groups ≡ select (λ j. repr j == r) seen

append-one-ne-nil : (members : List ℕ) (i : ℕ) → members ++ i ∷ [] ≢ []
append-one-ne-nil [] i e = cc e
append-one-ne-nil (x ∷ members) i e = cc e

full-add_member :
    (root i : ℕ) (groups : Groups)
    → All (λ g. g.1 ≢ []) groups
    → All (λ g. g.1 ≢ []) (add_member root i groups)
unfolding add_member
full-add_member root i [] h = ((λ e. cc e), tt)
full-add_member root i ((k, members) ∷ groups) h = elim (Bool-cases (k == root)) [
  | inl e ↦ rw e (append-one-ne-nil members i, h.1)
  | inr e ↦ rw e (h.0, full-add_member root i groups h.1)
]

select-append :
    (test : ℕ → Bool) (xs ys : List ℕ) → select test (xs ++ ys) ≡ select test xs ++ select test ys
select-append test [] ys = refl
select-append test (x ∷ xs) ys = elim (Bool-cases (test x)) [
  | inl e ↦ rw e (ap (◌∷◌ x) (select-append test xs ys))
  | inr e ↦ rw e (select-append test xs ys)
]

IsGrouping-add_member :
    (repr : ℕ → ℕ) (seen : List ℕ) (groups : Groups) (i : ℕ)
    → IsGrouping repr seen groups
    → IsGrouping repr (seen ++ i ∷ []) (add_member (repr i) i groups)
IsGrouping-add_member repr seen groups i h = record {
  distinct = λ r. ground (arith, h.distinct r, tally-add_member (repr i) i r groups);
  full = full-add_member (repr i) i groups h.full;
  exact = λ r. ground (
    arith,
    h.exact r,
    members_of-add_member (repr i) i r groups,
    select-append (λ j. repr j == r) seen (i ∷ []),
    append-nil (select (λ j. repr j == r) seen),
  );
}

components_loop-IsGrouping :
    (size : ℕ) (edges : List (ℕ × ℕ)) (left i : ℕ) (uf : UnionFind) (seen : List ℕ)
    (groups : Groups) (c : Clusters size edges uf)
    → i + left ≤ size
    → IsGrouping c.repr seen groups
    → (result : Groups) × (uf' : UnionFind) × (c' : Clusters size edges uf') × (components_loop left
          i uf groups
        ≡ some (result, uf'))
      × (c'.repr ≡ c.repr)
      × IsGrouping c.repr (seen ++ range i left) result
unfolding components_loop range
components_loop-IsGrouping size edges zero i uf seen groups c lt h =
    (groups, uf, c, refl, refl, rw (append-nil seen) h)
components_loop-IsGrouping size edges (suc left) i uf seen groups c lt h =
    let (p, e, represents) = find_lem c.repr uf i c.represents (rw c.sized (omega arith)) in
    let uf1 : UnionFind = record uf { parent = p } in
    let c1 : Clusters size edges uf1 = record {
      repr = c.repr;
      represents = represents;
      sized = c.sized;
      sound = c.sound;
      complete = c.complete;
    } in
    let (result, uf', c', done, same, g) =
      components_loop-IsGrouping size edges left (i + 1) uf1 (seen ++ i ∷ [])
        (add_member (c.repr i) i groups) c1 (omega arith)
        (IsGrouping-add_member c.repr seen groups i h) in
    (result, uf', c', rw e done, same, rw (append_assoc seen (i ∷ []) (range (i + 1) left)) at g)

pub components-IsGrouping :
    (size : ℕ) (edges : List (ℕ × ℕ)) (uf : UnionFind) (c : Clusters size edges uf)
    → (groups : Groups) × (uf' : UnionFind) × (c' : Clusters size edges uf') × (components uf
        ≡ some (groups, uf'))
      × (c'.repr ≡ c.repr)
      × IsGrouping c.repr (range 0 size) groups
unfolding components members_of
components-IsGrouping size edges uf c =
    let (groups, uf', c', done, same, g) =
      components_loop-IsGrouping size edges size 0 uf [] [] c (omega arith)
        (record { distinct = λ r. omega arith; full = tt; exact = λ r. refl }) in
    (groups, uf', c', ap (λ n. components_loop n 0 uf []) c.sized ∙ done, same, g)

-- After a union for each of a list of edges between indices below the size, `components` does not
-- raise. There is a choice of a root for each index, the same for two indices exactly when the edges
-- connect them, such that the result has at most one group for a root, no empty group, and as the
-- group of each root the list, in increasing order, of all the indices below the size with that root.
pub components_lem :
    (size : ℕ) (edges : List (ℕ × ℕ))
    → All (λ e. (e.0 < size) × (e.1 < size)) edges
    → (uf : UnionFind) × (groups : Groups) × (uf' : UnionFind) × (repr : ℕ → ℕ) × (union_all edges
          (singletons size)
        ≡ some uf)
      × (components uf ≡ some (groups, uf'))
      × ((x y : ℕ) → (repr x ≡ repr y) ↔ Connected edges x y)
      × ((r : ℕ) → tally (keyed r) groups ≤ 1)
      × All (λ g. g.1 ≢ []) groups
      × ((r : ℕ) → members_of r groups ≡ select (λ j. repr j == r) (range 0 size))
components_lem size edges h =
    let (uf, made, c) =
      union_all-Clusters size [] edges (singletons size) (Clusters-singletons size) h in
    let (groups, uf', _, done, _, g) = components-IsGrouping size edges uf c in
    (
      uf,
      groups,
      uf',
      c.repr,
      made,
      done,
      λ x y. (c.sound x y, c.complete x y),
      g.distinct,
      g.full,
      g.exact,
    )
