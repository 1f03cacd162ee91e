-- ===== src/Matching/Clustering/Tests.antt =====
-- The theorems on backend/app/matching/clustering.py for five indices and three edges.
use ai_data_operations_emplo.Prelude.{
  arith, suc, ℕ, ◌≡◌, ◌≢◌, ◌≤◌, ◌<◌, ◌↔◌, some, List, [], ◌∷◌, ◌==◌, select, tally, All,
}
use ai_data_operations_emplo.Matching.Clustering.{
  UnionFind, singletons, find, components, compress, climb, total_rank,
}
use ai_data_operations_emplo.Matching.Clustering.Partition.{
  Connected, union_all, union_all_lem, find_ends,
}
use ai_data_operations_emplo.Matching.Clustering.Components.{
  Groups, keyed, members_of, range, components_lem,
}

abbrev edges : List (ℕ × ℕ)
edges = (0, 3) ∷ (3, 1) ∷ (4, 4) ∷ []

union_all_example :
    (uf : UnionFind) × (union_all edges (singletons 5) ≡ some uf)
    × ((x y : ℕ)
        → x < 5
        → y < 5
        → (r s : ℕ) × (u v : UnionFind) × (find uf x ≡ some (r, u))
          × (find uf y ≡ some (s, v))
          × ((r ≡ s) ↔ Connected edges x y))
union_all_example =
    union_all_lem 5 edges
      ((omega arith, omega arith), ((omega arith, omega arith), ((omega arith, omega arith), tt)))

find_ends_example :
    (uf : UnionFind) × (union_all edges (singletons 5) ≡ some uf)
    × ((x fuel : ℕ)
        → x < 5
        → suc (total_rank 5 uf.rank) ≤ fuel
        → (root : ℕ) × (climb fuel uf.parent x ≡ root)
          × (uf.parent root ≡ root)
          × (compress fuel root uf.parent x
              ≡ compress (suc (total_rank 5 uf.rank)) root uf.parent x))
find_ends_example =
    find_ends 5 edges
      ((omega arith, omega arith), ((omega arith, omega arith), ((omega arith, omega arith), tt)))

components_example :
    (uf : UnionFind) × (groups : Groups) × (uf' : UnionFind) × (repr : ℕ → ℕ) × (union_all edges
        (singletons 5)
      ≡ some uf)
    × (components uf ≡ some (groups, uf'))
    × ((x y : ℕ) → (repr x ≡ repr y) ↔ Connected edges x y)
    × ((r : ℕ) → tally (keyed r) groups ≤ 1)
    × All (λ g. g.1 ≢ []) groups
    × ((r : ℕ) → members_of r groups ≡ select (λ j. repr j == r) (range 0 5))
components_example =
    components_lem 5 edges
      ((omega arith, omega arith), ((omega arith, omega arith), ((omega arith, omega arith), tt)))
