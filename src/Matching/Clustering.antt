-- ===== src/Matching/Clustering.antt =====
-- backend/app/matching/clustering.py. The two arrays are functions, of which the indices below `size`
-- are read; `none` is the IndexError of an index that is not below it.
pub mod Roots
pub mod Joins
pub mod Partition
pub mod Components
mod Tests
use ai_data_operations_emplo.Prelude.{
  ℕ, zero, suc, ◌+◌, Bool, true, false, Option, none, some, List, [], ◌∷◌, ◌++◌, ltb, ◌==◌,
  if◌then◌else◌, ◌>>=◌,
}

pub record UnionFind : Type 0 where
  pub size : ℕ
  pub parent : ℕ → ℕ
  pub rank : ℕ → ℕ

abbrev pub assign : ℕ → ℕ → (ℕ → ℕ) → ℕ → ℕ
assign x v f i = if i == x then v else f i

-- `UnionFind(size)`
abbrev pub singletons : ℕ → UnionFind
singletons size = record { size = size; parent = λ i. i; rank = λ _. 0 }

-- The ranks of the first indices together: the fuel of both loops of `find`.
unfoldable pub total_rank : ℕ → (ℕ → ℕ) → ℕ
total_rank zero rank = 0
total_rank (suc n) rank = rank n + total_rank n rank

-- `while self._parent[root] != root: root = self._parent[root]`
unfoldable pub climb : ℕ → (ℕ → ℕ) → ℕ → ℕ
climb zero parent root = root
climb (suc fuel) parent root = elim (parent root == root) [
  | true ↦ root
  | false ↦ climb fuel parent (parent root)
]

-- `while self._parent[x] != root: self._parent[x], x = root, self._parent[x]`
unfoldable pub compress : ℕ → ℕ → (ℕ → ℕ) → ℕ → ℕ → ℕ
compress zero root parent x = parent
compress (suc fuel) root parent x = elim (parent x == root) [
  | true ↦ parent
  | false ↦ compress fuel root (assign x root parent) (parent x)
]

unfoldable pub find_root : UnionFind → ℕ → ℕ × UnionFind
find_root uf x =
    let fuel = suc (total_rank uf.size uf.rank) in
    let root = climb fuel uf.parent x in
    (root, record uf { parent = compress fuel root uf.parent x })

unfoldable pub find : UnionFind → ℕ → Option (ℕ × UnionFind)
find uf x = if ltb x uf.size then some (find_root uf x) else none

-- The rest of `union` once the two roots differ and the first has no smaller rank.
abbrev pub attach : ℕ → ℕ → UnionFind → UnionFind
attach root_a root_b uf = record uf {
  parent = assign root_b root_a uf.parent;
  rank =
      if uf.rank root_a == uf.rank root_b
      then assign root_a (uf.rank root_a + 1) uf.rank
      else uf.rank;
}

unfoldable pub link : ℕ → ℕ → UnionFind → UnionFind
link root_a root_b uf =
    if root_a == root_b
    then uf
    else (if ltb (uf.rank root_a) (uf.rank root_b)
        then attach root_b root_a uf
        else attach root_a root_b uf)

unfoldable pub union : UnionFind → ℕ → ℕ → Option UnionFind
union uf a b = do
  (root_a, uf_a) ← find uf a
  (root_b, uf_b) ← find uf_a b
  some (link root_a root_b uf_b)

-- `members_by_root.setdefault(root, []).append(i)`
unfoldable pub add_member : ℕ → ℕ → List (ℕ × List ℕ) → List (ℕ × List ℕ)
add_member root i [] = (root, i ∷ []) ∷ []
add_member root i ((r, members) ∷ groups) =
    if r == root then (r, members ++ i ∷ []) ∷ groups else (r, members) ∷ add_member root i groups

-- The loop of `components` over the `left` indices from `i` on.
unfoldable pub components_loop :
    ℕ → ℕ → UnionFind → List (ℕ × List ℕ) → Option (List (ℕ × List ℕ) × UnionFind)
components_loop zero i uf groups = some (groups, uf)
components_loop (suc left) i uf groups =
    find uf i >>= λ (p : ℕ × UnionFind). components_loop left (i + 1) p.1 (add_member p.0 i groups)

unfoldable pub components : UnionFind → Option (List (ℕ × List ℕ) × UnionFind)
components uf = components_loop uf.size 0 uf []
