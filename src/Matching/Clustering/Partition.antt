-- ===== src/Matching/Clustering/Partition.antt =====
-- The partition that a sequence of unions (backend/app/matching/clustering.py) leaves.
use mathlib.Core.List.{Memᴰ}
use mathlib.Core.List.Memᴰ
use ai_data_operations_emplo.Prelude.{
  ℕ, ◌≤◌, ◌<◌, suc, arith, ◌≡◌, ◌↔◌, refl, sym, ap, ◌∙◌, inl, inr, Option, some, List, [], ◌∷◌,
  ◌++◌, All, ◌>>=◌,
}
use mathlib.Core.List.{append_assoc, append-nil}
use ai_data_operations_emplo.Matching.Clustering.{
  UnionFind, singletons, find, union, climb, compress, total_rank,
}
use ai_data_operations_emplo.Matching.Clustering.Roots.{
  Represents, climb-repr, compress_ends, find_lem,
}
use ai_data_operations_emplo.Matching.Clustering.Joins.{union_lem, Joined}

-- The closure of the edges as an equivalence.
pub data Connected (edges : List (ℕ × ℕ)) : ℕ → ℕ → Type 0 where
  itself : {x : ℕ} → Connected edges x x
  edge : {x y : ℕ} → Memᴰ (x, y) edges → Connected edges x y
  back : {x y : ℕ} → Connected edges x y → Connected edges y x
  chain : {x y z : ℕ} → Connected edges x y → Connected edges y z → Connected edges x z

pub Connected-append :
    {edges : List (ℕ × ℕ)} {x y : ℕ} (more : List (ℕ × ℕ))
    → Connected edges x y
    → Connected (edges ++ more) x y
Connected-append more itself = itself
Connected-append more (edge m) = edge (Memᴰ.append_left more m)
Connected-append more (back c) = back (Connected-append more c)
Connected-append more (chain c d) = chain (Connected-append more c) (Connected-append more d)

-- The structure holds the indices below `size`, and two of them share a root exactly when the edges
-- connect them.
pub record Clusters (size : ℕ) (edges : List (ℕ × ℕ)) (uf : UnionFind) : Type 0 where
  pub repr : ℕ → ℕ
  pub represents : Represents uf repr
  pub sized : uf.size ≡ size
  pub sound : (x y : ℕ) → repr x ≡ repr y → Connected edges x y
  pub complete : (x y : ℕ) → Connected edges x y → repr x ≡ repr y

unconnected : {x y : ℕ} → Connected [] x y → x ≡ y
unconnected itself = refl
unconnected (edge m) = elim m [ ]
unconnected (back c) = sym (unconnected c)
unconnected (chain c d) = unconnected c ∙ unconnected d

pub Clusters-singletons : (size : ℕ) → Clusters size [] (singletons size)
Clusters-singletons size = record {
  repr = λ i. i;
  represents = record {
    up = λ x. refl;
    fixed = λ x. refl;
    self = λ x e. refl;
    ranked = λ x e. absurd (e refl);
    below = λ x e. absurd (e refl);
    inside = λ x lt. lt;
    root_inside = λ x lt. lt;
  };
  sized = refl;
  sound = λ x y e. rw e itself;
  complete = λ x y c. unconnected c;
}

module _ (edges : List (ℕ × ℕ)) (repr repr' : ℕ → ℕ) (a b : ℕ)
    (joined : Joined repr repr' a b) where
  last_edge : Connected (edges ++ (a, b) ∷ []) a b
  last_edge = edge (Memᴰ.append_right edges (Memᴰ.head refl))

  joined_sound :
      ((x y : ℕ) → repr x ≡ repr y → Connected edges x y)
      → (x y : ℕ) → repr' x ≡ repr' y
      → Connected (edges ++ (a, b) ∷ []) x y
  joined_sound sound x y e = elim ((joined x y).0 e) [
    | inl s ↦ Connected-append ((a, b) ∷ []) (sound x y s)
    | inr (inl (s, t)) ↦
        chain (Connected-append ((a, b) ∷ []) (sound x a s))
          (chain last_edge (Connected-append ((a, b) ∷ []) (sound b y (sym t))))
    | inr (inr (s, t)) ↦
        chain (Connected-append ((a, b) ∷ []) (sound x b s))
          (chain (back last_edge) (Connected-append ((a, b) ∷ []) (sound a y (sym t))))
  ]

  joined_complete :
      ((x y : ℕ) → Connected edges x y → repr x ≡ repr y)
      → {x y : ℕ} → Connected (edges ++ (a, b) ∷ []) x y
      → repr' x ≡ repr' y
  joined_complete complete itself = refl
  joined_complete complete {x} {y} (edge m) = elim (Memᴰ.append_cases edges m) [
    | inl m' ↦ (joined x y).1 (inl (complete x y (edge m')))
    | inr m' ↦
        let same : (x, y) ≡ (a, b) = Memᴰ.eq_of_singleton m' in
        (joined x y).1 (inr (inl (ap (λ p. repr p.0) same, ap (λ p. repr p.1) same)))
  ]
  joined_complete complete (back c) = sym (joined_complete complete c)
  joined_complete complete (chain c d) = joined_complete complete c ∙ joined_complete complete d

-- A union adds its edge.
pub union-Clusters :
    (size : ℕ) (edges : List (ℕ × ℕ)) (uf : UnionFind) (a b : ℕ)
    → Clusters size edges uf
    → a < size
    → b < size
    → (uf' : UnionFind) × (union uf a b ≡ some uf') × Clusters size (edges ++ (a, b) ∷ []) uf'
union-Clusters size edges uf a b c la lb =
    let (uf', repr', done, sized, represents, joined) =
      union_lem c.repr a b uf c.represents (rw c.sized la) (rw c.sized lb) in
    (
      uf',
      done,
      record {
        repr = repr';
        represents = represents;
        sized = sized ∙ c.sized;
        sound = joined_sound edges c.repr repr' a b joined c.sound;
        complete = λ x y k. joined_complete edges c.repr repr' a b joined c.complete k;
      },
    )

-- `union` for every edge in turn.
unfoldable pub union_all : List (ℕ × ℕ) → UnionFind → Option UnionFind
union_all [] uf = some uf
union_all ((a, b) ∷ edges) uf = union uf a b >>= union_all edges

pub union_all-Clusters :
    (size : ℕ) (seen edges : List (ℕ × ℕ)) (uf : UnionFind)
    → Clusters size seen uf
    → All (λ e. (e.0 < size) × (e.1 < size)) edges
    → (uf' : UnionFind) × (union_all edges uf ≡ some uf') × Clusters size (seen ++ edges) uf'
unfolding union_all
union_all-Clusters size seen [] uf c h = (uf, refl, rw (append-nil seen) c)
union_all-Clusters size seen ((a, b) ∷ edges) uf c h =
    let (uf1, e1, c1) = union-Clusters size seen uf a b c h.0.0 h.0.1 in
    let (uf2, e2, c2) = union_all-Clusters size (seen ++ (a, b) ∷ []) edges uf1 c1 h.1 in
    (uf2, rw e1 e2, rw (append_assoc seen ((a, b) ∷ []) edges) at c2)

-- After a union for each of a list of edges between indices below the size, in any order, no call
-- has raised, and `find` of two indices returns the same root exactly when they stand in the
-- equivalence that the edges generate.
pub union_all_lem :
    (size : ℕ) (edges : List (ℕ × ℕ))
    → All (λ e. (e.0 < size) × (e.1 < size)) edges
    → (uf : UnionFind) × (union_all edges (singletons size) ≡ some uf)
      × ((x y : ℕ)
          → x < size
          → y < size
          → (r s : ℕ) × (u v : UnionFind) × (find uf x ≡ some (r, u))
            × (find uf y ≡ some (s, v))
            × ((r ≡ s) ↔ Connected edges x y))
union_all_lem size edges h =
    let (uf, done, c) =
      union_all-Clusters size [] edges (singletons size) (Clusters-singletons size) h in
    (
      uf,
      done,
      λ x y lx ly.
          let (px, ex, _) = find_lem c.repr uf x c.represents (rw c.sized lx) in
          let (py, ey, _) = find_lem c.repr uf y c.represents (rw c.sized ly) in
          (c.repr x, c.repr y, _, _, ex, ey, (c.sound x y, c.complete x y)),
    )

-- The two loops of `find` end. After a union for each of a list of edges between indices below the
-- size, for any index below it, neither loop goes on after as many rounds as the ranks add up to, and
-- one more: with more rounds allowed, the root is the same and so are the parents.
pub find_ends :
    (size : ℕ) (edges : List (ℕ × ℕ))
    → All (λ e. (e.0 < size) × (e.1 < size)) edges
    → (uf : UnionFind) × (union_all edges (singletons size) ≡ some uf)
      × ((x fuel : ℕ)
          → x < size
          → suc (total_rank size uf.rank) ≤ fuel
          → (root : ℕ) × (climb fuel uf.parent x ≡ root)
            × (uf.parent root ≡ root)
            × (compress fuel root uf.parent x
                ≡ compress (suc (total_rank size uf.rank)) root uf.parent x))
find_ends size edges h =
    let (uf, made, c) =
      union_all-Clusters size [] edges (singletons size) (Clusters-singletons size) h in
    (
      uf,
      made,
      λ x fuel lt le.
          let enough = ap (λ n. total_rank n uf.rank) c.sized in
          let inside : x < uf.size = rw c.sized lt in
          (
            c.repr x,
            climb-repr c.repr uf fuel x c.represents inside (omega (arith, enough)),
            c.represents.fixed x,
            compress_ends c.repr (suc (total_rank size uf.rank)) fuel uf (c.repr x) x c.represents
                inside refl (omega (arith, enough)) le,
          ),
    )
