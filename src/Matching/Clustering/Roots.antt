-- ===== src/Matching/Clustering/Roots.antt =====
-- What the arrays of backend/app/matching/clustering.py represent, and `find` in these terms.
use ai_data_operations_emplo.Prelude.{
  ℕ, zero, suc, ◌+◌, ◌≤◌, ◌<◌, ◌≡◌, ◌≢◌, refl, sym, ◌∙◌, inl, inr, true, some, ltb, ◌==◌, ==_iff,
  arith, Bool-cases,
}
use ai_data_operations_emplo.Matching.Clustering.{
  UnionFind, assign, total_rank, climb, compress, find_root, find,
}

-- `repr x` is the root of `x`: parents have the same root, roots are their own parents, and along a
-- path to the root the ranks grow.
pub record Represents (uf : UnionFind) (repr : ℕ → ℕ) : Type 0 where
  pub up : (x : ℕ) → repr (uf.parent x) ≡ repr x
  pub fixed : (x : ℕ) → uf.parent (repr x) ≡ repr x
  pub self : (x : ℕ) → uf.parent x ≡ x → repr x ≡ x
  pub ranked : (x : ℕ) → repr x ≢ x → uf.rank x < uf.rank (uf.parent x)
  pub below : (x : ℕ) → repr x ≢ x → uf.rank x < uf.rank (repr x)
  pub inside : (x : ℕ) → x < uf.size → uf.parent x < uf.size
  pub root_inside : (x : ℕ) → x < uf.size → repr x < uf.size

rank-le-total : (n : ℕ) (rank : ℕ → ℕ) (x : ℕ) → x < n → rank x ≤ total_rank n rank
unfolding total_rank
rank-le-total zero rank x h = absurd (omega arith)
rank-le-total (suc n) rank x h = elim (Bool-cases (x == n)) [
  | inl e ↦ let same = (==_iff x n).0 e in rw same (omega arith)
  | inr e ↦ let less : x < n = ground (arith, h, e) in omega (arith, rank-le-total n rank x less)
]

module _ (repr : ℕ → ℕ) where
  root-of-root : (uf : UnionFind) (x : ℕ) → Represents uf repr → repr (repr x) ≡ repr x
  root-of-root uf x h = h.self (repr x) (h.fixed x)

  own_parent : (uf : UnionFind) (x : ℕ) → Represents uf repr → repr x ≡ x → uf.parent x ≡ x
  own_parent uf x h e = rw e at (h.fixed x)

  -- With fuel for the ranks that are left, the loop ends at the root.
  pub climb-repr :
      (uf : UnionFind) (fuel x : ℕ)
      → Represents uf repr
      → x < uf.size
      → total_rank uf.size uf.rank < fuel + uf.rank x
      → climb fuel uf.parent x ≡ repr x
  unfolding climb
  climb-repr uf zero x h lt enough =
      let most = rank-le-total uf.size uf.rank x lt in absurd (omega arith)
  climb-repr uf (suc fuel) x h lt enough = elim (Bool-cases (uf.parent x == x)) [
    | inl e ↦ rw (e, climb) (sym (h.self x ((==_iff (uf.parent x) x).0 e)))
    | inr e ↦
        let grows = h.ranked x (λ s. cc (e, (==_iff (uf.parent x) x).1 (own_parent uf x h s))) in
        rw (e, climb) (climb-repr uf fuel (uf.parent x) h (h.inside x lt) (omega arith) ∙ h.up x)
  ]

  -- One step of the path compression.
  Represents-assign :
      (uf : UnionFind) (x : ℕ)
      → Represents uf repr
      → x < uf.size
      → repr x ≢ x
      → Represents (record uf { parent = assign x (repr x) uf.parent }) repr
  Represents-assign uf x h lt other =
      let idem = root-of-root uf x h in
      record {
        up = λ z. ground (arith, idem, h.up z);
        fixed = λ z. ground (arith, other, h.fixed z, root-of-root uf z h);
        self = λ z e. ground (arith, e, idem, h.self z);
        ranked = λ z e. ground (arith, e, h.ranked z, h.below z);
        below = h.below;
        inside = λ z lt'. ground (arith, lt', h.inside z, h.root_inside x lt);
        root_inside = h.root_inside;
      }

  compress-Represents :
      (fuel : ℕ) (uf : UnionFind) (root x : ℕ)
      → Represents uf repr
      → x < uf.size
      → root ≡ repr x
      → Represents (record uf { parent = compress fuel root uf.parent x }) repr
  unfolding compress
  compress-Represents zero uf root x h lt e = h
  compress-Represents (suc fuel) uf root x h lt e = elim (Bool-cases (uf.parent x == root)) [
    | inl f ↦ rw (f, compress) h
    | inr f ↦
        let other : repr x ≢ x =
          λ s. cc (f, (==_iff (uf.parent x) root).1 (own_parent uf x h s ∙ sym s ∙ sym e)) in
        let next = Represents-assign uf x h lt other in
        rw (f, compress)
          (compress-Represents fuel (record uf { parent = assign x root uf.parent }) root
            (uf.parent x) (rw e next) (h.inside x lt) (e ∙ sym (h.up x)))
  ]

  -- With fuel for the ranks that are left, more fuel changes nothing: the loop has ended.
  pub compress_ends :
      (fuel k : ℕ) (uf : UnionFind) (root x : ℕ)
      → Represents uf repr
      → x < uf.size
      → root ≡ repr x
      → total_rank uf.size uf.rank < fuel + uf.rank x
      → fuel ≤ k
      → compress k root uf.parent x ≡ compress fuel root uf.parent x
  unfolding compress
  compress_ends zero k uf root x h lt e enough le =
      let most = rank-le-total uf.size uf.rank x lt in absurd (omega arith)
  compress_ends (suc fuel) zero uf root x h lt e enough le = absurd (omega arith)
  compress_ends (suc fuel) (suc k) uf root x h lt e enough le =
      elim (Bool-cases (uf.parent x == root)) [
        | inl f ↦ rw (f, compress) refl
        | inr f ↦
            let other : repr x ≢ x =
              λ s. cc (f, (==_iff (uf.parent x) root).1 (own_parent uf x h s ∙ sym s ∙ sym e)) in
            let next = Represents-assign uf x h lt other in
            let grows = h.ranked x other in
            rw (f, compress)
              (compress_ends fuel k (record uf { parent = assign x root uf.parent }) root
                (uf.parent x) (rw e next) (h.inside x lt) (e ∙ sym (h.up x)) (omega arith)
                (omega arith))
      ]

  pub find_lem :
      (uf : UnionFind) (x : ℕ)
      → Represents uf repr
      → x < uf.size
      → (parent : ℕ → ℕ) × (find uf x ≡ some (repr x, record uf { parent = parent }))
        × Represents (record uf { parent = parent }) repr
  unfolding find find_root
  find_lem uf x h lt =
      let fuel = suc (total_rank uf.size uf.rank) in
      let root = climb-repr uf fuel x h lt (omega arith) in
      let inside : ltb x uf.size ≡ true = ground (arith, lt) in
      (
        compress fuel (climb fuel uf.parent x) uf.parent x,
        rw (inside, root) refl,
        compress-Represents fuel uf (climb fuel uf.parent x) x h lt root,
      )
