-- ===== src/Matching/Clustering/Joins.antt =====
-- `union` of backend/app/matching/clustering.py: whose roots it joins.
use ai_data_operations_emplo.Prelude.{
  ℕ, ◌≤◌, ◌<◌, ◌≡◌, ◌≢◌, ◌⊎◌, ◌↔◌, refl, sym, inl, inr, some, ltb, ◌==◌, ==_iff, if◌then◌else◌,
  arith, Bool-cases,
}
use ai_data_operations_emplo.Matching.Clustering.{UnionFind, attach, link, union}
use ai_data_operations_emplo.Matching.Clustering.Roots.{Represents, find_lem}

-- The roots after the tree of `loser` hangs under `winner`.
abbrev pub merged : (winner loser : ℕ) → (ℕ → ℕ) → ℕ → ℕ
merged winner loser repr z = if repr z == loser then winner else repr z

module _ (uf : UnionFind) (repr : ℕ → ℕ) (winner loser : ℕ) where
  attach-Represents :
      Represents uf repr
      → uf.parent winner ≡ winner
      → uf.parent loser ≡ loser
      → winner ≢ loser
      → winner < uf.size
      → uf.rank loser ≤ uf.rank winner
      → Represents (attach winner loser uf) (merged winner loser repr)
  attach-Represents h w l apart inside le =
      let ww = h.self winner w in
      let ll = h.self loser l in
      record {
        up = λ z. ground (arith, w, l, apart, ww, ll, h.up z);
        fixed = λ z. ground (arith, w, l, apart, ww, ll, h.fixed z);
        self = λ z e. ground (arith, e, w, l, apart, ww, ll, h.self z);
        ranked = λ z e. ground (arith, e, w, l, apart, ww, ll, le, h.ranked z);
        below = λ z e. ground (arith, e, w, l, apart, ww, ll, le, h.below z);
        inside = λ z lt. ground (arith, lt, inside, h.inside z);
        root_inside = λ z lt. ground (arith, lt, inside, h.root_inside z);
      }

-- Two indices share a root after the union of `a` and `b` exactly when they did before, or one of
-- them was with `a` and the other with `b`.
abbrev pub Joined : (repr repr' : ℕ → ℕ) (a b : ℕ) → Type 0
Joined repr repr' a b =
    (x y : ℕ)
    → (repr' x ≡ repr' y) ↔ (
        (repr x ≡ repr y)
        ⊎ ((repr x ≡ repr a) × (repr y ≡ repr b))
        ⊎ ((repr x ≡ repr b) × (repr y ≡ repr a)))

module _ (repr : ℕ → ℕ) (a b : ℕ) where
  merged-Joined : Joined repr (merged (repr a) (repr b) repr) a b
  merged-Joined x y = (λ e. ground (arith, e), λ e. ground (arith, e))

  merged-Joined_swapped : Joined repr (merged (repr b) (repr a) repr) a b
  merged-Joined_swapped x y = (λ e. ground (arith, e), λ e. ground (arith, e))

  unmerged-Joined : repr a ≡ repr b → Joined repr repr a b
  unmerged-Joined same x y = (λ e. inl e, λ e. ground (arith, same, e))

  link_lem :
      (uf : UnionFind)
      → Represents uf repr
      → a < uf.size
      → b < uf.size
      → (repr' : ℕ → ℕ) × Represents (link (repr a) (repr b) uf) repr'
        × ((link (repr a) (repr b) uf).size ≡ uf.size)
        × Joined repr repr' a b
  unfolding link
  link_lem uf h la lb = elim (Bool-cases (repr a == repr b)) [
    | inl e ↦ (repr, rw e h, rw e refl, unmerged-Joined ((==_iff (repr a) (repr b)).0 e))
    | inr e ↦
        let apart : repr a ≢ repr b = λ s. cc (e, (==_iff (repr a) (repr b)).1 s) in
        elim (Bool-cases (ltb (uf.rank (repr a)) (uf.rank (repr b)))) [
          | inl f ↦ (
            merged (repr b) (repr a) repr,
            rw (e, f)
                (attach-Represents uf repr (repr b) (repr a) h (h.fixed b) (h.fixed a)
                  (λ s. apart (sym s)) (h.root_inside b lb) (ground (arith, f))),
            rw (e, f) refl,
            merged-Joined_swapped,
          )
          | inr f ↦ (
            merged (repr a) (repr b) repr,
            rw (e, f)
                (attach-Represents uf repr (repr a) (repr b) h (h.fixed a) (h.fixed b) apart
                  (h.root_inside a la) (ground (arith, f))),
            rw (e, f) refl,
            merged-Joined,
          )
        ]
  ]

  pub union_lem :
      (uf : UnionFind)
      → Represents uf repr
      → a < uf.size
      → b < uf.size
      → (uf' : UnionFind) × (repr' : ℕ → ℕ) × (union uf a b ≡ some uf')
        × (uf'.size ≡ uf.size)
        × Represents uf' repr'
        × Joined repr repr' a b
  unfolding union
  union_lem uf h la lb =
      let (pa, ea, ha) = find_lem repr uf a h la in
      let uf_a : UnionFind = record uf { parent = pa } in
      let (pb, eb, hb) = find_lem repr uf_a b ha lb in
      let uf_b : UnionFind = record uf { parent = pb } in
      let (repr', represents, size, joined) = link_lem uf_b hb la lb in
      (link (repr a) (repr b) uf_b, repr', rw (ea, eb) refl, size, represents, joined)
