-- ===== src/Matching/Wiring.antt =====
-- The end of stage 3 of `match` (backend/app/matching/engine.py): confidences and the groups of the
-- persisted decisions.
use ai_data_operations_emplo.Prelude.{
  ℕ, zero, suc, ◌<◌, ◌≡◌, refl, ◌∙◌, Option, some, List, [], ◌∷◌, ◌++◌, arith, All, All-map_implies,
  length, if◌then◌else◌, ◌==◌,
}
use ai_data_operations_emplo.Matching.Clustering.{UnionFind, find}
use ai_data_operations_emplo.Matching.Clustering.Partition.{Clusters}
use ai_data_operations_emplo.Matching.Clustering.Roots.{find_lem}
use ai_data_operations_emplo.Matching.Grouped.{IsGroup, holding}
use ai_data_operations_emplo.Matching.Groups.{
  Confidences, confidence_loop, rate_groups, replace, wire_groups, minimum,
}
use ai_data_operations_emplo.Matching.Rows.{nth-inside, nth-All}
use ai_data_operations_emplo.Matching.Tracked.{Arguments, Edge}
use ai_data_operations_emplo.Matching.Types.{Decision, Group}

find-Clusters :
    (size : ℕ) (edges : List (ℕ × ℕ)) (uf : UnionFind) (x : ℕ)
    → Clusters size edges uf
    → x < size
    → (root : ℕ) × (uf' : UnionFind) × (find uf x ≡ some (root, uf')) × Clusters size edges uf'
find-Clusters size edges uf x c lt =
    let (p, e, represents) = find_lem c.repr uf x c.represents (rw c.sized lt) in
    (
      c.repr x,
      record uf { parent = p },
      e,
      record {
        repr = c.repr;
        represents = represents;
        sized = c.sized;
        sound = c.sound;
        complete = c.complete;
      },
    )

replace-returns {ℓ κ} :
    {A : Type ℓ} (P : A → Type κ) (i : ℕ) (y : A) (xs : List A)
    → i < length xs
    → P y
    → All P xs
    → (ys : List A) × (replace i y xs ≡ some ys) × (length ys ≡ length xs) × All P ys
unfolding replace
replace-returns P i y [] lt p h = absurd (omega arith)
replace-returns P zero y (x ∷ xs) lt p h = (y ∷ xs, refl, refl, (p, h.1))
replace-returns P (suc i) y (x ∷ xs) lt p h =
    let (ys, e, same, all) = replace-returns P i y xs (omega arith) p h.1 in
    (x ∷ ys, rw e refl, rw same refl, (h.0, all))

module _ (args : Arguments) (known : List (ℕ × ℕ)) where
  abbrev Known : UnionFind → Type 0
  Known uf = Clusters (length args.rows) known uf

  pub confidence_loop-returns :
      (edges : List (Edge args)) (uf : UnionFind)
      (confidences : Confidences args.library args.arithmetic)
      → Known uf
      → All (λ e. (e.0 < length args.rows) × (e.1 < length args.rows)) edges
      → (confidences' : Confidences args.library args.arithmetic) × (uf' : UnionFind)
        × (confidence_loop args.library args.arithmetic edges uf confidences
            ≡ some (confidences', uf'))
        × Known uf'
  unfolding confidence_loop
  confidence_loop-returns [] uf confidences c h = (confidences, uf, refl, c)
  confidence_loop-returns ((a, b, confidence) ∷ edges) uf confidences c h =
      let (root, uf1, e, c1) = find-Clusters (length args.rows) known uf a c h.0.0 in
      let (conf, uf2, made, c2) =
        confidence_loop-returns edges uf1
          (λ r. if r == root then confidences r ++ confidence ∷ [] else confidences r) c1 h.1 in
      (conf, uf2, rw e made, c2)

  -- The groups keep their rows.
  pub rate_groups-returns :
      (confidences : Confidences args.library args.arithmetic) (groups : List (Group args.library))
      (uf : UnionFind)
      → Known uf
      → All (IsGroup args) groups
      → (rated : List (Group args.library)) × (uf' : UnionFind) × (rate_groups args.library
            args.arithmetic confidences groups uf
          ≡ some (rated, uf'))
        × Known uf'
        × All (IsGroup args) rated
        × ((x y : ℕ) → holding args x y rated ≡ holding args x y groups)
  unfolding rate_groups
  rate_groups-returns confidences [] uf c h = ([], uf, refl, c, tt, λ x y. refl)
  rate_groups-returns confidences (g ∷ groups) uf c h =
      let (root, uf1, e, c1) =
        find-Clusters (length args.rows) known uf g.canonical_row_index c h.0.canonical_row in
      let (rated, uf2, made, c2, all, same) = rate_groups-returns confidences groups uf1 c1 h.1 in
      (
        record g { confidence_score = minimum args.library args.arithmetic (confidences root) }
            ∷ rated,
        uf2,
        rw (e, made) refl,
        c2,
        (
          record {
            canonical = h.0.canonical;
            canonical_row = h.0.canonical_row;
            rows = h.0.rows;
            several = h.0.several;
          },
          all,
        ),
        λ x y. rw (same x y) refl,
      )

  pub wire_groups-returns :
      (index : ℕ → Option ℕ) (positions : List ℕ) (decisions : List (Decision args.library))
      (uf : UnionFind)
      → Known uf
      → All (λ p. p < length decisions) positions
      → All (λ d. d.record_a_row_index < length args.rows) decisions
      → (wired : List (Decision args.library)) × (wire_groups args.library args.arithmetic index
            positions decisions uf
          ≡ some wired)
        × (length wired ≡ length decisions)
  unfolding wire_groups
  wire_groups-returns index [] decisions uf c inside rows = (decisions, refl, refl)
  wire_groups-returns index (pos ∷ positions) decisions uf c inside rows =
      let (d, found) = nth-inside pos decisions inside.0 in
      let row = nth-All (λ x. x.record_a_row_index < length args.rows) pos decisions rows found in
      let (root, uf1, e, c1) =
        find-Clusters (length args.rows) known uf d.record_a_row_index c row in
      let d' : Decision args.library = record d { group_index = index root } in
      let (decisions1, replaced, same, rows1) =
        replace-returns (λ x. x.record_a_row_index < length args.rows) pos d' decisions inside.0 row
          rows in
      let (wired, made, same') =
        wire_groups-returns index positions decisions1 uf1 c1
          (All-map_implies (λ p k. omega (arith, k, same)) positions inside.1) rows1 in
      (wired, rw (found, e, replaced) made, same' ∙ same)
