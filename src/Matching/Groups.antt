-- ===== src/Matching/Groups.antt =====
-- Stage 3 of `match` (backend/app/matching/engine.py): the groups, their confidence, and the group of
-- each persisted decision. `select_canonical` is the one of canonical.py.
use ai_data_operations_emplo.Prelude.{
  ℕ, zero, suc, Option, none, some, List, [], ◌∷◌, ◌++◌, length, ltb, ◌==◌, if◌then◌else◌, ◌>>=◌,
}
use ai_data_operations_emplo.Prelude.Order.{sort_by}
use ai_data_operations_emplo.Matching.Blocking.{Library, nth}
use ai_data_operations_emplo.Matching.Clustering.{UnionFind, find}
use ai_data_operations_emplo.Matching.Types.{Arithmetic, Decision, Group}

-- `min` of an index and those after it.
unfoldable pub smallest : ℕ → List ℕ → ℕ
smallest best [] = best
smallest best (i ∷ indices) = smallest (if ltb i best then i else best) indices

-- `none` is the ValueError of `min([])`.
unfoldable pub select_canonical : List ℕ → Option ℕ
select_canonical [] = none
select_canonical (i ∷ indices) = some (smallest i indices)

-- A component under its sort key.
abbrev pub Keyed : Type 0
Keyed = ℕ × ℕ × List ℕ

unfoldable pub with_keys : List (ℕ × List ℕ) → Option (List Keyed)
with_keys [] = some []
with_keys ((root, members) ∷ members_by_root) = do
  key ← select_canonical members
  rest ← with_keys members_by_root
  some ((key, root, members) ∷ rest)

-- `sorted(members_by_root.items(), key=lambda kv: min(kv[1]))`
unfoldable pub sorted_components : List (ℕ × List ℕ) → Option (List Keyed)
sorted_components members_by_root = with_keys members_by_root >>= λ (entries : List Keyed).
    some (sort_by (λ p q. ltb p.0 q.0) entries)

-- `decisions[pos] = ...`: `none` is an IndexError.
unfoldable pub replace {ℓ} : {A : Type ℓ} → ℕ → A → List A → Option (List A)
replace i y [] = none
replace zero y (x ∷ xs) = some (y ∷ xs)
replace (suc i) y (x ∷ xs) = replace i y xs >>= λ ys. some (x ∷ ys)

module _ (library : Library) (arithmetic : Arithmetic library.Float) where
  -- Python's `min` of floats keeps the first of equal ones.
  unfoldable pub lowest : library.Float → List library.Float → library.Float
  lowest best [] = best
  lowest best (x ∷ xs) = lowest (if library.gt best x then x else best) xs

  -- `min` with 1.0 in place of an empty list.
  unfoldable pub minimum : List library.Float → library.Float
  minimum [] = arithmetic.one
  minimum (x ∷ xs) = lowest x xs

  -- `groups` and `root_to_group_index`.
  abbrev pub Grouped : Type 0
  Grouped = List (Group library) × (ℕ → Option ℕ)

  abbrev pub new_group : ℕ → List ℕ → Group library
  new_group canonical members = record {
    canonical_row_index = canonical;
    member_row_indices = sort_by ltb members;
    confidence_score = arithmetic.one;
  }

  unfoldable pub add_group : ℕ → List ℕ → Grouped → Option Grouped
  add_group root members (groups, root_to_group_index) = do
    canonical ← select_canonical members
    some (
      groups ++ new_group canonical members ∷ [],
      λ r. if r == root then some (length groups) else root_to_group_index r,
    )

  unfoldable pub group_loop : List Keyed → Grouped → Option Grouped
  group_loop [] grouped = some grouped
  group_loop ((_, root, members) ∷ entries) grouped =
      (if ltb (length members) 2 then some grouped else add_group root members grouped)
      >>= group_loop entries

  -- `confidences_by_root`, where the empty list is a missing key.
  abbrev pub Confidences : Type 0
  Confidences = ℕ → List library.Float

  unfoldable pub confidence_loop :
      List (ℕ × ℕ × library.Float) → UnionFind → Confidences → Option (Confidences × UnionFind)
  confidence_loop [] uf confidences = some (confidences, uf)
  confidence_loop ((a, b, confidence) ∷ edges) uf confidences = do
    (root, uf') ← find uf a
    confidence_loop edges uf'
        (λ r. if r == root then confidences r ++ confidence ∷ [] else confidences r)

  -- The groups with the smallest confidence of their edges.
  unfoldable pub rate_groups :
      Confidences → List (Group library) → UnionFind → Option (List (Group library) × UnionFind)
  rate_groups confidences [] uf = some ([], uf)
  rate_groups confidences (g ∷ groups) uf = do
    (root, uf') ← find uf g.canonical_row_index
    (rated, uf'') ← rate_groups confidences groups uf'
    some (record g { confidence_score = minimum (confidences root) } ∷ rated, uf'')

  unfoldable pub wire_groups :
      (ℕ → Option ℕ)
      → List ℕ
      → List (Decision library)
      → UnionFind
      → Option (List (Decision library))
  wire_groups root_to_group_index [] decisions uf = some decisions
  wire_groups root_to_group_index (pos ∷ positions) decisions uf = do
    d ← nth pos decisions
    (root, uf') ← find uf d.record_a_row_index
    decisions' ← replace pos (record d { group_index = root_to_group_index root }) decisions
    wire_groups root_to_group_index positions decisions' uf'
