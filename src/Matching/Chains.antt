-- ===== src/Matching/Chains.antt =====
-- The chains of stage 1 of `match` (backend/app/matching/engine.py).
use ai_data_operations_emplo.Prelude.{
  ℕ, ◌≤◌, ◌<◌, ◌≡◌, refl, inl, inr, true, some, List, [], ◌∷◌, if◌then◌else◌, ltb, ◌==◌, arith, All,
  All-map_implies, length, Bool-cases, subst,
}
use mathlib.Core.Option.{some-injective}
use ai_data_operations_emplo.Prelude.Order.{sort_by, All-sort_by, All-of-sort_by}
use ai_data_operations_emplo.Prelude.Texts.{Text}
use ai_data_operations_emplo.Matching.Blocking.{nth}
use ai_data_operations_emplo.Matching.Clustering.Partition.{itself, chain}
use ai_data_operations_emplo.Matching.Decisions.{MatchState}
use ai_data_operations_emplo.Matching.Exact.{
  Representatives, represent, exact_decision, chain_step, chain_loop, exact_group, exact_groups,
}
use ai_data_operations_emplo.Matching.Recorded.{Linked, Keeps, record_duplicate}
use ai_data_operations_emplo.Matching.Rows.{IsTable, nth-All, nth-lt, exact_comparisons-returns}
use ai_data_operations_emplo.Matching.Tracked.{Arguments, IsTracked, same_row}

module _ (args : Arguments) (table : IsTable args.headers args.rows) where
  chain_step-IsTracked :
      (size a b : ℕ) (row : List Text) (st : MatchState args.library)
      → IsTracked args st
      → nth a args.rows ≡ some row
      → nth b args.rows ≡ some row
      → (st' : MatchState args.library) × (chain_step args.library args.arithmetic args.rows
            args.headers args.limits size a b st
          ≡ some st')
        × IsTracked args st'
        × Keeps args st st'
        × Linked args st' a b
  unfolding chain_step
  chain_step-IsTracked size a b row st h ea eb =
      let wide = nth-All (λ r. length args.headers ≤ length r) a args.rows table ea in
      let (comparisons, compared) =
        exact_comparisons-returns args.library args.arithmetic 0 args.headers row row []
          (omega arith) (omega arith) in
      let d = exact_decision args.library args.arithmetic size a b comparisons in
      let (uf, made, tracked, keeps, linked) =
        record_duplicate args a b args.arithmetic.one d st h refl refl (nth-lt a args.rows ea)
          (nth-lt b args.rows eb) (same_row ea eb) in
      (_, rw (made, ea, eb, compared) refl, tracked, keeps, linked)

  chain_loop-IsTracked :
      (size a : ℕ) (indices : List ℕ) (row : List Text) (st : MatchState args.library)
      → IsTracked args st
      → nth a args.rows ≡ some row
      → All (λ i. nth i args.rows ≡ some row) indices
      → (st' : MatchState args.library) × (chain_loop args.library args.arithmetic args.rows
            args.headers args.limits size a indices st
          ≡ some st')
        × IsTracked args st'
        × Keeps args st st'
        × All (λ b. Linked args st' a b) indices
  unfolding chain_loop
  chain_loop-IsTracked size a [] row st h ea eb = (st, refl, h, λ x y k. k, tt)
  chain_loop-IsTracked size a (b ∷ indices) row st h ea eb =
      let (st1, e1, h1, k1, l1) = chain_step-IsTracked size a b row st h ea eb.0 in
      let (st2, e2, h2, k2, l2) = chain_loop-IsTracked size b indices row st1 h1 eb.0 eb.1 in
      (
        st2,
        rw e1 e2,
        h2,
        λ x y k. k2 x y (k1 x y k),
        (k2 a b l1, All-map_implies (λ c l. chain (k2 a b l1) l) indices l2),
      )

  -- All the indices are in one component.
  abbrev pub Together : MatchState args.library → List ℕ → Type 0
  Together st indices = (r : ℕ) × All (λ i. Linked args st r i) indices

  Together-Keeps :
      (st st' : MatchState args.library) (indices : List ℕ)
      → Keeps args st st'
      → Together st indices
      → Together st' indices
  Together-Keeps st st' indices k (r, h) = (r, All-map_implies (λ i l. k r i l) indices h)

  Together-sorted :
      (st : MatchState args.library) (indices : List ℕ)
      → Together st (sort_by ltb indices)
      → Together st indices
  Together-sorted st indices (r, h) = (r, All-of-sort_by ltb (λ i. Linked args st r i) indices h)

  few-Together :
      (st : MatchState args.library) (indices : List ℕ)
      → ltb (length indices) 2 ≡ true
      → Together st indices
  few-Together st [] h = (0, tt)
  few-Together st (i ∷ []) h = (i, (itself, tt))
  few-Together st (i ∷ j ∷ indices) h = absurd (ground (arith, h))

  -- The representatives are rows.
  abbrev pub Inside : Representatives → Type 0
  Inside reps = (j r : ℕ) → reps j ≡ some r → r < length args.rows

  represent-Inside :
      (rep : ℕ) (indices : List ℕ) (reps : Representatives)
      → rep < length args.rows
      → Inside reps
      → Inside (represent rep indices reps)
  unfolding represent
  represent-Inside rep [] reps lt h = h
  represent-Inside rep (i ∷ indices) reps lt h =
      represent-Inside rep indices (λ j. if j == i then some rep else reps j) lt
        (λ j r. elim (Bool-cases (j == i)) [
          | inl e ↦ λ k. subst (λ n. n < length args.rows) (some-injective _ _ (rw e at k)) lt
          | inr e ↦ λ k. h j r (rw e at k)
        ])

  exact_group-IsTracked :
      (indices : List ℕ) (row : List Text) (reps : Representatives) (st : MatchState args.library)
      → IsTracked args st
      → Inside reps
      → All (λ i. nth i args.rows ≡ some row) indices
      → (reps' : Representatives) × (st' : MatchState args.library) × (exact_group args.library
            args.arithmetic args.rows args.headers args.limits indices
            (reps, st)
          ≡ some (reps', st'))
        × IsTracked args st'
        × Inside reps'
        × Keeps args st st'
        × Together st' indices
  unfolding exact_group
  exact_group-IsTracked [] row reps st h ins eqs = (reps, st, refl, h, ins, λ x y k. k, (0, tt))
  exact_group-IsTracked (rep ∷ indices) row reps st h ins eqs =
      let (st', made, h', keeps, linked) =
        chain_loop-IsTracked (length (rep ∷ indices)) rep indices row st h eqs.0 eqs.1 in
      (
        represent rep (rep ∷ indices) reps,
        st',
        rw made refl,
        h',
        represent-Inside rep (rep ∷ indices) reps (nth-lt rep args.rows eqs.0) ins,
        keeps,
        (rep, (itself, linked)),
      )

  -- One round of the loop over the groups.
  group_round :
      (indices : List ℕ) (row : List Text) (reps : Representatives) (st : MatchState args.library)
      → IsTracked args st
      → Inside reps
      → All (λ i. nth i args.rows ≡ some row) indices
      → (reps' : Representatives) × (st' : MatchState args.library) × ((if ltb (length indices) 2
            then some (reps, st)
            else exact_group args.library args.arithmetic args.rows args.headers args.limits
                (sort_by ltb indices)
                (reps, st))
          ≡ some (reps', st'))
        × IsTracked args st'
        × Inside reps'
        × Keeps args st st'
        × Together st' indices
  group_round indices row reps st h ins eqs = elim (Bool-cases (ltb (length indices) 2)) [
    | inl e ↦ rw e (reps, st, refl, h, ins, λ x y k. k, few-Together st indices e)
    | inr e ↦
        let (reps', st', made, h', ins', keeps, linked) =
          exact_group-IsTracked (sort_by ltb indices) row reps st h ins
            (All-sort_by ltb (λ i. nth i args.rows ≡ some row) indices eqs) in
        rw e (reps', st', made, h', ins', keeps, Together-sorted st' indices linked)
  ]

  pub exact_groups-IsTracked :
      (groups : List (List Text × List ℕ)) (reps : Representatives) (st : MatchState args.library)
      → IsTracked args st
      → Inside reps
      → All (λ g. All (λ i. nth i args.rows ≡ some g.0) g.1) groups
      → (reps' : Representatives) × (st' : MatchState args.library) × (exact_groups args.library
            args.arithmetic args.rows args.headers args.limits groups
            (reps, st)
          ≡ some (reps', st'))
        × IsTracked args st'
        × Inside reps'
        × Keeps args st st'
        × All (λ g. Together st' g.1) groups
  unfolding exact_groups
  exact_groups-IsTracked [] reps st h ins eqs = (reps, st, refl, h, ins, λ x y k. k, tt)
  exact_groups-IsTracked ((row, indices) ∷ groups) reps st h ins eqs =
      let (reps1, st1, e1, h1, i1, k1, t1) = group_round indices row reps st h ins eqs.0 in
      let (reps2, st2, e2, h2, i2, k2, t2) = exact_groups-IsTracked groups reps1 st1 h1 i1 eqs.1 in
      (
        reps2,
        st2,
        rw e1 e2,
        h2,
        i2,
        λ x y k. k2 x y (k1 x y k),
        (Together-Keeps st1 st2 indices k2 t1, t2),
      )
