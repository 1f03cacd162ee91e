-- ===== src/Worker/Reaper/Sweep.antt =====
-- What `reap_expired_runs` (backend/app/worker/reaper.py) does to one run.
use ai_data_operations_emplo.Prelude.{
  ℕ, ◌+◌, ◌≤◌, ◌<◌, ◌≡◌, ◌≢◌, Bool, true, false, none, some, List, [], ◌∷◌, String, ◌==◌, arith,
  Bool-cases, Option-cases, ◌⊎◌, inl, inr, All, tally, select, ap, ◌∙◌, subst, sym,
}
use ai_data_operations_emplo.Worker.Model.{
  TaskRun, pending, running, failed, Env, World, get_run, is_running,
}
use ai_data_operations_emplo.Worker.Table.{check_constraints, lease_consistency, not_before}
use ai_data_operations_emplo.Worker.Table.Laws.{All-get_run, id-get_run}
use ai_data_operations_emplo.Worker.Lease.{owned}
use ai_data_operations_emplo.Worker.Failure.{should_retry, complete_failure}
use ai_data_operations_emplo.Worker.Reaper.{
  Others, lease_expired, leases, reaper_message, reap_loop, reap_expired_runs,
}
use ai_data_operations_emplo.Worker.Reaper.Rows.{
  IsSound, complete_failure-IsSound, complete_failure-other,
}
use ai_data_operations_emplo.Worker.System.Holder.{IsHeld, complete_failure_lem}

-- A running row has a token, by ck_task_runs_lease_consistency.
running-leased :
    (run : TaskRun)
    → check_constraints run ≡ true
    → is_running run.status ≡ true
    → (token : ℕ) × (run.lease_token ≡ some token)
unfolding check_constraints lease_consistency
running-leased run checked r = elim (Option-cases run.lease_token) [
  | inl e ↦ absurd (ground (arith, checked, r, e))
  | inr found ↦ found
]

-- The run is running, its lease has expired, and no other session has locked it.
pub record IsExpired (locked : ℕ → Bool) (now : ℕ) (run : TaskRun) : Type 0 where
  pub is_running : run.status ≡ running
  pub lease_end : ℕ
  pub expires : run.lease_expires_at ≡ some lease_end
  pub is_past : lease_end < now
  pub free : locked run.id ≡ false

-- The run is not running, its lease has not expired, or another session has locked it.
abbrev pub IsKept : (ℕ → Bool) → ℕ → TaskRun → Type 0
IsKept locked now run =
    (run.status ≢ running)
    ⊎ ((t : ℕ) → run.lease_expires_at ≡ some t → now ≤ t)
    ⊎ (locked run.id ≡ true)

IsExpired-selected :
    (locked : ℕ → Bool) (now : ℕ) (run : TaskRun)
    → IsExpired locked now run
    → lease_expired locked now run ≡ true
unfolding lease_expired
IsExpired-selected locked now run h =
    rw (h.is_running, h.expires, h.free) (ground (arith, h.is_past))

IsKept-passed :
    (locked : ℕ → Bool) (now : ℕ) (run : TaskRun)
    → IsKept locked now run
    → lease_expired locked now run ≡ false
unfolding lease_expired
IsKept-passed locked now run (inl other) = ground (arith, other)
IsKept-passed locked now run (inr (inl later)) = elim (Option-cases run.lease_expires_at) [
  | inl e ↦ rw e (ground arith)
  | inr (t, e) ↦ let le = later t e in rw e (ground (arith, le))
]
IsKept-passed locked now run (inr (inr held)) = ground (arith, held)

leased-owned :
    (i token : ℕ) (run : TaskRun)
    → run.id ≡ i
    → run.lease_token ≡ some token
    → is_running run.status ≡ true
    → owned i token run ≡ true
leased-owned i token run same held r = rw (same, held, r) (ground arith)

module _ (i : ℕ) where
  -- The row of the run, in a table where its identifier occurs once, within the constraints.
  abbrev pub IsPresent : TaskRun → World → Type 0
  IsPresent run w = (get_run i w.runs ≡ some run) × IsSound i w.runs

  -- Other sessions leave the row of the run as it is.
  abbrev pub LeavesAlone : (World → World) → Type 0
  LeavesAlone f = (run : TaskRun) (w : World) → IsPresent run w → IsPresent run (f w)

  abbrev IsAnother : ℕ × ℕ → Type 0
  IsAnother l = l.0 ≢ i

  -- The lease is in the list once, and no other of the run.
  HasOnce : ℕ → List (ℕ × ℕ) → Type 0
  HasOnce token [] = ⊥
  HasOnce token (l ∷ ls) = ((l ≡ (i, token)) × All IsAnother ls) ⊎ (IsAnother l × HasOnce token ls)

  -- Requeued or failed, with the attempts that it had, and without a lease.
  abbrev pub IsReaped : TaskRun → World → Type 0
  IsReaped run w =
      (r : TaskRun) × (get_run i w.runs ≡ some r)
      × (r.lease_token ≡ none)
      × (r.attempt_count ≡ run.attempt_count)
      × ((r.status ≡ pending) ⊎ (r.status ≡ failed))

  leases-others :
      (rows : List TaskRun) (selects : TaskRun → Bool)
      → tally (λ r. r.id == i) rows ≡ 0
      → All IsAnother (leases (select selects rows))
  unfolding leases
  leases-others [] selects e = tt
  leases-others (r ∷ rows) selects e =
      let rest = leases-others rows selects (ground (arith, e)) in
      elim (Bool-cases (selects r)) [
        | inr s ↦ rw s rest
        | inl s ↦ elim (Option-cases r.lease_token) [
          | inl t ↦ rw (s, leases, t) rest
          | inr (token, t) ↦ rw (s, leases, t) ((λ same. ground (arith, e, same)), rest)
        ]
      ]

  leases-unselected :
      (rows : List TaskRun) (selects : TaskRun → Bool) (run : TaskRun)
      → get_run i rows ≡ some run
      → tally (λ r. r.id == i) rows ≡ 1
      → selects run ≡ false
      → All IsAnother (leases (select selects rows))
  unfolding leases
  leases-unselected [] selects run f e s = absurd (cc f)
  leases-unselected (r ∷ rows) selects run f e s = elim (Bool-cases (r.id == i)) [
    | inl own ↦
        let same : r ≡ run = cc (rw own at f) in
        let skipped : selects r ≡ false = ap selects same ∙ s in
        rw skipped (leases-others rows selects (ground (arith, own, e)))
    | inr other ↦
        let rest =
          leases-unselected rows selects run (rw other at f) (ground (arith, other, e)) s in
        elim (Bool-cases (selects r)) [
          | inr t ↦ rw t rest
          | inl t ↦ elim (Option-cases r.lease_token) [
            | inl none_held ↦ rw (t, leases, none_held) rest
            | inr (token, held) ↦ rw (t, leases, held) ((λ same. ground (arith, other, same)), rest)
          ]
        ]
  ]

  leases-HasOnce :
      (rows : List TaskRun) (selects : TaskRun → Bool) (run : TaskRun) (token : ℕ)
      → get_run i rows ≡ some run
      → tally (λ r. r.id == i) rows ≡ 1
      → selects run ≡ true
      → run.lease_token ≡ some token
      → HasOnce token (leases (select selects rows))
  unfolding leases HasOnce
  leases-HasOnce [] selects run token f e s held = absurd (cc f)
  leases-HasOnce (r ∷ rows) selects run token f e s held = elim (Bool-cases (r.id == i)) [
    | inl own ↦
        let same : r ≡ run = cc (rw own at f) in
        let taken : selects r ≡ true = ap selects same ∙ s in
        let lease : r.lease_token ≡ some token = ap (λ x. x.lease_token) same ∙ held in
        let is : r.id ≡ i = ground (arith, own) in
        rw (taken, leases, lease)
          (inl (ap (λ n. (n, token)) is, leases-others rows selects (ground (arith, own, e))))
    | inr other ↦
        let rest =
          leases-HasOnce rows selects run token (rw other at f) (ground (arith, other, e)) s held in
        elim (Bool-cases (selects r)) [
          | inr t ↦ rw t rest
          | inl t ↦ elim (Option-cases r.lease_token) [
            | inl none_held ↦ rw (t, leases, none_held) rest
            | inr (another, lease) ↦
                rw (t, leases, lease) (inr ((λ same. ground (arith, other, same)), rest))
          ]
        ]
  ]

  module _ (env : Env) (others : Others) (clock : ℕ → ℕ) (worker_id : String)
      (before : (k : ℕ) → LeavesAlone (others.before k))
      (during : (k : ℕ) → LeavesAlone (others.during k)) where
    -- The world after the k-th report.
    abbrev reported : ℕ → ℕ → ℕ → World → World
    reported k j token w =
        (complete_failure env (others.during k) (clock k) j token worker_id reaper_message true none
          (others.before k w)).1

    reported-another :
        (k j token : ℕ) (run : TaskRun) (w : World)
        → j ≢ i
        → IsPresent run w
        → IsPresent run (reported k j token w)
    reported-another k j token run w ne h =
        let read = before k run w h in
        let met = during k run (others.before k w) read in
        (
          complete_failure-other env (others.during k) (clock k) j token worker_id reaper_message
              true none (others.before k w) i run ne read.0 met.0,
          complete_failure-IsSound env (others.during k) (clock k) j token worker_id reaper_message
              true none (others.before k w) i read.1 met.1,
        )

    reap_loop-another :
        (ls : List (ℕ × ℕ)) (k : ℕ) (run : TaskRun) (w : World)
        → All IsAnother ls
        → IsPresent run w
        → IsPresent run (reap_loop env others clock worker_id k ls w).1
    unfolding reap_loop
    reap_loop-another [] k run w a h = h
    reap_loop-another ((j, token) ∷ ls) k run w a h =
        reap_loop-another ls (k + 1) run (reported k j token w) a.1
          (reported-another k j token run w a.0 h)

    module _ (run : TaskRun) (token : ℕ) (leased : owned i token run ≡ true)
        (started : (k : ℕ) → not_before (some (clock k)) run.started_at ≡ true) where
      IsHeld-present : (k : ℕ) (w : World) → IsPresent run w → IsHeld i token (clock k) w.runs run
      IsHeld-present k w h = record {
        found = h.0;
        unique = h.1.0;
        checked = h.1.1;
        held = leased;
        started = started k;
      }

      -- The report of the run itself.
      reported-own :
          (k : ℕ) (w : World)
          → IsPresent run w
          → (r : TaskRun) × IsPresent r (reported k i token w)
            × (r.lease_token ≡ none)
            × (r.attempt_count ≡ run.attempt_count)
            × ((r.status ≡ pending) ⊎ (r.status ≡ failed))
      reported-own k w h =
          let read = before k run w h in
          let met = during k run (others.before k w) read in
          let (r, _, found, free, same, retried, ended) =
            complete_failure_lem env (others.during k) i token (clock k) worker_id reaper_message
              true none (others.before k w) run (IsHeld-present k (others.before k w) read)
              (IsHeld-present k (others.during k (others.before k w)) met) in
          (
            r,
            (
              found,
              complete_failure-IsSound env (others.during k) (clock k) i token worker_id
                  reaper_message true none (others.before k w) i read.1 met.1,
            ),
            free,
            same,
            elim (Bool-cases (should_retry env (others.before k w) run true)) [
              | inl e ↦ inl (retried e).0
              | inr e ↦ inr (ended e).0
            ],
          )

      reap_loop-own :
          (ls : List (ℕ × ℕ)) (k : ℕ) (w : World)
          → HasOnce token ls
          → IsPresent run w
          → IsReaped run (reap_loop env others clock worker_id k ls w).1
      unfolding reap_loop HasOnce
      reap_loop-own [] k w a h = absurd a
      reap_loop-own ((j, t) ∷ ls) k w (inl (e, rest)) h =
          let (r, present, free, same, over) = reported-own k w h in
          let w' = reported k i token w in
          let left = reap_loop-another ls (k + 1) r w' rest present in
          subst
            (λ l.
              IsReaped run
                (reap_loop env others clock worker_id (k + 1) ls (reported k l.0 l.1 w)).1)
            (sym e) (r, left.0, free, same, over)
      reap_loop-own ((j, t) ∷ ls) k w (inr (ne, rest)) h =
          reap_loop-own ls (k + 1) (reported k j t w) rest (reported-another k j t run w ne h)

    -- A sweep of the reaper, with other sessions that leave the run alone, over a table that is within
    -- the constraints and has the identifier of the run once: if the run is running, its lease has
    -- expired before `now` and no other session has locked it, it is pending or failed after the sweep,
    -- without a lease and with the same number of attempts (the clock is not before its start). If the
    -- run is not running, is locked, or has a lease that ends at `now` or later, its row is unchanged.
    pub reap_expired_runs_lem :
        (locked : ℕ → Bool) (now : ℕ) (w : World) (run : TaskRun)
        → IsPresent run w
        → ((k : ℕ) → not_before (some (clock k)) run.started_at ≡ true)
        → let w' = (reap_expired_runs env others locked now clock worker_id w).1 in
          (IsExpired locked now run → IsReaped run w')
          × (IsKept locked now run → get_run i w'.runs ≡ some run)
    unfolding reap_expired_runs
    reap_expired_runs_lem locked now w run h started = (
      λ expired.
          let selected = IsExpired-selected locked now run expired in
          let checked = All-get_run (λ r. check_constraints r ≡ true) i w.runs run h.1.1 h.0 in
          let runs_now : is_running run.status ≡ true = ap is_running expired.is_running in
          let (token, held) = running-leased run checked runs_now in
          let leased = leased-owned i token run (id-get_run i w.runs run h.0) held runs_now in
          reap_loop-own run token leased started (leases (select (lease_expired locked now) w.runs))
            0 w (leases-HasOnce w.runs (lease_expired locked now) run token h.0 h.1.0 selected held)
            h,
      λ kept.
          (reap_loop-another (leases (select (lease_expired locked now) w.runs)) 0 run w
            (leases-unselected w.runs (lease_expired locked now) run h.0 h.1.0
              (IsKept-passed locked now run kept))
            h).0,
    )
