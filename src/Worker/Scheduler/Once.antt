-- ===== src/Worker/Scheduler/Once.antt =====
-- The runs that a pass of backend/app/worker/scheduler.py creates for one task.
use ai_data_operations_emplo.Prelude.{
  ℕ, zero, suc, ◌+◌, ◌≤◌, ◌<◌, ◌≡◌, ◌≢◌, ◌⊎◌, refl, ap, ◌∙◌, inl, inr, Bool, true, false, Option,
  some, List, ◌==◌, ==_iff, if◌then◌else◌, arith, Bool-cases, Option-cases, tally, tally-append,
}
use ai_data_operations_emplo.Worker.Model.{TaskRun, Task, World, Env, seconds}
use ai_data_operations_emplo.Worker.Scheduler.{
  create_task_run_record, Surroundings, task_due, eligible, next_candidate, unchanged, advance,
  interval_of, Pass, schedule_one, schedule_loop, scheduler_batch, run_due_schedules,
}
use ai_data_operations_emplo.Worker.Scheduler.Settled.{
  next_candidate-All, is_task, IsSettled, HasInterval, tally-advance, HasInterval-advance,
  IsSettled-advance, advance-settles,
}

module _ (env : Env) (s : Surroundings) (now created_at t : ℕ)
    (quiet : (k : ℕ) (w : World) → s.others k w ≡ w) where
  abbrev pub of_task : TaskRun → Bool
  of_task r = r.task_id == t

  -- The task is one row, and no task has the interval zero.
  abbrev pub IsSteady : List Task → Type 0
  IsSteady tasks = (tally (is_task now t) tasks ≡ 1) × HasInterval now t tasks

  abbrev next_run : Task → ℕ
  next_run row = now + seconds (interval_of row.schedule_interval_seconds)

  -- What the transaction of one candidate did: nothing, or the UPDATE and one run.
  abbrev Outcome : Task → Pass → Pass → Type 0
  Outcome row p q =
      ((q.world.tasks ≡ p.world.tasks) × (q.world.runs ≡ p.world.runs))
      ⊎ ((tally (unchanged row) p.world.tasks ≡ 1)
          × (q.world.tasks ≡ advance (unchanged row) (some (next_run row)) p.world.tasks)
          × (tally of_task q.world.runs
              ≡ tally of_task p.world.runs + (if row.id == t then 1 else 0)))

  schedule_one-Outcome :
      (k : ℕ) (row : Task) (p : Pass) → Outcome row p (schedule_one env s now created_at k row p)
  unfolding schedule_one create_task_run_record
  schedule_one-Outcome k row p = elim (Bool-cases (s.raises row.id)) [
    | inl e ↦ rw (e, quiet k p.world) (inl (refl, refl))
    | inr e ↦ elim (Bool-cases (tally (unchanged row) p.world.tasks == 1)) [
      | inl f ↦
          rw (e, quiet k p.world, f)
            (inr (ground (arith, f), refl, tally-append of_task p.world.runs _))
      | inr f ↦ rw (e, quiet k p.world, f) (inl (refl, refl))
    ]
  ]

  later-run :
      (row : Task)
      → row.schedule_interval_seconds ≢ some 0
      → task_due now row ≡ true
      → now < next_run row
  unfolding task_due
  later-run row h d = elim (Option-cases row.schedule_interval_seconds) [
    | inl e ↦ absurd (ground (arith, e, d))
    | inr (n, e) ↦ elim (Bool-cases (n == 0)) [
      | inl z ↦ absurd (h (e ∙ ap some ((==_iff n 0).0 z)))
      | inr z ↦ rw e (ground (arith, z))
    ]
  ]

  -- What one round does to the runs of the task, and what it keeps.
  abbrev Round : Task → Pass → Pass → Type 0
  Round row p q =
      IsSteady q.world.tasks
      × (IsSettled now t p.world.tasks → IsSettled now t q.world.tasks)
      × ((tally of_task q.world.runs ≡ tally of_task p.world.runs)
          ⊎ ((row.id ≡ t)
              × (tally of_task q.world.runs ≡ tally of_task p.world.runs + 1)
              × IsSettled now t q.world.tasks))

  outcome-Round :
      (row : Task) (p q : Pass)
      → IsSteady p.world.tasks
      → now < next_run row
      → Outcome row p q
      → Round row p q
  outcome-Round row p q (one, intervals) lt (inl (tasks, runs)) =
      rw tasks ((one, intervals), (λ h. h), inl (ap (tally of_task) runs))
  outcome-Round row p q (one, intervals) lt (inr (hit, tasks, runs)) =
      let steady : IsSteady (advance (unchanged row) (some (next_run row)) p.world.tasks) = (
        tally-advance now t (unchanged row) (next_run row) p.world.tasks ∙ one,
        HasInterval-advance now t (unchanged row) (next_run row) p.world.tasks intervals,
      ) in
      rw tasks (
        steady,
        IsSettled-advance now t (unchanged row) (next_run row) p.world.tasks lt,
        elim (Bool-cases (row.id == t)) [
          | inl e ↦
              let same = (==_iff row.id t).0 e in
              inr (
                same,
                rw e at runs,
                advance-settles now t row (next_run row) p.world.tasks lt same one hit,
              )
          | inr e ↦ inl (ground (arith, e, runs))
        ],
      )

  -- The round of the candidate that the query returned.
  candidate-Round :
      (k : ℕ) (row : Task) (p : Pass)
      → IsSteady p.world.tasks
      → next_candidate s now p.excluded p.world.tasks ≡ some row
      → Round row p (schedule_one env s now created_at k row p)
        × (IsSettled now t p.world.tasks → row.id ≢ t)
  unfolding eligible
  candidate-Round k row p steady e =
      let (has, chosen) =
        next_candidate-All s now p.excluded (λ x. x.schedule_interval_seconds ≢ some 0)
          p.world.tasks row steady.1 e in
      let due : task_due now row ≡ true = ground (arith, chosen) in
      (
        outcome-Round row p (schedule_one env s now created_at k row p) steady
            (later-run row has due) (schedule_one-Outcome k row p),
        λ settled same.
            let (undue, _) =
              next_candidate-All s now p.excluded (λ x. x.id ≡ t → task_due now x ≡ false)
                p.world.tasks row settled e in
            cc (due, undue same),
      )

  loop-settled :
      (left : ℕ) (p : Pass)
      → IsSteady p.world.tasks
      → IsSettled now t p.world.tasks
      → tally of_task (schedule_loop env s now created_at left p).world.runs
        ≡ tally of_task p.world.runs
  unfolding schedule_loop
  loop-settled zero p steady settled = refl
  loop-settled (suc left) p steady settled =
      elim (Option-cases (next_candidate s now p.excluded p.world.tasks)) [
        | inl e ↦ rw (e, schedule_loop) refl
        | inr (row, e) ↦
            let ((steady', keeps, runs), other) = candidate-Round left row p steady e in
            let ih =
              loop-settled left (schedule_one env s now created_at left row p) steady'
                (keeps settled) in
            rw (e, schedule_loop)
              (elim runs [ inl same ↦ ih ∙ same | inr (of_t, _, _) ↦ absurd (other settled of_t) ])
      ]

  loop-once :
      (left : ℕ) (p : Pass)
      → IsSteady p.world.tasks
      → tally of_task (schedule_loop env s now created_at left p).world.runs
        ≤ tally of_task p.world.runs + 1
  unfolding schedule_loop
  loop-once zero p steady = omega arith
  loop-once (suc left) p steady =
      elim (Option-cases (next_candidate s now p.excluded p.world.tasks)) [
        | inl e ↦ rw (e, schedule_loop) (omega arith)
        | inr (row, e) ↦
            let ((steady', keeps, runs), other) = candidate-Round left row p steady e in
            let after = schedule_one env s now created_at left row p in
            rw (e, schedule_loop)
              (elim runs [
                | inl same ↦ omega (arith, same, loop-once left after steady')
                | inr (of_t, more, settled) ↦
                    omega (arith, more, loop-settled left after steady' settled)
              ])
      ]

  -- When no other session writes meanwhile, the task is one row of the table and no task has the
  -- interval zero, a pass of the scheduler adds at most one run of the task, whatever the batch size,
  -- the locks and the transactions that raise.
  pub run_due_schedules_once :
      (batch_size : Option ℕ) (w : World)
      → IsSteady w.tasks
      → tally of_task (run_due_schedules env s now created_at batch_size w).1.runs
        ≤ tally of_task w.runs + 1
  unfolding run_due_schedules
  run_due_schedules_once batch_size w steady = loop-once (scheduler_batch env batch_size) _ steady
