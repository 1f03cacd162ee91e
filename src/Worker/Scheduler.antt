-- ===== src/Worker/Scheduler.antt =====
-- backend/app/worker/scheduler.py and backend/app/services/task_run_factory.py.
pub mod Settled
pub mod Once
use ai_data_operations_emplo.Prelude.{
  ℕ, zero, suc, ◌+◌, Bool, false, not, ◌&&◌, Option, none, some, List, [], ◌∷◌, ◌++◌, select, ltb,
  leb, ◌==◌, if◌then◌else◌, holds, is_none, tally, any,
}
use ai_data_operations_emplo.Prelude.Order.{sort_by}
use ai_data_operations_emplo.Worker.Model.{Task, World, Env, pending, seconds}

-- `create_task_run_record`: a new pending row with the model's defaults. `created_at` is the
-- database's clock; the identifier and the idempotency key are drawn.
unfoldable pub create_task_run_record :
    Env
    → (created_at organization_id task_id : ℕ) (triggered_by source_task_run_id : Option ℕ) → World
    → World
create_task_run_record env created_at organization_id task_id triggered_by source_task_run_id w =
    record w {
      runs =
          w.runs
          ++ (record {
            id = env.uuid4 w.draws;
            organization_id = organization_id;
            task_id = task_id;
            status = pending;
            triggered_by = triggered_by;
            started_at = none;
            finished_at = none;
            log_output = none;
            error_message = none;
            created_at = created_at;
            idempotency_key = env.uuid4 (w.draws + 1);
            lease_token = none;
            lease_expires_at = none;
            last_heartbeat_at = none;
            attempt_count = 0;
            next_retry_at = none;
            source_task_run_id = source_task_run_id;
          })
            ∷ [];
      draws = w.draws + 2;
    }

-- What the pass meets: the rows that other sessions hold, what they commit between the k-th
-- attempt's query and its UPDATE, and the tasks whose transaction raises.
pub record Surroundings : Type 0 where
  pub locked : ℕ → Bool
  pub others : ℕ → World → World
  pub raises : ℕ → Bool

abbrev reached : Option ℕ → ℕ → Bool
reached none now = false
reached (some t) now = leb t now

-- `schedule_interval_seconds IS NOT NULL AND is_active AND next_run_at <= now`
unfoldable pub task_due : ℕ → Task → Bool
task_due now t =
    not (is_none t.schedule_interval_seconds) && t.is_active && reached t.next_run_at now

abbrev due_key : Option ℕ → ℕ
due_key none = 0
due_key (some t) = t

-- `ORDER BY next_run_at, id`
abbrev pub due_before : Task → Task → Bool
due_before a b =
    if due_key a.next_run_at == due_key b.next_run_at
    then ltb a.id b.id
    else ltb (due_key a.next_run_at) (due_key b.next_run_at)

abbrev pub excludes : List ℕ → ℕ → Bool
excludes ids i = any (λ j. j == i) ids

unfoldable pub eligible : Surroundings → ℕ → List ℕ → Task → Bool
eligible env now excluded t =
    task_due now t && not (excludes excluded t.id) && not (env.locked t.id)

abbrev pub head? : List Task → Option Task
head? [] = none
head? (t ∷ _) = some t

unfoldable pub next_candidate : Surroundings → ℕ → List ℕ → List Task → Option Task
next_candidate s now excluded tasks =
    head? (sort_by due_before (select (eligible s now excluded) tasks))

-- The guard of the UPDATE: the row is as it was selected.
unfoldable pub unchanged : Task → Task → Bool
unchanged row t =
    t.id == row.id
    && (elim row.next_run_at [ none ↦ is_none t.next_run_at | some n ↦ holds t.next_run_at n ])
    && t.is_active
    && not (is_none t.schedule_interval_seconds)

unfoldable pub advance : (Task → Bool) → Option ℕ → List Task → List Task
advance selects next [] = []
advance selects next (t ∷ tasks) =
    (if selects t then record t { next_run_at = next } else t) ∷ advance selects next tasks

-- `timedelta(seconds=interval_seconds)`; the query leaves out a NULL interval.
abbrev pub interval_of : Option ℕ → ℕ
interval_of none = 0
interval_of (some n) = n

pub record Pass : Type 0 where
  pub world : World
  pub created : ℕ
  pub errors : ℕ
  pub excluded : List ℕ

-- The transaction of one selected task.
unfoldable pub schedule_one : Env → Surroundings → ℕ → ℕ → ℕ → Task → Pass → Pass
schedule_one env s now created_at k row p =
    let w = s.others k p.world in
    if s.raises row.id
    then record p { world = w; errors = p.errors + 1; excluded = row.id ∷ p.excluded }
    else if tally (unchanged row) w.tasks == 1
    then (record p {
      world = create_task_run_record env created_at row.organization_id row.id none none (record w {
        tasks =
            advance (unchanged row)
              (some (now + seconds (interval_of row.schedule_interval_seconds))) w.tasks;
      });
      created = p.created + 1;
    })
    else record p { world = w; excluded = row.id ∷ p.excluded }

-- `while attempted < batch_size`, with the attempts that are left.
unfoldable pub schedule_loop : Env → Surroundings → ℕ → ℕ → ℕ → Pass → Pass
schedule_loop env s now created_at zero p = p
schedule_loop env s now created_at (suc left) p =
    elim (next_candidate s now p.excluded p.world.tasks) [
      | none ↦ p
      | some row ↦
          schedule_loop env s now created_at left (schedule_one env s now created_at left row p)
    ]

abbrev pub scheduler_batch : Env → Option ℕ → ℕ
scheduler_batch env none = env.settings.scheduler_claim_batch_size
scheduler_batch env (some n) = n

abbrev start_pass : World → Pass
start_pass w = record { world = w; created = 0; errors = 0; excluded = [] }

abbrev finish_pass : Pass → ℕ × World
finish_pass p = (
  p.created,
  record p.world {
    metrics = record p.world.metrics {
      scheduler_passes_total = p.world.metrics.scheduler_passes_total + 1;
      scheduler_errors_total = p.world.metrics.scheduler_errors_total + p.errors;
      scheduler_runs_created_total = p.world.metrics.scheduler_runs_created_total + p.created;
    };
  },
)

unfoldable pub run_due_schedules : Env → Surroundings → ℕ → ℕ → Option ℕ → World → ℕ × World
run_due_schedules env s now created_at batch_size w =
    finish_pass (schedule_loop env s now created_at (scheduler_batch env batch_size) (start_pass w))
