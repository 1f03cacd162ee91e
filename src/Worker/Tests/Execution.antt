-- ===== src/Worker/Tests/Execution.antt =====
-- The theorems on `execute_one` (backend/app/worker/runner.py) at concrete rows.
use ai_data_operations_emplo.Prelude.{◌≡◌, refl, none, [], ◌∷◌}
use ai_data_operations_emplo.Worker.Model.{World}
use ai_data_operations_emplo.Worker.Session.{lease_lost}
use ai_data_operations_emplo.Worker.Failure.{should_retry, count_retry}
use ai_data_operations_emplo.Worker.Runner.{
  Attempt, returned, transient, finished, raised, Job, execute_one, execute_claimed,
}
use ai_data_operations_emplo.Worker.Runner.Escapes.{
  exit_of, counted_for, IsLost, execute_claimed_lost,
}
use ai_data_operations_emplo.Worker.Tests.Data.{env, working, waiting, world}

abbrev job : Attempt → (World → World) → Job
job attempt during = record {
  task_run_id = 100;
  until_turn = λ w. w;
  during = during;
  now = 1500;
  attempt = attempt;
}

-- The reaper puts the run back while the handler runs.
abbrev reaped : Job
reaped = job (transient "timeout") (λ _. world waiting)

abbrev left : World
left = counted_for env "w" reaped.attempt working (world working) (world waiting)

lost : IsLost reaped 7 (world working) working
lost = record { found = refl; leased = refl; is_running = refl; lost = ((λ _ e. cc e), tt) }

execute_claimed_lost_example :
    (execute_one env "w" reaped (world working) ≡ (exit_of reaped.attempt, left))
    × (exit_of reaped.attempt ≡ raised lease_lost
        → execute_claimed env "w" (reaped ∷ job (returned none) (λ w. w) ∷ []) (world working)
          ≡ (raised lease_lost, left))
    × (exit_of reaped.attempt ≡ finished
        → execute_claimed env "w" (reaped ∷ job (returned none) (λ w. w) ∷ []) (world working)
          ≡ execute_claimed env "w" (job (returned none) (λ w. w) ∷ []) left)
execute_claimed_lost_example =
    execute_claimed_lost env "w" reaped (job (returned none) (λ w. w) ∷ []) 7 (world working)
      working lost

-- The one attempt of three is over, so the retry is counted.
left-count_retry : left ≡ count_retry (world waiting)
unfolding should_retry
left-count_retry = refl

abbrev timed_out : Job
timed_out = job (transient "timeout") (λ w. w)
