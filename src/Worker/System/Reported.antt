-- ===== src/Worker/System/Reported.antt =====
-- The lease after a report (complete_success and complete_failure of backend/app/worker/engine.py).
use ai_data_operations_emplo.Prelude.{
  ℕ, ◌+◌, ◌≡◌, refl, Bool, true, false, ◌&&◌, Option, none, some, List, [], ◌∷◌, String, ◌==◌,
  holds, arith, Bool-cases, Option-cases, inl, inr, All,
}
use ai_data_operations_emplo.Worker.Model.{TaskRun, Env, World, get_run, is_running}
use ai_data_operations_emplo.Worker.Table.{assign, update, check_constraints}
use ai_data_operations_emplo.Worker.Table.Laws.{AllChecked, update-eq-some}
use ai_data_operations_emplo.Worker.Session.{done}
use ai_data_operations_emplo.Worker.Lease.{
  owned, guarded, success_values, succeeded, complete_success,
}
use ai_data_operations_emplo.Worker.Failure.{
  requeue_values, failed_values, report_failure, complete_failure, retry_delay, requeued,
  terminated, count_retry, count_failure, should_retry,
}
use ai_data_operations_emplo.Worker.System.{Policy, Reach}
use ai_data_operations_emplo.Worker.System.Fencing.{
  IsFresh, IsIssued, NotHeld, IsRefused, stale_lease-IsRefused,
}

module _ (i token : ℕ) (values : TaskRun → TaskRun) where
  -- A row within the constraints that is not running holds no token.
  NotHeld-unless_owned :
      (r : TaskRun) → check_constraints r ≡ true → owned i token r ≡ false → NotHeld i token r
  unfolding check_constraints
  NotHeld-unless_owned r c o same held = ground arith

  NotHeld-release :
      ((r : TaskRun) → (values r).lease_token ≡ none)
      → (rows : List TaskRun) → AllChecked rows
      → All (NotHeld i token) (assign (owned i token) values rows)
  unfolding assign
  NotHeld-release releases [] h = tt
  NotHeld-release releases (r ∷ rows) h = elim (Bool-cases (owned i token r)) [
    | inl e ↦ rw e ((λ _ held. cc (releases r)), NotHeld-release releases rows h.1)
    | inr e ↦ rw e (NotHeld-unless_owned r h.0 e, NotHeld-release releases rows h.1)
  ]

guarded-done :
    (result : Option (List TaskRun × ℕ)) (refused lost : World) (committed : List TaskRun → World)
    (w' : World)
    → guarded result refused lost committed ≡ (done, w')
    → (rows : List TaskRun) × (result ≡ some (rows, 1)) × (committed rows ≡ w')
guarded-done none refused lost committed w' h = absurd (cc h)
guarded-done (some (rows, n)) refused lost committed w' h = elim (Bool-cases (n == 1)) [
  | inl e ↦ (rows, ground arith, cc (rw e at h))
  | inr e ↦ absurd (cc (rw e at h))
]

succeeded-state :
    (now : ℕ) (worker_id : String) (w : World) (o : Option TaskRun)
    → ((succeeded now worker_id w o).runs ≡ w.runs)
      × ((succeeded now worker_id w o).draws ≡ w.draws)
succeeded-state now worker_id w none = (refl, refl)
succeeded-state now worker_id w (some r) = (refl, refl)

pub complete_success-releases :
    (now i token : ℕ) (worker_id : String) (log_output : Option String) (w w' : World)
    → AllChecked w.runs
    → complete_success now i token worker_id log_output w ≡ (done, w')
    → All (NotHeld i token) w'.runs × (w'.draws ≡ w.draws)
unfolding complete_success success_values
complete_success-releases now i token worker_id log_output w w' all h =
    let (rows, u, e) =
      guarded-done (update (owned i token) (success_values now log_output) w.runs) w w
        (λ rows. succeeded now worker_id (record w { runs = rows }) (get_run i rows)) w' h in
    let (same, drawn) = succeeded-state now worker_id (record w { runs = rows }) (get_run i rows) in
    let released = NotHeld-release i token (success_values now log_output) (λ r. refl) w.runs all in
    (rw (← e, same, (update-eq-some _ _ _ _ _ u).0) released, rw (← e) drawn)

pub report_failure-releases :
    (env : Env) (now i token : ℕ) (worker_id error_message : String) (retryable : Bool)
    (log_output : Option String) (run : TaskRun) (retry : Bool) (w w' : World)
    → AllChecked w.runs
    → report_failure env now i token worker_id error_message retryable log_output run retry w
      ≡ (done, w')
    → All (NotHeld i token) w'.runs × (w'.draws ≡ w.draws)
unfolding report_failure requeue_values failed_values
report_failure-releases env now i token wid msg retryable log run true w w' all h =
    let at : ℕ = now + retry_delay env run.attempt_count in
    let (rows, u, e) =
      guarded-done (update (owned i token) (requeue_values at log) w.runs) w (count_retry w)
        (requeued at wid msg run w) w' h in
    (
      rw (← e, (update-eq-some _ _ _ _ _ u).0)
          (NotHeld-release i token (requeue_values at log) (λ r. refl) w.runs all),
      rw (← e) refl,
    )
report_failure-releases env now i token wid msg retryable log run false w w' all h =
    let (rows, u, e) =
      guarded-done (update (owned i token) (failed_values now msg log) w.runs) w (count_failure w)
        (terminated wid msg retryable run w) w' h in
    (
      rw (← e, (update-eq-some _ _ _ _ _ u).0)
          (NotHeld-release i token (failed_values now msg log) (λ r. refl) w.runs all),
      rw (← e) refl,
    )

-- A failure that is reported went through the UPDATE in the world that `others` left.
pub complete_failure-done :
    (env : Env) (others : World → World) (now i token : ℕ) (worker_id error_message : String)
    (retryable : Bool) (log_output : Option String) (w w' : World)
    → complete_failure env others now i token worker_id error_message retryable log_output w
      ≡ (done, w')
    → (run : TaskRun) × (get_run i w.runs ≡ some run)
      × (holds run.lease_token token && is_running run.status ≡ true)
      × (report_failure env now i token worker_id error_message retryable log_output run
            (should_retry env w run retryable)
            (others w)
          ≡ (done, w'))
unfolding complete_failure
complete_failure-done env others now i token wid msg retryable log w w' h =
    elim (Option-cases (get_run i w.runs)) [
      | inl e ↦ absurd (cc (rw e at h))
      | inr (run, e) ↦ elim (Bool-cases (holds run.lease_token token && is_running run.status)) [
        | inl g ↦ (run, e, g, rw g at (rw e at h))
        | inr g ↦ absurd (cc (rw g at (rw e at h)))
      ]
    ]

-- Where UUIDs do not collide and a run is reported a success under a token that has been drawn, in a world within the CHECK
-- constraints, then after any further steps every heartbeat, success or failure for that run under
-- that token raises LeaseLostError and changes nothing.
pub success_reported_once :
    (env : Env) {policy : Policy} (now i token : ℕ) (worker_id : String)
    (log_output : Option String) (w : World) {w' w'' : World}
    → IsFresh env
    → AllChecked w.runs
    → IsIssued env token w.draws
    → complete_success now i token worker_id log_output w ≡ (done, w')
    → Reach env policy w' w''
    → IsRefused env i token w''
success_reported_once env now i token wid log w {w'} fresh all (k, lt, is) h r =
    let (none_hold, drawn) = complete_success-releases now i token wid log w w' all h in
    stale_lease-IsRefused env i token fresh ((k, rw drawn lt, is), none_hold) r

-- Where UUIDs do not collide and the world that other sessions leave before the UPDATE is within the
-- CHECK constraints and has drawn the token, a failure that is reported, requeued or final, ends its
-- lease: after any further steps every report that presents this token for the run is refused.
pub failure_reported_once :
    (env : Env) {policy : Policy} (others : World → World) (now i token : ℕ)
    (worker_id error_message : String) (retryable : Bool) (log_output : Option String) (w : World)
    {w' w'' : World}
    → IsFresh env
    → AllChecked (others w).runs
    → IsIssued env token (others w).draws
    → complete_failure env others now i token worker_id error_message retryable log_output w
      ≡ (done, w')
    → Reach env policy w' w''
    → IsRefused env i token w''
failure_reported_once env others now i token wid msg retryable log w {w'} fresh all (k, lt, is) h
      r =
    let (run, _, _, reported) =
      complete_failure-done env others now i token wid msg retryable log w w' h in
    let (none_hold, drawn) =
      report_failure-releases env now i token wid msg retryable log run
        (should_retry env w run retryable) (others w) w' all reported in
    stale_lease-IsRefused env i token fresh ((k, rw drawn lt, is), none_hold) r
