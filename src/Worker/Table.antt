-- ===== src/Worker/Table.antt =====
-- `UPDATE task_runs SET ... WHERE ...` under the CHECK constraints of
-- backend/app/models/task_run.py.
pub mod Laws
use ai_data_operations_emplo.Prelude.{
  ℕ, Bool, true, not, ◌&&◌, Option, none, some, List, [], ◌∷◌, leb, if◌then◌else◌, is_none, tally,
  any,
}
use ai_data_operations_emplo.Worker.Model.{
  TaskRun, TaskRunStatus, pending, running, success, failed, is_running,
}

-- ck_task_runs_status_invariants, by the status.
abbrev pub status_columns : TaskRunStatus → TaskRun → Bool
status_columns pending r = is_none r.started_at && is_none r.finished_at && is_none r.error_message
status_columns running r = not (is_none r.started_at) && is_none r.finished_at
status_columns success r =
    not (is_none r.started_at) && not (is_none r.finished_at) && is_none r.error_message
status_columns failed r =
    not (is_none r.started_at) && not (is_none r.finished_at) && not (is_none r.error_message)

abbrev pub not_before : Option ℕ → Option ℕ → Bool
not_before none _ = true
not_before (some f) none = true
not_before (some f) (some s) = leb s f

unfoldable pub status_invariants : TaskRun → Bool
status_invariants r = status_columns r.status r

-- ck_task_runs_finished_after_started
unfoldable pub finished_after_started : TaskRun → Bool
finished_after_started r = not_before r.finished_at r.started_at

-- ck_task_runs_lease_consistency
unfoldable pub lease_consistency : TaskRun → Bool
lease_consistency r =
    if is_running r.status
    then not (is_none r.lease_token) && not (is_none r.lease_expires_at)
    else is_none r.lease_token && is_none r.lease_expires_at

unfoldable pub check_constraints : TaskRun → Bool
unfolding status_invariants finished_after_started lease_consistency
check_constraints r = status_invariants r && finished_after_started r && lease_consistency r

unfoldable pub assign : (TaskRun → Bool) → (TaskRun → TaskRun) → List TaskRun → List TaskRun
assign selects values [] = []
assign selects values (r ∷ rows) = (if selects r then values r else r) ∷ assign selects values rows

-- The new rows with the row count, or `none` for an IntegrityError.
unfoldable pub update :
    (TaskRun → Bool) → (TaskRun → TaskRun) → List TaskRun → Option (List TaskRun × ℕ)
unfolding assign
update selects values rows =
    if any (λ r. selects r && not (check_constraints (values r))) rows
    then none
    else some (assign selects values rows, tally selects rows)
