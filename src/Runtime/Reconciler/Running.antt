-- ===== src/Runtime/Reconciler/Running.antt =====
-- A RUNNING task in `_reconcile_task` of src/agent_farm_runtime/reconciler.py.
use agent_farm_runtime.Prelude.{
  Option, none, some, Bool, true, false, ◌||◌, List, ◌==◌, ◌!=◌, string_eq, if◌then◌else◌,
}
use agent_farm_runtime.Runtime.Equality.{state_eq, status_eq, error_eq}
use agent_farm_runtime.Runtime.Metadata.{null, present}
use agent_farm_runtime.Runtime.Models.{Lease, Task, Worker, ReceiptStatus, Receipt, no_payload}
use agent_farm_runtime.Runtime.World.{ReportLine, Act, pure, gets, ◌>>=◌, ◌>>◌}
use agent_farm_runtime.Runtime.Executor.{poll}
use agent_farm_runtime.Runtime.Reconciler.{Env, durably_dead, report, commit_change, observe}
use agent_farm_runtime.Runtime.Reconciler.Start.{start}
use agent_farm_runtime.Runtime.Reconciler.Receipts.{apply_receipt}

-- The receipt is not of this worker, lease and task.
unfoldable pub is_stale : Task → Lease → Receipt → Bool
is_stale task lease receipt =
    receipt.lease_id != lease.lease_id
    || (receipt.worker_id != lease.worker_id || receipt.task_id != task.id)

abbrev pub is_progress : Receipt → Bool
is_progress receipt = receipt.status == ReceiptStatus.running

abbrev pub clear_error : Task → Task
clear_error task = record task { metadata = record task.metadata { runtime_error = null } }

module _ (env : Env) where
  -- A receipt that is stale is reported, and left out.
  unfoldable pub fenced : Task → Lease → Option Receipt → Act (Option Receipt)
  unfolding is_stale
  fenced task lease none = pure none
  fenced task lease (some receipt) =
      if is_stale task lease receipt
      then report (ReportLine.ignored_stale receipt.worker_id) >>= (λ _. pure none)
      else pure (some receipt)

  -- An error that is recorded is cleared.
  unfoldable pub verify_executor : Task → Act (Unit {0})
  unfolding commit_change
  verify_executor task =
      if present task.metadata.runtime_error
      then commit_change env (clear_error task) "EXECUTOR_VERIFIED" no_payload task none
        >>= (λ _. pure tt)
      else pure tt

  -- A worker that is observed alive
  unfoldable pub verify_alive : Task → Lease → Act (Unit {0})
  unfolding verify_executor observe
  verify_alive task lease = do
    verify_executor task
    observe env lease.worker_id none task.id lease.lease_id true
    report (ReportLine.heartbeat lease.worker_id)

  -- A worker that is observed dead
  unfoldable pub found_dead : Task → Lease → List Worker → Act (Unit {0})
  unfolding durably_dead start
  found_dead task lease workers =
      if present task.metadata.runtime_error
      then report (ReportLine.executor_error task.id)
      else if present task.metadata.rotation_request
      then report (ReportLine.observation_error task.id)
      else gets env.outside.now >>= (λ now.
        if durably_dead env now task lease workers
        then start env task (some lease.worker_id)
        else report (ReportLine.waiting_grace task.id))

  abbrev pub on_liveness : Task → Lease → List Worker → Option Bool → Act (Unit {0})
  on_liveness task lease workers none = report (ReportLine.observation_error task.id)
  on_liveness task lease workers (some true) = verify_alive task lease
  on_liveness task lease workers (some false) = found_dead task lease workers

  unfoldable pub on_receipt :
      Task → Lease → List Worker → Option Bool → Option Receipt → Act (Unit {0})
  unfolding verify_alive found_dead apply_receipt
  on_receipt task lease workers alive none = on_liveness task lease workers alive
  on_receipt task lease workers alive (some receipt) =
      if is_progress receipt
      then on_liveness task lease workers alive
      else apply_receipt env task receipt alive

  abbrev pub reconcile_leased : Task → List Worker → Option Lease → Act (Unit {0})
  reconcile_leased task workers none = start env task none
  reconcile_leased task workers (some lease) = do
    obs ← poll env.executor lease.worker_id
    receipt ← fenced task lease obs.receipt
    on_receipt task lease workers obs.alive receipt

  -- A RUNNING task
  unfoldable pub reconcile_running : Task → List Worker → Act (Unit {0})
  unfolding start poll fenced on_receipt
  reconcile_running task workers = reconcile_leased task workers task.lease
