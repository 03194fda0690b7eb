-- ===== src/Runtime/Reconciler.antt =====
-- src/agent_farm_runtime/reconciler.py: one pass of the control loop over a farm.
pub mod Start
pub mod Resume
pub mod Receipts
pub mod Running
pub mod Pass
pub mod Moves
pub mod Contract
pub mod Ownership
pub mod Unknown
mod Tests
use agent_farm_runtime.Prelude.{
  ℕ, ◌+◌, String, Option, none, some, Bool, true, false, ◌||◌, List, [], ◌∷◌, leb, ◌==◌, string_eq,
  nonempty, if◌then◌else◌,
}
use agent_farm_runtime.Runtime.Equality.{state_eq, status_eq, error_eq}
use agent_farm_runtime.Runtime.Metadata.{get, get_or, Timestamp, iso}
use agent_farm_runtime.Runtime.Models.{
  TaskState, WorkerState, Lease, Task, Worker, ReceiptStatus, Payload,
}
use agent_farm_runtime.Runtime.Result.{
  Error, Result, ok, err, key_error, attribute_error, is_store_or_os,
}
use agent_farm_runtime.Runtime.World.{
  draining, released, Manifest, ReportLine, put_observed, reported, World, Act, pure, raise, gets,
  ask, try_catch, effect, ◌>>=◌, ◌>>◌,
}
use agent_farm_runtime.Runtime.Deployment.{phase_is}
use agent_farm_runtime.Runtime.Files.{Files}
use agent_farm_runtime.Runtime.Executor.{Executor}
use agent_farm_runtime.Runtime.Store.{Outside, commit}

-- The arguments of a `Reconciler`, the execution epoch that it read when it was made, and the draws
-- of uuid4. Times are in the unit of the clock.
pub record Env : Type 0 where
  pub outside : Outside
  pub files : Files
  pub executor : Executor
  pub actor : String
  pub unblock : Option (World → Task → Result Bool)
  pub grace_seconds : ℕ
  pub max_auto_restarts : ℕ
  pub epoch : String
  pub suffix : World → String
  pub lease_uuid : World → String

-- _RECEIPT_TARGET
abbrev pub receipt_target : ReceiptStatus → Result TaskState
receipt_target ReceiptStatus.running = err key_error
receipt_target ReceiptStatus.awaiting = ok TaskState.waiting
receipt_target ReceiptStatus.submitted = ok TaskState.submitted
receipt_target ReceiptStatus.failed = ok TaskState.failed

-- `_parse`, which also takes no text
abbrev pub parse : Option Timestamp → Option ℕ
parse (some (iso t)) = some t
parse _ = none

-- `phase in {"draining", "released"}`
abbrev pub withholds : Manifest → Bool
withholds m = phase_is draining m.handoff || phase_is released m.handoff

-- `{w.id: w for w in …}[worker_id]`: the last one wins.
unfoldable pub find_worker : String → List Worker → Option Worker
find_worker worker_id [] = none
find_worker worker_id (w ∷ rest) =
    let later = find_worker worker_id rest in
    elim later [ some v ↦ some v | none ↦ if w.id == worker_id then some w else none ]

abbrev heartbeat_of : Option Worker → Option Timestamp
heartbeat_of none = none
heartbeat_of (some w) = w.heartbeat

abbrev or_else : Option ℕ → Option ℕ → Option ℕ
or_else none b = b
or_else (some a) b = some a

-- `_durably_dead`
unfoldable pub durably_dead : Env → ℕ → Task → Lease → List Worker → Bool
unfolding find_worker
durably_dead env now task lease workers =
    elim (or_else (parse (heartbeat_of (find_worker lease.worker_id workers)))
      (parse (get task.metadata.launched_ts))) [
        | none ↦ false
        | some baseline ↦ leb (baseline + env.grace_seconds) now
      ]

-- `task.lease`, of which the code takes an attribute
abbrev pub or_no_lease : Option Lease → Act Lease
or_no_lease none = raise attribute_error
or_no_lease (some l) = pure l

abbrev pub the_lease : Task → Act Lease
the_lease task = or_no_lease task.lease

abbrev pub report : ReportLine → Act (Unit {0})
report line = effect (reported line)

-- The truth of a text that may be missing.
abbrev pub named : Option String → Bool
named none = false
named (some s) = nonempty s

abbrev pub restarts_of : Task → ℕ
restarts_of task = get_or task.metadata.automatic_restarts 0

module _ (env : Env) where
  -- `_commit`, with the texts and the payload of the event
  unfoldable pub commit_change :
      Task → String → Payload → Task → Option (Task → Act (Unit {0})) → Act Task
  unfolding commit
  commit_change new_task event_type payload expected dispatch = do
    ts ← gets env.outside.now
    commit env.outside new_task (some expected) event_type env.actor payload (some (iso ts))
        dispatch (some env.epoch)

  -- `_observe`
  unfoldable pub observe : String → Option String → String → String → Bool → Act (Unit {0})
  observe worker_id handle task_id lease_id alive = do
    ts ← gets env.outside.now
    effect (
        put_observed (record {
          id = worker_id;
          session_handle = handle;
          heartbeat = some (iso ts);
          lease = some (record { task_id = task_id; lease_id = lease_id });
          state = if alive then WorkerState.busy else WorkerState.dead;
        }))

  abbrev pub preflight_failed : Task → Error → Act Bool
  preflight_failed task e =
      if is_store_or_os e
      then report (ReportLine.preflight_failure task.id e) >>= (λ _. pure false)
      else raise e

  abbrev pub preflight_by : Option (World → Task → Result (Unit {0})) → Task → Act Bool
  preflight_by none task = pure true
  preflight_by (some validate) task =
      try_catch (ask (λ w. validate w task) >>= (λ _. pure true)) (preflight_failed task)

  -- `_preflight`
  unfoldable pub preflight : Task → Act Bool
  preflight task = preflight_by env.executor.validate_task task
