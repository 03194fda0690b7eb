-- ===== src/Runtime/Reconciler/Receipts.antt =====
-- `_apply_receipt` and `_surrender` of src/agent_farm_runtime/reconciler.py.
use agent_farm_runtime.Prelude.{
  is_absolute, ℕ, String, Option, none, some, Bool, true, false, not, ◌&&◌, ◌||◌, ◌==◌, ◌!=◌,
  string_eq, nonempty, cat, if◌then◌else◌,
}
use agent_farm_runtime.Runtime.Equality.{state_eq, option_string_eq}
use agent_farm_runtime.Runtime.Metadata.{
  null, value, get, iso, Checkpoint, RequestedState, was_running, was_waiting, RotationRequest,
  Surrender, Metadata, no_metadata,
}
use agent_farm_runtime.Runtime.Models.{TaskState, Lease, Task, Receipt, applied, surrendered}
use agent_farm_runtime.Runtime.Result.{Error, bad_checkpoint, is_store_or_os}
use agent_farm_runtime.Runtime.Transitions.{transition_task, rotate_lease, assign}
use agent_farm_runtime.Runtime.World.{
  ReportLine, Act, pure, raise, lift, gets, try_catch, guard, ◌>>=◌, ◌>>◌,
}
use agent_farm_runtime.Runtime.Files.{snapshot_file}
use agent_farm_runtime.Runtime.Executor.{poll, stop_worker}
use agent_farm_runtime.Runtime.Reconciler.{
  Env, receipt_target, the_lease, report, named, commit_change, observe,
}

abbrev pub is_waiting : TaskState → Bool
is_waiting target = target == TaskState.waiting

-- `receipt.rotation_id and (not request or receipt.rotation_id != request["id"])`
abbrev pub wrong_rotation : Receipt → Option RotationRequest → Bool
wrong_rotation receipt none = named receipt.rotation_id
wrong_rotation receipt (some request) =
    named receipt.rotation_id && receipt.rotation_id != some request.id

-- `receipt.waiting_on or (…)`
abbrev wait_of : Option String → Option String → String
wait_of (some w) rotation = if nonempty w then w else elim rotation [
  | some r ↦ if nonempty r then cat "rotation:" r else "unspecified"
  | none ↦ "unspecified"
]
wait_of none (some r) = if nonempty r then cat "rotation:" r else "unspecified"
wait_of none none = "unspecified"

-- The patch of a receipt that ends the execution.
unfoldable pub ended_patch : Receipt → Metadata
ended_patch receipt = record no_metadata {
  last_receipt_note = value receipt.note;
  runtime_error = null;
  rotation_request = null;
}

-- The patch of a receipt that waits.
unfoldable pub waiting_patch : Receipt → Option Checkpoint → Metadata
waiting_patch receipt checkpoint = record no_metadata {
  last_receipt_note = value receipt.note;
  runtime_error = null;
  waiting_on = value (wait_of receipt.waiting_on receipt.rotation_id);
  worker_checkpoint = elim checkpoint [ none ↦ null | some c ↦ value c ];
}

module _ (env : Env) where
  -- The checkpoint that a receipt names.
  unfoldable pub receipt_checkpoint : Receipt → String → Act Checkpoint
  unfolding snapshot_file is_absolute
  receipt_checkpoint receipt path = do
    guard (not (is_absolute path)) bad_checkpoint
    snapshot ← snapshot_file env.files path
    pure (record {
      snapshot = snapshot;
      worker_id = some receipt.worker_id;
      lease_id = some receipt.lease_id;
      rotation_id = receipt.rotation_id;
    })

  abbrev pub observe_known : Receipt → Task → Lease → Option Bool → Act (Unit {0})
  observe_known receipt task lease none = pure tt
  observe_known receipt task lease (some alive) =
      observe env receipt.worker_id none task.id lease.lease_id alive

  -- `_apply_receipt` from its transition on
  unfoldable pub advance : Task → Receipt → TaskState → Metadata → Option Bool → Act (Unit {0})
  unfolding transition_task commit_change observe stop_worker
  advance task receipt target patch alive = do
    lease ← the_lease task
    moved ← lift (
        transition_task task target (some lease.lease_id) false patch
          (assign (if is_waiting target then task.lease else none)))
    commit_change env moved "RECEIPT_APPLIED" (applied receipt.worker_id receipt.status target) task
        none
    observe_known receipt task lease alive
    report (ReportLine.advanced task.id target)
    if is_waiting target then pure tt else stop_worker env.executor receipt.worker_id

  abbrev pub checkpoint_failed : Task → Error → Act (Option Checkpoint)
  checkpoint_failed task e =
      if is_store_or_os e
      then report (ReportLine.preflight_failure task.id e) >>= (λ _. pure none)
      else raise e

  abbrev pub advance_at : Task → Receipt → Option Bool → Option Checkpoint → Act (Unit {0})
  advance_at task receipt alive none = pure tt
  advance_at task receipt alive (some c) =
      advance task receipt TaskState.waiting (waiting_patch receipt (some c)) alive

  -- A checkpoint that cannot be taken leaves the task as it is.
  unfoldable pub advance_with : Task → Receipt → String → Option Bool → Act (Unit {0})
  unfolding receipt_checkpoint waiting_patch advance
  advance_with task receipt path alive = do
    checkpoint ←
        try_catch (receipt_checkpoint receipt path >>= (λ c. pure (some c)))
          (checkpoint_failed task)
    advance_at task receipt alive checkpoint

  abbrev pub wait_at : Task → Receipt → Option String → Option Bool → Act (Unit {0})
  wait_at task receipt none alive =
      advance task receipt TaskState.waiting (waiting_patch receipt none) alive
  wait_at task receipt (some path) alive =
      if nonempty path
      then advance_with task receipt path alive
      else advance task receipt TaskState.waiting (waiting_patch receipt none) alive

  -- `_apply_receipt`
  unfoldable pub apply_receipt : Task → Receipt → Option Bool → Act (Unit {0})
  unfolding advance advance_with waiting_patch ended_patch
  apply_receipt task receipt alive = do
    target ← lift (receipt_target receipt.status)
    if not (is_waiting target)
        then advance task receipt target (ended_patch receipt) alive
        else if wrong_rotation receipt (get task.metadata.rotation_request)
        then report (ReportLine.ignored_stale receipt.worker_id)
        else wait_at task receipt receipt.checkpoint alive

  abbrev from_waiting : RequestedState → Bool
  from_waiting was_waiting = true
  from_waiting was_running = false

  abbrev own_checkpoint : RotationRequest → Lease → Option Checkpoint → Option Checkpoint
  own_checkpoint request lease none = none
  own_checkpoint request lease (some c) =
      if c.worker_id == some lease.worker_id
        && (c.lease_id == some lease.lease_id
            && (from_waiting request.requested_state || c.rotation_id == some request.id))
      then some c
      else none

  -- `request.get("checkpoint")`, or else the worker's own
  unfoldable pub surrender_checkpoint : RotationRequest → Lease → Task → Option Checkpoint
  surrender_checkpoint request lease task = elim request.checkpoint [
    | some c ↦ some c
    | none ↦ own_checkpoint request lease (get task.metadata.worker_checkpoint)
  ]

  abbrev pub retired_task : Task → Surrender → Task
  retired_task retired r = record retired {
    metadata = record retired.metadata {
      clean_surrender = value r;
      rotation_request = null;
      runtime_error = null;
    };
  }

  abbrev pub surrender_of : Task → RotationRequest → Lease → Checkpoint → ℕ → Surrender
  surrender_of task request lease checkpoint now = record {
    id = request.id;
    worker_id = lease.worker_id;
    lease_id = lease.lease_id;
    checkpoint = checkpoint;
    waiting_on = get task.metadata.waiting_on;
    ts = iso now;
  }

  -- The commit of a surrender.
  unfoldable pub retire_worker : Task → RotationRequest → Lease → Checkpoint → Act (Unit {0})
  unfolding rotate_lease commit_change
  retire_worker task request lease checkpoint = do
    now ← gets env.outside.now
    retired ← lift (rotate_lease task lease.worker_id "clean checkpoint and confirmed exit")
    let r = surrender_of task request lease checkpoint now
    commit_change env (retired_task retired r) "WORKER_SURRENDERED" (surrendered r) task none
    report (ReportLine.advanced task.id TaskState.waiting)

  abbrev pub is_dead : Option Bool → Bool
  is_dead (some false) = true
  is_dead _ = false

  abbrev pub surrender_with : Task → RotationRequest → Lease → Option Checkpoint → Act (Unit {0})
  surrender_with task request lease none = report (ReportLine.observation_error task.id)
  surrender_with task request lease (some checkpoint) = do
    obs ← poll env.executor lease.worker_id
    if is_dead obs.alive
        then retire_worker task request lease checkpoint
        else report (ReportLine.observation_error task.id)

  -- `_surrender`
  unfoldable pub surrender : Task → RotationRequest → Act (Unit {0})
  unfolding surrender_checkpoint poll retire_worker
  surrender task request = do
    lease ← the_lease task
    if request.worker_id != lease.worker_id || request.lease_id != lease.lease_id
        then report (ReportLine.observation_error task.id)
        else surrender_with task request lease (surrender_checkpoint request lease task)
