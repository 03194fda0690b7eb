-- ===== src/Runtime/Reconciler/Start.antt =====
-- `_start` of src/agent_farm_runtime/reconciler.py: first start, rework, repair and adoption.
use agent_farm_runtime.Prelude.{
  ℕ, ◌+◌, String, Option, none, some, Bool, true, false, not, ◌&&◌, List, [], ◌∷◌, ◌++◌, leb, ◌==◌,
  string_eq, nonempty, cat, contains, if◌then◌else◌,
}
use agent_farm_runtime.Runtime.Equality.{state_eq}
use agent_farm_runtime.Runtime.Metadata.{
  Entry, missing, null, value, get, text_set, flag_set, iso, Metadata, no_metadata,
}
use agent_farm_runtime.Runtime.Models.{TaskState, Lease, Task, limit, launched}
use agent_farm_runtime.Runtime.Transitions.{transition_task, acquire_lease, rotate_lease, assign}
use agent_farm_runtime.Runtime.World.{ReportLine, World, Act, pure, lift, gets, ◌>>=◌, ◌>>◌}
use agent_farm_runtime.Runtime.Deployment.{deployment}
use agent_farm_runtime.Runtime.Files.{master_note_digest}
use agent_farm_runtime.Runtime.Executor.{launch_worker, stop_worker}
use agent_farm_runtime.Runtime.Rotation.{clean_surrender}
use agent_farm_runtime.Runtime.Reconciler.{
  Env, withholds, the_lease, report, named, restarts_of, commit_change, observe, preflight,
}

-- The dispatches of the running epoch.
abbrev pub issued : Env → Task → List String
issued env task = elim task.metadata.dispatches [
  | value d ↦ if d.epoch == env.epoch then d.workers else []
  | _ ↦ []
]

abbrev pub resets_budget : Task → Bool
resets_budget task =
    flag_set task.metadata.restart_limit_reached && text_set task.metadata.resume_requested

abbrev pub digest_entry : Option String → Entry String
digest_entry none = missing
digest_entry (some digest) = value digest

-- `automatic_restarts` of the patch: the last of its three assignments counts.
abbrev pub restarts_patch : Task → Option String → Entry ℕ
restarts_patch task adopting_from =
    if text_set task.metadata.rework_requested
    then value 0
    else if named adopting_from
    then value (restarts_of task + 1)
    else if clean_surrender task && resets_budget task
    then value 0
    else missing

-- `launch_patch`
unfoldable pub launch_patch : Env → Task → Option String → String → ℕ → Option String → Metadata
unfolding clean_surrender
launch_patch env task adopting_from worker_id now digest = record no_metadata {
  launched_ts = value (iso now);
  runtime_error = null;
  worker_checkpoint = null;
  dispatches = value (record { epoch = env.epoch; workers = issued env task ++ worker_id ∷ [] });
  rotation_request = if clean_surrender task then null else missing;
  resume_requested = if clean_surrender task then null else missing;
  restart_limit_reached =
      if clean_surrender task && resets_budget task then value false else missing;
  automatic_restarts = restarts_patch task adopting_from;
  rework_requested = if text_set task.metadata.rework_requested then null else missing;
  master_notes_digest = digest_entry digest;
}

-- `if adopting_from is not None: rotate_lease(…)`. The reason is a text that is not empty.
unfoldable pub retire : Task → Option String → Act Task
unfolding rotate_lease
retire task none = pure task
retire task (some dead) = lift (rotate_lease task dead "no heartbeat within the grace time")

-- The states that a transition leads out of; a RUNNING task keeps its state.
abbrev pub is_startable : TaskState → Bool
is_startable s = contains (TaskState.ready ∷ TaskState.submitted ∷ TaskState.waiting ∷ []) s

unfoldable pub run_under : Task → Task → Lease → Act Task
unfolding transition_task contains
run_under base leased lease =
    if is_startable base.state
    then lift (
        transition_task leased TaskState.running (some lease.lease_id) false no_metadata
          (assign (some lease)))
    else pure leased

abbrev pub start_event : Task → Option String → String
start_event base adopting_from =
    if is_startable base.state
    then if base.state == TaskState.submitted then "REWORK_STARTED" else "WORKER_LAUNCHED"
    else if named adopting_from
    then "WORKER_ADOPTED"
    else "WORKER_RELAUNCHED"

abbrev pub start_line : Task → Option String → ReportLine
start_line base adopting_from =
    if not (is_startable base.state) && named adopting_from
    then ReportLine.adopted base.id
    else ReportLine.launched base.id

abbrev pub dead_worker : Option String → Option String
dead_worker none = none
dead_worker (some dead) = if nonempty dead then some dead else none

module _ (env : Env) where
  abbrev pub stop_dead : Option String → Act (Unit {0})
  stop_dead none = pure tt
  stop_dead (some dead) = if nonempty dead then stop_worker env.executor dead else pure tt

  -- The dispatch of a start.
  unfoldable pub dispatch_start : Task → Option String → Lease → Task → Act (Unit {0})
  unfolding stop_worker launch_worker observe
  dispatch_start task adopting_from lease saved = do
    stop_dead adopting_from
    handle ← launch_worker env.executor saved lease
    observe env lease.worker_id handle task.id lease.lease_id true

  abbrev pub mint : Task → World → Lease
  mint task w = record {
    worker_id = cat "W-" (cat task.id (cat "-" (env.suffix w)));
    lease_id = env.lease_uuid w;
    expiry = none;
  }

  -- `_start` once the executor took the task
  unfoldable pub launch_under : Task → Option String → Act (Unit {0})
  unfolding retire launch_patch run_under acquire_lease dispatch_start commit_change
      master_note_digest
  launch_under task adopting_from = do
    base ← retire task adopting_from
    lease ← gets (mint task)
    now ← gets env.outside.now
    digest ← gets (λ w. master_note_digest env.files w (get task.metadata.workspace))
    owned ←
        lift (
          acquire_lease base lease (launch_patch env task adopting_from lease.worker_id now digest))
    leased ← run_under base owned lease
    commit_change env leased (start_event base adopting_from)
        (launched lease.worker_id lease.lease_id (dead_worker adopting_from)) task
        (some (dispatch_start task adopting_from lease))
    report (start_line base adopting_from)

  -- The metadata that pauses a task at its restart limit.
  abbrev pub limit_patch : Metadata
  limit_patch = record no_metadata {
    waiting_on = value "ruling:runtime-restart-limit";
    restart_limit_reached = value true;
  }

  unfoldable pub pause_at_limit : Task → Act (Unit {0})
  unfolding transition_task commit_change
  pause_at_limit task = do
    lease ← the_lease task
    paused ← lift (
        transition_task task TaskState.waiting (some lease.lease_id) false limit_patch
          (assign task.lease))
    commit_change env paused "RESTART_LIMIT_REACHED" (limit env.max_auto_restarts) task none
    report (ReportLine.executor_error task.id)

  -- `adopting_from and … >= self.max_auto_restarts`
  abbrev pub over_limit : Task → Option String → Bool
  over_limit task adopting_from =
      named adopting_from && leb env.max_auto_restarts (restarts_of task)

  -- `_start`
  unfoldable pub start : Task → Option String → Act (Unit {0})
  unfolding deployment pause_at_limit preflight launch_under
  start task adopting_from = do
    control ← deployment
    if withholds control
        then pure tt
        else if over_limit task adopting_from
        then pause_at_limit task
        else preflight env task
          >>= (λ accepts. if accepts then launch_under task adopting_from else pure tt)
