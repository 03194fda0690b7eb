-- ===== src/Runtime/Store.antt =====
-- src/agent_farm_runtime/store.py: the task store and its commits, and the worker registry.
-- A mutation runs under `task_mutation_lock`, so nothing else writes between its effects.
pub mod Recovery
pub mod Crash
pub mod Commit
pub mod Success
pub mod Atomic
pub mod Lifecycle
pub mod Workspaces
pub mod Calls
pub mod Once
use agent_farm_runtime.Prelude.{
  ℕ, ◌+◌, String, Option, none, some, Bool, true, false, not, ◌&&◌, ◌||◌, List, [], ◌∷◌, map, ◌==◌,
  ◌!=◌, string_eq, nonempty, codes, is_identifier, contains, lookup, values, any, if◌then◌else◌,
}
use agent_farm_runtime.Runtime.Equality.{state_eq, task_eq, option_string_eq}
use agent_farm_runtime.Runtime.Metadata.{value, get_or, acceptance_set, Timestamp}
use agent_farm_runtime.Runtime.Models.{TaskState, Task, Payload, no_payload, Event}
use agent_farm_runtime.Runtime.Result.{
  Result, ok, err, invalid_task_id, task_not_found, id_changed, torn_log, journal_conflict,
  stale_snapshot, workspace_reserved,
}
use agent_farm_runtime.Runtime.Transitions.{transition_task, assign}
use agent_farm_runtime.Runtime.World.{
  Txn, Disk, prepare, install, append, sync_log, clear_journal, World, Act, pure, raise, lift, gets,
  effect, guard, ◌>>=◌, ◌>>◌,
}
use agent_farm_runtime.Runtime.Deployment.{Identity, require_task_writer}

-- What the store takes from outside: the identity of the running code, `Path(…).resolve()` with the
-- symbolic links that it follows, and the draws of uuid4 and of the clock at a point of the run.
pub record Outside : Type 0 where
  pub identity : Identity
  pub resolve : String → String
  pub event_id : World → String
  pub now : World → ℕ

-- RESERVED_STATES
abbrev pub reserved_states : List TaskState
reserved_states = TaskState.ready ∷ TaskState.running ∷ TaskState.waiting ∷ TaskState.submitted ∷ []

unfoldable pub is_reserved : TaskState → Bool
unfolding contains
is_reserved s = contains reserved_states s

module _ (out : Outside) where
  -- `str(Path(value).resolve()) if value else None`
  unfoldable pub workspace_key : Task → Option String
  workspace_key task = elim task.metadata.workspace [
    | value path ↦ if nonempty path then some (out.resolve path) else none
    | _ ↦ none
  ]

-- `path_for` refuses what is no file name.
unfoldable pub path_for : String → Act (Unit {0})
unfolding is_identifier
path_for task_id = guard (not (is_identifier (codes task_id))) invalid_task_id

abbrev pub or_missing : Option Task → Act Task
or_missing none = raise task_not_found
or_missing (some task) = pure task

-- `TaskStore.get`
unfoldable pub get_task : String → Act Task
unfolding path_for
get_task task_id = do
  path_for task_id
  found ← gets (λ w. lookup task_id w.disk.tasks)
  or_missing found

-- `TaskStore.list`
unfoldable pub list_tasks : Disk → List Task
unfolding values
list_tasks d = values d.tasks

-- `self.get(id).to_dict() if path.exists() else None`
unfoldable pub current_task : String → Act (Option Task)
unfolding path_for
current_task task_id = do path_for task_id; gets (λ w. lookup task_id w.disk.tasks)

-- `EventLog.ids`
unfoldable pub log_ids : Act (List String)
log_ids = do
  log ← gets (λ w. w.disk.log)
  guard log.damaged torn_log
  pure (map (λ (e : Event). e.id) log.events)

-- `_recover_locked` once it has read the journal.
unfoldable pub finish_txn : Txn → Act (Unit {0})
unfolding current_task log_ids
finish_txn txn = do
  current ← current_task txn.after.id
  guard (not (current == txn.before || current == some txn.after)) journal_conflict
  ids ← log_ids
  effect (install txn.after)
  effect (if contains ids txn.event.id then sync_log else append txn.event)
  effect clear_journal

abbrev pub finish_pending : Option Txn → Act (Unit {0})
finish_pending none = pure tt
finish_pending (some txn) = finish_txn txn

-- `TaskStore._recover_locked`
unfoldable pub recover_locked : Act (Unit {0})
unfolding finish_txn
recover_locked = do pending ← gets (λ w. w.disk.pending); finish_pending pending

-- `expected.lease.lease_id if expected.lease else None`
abbrev pub lease_id_of : Task → Option String
lease_id_of task = elim task.lease [ none ↦ none | some l ↦ some l.lease_id ]

-- The transition that a commit makes, if the state changes.
unfoldable pub check_transition : Task → Option Task → Result (Unit {0})
check_transition task none = ok tt
check_transition task (some expected) =
    if task.state == expected.state
    then ok tt
    else elim (transition_task expected task.state (lease_id_of expected)
        (acceptance_set task.metadata.acceptance_receipt) task.metadata (assign task.lease)) [
          | ok t ↦ ok tt
          | err e ↦ err e
        ]

-- `expected is not None and expected.id != task.id`
abbrev pub changes_id : Task → Option Task → Bool
changes_id task none = false
changes_id task (some expected) = expected.id != task.id

abbrev pub revision_of : Option Task → ℕ
revision_of none = 0
revision_of (some expected) = get_or expected.metadata.revision 0

abbrev pub revised : Task → ℕ → Task
revised task n = record task { metadata = record task.metadata { revision = value n } }

module _ (out : Outside) where
  -- Another task holds the workspace of `task`.
  unfoldable pub occupies : Task → Task → Bool
  unfolding is_reserved workspace_key
  occupies task other =
      other.id != task.id
      && (is_reserved other.state && (workspace_key out other == workspace_key out task))

  unfoldable pub workspace_taken : Disk → Task → Bool
  unfolding occupies any list_tasks
  workspace_taken d task = elim (workspace_key out task) [
    | none ↦ false
    | some ws ↦ nonempty ws && (is_reserved task.state && any (occupies task) (list_tasks d))
  ]

  -- The event of a commit.
  abbrev pub commit_event : World → Task → String → String → Payload → Option Timestamp → ℕ → Event
  commit_event w task event_type actor payload ts revision = record {
    id = out.event_id w;
    task_id = task.id;
    type = event_type;
    actor = actor;
    payload = payload;
    revision = some revision;
    ts = elim ts [ none ↦ Timestamp.iso (out.now w) | some t ↦ t ];
  }

  -- `_commit_locked` between its two calls of `_recover_locked`: the checks, and the journal.
  unfoldable pub stage_commit :
      Task → Option Task → String → String → Payload → Option Timestamp → Act Task
  unfolding path_for current_task
  stage_commit task expected event_type actor payload ts = do
    path_for task.id
    guard (changes_id task expected) id_changed
    current ← current_task task.id
    guard (current != expected) stale_snapshot
    lift (check_transition task expected)
    taken ← gets (λ w. workspace_taken w.disk task)
    guard taken workspace_reserved
    let revision = revision_of expected + 1
    let saved = revised task revision
    event ← gets (λ w. commit_event w task event_type actor payload ts revision)
    effect (prepare (record { before = expected; after = saved; event = event }))
    pure saved

  -- `TaskStore._commit_locked`
  unfoldable pub commit_locked :
      Task → Option Task → String → String → Payload → Option Timestamp → Act Task
  unfolding stage_commit
  commit_locked task expected event_type actor payload ts = do
    recover_locked
    saved ← stage_commit task expected event_type actor payload ts
    recover_locked
    pure saved

  -- `TaskStore.recover`
  unfoldable pub recover : Act (Unit {0})
  unfolding require_task_writer
  recover = do manifest ← require_task_writer out.identity false none none; recover_locked

  abbrev pub dispatched : Option (Task → Act (Unit {0})) → Task → Act (Unit {0})
  dispatched none saved = pure tt
  dispatched (some dispatch) saved = dispatch saved

  abbrev pub has_dispatch : Option (Task → Act (Unit {0})) → Bool
  has_dispatch none = false
  has_dispatch (some dispatch) = true

  -- `TaskStore.commit`
  unfoldable pub commit :
      Task
      → Option Task
      → String
      → String
      → Payload
      → Option Timestamp
      → Option (Task → Act (Unit {0}))
      → Option String
      → Act Task
  unfolding require_task_writer commit_locked
  commit task expected event_type actor payload ts dispatch execution_epoch = do
    manifest ← require_task_writer out.identity (has_dispatch dispatch) execution_epoch none
    saved ← commit_locked task expected event_type actor payload ts
    dispatched dispatch saved
    pure saved

  -- `TaskStore.create`
  unfoldable pub create : Task → Act Task
  unfolding commit
  create task = commit task none "TASK_CREATED" "master" no_payload none none none
