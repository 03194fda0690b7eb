-- ===== src/Runtime/Rotation.antt =====
-- src/agent_farm_runtime/turnover.py: the planned rotation of a worker, `clean_surrender` and
-- `request_rotation`.
use agent_farm_runtime.Prelude.{
  ℕ, String, Option, none, some, Bool, true, false, not, ◌&&◌, [], ◌∷◌, ◌==◌, ◌!=◌, string_eq,
  nat_eq, nonempty, not_blank, codes, is_short_identifier, contains, if◌then◌else◌,
}
use agent_farm_runtime.Runtime.Equality.{state_eq, option_string_eq, checkpoint_eq}
use agent_farm_runtime.Runtime.Metadata.{
  Entry, missing, null, value, get, get_or, Timestamp, iso, unparsed, Snapshot, Checkpoint,
  RequestedState, was_running, was_waiting, RotationRequest, Surrender,
}
use agent_farm_runtime.Runtime.Models.{TaskState, Lease, Task, rotation}
use agent_farm_runtime.Runtime.Result.{
  invalid_rotation, revision_changed, rotation_needs_lease, rotation_already_requested,
  checkpoint_needs_waiting, attribute_error,
}
use agent_farm_runtime.Runtime.World.{Act, pure, raise, gets, guard, ◌>>=◌, ◌>>◌}
use agent_farm_runtime.Runtime.Files.{Files, snapshot_file}
use agent_farm_runtime.Runtime.Store.{Outside, get_task, commit}

abbrev timestamp_set : Timestamp → Bool
timestamp_set (iso t) = true
timestamp_set (unparsed s) = nonempty s

-- The tests of `clean_surrender` on the record.
unfoldable pub surrender_holds : Task → Surrender → Bool
surrender_holds task s =
    nonempty s.id
    && nonempty s.worker_id
    && nonempty s.lease_id
    && timestamp_set s.ts
    && not_blank s.checkpoint.snapshot.text
    && (s.waiting_on == get task.metadata.waiting_on)

abbrev pub has_lease : Task → Bool
has_lease task = elim task.lease [ none ↦ false | some l ↦ true ]

-- `clean_surrender`
unfoldable pub clean_surrender : Task → Bool
unfolding surrender_holds
clean_surrender task =
    task.state == TaskState.waiting
    && (not (has_lease task)
        && elim task.metadata.clean_surrender [ value s ↦ surrender_holds task s | _ ↦ false ])

-- `task.metadata.get("clean_surrender", {}).get("id") == request_id`
abbrev pub surrendered_as : String → Entry Surrender → Act Bool
surrendered_as request_id missing = pure false
surrendered_as request_id null = raise attribute_error
surrendered_as request_id (value s) = pure (s.id == request_id)

-- `task.state.value` of a RUNNING or a WAITING task
abbrev requested_state_of : TaskState → RequestedState
requested_state_of TaskState.waiting = was_waiting
requested_state_of _ = was_running

abbrev pub or_needs_lease : Option Lease → Act Lease
or_needs_lease none = raise rotation_needs_lease
or_needs_lease (some l) = pure l

abbrev other_request : String → Option RotationRequest → Bool
other_request request_id none = false
other_request request_id (some previous) = previous.id != request_id

-- A recorded request stands, unless a new checkpoint comes.
abbrev request_stands : Option RotationRequest → Option Checkpoint → Bool
request_stands none checkpoint = false
request_stands (some previous) none = true
request_stands (some previous) (some c) = previous.checkpoint == some c

abbrev with_checkpoint : RotationRequest → Option Checkpoint → RotationRequest
with_checkpoint r none = r
with_checkpoint r (some c) = record r { checkpoint = some c }

abbrev bare_checkpoint : Snapshot → Checkpoint
bare_checkpoint s = record { snapshot = s; worker_id = none; lease_id = none; rotation_id = none }

abbrev file_named : Option String → Bool
file_named none = false
file_named (some path) = nonempty path

abbrev or_request : Option RotationRequest → RotationRequest → RotationRequest
or_request none fresh = fresh
or_request (some previous) fresh = previous

abbrev fresh_request : Task → Lease → ℕ → String → String → ℕ → RotationRequest
fresh_request task lease expected_revision request_id actor now = record {
  id = request_id;
  actor = actor;
  worker_id = lease.worker_id;
  lease_id = lease.lease_id;
  requested_state = requested_state_of task.state;
  based_on_revision = expected_revision;
  ts = iso now;
  checkpoint = none;
}

module _ (out : Outside) (files : Files) where
  -- `snapshot_file(checkpoint_file) if checkpoint_file else None`
  unfoldable pub attached : Option String → Act (Option Checkpoint)
  unfolding snapshot_file
  attached none = pure none
  attached (some path) =
      if nonempty path
      then snapshot_file files path >>= (λ s. pure (some (bare_checkpoint s)))
      else pure none

  -- The commit of a request.
  unfoldable pub record_request : Task → RotationRequest → String → Act Task
  unfolding commit
  record_request task request actor =
      commit out
        (record task { metadata = record task.metadata { rotation_request = value request } })
        (some task) "ROTATION_REQUESTED" actor (rotation request) none none none

  -- `request_rotation` from the test of the lease on
  unfoldable pub request_of : Task → ℕ → String → String → Option String → Act Task
  unfolding attached record_request contains
  request_of task expected_revision request_id actor checkpoint_file = do
    guard (not (contains (TaskState.running ∷ TaskState.waiting ∷ []) task.state))
        rotation_needs_lease
    lease ← or_needs_lease task.lease
    let previous = get task.metadata.rotation_request
    guard (other_request request_id previous) rotation_already_requested
    guard (file_named checkpoint_file && task.state != TaskState.waiting) checkpoint_needs_waiting
    checkpoint ← attached checkpoint_file
    ts ← gets out.now
    let fresh = fresh_request task lease expected_revision request_id actor ts
    if request_stands previous checkpoint
        then pure task
        else record_request task (with_checkpoint (or_request previous fresh) checkpoint) actor

  -- `request_rotation`
  unfoldable pub request_rotation : String → ℕ → String → String → Option String → Act Task
  unfolding get_task request_of
  request_rotation task_id expected_revision request_id actor checkpoint_file = do
    guard (not (is_short_identifier (codes request_id) && not_blank actor)) invalid_rotation
    task ← get_task task_id
    guard (get_or task.metadata.revision 0 != expected_revision) revision_changed
    done ← surrendered_as request_id task.metadata.clean_surrender
    if done then pure task else request_of task expected_revision request_id actor checkpoint_file
