-- ===== src/Runtime/Transitions.antt =====
-- src/agent_farm_runtime/transitions.py: the legal transitions of a task and the lease operations.
pub mod Graph
pub mod Progress
use agent_farm_runtime.Prelude.{
  String, Option, none, some, Bool, not, ◌&&◌, List, [], ◌∷◌, contains, ◌==◌, ◌!=◌, string_eq,
  if◌then◌else◌, nonempty,
}
use agent_farm_runtime.Runtime.Metadata.{Metadata, acceptance_set, update}
use agent_farm_runtime.Runtime.Models.{TaskState, Lease, Task}
use agent_farm_runtime.Runtime.Equality.{state_eq, option_string_eq}
use agent_farm_runtime.Runtime.Result.{
  Result, ok, err, raise_if, illegal_transition, stale_lease, acceptance_not_recorded,
  acceptance_receipt_missing, already_leased, no_reason, no_lease, not_the_holder, ◌>>=◌, ◌>>◌,
}

-- LEGAL_TRANSITIONS
unfoldable pub legal_transitions : TaskState → List TaskState
legal_transitions TaskState.ready = TaskState.running ∷ TaskState.failed ∷ []
legal_transitions TaskState.running =
    TaskState.waiting ∷ TaskState.submitted ∷ TaskState.blocked ∷ TaskState.failed ∷ []
legal_transitions TaskState.waiting = TaskState.running ∷ TaskState.blocked ∷ TaskState.failed ∷ []
legal_transitions TaskState.submitted = TaskState.running ∷ TaskState.done ∷ TaskState.failed ∷ []
legal_transitions TaskState.blocked = TaskState.ready ∷ TaskState.running ∷ TaskState.failed ∷ []
legal_transitions TaskState.done = []
legal_transitions TaskState.failed = []

-- `execution_scoped and task.lease is not None`, and then the test of the lease ids
unfoldable pub check_lease : Task → Option String → Result (Unit {0})
check_lease task lease_id =
    if contains (TaskState.running ∷ TaskState.waiting ∷ []) task.state
    then elim task.lease [
      | none ↦ ok tt
      | some l ↦ raise_if (lease_id != some l.lease_id) stale_lease
    ]
    else ok tt

unfoldable pub validate_transition : Task → TaskState → Option String → Bool → Result (Unit {0})
unfolding legal_transitions check_lease contains
validate_transition task target lease_id acceptance_recorded = do
  raise_if (not (contains (legal_transitions task.state) target))
      (illegal_transition task.state target)
  check_lease task lease_id
  raise_if (target == TaskState.done && not acceptance_recorded) acceptance_not_recorded

-- The argument `new_lease` and its default, `...`.
pub data NewLease : Type 0 where
  unchanged : NewLease
  assign : Option Lease → NewLease

abbrev pub chosen_lease : NewLease → Option Lease → Option Lease
chosen_lease unchanged old = old
chosen_lease (assign l) old = l

unfoldable pub transition_task :
    Task → TaskState → Option String → Bool → Metadata → NewLease → Result Task
unfolding validate_transition
transition_task task target lease_id acceptance_recorded metadata_patch new_lease = do
  validate_transition task target lease_id acceptance_recorded
  let metadata = update task.metadata metadata_patch
  raise_if (target == TaskState.done && not (acceptance_set metadata.acceptance_receipt))
      acceptance_receipt_missing
  ok (record task {
    state = target;
    metadata = metadata;
    lease = chosen_lease new_lease task.lease;
  })

unfoldable pub acquire_lease : Task → Lease → Metadata → Result Task
acquire_lease task new_lease metadata_patch = elim task.lease [
  | some l ↦ err already_leased
  | none ↦
      ok (record task { lease = some new_lease; metadata = update task.metadata metadata_patch })
]

unfoldable pub rotate_lease : Task → String → String → Result Task
rotate_lease task dead_worker_id reason = do
  raise_if (not (nonempty reason)) no_reason
  elim task.lease [
    | none ↦ err no_lease
    | some l ↦ do
      raise_if (l.worker_id != dead_worker_id) not_the_holder
      ok (record task { lease = none })
  ]
