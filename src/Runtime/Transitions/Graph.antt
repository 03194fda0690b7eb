-- ===== src/Runtime/Transitions/Graph.antt =====
-- The graph of the task states, and what a successful transition shows.
use agent_farm_runtime.Prelude.{
  ◌≡◌, ◌≢◌, String, Option, some, Bool, true, inl, inr, Option-cases, ◌⊎◌, arith, contains, ◌↔◌,
}
use agent_farm_runtime.Runtime.Metadata.{Metadata, acceptance_set, update}
use agent_farm_runtime.Runtime.Models.{TaskState, Lease, Task}
use agent_farm_runtime.Runtime.Equality.{state_eq, option_string_eq}
use agent_farm_runtime.Runtime.Result.{ok}
use agent_farm_runtime.Runtime.Transitions.{
  legal_transitions, check_lease, transition_task, NewLease, chosen_lease,
}

infix 40 ◌⟶◌
-- The state diagram of docs/ARCHITECTURE.md.
pub data ◌⟶◌ : TaskState → TaskState → Type 0 where
  start : TaskState.ready ⟶ TaskState.running
  yield_to : TaskState.running ⟶ TaskState.waiting
  submit : TaskState.running ⟶ TaskState.submitted
  block : TaskState.running ⟶ TaskState.blocked
  resume : TaskState.waiting ⟶ TaskState.running
  block_waiting : TaskState.waiting ⟶ TaskState.blocked
  rework : TaskState.submitted ⟶ TaskState.running
  accept : TaskState.submitted ⟶ TaskState.done
  release : TaskState.blocked ⟶ TaskState.ready
  restart : TaskState.blocked ⟶ TaskState.running
  fail : {s : TaskState} → s ≢ TaskState.done → s ≢ TaskState.failed → s ⟶ TaskState.failed

ruleset edges =
    (start, yield_to, submit, block, resume, block_waiting, rework, accept, release, restart)

legal-⟶ : (s t : TaskState) → contains (legal_transitions s) t ≡ true → s ⟶ t
unfolding legal_transitions contains
legal-⟶ s t h = grind (arith, edges, fail)

⟶-legal : {s t : TaskState} → s ⟶ t → contains (legal_transitions s) t ≡ true
unfolding legal_transitions contains
⟶-legal start = ground arith
⟶-legal (fail {s = s} d f) = ground arith
⟶-legal _ = ground arith

-- What a transition asks for, apart from the code that tests it.
pub record IsAllowed (task : Task) (target : TaskState) (lease_id : Option String) (recorded : Bool)
    (patch : Metadata) : Type 0 where
  pub edge : task.state ⟶ target
  pub fenced :
      (l : Lease)
      → task.lease ≡ some l
      → (task.state ≡ TaskState.running) ⊎ (task.state ≡ TaskState.waiting)
      → lease_id ≡ some l.lease_id
  pub evidence :
      target ≡ TaskState.done
      → (recorded ≡ true) × (acceptance_set (update task.metadata patch).acceptance_receipt ≡ true)

abbrev pub moved : Task → TaskState → Metadata → NewLease → Task
moved task target patch new_lease = record task {
  state = target;
  metadata = update task.metadata patch;
  lease = chosen_lease new_lease task.lease;
}

check_lease-ok :
    (task : Task) (lease_id : Option String)
    → ((l : Lease)
        → task.lease ≡ some l
        → (task.state ≡ TaskState.running) ⊎ (task.state ≡ TaskState.waiting)
        → lease_id ≡ some l.lease_id)
    → check_lease task lease_id ≡ ok tt
unfolding check_lease contains
check_lease-ok task lease_id h = elim (Option-cases task.lease) [
  | inl e ↦ rw (e, check_lease) (ground arith)
  | inr (l, e) ↦ rw (e, check_lease) (ground (arith, h l e))
]

check_lease-fenced :
    (task : Task) (lease_id : Option String) (l : Lease)
    → check_lease task lease_id ≡ ok tt
    → task.lease ≡ some l
    → (task.state ≡ TaskState.running) ⊎ (task.state ≡ TaskState.waiting)
    → lease_id ≡ some l.lease_id
unfolding check_lease contains
check_lease-fenced task lease_id l h e s = ground arith

pub allowed_transition :
    (task : Task) (target : TaskState) (lease_id : Option String) (recorded : Bool)
    (patch : Metadata) (new_lease : NewLease)
    → IsAllowed task target lease_id recorded patch
    → transition_task task target lease_id recorded patch new_lease
      ≡ ok (moved task target patch new_lease)
unfolding transition_task
allowed_transition task target lease_id recorded patch new_lease h =
    ground (arith, ⟶-legal h.edge, check_lease-ok task lease_id h.fenced)

transition-IsAllowed :
    (task : Task) (target : TaskState) (lease_id : Option String) (recorded : Bool)
    (patch : Metadata) (new_lease : NewLease) {t : Task}
    → transition_task task target lease_id recorded patch new_lease ≡ ok t
    → IsAllowed task target lease_id recorded patch × (t ≡ moved task target patch new_lease)
unfolding transition_task
transition-IsAllowed task target lease_id recorded patch new_lease h = (
  record {
    edge = legal-⟶ task.state target (ground arith);
    fenced = λ l. check_lease-fenced task lease_id l (ground arith);
    evidence = ground arith;
  },
  ground arith,
)

-- `transition_task` returns a task exactly when the diagram has the edge, the lease id is that of
-- the lease of a running or waiting task, and a move to DONE has recorded, nonempty evidence; the
-- task that it returns has the target, the patched metadata and the chosen lease.
pub transition_task_iff :
    (task : Task) (target : TaskState) (lease_id : Option String) (recorded : Bool)
    (patch : Metadata) (new_lease : NewLease) (t : Task)
    → (transition_task task target lease_id recorded patch new_lease ≡ ok t)
      ↔ (IsAllowed task target lease_id recorded patch × (t ≡ moved task target patch new_lease))
transition_task_iff task target lease_id recorded patch new_lease t = (
  transition-IsAllowed task target lease_id recorded patch new_lease,
  λ (h, e). rw e (allowed_transition task target lease_id recorded patch new_lease h),
)

pub source_open : {s t : TaskState} → s ⟶ t → (s ≢ TaskState.done) × (s ≢ TaskState.failed)
source_open (fail d f) = (d, f)
source_open start = ground arith
source_open _ = ground arith
