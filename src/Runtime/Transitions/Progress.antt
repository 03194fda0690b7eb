-- ===== src/Runtime/Transitions/Progress.antt =====
-- What calls of `transition_task` can make of a task (src/agent_farm_runtime/transitions.py).
use agent_farm_runtime.Prelude.{◌≡◌, ◌≢◌, refl, String, Option, none, some, Bool, true}
use agent_farm_runtime.Runtime.Metadata.{Metadata, no_metadata, value, note, update}
use agent_farm_runtime.Runtime.Models.{TaskState, Lease, Task}
use agent_farm_runtime.Runtime.Result.{ok}
use agent_farm_runtime.Runtime.Transitions.{transition_task, NewLease, unchanged}
use agent_farm_runtime.Runtime.Transitions.Graph.{
  ◌⟶◌, start, submit, resume, accept, restart, fail, moved, allowed_transition,
}

-- A sequence of calls of `transition_task` that all succeed, each on what the last one returned
pub data Reaches : Task → Task → Type 0 where
  here : {t : Task} → Reaches t t
  onward :
      {t u v : Task} (target : TaskState) (lease_id : Option String) (recorded : Bool)
      (patch : Metadata) (new_lease : NewLease)
      → transition_task t target lease_id recorded patch new_lease ≡ ok u
      → Reaches u v
      → Reaches t v

abbrev lease_id_of : Option Lease → Option String
lease_id_of none = none
lease_id_of (some l) = some l.lease_id

abbrev evidence : Metadata
evidence = record no_metadata { acceptance_receipt = value (note "verified") }

-- The call that moves a task along an edge, with its own lease id and a receipt
abbrev next : Task → TaskState → Task
next t target = moved t target evidence unchanged

step_along :
    (t : Task) (target : TaskState)
    → t.state ⟶ target
    → transition_task t target (lease_id_of t.lease) true evidence unchanged ≡ ok (next t target)
unfolding update
step_along t target e =
    allowed_transition t target (lease_id_of t.lease) true evidence unchanged
      (record { edge = e; fenced = λ l h s. rw h refl; evidence = λ d. (refl, refl) })

along :
    {v : Task} (t : Task) (target : TaskState)
    → t.state ⟶ target
    → Reaches (next t target) v
    → Reaches t v
along t target e r =
    onward target (lease_id_of t.lease) true evidence unchanged (step_along t target e) r

-- A task that some calls lead to, with this state and the id and the lease of the first
pub record Ends (t : Task) (state : TaskState) : Type 0 where
  pub last : Task
  pub calls : Reaches t last
  pub ended : last.state ≡ state
  pub id : last.id ≡ t.id
  pub lease : last.lease ≡ t.lease

then_ends :
    {s : TaskState} (t : Task) (target : TaskState)
    → t.state ⟶ target
    → Ends (next t target) s
    → Ends t s
then_ends t target e h = record {
  last = h.last;
  calls = along t target e h.calls;
  ended = h.ended;
  id = h.id;
  lease = h.lease;
}

last_step : (t : Task) (s : TaskState) → t.state ⟶ s → Ends t s
last_step t s e = record {
  last = next t s;
  calls = along t s e here;
  ended = refl;
  id = refl;
  lease = refl;
}

from_submitted : (t : Task) → t.state ≡ TaskState.submitted → Ends t TaskState.done
from_submitted t e = last_step t TaskState.done (rw e accept)

from_running : (t : Task) → t.state ≡ TaskState.running → Ends t TaskState.done
from_running t e =
    then_ends t TaskState.submitted (rw e submit) (from_submitted (next t TaskState.submitted) refl)

by_running : (t : Task) → t.state ⟶ TaskState.running → Ends t TaskState.done
by_running t e = then_ends t TaskState.running e (from_running (next t TaskState.running) refl)

to_done :
    (t : Task) (s : TaskState)
    → t.state ≡ s
    → s ≢ TaskState.done
    → s ≢ TaskState.failed
    → Ends t TaskState.done
to_done t TaskState.done e d f = absurd (d refl)
to_done t TaskState.failed e d f = absurd (f refl)
to_done t TaskState.submitted e d f = from_submitted t e
to_done t TaskState.running e d f = from_running t e
to_done t TaskState.ready e d f = by_running t (rw e start)
to_done t TaskState.waiting e d f = by_running t (rw e resume)
to_done t TaskState.blocked e d f = by_running t (rw e restart)

-- No task gets stuck: from a task that is neither DONE nor FAILED, whatever its lease and metadata
-- are, calls of `transition_task` that all succeed lead to a DONE task with its id and its lease,
-- and others to a FAILED one.
pub transition_task-Ends :
    (t : Task)
    → t.state ≢ TaskState.done
    → t.state ≢ TaskState.failed
    → Ends t TaskState.done × Ends t TaskState.failed
transition_task-Ends t d f = (to_done t t.state refl d f, last_step t TaskState.failed (fail d f))
