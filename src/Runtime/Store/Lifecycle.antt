-- ===== src/Runtime/Store/Lifecycle.antt =====
-- Commits and the state diagram: no write of the store leaves it.
use agent_farm_runtime.Prelude.{
  ◌≡◌, ◌≢◌, sym, ◌∙◌, ◌⊎◌, String, Option, some, Bool, true, inl, inr, List, arith,
}
use agent_farm_runtime.Runtime.Metadata.{Timestamp, acceptance_set}
use agent_farm_runtime.Runtime.Models.{TaskState, Task, Payload}
use agent_farm_runtime.Runtime.Equality.{TaskState-discrete, state_eq}
use agent_farm_runtime.Runtime.Result.{ok}
use agent_farm_runtime.Runtime.Transitions.{transition_task, assign}
use agent_farm_runtime.Runtime.Transitions.Graph.{◌⟶◌, IsAllowed, transition_task_iff, source_open}
use agent_farm_runtime.Runtime.World.{Effect, World}
use agent_farm_runtime.Runtime.Store.{Outside, check_transition, lease_id_of, commit_locked}
use agent_farm_runtime.Runtime.Store.Commit.{commit_locked-Committed}

abbrev pub evidence : Task → Bool
evidence task = acceptance_set task.metadata.acceptance_receipt

transition_of_check :
    (task before : Task)
    → check_transition task (some before) ≡ ok tt
    → task.state ≢ before.state
    → (t : Task) × (transition_task before task.state
          (lease_id_of before)
          (evidence task)
          task.metadata
          (assign task.lease)
        ≡ ok t)
unfolding check_transition
transition_of_check task before h ne = ground arith

-- What a commit over an existing task shows of the two states.
pub record IsLegal (before t : Task) : Type 0 where
  pub edge : (t.state ≡ before.state) ⊎ (before.state ⟶ t.state)
  pub accepted : before.state ≢ TaskState.done → t.state ≡ TaskState.done → evidence t ≡ true
  pub terminal :
      (before.state ≡ TaskState.done) ⊎ (before.state ≡ TaskState.failed) → t.state ≡ before.state

module _ (task before : Task) (h : check_transition task (some before) ≡ ok tt) where
  IsAllowed-moved :
      task.state ≢ before.state
      → IsAllowed before task.state (lease_id_of before) (evidence task) task.metadata
  IsAllowed-moved ne =
      let (t, e) = transition_of_check task before h ne in
      ((transition_task_iff before task.state (lease_id_of before) (evidence task) task.metadata
          (assign task.lease) t).0
        e).0

  check_transition-IsLegal : IsLegal before task
  check_transition-IsLegal = elim (TaskState-discrete task.state before.state) [
    | yes e ↦ record { edge = inl e; accepted = λ ne d. absurd (ne (sym e ∙ d)); terminal = λ _. e }
    | no ne ↦
        let a = IsAllowed-moved ne in
        record {
          edge = inr a.edge;
          accepted = λ _ d. (a.evidence d).0;
          terminal = λ s.
              absurd (let (nd, nf) = source_open a.edge in elim s [ inl d ↦ nd d | inr f ↦ nf f ]);
        }
  ]

-- A commit over an existing task keeps its state or follows an edge of the diagram; it moves to
-- DONE only with acceptance evidence in the committed metadata, and a DONE or FAILED task keeps
-- its state.
pub commit_locked-IsLegal :
    (out : Outside) (task before : Task) (event_type actor : String) (payload : Payload)
    (ts : Option Timestamp) (w : World) {t : Task} (es : List Effect)
    → commit_locked out task (some before) event_type actor payload ts w ≡ (ok t, es)
    → IsLegal before t
commit_locked-IsLegal out task before event_type actor payload ts w es h =
    let c = commit_locked-Committed out task (some before) event_type actor payload ts w es h in
    let l = check_transition-IsLegal task before c.can.allowed in
    rw c.returned (record { edge = l.edge; accepted = l.accepted; terminal = l.terminal })
