-- ===== src/Runtime/Master/Decisions.antt =====
-- What a decision of src/agent_farm_runtime/master.py does to a task.
use mathlib.Core.Path.{subst}
use agent_farm_runtime.Prelude.{
  is_yes_iff, ◌≡◌, ◌≢◌, refl, sym, ℕ, String, Option, none, true, false, ◌&&◌, List, [], ◌∷◌, ◌++◌,
  arith, ◌==◌, string_eq, nat_eq, string_dec, contains, inl, inr,
}
use agent_farm_runtime.Runtime.Equality.{state_eq}
use agent_farm_runtime.Runtime.Metadata.{value, get_or, text_set, MasterDecision, decision, update}
use agent_farm_runtime.Runtime.Models.{TaskState, Task}
use agent_farm_runtime.Runtime.Result.{ok, unknown_decision}
use agent_farm_runtime.Runtime.Transitions.{assign, unchanged}
use agent_farm_runtime.Runtime.Transitions.Graph.{transition_task_iff}
use agent_farm_runtime.Runtime.World.{World, Effect}
use agent_farm_runtime.Runtime.World.Rules.{bound, guard-ok, lift-ok, if-ok, raise-ok, pure-ok}
use agent_farm_runtime.Runtime.Files.{Files}
use agent_farm_runtime.Runtime.Store.{Outside, revised}
use agent_farm_runtime.Runtime.Master.{
  Ready, is_held, accept, amend, release_hold, rule, rework, decide, accept_patch, release_patch,
  with_decided, contract_of, or_accepted,
}

-- The change of a task from `b` to `t` by an action.
pub data Change (b t : Task) (action : String) (m : MasterDecision) : Type 0 where
  accepts :
      action ≡ "accept"
      → b.state ≡ TaskState.submitted
      → text_set b.metadata.rework_requested ≡ false
      → t.state ≡ TaskState.done
      → t.metadata.acceptance_receipt ≡ value (decision m)
      → Change b t action m
  amends :
      action ≡ "amend"
      → b.state ≢ TaskState.running
      → b.state ≢ TaskState.done
      → b.state ≢ TaskState.failed
      → t.state ≡ b.state
      → t.lease ≡ b.lease
      → Change b t action m
  releases :
      action ≡ "ruling"
      → is_held b ≡ true
      → b.lease ≡ none
      → t.state ≡ TaskState.ready
      → Change b t action m
  rules :
      action ≡ "ruling"
      → b.state ≡ TaskState.waiting
      → text_set b.metadata.resume_requested ≡ false
      → t.metadata.resume_requested ≡ value m.evidence.sha256
      → t.state ≡ b.state
      → t.lease ≡ b.lease
      → Change b t action m
  reworks :
      action ≡ "rework"
      → b.state ≡ TaskState.submitted
      → text_set b.metadata.rework_requested ≡ false
      → t.metadata.rework_requested ≡ value m.evidence.sha256
      → t.state ≡ b.state
      → t.lease ≡ b.lease
      → Change b t action m

-- The change, with the decision added to those of the task
abbrev pub IsRecorded : Task → Task → String → MasterDecision → Type 0
IsRecorded b t action m =
    Change b t action m
    × (t.metadata.master_decisions ≡ value (get_or b.metadata.master_decisions [] ++ m ∷ []))

pub revised-IsRecorded :
    (b t : Task) (action : String) (m : MasterDecision) (n : ℕ)
    → IsRecorded b t action m
    → IsRecorded b (revised t n) action m
revised-IsRecorded b t action m n (accepts a s r d e, k) = (accepts a s r d e, k)
revised-IsRecorded b t action m n (amends a x y z s l, k) = (amends a x y z s l, k)
revised-IsRecorded b t action m n (releases a h l s, k) = (releases a h l s, k)
revised-IsRecorded b t action m n (rules a s p q x y, k) = (rules a s p q x y, k)
revised-IsRecorded b t action m n (reworks a s p q x y, k) = (reworks a s p q x y, k)

module _ (out : Outside) (files : Files) (b : Task) (r : MasterDecision) (w : World) {made : Ready}
    {es : List Effect} where
  rework-IsRecorded :
      rework out files b r w ≡ (ok made, es) → IsRecorded b made.updated "rework" made.record_made
  unfolding rework update
  rework-IsRecorded h =
      let (s, h1) = guard-ok w _ _ _ h in
      let (q, h2) = guard-ok w _ _ _ h1 in
      rw (← pure-ok w h2) (reworks refl (ground arith) q refl refl refl, refl)

  rule-IsRecorded :
      rule out files b r w ≡ (ok made, es) → IsRecorded b made.updated "ruling" made.record_made
  unfolding rule update
  rule-IsRecorded h =
      let (s, h1) = guard-ok w _ _ _ h in
      let (q, h2) = guard-ok w _ _ _ h1 in
      rw (← pure-ok w h2) (rules refl (ground arith) q refl refl refl, refl)

  release_hold-IsRecorded :
      release_hold out files b r w ≡ (ok made, es)
      → is_held b ≡ true
      → IsRecorded b made.updated "ruling" made.record_made
  unfolding release_hold update
  release_hold-IsRecorded h held =
      let (s, h1) = guard-ok w _ _ _ h in
      let (t, moves, h2) = lift-ok w _ _ h1 in
      let m =
        (transition_task_iff b TaskState.ready none false (release_patch b r) unchanged t).0
          moves in
      rw (← pure-ok w h2) (releases refl held (ground arith) (rw m.1 refl), rw m.1 refl)

  accept-IsRecorded :
      (outcome : Option String)
      → accept out files b r outcome w ≡ (ok made, es)
      → IsRecorded b made.updated "accept" made.record_made
  unfolding accept update
  accept-IsRecorded outcome h =
      let (s, h1) = guard-ok w _ _ _ h in
      let (q, h2) = guard-ok w _ _ _ h1 in
      let (t, moves, h3) = lift-ok w _ _ h2 in
      let m =
        (transition_task_iff b TaskState.done none true
            (accept_patch b (with_decided r (contract_of out files b (or_accepted outcome)))
              (or_accepted outcome))
            (assign none) t).0
          moves in
      rw (← pure-ok w h3)
        (accepts refl (ground arith) (ground arith) (rw m.1 refl) (rw m.1 refl), rw m.1 refl)

  amend-IsRecorded :
      (file : Option String)
      → amend out files b r file w ≡ (ok made, es)
      → IsRecorded b made.updated "amend" made.record_made
  unfolding amend contains update
  amend-IsRecorded file h =
      let (s, h1) = guard-ok w _ _ _ h in
      let k = bound _ w _ h1 in
      rw (← pure-ok _ k.ended) (
        amends refl (λ e. absurd (ground arith)) (λ e. absurd (ground arith))
            (λ e. absurd (ground arith)) refl refl,
        refl,
      )

  pub decide-IsRecorded :
      (action : String) (outcome file : Option String)
      → decide out files b action r outcome file w ≡ (ok made, es)
      → IsRecorded b made.updated action made.record_made
  unfolding decide
  decide-IsRecorded action outcome file h = elim (if-ok w (action == "accept") _ _ h) [
    | inl (e, k) ↦
        at_action action "accept" ((is_yes_iff (string_dec action "accept")).0 e)
          (accept-IsRecorded outcome k)
    | inr (n1, h1) ↦ elim (if-ok w (action == "amend") _ _ h1) [
      | inl (e, k) ↦
          at_action action "amend" ((is_yes_iff (string_dec action "amend")).0 e)
            (amend-IsRecorded file k)
      | inr (n2, h2) ↦ elim (if-ok w (action == "ruling" && is_held b) _ _ h2) [
        | inl (e, k) ↦
            at_action action "ruling" ((is_yes_iff (string_dec action "ruling")).0 (ground arith))
              (release_hold-IsRecorded k (ground arith))
        | inr (n3, h3) ↦ elim (if-ok w (action == "ruling") _ _ h3) [
          | inl (e, k) ↦
              at_action action "ruling" ((is_yes_iff (string_dec action "ruling")).0 e)
                (rule-IsRecorded k)
          | inr (n4, h4) ↦ elim (if-ok w (action == "rework") _ _ h4) [
            | inl (e, k) ↦
                at_action action "rework" ((is_yes_iff (string_dec action "rework")).0 e)
                  (rework-IsRecorded k)
            | inr (n5, h5) ↦ absurd (raise-ok w unknown_decision h5)
          ]
        ]
      ]
    ]
  ]
    where
      at_action :
          (a c : String)
          → a ≡ c
          → IsRecorded b made.updated c made.record_made
          → IsRecorded b made.updated a made.record_made
      at_action a c e k = subst (λ x. IsRecorded b made.updated x made.record_made) (sym e) k
