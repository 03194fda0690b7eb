-- ===== src/Runtime/Handoff/Release/Returned.antt =====
-- Every way in which a release returns.
use agent_farm_runtime.Prelude.{
  ◌≡◌, refl, inl, inr, ◌||◌, ◌!=◌, String, Option, none, some, Bool, true, false, List, [], arith,
  string_eq,
}
use agent_farm_runtime.Runtime.Result.{ok, no_matching_drain}
use agent_farm_runtime.Runtime.World.{Handoff, released, Manifest, Effect, World, after, pure}
use agent_farm_runtime.Runtime.World.Through.{after-append}
use agent_farm_runtime.Runtime.World.Rules.{bound, guard-ok, if-ok, raise-ok}
use agent_farm_runtime.Runtime.Deployment.{phase_is, require_no_pending_recovery}
use agent_farm_runtime.Runtime.Executor.{Executor}
use agent_farm_runtime.Runtime.Handoff.{finish_deployment_event}
use agent_farm_runtime.Runtime.Handoff.Audit.{finish_deployment_event-Finished}
use agent_farm_runtime.Runtime.Handoff.Release.{
  Plane, is_stop, seal_farm, release_control, release_farm,
}
use agent_farm_runtime.Runtime.Handoff.Release.Sealed.{Sealed, seal_farm-Sealed}

module _ (plane : Plane) (executor : Executor) (request_id actor : String) where
  -- The farm had been released before, or is sealed now, from the drain with this id.
  pub data Released (w : World) (sealed : Handoff) : Type 0 where
    stood :
        w.disk.deployment.handoff ≡ some sealed
        → w.disk.deployment.pending_event ≡ none
        → phase_is released (some sealed) ≡ true
        → sealed.id ≡ request_id
        → Released w sealed
    sealed_now :
        (m : Manifest) (control : Handoff)
        → m.handoff ≡ some control
        → control.id ≡ request_id
        → phase_is released (some control) ≡ false
        → is_stop control ≡ false
        → Sealed plane executor request_id actor m control w sealed
        → Released w sealed

  module _ (m : Manifest) (w : World) (sealed : Handoff) (es : List Effect)
      (recorded : w.disk.deployment ≡ m) (audited : m.pending_event ≡ none) where
    same_id :
        (control : Handoff) (b : Bool)
        → (control.id != request_id || b) ≡ false
        → control.id ≡ request_id
    same_id control b h = ground arith

    stands :
        (control : Handoff)
        → m.handoff ≡ some control
        → control.id ≡ request_id
        → phase_is released (some control) ≡ true
        → pure control w ≡ (ok sealed, es)
        → Released (after w es) sealed
    unfolding pure after
    stands control e i p h =
        let same : control ≡ sealed = cc in
        let silent : [] ≡ es = cc in
        rw (← silent, ← same) (stood (rw recorded e) (rw recorded audited) p i)

    release_control-Released :
        (o : Option Handoff)
        → m.handoff ≡ o
        → release_control plane executor request_id actor m o w ≡ (ok sealed, es)
        → Released (after w es) sealed
    unfolding release_control
    release_control-Released none e h = absurd (raise-ok w no_matching_drain h)
    release_control-Released (some control) e h =
        let (running, g) = guard-ok w _ _ _ h in
        let (matches, k) = guard-ok w _ _ _ g in
        let i = same_id control _ matches in
        elim (if-ok w (phase_is released (some control)) (pure control)
          (seal_farm plane executor request_id actor m control) k) [
            | inl (p, q) ↦ stands control e i p q
            | inr (p, q) ↦
                sealed_now m control e i p running
                  (seal_farm-Sealed plane executor request_id actor m control w sealed es q)
          ]

  -- A release that returns leaves, without an event that is left to redo, either the release of
  -- this id that was recorded before, or the seal of the drain of this id, which is no stop: then
  -- no task holds a lease or runs, one that waits has a surrender that names its worker and lease,
  -- with a checkpoint and what the task waits for, every worker that some task was dispatched to in
  -- the epoch was polled with the answer that it is not alive, the archive holds the tasks as they are, the
  -- record has its digest, and the log has the event of the release.
  pub release_farm-Released :
      (w : World) (sealed : Handoff) (es : List Effect)
      → release_farm plane executor request_id actor w ≡ (ok sealed, es)
      → Released (after w es) sealed
  unfolding release_farm
  release_farm-Released w sealed es h =
      let (named, g) = guard-ok w _ _ _ h in
      let k = bound _ w require_no_pending_recovery g in
      let f =
        bound _ (after w k.before) (finish_deployment_event plane.out.identity false) k.ended in
      let (here, q) = guard-ok (after (after w k.before) f.before) _ _ _ f.ended in
      let d =
        finish_deployment_event-Finished plane.out.identity false (after w k.before) f.first
          f.before f.began in
      rw (k.all, after-append, f.all, after-append)
        (release_control-Released f.first (after (after w k.before) f.before) sealed f.later
          d.recorded d.audited f.first.handoff refl q)
