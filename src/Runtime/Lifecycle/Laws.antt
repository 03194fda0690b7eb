-- ===== src/Runtime/Lifecycle/Laws.antt =====
-- What a stop withholds.
use agent_farm_runtime.Prelude.{
  ◌≡◌, ◌≢◌, ◌∙◌, ap, ◌||◌, ◌&&◌, not, String, Option, none, some, true, false, List, [], arith,
  if◌then◌else◌,
}
use agent_farm_runtime.Runtime.Result.{ok, err, invalid_handoff}
use agent_farm_runtime.Runtime.World.{
  draining, released, claimed, Handoff, Manifest, Effect, World, after,
}
use agent_farm_runtime.Runtime.World.Rules.{act_rules, bound, guard-ok, gets-bind}
use agent_farm_runtime.Runtime.Deployment.{
  Identity, phase_is, require_no_pending_recovery, require_task_writer, deployment, valid_handoff,
  handoff_writer,
}
use agent_farm_runtime.Runtime.Executor.{Executor}
use agent_farm_runtime.Runtime.Handoff.{finish_deployment_event}
use agent_farm_runtime.Runtime.Handoff.Audit.{finish_deployment_event-same}
use agent_farm_runtime.Runtime.Handoff.Release.{Plane, is_stop, release_control, release_farm}
use agent_farm_runtime.Runtime.World.Silent.{bound_silent, guard-silent}
use agent_farm_runtime.Runtime.Handoff.Claim.{claim_control, claim_farm}

-- A stop that is under way stands in the deployment record.
pub record Stopping (w : World) (control : Handoff) : Type 0 where
  pub standing : w.disk.deployment.handoff ≡ some control
  pub stop : is_stop control ≡ true
  pub unclaimed : phase_is claimed (some control) ≡ false
  pub audited : w.disk.deployment.pending_event ≡ none

pub recovery-silent : (w : World) → (require_no_pending_recovery w).1 ≡ []
unfolding require_no_pending_recovery
recovery-silent w = rw gets-bind (guard-silent w.disk.pending_recovery _ w)

deployment_lem :
    (w : World)
    → deployment w ≡ (
        if not (valid_handoff w.disk.deployment.handoff)
        then (err invalid_handoff, [])
        else (ok w.disk.deployment, []))
unfolding deployment
deployment_lem w = simp act_rules

deployment-silent : (w : World) → (deployment w).1 ≡ []
deployment-silent w = rw deployment_lem (ground arith)

deployment-same : (w : World) (m : Manifest) → deployment w ≡ (ok m, []) → m ≡ w.disk.deployment
deployment-same w m h = let k = rw deployment_lem at h in ground arith

stops_not : (c d : Handoff) → some c ≡ some d → is_stop c ≡ false → is_stop d ≢ true
stops_not c d e n s = let same : c ≡ d = cc in absurd (ground (arith, ap is_stop same))

-- A handoff that is not claimed is drained or released.
withheld :
    (h : Handoff)
    → phase_is claimed (some h) ≡ false
    → (phase_is released (some h) || (true && phase_is draining (some h))) ≡ true
unfolding phase_is
withheld h e = ground arith

module _ (w : World) (control : Handoff) (stop : is_stop control ≡ true) where
  release_control-not_stop :
      (plane : Plane) (executor : Executor) (id actor : String) (m : Manifest) (o : Option Handoff)
      (sealed : Handoff) (es : List Effect)
      → o ≡ some control
      → release_control plane executor id actor m o w ≢ (ok sealed, es)
  unfolding release_control
  release_control-not_stop plane executor id actor m none sealed es e h = absurd (cc)
  release_control-not_stop plane executor id actor m (some c) sealed es e h =
      stops_not c control e (guard-ok w _ _ _ h).0 stop

  claim_control-not_stop :
      (plane : Plane) (id actor : String) (m : Manifest) (o : Option Handoff) (taken : Handoff)
      (es : List Effect)
      → o ≡ some control
      → claim_control plane id actor m o w ≢ (ok taken, es)
  unfolding claim_control
  claim_control-not_stop plane id actor m none taken es e h = absurd (cc)
  claim_control-not_stop plane id actor m (some c) taken es e h =
      stops_not c control e (guard-ok w _ _ _ h).0 stop

module _ (w : World) (control : Handoff) (s : Stopping w control) where
  pub unreleased :
      (plane : Plane) (executor : Executor) (id actor : String) (sealed : Handoff)
      (es : List Effect)
      → release_farm plane executor id actor w ≢ (ok sealed, es)
  unfolding release_farm
  unreleased plane executor id actor sealed es h =
      let (named, g) = guard-ok w _ _ _ h in
      let (u, q, k) = bound_silent _ w require_no_pending_recovery (recovery-silent w) g in
      let f = bound _ w (finish_deployment_event plane.out.identity false) k in
      let (same, quiet) =
        finish_deployment_event-same plane.out.identity false w f.first f.before s.audited
          f.began in
      let (here, r) = guard-ok (after w f.before) _ _ _ f.ended in
      release_control-not_stop (after w f.before) control s.stop plane executor id actor f.first
        f.first.handoff sealed f.later (ap (λ (n : Manifest). n.handoff) same ∙ s.standing) r

  pub unclaimable :
      (plane : Plane) (id actor : String) (taken : Handoff) (es : List Effect)
      → claim_farm plane id actor w ≢ (ok taken, es)
  unfolding claim_farm
  unclaimable plane id actor taken es h =
      let (named, g) = guard-ok w _ _ _ h in
      let (u, q, k) = bound_silent _ w require_no_pending_recovery (recovery-silent w) g in
      let (m, d, c) = bound_silent _ w deployment (deployment-silent w) k in
      claim_control-not_stop w control s.stop plane id actor m m.handoff taken es
        (ap (λ (n : Manifest). n.handoff) (deployment-same w m d) ∙ s.standing) c

  pub undispatched :
      (current : Identity) (epoch upgrade : Option String) (m : Manifest) (es : List Effect)
      → require_task_writer current true epoch upgrade w ≢ (ok m, es)
  unfolding require_task_writer
  undispatched current epoch upgrade m es h =
      let (u, q, k) = bound_silent _ w require_no_pending_recovery (recovery-silent w) h in
      let (n, d, c) = bound_silent _ w deployment (deployment-silent w) k in
      let (a, e) = guard-ok w _ _ _ c in
      let f = bound _ w (handoff_writer current n upgrade n.handoff) e in
      let (b, g) = guard-ok (after w f.before) _ _ _ f.ended in
      let (p, r) = guard-ok (after w f.before) _ _ _ g in
      let stands = ap (λ (x : Manifest). x.handoff) (deployment-same w n d) ∙ s.standing in
      let p' = rw stands at p in absurd (ground (arith, withheld control s.unclaimed))
