-- ===== src/Runtime/Lifecycle/Stop.antt =====
-- What `stop_drain` leaves.
use agent_farm_runtime.Prelude.{
  ◌≡◌, ◌≢◌, is_yes_iff, refl, sym, ◌∙◌, ap, String, Option, none, some, true, false, ℕ, List, [],
  arith,
}
use agent_farm_runtime.Runtime.Equality.{Option_String-discrete}
use agent_farm_runtime.Runtime.Result.{ok}
use agent_farm_runtime.Runtime.World.{claimed, Handoff, Manifest, Disk, Effect, World, after}
use agent_farm_runtime.Runtime.World.Through.{after-append}
use agent_farm_runtime.Runtime.World.Rules.{bound, bound_pure, guard-ok, gets-bind}
use agent_farm_runtime.Runtime.Deployment.{
  Identity, phase_is, require_no_pending_recovery, require_task_writer,
}
use agent_farm_runtime.Runtime.Executor.{Executor}
use agent_farm_runtime.Runtime.Store.{Outside, log_ids, recover_locked}
use agent_farm_runtime.Runtime.Handoff.{finish_deployment_event, unclaimed}
use agent_farm_runtime.Runtime.Handoff.Audit.{
  finish_deployment_event-Finished, publish_control-CanPublish, after-publish_effects, published,
}
use agent_farm_runtime.Runtime.Handoff.Release.{Plane, is_stop, release_farm}
use agent_farm_runtime.Runtime.World.Silent.{bound_silent, pure-both}
use agent_farm_runtime.Runtime.Handoff.Claim.{claim_farm}
use agent_farm_runtime.Runtime.Lifecycle.{current_manifest, stop_control, stop_with, stop_drain}
use agent_farm_runtime.Runtime.Lifecycle.Laws.{
  Stopping, unreleased, unclaimable, undispatched, recovery-silent,
}

-- The deployment record, as it was read, has no event left.
record Current (w : World) (m : Manifest) : Type 0 where
  pub recorded : w.disk.deployment ≡ m
  pub audited : m.pending_event ≡ none

current_manifest-Current :
    (current : Identity) (w : World) (m : Manifest) (es : List Effect)
    → current_manifest current w ≡ (ok m, es)
    → Current (after w es) m
unfolding current_manifest after
current_manifest-Current current w m es h =
    let f = bound _ w (finish_deployment_event current false) h in
    let d = finish_deployment_event-Finished current false w f.first f.before f.began in
    let (r, g) = guard-ok (after w f.before) _ _ _ f.ended in
    let (n, k) = guard-ok (after w f.before) _ _ _ g in
    let (v, p) = guard-ok (after w f.before) _ _ _ k in
    let (same, all) = pure-both f.first m (after w f.before) f.before f.later es p f.all in
    record {
      recorded = rw all (d.recorded ∙ same);
      audited = ap (λ (n : Manifest). n.pending_event) (sym same) ∙ d.audited;
    }

unclaimed-some :
    (o : Option Handoff) (p : Handoff)
    → unclaimed o ≡ some p
    → (o ≡ some p) × (phase_is claimed (some p) ≡ false)
unfolding phase_is
unclaimed-some none p h = absurd (cc)
unclaimed-some (some q) p h = ground arith

Stopping-same : (w : World) (a b : Handoff) → b ≡ a → Stopping w a → Stopping w b
Stopping-same w a b e s = rw e s

pub stop_kind : (h : Handoff) → h.kind ≡ some "stop" → is_stop h ≡ true
stop_kind h e = (is_yes_iff (Option_String-discrete h.kind (some "stop"))).1 e

module _ (out : Outside) (stamp : ℕ → String) (actor : String) (m : Manifest) (w : World)
    (control : Handoff) where
  stop_with-some :
      (prior : Handoff) (es : List Effect)
      → Current w m
      → unclaimed m.handoff ≡ some prior
      → stop_with out stamp actor m (some prior) w ≡ (ok control, es)
      → Stopping (after w es) control
  unfolding stop_with after
  stop_with-some prior es c u h =
      let (stop, p) = guard-ok w _ _ _ h in
      let (same, all) = pure-both prior control w [] es es p refl in
      let (standing, open_still) = unclaimed-some m.handoff prior u in
      rw (all, ← same)
        (record {
          standing = ap (λ (n : Manifest). n.handoff) c.recorded ∙ standing;
          stop = ground (arith, stop);
          unclaimed = open_still;
          audited = ap (λ (n : Manifest). n.pending_event) c.recorded ∙ c.audited;
        })

  abbrev fresh : Handoff
  fresh = stop_control out stamp actor m w

  published-Stopping :
      (v u : World)
      → v.disk ≡ published out.identity m fresh "FARM_STOP_DRAIN" actor u
      → Stopping v fresh
  unfolding phase_is
  published-Stopping v u d =
      let dep = ap {B = Manifest} (λ (x : Disk). x.deployment) d in
      record {
        standing = ap (λ (n : Manifest). n.handoff) dep;
        stop = stop_kind fresh refl;
        unclaimed = refl;
        audited = ap (λ (n : Manifest). n.pending_event) dep;
      }

  stop_with-none :
      (es : List Effect)
      → stop_with out stamp actor m none w ≡ (ok control, es)
      → Stopping (after w es) control
  unfolding stop_with after
  stop_with-none es h =
      let k = bound _ w log_ids (sym (gets-bind _ w _) ∙ h) in
      let (unused, g) = guard-ok (after w k.before) _ _ _ k.ended in
      let r = bound _ (after w k.before) recover_locked g in
      let u = after (after w k.before) r.before in
      let (q, same) = bound_pure fresh u _ r.ended in
      let (c, e) =
        publish_control-CanPublish out.identity m fresh "FARM_STOP_DRAIN" actor u r.later q in
      rw (k.all, after-append, r.all, after-append, e)
        (Stopping-same _ fresh control same (
          published-Stopping _ u
            (after-publish_effects out.identity m fresh "FARM_STOP_DRAIN" actor u)))

module _ (out : Outside) (stamp : ℕ → String) (actor : String) (m : Manifest) (w : World)
    (control : Handoff) (es : List Effect) (c : Current w m) where
  stop_with-Stopping :
      (o : Option Handoff)
      → unclaimed m.handoff ≡ o
      → stop_with out stamp actor m o w ≡ (ok control, es)
      → Stopping (after w es) control
  stop_with-Stopping none u h = stop_with-none out stamp actor m w control es h
  stop_with-Stopping (some prior) u h = stop_with-some out stamp actor m w control prior es c u h

-- Nothing is dispatched under the lock of the farm, and it is neither released nor claimed.
pub record Withheld (w : World) : Type 0 where
  pub dispatch :
      (current : Identity) (epoch upgrade : Option String) (m : Manifest) (es : List Effect)
      → require_task_writer current true epoch upgrade w ≢ (ok m, es)
  pub release :
      (plane : Plane) (executor : Executor) (id actor : String) (sealed : Handoff)
      (es : List Effect)
      → release_farm plane executor id actor w ≢ (ok sealed, es)
  pub claim :
      (plane : Plane) (id actor : String) (taken : Handoff) (es : List Effect)
      → claim_farm plane id actor w ≢ (ok taken, es)

Stopping-Withheld : (w : World) (control : Handoff) → Stopping w control → Withheld w
Stopping-Withheld w control s = record {
  dispatch = undispatched w control s;
  release = unreleased w control s;
  claim = unclaimable w control s;
}

-- A stop that returns leaves its control in the deployment record, marked as a stop and without an
-- event that is left to redo: then no dispatch passes the guard of a writer, whoever asks, and no
-- release and no claim of the farm returns.
pub stop_drain-Withheld :
    (out : Outside) (stamp : ℕ → String) (actor : String) (w : World) (control : Handoff)
    (es : List Effect)
    → stop_drain out stamp actor w ≡ (ok control, es)
    → Stopping (after w es) control × Withheld (after w es)
unfolding stop_drain
stop_drain-Withheld out stamp actor w control es h =
    let (named, g) = guard-ok w _ _ _ h in
    let (u, q, k) = bound_silent _ w require_no_pending_recovery (recovery-silent w) g in
    let f = bound _ w (current_manifest out.identity) k in
    let c = current_manifest-Current out.identity w f.first f.before f.began in
    let s : Stopping (after w es) control =
      rw (f.all, after-append)
        (stop_with-Stopping out stamp actor f.first (after w f.before) control f.later c
          (unclaimed f.first.handoff) refl f.ended) in
    (s, Stopping-Withheld (after w es) control s)
