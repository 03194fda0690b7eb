-- ===== src/Runtime/Handoff/Redo.antt =====
-- An interruption of `_publish` is made good by the next `finish_deployment_event`.
use agent_farm_runtime.Prelude.{
  ◌≡◌, refl, ◌∙◌, ap, ◌⊎◌, inl, inr, String, false, List, [], ◌∷◌, arith,
}
use agent_farm_runtime.Runtime.Models.{Event}
use agent_farm_runtime.Runtime.Result.{Result, ok}
use agent_farm_runtime.Runtime.World.{
  Handoff, Manifest, Disk, Effect, put_deployment, World, EventLog, step, write, after,
}
use agent_farm_runtime.Runtime.World.Through.{Through}
use agent_farm_runtime.Runtime.Deployment.{Identity}
use agent_farm_runtime.Runtime.Handoff.{
  without_event, event_of, finish_deployment_event, publish_control,
}
use agent_farm_runtime.Runtime.Handoff.Audit.{
  marked, published, CanPublish, publish_control-CanPublish, finish_deployment_event-some,
  finish_deployment_event-none, after-audit_effect,
}
use agent_farm_runtime.Runtime.Store.Recovery.{audited, audit_effect, audited_twice}

write-audited :
    (d : Disk) (event : Event)
    → write d (audit_effect d.log event) ≡ record d { log = audited d.log event }
unfolding write audited
write-audited d event = ground arith

audited-damaged : (log : EventLog) (event : Event) → (audited log event).damaged ≡ log.damaged
unfolding audited
audited-damaged log event = ground arith

module _ (current : Identity) (m : Manifest) (control : Handoff) (kind actor : String)
    (w : World) where
  abbrev files : Disk
  files = published current m control kind actor w

  -- The next start or handoff at `v` ends with the files of the publication.
  pub record Redone (v : World) : Type 0 where
    pub effects : List Effect
    pub returns :
        finish_deployment_event current false v
        ≡ (ok (without_event (marked current m control kind actor w)), effects)
    pub leaves : (after v effects).disk ≡ files

  marked-Redone :
      (v : World)
      → v.disk
        ≡ record w.disk { log = v.disk.log; deployment = marked current m control kind actor w }
      → v.disk.log.damaged ≡ false
      → audited v.disk.log (event_of control kind actor)
        ≡ audited w.disk.log (event_of control kind actor)
      → CanPublish current m control kind actor w
      → Redone v
  marked-Redone v d i a c =
      let e = event_of control kind actor in
      let dep = ap {B = Manifest} (λ (x : Disk). x.deployment) d in
      let redo =
        finish_deployment_event-some current false v e (rw dep refl) (rw dep c.named)
          (rw dep c.here) i in
      record {
        effects =
            audit_effect v.disk.log e
            ∷ put_deployment (without_event (marked current m control kind actor w))
            ∷ [];
        returns =
            redo
            ∙ ap {B = Result Manifest × List Effect}
                (λ (n : Manifest). (
                  ok (without_event n),
                  audit_effect v.disk.log e ∷ put_deployment (without_event n) ∷ [],
                ))
                dep;
        leaves =
            after-audit_effect current false v e _
            ∙ rw a (
                ap {B = Disk}
                  (λ (x : Disk). record x {
                    log = audited w.disk.log e;
                    deployment = without_event (marked current m control kind actor w);
                  })
                  d);
      }

  published-Redone :
      (v : World) → v.disk ≡ files → CanPublish current m control kind actor w → Redone v
  unfolding after
  published-Redone v d c =
      let dep = ap {B = Manifest} (λ (x : Disk). x.deployment) d in
      let rest = finish_deployment_event-none current false v (rw dep refl) (rw dep c.named) in
      record {
        effects = [];
        returns = rest ∙ ap {B = Result Manifest × List Effect} (λ (n : Manifest). (ok n, [])) dep;
        leaves = d;
      }

  -- A publication of a handoff that would return, stopped after whatever effect, has changed
  -- nothing, or leaves files from which `finish_deployment_event` of this build on this host returns
  -- and leaves what the publication would have left: the record without its event, and the event
  -- in the log.
  pub publish_control-Redone :
      (es : List Effect)
      → publish_control current m control kind actor w ≡ (ok tt, es)
      → Through (λ v. (v.disk ≡ w.disk) ⊎ Redone v) w es
  unfolding step write
  publish_control-Redone es h =
      let (c, e) = publish_control-CanPublish current m control kind actor w es h in
      let event = event_of control kind actor in
      let noted =
        write-audited (record w.disk { deployment = marked current m control kind actor w })
          event in
      rw e (
        inl refl,
        (
          inr (marked-Redone _ refl c.intact refl c),
          (
            inr (
                marked-Redone _ (rw noted refl) (rw (noted, audited-damaged) c.intact)
                  (rw noted (audited_twice w.disk.log event)) c),
            inr (published-Redone _ (rw noted refl) c),
          ),
        ),
      )
