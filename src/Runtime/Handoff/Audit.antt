-- ===== src/Runtime/Handoff/Audit.antt =====
-- The event of the deployment record, as `_publish` writes it: the record with its event, the event
-- in the log, and the record without it.
use agent_farm_runtime.Prelude.{
  ◌≡◌, refl, not, String, Bool, Option, none, some, true, false, List, [], ◌∷◌, arith, codes,
  is_short_identifier, if◌then◌else◌,
}
use agent_farm_runtime.Runtime.Models.{Event}
use agent_farm_runtime.Runtime.Result.{Result, ok, err, torn_log, invalid_handoff, audit_elsewhere}
use agent_farm_runtime.Runtime.World.{
  Handoff, Manifest, Disk, Effect, put_deployment, World, step, write, after,
}
use agent_farm_runtime.Runtime.World.Rules.{act_rules, pure_lem}
use agent_farm_runtime.Runtime.Deployment.{Identity, deployment, valid_handoff}
use agent_farm_runtime.Runtime.Handoff.{
  is_at, without_event, event_of, audit_host, audit, finish_event, publish_control,
  finish_deployment_event,
}
use agent_farm_runtime.Runtime.Store.Recovery.{audited, audit_effect}

module _ (current : Identity) (m : Manifest) (control : Handoff) (kind actor : String)
    (w : World) where
  abbrev event : Event
  event = event_of control kind actor

  abbrev pub marked : Manifest
  marked = record m { handoff = some control; pending_event = some event }

  abbrev pub publish_effects : List Effect
  publish_effects =
      put_deployment marked
      ∷ audit_effect w.disk.log event
      ∷ put_deployment (without_event marked)
      ∷ []

  abbrev pub published : Disk
  published = record w.disk { log = audited w.disk.log event; deployment = without_event marked }

  publish_control_lem : publish_control current m control kind actor w ≡ (
      if w.disk.log.damaged
      then (err torn_log, [])
      else if not (is_short_identifier (codes control.id))
      then (err invalid_handoff, put_deployment marked ∷ [])
      else if not (is_at current m.host m)
      then (err audit_elsewhere, put_deployment marked ∷ [])
      else (ok tt, publish_effects))
  unfolding publish_control finish_deployment_event step write
  publish_control_lem = simp act_rules (ground arith)

  pub after-publish_effects : (after w publish_effects).disk ≡ published
  unfolding after step write audited
  after-publish_effects = ground arith

  pub record CanPublish : Type 0 where
    pub intact : w.disk.log.damaged ≡ false
    pub named : is_short_identifier (codes control.id) ≡ true
    pub here : is_at current m.host m ≡ true

  pub publish_control-CanPublish :
      (es : List Effect)
      → publish_control current m control kind actor w ≡ (ok tt, es)
      → CanPublish × (es ≡ publish_effects)
  publish_control-CanPublish es h =
      let k = rw publish_control_lem at h in (ground arith, ground arith)

  pub CanPublish-publish_control :
      CanPublish → publish_control current m control kind actor w ≡ (ok tt, publish_effects)
  CanPublish-publish_control c = rw publish_control_lem (ground arith)

module _ (current : Identity) (claiming : Bool) (w : World) where
  abbrev Finishes : Manifest → Result Manifest × List Effect
  Finishes m = elim m.pending_event [
    | none ↦ (ok m, [])
    | some event ↦
        if not (is_at current (audit_host claiming m) m)
        then (err audit_elsewhere, [])
        else if w.disk.log.damaged
        then (err torn_log, [])
        else (
          ok (without_event m),
          audit_effect w.disk.log event ∷ put_deployment (without_event m) ∷ [],
        )
  ]

  finish_event_lem :
      (m : Manifest) (o : Option Event)
      → m.pending_event ≡ o
      → finish_event current claiming m o w ≡ Finishes m
  unfolding finish_event audit
  finish_event_lem m none e = rw e (pure_lem _ w)
  finish_event_lem m (some event) e = rw e (simp act_rules (ground arith))

  -- The deployment record has no event left.
  pub record Finished (m : Manifest) (es : List Effect) : Type 0 where
    pub recorded : (after w es).disk.deployment ≡ m
    pub audited : m.pending_event ≡ none
    pub rest : (after w es).disk ≡ record w.disk { log = (after w es).disk.log; deployment = m }

  Finishes-Finished :
      (n : Manifest) (m : Manifest) (es : List Effect)
      → w.disk.deployment ≡ n
      → Finishes n ≡ (ok m, es)
      → Finished m es
  unfolding after step write
  Finishes-Finished n m es e h = ground arith

  finish_deployment_event_lem : finish_deployment_event current claiming w ≡ (
      if not (valid_handoff w.disk.deployment.handoff)
      then (err invalid_handoff, [])
      else Finishes w.disk.deployment)
  unfolding finish_deployment_event deployment
  finish_deployment_event_lem =
      simp act_rules
        (rw (finish_event_lem w.disk.deployment w.disk.deployment.pending_event refl) refl)

  pub finish_deployment_event-Finished :
      (m : Manifest) (es : List Effect)
      → finish_deployment_event current claiming w ≡ (ok m, es)
      → Finished m es
  finish_deployment_event-Finished m es h =
      let k = rw finish_deployment_event_lem at h in
      Finishes-Finished w.disk.deployment m es refl (ground arith)

  -- There is no event to redo.
  pub finish_deployment_event-none :
      w.disk.deployment.pending_event ≡ none
      → valid_handoff w.disk.deployment.handoff ≡ true
      → finish_deployment_event current claiming w ≡ (ok w.disk.deployment, [])
  finish_deployment_event-none e v = rw finish_deployment_event_lem (ground arith)

  -- There is an event to redo.
  pub finish_deployment_event-some :
      (event : Event)
      → w.disk.deployment.pending_event ≡ some event
      → valid_handoff w.disk.deployment.handoff ≡ true
      → is_at current (audit_host claiming w.disk.deployment) w.disk.deployment ≡ true
      → w.disk.log.damaged ≡ false
      → finish_deployment_event current claiming w ≡ (
        ok (without_event w.disk.deployment),
        audit_effect w.disk.log event ∷ put_deployment (without_event w.disk.deployment) ∷ [],
      )
  finish_deployment_event-some event e v h i = rw finish_deployment_event_lem (ground arith)

  pub after-audit_effect :
      (event : Event) (m : Manifest)
      → (after w (audit_effect w.disk.log event ∷ put_deployment m ∷ [])).disk
        ≡ record w.disk { log = audited w.disk.log event; deployment = m }
  unfolding after step write audited
  after-audit_effect event m = ground arith

  -- Without an event, the record is read and nothing is written.
  pub finish_deployment_event-same :
      (m : Manifest) (es : List Effect)
      → w.disk.deployment.pending_event ≡ none
      → finish_deployment_event current claiming w ≡ (ok m, es)
      → (m ≡ w.disk.deployment) × (es ≡ [])
  finish_deployment_event-same m es e h =
      let k = rw finish_deployment_event_lem at h in (ground arith, ground arith)
