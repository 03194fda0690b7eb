-- ===== src/Runtime/Handoff/Tests.antt =====
-- A farm with one submitted task, which is handed from node1 to node2.
use agent_farm_runtime.Prelude.{
  ◌≡◌, ◌⊎◌, refl, ◌∙◌, any, not_blank, is_space, string_dec, is_short_identifier, none, some, true,
  false, List, [], ◌∷◌, arith,
}
use agent_farm_runtime.Runtime.Metadata.{value, iso}
use agent_farm_runtime.Runtime.Models.{Task}
use agent_farm_runtime.Runtime.Equality.{state_eq}
use agent_farm_runtime.Runtime.Result.{
  ok, workers_uncertain, not_surrendered, being_stopped, no_matching_drain, nameless_handoff,
  release_elsewhere,
}
use agent_farm_runtime.Runtime.World.{
  Handoff, draining, Manifest, Archive, Effect, seal, World, step, write, after, pure, ask, guard,
  go_on, ◌>>=◌, ◌>>◌,
}
use agent_farm_runtime.Runtime.World.Rules.{act_rules, bind-ok, guard-bind, gets-bind}
use agent_farm_runtime.Runtime.Deployment.{execution_epoch, require_no_pending_recovery, phase_is}
use agent_farm_runtime.Runtime.Store.{recover_locked}
use agent_farm_runtime.Runtime.Executor.{Executor, poll}
use agent_farm_runtime.Runtime.Tests.{out, farm, submitted_task}
use agent_farm_runtime.Runtime.Handoff.Audit.{
  CanPublish-publish_control, finish_deployment_event-none, publish_effects, CanPublish,
}
use agent_farm_runtime.Runtime.Handoff.Release.{
  Plane, is_stop, release_control, is_unsettled, issued_workers, insert_workers, is_any, seal_with,
  uncertain_of, seal_farm, release_farm, sealed_as, proof_of,
}
use agent_farm_runtime.Runtime.Handoff.{is_at, finish_deployment_event}
use agent_farm_runtime.Runtime.Handoff.Release.Sealed.{seal_with-returns, seal_farm-Sealed}
use agent_farm_runtime.Runtime.Handoff.Release.Returned.{Released, release_farm-Released}
use agent_farm_runtime.Runtime.World.Through.{Through}
use agent_farm_runtime.Runtime.Handoff.Redo.{Redone, publish_control-Redone}
use agent_farm_runtime.Runtime.Handoff.Takeover.{TakenOver, Sealed-TakenOver}
use agent_farm_runtime.Runtime.Store.Recovery.{recover_locked_lem}

abbrev old : Plane
old = record { out = out; root = "/farm"; digest = λ a. "d1" }

abbrev executor : Executor
executor = record {
  launch_answer = λ w t l. ok none;
  resume_answer = λ w t id l. ok tt;
  poll_answer =
      λ w id. ok (record { worker_id = id; alive = some false; receipt = none; detail = none });
  stop_answer = λ w id. ok tt;
  validate_task = none;
}

abbrev drain : Handoff
drain = record {
  id = "h1";
  phase = draining;
  kind = none;
  target_host = some "node2";
  from_host = some "node1";
  actor = "ann";
  ts = iso 3;
  archive_sha256 = none;
  claimed_by = none;
}

abbrev deployed : Manifest
deployed = record farm.deployment {
  host = some "node1";
  source_sha256 = some "5a";
  protocol_version = some 4;
  handoff = some drain;
}

abbrev task : Task
task = record submitted_task {
  metadata = record submitted_task.metadata {
    dispatches = value (record { epoch = "initial"; workers = "w-1" ∷ [] });
  };
}

abbrev drained_world : World
drained_world = record {
  disk = record farm { tasks = ("T-1", task) ∷ []; deployment = deployed };
  history = [];
}

abbrev seal_proof : Archive
seal_proof = proof_of old executor "h1" "ann" deployed ("w-1" ∷ []) drained_world

settled : any is_unsettled (task ∷ []) ≡ false
unfolding any is_unsettled
settled = ground arith

abbrev sealed : Handoff
sealed = sealed_as old executor "h1" "ann" drain seal_proof

abbrev seal_effects : List Effect
seal_effects =
    seal "h1" seal_proof
    ∷ publish_effects out.identity deployed sealed "FARM_RELEASED" "ann"
        (step drained_world (seal "h1" seal_proof))

-- The farm when its archive is written
abbrev sealing : World
sealing = step drained_world (seal "h1" seal_proof)

can_publish :
    CanPublish out.identity deployed sealed "FARM_RELEASED" "ann"
      (step drained_world (seal "h1" seal_proof))
unfolding step write is_short_identifier
can_publish = record { intact = refl; named = refl; here = ground arith }

recovered : recover_locked drained_world ≡ (ok tt, [])
recovered = rw recover_locked_lem

issued : issued_workers (execution_epoch deployed) (task ∷ []) drained_world ≡ (ok ("w-1" ∷ []), [])
unfolding issued_workers execution_epoch insert_workers ◌>>=◌ pure after go_on string_dec
issued = refl

uncertain : uncertain_of executor ("w-1" ∷ []) drained_world ≡ (ok [], [])
unfolding uncertain_of ◌>>=◌ pure after go_on poll ask
uncertain = refl

after_ask :
    (do
      us ← uncertain_of executor ("w-1" ∷ [])
      guard (is_any us) workers_uncertain
      seal_with old executor "h1" "ann" deployed drain ("w-1" ∷ []))
      drained_world
    ≡ (ok sealed, seal_effects)
unfolding after
after_ask =
    bind-ok _ drained_world (uncertain_of executor ("w-1" ∷ [])) uncertain
    ∙ guard-bind _ drained_world false workers_uncertain
    ∙ seal_with-returns old executor "h1" "ann" deployed drain ("w-1" ∷ []) drained_world
        can_publish

seals : seal_farm old executor "h1" "ann" deployed drain drained_world ≡ (ok sealed, seal_effects)
unfolding seal_farm after
seals =
    bind-ok _ drained_world recover_locked recovered
    ∙ gets-bind _ drained_world _
    ∙ guard-bind _ drained_world _ not_surrendered
    ∙ rw settled (
        bind-ok _ drained_world (issued_workers (execution_epoch deployed) (task ∷ [])) issued
        ∙ after_ask)

no_stop : is_stop drain ≡ false
no_stop = ground arith

here : is_at out.identity deployed.host deployed ≡ true
here = ground arith

undisturbed : require_no_pending_recovery drained_world ≡ (ok tt, [])
unfolding require_no_pending_recovery
undisturbed = simp act_rules

finished : finish_deployment_event out.identity false drained_world ≡ (ok deployed, [])
unfolding is_short_identifier
finished = finish_deployment_event-none out.identity false drained_world refl refl

controls :
    release_control old executor "h1" "ann" deployed (some drain) drained_world
    ≡ (ok sealed, seal_effects)
unfolding release_control phase_is string_dec
controls =
    guard-bind _ drained_world _ being_stopped
    ∙ rw no_stop (guard-bind _ drained_world false no_matching_drain ∙ seals)

releases : release_farm old executor "h1" "ann" drained_world ≡ (ok sealed, seal_effects)
unfolding release_farm after not_blank is_space
releases =
    guard-bind _ drained_world false nameless_handoff
    ∙ bind-ok _ drained_world require_no_pending_recovery undisturbed
    ∙ bind-ok _ drained_world (finish_deployment_event out.identity false) finished
    ∙ guard-bind _ drained_world _ release_elsewhere
    ∙ rw here controls

release_farm-Released_example :
    Released old executor "h1" "ann" (after drained_world seal_effects) sealed
release_farm-Released_example =
    release_farm-Released old executor "h1" "ann" drained_world sealed seal_effects releases

quiet : (after drained_world seal_effects).disk.pending_recovery ≡ false
unfolding after step write
quiet = ground arith

bob : not_blank "bob" ≡ true
unfolding not_blank is_space
bob = refl

-- The host that the handoff names
abbrev new : Plane
new = record old { out = record out { identity = record out.identity { host = "node2" } } }

there : is_at new.out.identity drain.target_host deployed ≡ true
there = ground arith

Sealed-TakenOver_example :
    TakenOver old new executor "h1" "ann" "bob" deployed drain sealed
      (after drained_world seal_effects)
      (seal_farm-Sealed old executor "h1" "ann" deployed drain drained_world sealed seal_effects
        seals)
      refl
      no_stop
      quiet
      bob
      refl
      (λ a. refl)
      there
Sealed-TakenOver_example =
    Sealed-TakenOver old new executor "h1" "ann" "bob" deployed drain sealed
      (after drained_world seal_effects)
      (seal_farm-Sealed old executor "h1" "ann" deployed drain drained_world sealed seal_effects
        seals)
      refl no_stop quiet bob refl (λ a. refl) there

publish_control-Redone_example :
    Through
      (λ v.
        (v.disk ≡ sealing.disk)
        ⊎ Redone out.identity deployed sealed "FARM_RELEASED" "ann" sealing v)
      sealing
      (publish_effects out.identity deployed sealed "FARM_RELEASED" "ann" sealing)
publish_control-Redone_example =
    publish_control-Redone out.identity deployed sealed "FARM_RELEASED" "ann" sealing
      (publish_effects out.identity deployed sealed "FARM_RELEASED" "ann" sealing)
      (CanPublish-publish_control out.identity deployed sealed "FARM_RELEASED" "ann" sealing
        can_publish)
