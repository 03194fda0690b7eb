-- ===== src/Runtime/Lifecycle/Tests.antt =====
-- A farm that runs on node1 and is stopped.
use agent_farm_runtime.Prelude.{
  ◌≡◌, refl, ◌∙◌, ℕ, String, none, some, false, List, [], arith, contains, not_blank, is_space,
  is_short_identifier, string_dec,
}
use agent_farm_runtime.Runtime.Result.{
  ok, nameless_stop, no_deployment, stop_elsewhere, stop_protocol, stop_id_used,
}
use agent_farm_runtime.Runtime.World.{Handoff, Manifest, Effect, World, after}
use agent_farm_runtime.Runtime.World.Rules.{act_rules, bind-ok, guard-bind, gets-bind, pure_lem}
use agent_farm_runtime.Runtime.Deployment.{require_no_pending_recovery}
use agent_farm_runtime.Runtime.Store.{recover_locked, log_ids}
use agent_farm_runtime.Runtime.Store.Recovery.{recover_locked_lem}
use agent_farm_runtime.Runtime.Tests.{out, farm}
use agent_farm_runtime.Runtime.Handoff.{finish_deployment_event}
use agent_farm_runtime.Runtime.Handoff.Audit.{
  finish_deployment_event-none, publish_effects, CanPublish, CanPublish-publish_control,
}
use agent_farm_runtime.Runtime.Lifecycle.{current_manifest, stop_control, stop_with, stop_drain}
use agent_farm_runtime.Runtime.Lifecycle.Laws.{Stopping}
use agent_farm_runtime.Runtime.Lifecycle.Clear.{
  Reruns, Standing, effects_at, clear-Standing, clear_stop_control-Reruns,
}
use agent_farm_runtime.Runtime.World.Through.{Through}
use agent_farm_runtime.Runtime.Lifecycle.Stop.{stop_kind, Withheld, stop_drain-Withheld}

abbrev running : Manifest
running = record farm.deployment {
  host = some "node1";
  source_sha256 = some "5a";
  protocol_version = some 4;
}

abbrev running_world : World
running_world = record { disk = record farm { deployment = running }; history = [] }

abbrev stamp : ℕ → String
stamp n = "20260101T000000Z"

abbrev control : Handoff
control = stop_control out stamp "ann" running running_world

abbrev stop_effects : List Effect
stop_effects = publish_effects out.identity running control "FARM_STOP_DRAIN" "ann" running_world

undisturbed : require_no_pending_recovery running_world ≡ (ok tt, [])
unfolding require_no_pending_recovery
undisturbed = simp act_rules

finished : finish_deployment_event out.identity false running_world ≡ (ok running, [])
finished = finish_deployment_event-none out.identity false running_world refl refl

current : current_manifest out.identity running_world ≡ (ok running, [])
unfolding current_manifest after string_dec
current =
    bind-ok _ running_world (finish_deployment_event out.identity false) finished
    ∙ guard-bind _ running_world false no_deployment
    ∙ guard-bind _ running_world false stop_elsewhere
    ∙ guard-bind _ running_world _ stop_protocol
    ∙ ground (arith, pure_lem running running_world)

no_ids : log_ids running_world ≡ (ok [], [])
unfolding log_ids
no_ids = simp act_rules

recovered : recover_locked running_world ≡ (ok tt, [])
recovered = rw recover_locked_lem

can_publish : CanPublish out.identity running control "FARM_STOP_DRAIN" "ann" running_world
unfolding is_short_identifier
can_publish = record { intact = refl; named = refl; here = ground arith }

stops_with : stop_with out stamp "ann" running none running_world ≡ (ok control, stop_effects)
unfolding stop_with after contains
stops_with =
    gets-bind _ running_world _
    ∙ bind-ok _ running_world log_ids no_ids
    ∙ guard-bind _ running_world false stop_id_used
    ∙ bind-ok _ running_world recover_locked recovered
    ∙ bind-ok _ running_world _ (
        CanPublish-publish_control out.identity running control "FARM_STOP_DRAIN" "ann"
          running_world can_publish)
    ∙ rw pure_lem refl

stops : stop_drain out stamp "ann" running_world ≡ (ok control, stop_effects)
unfolding stop_drain after not_blank is_space
stops =
    guard-bind _ running_world false nameless_stop
    ∙ bind-ok _ running_world require_no_pending_recovery undisturbed
    ∙ bind-ok _ running_world (current_manifest out.identity) current
    ∙ stops_with

stop_drain-Withheld_example :
    Stopping (after running_world stop_effects) control
    × Withheld (after running_world stop_effects)
stop_drain-Withheld_example =
    stop_drain-Withheld out stamp "ann" running_world control stop_effects stops

-- The daemon of the stopped farm is started again.
abbrev stopped_world : World
stopped_world = record {
  disk = record farm { deployment = record running { handoff = some control } };
  history = [];
}

stands : Standing out "ann" control stopped_world
unfolding is_short_identifier
stands = record {
  standing = refl;
  valid = ground arith;
  stop = stop_kind control refl;
  intact = refl;
}

clear_stop_control-Reruns_example :
    Through
      (Reruns out "ann" stopped_world control)
      stopped_world
      (effects_at out "ann" control stopped_world)
clear_stop_control-Reruns_example =
    clear_stop_control-Reruns out "ann" control stopped_world
      (effects_at out "ann" control stopped_world)
      (clear-Standing out "ann" control stopped_world stands)
