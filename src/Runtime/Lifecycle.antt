-- ===== src/Runtime/Lifecycle.antt =====
-- src/agent_farm_runtime/lifecycle.py: `stop_drain`, which lets a farm end by itself, and
-- `clear_stop_control`, which a daemon that starts again does first.
pub mod Laws
pub mod Stop
pub mod Clear
mod Tests
use agent_farm_runtime.Prelude.{
  is_there, ℕ, String, Option, none, some, Bool, false, not, ◌||◌, ◌==◌, ◌!=◌, string_eq, nat_eq,
  cat, not_blank, contains, if◌then◌else◌,
}
use agent_farm_runtime.Runtime.Metadata.{iso}
use agent_farm_runtime.Runtime.Models.{Event, handed}
use agent_farm_runtime.Runtime.Result.{
  nameless_stop, no_deployment, stop_elsewhere, stop_protocol, handoff_unfinished_stop,
  stop_id_used,
}
use agent_farm_runtime.Runtime.World.{
  draining, Handoff, Manifest, append, put_deployment, World, Act, pure, gets, effect, guard, ◌>>=◌,
  ◌>>◌,
}
use agent_farm_runtime.Runtime.Deployment.{
  Identity, require_no_pending_recovery, deployment, names, versions,
}
use agent_farm_runtime.Runtime.Store.{Outside, log_ids, recover_locked}
use agent_farm_runtime.Runtime.Handoff.{finish_deployment_event, publish_control, unclaimed}
use agent_farm_runtime.Runtime.Handoff.Release.{is_stop}

-- `bool(manifest)`
abbrev is_recorded : Manifest → Bool
is_recorded m =
    is_there m.execution_epoch
    || (is_there m.recovery_id
        || (is_there m.host
            || (is_there m.source_sha256
                || (is_there m.protocol_version
                    || (is_there m.pending_event || is_there m.handoff)))))

-- `_current_manifest`
unfoldable pub current_manifest : Identity → Act Manifest
unfolding finish_deployment_event
current_manifest current = do
  m ← finish_deployment_event current false
  guard (not (is_recorded m)) no_deployment
  guard (not (names m.host current.host)) stop_elsewhere
  guard (not (versions m.protocol_version current.protocol_version)) stop_protocol
  pure m

-- `stamp` writes a time as `strftime` does.
module _ (out : Outside) (stamp : ℕ → String) (actor : String) where
  abbrev pub stop_control : Manifest → World → Handoff
  stop_control m w = record {
    id = cat "stop-" (stamp (out.now w));
    phase = draining;
    kind = some "stop";
    target_host = none;
    from_host = m.host;
    actor = actor;
    ts = iso (out.now w);
    archive_sha256 = none;
    claimed_by = none;
  }

  unfoldable pub stop_with : Manifest → Option Handoff → Act Handoff
  unfolding log_ids recover_locked publish_control contains
  stop_with m (some prior) = do guard (not (is_stop prior)) handoff_unfinished_stop; pure prior
  stop_with m none = do
    control ← gets (stop_control m)
    ids ← log_ids
    guard (contains ids (cat control.id "-FARM_STOP_DRAIN")) stop_id_used
    recover_locked
    publish_control out.identity m control "FARM_STOP_DRAIN" actor
    pure control

  -- `stop_drain`
  unfoldable pub stop_drain : Act Handoff
  unfolding require_no_pending_recovery current_manifest stop_with
  stop_drain = do
    guard (not (not_blank actor)) nameless_stop
    require_no_pending_recovery
    m ← current_manifest out.identity
    stop_with m (unclaimed m.handoff)

-- `if event.id not in log.ids(): log.append(event)`
unfoldable pub log_once : Event → Act (Unit {0})
unfolding log_ids contains
log_once event = do ids ← log_ids; if contains ids event.id then pure tt else effect (append event)

module _ (out : Outside) (actor : String) where
  abbrev pub cleared_event : Handoff → ℕ → Event
  cleared_event control now = record {
    id = cat control.id "-FARM_STOP_CLEARED";
    task_id = "*";
    type = "FARM_STOP_CLEARED";
    actor = actor;
    payload = handed control;
    revision = none;
    ts = iso now;
  }

  unfoldable pub clear_with : Manifest → Option Handoff → Act (Option Handoff)
  unfolding log_once
  clear_with m none = pure none
  clear_with m (some control) =
      if is_stop control
      then (do
        now ← gets out.now
        log_once (cleared_event control now)
        effect (put_deployment (record m { handoff = none }))
        pure (some control))
      else pure none

  -- `clear_stop_control`
  unfoldable pub clear_stop_control : Act (Option Handoff)
  unfolding deployment clear_with
  clear_stop_control = do m ← deployment; clear_with m m.handoff
