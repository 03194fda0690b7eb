-- ===== src/Runtime/Handoff.antt =====
-- src/agent_farm_runtime/turnover.py: the handoff of a farm to another host, `drain_farm`,
-- `release_farm` and `claim_farm`, and the event of the deployment record, which is redone.
pub mod Audit
pub mod Release
pub mod Claim
pub mod Takeover
pub mod Redo
mod Tests
use agent_farm_runtime.Prelude.{
  String, Option, none, some, Bool, false, not, ◌&&◌, ◌||◌, ◌==◌, ◌!=◌, string_eq, nat_eq, codes,
  cat, is_short_identifier, not_blank, contains, if◌then◌else◌,
}
use agent_farm_runtime.Runtime.Equality.{state_eq, task_eq, option_string_eq}
use agent_farm_runtime.Runtime.Metadata.{iso}
use agent_farm_runtime.Runtime.Models.{Event, handed}
use agent_farm_runtime.Runtime.Result.{
  audit_elsewhere, invalid_handoff_request, drain_elsewhere, no_destination, handoff_pending,
  handoff_id_used,
}
use agent_farm_runtime.Runtime.World.{
  draining, claimed, Handoff, Manifest, append, sync_log, put_deployment, World, Act, pure, gets,
  effect, guard, ◌>>=◌, ◌>>◌,
}
use agent_farm_runtime.Runtime.Deployment.{
  Identity, require_no_pending_recovery, deployment, names, versions,
}
use agent_farm_runtime.Runtime.Store.{Outside, log_ids, recover_locked}

-- The manifest names this build, and a host is this one.
abbrev pub is_build : Identity → Manifest → Bool
is_build current m =
    names m.source_sha256 current.source_sha256
    && versions m.protocol_version current.protocol_version

abbrev pub is_at : Identity → Option String → Manifest → Bool
is_at current host m = names host current.host && is_build current m

abbrev target_of : Option Handoff → Option String
target_of none = none
target_of (some h) = h.target_host

abbrev pub audit_host : Bool → Manifest → Option String
audit_host claiming m = if claiming then target_of m.handoff else m.host

abbrev pub without_event : Manifest → Manifest
without_event m = record m { pending_event = none }

-- The event is in the log once, however often this is done.
unfoldable pub audit : Event → Act (Unit {0})
unfolding log_ids contains
audit event = do ids ← log_ids; effect (if contains ids event.id then sync_log else append event)

abbrev pub event_of : Handoff → String → String → Event
event_of control kind actor = record {
  id = cat control.id (cat "-" kind);
  task_id = "*";
  type = kind;
  actor = actor;
  payload = handed control;
  revision = none;
  ts = control.ts;
}

module _ (current : Identity) where
  unfoldable pub finish_event : Bool → Manifest → Option Event → Act Manifest
  unfolding audit
  finish_event claiming m none = pure m
  finish_event claiming m (some event) = do
    guard (not (is_at current (audit_host claiming m) m)) audit_elsewhere
    audit event
    effect (put_deployment (without_event m))
    pure (without_event m)

  -- `finish_deployment_event`
  unfoldable pub finish_deployment_event : Bool → Act Manifest
  unfolding deployment finish_event
  finish_deployment_event claiming = do m ← deployment; finish_event claiming m m.pending_event

  -- `_publish`
  unfoldable pub publish_control : Manifest → Handoff → String → String → Act (Unit {0})
  unfolding log_ids finish_deployment_event
  publish_control m control kind actor = do
    log_ids
    effect (
        put_deployment
          (record m { handoff = some control; pending_event = some (event_of control kind actor) }))
    finish_deployment_event false
    pure tt

-- `prior and prior["phase"] != "claimed"`
abbrev pub unclaimed : Option Handoff → Option Handoff
unclaimed none = none
unclaimed (some h) = elim h.phase [ claimed ↦ none | _ ↦ some h ]

module _ (out : Outside) (request_id target_host actor : String) where
  abbrev drained : World → Handoff
  drained w = record {
    id = request_id;
    phase = draining;
    kind = none;
    target_host = some target_host;
    from_host = some out.identity.host;
    actor = actor;
    ts = iso (out.now w);
    archive_sha256 = none;
    claimed_by = none;
  }

  unfoldable pub drain_again : Handoff → Act Handoff
  drain_again prior = do
    guard (prior.id != request_id || not (names prior.target_host target_host)) handoff_pending
    pure prior

  unfoldable pub drain_from : Manifest → Option Handoff → Act Handoff
  unfolding drain_again log_ids recover_locked publish_control contains
  drain_from m (some prior) = drain_again prior
  drain_from m none = do
    ids ← log_ids
    guard (contains ids (cat request_id "-FARM_DRAINED")) handoff_id_used
    recover_locked
    control ← gets drained
    publish_control out.identity m control "FARM_DRAINED" actor
    pure control

  -- `drain_farm`
  unfoldable pub drain_farm : Act Handoff
  unfolding require_no_pending_recovery finish_deployment_event drain_from
  drain_farm = do
    guard (not (is_short_identifier (codes request_id) && not_blank actor)) invalid_handoff_request
    require_no_pending_recovery
    m ← finish_deployment_event out.identity false
    guard (not (is_at out.identity m.host m)) drain_elsewhere
    guard (not (not_blank target_host) || target_host == out.identity.host) no_destination
    drain_from m (unclaimed m.handoff)
