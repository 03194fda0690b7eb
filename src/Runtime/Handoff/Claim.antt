-- ===== src/Runtime/Handoff/Claim.antt =====
-- src/agent_farm_runtime/turnover.py: `claim_farm`, which takes a sealed farm over to another host.
pub mod Claims
use agent_farm_runtime.Prelude.{
  String, Option, none, some, Bool, true, false, not, ◌&&◌, ◌||◌, List, [], ◌∷◌, ◌==◌, ◌!=◌,
  string_eq, not_blank, lookup, if◌then◌else◌,
}
use agent_farm_runtime.Runtime.Equality.{task_eq, option_string_eq}
use agent_farm_runtime.Runtime.Models.{Task}
use agent_farm_runtime.Runtime.Result.{
  nameless_handoff, farm_stopped, not_released, claim_mismatch, handoff_changed, os_error,
}
use agent_farm_runtime.Runtime.World.{
  draining, claimed, Handoff, Manifest, Archive, World, Act, pure, raise, gets, guard, ◌>>=◌, ◌>>◌,
}
use agent_farm_runtime.Runtime.Deployment.{require_no_pending_recovery, deployment, phase_is}
use agent_farm_runtime.Runtime.Store.{list_tasks}
use agent_farm_runtime.Runtime.Handoff.{is_at, finish_deployment_event, publish_control}
use agent_farm_runtime.Runtime.Handoff.Release.{Plane, is_stop}

-- `==` on lists of tasks
unfoldable pub same_tasks : List Task → List Task → Bool
same_tasks [] [] = true
same_tasks [] (u ∷ us) = false
same_tasks (t ∷ ts) [] = false
same_tasks (t ∷ ts) (u ∷ us) = some t == some u && same_tasks ts us

abbrev pub or_no_archive : Option Archive → Act Archive
or_no_archive none = raise (os_error "FileNotFoundError")
or_no_archive (some a) = pure a

abbrev pub has_journal : World → Bool
has_journal w = elim w.disk.pending [ none ↦ false | some txn ↦ true ]

module _ (plane : Plane) (request_id actor : String) where
  -- `{**manifest, **current, …}`
  abbrev pub taken_over : Manifest → Manifest
  taken_over m = record m {
    host = some plane.out.identity.host;
    source_sha256 = some plane.out.identity.source_sha256;
    protocol_version = some plane.out.identity.protocol_version;
    execution_epoch = some request_id;
  }

  abbrev pub claimed_as : Handoff → Handoff
  claimed_as control = record control { phase = claimed; claimed_by = some actor }

  -- The archive, the tasks or the root are not those of the release.
  unfoldable pub is_changed : Handoff → Archive → World → Bool
  unfolding same_tasks list_tasks
  is_changed control proof w =
      some (plane.digest proof) != control.archive_sha256
      || (proof.root != plane.root
          || (not (same_tasks proof.tasks (list_tasks w.disk)) || has_journal w))

  unfoldable pub take_over : Manifest → Handoff → Act Handoff
  unfolding is_changed publish_control
  take_over m control = do
    found ← gets (λ w. lookup request_id w.disk.handoffs)
    proof ← or_no_archive found
    changed ← gets (is_changed control proof)
    guard changed handoff_changed
    publish_control plane.out.identity (taken_over m) (claimed_as control) "FARM_CLAIMED" actor
    pure (claimed_as control)

  unfoldable pub claim_control : Manifest → Option Handoff → Act Handoff
  unfolding phase_is finish_deployment_event take_over
  claim_control m none = raise claim_mismatch
  claim_control m (some control) = do
    guard (is_stop control) farm_stopped
    guard (control.id != request_id || not (is_at plane.out.identity control.target_host m))
        claim_mismatch
    guard (phase_is draining (some control)) not_released
    m' ← finish_deployment_event plane.out.identity true
    if phase_is claimed (some control) then pure control else take_over m' control

  -- `claim_farm`
  unfoldable pub claim_farm : Act Handoff
  unfolding require_no_pending_recovery deployment claim_control
  claim_farm = do
    guard (not (not_blank actor)) nameless_handoff
    require_no_pending_recovery
    m ← deployment
    claim_control m m.handoff
