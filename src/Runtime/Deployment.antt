-- ===== src/Runtime/Deployment.antt =====
-- src/agent_farm_runtime/turnover.py, the guards that the store asks: the deployment record, the
-- execution epoch and `require_task_writer`.
use agent_farm_runtime.Prelude.{
  ℕ, String, Option, none, some, Bool, true, false, not, ◌&&◌, ◌||◌, ◌==◌, ◌!=◌, nat_eq, string_eq,
  nonempty, codes, is_short_identifier, if◌then◌else◌,
}
use agent_farm_runtime.Runtime.Equality.{option_string_eq}
use agent_farm_runtime.Runtime.Result.{
  recovery_pending, audit_pending, protocol_mismatch, handoff_unfinished, invalid_handoff,
  writer_mismatch, epoch_changed, handoff_withholds,
}
use agent_farm_runtime.Runtime.World.{
  Phase, draining, released, claimed, Handoff, Manifest, Act, pure, gets, guard, ◌>>=◌, ◌>>◌,
}

-- `runtime_identity()`
pub record Identity : Type 0 where
  pub host : String
  pub source_sha256 : String
  pub protocol_version : ℕ

abbrev text_or : Option String → String → String
text_or none d = d
text_or (some s) d = if nonempty s then s else d

unfoldable pub execution_epoch : Manifest → String
execution_epoch m = text_or m.execution_epoch (text_or m.recovery_id "initial")

-- `require_no_pending_recovery`
unfoldable pub require_no_pending_recovery : Act (Unit {0})
require_no_pending_recovery = do
  pending ← gets (λ w. w.disk.pending_recovery)
  guard pending recovery_pending

abbrev pub valid_handoff : Option Handoff → Bool
valid_handoff none = true
valid_handoff (some h) = is_short_identifier (codes h.id)

-- `deployment(paths)`
unfoldable pub deployment : Act Manifest
deployment = do
  m ← gets (λ w. w.disk.deployment)
  guard (not (valid_handoff m.handoff)) invalid_handoff
  pure m

unfoldable pub phase_is : Phase → Option Handoff → Bool
phase_is p none = false
phase_is draining (some h) = elim h.phase [ draining ↦ true | _ ↦ false ]
phase_is released (some h) = elim h.phase [ released ↦ true | _ ↦ false ]
phase_is claimed (some h) = elim h.phase [ claimed ↦ true | _ ↦ false ]

-- `optional == text`, `optional == number`
abbrev pub names : Option String → String → Bool
names none s = false
names (some t) s = t == s

abbrev pub versions : Option ℕ → ℕ → Bool
versions none n = false
versions (some m) n = m == n

-- The checks on a deployment that has a handoff.
unfoldable pub handoff_writer :
    Identity → Manifest → Option String → Option Handoff → Act (Unit {0})
unfolding phase_is
handoff_writer current m upgrade none = pure tt
handoff_writer current m upgrade (some h) = do
  guard (not (versions m.protocol_version current.protocol_version)) protocol_mismatch
  guard (nonempty (text_or upgrade "") && not (phase_is claimed (some h))) handoff_unfinished
  guard
      (not (names m.host current.host)
        || not (names m.source_sha256 (text_or upgrade current.source_sha256)))
      writer_mismatch

-- `epoch is not None and execution_epoch(manifest) != epoch`
unfoldable pub wrong_epoch : Manifest → Option String → Bool
unfolding execution_epoch
wrong_epoch m none = false
wrong_epoch m (some epoch) = execution_epoch m != epoch

-- `require_task_writer(paths, dispatch=…, epoch=…, upgrade_from_source=…)`
unfoldable pub require_task_writer : Identity → Bool → Option String → Option String → Act Manifest
unfolding require_no_pending_recovery deployment handoff_writer wrong_epoch
require_task_writer current dispatch epoch upgrade = do
  require_no_pending_recovery
  m ← deployment
  guard (elim m.pending_event [ none ↦ false | some event ↦ true ]) audit_pending
  handoff_writer current m upgrade m.handoff
  guard (wrong_epoch m epoch) epoch_changed
  guard (phase_is released m.handoff || (dispatch && phase_is draining m.handoff)) handoff_withholds
  pure m
