-- ===== src/Runtime/Result.antt =====
-- The exceptions of src/agent_farm_runtime, a constructor for each `raise`, and computations that
-- raise. A message is left out where nothing reads it.
use agent_farm_runtime.Prelude.{String, Bool, true, false}
use agent_farm_runtime.Runtime.Models.{TaskState}

pub data Error : Type 0 where
  -- TransitionError
  illegal_transition : TaskState → TaskState → Error
  stale_lease acceptance_not_recorded acceptance_receipt_missing : Error
  -- LeaseError
  already_leased no_reason no_lease not_the_holder : Error
  -- StoreError
  invalid_task_id task_not_found id_changed : Error
  invalid_handoff : Error
  recovery_pending audit_pending protocol_mismatch handoff_unfinished : Error
  invalid_rotation rotation_needs_lease checkpoint_needs_waiting bad_checkpoint bad_evidence : Error
  nameless_actor accept_refused bad_outcome amend_refused no_acceptance_file : Error
  hold_needs_release decision_refused decision_pending unknown_decision : Error
  audit_elsewhere invalid_handoff_request drain_elsewhere no_destination : Error
  nameless_handoff release_elsewhere being_stopped not_surrendered workers_uncertain : Error
  farm_stopped not_released nameless_stop no_deployment stop_elsewhere stop_protocol : Error
  -- StoreConflict
  journal_conflict stale_snapshot workspace_reserved : Error
  writer_mismatch epoch_changed handoff_withholds revision_changed rotation_already_requested :
      Error
  handoff_pending handoff_id_used no_matching_drain claim_mismatch handoff_changed : Error
  handoff_unfinished_stop stop_id_used : Error
  -- ValueError of `EventLog.ids` and of `bytes.decode`, KeyError, AttributeError
  torn_log undecodable key_error attribute_error : Error
  -- ExecutorUnavailable, OSError
  executor_unavailable os_error : String → Error

-- `except StoreConflict`
abbrev pub is_conflict : Error → Bool
is_conflict journal_conflict = true
is_conflict stale_snapshot = true
is_conflict workspace_reserved = true
is_conflict writer_mismatch = true
is_conflict epoch_changed = true
is_conflict handoff_withholds = true
is_conflict revision_changed = true
is_conflict rotation_already_requested = true
is_conflict handoff_pending = true
is_conflict handoff_id_used = true
is_conflict no_matching_drain = true
is_conflict claim_mismatch = true
is_conflict handoff_changed = true
is_conflict handoff_unfinished_stop = true
is_conflict stop_id_used = true
is_conflict _ = false

pub data Result {ℓ} (A : Type ℓ) : Type ℓ where
  ok : A → Result A
  err : Error → Result A

module _ {ℓ κ} {A : Type ℓ} {B : Type κ} where
  infixl 5 ◌>>=◌ ◌>>◌
  -- The rest of a computation, unless an exception came first.
  abbrev pub ◌>>=◌ : Result A → (A → Result B) → Result B
  ok a >>= rest = rest a
  err e >>= rest = err e

  abbrev pub ◌>>◌ : Result A → Result B → Result B
  first >> second = first >>= λ _. second

-- `if test: raise e`
abbrev pub raise_if : Bool → Error → Result (Unit {0})
raise_if true e = err e
raise_if false e = ok tt

-- `except (StoreError, ValueError, OSError)`: all but ExecutorUnavailable, KeyError and
-- AttributeError
abbrev pub is_store_or_os : Error → Bool
is_store_or_os (executor_unavailable detail) = false
is_store_or_os key_error = false
is_store_or_os attribute_error = false
is_store_or_os _ = true

-- `except (ExecutorUnavailable, OSError)`
abbrev pub is_executor_or_os : Error → Bool
is_executor_or_os (executor_unavailable detail) = true
is_executor_or_os (os_error detail) = true
is_executor_or_os _ = false
