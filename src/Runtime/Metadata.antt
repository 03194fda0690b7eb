-- ===== src/Runtime/Metadata.antt =====
-- The `metadata` dictionary of models.py, with the records that the runtime keeps under its keys.
use agent_farm_runtime.Prelude.{
  ℕ, String, Option, none, some, Bool, true, false, List, [], ◌∷◌, ◌==◌, string_eq, if◌then◌else◌,
  nonempty,
}

-- A key of a JSON dictionary: not there, `null`, or a value of the key's type.
pub data Entry {ℓ} (A : Type ℓ) : Type ℓ where
  missing null : Entry A
  value : A → Entry A

module _ {ℓ} {A : Type ℓ} where
  -- `d.get(k)`
  abbrev pub get : Entry A → Option A
  get (value a) = some a
  get _ = none

  -- `d.get(k, default)`, where the key is never null
  abbrev pub get_or : Entry A → A → A
  get_or (value a) d = a
  get_or _ d = d

  -- One key of `d.update(patch)`.
  abbrev pub override : Entry A → Entry A → Entry A
  override old missing = old
  override old null = null
  override old (value a) = value a

  -- The truth of `d.get(k)` for a dictionary or another value that is never empty.
  abbrev pub present : Entry A → Bool
  present (value a) = true
  present _ = false

  abbrev pub of_option : Option A → Entry A
  of_option none = null
  of_option (some a) = value a

-- The truth of `d.get(k)` at a text and at a flag.
abbrev pub text_set : Entry String → Bool
text_set (value s) = nonempty s
text_set _ = false

abbrev pub flag_set : Entry Bool → Bool
flag_set (value b) = b
flag_set _ = false

-- A text of `datetime.isoformat`, or one that `datetime.fromisoformat` refuses.
pub data Timestamp : Type 0 where
  iso : ℕ → Timestamp
  unparsed : String → Timestamp

-- `snapshot_file` of master.py.
pub record Snapshot : Type 0 where
  pub path : String
  pub sha256 : String
  pub text : String

-- A snapshot, and of a worker's checkpoint whose it is.
pub record Checkpoint : Type 0 where
  pub snapshot : Snapshot
  pub worker_id : Option String
  pub lease_id : Option String
  pub rotation_id : Option String

-- The runtime requests a rotation only of a RUNNING or a WAITING task.
pub data RequestedState : Type 0 where
  was_running was_waiting : RequestedState

pub record RotationRequest : Type 0 where
  pub id : String
  pub actor : String
  pub worker_id : String
  pub lease_id : String
  pub requested_state : RequestedState
  pub based_on_revision : ℕ
  pub ts : Timestamp
  pub checkpoint : Option Checkpoint

pub record Surrender : Type 0 where
  pub id : String
  pub worker_id : String
  pub lease_id : String
  pub checkpoint : Checkpoint
  pub waiting_on : Option String
  pub ts : Timestamp

pub record ErrorInfo : Type 0 where
  pub worker_id : Option String
  pub message : String

pub record Dispatches : Type 0 where
  pub epoch : String
  pub workers : List String

-- What a decision of the master carries beside its evidence: the contract that it accepted, the
-- contract that it replaced, or nothing.
pub data Decided : Type 0 where
  plain : Decided
  accepted_contract : String → String → ℕ → String → Decided
  replaced_contract : String → Snapshot → Decided

-- A record of `master_decisions`: the snapshot of the evidence file, and who decided what.
pub record MasterDecision : Type 0 where
  pub evidence : Snapshot
  pub actor : String
  pub ts : Timestamp
  pub action : String
  pub based_on_revision : ℕ
  pub decided : Decided

-- `recovery_hold` of recovery.py
pub record RecoveryHold : Type 0 where
  pub id : String
  pub previous_state : String

-- The evidence of an acceptance: a plain text, or a recorded decision of the master.
pub data Acceptance : Type 0 where
  note : String → Acceptance
  decision : MasterDecision → Acceptance

abbrev pub acceptance_set : Entry Acceptance → Bool
acceptance_set (value (note s)) = nonempty s
acceptance_set (value (decision d)) = true
acceptance_set _ = false

pub record Metadata : Type 0 where
  pub workspace : Entry String
  pub revision : Entry ℕ
  pub waiting_on : Entry String
  pub launched_ts : Entry Timestamp
  pub runtime_error : Entry ErrorInfo
  pub worker_checkpoint : Entry Checkpoint
  pub dispatches : Entry Dispatches
  pub rotation_request : Entry RotationRequest
  pub resume_requested : Entry String
  pub rework_requested : Entry String
  pub restart_limit_reached : Entry Bool
  pub automatic_restarts : Entry ℕ
  pub master_notes_digest : Entry String
  pub last_receipt_note : Entry String
  pub clean_surrender : Entry Surrender
  pub acceptance_receipt : Entry Acceptance
  pub master_decisions : Entry (List MasterDecision)
  pub contract_revisions : Entry (List MasterDecision)
  pub latest_master_instruction : Entry MasterDecision
  pub recovery_hold : Entry RecoveryHold
  pub outcome : Entry String
  pub other : List (String × String)

-- `{}`
abbrev pub no_metadata : Metadata
no_metadata = record {
  workspace = missing;
  revision = missing;
  waiting_on = missing;
  launched_ts = missing;
  runtime_error = missing;
  worker_checkpoint = missing;
  dispatches = missing;
  rotation_request = missing;
  resume_requested = missing;
  rework_requested = missing;
  restart_limit_reached = missing;
  automatic_restarts = missing;
  master_notes_digest = missing;
  last_receipt_note = missing;
  clean_surrender = missing;
  acceptance_receipt = missing;
  master_decisions = missing;
  contract_revisions = missing;
  latest_master_instruction = missing;
  recovery_hold = missing;
  outcome = missing;
  other = [];
}

-- `d[k] = v` on the keys that the runtime does not read.
unfoldable pub put_other : String → String → List (String × String) → List (String × String)
put_other k v [] = (k, v) ∷ []
put_other k v ((j, w) ∷ rest) = if j == k then (k, v) ∷ rest else (j, w) ∷ put_other k v rest

unfoldable pub update_other :
    List (String × String) → List (String × String) → List (String × String)
update_other old [] = old
update_other old ((k, v) ∷ patch) = update_other (put_other k v old) patch

-- `{**old, **patch}`
unfoldable pub update : Metadata → Metadata → Metadata
unfolding update_other
update old patch = record {
  workspace = override old.workspace patch.workspace;
  revision = override old.revision patch.revision;
  waiting_on = override old.waiting_on patch.waiting_on;
  launched_ts = override old.launched_ts patch.launched_ts;
  runtime_error = override old.runtime_error patch.runtime_error;
  worker_checkpoint = override old.worker_checkpoint patch.worker_checkpoint;
  dispatches = override old.dispatches patch.dispatches;
  rotation_request = override old.rotation_request patch.rotation_request;
  resume_requested = override old.resume_requested patch.resume_requested;
  rework_requested = override old.rework_requested patch.rework_requested;
  restart_limit_reached = override old.restart_limit_reached patch.restart_limit_reached;
  automatic_restarts = override old.automatic_restarts patch.automatic_restarts;
  master_notes_digest = override old.master_notes_digest patch.master_notes_digest;
  last_receipt_note = override old.last_receipt_note patch.last_receipt_note;
  clean_surrender = override old.clean_surrender patch.clean_surrender;
  acceptance_receipt = override old.acceptance_receipt patch.acceptance_receipt;
  master_decisions = override old.master_decisions patch.master_decisions;
  contract_revisions = override old.contract_revisions patch.contract_revisions;
  latest_master_instruction =
      override old.latest_master_instruction patch.latest_master_instruction;
  recovery_hold = override old.recovery_hold patch.recovery_hold;
  outcome = override old.outcome patch.outcome;
  other = update_other old.other patch.other;
}
