-- ===== src/Runtime/Models.antt =====
-- src/agent_farm_runtime/models.py: tasks, leases, workers, events and receipts.
-- A metadata dictionary is a record with one field for each key that the runtime reads or writes;
-- the keys that it never reads are the texts of `other`.
use agent_farm_runtime.Prelude.{ℕ, String, Option}
use agent_farm_runtime.Runtime.Metadata.{
  Metadata, Timestamp, RotationRequest, Surrender, ErrorInfo, MasterDecision,
}

pub data TaskState : Type 0 where
  ready running waiting submitted done blocked failed : TaskState

pub data WorkerState : Type 0 where
  idle busy dead : WorkerState

pub record Lease : Type 0 where
  pub worker_id : String
  pub lease_id : String
  pub expiry : Option String

pub record Task : Type 0 where
  pub id : String
  pub objective : String
  pub deliverable : String
  pub acceptance : String
  pub state : TaskState
  pub lease : Option Lease
  pub metadata : Metadata

-- The lease of a worker record is only observed: `{"task_id": …, "lease_id": …}`.
pub record ObservedLease : Type 0 where
  pub task_id : String
  pub lease_id : String

pub record Worker : Type 0 where
  pub id : String
  pub session_handle : Option String
  pub heartbeat : Option Timestamp
  pub lease : Option ObservedLease
  pub state : WorkerState

-- What a worker reports. A worker never reports DONE.
pub data ReceiptStatus : Type 0 where
  running awaiting submitted failed : ReceiptStatus

pub record Receipt : Type 0 where
  pub worker_id : String
  pub task_id : String
  pub lease_id : String
  pub status : ReceiptStatus
  pub ts : Timestamp
  pub note : String
  pub waiting_on : Option String
  pub rotation_id : Option String
  pub checkpoint : Option String

-- `handoff["phase"]` of deployment.json
pub data Phase : Type 0 where
  draining released claimed : Phase

-- The handoff of deployment.json; the path of the archive is left out, which follows from the id.
pub record Handoff : Type 0 where
  pub id : String
  pub phase : Phase
  pub kind : Option String
  pub target_host : Option String
  pub from_host : Option String
  pub actor : String
  pub ts : Timestamp
  pub archive_sha256 : Option String
  pub claimed_by : Option String

-- What the events of the runtime carry beside the revision.
pub data Payload : Type 0 where
  no_payload : Payload
  limit : ℕ → Payload
  launched : String → String → Option String → Payload
  applied : String → ReceiptStatus → TaskState → Payload
  resumed : String → Payload
  rotation : RotationRequest → Payload
  surrendered : Surrender → Payload
  executor_error : ErrorInfo → Payload
  decided : MasterDecision → Payload
  handed : Handoff → Payload

pub record Event : Type 0 where
  pub id : String
  pub task_id : String
  pub type : String
  pub actor : String
  pub payload : Payload
  pub revision : Option ℕ
  pub ts : Timestamp
