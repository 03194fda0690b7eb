-- ===== src/Runtime/Equality.antt =====
-- Python's `==` on the dataclasses and the dictionaries of models.py. The decisions are shut: the
-- tactics split on them.
use agent_farm_runtime.Prelude.{String, Option, Eq, ℕ_discrete, string_dec}
use agent_farm_runtime.Runtime.Metadata.{Checkpoint, ErrorInfo, Metadata}
use agent_farm_runtime.Runtime.Models.{TaskState, ReceiptStatus, Task}

pub TaskState-discrete : Discrete TaskState
TaskState-discrete = hlevel

pub ReceiptStatus-discrete : Discrete ReceiptStatus
ReceiptStatus-discrete = hlevel

pub Option_String-discrete : Discrete (Option String)
Option_String-discrete = hlevel string_dec

pub ErrorInfo-discrete : Discrete ErrorInfo
ErrorInfo-discrete = hlevel string_dec

pub Checkpoint-discrete : Discrete (Option Checkpoint)
Checkpoint-discrete = hlevel string_dec

pub Metadata-discrete : Discrete Metadata
Metadata-discrete = hlevel (string_dec, ℕ_discrete)

pub Task-discrete : Discrete (Option Task)
Task-discrete = hlevel (string_dec, ℕ_discrete, Metadata-discrete)

instance abbrev pub state_eq : Eq TaskState
state_eq = record { dec = TaskState-discrete }

instance abbrev pub status_eq : Eq ReceiptStatus
status_eq = record { dec = ReceiptStatus-discrete }

instance abbrev pub option_string_eq : Eq (Option String)
option_string_eq = record { dec = Option_String-discrete }

instance abbrev pub error_eq : Eq ErrorInfo
error_eq = record { dec = ErrorInfo-discrete }

instance abbrev pub checkpoint_eq : Eq (Option Checkpoint)
checkpoint_eq = record { dec = Checkpoint-discrete }

instance abbrev pub task_eq : Eq (Option Task)
task_eq = record { dec = Task-discrete }
