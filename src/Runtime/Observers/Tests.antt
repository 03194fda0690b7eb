-- ===== src/Runtime/Observers/Tests.antt =====
-- Tasks that wait, and the theorem on what wakes them.
use agent_farm_runtime.Prelude.{◌≡◌, refl, ◌⊎◌, String, none, some, true, false, [], string_dec}
use agent_farm_runtime.Runtime.Metadata.{get, value, no_metadata}
use agent_farm_runtime.Runtime.Models.{TaskState, Task}
use agent_farm_runtime.Runtime.Files.{Files}
use agent_farm_runtime.Runtime.Result.{err, os_error}
use agent_farm_runtime.Runtime.Observers.{
  Sensors, waiting_on_error, evaluate_waiting_on, condition_holds, make_unblock,
}
use agent_farm_runtime.Runtime.Observers.Laws.{Decision, Evidence, make_unblock-Evidence}
use agent_farm_runtime.Runtime.Tests.{submitted_task, world}

abbrev sensors : Sensors
sensors = record {
  tools = λ w. record {
    has_squeue = false;
    has_sacct = false;
    squeue = λ id. none;
    sacct = λ id. none;
  };
  exists = λ w path. true;
}

abbrev no_files : Files
no_files = record {
  read = λ w path. err (os_error "no such file");
  notes = λ w path. none;
  decode = λ raw. none;
  encode = λ text. [];
  sha256 = λ raw. "";
}

abbrev waiting_task : Task
waiting_task = record submitted_task {
  state = TaskState.waiting;
  metadata = record no_metadata { waiting_on = value "artifact:/data/out.json" };
}

woken : make_unblock sensors no_files world waiting_task ≡ true
unfolding make_unblock evaluate_waiting_on waiting_on_error condition_holds string_dec
woken = refl

make_unblock-Evidence_example :
    Decision no_files world waiting_task
    ⊎ ((reference : String) × (get waiting_task.metadata.waiting_on ≡ some reference)
        × (waiting_on_error (some reference) ≡ none)
        × Evidence sensors world reference)
make_unblock-Evidence_example = make_unblock-Evidence sensors no_files world waiting_task woken
