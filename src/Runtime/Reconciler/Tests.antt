-- ===== src/Runtime/Reconciler/Tests.antt =====
-- A pass over a small farm with the fake executor, and the theorems of the reconciler there.
use agent_farm_runtime.Prelude.{values, none, some, [], ◌∷◌}
use agent_farm_runtime.Runtime.Metadata.{no_metadata}
use agent_farm_runtime.Runtime.Models.{TaskState, Lease, Task}
use agent_farm_runtime.Runtime.Result.{ok, err, os_error}
use agent_farm_runtime.Runtime.World.{World}
use agent_farm_runtime.Runtime.World.Policy.{Obeys}
use agent_farm_runtime.Runtime.Files.{Files}
use agent_farm_runtime.Runtime.Executor.{Executor, WorkerObservation}
use agent_farm_runtime.Runtime.Executor.Fake.{FakeExecutor, fake_executor}
use agent_farm_runtime.Runtime.Reconciler.{Env}
use agent_farm_runtime.Runtime.Reconciler.Pass.{reconcile_once}
use agent_farm_runtime.Runtime.Reconciler.Moves.{contract}
use agent_farm_runtime.Runtime.Reconciler.Contract.Pass.{reconcile_once-Obeys}
use agent_farm_runtime.Runtime.Reconciler.Ownership.{owned_writes, reconcile_once-IsOwned}
use agent_farm_runtime.Runtime.Tests.{out, farm, world, submitted_task}

abbrev no_files : Files
no_files = record {
  read = λ w path. err (os_error "no such file");
  notes = λ w path. none;
  decode = λ raw. none;
  encode = λ text. [];
  sha256 = λ raw. "";
}

abbrev fake : FakeExecutor
fake = record { alive = []; receipt = [] }

abbrev env : Env
env = record {
  outside = out;
  files = no_files;
  executor = fake_executor fake;
  actor = "reconciler";
  unblock = none;
  grace_seconds = 60;
  max_auto_restarts = 3;
  epoch = "initial";
  suffix = λ w. "a1b2c3";
  lease_uuid = λ w. "lease-1";
}

abbrev ready_task : Task
ready_task = record submitted_task { id = "T-2"; state = TaskState.ready; metadata = no_metadata }

abbrev two_tasks : World
two_tasks = record world {
  disk = record farm { tasks = ("T-1", submitted_task) ∷ ("T-2", ready_task) ∷ [] };
}

reconcile_once-Obeys_example :
    Obeys (contract env (values two_tasks.disk.workers)) two_tasks (reconcile_once env two_tasks).1
reconcile_once-Obeys_example = reconcile_once-Obeys env two_tasks

reconcile_once-IsOwned_example : Obeys (owned_writes env) two_tasks (reconcile_once env two_tasks).1
reconcile_once-IsOwned_example = reconcile_once-IsOwned env two_tasks

-- An executor that cannot tell
abbrev unknown : WorkerObservation
unknown = record { worker_id = "W-1"; alive = none; receipt = none; detail = some "no identity" }

abbrev blind : Executor
blind = record (fake_executor fake) { poll_answer = λ w id. ok unknown }

abbrev blind_env : Env
blind_env = record env { executor = blind }

abbrev lease : Lease
lease = record { worker_id = "W-1"; lease_id = "lease-0"; expiry = none }

abbrev running_task : Task
running_task = record ready_task { state = TaskState.running; lease = some lease }
