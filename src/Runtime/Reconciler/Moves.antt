-- ===== src/Runtime/Reconciler/Moves.antt =====
-- What the reconciler may do to a task and ask of the executor, apart from the code that does it.
-- The docstring of `Reconciler` in src/agent_farm_runtime/reconciler.py states it.
use agent_farm_runtime.Prelude.{
  ◌≡◌, ◌≢◌, String, none, some, true, false, List, ℕ, ◌+◌, ◌≤◌, leb, lookup, contains, string_eq,
}
use agent_farm_runtime.Runtime.Metadata.{iso, get, value, Dispatches, Surrender, present, text_set}
use agent_farm_runtime.Runtime.Models.{TaskState, Lease, Task, Worker, Receipt}
use agent_farm_runtime.Runtime.Result.{ok}
use agent_farm_runtime.Runtime.World.{Txn, World}
use agent_farm_runtime.Runtime.World.Policy.{Policy}
use agent_farm_runtime.Runtime.Executor.{WorkerObservation}
use agent_farm_runtime.Runtime.Rotation.{clean_surrender}
use agent_farm_runtime.Runtime.Reconciler.{Env, receipt_target, find_worker, named, restarts_of}
use agent_farm_runtime.Runtime.Reconciler.Running.{is_stale}

module _ (env : Env) where
  -- The executor answered an observation of the worker.
  pub record Observed (worker_id : String) (obs : WorkerObservation) : Type 0 where
    pub at : World
    pub answered : env.executor.poll_answer at worker_id ≡ ok obs

  -- The worker was positively observed dead.
  pub record Exited (worker_id : String) : Type 0 where
    pub obs : WorkerObservation
    pub observed : Observed worker_id obs
    pub dead : obs.alive ≡ some false

  -- The holder of the lease gave the receipt, for this task and this lease.
  pub record Reported (b : Task) (lease : Lease) (receipt : Receipt) : Type 0 where
    pub obs : WorkerObservation
    pub observed : Observed lease.worker_id obs
    pub given : obs.receipt ≡ some receipt
    pub fresh : is_stale b lease receipt ≡ false

  -- The task runs under the lease, and its worker is in the dispatches of the epoch.
  pub record RunsUnder (t : Task) (lease : Lease) : Type 0 where
    pub state : t.state ≡ TaskState.running
    pub held : t.lease ≡ some lease
    pub dispatches : Dispatches
    pub recorded : t.metadata.dispatches ≡ value dispatches
    pub epoch : dispatches.epoch ≡ env.epoch
    pub listed : contains dispatches.workers lease.worker_id ≡ true

  -- A task without a lease that may get a worker.
  pub data Startable (b : Task) : Type 0 where
    is_ready : b.state ≡ TaskState.ready → Startable b
    in_rework :
        b.state ≡ TaskState.submitted → text_set b.metadata.rework_requested ≡ true → Startable b
    unowned : b.state ≡ TaskState.running → Startable b
    surrendered : clean_surrender b ≡ true → Startable b

  -- A call that starts a worker finds the task in the files, running under the lease.
  pub record Launchable (w : World) (t : Task) (lease : Lease) : Type 0 where
    pub stored : lookup t.id w.disk.tasks ≡ some t
    pub runs : RunsUnder t lease

  pub record Resumable (w : World) (t : Task) (worker_id : String) (lease : Lease) : Type 0 where
    pub stored : lookup t.id w.disk.tasks ≡ some t
    pub state : t.state ≡ TaskState.running
    pub held : t.lease ≡ some lease
    pub worker : worker_id ≡ lease.worker_id

module _ (env : Env) (workers : List Worker) where
  -- The last sign of life of a holder at a task: its heartbeat in the registry, where it has one
  -- that can be read, and else the launch that the task records.
  pub data SignOfLife (b : Task) (lease : Lease) (seen : ℕ) : Type 0 where
    beat :
        (v : Worker)
        → find_worker lease.worker_id workers ≡ some v
        → v.heartbeat ≡ some (iso seen)
        → SignOfLife b lease seen
    launched :
        ((v : Worker) (t : ℕ)
          → find_worker lease.worker_id workers ≡ some v
          → v.heartbeat ≢ some (iso t))
        → get b.metadata.launched_ts ≡ some (iso seen)
        → SignOfLife b lease seen

  -- That sign was the grace time ago or more.
  pub record Aged (b : Task) (lease : Lease) (now : ℕ) : Type 0 where
    pub seen : ℕ
    pub sign : SignOfLife b lease seen
    pub passed : seen + env.grace_seconds ≤ now

  -- The holder of the lease exited, and at a time that the clock gave, its last sign of life was the
  -- grace time ago or more.
  pub record Death (b : Task) (lease : Lease) : Type 0 where
    pub exited : Exited env lease.worker_id
    pub at : World
    pub aged : Aged b lease (env.outside.now at)
    pub no_error : present b.metadata.runtime_error ≡ false
    pub no_rotation : present b.metadata.rotation_request ≡ false

  -- A change of a task, from `b` to `t`.
  pub data Move (b t : Task) : Type 0 where
    -- It gets a first or a new worker.
    starts : (lease : Lease) → b.lease ≡ none → Startable env b → RunsUnder env t lease → Move b t
    -- It goes from a dead worker to a new one, within the budget of restarts.
    adopts :
        (old lease : Lease)
        → b.state ≡ TaskState.running
        → b.lease ≡ some old
        → Death b old
        → (named (some old.worker_id) ≡ true → leb env.max_auto_restarts (restarts_of b) ≡ false)
        → RunsUnder env t lease
        → Move b t
    -- It waits, since the budget is spent.
    pauses :
        (old : Lease)
        → b.state ≡ TaskState.running
        → b.lease ≡ some old
        → Death b old
        → leb env.max_auto_restarts (restarts_of b) ≡ true
        → t.state ≡ TaskState.waiting
        → t.lease ≡ b.lease
        → Move b t
    -- It goes where a receipt of its holder says.
    advances :
        (lease : Lease) (receipt : Receipt)
        → b.state ≡ TaskState.running
        → b.lease ≡ some lease
        → Reported env b lease receipt
        → receipt_target receipt.status ≡ ok t.state
        → (t.state ≡ TaskState.waiting → t.lease ≡ b.lease)
        → (t.state ≢ TaskState.waiting → t.lease ≡ none)
        → Move b t
    -- Its worker, which exited, is woken.
    resumes :
        (lease : Lease)
        → b.state ≡ TaskState.waiting
        → b.lease ≡ some lease
        → Exited env lease.worker_id
        → t.state ≡ TaskState.running
        → t.lease ≡ b.lease
        → Move b t
    -- Its worker, which exited, gave its lease up with a checkpoint.
    surrenders :
        (lease : Lease) (s : Surrender)
        → b.state ≡ TaskState.waiting
        → b.lease ≡ some lease
        → Exited env lease.worker_id
        → t.metadata.clean_surrender ≡ value s
        → (s.worker_id ≡ lease.worker_id) × (s.lease_id ≡ lease.lease_id)
        → t.state ≡ TaskState.waiting
        → t.lease ≡ none
        → Move b t
    -- Only its metadata changes.
    notes : t.state ≡ b.state → t.lease ≡ b.lease → Move b t

  -- A worker that may be stopped: dead, or with a receipt that ends its task.
  pub data Stoppable (worker_id : String) : Type 0 where
    died : (b : Task) (old : Lease) → worker_id ≡ old.worker_id → Death b old → Stoppable worker_id
    ended :
        (b : Task) (lease : Lease) (receipt : Receipt) (target : TaskState)
        → worker_id ≡ receipt.worker_id
        → Reported env b lease receipt
        → receipt_target receipt.status ≡ ok target
        → target ≢ TaskState.waiting
        → Stoppable worker_id

  pub record Planned (txn : Txn) : Type 0 where
    pub before : Task
    pub same : txn.before ≡ some before
    pub move : Move before txn.after

  -- The contract of the reconciler.
  abbrev pub contract : Policy
  contract = record {
    prepares = Planned;
    launches = Launchable env;
    resumes = Resumable env;
    stops = Stoppable;
  }
