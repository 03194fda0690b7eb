-- ===== src/Lib.antt =====
-- Verification of agent-farm-runtime: a farm of long-lived tasks, each executed by a disposable
-- worker under a lease, whose state is a directory of JSON files that survives crashes.
--
-- The parts of the program and their files. The runtime (src/agent_farm_runtime) keeps the tasks; a
-- reconciler runs over them, takes the receipts of the workers, and launches, resumes and stops
-- workers through an executor; the master decides by recorded evidence. The tools of a worker
-- (src/farmkit) run the steps of a task as jobs: a tick observes the jobs of the ledger, verifies
-- those that ended, retries or parks the failures, launches what is ready, and says what to report.
--   Prelude: names of the libraries, and lists, dictionaries of files and texts as Python has them.
--   Runtime/Models, Metadata, Equality, Result: models.py, the metadata dictionary with one field
--     for each key that the modelled code reads, `==` on them, and the exceptions.
--   Runtime/Transitions: transitions.py. Graph has the diagram as a relation,
--     and Progress what calls can make of a task.
--   Runtime/World: the files under .farm, and actions. An action gives a result and the effects that
--     it made, in order: durable writes, calls of the executor, lines of the report. A crash leaves
--     a first part of the effects. Rules has the equations of do blocks, Through what holds after
--     every effect, Policy what the effects may be, Count how many commits they begin, and Quiet
--     that they are lines of the report alone.
--   Runtime/Deployment, Rotation: the guards of a writer and the rotation of a worker, turnover.py.
--   Runtime/Handoff: the phases of a handoff, turnover.py. Audit is about the event of the deployment
--     record, Redo about an interruption of it; Release and Claim seal and take over a farm, and
--     Takeover puts the two together.
--   Runtime/Lifecycle: of lifecycle.py the stop control that ends a farm's dispatches; Stop says what
--     it withholds, and Clear what an interrupted clear leaves.
--   Runtime/Store: store.py and events.py. `commit_locked` is `_commit_locked`, `recover_locked` is
--     `_recover_locked`: the journal is prepared, the task installed, the event appended or synced,
--     the journal cleared. Recovery, Crash, Commit, Success, Atomic, Lifecycle, Workspaces, Calls
--     and Once prove things of them.
--   Runtime/Files: snapshot_file of master.py and master_note_digest of observers.py.
--   Runtime/Executor: adapters/base.py, and adapters/fake.py as an instance.
--   Runtime/Reconciler: reconciler.py, a module for each method group. Moves states the contract of
--     the docstring of `Reconciler`; Contract proves it of a pass, method by method; Ownership draws
--     what it means for states, leases and restarts, and Unknown is about a worker of which nothing
--     is known.
--   Runtime/Slurm, Observers: adapters/slurm.py and observers.py.
--   Runtime/Master: record_decision of master.py.
--   Farmkit/Classify, Rulings: farmkit/classify.py with the states of farmkit/observe.py.
--   Farmkit/Ledger, Steps: farmkit/ledger.py, and of farmkit/steps.py which steps may run, and in
--     Steps/Paths which paths a step may declare.
--   Farmkit/Act: actions of farmkit. An action gives a result, or raises, and changes the ledger and
--     the record of what was done: files written, programs called, steps run, outputs published.
--     Act/Logic is the interface of what is kept through an action; the modules Walk carry it
--     through the loops of a component, once for the termination of a tick and once for its budgets.
--   Farmkit/Intent, Waits, Observe: farmkit/intent.py, waits.py and observe.py. Intent.Accounting is
--     the reconciliation of intents, Observe.Cache the cache of job states.
--   Farmkit/Verify: farmkit/verify.py, on JSON values as they are parsed.
--   Farmkit/Replace: `_replace_dir` and `_remove_tree` of farmkit/runner.py, a step for each call of
--     the file system. Swap and Laws follow an interruption after each step.
--   Farmkit/Runner: the rest of farmkit/runner.py. Checks verifies and publishes, Budget and Launch
--     end an attempt and launch a step, Barriers submits barrier jobs, and Tick puts them together.
--     Launch/Certify says what a verified attempt is; Retries, Fuel and Termination count the
--     launches within a launch, and Bounded the automatic retries; Tick/Decide, Rounds and Ends are
--     about a tick.
--   The modules Tests hold small farms and the theorems at inputs where their hypotheses hold.
--
-- What is taken from outside, as parameters: the identity of the running code, `Path.resolve`, the
-- draws of uuid4 and of the clock, the files outside .farm, SHA-256 and UTF-8, the answers of the
-- executor, and what squeue, sacct and sbatch print; for a runner, the files of the workspace and
-- of the run directories, what a local run ends with, and what a project's verifier says. An answer
-- may depend on all that went before. Times are natural numbers in the unit of the clock.
--
-- Bounds. The loops of the code are over lists, but for three. `_remove_tree` has its six rounds,
-- and a tick its rounds of launches, twice the steps and one, which are enough to attempt every
-- ready step. A launch of a local step ends its attempt, which may launch the step again: `launch`
-- has fuel for that, and more than the retries that the budgets of the step allow is enough, if an
-- id of an attempt is never drawn twice. The store's operations are taken one after another, as its
-- lock makes them. An atomic replacement of a file is one effect. The syntax of JSON is not
-- modelled: a file holds the record, and an output its parsed value. The texts of messages are left
-- out where nothing reads them. `str.upper` is that of ASCII, which is all that Slurm prints.
--
-- Not modelled: signals to a daemon and offline recovery; the executors that control processes;
-- remote access; command lines, views and probes; of farmkit the reading of the table of
-- steps, the links of a run directory, the texts of evidence, notes and checkpoints, the digests of
-- files, and the health rules; farmboard.
mod Prelude
pub mod Runtime
pub mod Farmkit
