-- ===== src/Runtime/Tests.antt =====
-- A small farm, and the theorems of Runtime at inputs where their hypotheses hold.
use agent_farm_runtime.Prelude.{
  ◌≡◌, refl, inl, String, none, some, true, false, List, [], ◌∷◌, arith, lookup, is_identifier,
  ◌==◌, string_eq, if◌then◌else◌,
}
use agent_farm_runtime.Runtime.Metadata.{Metadata, no_metadata, value, note, update}
use agent_farm_runtime.Runtime.Models.{TaskState, Task, no_payload}
use agent_farm_runtime.Runtime.Equality.{state_eq}
use agent_farm_runtime.Runtime.Result.{ok}
use agent_farm_runtime.Runtime.Transitions.{transition_task, assign, unchanged}
use agent_farm_runtime.Runtime.Transitions.Graph.{accept, IsAllowed, moved, transition_task_iff}
use agent_farm_runtime.Runtime.Transitions.Progress.{Ends, transition_task-Ends}
use agent_farm_runtime.Runtime.World.{Disk, Effect, World, step, write, after, Manifest, Txn}
use agent_farm_runtime.Runtime.World.Through.{Through}
use agent_farm_runtime.Runtime.Deployment.{Identity}
use agent_farm_runtime.Runtime.Store.{
  Outside, check_transition, workspace_taken, recover_locked, commit_locked,
}
use agent_farm_runtime.Runtime.Store.Recovery.{
  settled, Recovers, CanFinish, CanFinish-finish_txn, recover_locked_lem, finish_effects,
}
use agent_farm_runtime.Runtime.Store.Crash.{recover_locked_interrupted}
use agent_farm_runtime.Runtime.Store.Commit.{CanCommit, saved, txn_at}
use agent_farm_runtime.Runtime.Store.Success.{succeeds, all_effects, prepared}
use agent_farm_runtime.Runtime.Store.Atomic.{CommitOutcome, commit_locked_atomic, commit_lookup}
use agent_farm_runtime.Runtime.Store.Lifecycle.{IsLegal, commit_locked-IsLegal}
use agent_farm_runtime.Runtime.Store.Workspaces.{IsExclusive, commit_locked-IsExclusive}

abbrev pub submitted_task : Task
submitted_task = record {
  id = "T-1";
  objective = "x";
  deliverable = "out";
  acceptance = "check";
  state = TaskState.submitted;
  lease = none;
  metadata = record no_metadata { workspace = value "/work/a"; revision = value 4 };
}

abbrev receipt : Metadata
receipt = record no_metadata { acceptance_receipt = value (note "verified") }

accept-IsAllowed : IsAllowed submitted_task TaskState.done none true receipt
unfolding update
accept-IsAllowed = record { edge = accept; fenced = λ l e s. cc; evidence = λ e. (refl, refl) }

transition_task_iff_example :
    transition_task submitted_task TaskState.done none true receipt unchanged
    ≡ ok (moved submitted_task TaskState.done receipt unchanged)
transition_task_iff_example =
    (transition_task_iff submitted_task TaskState.done none true receipt unchanged
        (moved submitted_task TaskState.done receipt unchanged)).1
      (accept-IsAllowed, refl)

transition_task-Ends_example :
    Ends submitted_task TaskState.done × Ends submitted_task TaskState.failed
transition_task-Ends_example = transition_task-Ends submitted_task (λ e. cc) (λ e. cc)

abbrev host : Identity
host = record { host = "node1"; source_sha256 = "5a"; protocol_version = 4 }

abbrev pub out : Outside
out = record { identity = host; resolve = λ path. path; event_id = λ w. "e-1"; now = λ w. 7 }

abbrev never_run : Manifest
never_run = record {
  execution_epoch = none;
  recovery_id = none;
  host = none;
  source_sha256 = none;
  protocol_version = none;
  pending_event = none;
  handoff = none;
}

abbrev pub farm : Disk
farm = record {
  tasks = ("T-1", submitted_task) ∷ [];
  workers = [];
  log = record { events = []; damaged = false };
  pending = none;
  pending_recovery = false;
  handoffs = [];
  deployment = never_run;
}

abbrev pub world : World
world = record { disk = farm; history = [] }

abbrev accepted : Task
accepted = record submitted_task {
  state = TaskState.done;
  metadata = record submitted_task.metadata { acceptance_receipt = value (note "verified") };
}

recovered : recover_locked world ≡ (ok tt, [])
recovered = rw recover_locked_lem

accept_checked : check_transition accepted (some submitted_task) ≡ ok tt
unfolding check_transition update
accept_checked = ground (arith, accept_passes)
  where
    accept_passes :
        transition_task submitted_task TaskState.done none true accepted.metadata (assign none)
        ≡ ok (moved submitted_task TaskState.done accepted.metadata (assign none))
    accept_passes =
        (transition_task_iff submitted_task TaskState.done none true accepted.metadata (assign none)
            (moved submitted_task TaskState.done accepted.metadata (assign none))).1
          (record { edge = accept; fenced = λ l e s. cc; evidence = λ e. (refl, refl) }, refl)

can : CanCommit out accepted (some submitted_task) "ACCEPTED" "master" no_payload none farm
unfolding lookup is_identifier workspace_taken
can = record {
  named = refl;
  same_id = ground arith;
  current = ground arith;
  allowed = accept_checked;
  free = ground arith;
}

abbrev effects : List Effect
effects =
    all_effects out accepted (some submitted_task) "ACCEPTED" "master" no_payload none world []

committed :
    commit_locked out accepted (some submitted_task) "ACCEPTED" "master" no_payload none world
    ≡ (ok (saved out accepted (some submitted_task) "ACCEPTED" "master" no_payload none), effects)
unfolding after
committed =
    succeeds out accepted (some submitted_task) "ACCEPTED" "master" no_payload none world []
      recovered can refl

abbrev accepted_txn : Txn
accepted_txn = txn_at out accepted (some submitted_task) "ACCEPTED" "master" no_payload none world

-- The process died after it wrote the journal.
abbrev crashed : World
crashed =
    prepared out accepted (some submitted_task) "ACCEPTED" "master" no_payload none world world

crashed-CanFinish : CanFinish crashed.disk accepted_txn
unfolding step write lookup is_identifier
crashed-CanFinish = record { named = refl; current = inl (ground arith); intact = refl }

crashed_recovers : recover_locked crashed ≡ (ok tt, finish_effects crashed.disk accepted_txn)
unfolding step write
crashed_recovers =
    rw recover_locked_lem (CanFinish-finish_txn accepted_txn crashed crashed-CanFinish)

recover_locked_interrupted_example :
    Through (Recovers (settled crashed.disk)) crashed (finish_effects crashed.disk accepted_txn)
    × ((after crashed (finish_effects crashed.disk accepted_txn)).disk ≡ settled crashed.disk)
recover_locked_interrupted_example =
    recover_locked_interrupted crashed (finish_effects crashed.disk accepted_txn) crashed_recovers

commit_locked_atomic_example :
    CommitOutcome accepted
      (some submitted_task)
      "ACCEPTED"
      "master"
      world
      (saved out accepted (some submitted_task) "ACCEPTED" "master" no_payload none)
      effects
commit_locked_atomic_example =
    commit_locked_atomic out accepted (some submitted_task) "ACCEPTED" "master" no_payload none
      world effects committed

commit_locked-IsLegal_example :
    IsLegal submitted_task
      (saved out accepted (some submitted_task) "ACCEPTED" "master" no_payload none)
commit_locked-IsLegal_example =
    commit_locked-IsLegal out accepted submitted_task "ACCEPTED" "master" no_payload none world
      effects committed

farm-IsExclusive : IsExclusive out (settled farm)
unfolding settled lookup
farm-IsExclusive = record {
  keyed = λ i a e. ground arith;
  alone = λ i j a b k ei ej ha hb. ground arith;
}

commit_locked-IsExclusive_example : IsExclusive out (after world effects).disk
commit_locked-IsExclusive_example =
    commit_locked-IsExclusive out accepted (some submitted_task) "ACCEPTED" "master" no_payload none
      world effects committed farm-IsExclusive

commit_lookup_example :
    (lookup "T-1" (settled farm).tasks ≡ some submitted_task)
    × ((j : String)
        → lookup j (after world effects).disk.tasks ≡ (
            if "T-1" == j
            then some (saved out accepted (some submitted_task) "ACCEPTED" "master" no_payload none)
            else lookup j (settled farm).tasks))
commit_lookup_example =
    commit_lookup out accepted (some submitted_task) "ACCEPTED" "master" no_payload none world
      effects committed
