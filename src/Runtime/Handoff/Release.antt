-- ===== src/Runtime/Handoff/Release.antt =====
-- src/agent_farm_runtime/turnover.py: `release_farm`, which seals a drained farm.
pub mod Workers
pub mod Rest
pub mod Sealed
pub mod Returned
use agent_farm_runtime.Prelude.{
  String, Option, none, some, Bool, true, false, not, ◌&&◌, ◌||◌, List, [], ◌∷◌, ◌==◌, ◌!=◌,
  string_eq, codes, codes_lt, not_blank, any, if◌then◌else◌,
}
use agent_farm_runtime.Runtime.Equality.{state_eq, option_string_eq}
use agent_farm_runtime.Runtime.Metadata.{Entry, missing, null, value, Dispatches}
use agent_farm_runtime.Runtime.Models.{TaskState, Task}
use agent_farm_runtime.Runtime.Result.{
  nameless_handoff, release_elsewhere, being_stopped, not_surrendered, workers_uncertain,
  no_matching_drain, attribute_error,
}
use agent_farm_runtime.Runtime.World.{
  released, claimed, Handoff, Manifest, Archive, seal, World, Act, pure, raise, gets, effect, guard,
  ◌>>=◌, ◌>>◌,
}
use agent_farm_runtime.Runtime.Deployment.{execution_epoch, require_no_pending_recovery, phase_is}
use agent_farm_runtime.Runtime.Store.{Outside, recover_locked, list_tasks}
use agent_farm_runtime.Runtime.Rotation.{clean_surrender, has_lease}
use agent_farm_runtime.Runtime.Executor.{Executor, WorkerObservation, poll}
use agent_farm_runtime.Runtime.Handoff.{is_at, finish_deployment_event, publish_control}

-- A task that a release refuses
unfoldable pub is_unsettled : Task → Bool
unfolding clean_surrender
is_unsettled t =
    has_lease t
    || (t.state == TaskState.running || (t.state == TaskState.waiting && not (clean_surrender t)))

-- A set of texts, as `sorted` lists it
unfoldable pub insert_worker : String → List String → List String
unfolding codes_lt
insert_worker id [] = id ∷ []
insert_worker id (other ∷ rest) =
    let later = insert_worker id rest in
    if id == other
    then other ∷ rest
    else if codes_lt (codes id) (codes other)
    then id ∷ other ∷ rest
    else other ∷ later

unfoldable pub insert_workers : List String → List String → List String
unfolding insert_worker
insert_workers [] sorted = sorted
insert_workers (id ∷ rest) sorted = insert_worker id (insert_workers rest sorted)

abbrev pub issued_by : String → Entry Dispatches → Act (List String)
issued_by epoch missing = pure []
issued_by epoch null = raise attribute_error
issued_by epoch (value d) = pure (if d.epoch == epoch then d.workers else [])

-- The workers that were dispatched in the epoch
unfoldable pub issued_workers : String → List Task → Act (List String)
unfolding insert_workers
issued_workers epoch [] = pure []
issued_workers epoch (t ∷ rest) = do
  here ← issued_by epoch t.metadata.dispatches
  later ← issued_workers epoch rest
  pure (insert_workers here later)

abbrev pub is_dead : WorkerObservation → Bool
is_dead o = elim o.alive [ some false ↦ true | _ ↦ false ]

unfoldable pub uncertain_of : Executor → List String → Act (List String)
unfolding poll
uncertain_of executor [] = pure []
uncertain_of executor (id ∷ rest) = do
  o ← poll executor id
  later ← uncertain_of executor rest
  pure (if is_dead o then later else id ∷ later)

abbrev pub is_any : List String → Bool
is_any [] = false
is_any (x ∷ xs) = true

abbrev pub is_stop : Handoff → Bool
is_stop h = h.kind == some "stop"

-- What a handoff takes from outside beside: `paths.root.resolve()`, and the SHA-256 of the archive as
-- it is written
pub record Plane : Type 0 where
  pub out : Outside
  pub root : String
  pub digest : Archive → String

module _ (plane : Plane) (executor : Executor) (request_id actor : String) where
  abbrev pub proof_of : Manifest → List String → World → Archive
  proof_of m workers w = record {
    root = plane.root;
    deployment = m;
    tasks = list_tasks w.disk;
    quiesced_workers = workers;
  }

  abbrev pub sealed_as : Handoff → Archive → Handoff
  sealed_as control proof = record control {
    phase = released;
    archive_sha256 = some (plane.digest proof);
  }

  unfoldable pub seal_with : Manifest → Handoff → List String → Act Handoff
  unfolding list_tasks publish_control
  seal_with m control workers = do
    proof ← gets (proof_of m workers)
    effect (seal request_id proof)
    publish_control plane.out.identity m (sealed_as control proof) "FARM_RELEASED" actor
    pure (sealed_as control proof)

  -- `release_farm`, of a farm that is draining
  unfoldable pub seal_farm : Manifest → Handoff → Act Handoff
  unfolding recover_locked list_tasks issued_workers execution_epoch uncertain_of seal_with any
      is_unsettled
  seal_farm m control = do
    recover_locked
    tasks ← gets (λ w. list_tasks w.disk)
    guard (any is_unsettled tasks) not_surrendered
    workers ← issued_workers (execution_epoch m) tasks
    uncertain ← uncertain_of executor workers
    guard (is_any uncertain) workers_uncertain
    seal_with m control workers

  unfoldable pub release_control : Manifest → Option Handoff → Act Handoff
  unfolding phase_is seal_farm
  release_control m none = raise no_matching_drain
  release_control m (some control) = do
    guard (is_stop control) being_stopped
    guard (control.id != request_id || phase_is claimed (some control)) no_matching_drain
    if phase_is released (some control) then pure control else seal_farm m control

  -- `release_farm`
  unfoldable pub release_farm : Act Handoff
  unfolding require_no_pending_recovery finish_deployment_event release_control
  release_farm = do
    guard (not (not_blank actor)) nameless_handoff
    require_no_pending_recovery
    m ← finish_deployment_event plane.out.identity false
    guard (not (is_at plane.out.identity m.host m)) release_elsewhere
    release_control m m.handoff
