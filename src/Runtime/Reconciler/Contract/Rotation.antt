-- ===== src/Runtime/Reconciler/Contract/Rotation.antt =====
-- `request_rotation` of src/agent_farm_runtime/turnover.py keeps the contract of the reconciler: it
-- changes only metadata.
use agent_farm_runtime.Prelude.{refl, String, Option, none, some, ℕ, List}
use agent_farm_runtime.Runtime.Metadata.{Entry, missing, null, value, Surrender, RotationRequest}
use agent_farm_runtime.Runtime.Models.{Lease, Task, Worker}
use agent_farm_runtime.Runtime.World.{World}
use agent_farm_runtime.Runtime.World.Policy.{Safe, Safe-pure, safe_rules}
use agent_farm_runtime.Runtime.Rotation.{
  request_rotation, request_of, attached, record_request, surrendered_as, or_needs_lease,
}
use agent_farm_runtime.Runtime.Store.Calls.{get_task-Safe, commit-Safe}
use agent_farm_runtime.Runtime.Reconciler.{Env}
use agent_farm_runtime.Runtime.Reconciler.Moves.{notes, contract}
use agent_farm_runtime.Runtime.Files.{snapshot_file}

module _ (env : Env) (workers : List Worker) where
  or_needs_lease-Safe :
      (o : Option Lease) (w : World) → Safe (contract env workers) (or_needs_lease o) w
  or_needs_lease-Safe none w = search safe_rules
  or_needs_lease-Safe (some l) w = search safe_rules

  surrendered_as-Safe :
      (request_id : String) (o : Entry Surrender) (w : World)
      → Safe (contract env workers) (surrendered_as request_id o) w
  surrendered_as-Safe request_id missing w = search safe_rules
  surrendered_as-Safe request_id null w = search safe_rules
  surrendered_as-Safe request_id (value s) w = search safe_rules

  record_request-Safe :
      (task : Task) (request : RotationRequest) (actor : String) (w : World)
      → Safe (contract env workers) (record_request env.outside env.files task request actor) w
  unfolding record_request
  record_request-Safe task request actor w =
      commit-Safe (contract env workers) env.outside
        (record task { metadata = record task.metadata { rotation_request = value request } })
        (some task) _ _ _ none (λ v. record { before = task; same = refl; move = notes refl refl })
        none none w (λ v t e k. tt)

  attached-Safe :
      (o : Option String) (w : World)
      → Safe (contract env workers) (attached env.outside env.files o) w
  unfolding attached snapshot_file
  attached-Safe none w = Safe-pure (contract env workers) w none
  attached-Safe (some path) w = search safe_rules depth 20

  request_of-Safe :
      (task : Task) (revision : ℕ) (request_id actor : String) (file : Option String) (w : World)
      → Safe
          (contract env workers)
          (request_of env.outside env.files task revision request_id actor file)
          w
  unfolding request_of
  request_of-Safe task revision request_id actor file w =
      search (safe_rules, attached-Safe, record_request-Safe, or_needs_lease-Safe) depth 30

  pub request_rotation-Safe :
      (task_id : String) (revision : ℕ) (request_id actor : String) (file : Option String)
      (w : World)
      → Safe
          (contract env workers)
          (request_rotation env.outside env.files task_id revision request_id actor file)
          w
  unfolding request_rotation
  request_rotation-Safe task_id revision request_id actor file w =
      let got = get_task-Safe (contract env workers) task_id in
      search (safe_rules, got, surrendered_as-Safe, request_of-Safe) depth 30
