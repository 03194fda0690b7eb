-- ===== src/Runtime/Store/Once.antt =====
-- A commit of src/agent_farm_runtime/store.py writes one journal at most.
use agent_farm_runtime.Prelude.{String, Option, none, false, arith}
use agent_farm_runtime.Runtime.Metadata.{Timestamp}
use agent_farm_runtime.Runtime.Models.{Task, Payload}
use agent_farm_runtime.Runtime.World.{Txn, World, effect, prepare, pure, ◌>>=◌}
use agent_farm_runtime.Runtime.World.Policy.{Safe-pure, Safe-guard, Safe-gets, Safe-lift, Safe-then}
use agent_farm_runtime.Runtime.World.Count.{
  commits, AtMost, AtMost-bind, AtMost-none, AtMost-then, uncommitted,
}
use agent_farm_runtime.Runtime.Store.{Outside, stage_commit, commit_locked, commit}
use agent_farm_runtime.Runtime.Store.Calls.{
  path_for-Safe, current_task-Safe, recover_locked-Safe, require_task_writer-Safe,
}

AtMost-prepare : (txn : Txn) (w : World) → AtMost 1 (effect (prepare txn)) w
unfolding effect commits
AtMost-prepare txn w = record { few = omega arith }

AtMost-prepared {ℓ} :
    {A : Type ℓ} (txn : Txn) (a : A) (w : World) → AtMost 1 (effect (prepare txn) >>= λ u. pure a) w
AtMost-prepared txn a w =
    AtMost-bind w _ _ 1 0 (AtMost-prepare txn w)
      (λ u v. AtMost-none v _ (Safe-pure uncommitted v a))

module _ (out : Outside) (task : Task) (expected : Option Task) (event_type actor : String)
    (payload : Payload) (ts : Option Timestamp) where
  stage_commit-AtMost :
      (w : World) → AtMost 1 (stage_commit out task expected event_type actor payload ts) w
  unfolding stage_commit
  stage_commit-AtMost w =
      search
        (
          AtMost-then, AtMost-prepared, Safe-pure, Safe-guard, Safe-gets, Safe-lift, path_for-Safe,
          current_task-Safe,
        )
        depth 40

  commit_locked-AtMost :
      (w : World) → AtMost 1 (commit_locked out task expected event_type actor payload ts) w
  unfolding commit_locked
  commit_locked-AtMost w = AtMost-then w _ _ 1 (recover_locked-Safe uncommitted w) λ u v.
      AtMost-bind v _ _ 1 0 (stage_commit-AtMost v) λ saved x. AtMost-none x _ (
        Safe-then uncommitted x _ _ (recover_locked-Safe uncommitted x)
          (λ a y. Safe-pure uncommitted y saved))

  -- A commit without a dispatch
  pub commit-AtMost :
      (epoch : Option String) (w : World)
      → AtMost 1 (commit out task expected event_type actor payload ts none epoch) w
  unfolding commit
  commit-AtMost epoch w =
      AtMost-then w _ _ 1 (require_task_writer-Safe uncommitted out.identity false epoch none w)
        λ m v. AtMost-bind v _ _ 1 0 (commit_locked-AtMost v) λ saved x. AtMost-none x _ (
          Safe-then uncommitted x _ _ (Safe-pure uncommitted x tt)
            (λ a y. Safe-pure uncommitted y saved))
