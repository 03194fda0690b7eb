-- ===== src/Runtime/Executor.antt =====
-- src/agent_farm_runtime/adapters/base.py: the boundary to the worker backends. A call that acts is
-- an effect, made whether or not the call then raises; an answer may depend on all that went before.
pub mod Fake
use agent_farm_runtime.Prelude.{String, Option, Bool}
use agent_farm_runtime.Runtime.Models.{Lease, Task, Receipt}
use agent_farm_runtime.Runtime.Result.{Result}
use agent_farm_runtime.Runtime.World.{launch, resume, stop, World, Act, ask, effect, ◌>>=◌, ◌>>◌}

-- `alive` is none when nothing is known.
pub record WorkerObservation : Type 0 where
  pub worker_id : String
  pub alive : Option Bool
  pub receipt : Option Receipt
  pub detail : Option String

-- The answers of a `WorkerExecutor`; `validate_task` is there for some executors only.
pub record Executor : Type 0 where
  pub launch_answer : World → Task → Lease → Result (Option String)
  pub resume_answer : World → Task → String → Lease → Result (Unit {0})
  pub poll_answer : World → String → Result WorkerObservation
  pub stop_answer : World → String → Result (Unit {0})
  pub validate_task : Option (World → Task → Result (Unit {0}))

module _ (executor : Executor) where
  unfoldable pub launch_worker : Task → Lease → Act (Option String)
  launch_worker task lease = do
    effect (launch task lease)
    ask (λ w. executor.launch_answer w task lease)

  unfoldable pub resume_worker : Task → String → Lease → Act (Unit {0})
  resume_worker task worker_id lease = do
    effect (resume task worker_id lease)
    ask (λ w. executor.resume_answer w task worker_id lease)

  unfoldable pub poll : String → Act WorkerObservation
  poll worker_id = ask (λ w. executor.poll_answer w worker_id)

  unfoldable pub stop_worker : String → Act (Unit {0})
  stop_worker worker_id = do effect (stop worker_id); ask (λ w. executor.stop_answer w worker_id)
