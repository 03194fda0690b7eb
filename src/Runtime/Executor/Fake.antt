-- ===== src/Runtime/Executor/Fake.antt =====
-- src/agent_farm_runtime/adapters/fake.py: the executor that records the calls, which are the
-- effects of the run, and answers from them and from what its controls set before.
use agent_farm_runtime.Prelude.{
  String, Option, none, some, Bool, true, false, List, [], ◌∷◌, ◌==◌, string_eq, cat, lookup, put,
  if◌then◌else◌,
}
use agent_farm_runtime.Runtime.Models.{Receipt}
use agent_farm_runtime.Runtime.Result.{ok}
use agent_farm_runtime.Runtime.World.{Effect, launch, resume, stop}
use agent_farm_runtime.Runtime.Executor.{Executor}

pub record FakeExecutor : Type 0 where
  pub alive : List (String × Bool)
  pub receipt : List (String × Receipt)

-- `set_receipt`
unfoldable pub set_receipt : Receipt → FakeExecutor → FakeExecutor
unfolding put
set_receipt r f = record f { receipt = put r.worker_id r f.receipt }

-- `kill`
unfoldable pub kill : String → FakeExecutor → FakeExecutor
unfolding put
kill worker_id f = record f { alive = put worker_id false f.alive }

abbrev or_false : Option Bool → Bool
or_false none = false
or_false (some b) = b

-- `self._alive.get(worker_id, False)` after the calls, the last one first
unfoldable pub alive_after : FakeExecutor → List Effect → String → Bool
unfolding lookup
alive_after f [] worker_id = or_false (lookup worker_id f.alive)
alive_after f (launch task lease ∷ calls) worker_id =
    let before = alive_after f calls worker_id in
    if lease.worker_id == worker_id then true else before
alive_after f (resume task resumed lease ∷ calls) worker_id =
    let before = alive_after f calls worker_id in if resumed == worker_id then true else before
alive_after f (stop stopped ∷ calls) worker_id =
    let before = alive_after f calls worker_id in if stopped == worker_id then false else before
alive_after f (_ ∷ calls) worker_id = alive_after f calls worker_id

-- The executor of the protocol
unfoldable pub fake_executor : FakeExecutor → Executor
unfolding alive_after lookup
fake_executor f = record {
  launch_answer = λ w task lease. ok (some (cat "fake:" lease.worker_id));
  resume_answer = λ w task worker_id lease. ok tt;
  poll_answer = λ w worker_id. ok (record {
    worker_id = worker_id;
    alive = some (alive_after f w.history worker_id);
    receipt = lookup worker_id f.receipt;
    detail = none;
  });
  stop_answer = λ w worker_id. ok tt;
  validate_task = none;
}
