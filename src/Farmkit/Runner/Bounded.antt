-- ===== src/Farmkit/Runner/Bounded.antt =====
-- The automatic retries of the steps of src/farmkit/runner.py stay within their budgets.
pub mod Counts
pub mod Records
pub mod Writes
pub mod Submitted
pub mod Launched
pub mod Barriers
pub mod Settled
pub mod Intents
pub mod Ended
use agent_farm_runtime.Prelude.{All-map, ℕ, Option, none, some, List, All, arith, string_eq}
use agent_farm_runtime.Farmkit.Steps.{StepSpec}
use agent_farm_runtime.Farmkit.Act.{State, pure}
use agent_farm_runtime.Farmkit.Act.Kept.{Kept, gives, Kept-bind}
use agent_farm_runtime.Farmkit.Intent.{Lookup}
use agent_farm_runtime.Farmkit.Runner.{Outside}
use agent_farm_runtime.Farmkit.Runner.Tick.{observed_as, reconcile_with, tick}
use agent_farm_runtime.Farmkit.Runner.Bounded.Records.{Sane}
use agent_farm_runtime.Farmkit.Runner.Bounded.Writes.{Limit, Bounded, read-Bounded, rows-Sane}
use agent_farm_runtime.Farmkit.Runner.Bounded.Intents.{reconcile_all-Kept}
use agent_farm_runtime.Farmkit.Runner.Bounded.Launched.{launch-Kept}
use agent_farm_runtime.Farmkit.Runner.Bounded.Barriers.{barriers-Kept}
use agent_farm_runtime.Farmkit.Runner.Bounded.Settled.{Leaves}
use agent_farm_runtime.Farmkit.Runner.Bounded.Ended.{
  own-Kept, observe_one-Kept, unfinalized-Ending, flying_settled,
}
use agent_farm_runtime.Farmkit.Act.Logic.{keeping}
use agent_farm_runtime.Farmkit.Runner.Tick.Walk.{Parts, tick-Keeps}

module _ (limit : Limit) (out : Outside) (specs : List StepSpec) (fuel : ℕ)
    (leaves : All (Leaves limit) specs) where
  reconcile_with-Kept :
      (o : Option Lookup) (s : State)
      → Bounded limit s
      → Kept (Bounded limit) (reconcile_with out specs o s)
  reconcile_with-Kept none s b = gives b
  reconcile_with-Kept (some lookup_jobs) s b =
      Kept-bind (Bounded limit) (λ _. pure tt) (reconcile_all-Kept limit out lookup_jobs s b)
        (λ _ t d. gives d)

  parts : Parts (keeping (Bounded limit)) Sane out specs fuel
  parts = record {
    reads = read-Bounded limit;
    rows = rows-Sane limit;
    intents = reconcile_with-Kept out.accounting;
    ends = λ r s q e b. own-Kept limit out specs fuel leaves r s (unfinalized-Ending r q e) b;
    observes = λ states r s q e b.
        let (u, o) = flying_settled r q e in
        observe_one-Kept limit out specs fuel leaves (observed_as out specs states r) s u o b;
    launches = All-map (Leaves limit) (λ spec l. launch-Kept limit out spec l fuel) specs leaves;
    submits = barriers-Kept limit out specs;
  }

  -- If a limit leaves every step of the table its budget of each class, then a tick keeps the
  -- automatic retries of each step and class within the limit, whatever the jobs, the runs, the
  -- checks and the programs give, and also if it raises; the cache of the ledger goes on to agree
  -- with the files, every attempt that was retried has ended, and none that has ended is an open
  -- intent, if that was so before.
  pub tick-Bounded : (s : State) → Bounded limit s → Kept (Bounded limit) (tick out specs fuel s)
  tick-Bounded = tick-Keeps (keeping (Bounded limit)) out specs fuel parts
