-- ===== src/Farmkit/Runner/Bounded/Barriers.antt =====
-- The barriers of src/farmkit/runner.py write no automatic retry.
use agent_farm_runtime.Prelude.{refl, String, List, Chars}
use agent_farm_runtime.Farmkit.Ledger.{Attempt}
use agent_farm_runtime.Farmkit.Steps.{StepSpec}
use agent_farm_runtime.Farmkit.Act.{State, pure}
use agent_farm_runtime.Farmkit.Act.Kept.{Kept, gives, Kept-bind}
use agent_farm_runtime.Farmkit.Runner.{Outside}
use agent_farm_runtime.Farmkit.Act.Logic.{keeping}
use agent_farm_runtime.Farmkit.Runner.Barriers.Walk.{barriers-Keeps}
use agent_farm_runtime.Farmkit.Runner.Barriers.{added, submit_barrier, barriers}
use agent_farm_runtime.Farmkit.Runner.Bounded.Writes.{Limit, Bounded, read-Bounded}
use agent_farm_runtime.Farmkit.Runner.Bounded.Submitted.{submit-Kept}
use agent_farm_runtime.Farmkit.Runner.Bounded.Launched.{not_begun}

module _ (limit : Limit) (out : Outside) (specs : List StepSpec) where
  submit_barrier-Kept :
      (group : String) (jobs : List Chars) (rows : List Attempt) (s : State)
      → Bounded limit s
      → Kept (Bounded limit) (submit_barrier out specs group jobs rows s)
  unfolding submit_barrier
  submit_barrier-Kept group jobs rows s b =
      Kept-bind (Bounded limit) (λ (r' : Attempt). pure (added out specs group r'.submit))
        (submit-Kept limit out _ _ s refl not_begun b) (λ r' t d. gives d)

  pub barriers-Kept : (s : State) → Bounded limit s → Kept (Bounded limit) (barriers out specs s)
  barriers-Kept =
      barriers-Keeps (keeping (Bounded limit)) out specs (read-Bounded limit) submit_barrier-Kept
