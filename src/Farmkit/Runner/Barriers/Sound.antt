-- ===== src/Farmkit/Runner/Barriers/Sound.antt =====
-- The barriers of src/farmkit/runner.py keep the ledger coherent.
use agent_farm_runtime.Prelude.{String, List, Chars}
use agent_farm_runtime.Farmkit.Ledger.{Attempt}
use agent_farm_runtime.Farmkit.Steps.{StepSpec}
use agent_farm_runtime.Farmkit.Act.{State, pure}
use agent_farm_runtime.Farmkit.Act.Sound.{Coherent, Sound, returns, Sound-bind}
use agent_farm_runtime.Farmkit.Intent.Sound.{submit-Sound}
use agent_farm_runtime.Farmkit.Runner.{Outside}
use agent_farm_runtime.Farmkit.Act.Logic.{soundness}
use agent_farm_runtime.Farmkit.Runner.Barriers.Walk.{barriers-Keeps}
use agent_farm_runtime.Farmkit.Ledger.Laws.{all_attempts-Reads}
use agent_farm_runtime.Farmkit.Runner.Barriers.{added, submit_barrier, barriers}

module _ (out : Outside) (specs : List StepSpec) where
  submit_barrier-Sound :
      (group : String) (jobs : List Chars) (rows : List Attempt) (s : State)
      → Sound (submit_barrier out specs group jobs rows s)
  unfolding submit_barrier
  submit_barrier-Sound group jobs rows s =
      Sound-bind (λ (r' : Attempt). pure (added out specs group r'.submit))
        (submit-Sound out.env _ _ s) (λ r' t d. returns d)

  pub barriers-Sound : (s : State) → Coherent s → Sound (barriers out specs s)
  barriers-Sound =
      barriers-Keeps soundness out specs (λ s c. (all_attempts-Reads s.ledger c).coherent)
        (λ group jobs rows s c. submit_barrier-Sound group jobs rows s)
