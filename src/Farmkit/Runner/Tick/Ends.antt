-- ===== src/Farmkit/Runner/Tick/Ends.antt =====
-- A tick of src/farmkit/runner.py ends, and keeps the ledger coherent.
use agent_farm_runtime.Prelude.{
  All-map, All-always, ◌≡◌, ℕ, ◌<◌, Option, none, some, List, [], lookup, All, arith, string_eq,
}
use agent_farm_runtime.Farmkit.Classify.{is_terminal}
use agent_farm_runtime.Farmkit.Ledger.{Attempt, state_of}
use agent_farm_runtime.Farmkit.Ledger.Laws.{save-IsCoherent}
use agent_farm_runtime.Farmkit.Steps.{StepSpec}
use agent_farm_runtime.Farmkit.Act.{State, store, pure}
use agent_farm_runtime.Farmkit.Act.Sound.{
  Coherent, Sound, returns, Sound-bind, if-Sound, store-Sound,
}
use agent_farm_runtime.Farmkit.Act.Logic.{soundness}
use agent_farm_runtime.Farmkit.Ledger.Laws.{all_attempts-Reads}
use agent_farm_runtime.Farmkit.Ledger.{all_attempts}
use agent_farm_runtime.Farmkit.Runner.Tick.Walk.{
  Parts, tick-Keeps, Found, not_found, is_found, spec_of-Found,
}
use agent_farm_runtime.Farmkit.Intent.{Lookup}
use agent_farm_runtime.Farmkit.Intent.Sound.{reconcile_all-Sound}
use agent_farm_runtime.Farmkit.Runner.{Outside}
use agent_farm_runtime.Farmkit.Runner.Barriers.Sound.{barriers-Sound}
use agent_farm_runtime.Farmkit.Runner.Launch.{finalize, launch}
use agent_farm_runtime.Farmkit.Runner.Launch.Retries.{budget_of, left-le-budget_of}
use agent_farm_runtime.Farmkit.Runner.Launch.Fuel.{finalize-Sound}
use agent_farm_runtime.Farmkit.Runner.Launch.Termination.{launch-Sound-at}
use agent_farm_runtime.Farmkit.Runner.Tick.{
  spec_of, take_as_passed, finalize_as, observed_as, observe_one, reconcile_with, tick,
}

-- The fuel is more than the budget of a step.
abbrev pub Covers : ℕ → StepSpec → Type 0
Covers fuel spec = budget_of spec < fuel

module _ (out : Outside) (specs : List StepSpec) (fuel : ℕ)
    (fresh : (s : State) → lookup (out.fresh_id s) s.ledger.files ≡ none)
    (enough : All (Covers fuel) specs) where
  launch_of-Sound :
      (spec : StepSpec)
      → Covers fuel spec
      → (s : State) → Coherent s
      → Sound (launch out spec fuel s)
  launch_of-Sound spec h s c =
      launch-Sound-at out spec fresh fuel s c
        (let l = left-le-budget_of spec s.ledger.files in omega arith)

  end-Sound :
      (spec : StepSpec) (r : Attempt) (s : State)
      → Covers fuel spec
      → Coherent s
      → Sound (finalize out spec (launch out spec fuel) r s)
  end-Sound spec r s h c =
      finalize-Sound out spec (launch out spec fuel) r s c
        (λ r' t q f d cls l u t' d' g. launch_of-Sound spec h t' d')

  take_as_passed-Sound : (r : Attempt) (s : State) → Sound (take_as_passed out specs r s)
  unfolding store
  take_as_passed-Sound r s = returns (save-IsCoherent _ _ _)

  finalize_as-Sound :
      (r : Attempt) (s : State) {o : Option StepSpec}
      → Found (Covers fuel) r.step o
      → Coherent s
      → Sound (finalize_as out specs fuel r o s)
  finalize_as-Sound r s not_found c = take_as_passed-Sound r s
  finalize_as-Sound r s (is_found {spec} own h) c = end-Sound spec r s h c

  own-Sound :
      (r : Attempt) (s : State)
      → Coherent s
      → Sound (finalize_as out specs fuel r (spec_of out specs r.step specs) s)
  own-Sound r s c =
      finalize_as-Sound r s (spec_of-Found (Covers fuel) out specs r.step specs enough) c

  observe_one-Sound :
      (r : Attempt) (s : State) → Coherent s → Sound (observe_one out specs fuel r s)
  observe_one-Sound r s c =
      if-Sound (is_terminal (state_of r)) _ _ s (own-Sound r s c)
        (Sound-bind (λ _. pure []) (store-Sound out.env r s) (λ _ t d. returns d))

  reconcile_with-Sound :
      (o : Option Lookup) (s : State) → Coherent s → Sound (reconcile_with out specs o s)
  reconcile_with-Sound none s c = returns c
  reconcile_with-Sound (some lookup_jobs) s c =
      Sound-bind (λ _. pure tt) (reconcile_all-Sound out.env lookup_jobs s c) (λ _ t d. returns d)

  parts : Parts soundness (λ r. Unit) out specs fuel
  parts = record {
    reads = λ s c. (all_attempts-Reads s.ledger c).coherent;
    rows = λ s c. All-always (λ r. Unit) (λ r. tt) (all_attempts s.ledger).1;
    intents = reconcile_with-Sound out.accounting;
    ends = λ r s q e c. own-Sound r s c;
    observes = λ states r s q e c. observe_one-Sound (observed_as out specs states r) s c;
    launches = All-map (Covers fuel) launch_of-Sound specs enough;
    submits = barriers-Sound out specs;
  }

  -- From a coherent cache of the ledger, a tick ends within the fuel that the budgets of its steps
  -- allow, with a report or an exception of the source, if no id of an attempt is drawn twice; if it
  -- reports, the cache of the ledger agrees with its files.
  pub tick-Sound : (s : State) → Coherent s → Sound (tick out specs fuel s)
  tick-Sound = tick-Keeps soundness out specs fuel parts
