-- ===== src/Farmkit/Runner/Checks/Sound.antt =====
-- The verification and the publication of src/farmkit/runner.py keep the ledger coherent.
use agent_farm_runtime.Prelude.{
  ◌≡◌, refl, inl, inr, String, Option, none, some, Bool-cases, chars_eq, nonempty,
}
use agent_farm_runtime.Farmkit.Ledger.{Attempt}
use agent_farm_runtime.Farmkit.Ledger.Laws.{all_attempts-Reads}
use agent_farm_runtime.Farmkit.Steps.{StepSpec}
use agent_farm_runtime.Farmkit.Act.{State, Outcome, returned, read_rows}
use agent_farm_runtime.Farmkit.Act.Sound.{Coherent, Sound, fails, no_steps}
use agent_farm_runtime.Farmkit.Runner.{Outside}
use agent_farm_runtime.Farmkit.Act.Logic.{soundness}
use agent_farm_runtime.Farmkit.Runner.Checks.Walk.{publish-Keeps}
use agent_farm_runtime.Farmkit.Runner.Checks.{Gate, gate_record, gate_named, gate_of, publish}

module _ (out : Outside) (spec : StepSpec) where
  pub publish-Sound : (r : Attempt) (s : State) → Coherent s → Sound (publish out r spec s)
  publish-Sound = publish-Keeps soundness out (λ e s c. c) (λ s c. fails no_steps) spec

  -- The gate is read, and the files stay.
  pub data GateRead (s : State) : Outcome Gate → Type 0 where
    gate_read :
        {g : Gate} {t : State}
        → t.ledger.files ≡ s.ledger.files
        → Coherent t
        → GateRead s (returned g t)

  gate_named-GateRead : (g : String) (s : State) → Coherent s → GateRead s (gate_named g s)
  unfolding read_rows
  gate_named-GateRead g s c = elim (Bool-cases (nonempty g)) [
    | inl e ↦ let k = all_attempts-Reads s.ledger c in rw e (gate_read k.kept k.coherent)
    | inr e ↦ rw e (gate_read refl c)
  ]

  gate_of-GateRead : (o : Option String) (s : State) → Coherent s → GateRead s (gate_of o s)
  gate_of-GateRead none s c = gate_read refl c
  gate_of-GateRead (some g) s c = gate_named-GateRead g s c

  pub gate_record-GateRead : (s : State) → Coherent s → GateRead s (gate_record spec s)
  unfolding gate_record
  gate_record-GateRead s c = gate_of-GateRead spec.gate s c
