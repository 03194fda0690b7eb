-- ===== src/Farmkit/Act/Logic.antt =====
-- What is kept through an action of src/farmkit: a property of states, and what it makes of an
-- outcome.
use agent_farm_runtime.Prelude.{Bool, true, false, if◌then◌else◌}
use agent_farm_runtime.Farmkit.Act.{State, Outcome, returned, Act, go_on}
use agent_farm_runtime.Farmkit.Act.Sound.{Coherent, Sound, returns, Sound-bind}
use agent_farm_runtime.Farmkit.Act.Kept.{Kept, gives, Kept-bind}

pub record Logic : Type 1 where
  pub Holds : State → Type 0
  pub Keeps : (A : Type 0) → Outcome A → Type 0
  pub give : (A : Type 0) (a : A) (s : State) → Holds s → Keeps A (returned a s)
  pub bind :
      (A B : Type 0) (f : A → Act B) (o : Outcome A)
      → Keeps A o
      → ((a : A) (s : State) → Holds s → Keeps B (f a s))
      → Keeps B (go_on o f)

-- The action ends in time, and keeps the cache of the ledger coherent if it returns.
abbrev pub soundness : Logic
soundness = record {
  Holds = Coherent;
  Keeps = λ A. Sound {A = A};
  give = λ A a s c. returns c;
  bind = λ A B f o h k. Sound-bind f h k;
}

-- The property holds after the action, also if it raises.
abbrev pub keeping : (State → Type 0) → Logic
keeping P = record {
  Holds = P;
  Keeps = λ A. Kept P {A = A};
  give = λ A a s p. gives p;
  bind = λ A B f o h k. Kept-bind P f h k;
}

module _ (L : Logic) {A : Type 0} (m k : Act A) (s : State) where
  pub if_keeps : (b : Bool) → L.Keeps A (m s) → L.Keeps A (k s) → L.Keeps A ((if b then m else k) s)
  if_keeps true h g = h
  if_keeps false h g = g
