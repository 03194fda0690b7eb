-- ===== src/Farmkit/Act/Kept.antt =====
-- What an action of src/farmkit leaves true, whether it returns or raises.
use agent_farm_runtime.Prelude.{Bool, true, false, if◌then◌else◌}
use agent_farm_runtime.Farmkit.Act.{State, Outcome, returned, raised, Raised, Act, go_on}

pub data Kept (P : State → Type 0) {A : Type 0} : Outcome A → Type 0 where
  gives : {a : A} {s : State} → P s → Kept P (returned a s)
  breaks : {e : Raised} {s : State} → P s → Kept P (raised e s)

module _ (P : State → Type 0) where
  pub Kept-bind :
      {A B : Type 0} (f : A → Act B) {o : Outcome A}
      → Kept P o
      → ((a : A) (s : State) → P s → Kept P (f a s))
      → Kept P (go_on o f)
  Kept-bind f (gives p) h = h _ _ p
  Kept-bind f (breaks p) h = breaks p

  pub if-Kept :
      {A : Type 0} (b : Bool) (m k : Act A) (s : State)
      → Kept P (m s)
      → Kept P (k s)
      → Kept P ((if b then m else k) s)
  if-Kept true m k s h g = h
  if-Kept false m k s h g = g
