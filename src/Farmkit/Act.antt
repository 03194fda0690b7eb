-- ===== src/Farmkit/Act.antt =====
-- The methods of src/farmkit that write the ledger: actions on the ledger and on the record of what
-- was done. An action that raises keeps what it did. What programs answer may depend on all that
-- was done before.
pub mod Rules
pub mod Sound
pub mod Kept
pub mod Logic
use agent_farm_runtime.Prelude.{ℕ, String, Option, some, Bool, List, ◌∷◌, Chars}
use agent_farm_runtime.Farmkit.Ledger.{Attempt, Ledger, save, all_attempts}

-- What a program that ended gave: whether its exit code was 0, and what it printed.
pub record Proc : Type 0 where
  pub succeeded : Bool
  pub stdout : Chars

-- A file of the ledger that was written, a program that was called with its arguments, a local run
-- of a step, or an output that was published.
pub data Event : Type 0 where
  wrote : Attempt → Event
  called : List Chars → Event
  ran : String → Event
  published : Chars → Event

-- The ledger, and what was done, the last first.
pub record State : Type 0 where
  pub ledger : Ledger
  pub done : List Event

-- The clock, and the programs: none if a call does not return in time.
pub record Env : Type 0 where
  pub clock : List Event → ℕ
  pub run : List Event → List Chars → Option Proc

-- The exceptions that no method handles; `no_fuel` is of the model, which counts the launches within
-- a launch.
pub data Raised : Type 0 where
  index_error steps_error no_fuel : Raised

pub data Outcome (A : Type 0) : Type 0 where
  returned : A → State → Outcome A
  raised : Raised → State → Outcome A

abbrev pub Act : Type 0 → Type 0
Act A = State → Outcome A

infixl 10 ◌>>=◌ ◌>>◌
abbrev pub go_on : {A B : Type 0} → Outcome A → (A → Act B) → Outcome B
go_on (returned a s) f = f a s
go_on (raised e s) f = raised e s

abbrev pub ◌>>=◌ : {A B : Type 0} → Act A → (A → Act B) → Act B
◌>>=◌ m f s = go_on (m s) f

abbrev pub ◌>>◌ : {A B : Type 0} → Act A → Act B → Act B
m >> k = m >>= λ _. k

abbrev pub pure : {A : Type 0} → A → Act A
pure a s = returned a s

abbrev pub raise : {A : Type 0} → Raised → Act A
raise e s = raised e s

-- `self.ledger.all()`
unfoldable pub read_rows : Act (List Attempt)
read_rows s =
    let (l, rows) = all_attempts s.ledger in returned rows (record { ledger = l; done = s.done })

unfoldable pub note : Event → Act (Unit {0})
note e s = returned tt (record { ledger = s.ledger; done = e ∷ s.done })

module _ (env : Env) where
  -- `ledger.save(record)`, which gives the record back
  unfoldable pub store : Attempt → Act Attempt
  store r s =
      let now = env.clock s.done in
      let r' = record r { updated_ts = some now } in
      returned r' (record { ledger = save now r s.ledger; done = wrote r' ∷ s.done })

  -- `run(argv)`
  unfoldable pub call : List Chars → Act (Option Proc)
  call argv s =
      returned (env.run s.done argv) (record { ledger = s.ledger; done = called argv ∷ s.done })
