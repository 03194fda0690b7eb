-- ===== src/Farmkit/Act/Sound.antt =====
-- Actions on the ledger that keep its cache coherent and do not run out of fuel.
use agent_farm_runtime.Prelude.{◌≢◌, Bool, true, false, List, Chars, if◌then◌else◌}
use agent_farm_runtime.Farmkit.Ledger.{Attempt}
use agent_farm_runtime.Farmkit.Ledger.Laws.{IsCoherent, all_attempts-Reads, save-IsCoherent}
use agent_farm_runtime.Farmkit.Act.{
  State, Env, Outcome, returned, raised, Raised, index_error, steps_error, no_fuel, Act, go_on,
  read_rows, store, call,
}

abbrev pub Coherent : State → Type 0
Coherent s = IsCoherent s.ledger

-- What an action that began with a coherent ledger ends with.
pub data Sound {A : Type 0} : Outcome A → Type 0 where
  returns : {a : A} {s : State} → Coherent s → Sound (returned a s)
  fails : {e : Raised} {s : State} → e ≢ no_fuel → Sound (raised e s)

pub Sound-bind :
    {A B : Type 0} (f : A → Act B) {o : Outcome A}
    → Sound o
    → ((a : A) (s : State) → Coherent s → Sound (f a s))
    → Sound (go_on o f)
Sound-bind f (returns c) h = h _ _ c
Sound-bind f (fails n) h = fails n

pub if-Sound :
    {A : Type 0} (b : Bool) (m k : Act A) (s : State)
    → Sound (m s)
    → Sound (k s)
    → Sound ((if b then m else k) s)
if-Sound true m k s h g = h
if-Sound false m k s h g = g

pub read_rows-Sound : (s : State) → Coherent s → Sound (read_rows s)
unfolding read_rows
read_rows-Sound s c = returns (all_attempts-Reads s.ledger c).coherent

pub store-Sound : (env : Env) (r : Attempt) (s : State) → Sound (store env r s)
unfolding store
store-Sound env r s = returns (save-IsCoherent (env.clock s.done) r s.ledger)

pub call-Sound : (env : Env) (argv : List Chars) (s : State) → Coherent s → Sound (call env argv s)
unfolding call
call-Sound env argv s c = returns c

pub no_index : index_error ≢ no_fuel
no_index h = absurd (cc)

pub no_steps : steps_error ≢ no_fuel
no_steps h = absurd (cc)
