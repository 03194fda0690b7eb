-- ===== src/Farmkit/Act/Rules.antt =====
-- What the ledger holds after a write.
use agent_farm_runtime.Prelude.{
  true, ◌≡◌, refl, String, some, lookup, lookup-put, ◌==◌, string_eq, List, ◌∷◌, string_dec,
  is_yes_iff,
}
use agent_farm_runtime.Farmkit.Ledger.{Attempt, save, all_attempts}
use agent_farm_runtime.Farmkit.Act.{Event, State, Env, wrote}

pub str_eq_self : (k : String) → (k == k) ≡ true
str_eq_self k = (is_yes_iff (string_dec k k)).1 refl

module _ (env : Env) (r : Attempt) (s : State) where
  -- The record that is written, the state after it, and that its file holds it.
  abbrev pub stamped : Attempt
  stamped = record r { updated_ts = some (env.clock s.done) }

  abbrev pub stored : State
  stored = record { ledger = save (env.clock s.done) r s.ledger; done = wrote stamped ∷ s.done }

  pub lookup-stored : lookup r.attempt_id stored.ledger.files ≡ some stamped
  unfolding save all_attempts
  lookup-stored =
      rw (lookup-put r.attempt_id r.attempt_id stamped s.ledger.files, str_eq_self r.attempt_id)

-- What was done since, each of it with a property.
pub data Since (P : Event → Type 0) (old : List Event) : List Event → Type 0 where
  nothing : Since P old old
  then_done : (e : Event) {es : List Event} → Since P old es → P e → Since P old (e ∷ es)

pub Since-trans :
    {P : Event → Type 0} {a b c : List Event} → Since P a b → Since P b c → Since P a c
Since-trans h nothing = h
Since-trans h (then_done e k p) = then_done e (Since-trans h k) p
