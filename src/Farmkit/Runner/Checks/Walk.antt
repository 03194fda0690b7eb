-- ===== src/Farmkit/Runner/Checks/Walk.antt =====
-- A publication keeps what a note of it and a refusal keep.
use agent_farm_runtime.Prelude.{not, List, [], ◌∷◌, Chars}
use agent_farm_runtime.Farmkit.Ledger.{Attempt}
use agent_farm_runtime.Farmkit.Steps.{StepSpec}
use agent_farm_runtime.Farmkit.Act.{Act, State, Event, published, raised, note, steps_error}
use agent_farm_runtime.Farmkit.Act.Logic.{Logic, if_keeps}
use agent_farm_runtime.Farmkit.Runner.{Outside, Target, has_run_dir}
use agent_farm_runtime.Farmkit.Runner.Checks.{publish_to, publish_names, publish, is_allowed}

module _ (L : Logic) (out : Outside)
    (notes : (e : Event) (s : State)
      → L.Holds s
      → L.Holds (record { ledger = s.ledger; done = e ∷ s.done }))
    (refuses : (s : State) → L.Holds s → L.Keeps (Unit {0}) (raised steps_error s)) where
  publish_to-Keeps :
      (r : Attempt) (name : Chars) (t : Target) (rest : Act (Unit {0})) (s : State)
      → L.Holds s
      → ((u : State) → L.Holds u → L.Keeps (Unit {0}) (rest u))
      → L.Keeps (Unit {0}) (publish_to out r name t rest s)
  unfolding note
  publish_to-Keeps r name t rest s p h = if_keeps L _ _ s (not t.source_exists) (h s p) (
      if_keeps L _ _ s (not (is_allowed out.workspace t.resolved)) (refuses s p) (
        if_keeps L _ _ s t.same (h s p)
          (if_keeps L _ _ s t.replaces (h _ (notes (published name) s p)) (refuses s p))))

  publish_names-Keeps :
      (r : Attempt) (names : List Chars) (s : State)
      → L.Holds s
      → L.Keeps (Unit {0}) (publish_names out r names s)
  unfolding publish_names
  publish_names-Keeps r [] s p = L.give _ _ s p
  publish_names-Keeps r (name ∷ names) s p =
      publish_to-Keeps r name (out.target s.done r name) (publish_names out r names) s p
        (publish_names-Keeps r names)

  pub publish-Keeps :
      (spec : StepSpec) (r : Attempt) (s : State)
      → L.Holds s
      → L.Keeps (Unit {0}) (publish out r spec s)
  unfolding publish
  publish-Keeps spec r s p =
      if_keeps L _ _ s (has_run_dir r) (publish_names-Keeps r spec.outputs s p) (L.give _ _ s p)
