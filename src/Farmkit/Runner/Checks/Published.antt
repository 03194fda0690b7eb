-- ===== src/Farmkit/Runner/Checks/Published.antt =====
-- The outputs of a step whose paths were checked can be published.
use agent_farm_runtime.Prelude.{
  ◌≡◌, refl, ◌∙◌, ap, inl, inr, Bool-cases, some, true, false, List, [], ◌∷◌, ◌++◌, is_yes_iff,
  Chars, chars_eq, Chars-discrete, All,
}
use agent_farm_runtime.Farmkit.Ledger.{Attempt}
use agent_farm_runtime.Farmkit.Steps.{StepSpec}
use agent_farm_runtime.Farmkit.Steps.Paths.{relative_parts, path_problems}
use agent_farm_runtime.Farmkit.Steps.Paths.Laws.{Inside, path_problems-Declared}
use agent_farm_runtime.Farmkit.Act.{Event, State, Outcome, returned, published, Act, note}
use agent_farm_runtime.Farmkit.Runner.{Outside, has_run_dir}
use agent_farm_runtime.Farmkit.Runner.Checks.{below, is_allowed, publish_to, publish_names, publish}

below-append : (ws path : List Chars) → below ws (ws ++ path) ≡ some path
unfolding below
below-append [] path = refl
below-append (w ∷ ws) path = rw ((is_yes_iff (Chars-discrete w w)).1 refl) (below-append ws path)

-- A path that was checked names a place that a publication allows.
Inside-is_allowed :
    (ws : List Chars) (name : Chars)
    → Inside name
    → is_allowed ws (ws ++ relative_parts name) ≡ true
unfolding is_allowed
Inside-is_allowed ws name i = rw (below-append, i.parts, i.no_ledger) refl

module _ (out : Outside) (r : Attempt) where
  -- Each output, in order, that the attempt left and that is not in place already was published.
  pub data Publishes : List Chars → List Event → List Event → Type 0 where
    all_done : {d : List Event} → Publishes [] d d
    not_left :
        {name : Chars} {names : List Chars} {d e : List Event}
        → (out.target d r name).source_exists ≡ false
        → Publishes names d e
        → Publishes (name ∷ names) d e
    in_place :
        {name : Chars} {names : List Chars} {d e : List Event}
        → (out.target d r name).same ≡ true
        → Publishes names d e
        → Publishes (name ∷ names) d e
    copied :
        {name : Chars} {names : List Chars} {d e : List Event}
        → Publishes names (published name ∷ d) e
        → Publishes (name ∷ names) d e

  -- A publication that returned, with the ledger as it was
  pub record Returns (names : List Chars) (s : State) (o : Outcome (Unit {0})) : Type 0 where
    pub then_state : State
    pub returns : o ≡ returned tt then_state
    pub ledger : then_state.ledger ≡ s.ledger
    pub publishes : Publishes names s.done then_state.done

  module _
      (no_links : (d : List Event) (name : Chars)
        → (out.target d r name).resolved ≡ out.workspace ++ relative_parts name)
      (replaces : (d : List Event) (name : Chars) → (out.target d r name).replaces ≡ true) where
    publish_to-Returns :
        (name : Chars) (names : List Chars) (rest : Act (Unit {0})) (s : State)
        → Inside name
        → ((t : State) → Returns names t (rest t))
        → Returns (name ∷ names) s (publish_to out r name (out.target s.done r name) rest s)
    unfolding note
    publish_to-Returns name names rest s i h =
        let t = out.target s.done r name in
        let free =
          ap (is_allowed out.workspace) (no_links s.done name)
          ∙ Inside-is_allowed out.workspace name i in
        let here = h s in
        let noted : State = record { ledger = s.ledger; done = published name ∷ s.done } in
        let there = h noted in
        elim (Bool-cases t.source_exists) [
          | inr e ↦ record {
            then_state = here.then_state;
            returns = rw e here.returns;
            ledger = here.ledger;
            publishes = not_left e here.publishes;
          }
          | inl e ↦ elim (Bool-cases t.same) [
            | inl q ↦ record {
              then_state = here.then_state;
              returns = rw (e, free, q) here.returns;
              ledger = here.ledger;
              publishes = in_place q here.publishes;
            }
            | inr q ↦ record {
              then_state = there.then_state;
              returns = rw (e, free, q, replaces) there.returns;
              ledger = there.ledger;
              publishes = copied there.publishes;
            }
          ]
        ]

    publish_names-Returns :
        (names : List Chars) (s : State)
        → All Inside names
        → Returns names s (publish_names out r names s)
    unfolding publish_names
    publish_names-Returns [] s i = record {
      then_state = s;
      returns = refl;
      ledger = refl;
      publishes = all_done;
    }
    publish_names-Returns (name ∷ names) s (i, is) =
        publish_to-Returns name names (publish_names out r names) s i
          λ t. publish_names-Returns names t is

    -- The outputs of a step whose paths were found without a problem are never refused: if the
    -- attempt has a run directory, no output resolves through a symbolic link, and every
    -- replacement of a destination succeeds, then its publication returns, leaves the ledger as it
    -- is, and publishes each output that the attempt left and that is not in place already.
    pub publish-Returns :
        (spec : StepSpec)
        → path_problems spec ≡ some []
        → has_run_dir r ≡ true
        → (s : State) → Returns spec.outputs s (publish out r spec s)
    unfolding publish
    publish-Returns spec p d s =
        rw d (publish_names-Returns spec.outputs s (path_problems-Declared spec p).outputs)
