-- ===== src/Runtime/Handoff/Release/Workers.antt =====
-- What the answers of the executor say of the workers that a release asks for.
use agent_farm_runtime.Prelude.{
  some, ◌≡◌, refl, sym, ◌∙◌, String, Bool, true, false, List, [], ◌∷◌, arith, All, string_eq,
  if◌then◌else◌,
}
use agent_farm_runtime.Runtime.Models.{Task}
use agent_farm_runtime.Runtime.Metadata.{Entry, missing, null, value, Dispatches}
use agent_farm_runtime.Runtime.Result.{Result, ok, err}
use agent_farm_runtime.Runtime.World.{Effect, World, Act, ◌>>=◌, pure, raise, ask}
use agent_farm_runtime.Runtime.World.Rules.{on_ok, ask-bind, bound, pure-ok}
use agent_farm_runtime.Runtime.World.Silent.{silent-bind, silent-pure}
use agent_farm_runtime.Runtime.Executor.{Executor, WorkerObservation, poll}
use agent_farm_runtime.Runtime.Handoff.Release.{
  issued_by, issued_workers, is_dead, uncertain_of, is_any,
}

-- The executor says, as things are, that a worker is not alive.
pub record Dead (executor : Executor) (w : World) (id : String) : Type 0 where
  pub observation : WorkerObservation
  pub polled : executor.poll_answer w id ≡ ok observation
  pub gone : observation.alive ≡ some false

pub issued_by-silent :
    (epoch : String) (e : Entry Dispatches) (w : World) → (issued_by epoch e w).1 ≡ []
unfolding pure raise
issued_by-silent epoch missing w = refl
issued_by-silent epoch null w = refl
issued_by-silent epoch (value d) w = refl

pub issued_workers-silent :
    (epoch : String) (ts : List Task) (w : World) → (issued_workers epoch ts w).1 ≡ []
unfolding issued_workers
issued_workers-silent epoch [] w = silent-pure [] w
issued_workers-silent epoch (t ∷ rest) w =
    silent-bind _ w (issued_by epoch t.metadata.dispatches)
      (issued_by-silent epoch t.metadata.dispatches w)
      λ here.
        silent-bind _ w (issued_workers epoch rest) (issued_workers-silent epoch rest w)
          λ later. silent-pure _ w

module _ (executor : Executor) (w : World) where
  poll-silent : (id : String) → (poll executor id w).1 ≡ []
  unfolding poll ask
  poll-silent id = refl

  pub uncertain_of-silent : (ids : List String) → (uncertain_of executor ids w).1 ≡ []
  unfolding uncertain_of
  uncertain_of-silent [] = silent-pure [] w
  uncertain_of-silent (id ∷ rest) = silent-bind _ w (poll executor id) (poll-silent id) λ o.
      silent-bind _ w (uncertain_of executor rest) (uncertain_of-silent rest)
        λ later. silent-pure _ w

  is_dead-alive : (o : WorkerObservation) → is_dead o ≡ true → o.alive ≡ some false
  is_dead-alive o h = ground arith

  abbrev later_of : String → WorkerObservation → List String → Act (List String)
  later_of id o later = pure (if is_dead o then later else id ∷ later)

  module _ (id : String) (rest us : List String) (es : List Effect) (n : is_any us ≡ false)
      (again : (ys : List String) (fs : List Effect)
        → uncertain_of executor rest w ≡ (ok ys, fs)
        → is_any ys ≡ false
        → All (Dead executor w) rest) where
    settled-Dead :
        (o : WorkerObservation) (fs : List Effect) (ys : List String)
        → executor.poll_answer w id ≡ ok o
        → uncertain_of executor rest w ≡ (ok ys, fs)
        → (if is_dead o then ys else id ∷ ys) ≡ us
        → (b : Bool) → is_dead o ≡ b
        → All (Dead executor w) (id ∷ rest)
    settled-Dead o fs ys q g e true d = (
      record { observation = o; polled = q; gone = is_dead-alive o d },
      again ys fs g (ground arith),
    )
    settled-Dead o fs ys q g e false d = absurd (ground arith)

    answered-Dead :
        (r : Result WorkerObservation)
        → executor.poll_answer w id ≡ r
        → on_ok r (λ o. (uncertain_of executor rest >>= later_of id o) w) ≡ (ok us, es)
        → All (Dead executor w) (id ∷ rest)
    unfolding on_ok
    answered-Dead (ok o) q g =
        let k = bound (later_of id o) w (uncertain_of executor rest) g in
        settled-Dead o k.before k.first q k.began (pure-ok _ k.ended) (is_dead o) refl
    answered-Dead (err e) q g = absurd (cc)

  -- If none is uncertain, each was polled and is gone.
  pub uncertain_of-Dead :
      (ids us : List String) (es : List Effect)
      → uncertain_of executor ids w ≡ (ok us, es)
      → is_any us ≡ false
      → All (Dead executor w) ids
  unfolding uncertain_of poll
  uncertain_of-Dead [] us es h n = tt
  uncertain_of-Dead (id ∷ rest) us es h n =
      answered-Dead id rest us es n (uncertain_of-Dead rest) (executor.poll_answer w id) refl
        (sym (ask-bind _ w _) ∙ h)
