-- ===== src/Runtime/World/Policy.antt =====
-- What the effects of an action may be, and the rules that show it of a do block.
use agent_farm_runtime.Prelude.{
  ◌≡◌, refl, String, Bool, true, false, List, [], ◌∷◌, ◌++◌, if◌then◌else◌,
}
use agent_farm_runtime.Runtime.Models.{Lease, Task}
use agent_farm_runtime.Runtime.Result.{Error, Result, ok, err}
use agent_farm_runtime.Runtime.World.{
  Txn, Effect, prepare, launch, resume, stop, World, step, after, Act, pure, raise, lift, gets, ask,
  try_catch, effect, guard, ◌>>=◌, go_on,
}

-- What is asked of a journal that is written and of a call of the executor, at its world.
pub record Policy : Type 1 where
  pub prepares : Txn → Type 0
  pub launches : World → Task → Lease → Type 0
  pub resumes : World → Task → String → Lease → Type 0
  pub stops : String → Type 0

unfoldable pub Allows : Policy → World → Effect → Type 0
Allows p w (prepare txn) = p.prepares txn
Allows p w (launch task lease) = p.launches w task lease
Allows p w (resume task worker_id lease) = p.resumes w task worker_id lease
Allows p w (stop worker_id) = p.stops worker_id
Allows p w _ = Unit

module _ (p : Policy) where
  -- Every effect, at the world in which it is made.
  unfoldable pub Obeys : World → List Effect → Type 0
  unfolding Allows
  Obeys w [] = Unit
  Obeys w (e ∷ es) = Allows p w e × Obeys (step w e) es

  pub Obeys-append :
      (w : World) (es fs : List Effect) → Obeys w es → Obeys (after w es) fs → Obeys w (es ++ fs)
  unfolding Obeys after
  Obeys-append w [] fs h k = k
  Obeys-append w (e ∷ es) fs (a, h) k = (a, Obeys-append (step w e) es fs h k)

  -- The effects of an action at a world.
  pub record Safe {ℓ} {A : Type ℓ} (m : Act A) (w : World) : Type 0 where
    pub obeys : Obeys w (m w).1

  module _ {ℓ} {A : Type ℓ} (w : World) where
    pub Safe-pure : (a : A) → Safe (pure a) w
    unfolding Obeys pure
    Safe-pure a = record { obeys = tt }

    pub Safe-raise : (e : Error) → Safe (raise {A = A} e) w
    unfolding Obeys raise
    Safe-raise e = record { obeys = tt }

    pub Safe-gets : (g : World → A) → Safe (gets g) w
    unfolding Obeys gets
    Safe-gets g = record { obeys = tt }

    pub Safe-ask : (g : World → Result A) → Safe (ask g) w
    unfolding Obeys ask
    Safe-ask g = record { obeys = tt }

    pub Safe-lift : (r : Result A) → Safe (lift r) w
    unfolding Obeys lift
    Safe-lift r = record { obeys = tt }

    pub Safe-if :
        (b : Bool) {x y : Act A}
        → (b ≡ true → Safe x w)
        → (b ≡ false → Safe y w)
        → Safe (if b then x else y) w
    Safe-if true h k = h refl
    Safe-if false h k = k refl

    caught-Obeys :
        (m : Act A) (handler : Error → Act A) (r : Result A) (es : List Effect)
        → m w ≡ (r, es)
        → Obeys w es
        → ((e : Error) (fs : List Effect) → m w ≡ (err e, fs) → Safe (handler e) (after w fs))
        → Obeys w (try_catch (λ _. (r, es)) handler w).1
    unfolding try_catch
    caught-Obeys m handler (ok a) es q h k = h
    caught-Obeys m handler (err e) es q h k =
        Obeys-append w es (handler e (after w es)).1 h (k e es q).obeys

    pub Safe-try_catch :
        (m : Act A) (handler : Error → Act A)
        → Safe m w
        → ((e : Error) (fs : List Effect) → m w ≡ (err e, fs) → Safe (handler e) (after w fs))
        → Safe (try_catch m handler) w
    unfolding try_catch
    Safe-try_catch m handler h k = record {
      obeys = caught-Obeys m handler (m w).0 (m w).1 refl h.obeys k;
    }

    pub Safe-catch :
        (m : Act A) (handler : Error → Act A)
        → Safe m w
        → ((e : Error) (v : World) → Safe (handler e) v)
        → Safe (try_catch m handler) w
    Safe-catch m handler h k = Safe-try_catch m handler h (λ e fs q. k e (after w fs))

  pub Safe-effect : (w : World) (e : Effect) → Allows p w e → Safe (effect e) w
  unfolding Obeys effect
  Safe-effect w e h = record { obeys = (h, tt) }

  pub Safe-guard : (w : World) (b : Bool) (e : Error) → Safe (guard b e) w
  Safe-guard w true e = Safe-raise w e
  Safe-guard w false e = Safe-pure w tt

  module _ {ℓ κ} {A : Type ℓ} {B : Type κ} (w : World) (m : Act A) (f : A → Act B) where
    go_on-Obeys :
        (r : Result A) (es : List Effect)
        → m w ≡ (r, es)
        → Obeys w es
        → ((a : A) (fs : List Effect) → m w ≡ (ok a, fs) → Safe (f a) (after w fs))
        → Obeys w (go_on w f r es).1
    unfolding go_on
    go_on-Obeys (ok a) es q h k = Obeys-append w es (f a (after w es)).1 h (k a es q).obeys
    go_on-Obeys (err e) es q h k = h

    -- The rest of a block may use that the first part returned.
    pub Safe-bind :
        Safe m w
        → ((a : A) (fs : List Effect) → m w ≡ (ok a, fs) → Safe (f a) (after w fs))
        → Safe (m >>= f) w
    unfolding ◌>>=◌
    Safe-bind h k = record { obeys = go_on-Obeys (m w).0 (m w).1 refl h.obeys k }

    -- The rest of a block, where nothing about its first part is used.
    pub Safe-then : Safe m w → ((a : A) (v : World) → Safe (f a) v) → Safe (m >>= f) w
    Safe-then h k = Safe-bind h (λ a fs q. k a (after w fs))

  -- A result that is taken out.
  pub Safe-lift-bind {ℓ κ} :
      {A : Type ℓ} {B : Type κ} (w : World) (r : Result A) (f : A → Act B)
      → ((a : A) → r ≡ ok a → Safe (f a) w)
      → Safe (lift r >>= f) w
  unfolding ◌>>=◌ go_on Obeys after lift
  Safe-lift-bind w (ok a) f h = record { obeys = (h a refl).obeys }
  Safe-lift-bind w (err e) f h = record { obeys = tt }

  pub Safe-gets-bind {ℓ κ} :
      {A : Type ℓ} {B : Type κ} (w : World) (g : World → A) (f : A → Act B)
      → Safe (f (g w)) w
      → Safe (gets g >>= f) w
  unfolding ◌>>=◌ go_on Obeys after gets
  Safe-gets-bind w g f h = record { obeys = h.obeys }

-- Rules for a block whose effects need no fact about what was read.
pub ruleset safe_rules = (
  Safe-then, Safe-pure, Safe-raise, Safe-gets, Safe-ask, Safe-lift, Safe-guard, Safe-if,
  Safe-lift-bind,
)
