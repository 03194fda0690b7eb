-- ===== src/Runtime/World/Silent.antt =====
-- Steps of a block that make no effect, and blocks that returned through them.
use agent_farm_runtime.Prelude.{◌≡◌, refl, sym, ◌∙◌, ap, Bool, true, false, List, [], ◌++◌}
use mathlib.Core.List.{append-nil}
use agent_farm_runtime.Runtime.Result.{Error, Result, ok, err}
use agent_farm_runtime.Runtime.World.{
  Effect, World, Act, after, ◌>>=◌, go_on, pure, raise, guard, then_do,
}
use agent_farm_runtime.Runtime.World.Rules.{guard-bind, pure-ok}

module _ {ℓ κ} {A : Type ℓ} {B : Type κ} (f : A → Act B) (w : World) where
  go_on_silent :
      (r : Result A) (es : List Effect)
      → es ≡ []
      → ((a : A) → (f a w).1 ≡ [])
      → (go_on w f r es).1 ≡ []
  unfolding go_on after
  go_on_silent (ok a) es e h = rw e (h a)
  go_on_silent (err x) es e h = e

  pub silent-bind : (m : Act A) → (m w).1 ≡ [] → ((a : A) → (f a w).1 ≡ []) → ((m >>= f) w).1 ≡ []
  unfolding ◌>>=◌
  silent-bind m e h = go_on_silent (m w).0 (m w).1 e h

-- A step without effects, of a block that returned
module _ {ℓ κ} {A : Type ℓ} {B : Type κ} (f : A → Act B) (w : World) (m : Act A) {b : B}
    {es : List Effect} where
  go_on_quiet :
      (r : Result A) (before : List Effect)
      → m w ≡ (r, before)
      → before ≡ []
      → go_on w f r before ≡ (ok b, es)
      → (a : A) × (m w ≡ (ok a, [])) × (f a w ≡ (ok b, es))
  unfolding go_on after
  go_on_quiet (ok a) before q e h = (
    a,
    q ∙ ap {B = Result A × List Effect} (λ l. (ok a, l)) e,
    sym (ap {B = Result B × List Effect} (go_on w f (ok a)) e) ∙ h,
  )
  go_on_quiet (err x) before q e h = absurd (cc)

  pub bound_silent :
      (m w).1 ≡ [] → (m >>= f) w ≡ (ok b, es) → (a : A) × (m w ≡ (ok a, [])) × (f a w ≡ (ok b, es))
  unfolding ◌>>=◌
  bound_silent e h = go_on_quiet (m w).0 (m w).1 refl e h

pub silent-pure {ℓ} : {A : Type ℓ} (a : A) (w : World) → (pure a w).1 ≡ []
unfolding pure
silent-pure a w = refl

pub guard-silent : (b : Bool) (e : Error) (w : World) → (guard b e w).1 ≡ []
unfolding raise pure
guard-silent true e w = refl
guard-silent false e w = refl

-- The test of a block that goes on
pub passes {ℓ} :
    {B : Type ℓ} (w : World) (b : Bool) (e : Error) (k : Unit {0} → Act B)
    → b ≡ false
    → (guard b e >>= k) w ≡ k tt w
passes w b e k h = rw (guard-bind k w b e, h) refl

-- A block that ended in a result
pub pure-both {ℓ} :
    {A : Type ℓ} (a b : A) (w : World) (before later es : List Effect)
    → pure a w ≡ (ok b, later)
    → es ≡ before ++ later
    → (a ≡ b) × (es ≡ before)
unfolding pure
pure-both {A} a b w before later es h e = (
  pure-ok w h,
  e ∙ ap (λ l. before ++ l) (ap (λ (p : Result A × List Effect). p.1) (sym h)) ∙ append-nil before,
)

pub then_do-ok {ℓ} :
    {B : Type ℓ} (p : Result B × List Effect) (fs : List Effect) {b : B} {es : List Effect}
    → then_do p fs ≡ (ok b, es)
    → (p ≡ (ok b, p.1)) × (es ≡ fs ++ p.1)
then_do-ok {B} (ok a, later) fs h = (cc, cc)
then_do-ok (err e, later) fs h = absurd (cc)
