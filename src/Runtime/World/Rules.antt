-- ===== src/Runtime/World/Rules.antt =====
-- Equations that turn a do block at a world into a ladder of tests, and the inversion of one that
-- returns.
use agent_farm_runtime.Prelude.{
  ◌⊎◌, inl, inr, ◌≡◌, refl, sym, ◌∙◌, Bool, true, false, List, [], ◌∷◌, ◌++◌, ap, if◌then◌else◌,
}
use mathlib.Core.List.{append_assoc, append-nil}
use agent_farm_runtime.Runtime.World.Through.{after-append}
use agent_farm_runtime.Runtime.Result.{Error, Result, ok, err}
use agent_farm_runtime.Runtime.World.{
  Effect, World, step, after, Act, pure, raise, lift, gets, ask, effect, guard, then_do, ◌>>=◌,
  go_on,
}

-- The rest of a block, at the result of a step without effects.
unfoldable pub on_ok {ℓ κ} :
    {A : Type ℓ} {B : Type κ} → Result A → (A → Result B × List Effect) → Result B × List Effect
on_ok (ok a) k = k a
on_ok (err e) k = (err e, [])

module _ {ℓ κ} {A : Type ℓ} {B : Type κ} (f : A → Act B) (w : World) where
  pub pure-bind : (a : A) → (pure a >>= f) w ≡ f a w
  unfolding ◌>>=◌ after
  pure-bind a = refl

  pub raise-bind : (e : Error) → (raise e >>= f) w ≡ (err e, [])
  unfolding ◌>>=◌
  raise-bind e = refl

  pub gets-bind : (g : World → A) → (gets g >>= f) w ≡ f (g w) w
  unfolding ◌>>=◌ after
  gets-bind g = refl

  pub lift-bind : (r : Result A) → (lift r >>= f) w ≡ on_ok r (λ a. f a w)
  unfolding ◌>>=◌ after on_ok
  lift-bind (ok a) = refl
  lift-bind (err e) = refl

  pub ask-bind : (g : World → Result A) → (ask g >>= f) w ≡ on_ok (g w) (λ a. f a w)
  unfolding ◌>>=◌ after on_ok
  ask-bind g = elim (g w) as (λ r. go_on w f r [] ≡ on_ok r (λ a. f a w)) [
    | ok a ↦ refl
    | err e ↦ refl
  ]

  pub bind-ok :
      (m : Act A) {a : A} {es : List Effect}
      → m w ≡ (ok a, es)
      → (m >>= f) w ≡ then_do (f a (after w es)) es
  unfolding ◌>>=◌
  bind-ok m h = rw h

module _ {κ} {B : Type κ} (f : Unit {0} → Act B) (w : World) where
  pub guard-bind :
      (b : Bool) (e : Error) → (guard b e >>= f) w ≡ (if b then (err e, []) else f tt w)
  unfolding ◌>>=◌ after
  guard-bind true e = refl
  guard-bind false e = refl

  pub effect-bind : (e : Effect) → (effect e >>= f) w ≡ then_do (f tt (step w e)) (e ∷ [])
  unfolding ◌>>=◌ after
  effect-bind e = refl

pub pure_lem {ℓ} : {A : Type ℓ} (a : A) (w : World) → pure a w ≡ (ok a, [])
unfolding pure
pure_lem a w = refl

pub gets_lem {ℓ} : {A : Type ℓ} (g : World → A) (w : World) → gets g w ≡ (ok (g w), [])
unfolding gets
gets_lem g w = refl

pub effect_lem : (e : Effect) (w : World) → effect e w ≡ (ok tt, e ∷ [])
unfolding effect
effect_lem e w = refl

module _ {ℓ κ μ} {A : Type ℓ} {B : Type κ} {C : Type μ} (f : A → Act B) (g : B → Act C)
    (w : World) where
  go_on-then_do :
      (r : Result B) (es fs : List Effect)
      → go_on w g r (es ++ fs) ≡ then_do (go_on (after w es) g r fs) es
  unfolding go_on
  go_on-then_do (ok b) es fs = rw (after-append w es fs, append_assoc)
  go_on-then_do (err e) es fs = refl

  go_on-go_on :
      (r : Result A) (es : List Effect)
      → (let (r', es') = go_on w f r es in go_on w g r' es') ≡ go_on w (λ a. f a >>= g) r es
  unfolding go_on ◌>>=◌
  go_on-go_on (ok a) es = go_on-then_do (f a (after w es)).0 es (f a (after w es)).1
  go_on-go_on (err e) es = refl

  pub bind_assoc : (m : Act A) → ((m >>= f) >>= g) w ≡ (m >>= λ a. f a >>= g) w
  unfolding ◌>>=◌
  bind_assoc m = go_on-go_on (m w).0 (m w).1

-- A bind that returns did so through a result of its first part.
pub record Bound {ℓ κ} {A : Type ℓ} {B : Type κ} (m : Act A) (f : A → Act B) (w : World) (b : B)
    (es : List Effect) : Type (ℓ ⊔ κ) where
  pub first : A
  pub before : List Effect
  pub later : List Effect
  pub began : m w ≡ (ok first, before)
  pub ended : f first (after w before) ≡ (ok b, later)
  pub all : es ≡ before ++ later

module _ {ℓ κ} {A : Type ℓ} {B : Type κ} (f : A → Act B) (w : World) where
  go_on-Bound :
      (m : Act A) (r : Result A) (es : List Effect) {b : B} {fs : List Effect}
      → m w ≡ (r, es)
      → go_on w f r es ≡ (ok b, fs)
      → Bound m f w b fs
  unfolding go_on
  go_on-Bound m (ok a) es h k = record {
    first = a;
    before = es;
    later = (f a (after w es)).1;
    began = h;
    ended =
        ap {B = Result B × List Effect} (λ r. (r, (f a (after w es)).1))
          (ap (λ (p : Result B × List Effect). p.0) k);
    all = ap (λ (p : Result B × List Effect). p.1) (sym k);
  }
  go_on-Bound m (err e) es h k = cc

  pub bound : (m : Act A) {b : B} {fs : List Effect} → (m >>= f) w ≡ (ok b, fs) → Bound m f w b fs
  unfolding ◌>>=◌
  bound m h = go_on-Bound m (m w).0 (m w).1 refl h

ok-injective {ℓ} : {A : Type ℓ} {a b : A} → ok a ≡ ok b → a ≡ b
ok-injective h = cc

-- A block of one action that ends in `return a`.
pub bound_pure {ℓ} :
    {A : Type ℓ} (a : A) (w : World) (m : Act (Unit {0})) {b : A} {es : List Effect}
    → (m >>= λ _. pure a) w ≡ (ok b, es)
    → (m w ≡ (ok tt, es)) × (b ≡ a)
unfolding pure
bound_pure {A} a w m {b} {es} h =
    let r = bound (λ _. pure a) w m h in
    let none_later = ap (λ (p : Result A × List Effect). p.1) (sym r.ended) in
    (
      r.began
          ∙ ap {B = Result (Unit {0}) × List Effect} (λ l. (ok tt, l))
              (sym (r.all ∙ ap (λ l. r.before ++ l) none_later ∙ append-nil r.before)),
      sym (ok-injective (ap (λ (p : Result A × List Effect). p.0) r.ended)),
    )

-- Inversion of the steps of a block that returned.
module _ {ℓ} {B : Type ℓ} (w : World) {b : B} {es : List Effect} where
  pub guard-ok :
      (t : Bool) (e : Error) (f : Unit {0} → Act B)
      → (guard t e >>= f) w ≡ (ok b, es)
      → (t ≡ false) × (f tt w ≡ (ok b, es))
  unfolding ◌>>=◌ go_on raise pure after
  guard-ok true e f h = cc
  guard-ok false e f h = (refl, h)

  pub lift-ok {κ} :
      {A : Type κ} (r : Result A) (f : A → Act B)
      → (lift r >>= f) w ≡ (ok b, es)
      → (a : A) × (r ≡ ok a) × (f a w ≡ (ok b, es))
  unfolding ◌>>=◌ go_on lift after
  lift-ok (ok a) f h = (a, refl, h)
  lift-ok (err e) f h = cc

  pub raise-ok : (e : Error) → ¬ (raise e w ≡ (ok b, es))
  unfolding raise
  raise-ok e h = absurd (cc)

  pub if-ok :
      (t : Bool) (x y : Act B)
      → (if t then x else y) w ≡ (ok b, es)
      → ((t ≡ true) × (x w ≡ (ok b, es))) ⊎ ((t ≡ false) × (y w ≡ (ok b, es)))
  if-ok true x y h = inl (refl, h)
  if-ok false x y h = inr (refl, h)

pub pure-ok {ℓ} :
    {A : Type ℓ} {a b : A} (w : World) {es : List Effect} → pure a w ≡ (ok b, es) → a ≡ b
unfolding pure
pure-ok w h = cc

pub ruleset act_rules = (
  pure-bind, raise-bind, gets-bind, lift-bind, ask-bind, guard-bind, effect-bind, pure_lem,
  gets_lem, effect_lem, bind_assoc,
)
