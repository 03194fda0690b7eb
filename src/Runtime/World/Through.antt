-- ===== src/Runtime/World/Through.antt =====
-- What holds of every world that an action goes through, and so of every crash.
use agent_farm_runtime.Prelude.{◌≡◌, refl, List, [], ◌∷◌, ◌++◌}
use agent_farm_runtime.Runtime.World.{World, Effect, step, after}

-- `P` holds after every first part of the effects.
abbrev pub Through {ℓ} : (World → Type ℓ) → World → List Effect → Type ℓ
Through P w [] = P w
Through P w (e ∷ es) = P w × Through P (step w e) es

pub after-append : (w : World) (es fs : List Effect) → after w (es ++ fs) ≡ after (after w es) fs
unfolding after
after-append w [] fs = refl
after-append w (e ∷ es) fs = after-append (step w e) es fs

module _ {ℓ} (P : World → Type ℓ) where
  pub Through-append :
      (w : World) (es fs : List Effect)
      → Through P w es
      → Through P (after w es) fs
      → Through P w (es ++ fs)
  unfolding after
  Through-append w [] fs h k = k
  Through-append w (e ∷ es) fs (p, h) k = (p, Through-append (step w e) es fs h k)

  pub Through-end : (w : World) (es : List Effect) → Through P w es → P (after w es)
  unfolding after
  Through-end w [] h = h
  Through-end w (e ∷ es) (p, h) = Through-end (step w e) es h

  pub Through-map {κ} :
      {Q : World → Type κ} (f : (v : World) → P v → Q v) (w : World) (es : List Effect)
      → Through P w es
      → Through Q w es
  Through-map f w [] h = f w h
  Through-map f w (e ∷ es) (p, h) = (f w p, Through-map f (step w e) es h)
