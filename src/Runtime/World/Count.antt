-- ===== src/Runtime/World/Count.antt =====
-- How many commits an action begins: the journals among its effects.
use agent_farm_runtime.Prelude.{◌≡◌, refl, ℕ, ◌+◌, ◌≤◌, List, [], ◌∷◌, ◌++◌, arith}
use agent_farm_runtime.Runtime.Result.{Result, ok, err}
use agent_farm_runtime.Runtime.World.{Effect, prepare, World, Act, ◌>>=◌, go_on, step, after}
use agent_farm_runtime.Runtime.World.Policy.{Policy, Allows, Obeys, Safe}

abbrev pub journals : Effect → ℕ
journals (prepare txn) = 1
journals _ = 0

unfoldable pub commits : List Effect → ℕ
commits [] = 0
commits (e ∷ es) = journals e + commits es

commits-append : (es fs : List Effect) → commits (es ++ fs) ≡ commits es + commits fs
unfolding commits
commits-append [] fs = omega arith
commits-append (e ∷ es) fs = ground (arith, commits-append es fs)

pub record AtMost {ℓ} {A : Type ℓ} (n : ℕ) (m : Act A) (w : World) : Type 0 where
  pub few : commits (m w).1 ≤ n

-- No journal is written, and all else may happen.
abbrev pub uncommitted : Policy
uncommitted = record {
  prepares = λ txn. ⊥;
  launches = λ w t l. Unit;
  resumes = λ w t id l. Unit;
  stops = λ id. Unit;
}

allowed-journals : (w : World) (e : Effect) → Allows uncommitted w e → journals e ≡ 0
unfolding Allows
allowed-journals w (prepare txn) h = absurd h
allowed-journals w _ h = refl

uncommitted-none : (w : World) (es : List Effect) → Obeys uncommitted w es → commits es ≡ 0
unfolding Obeys commits
uncommitted-none w [] h = refl
uncommitted-none w (e ∷ es) (a, h) =
    ground (arith, allowed-journals w e a, uncommitted-none (step w e) es h)

module _ {ℓ κ} {A : Type ℓ} {B : Type κ} (w : World) (m : Act A) (f : A → Act B) (n k : ℕ) where
  go_on-AtMost :
      (r : Result A) (es : List Effect)
      → commits es ≤ n
      → ((a : A) → r ≡ ok a → AtMost k (f a) (after w es))
      → commits (go_on w f r es).1 ≤ n + k
  unfolding go_on
  go_on-AtMost (ok a) es q h =
      let c = (h a refl).few in let e = commits-append es (f a (after w es)).1 in omega arith
  go_on-AtMost (err e) es q h = omega arith

  pub AtMost-bind :
      AtMost n m w → ((a : A) (v : World) → AtMost k (f a) v) → AtMost (n + k) (m >>= f) w
  unfolding ◌>>=◌
  AtMost-bind q h = record {
    few = go_on-AtMost (m w).0 (m w).1 q.few (λ a e. h a (after w (m w).1));
  }

pub AtMost-none {ℓ} : {A : Type ℓ} (w : World) (m : Act A) → Safe uncommitted m w → AtMost 0 m w
AtMost-none w m h = record { few = rw (uncommitted-none w (m w).1 h.obeys) (omega arith) }

-- A part that writes no journal, and the rest of the block
pub AtMost-then {ℓ κ} :
    {A : Type ℓ} {B : Type κ} (w : World) (m : Act A) (f : A → Act B) (n : ℕ)
    → Safe uncommitted m w
    → ((a : A) (v : World) → AtMost n (f a) v)
    → AtMost n (m >>= f) w
AtMost-then w m f n s h =
    let k = (AtMost-bind w m f 0 n (AtMost-none w m s) h).few in record { few = omega arith }
