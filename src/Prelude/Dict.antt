-- ===== src/Prelude/Dict.antt =====
-- A directory of JSON files, one for each key, in the order in which `sorted(glob("*.json"))` lists
-- them.
use Prim.Native.Nat.{ℕ}
use Prim.Native.String.{String}
use mathlib.Core.Path.{◌≡◌, refl}
use mathlib.Core.Option.{Option, none, some}
use mathlib.Core.List.{List, [], ◌∷◌, ◌++◌}
use native.Mathlib.Omega.{arith}
use agent_farm_runtime.Prelude.Tests.{◌==◌, string_eq, if◌then◌else◌}
use agent_farm_runtime.Prelude.Text.{codes, codes_lt}

abbrev pub file_name : String → List ℕ
file_name k = codes k ++ codes ".json"

module _ {ℓ} {V : Type ℓ} where
  unfoldable pub lookup : String → List (String × V) → Option V
  lookup k [] = none
  lookup k ((j, v) ∷ m) = if j == k then some v else lookup k m

  -- A file is replaced, or created at its place in the order.
  unfoldable pub put : String → V → List (String × V) → List (String × V)
  put k v [] = (k, v) ∷ []
  put k v ((j, w) ∷ m) =
      if j == k
      then (k, v) ∷ m
      else if codes_lt (file_name k) (file_name j)
      then (k, v) ∷ (j, w) ∷ m
      else (j, w) ∷ put k v m

  pub lookup-put :
      (k j : String) (v : V) (m : List (String × V))
      → lookup j (put k v m) ≡ (if k == j then some v else lookup j m)
  unfolding lookup put
  lookup-put k j v [] = refl
  lookup-put k j v ((i, w) ∷ m) = ground (arith, lookup-put k j v m)

  pub put-put : (k : String) (v w : V) (m : List (String × V)) → put k v (put k w m) ≡ put k v m
  unfolding put
  put-put k v w [] = ground arith
  put-put k v w ((i, u) ∷ m) = ground (arith, put-put k v w m)

  unfoldable pub values : List (String × V) → List V
  values [] = []
  values ((k, v) ∷ m) = v ∷ values m
