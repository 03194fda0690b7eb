-- ===== src/Farmkit/Runner/Ids.antt =====
-- A draw of ids that are in no file: a text longer than all the keys.
use agent_farm_runtime.Prelude.{
  ◌≡◌, refl, ap, ℕ, zero, suc, ◌+◌, ◌<◌, String, none, List, [], ◌∷◌, codes, length, lookup, arith,
  string_eq, is_yes_iff, string_dec,
}
use agent_farm_runtime.Farmkit.Ledger.{Attempt}

-- A text of n letters
pub letters : ℕ → String
letters zero = String.[]
letters (suc n) = String.◌∷◌ "a" (letters n)

length-letters : (n : ℕ) → length (codes (letters n)) ≡ n
unfolding letters
length-letters zero = refl
length-letters (suc n) = omega (arith, length-letters n)

-- More than the length of each key
pub total : List (String × Attempt) → ℕ
total [] = 0
total ((k, r) ∷ rest) = length (codes k) + 1 + total rest

lookup-long :
    (n : ℕ) (files : List (String × Attempt))
    → total files < n + 1
    → lookup (letters n) files ≡ none
unfolding lookup total
lookup-long n [] h = refl
lookup-long n ((k, r) ∷ rest) h = ground (
  arith,
  is_yes_iff (string_dec k (letters n)),
  λ (e : k ≡ letters n). ap (λ (s : String). length (codes s)) e,
  length-letters n,
  lookup-long n rest,
)

unfoldable pub fresh_letters : List (String × Attempt) → String
unfolding letters total
fresh_letters files = letters (total files)

pub lookup-fresh_letters :
    (files : List (String × Attempt)) → lookup (fresh_letters files) files ≡ none
unfolding fresh_letters
lookup-fresh_letters files = lookup-long (total files) files (omega arith)
