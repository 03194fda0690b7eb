-- ===== src/Farmkit/Runner/Bounded/Records.antt =====
-- What holds of every record that the runner writes: an attempt that was retried has ended, and one
-- that has ended is no open intent.
use agent_farm_runtime.Prelude.{
  codes_lt, file_name, ◌≡◌, String, Bool, true, false, List, [], ◌∷◌, All, put, values, arith, inl,
  inr, Bool-cases, if◌then◌else◌, ◌==◌, string_eq,
}
use agent_farm_runtime.Farmkit.Classify.{is_terminal}
use agent_farm_runtime.Farmkit.Ledger.{
  Attempt, Ledger, is_open, state_of, is_before, insert, sort, read_all,
}
use agent_farm_runtime.Farmkit.Runner.Bounded.Counts.{is_retried}

pub record Sane (r : Attempt) : Type 0 where
  pub ended : is_retried r ≡ true → is_terminal (state_of r) ≡ true
  pub closed : is_terminal (state_of r) ≡ true → is_open r.submit ≡ false

-- An attempt that is not retried, and runs or has not begun
pub record Quiet (r : Attempt) : Type 0 where
  pub untried : is_retried r ≡ false
  pub unended : is_terminal (state_of r) ≡ false

-- An attempt whose end is taken up
pub record Ending (r : Attempt) : Type 0 where
  pub untried : is_retried r ≡ false
  pub over : is_terminal (state_of r) ≡ true
  pub settled : is_open r.submit ≡ false

pub Quiet-Sane : (r : Attempt) → Quiet r → Sane r
Quiet-Sane r q = record {
  ended = λ h. absurd (ground (arith, q.untried));
  closed = λ h. absurd (ground (arith, q.unended));
}

pub untried-Sane : (r : Attempt) → is_retried r ≡ false → is_open r.submit ≡ false → Sane r
untried-Sane r u o = record { ended = λ h. absurd (ground (arith, u)); closed = λ h. o }

-- An open intent was not retried.
pub open-Quiet : (r : Attempt) → Sane r → is_open r.submit ≡ true → Quiet r
open-Quiet r s o = elim (Bool-cases (is_terminal (state_of r))) [
  | inl e ↦ let c = s.closed e in absurd (ground (arith, o, c))
  | inr e ↦ elim (Bool-cases (is_retried r)) [
    | inl t ↦ let c = s.ended t in absurd (ground (arith, e, c))
    | inr t ↦ record { untried = t; unended = e }
  ]
]

module _ {ℓ κ} {A : Type ℓ} (P : A → Type κ) where
  if-values :
      (b : Bool) (m n : List (String × A))
      → All P (values m)
      → All P (values n)
      → All P (values (if b then m else n))
  if-values true m n h g = h
  if-values false m n h g = g

  pub All-values-put :
      (k : String) (v : A) (m : List (String × A))
      → P v
      → All P (values m)
      → All P (values (put k v m))
  unfolding values put
  All-values-put k v [] p h = (p, tt)
  All-values-put k v ((j, w) ∷ m) p (q, h) =
      if-values (j == k) _ _ (p, h)
        (if-values (codes_lt (file_name k) (file_name j)) _ _ (p, (q, h))
          (q, All-values-put k v m p h))

module _ {κ} (P : Attempt → Type κ) where
  if-All : (b : Bool) (xs ys : List Attempt) → All P xs → All P ys → All P (if b then xs else ys)
  if-All true xs ys h g = h
  if-All false xs ys h g = g

  All-insert : (a : Attempt) (rows : List Attempt) → P a → All P rows → All P (insert a rows)
  unfolding insert
  All-insert a [] p h = (p, tt)
  All-insert a (b ∷ rest) p (q, h) =
      if-All (is_before b a) _ _ (q, All-insert a rest p h) (p, (q, h))

  All-sort : (rows : List Attempt) → All P rows → All P (sort rows)
  unfolding sort
  All-sort [] h = tt
  All-sort (a ∷ rest) (p, h) = All-insert a (sort rest) p (All-sort rest h)

  pub All-read_all : (l : Ledger) → All P (values l.files) → All P (read_all l)
  unfolding read_all
  All-read_all l h = All-sort (values l.files) h
