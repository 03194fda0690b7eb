-- ===== src/Farmkit/Waits/Laws.antt =====
-- The job that `wait_reference` of src/farmkit/waits.py chooses.
use agent_farm_runtime.Prelude.{
  both_iff, ◌≡◌, refl, inl, inr, Option, none, some, Bool, true, false, List, [], ◌∷◌, keep,
  contains, contains_self, contains-keep, chars_eq, arith, All, Bool-cases, Chars, is_set,
  if◌then◌else◌,
}
use agent_farm_runtime.Farmkit.Waits.{
  Ends, min_by, is_known, ends_before, is_lower, job_reference, earliest, wait_among,
  wait_reference,
}

module _ (less : Chars → Chars → Bool) (irreflexive : (x : Chars) → less x x ≡ false)
    (asymmetric : (x y : Chars) → less x y ≡ true → less y x ≡ false)
    (chain : (x y z : Chars) → less x y ≡ false → less y z ≡ false → less x z ≡ false) where
  abbrev Least : Chars → List Chars → Type 0
  Least m xs = All (λ x. less x m ≡ false) xs

  step-Least :
      (b x : Chars) (xs : List Chars) (t : Bool)
      → less x b ≡ t
      → Least (min_by less x xs) (x ∷ xs)
      → Least (min_by less b xs) (b ∷ xs)
      → Least (min_by less (if t then x else b) xs) (b ∷ x ∷ xs)
  step-Least b x xs true e (h, k) (h', k') =
      (chain b x (min_by less x xs) (asymmetric x b e) h, (h, k))
  step-Least b x xs false e (h, k) (h', k') = (h', (chain x b (min_by less b xs) e h', k'))

  min_by-Least : (b : Chars) (xs : List Chars) → Least (min_by less b xs) (b ∷ xs)
  unfolding min_by
  min_by-Least b [] = (irreflexive b, tt)
  min_by-Least b (x ∷ xs) =
      step-Least b x xs (less x b) refl (min_by-Least x xs) (min_by-Least b xs)

  contains-min_by : (b : Chars) (xs : List Chars) → contains (b ∷ xs) (min_by less b xs) ≡ true
  unfolding min_by contains
  contains-min_by b [] = contains_self b []
  contains-min_by b (x ∷ xs) = elim (Bool-cases (less x b)) [
    | inl e ↦ let h = contains-min_by x xs in rw e (ground (arith))
    | inr e ↦ let h = contains-min_by b xs in rw e (ground (arith))
  ]

abbrev pub has_barrier : Option Chars → Bool
has_barrier none = false
has_barrier (some b) = is_set b

-- What is waited on: the barrier, if there is one; else, of the jobs whose end is known, one with the
-- earliest end, and of those with that end one with the lowest number; else one with the lowest
-- number of all.
pub data Chosen (ids : List Chars) (ends : Ends) (barrier o : Option Chars) : Type 0 where
  at_barrier :
      (b : Chars)
      → barrier ≡ some b
      → is_set b ≡ true
      → o ≡ some (job_reference b)
      → Chosen ids ends barrier o
  by_end :
      (j : Chars)
      → has_barrier barrier ≡ false
      → o ≡ some (job_reference j)
      → contains ids j ≡ true
      → is_known ends j ≡ true
      → All (λ k. ends_before ends k j ≡ false) (keep (is_known ends) ids)
      → Chosen ids ends barrier o
  by_number :
      (j : Chars)
      → has_barrier barrier ≡ false
      → o ≡ some (job_reference j)
      → contains ids j ≡ true
      → keep (is_known ends) ids ≡ []
      → All (λ k. is_lower k j ≡ false) ids
      → Chosen ids ends barrier o
  nothing : has_barrier barrier ≡ false → ids ≡ [] → o ≡ none → Chosen ids ends barrier o

is_lower-irreflexive : (x : Chars) → is_lower x x ≡ false
unfolding is_lower
is_lower-irreflexive x = ground arith

is_lower-asymmetric : (x y : Chars) → is_lower x y ≡ true → is_lower y x ≡ false
unfolding is_lower
is_lower-asymmetric x y h = ground arith

is_lower-chain :
    (x y z : Chars) → is_lower x y ≡ false → is_lower y z ≡ false → is_lower x z ≡ false
unfolding is_lower
is_lower-chain x y z h k = ground arith

module _ (ends : Ends) where
  ends_before-irreflexive : (x : Chars) → ends_before ends x x ≡ false
  unfolding ends_before
  ends_before-irreflexive x = ground arith

  ends_before-asymmetric :
      (x y : Chars) → ends_before ends x y ≡ true → ends_before ends y x ≡ false
  unfolding ends_before
  ends_before-asymmetric x y h = ground arith

  ends_before-chain :
      (x y z : Chars)
      → ends_before ends x y ≡ false
      → ends_before ends y z ≡ false
      → ends_before ends x z ≡ false
  unfolding ends_before
  ends_before-chain x y z h k = ground arith

  among-Chosen :
      (barrier : Option Chars) (j : Chars) (js known : List Chars)
      → has_barrier barrier ≡ false
      → keep (is_known ends) (j ∷ js) ≡ known
      → Chosen (j ∷ js) ends barrier (some (job_reference (earliest ends j js known)))
  among-Chosen barrier j js [] b e =
      by_number _ b refl
        (contains-min_by is_lower is_lower-irreflexive is_lower-asymmetric is_lower-chain j js) e
        (min_by-Least is_lower is_lower-irreflexive is_lower-asymmetric is_lower-chain j js)
  among-Chosen barrier j js (k ∷ known) b e =
      let m = min_by (ends_before ends) k known in
      let c =
        contains-min_by (ends_before ends) ends_before-irreflexive ends_before-asymmetric
          ends_before-chain k known in
      let d = rw (← e, contains-keep (is_known ends) (j ∷ js) m) at c in
      let (q, r) = (both_iff (contains (j ∷ js) m) (is_known ends m)).0 d in
      by_end m b refl q r (
        rw e (
          min_by-Least (ends_before ends) ends_before-irreflexive ends_before-asymmetric
            ends_before-chain k known))

  wait_among-Chosen :
      (barrier : Option Chars) (ids : List Chars)
      → has_barrier barrier ≡ false
      → Chosen ids ends barrier (wait_among ends ids)
  wait_among-Chosen barrier [] b = nothing b refl refl
  wait_among-Chosen barrier (j ∷ js) b =
      among-Chosen barrier j js (keep (is_known ends) (j ∷ js)) b refl

-- `wait_reference` waits on the barrier, if there is one; else, of the jobs whose end is known, on
-- one with the earliest end, and of those with that end the lowest number; else on one with the
-- lowest number of all; it raises only if there is neither a barrier nor a job.
pub wait_reference-Chosen :
    (ids : List Chars) (ends : Ends) (barrier : Option Chars)
    → Chosen ids ends barrier (wait_reference ids ends barrier)
unfolding wait_reference
wait_reference-Chosen ids ends none = wait_among-Chosen ends none ids refl
wait_reference-Chosen ids ends (some b) = elim (Bool-cases (is_set b)) [
  | inl e ↦ rw e (at_barrier b refl e refl)
  | inr e ↦ rw e (wait_among-Chosen ends (some b) ids e)
]
