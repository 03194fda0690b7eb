-- ===== src/Farmkit/Steps/Laws.antt =====
-- The steps that `ready` of src/farmkit/steps.py lets run.
use agent_farm_runtime.Prelude.{
  is_there, ◌≡◌, refl, ◌⊎◌, inl, inr, Option, none, some, Bool, true, false, List, [], ◌∷◌, arith,
  All, all, keep, Option-cases, Bool-cases,
}
use agent_farm_runtime.Farmkit.Ledger.{Attempt, Failure, latest, is_ok}
use agent_farm_runtime.Farmkit.Steps.{
  StepSpec, unresolved, dependency_met, pool_full, is_ready, ready, is_settled,
}

-- The step has no attempt, or its latest one failed and the failure was released or is to be
-- retried.
pub data MayRun (o : Option Attempt) : Type 0 where
  fresh : o ≡ none → MayRun o
  again :
      (a : Attempt) (f : Failure)
      → o ≡ some a
      → a.failure ≡ some f
      → f.parked ≡ false
      → (is_there f.released ≡ true) ⊎ (f.retried ≡ true)
      → MayRun o

pub record IsRunnable (specs : List StepSpec) (rows : List Attempt) (s : StepSpec) : Type 0 where
  pub may_run : MayRun (latest s.id rows)
  pub open_step : is_ok s.id rows ≡ false
  pub dependencies : all (dependency_met specs rows) s.after ≡ true
  pub room : pool_full specs rows s ≡ false

released-MayRun :
    (f : Failure)
    → is_settled f ≡ true
    → f.parked ≡ false
    → (is_there f.released ≡ true) ⊎ (f.retried ≡ true)
released-MayRun f h p = elim (Bool-cases (is_there f.released)) [
  | inl e ↦ inl e
  | inr e ↦ inr (ground arith)
]

is_ready-IsRunnable :
    (specs : List StepSpec) (rows : List Attempt) (s : StepSpec)
    → is_ready specs rows s ≡ true
    → IsRunnable specs rows s
unfolding is_ready unresolved is_ok
is_ready-IsRunnable specs rows s h = record {
  may_run = elim (Option-cases (latest s.id rows)) [
    | inl e ↦ fresh e
    | inr (a, e) ↦ elim (Option-cases a.failure) [
      | inl n ↦ absurd (ground arith)
      | inr (f, k) ↦ again a f e k (ground arith) (released-MayRun f (ground arith) (ground arith))
    ]
  ];
  open_step = ground arith;
  dependencies = ground arith;
  room = ground arith;
}

kept-All :
    (P : StepSpec → Type 0) (b : Bool) (x : StepSpec) (rest : List StepSpec)
    → (b ≡ true → P x)
    → All P rest
    → All P (elim b [ true ↦ x ∷ rest | false ↦ rest ])
kept-All P true x rest h k = (h refl, k)
kept-All P false x rest h k = k

keep-All :
    (p : StepSpec → Bool) (P : StepSpec → Type 0) (xs : List StepSpec)
    → ((s : StepSpec) → p s ≡ true → P s)
    → All P (keep p xs)
unfolding keep
keep-All p P [] h = tt
keep-All p P (x ∷ xs) h = kept-All P (p x) x (keep p xs) (h x) (keep-All p P xs h)

-- Every step that `ready` gives is not finished, has its dependencies met and room in its pool, and
-- either was never attempted, or its latest attempt failed, is not parked, and was released by a
-- ruling or is to be retried: no step is run again while an attempt of it is unresolved or parked.
pub ready-IsRunnable :
    (specs : List StepSpec) (rows : List Attempt) → All (IsRunnable specs rows) (ready specs rows)
unfolding ready
ready-IsRunnable specs rows =
    keep-All (is_ready specs rows) (IsRunnable specs rows) specs (is_ready-IsRunnable specs rows)
