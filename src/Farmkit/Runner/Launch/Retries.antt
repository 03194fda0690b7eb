-- ===== src/Farmkit/Runner/Launch/Retries.antt =====
-- The budget of a step of src/farmkit/runner.py: what is used of it, by the files of the ledger.
use agent_farm_runtime.Prelude.{
  ◌≡◌, refl, ℕ, ◌+◌, ◌-◌, ◌≤◌, ◌<◌, String, none, some, true, List, [], ◌∷◌, keep, put, lookup,
  values, arith, if◌then◌else◌, ◌==◌, string_eq, string_dec, is_yes_iff,
}
use agent_farm_runtime.Farmkit.Classify.{FailureClass, code, science, budget, infra, unknown}
use agent_farm_runtime.Farmkit.Ledger.{Attempt, Ledger, insert, sort, read_all, by_step}
use agent_farm_runtime.Farmkit.Steps.{StepSpec}
use agent_farm_runtime.Farmkit.Runner.Budget.{
  tally, prior_used_of, counts_as, same_class, used, allowed, to_retry,
}

tally-insert :
    (f : Attempt → ℕ) (a : Attempt) (rows : List Attempt)
    → tally f (insert a rows) ≡ f a + tally f rows
unfolding tally insert
tally-insert f a [] = omega arith
tally-insert f a (b ∷ rest) = ground (arith, tally-insert f a rest)

tally-sort : (f : Attempt → ℕ) (rows : List Attempt) → tally f (sort rows) ≡ tally f rows
unfolding tally sort
tally-sort f [] = refl
tally-sort f (a ∷ rest) = omega (arith, tally-insert f a (sort rest), tally-sort f rest)

-- A number of each attempt that counts only for one step
abbrev pub on_step : String → (Attempt → ℕ) → Attempt → ℕ
on_step step f r = if r.step == step then f r else 0

tally-by_step :
    (step : String) (f : Attempt → ℕ) (rows : List Attempt)
    → tally f (by_step step rows) ≡ tally (on_step step f) rows
unfolding tally by_step keep
tally-by_step step f [] = refl
tally-by_step step f (r ∷ rows) = ground (arith, tally-by_step step f rows)

abbrev Files : Type 0
Files = List (String × Attempt)

tally-put :
    (f : Attempt → ℕ) (k : String) (v : Attempt) (m : Files)
    → lookup k m ≡ none
    → tally f (values (put k v m)) ≡ f v + tally f (values m)
unfolding tally values put lookup
tally-put f k v [] h = omega arith
tally-put f k v ((j, w) ∷ m) h = ground (arith, tally-put f k v m)

-- What is used of a class, by the files
unfoldable pub spent : String → FailureClass → Files → ℕ
unfolding tally values
spent step cls files =
    tally (on_step step prior_used_of) (values files)
    + tally (on_step step (counts_as cls)) (values files)

pub used-spent :
    (step : String) (cls : FailureClass) (l : Ledger)
    → used cls (by_step step (read_all l)) ≡ spent step cls l.files
unfolding used read_all spent
used-spent step cls l = omega (
  arith,
  tally-by_step step prior_used_of (sort (values l.files)),
  tally-by_step step (counts_as cls) (sort (values l.files)),
  tally-sort (on_step step prior_used_of) (values l.files),
  tally-sort (on_step step (counts_as cls)) (values l.files),
)

on_own : (step : String) (f : Attempt → ℕ) (v : Attempt) → v.step ≡ step → on_step step f v ≡ f v
on_own step f v e = ground (arith, is_yes_iff (string_dec v.step step))

pub spent-put :
    (step : String) (cls : FailureClass) (k : String) (v : Attempt) (m : Files)
    → lookup k m ≡ none
    → v.step ≡ step
    → spent step cls (put k v m) ≡ spent step cls m + (prior_used_of v + counts_as cls v)
unfolding spent
spent-put step cls k v m h e = omega (
  arith,
  tally-put (on_step step prior_used_of) k v m h,
  tally-put (on_step step (counts_as cls)) k v m h,
  on_own step prior_used_of v e,
  on_own step (counts_as cls) v e,
)

-- What is left of a class, and of all of them
abbrev pub gap : StepSpec → FailureClass → Files → ℕ
gap spec cls files = allowed spec cls - spent spec.id cls files

unfoldable pub left : StepSpec → Files → ℕ
left spec files =
    gap spec code files
    + gap spec science files
    + gap spec budget files
    + gap spec infra files
    + gap spec unknown files

unfoldable pub budget_of : StepSpec → ℕ
budget_of spec =
    allowed spec code
    + allowed spec science
    + allowed spec budget
    + allowed spec infra
    + allowed spec unknown

pub left-le-budget_of : (spec : StepSpec) (files : Files) → left spec files ≤ budget_of spec
unfolding left budget_of
left-le-budget_of spec files = omega arith

same_class_self : (c : FailureClass) → same_class c c ≡ true
same_class_self code = refl
same_class_self science = refl
same_class_self budget = refl
same_class_self infra = refl
same_class_self unknown = refl

module _ (spec : StepSpec) (k : String) (v : Attempt) (m : Files) (new : lookup k m ≡ none)
    (own : v.step ≡ spec.id) (prior : prior_used_of v ≡ 0) where
  spent-own : (c : FailureClass) → spent spec.id c (put k v m) ≡ spent spec.id c m + counts_as c v
  spent-own c = omega (arith, spent-put spec.id c k v m new own, prior)

  -- An attempt that has not failed uses nothing.
  pub spent-fresh :
      (c : FailureClass) → v.failure ≡ none → spent spec.id c (put k v m) ≡ spent spec.id c m
  spent-fresh c h = let e : counts_as c v ≡ 0 = rw h refl in omega (arith, spent-own c)

  all_own :
      (spent spec.id code m ≤ spent spec.id code (put k v m))
      × (spent spec.id science m ≤ spent spec.id science (put k v m))
      × (spent spec.id budget m ≤ spent spec.id budget (put k v m))
      × (spent spec.id infra m ≤ spent spec.id infra (put k v m))
      × (spent spec.id unknown m ≤ spent spec.id unknown (put k v m))
  all_own = (
    omega (arith, spent-own code),
    omega (arith, spent-own science),
    omega (arith, spent-own budget),
    omega (arith, spent-own infra),
    omega (arith, spent-own unknown),
  )

  counts_as-retried : (c : FailureClass) → v.failure ≡ some (to_retry c) → counts_as c v ≡ 1
  counts_as-retried c h = ground (arith, same_class_self c)

  one :
      (c : FailureClass)
      → counts_as c v ≡ 1
      → spent spec.id c m < allowed spec c
      → left spec (put k v m) < left spec m
  unfolding left
  one code h l = omega (arith, spent-own code, all_own)
  one science h l = omega (arith, spent-own science, all_own)
  one budget h l = omega (arith, spent-own budget, all_own)
  one infra h l = omega (arith, spent-own infra, all_own)
  one unknown h l = omega (arith, spent-own unknown, all_own)

  -- A failure that is retried uses one of its class, and nothing of the others.
  pub left-retried :
      (c : FailureClass)
      → v.failure ≡ some (to_retry c)
      → spent spec.id c m < allowed spec c
      → left spec (put k v m) < left spec m
  left-retried c h l = one c (counts_as-retried c h) l
