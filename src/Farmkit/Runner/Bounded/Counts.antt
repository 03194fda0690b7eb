-- ===== src/Farmkit/Runner/Bounded/Counts.antt =====
-- The attempts of a step that were retried automatically, counted in the files of the ledger.
use agent_farm_runtime.Prelude.{
  ◌==◌, string_eq, false, Bool, ◌≡◌, refl, ℕ, ◌+◌, ◌≤◌, String, none, some, true, ◌&&◌, List, [],
  ◌∷◌, put, values, arith, if◌then◌else◌, string_eq,
}
use agent_farm_runtime.Farmkit.Classify.{FailureClass, code, science, budget, infra, unknown}
use agent_farm_runtime.Farmkit.Ledger.{Attempt}
use agent_farm_runtime.Farmkit.Runner.Budget.{tally, counts_as, same_class, to_retry}
use agent_farm_runtime.Farmkit.Runner.Launch.Retries.{on_step, spent}

abbrev pub retried_as : FailureClass → Attempt → ℕ
retried_as cls r = elim r.failure [
  | none ↦ 0
  | some f ↦ if f.retried && same_class f.cls cls then 1 else 0
]

unfoldable pub retries : String → FailureClass → List (String × Attempt) → ℕ
unfolding tally values
retries step cls files = tally (on_step step (retried_as cls)) (values files)

tally-le :
    (f g : Attempt → ℕ) (rows : List Attempt)
    → ((r : Attempt) → f r ≤ g r)
    → tally f rows ≤ tally g rows
unfolding tally
tally-le f g [] h = omega arith
tally-le f g (r ∷ rows) h = omega (arith, h r, tally-le f g rows h)

-- A write of a record adds at most that record.
tally-put-le :
    (f : Attempt → ℕ) (k : String) (v : Attempt) (m : List (String × Attempt))
    → tally f (values (put k v m)) ≤ f v + tally f (values m)
unfolding tally values put
tally-put-le f k v [] = omega arith
tally-put-le f k v ((j, w) ∷ m) = ground (arith, tally-put-le f k v m)

pub retries-put :
    (step : String) (cls : FailureClass) (k : String) (v : Attempt) (m : List (String × Attempt))
    → retries step cls (put k v m) ≤ on_step step (retried_as cls) v + retries step cls m
unfolding retries
retries-put step cls k v m = tally-put-le (on_step step (retried_as cls)) k v m

retried_as-le :
    (step : String) (cls : FailureClass) (r : Attempt)
    → on_step step (retried_as cls) r ≤ on_step step (counts_as cls) r
retried_as-le step cls r = ground arith

-- A retry is a failure that was counted.
pub retries-spent :
    (step : String) (cls : FailureClass) (m : List (String × Attempt))
    → retries step cls m ≤ spent step cls m
unfolding retries spent
retries-spent step cls m = omega (
  arith,
  tally-le (on_step step (retried_as cls)) (on_step step (counts_as cls)) (values m)
      (retried_as-le step cls),
)

pub same_class-same : (a b : FailureClass) → same_class a b ≡ true → a ≡ b
same_class-same code code h = refl
same_class-same science science h = refl
same_class-same budget budget h = refl
same_class-same infra infra h = refl
same_class-same unknown unknown h = refl
same_class-same a b h = ground arith

-- The failure of the attempt was retried automatically.
abbrev pub is_retried : Attempt → Bool
is_retried r = elim r.failure [ none ↦ false | some f ↦ f.retried ]

pub uncounted :
    (step : String) (cls : FailureClass) (r : Attempt)
    → is_retried r ≡ false
    → on_step step (retried_as cls) r ≡ 0
uncounted step cls r h = ground (arith, h)

pub on_step-one :
    (step : String) (cls : FailureClass) (r : Attempt) → on_step step (retried_as cls) r ≤ 1
on_step-one step cls r = ground arith

pub on_step-elsewhere :
    (step : String) (f : Attempt → ℕ) (r : Attempt)
    → (r.step == step) ≡ false
    → on_step step f r ≡ 0
on_step-elsewhere step f r h = rw h refl

pub on_step-other_class :
    (step : String) (c d : FailureClass) (r : Attempt)
    → r.failure ≡ some (to_retry c)
    → same_class c d ≡ false
    → on_step step (retried_as d) r ≡ 0
on_step-other_class step c d r f h = ground (arith, f, h)
