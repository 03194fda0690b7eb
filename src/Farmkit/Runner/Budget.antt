-- ===== src/Farmkit/Runner/Budget.antt =====
-- src/farmkit/runner.py: the budget of a step, and the record of an attempt that failed (`_finalize`).
use agent_farm_runtime.Prelude.{
  ℕ, zero, suc, ◌+◌, Option, none, some, Bool, true, false, List, [], ◌∷◌, Chars, if◌then◌else◌,
}
use agent_farm_runtime.Farmkit.Classify.{
  FailureClass, code, science, budget, infra, unknown, max_auto,
}
use agent_farm_runtime.Farmkit.Ledger.{Attempt, Failure}
use agent_farm_runtime.Farmkit.Steps.{StepSpec}

-- The sum over the attempts of a step
unfoldable pub tally : (Attempt → ℕ) → List Attempt → ℕ
tally f [] = 0
tally f (r ∷ rows) = f r + tally f rows

abbrev pub prior_used_of : Attempt → ℕ
prior_used_of r = elim r.budget.prior_used [ none ↦ 0 | some n ↦ n ]

abbrev pub same_class : FailureClass → FailureClass → Bool
same_class code code = true
same_class science science = true
same_class budget budget = true
same_class infra infra = true
same_class unknown unknown = true
same_class _ _ = false

abbrev pub counts_as : FailureClass → Attempt → ℕ
counts_as cls r = elim r.failure [ none ↦ 0 | some f ↦ if same_class f.cls cls then 1 else 0 ]

-- `used`: what was spent before adoption, and the failures of this class in the ledger
unfoldable pub used : FailureClass → List Attempt → ℕ
unfolding tally
used cls rows = tally prior_used_of rows + tally (counts_as cls) rows

-- `int(spec.retry.get(cls, MAX_AUTO.get(cls, 0)))`
abbrev pub allowed : StepSpec → FailureClass → ℕ
allowed spec cls = elim (spec.retry cls) [ none ↦ max_auto cls | some n ↦ n ]

abbrev truthy : Option ℕ → Option ℕ
truthy none = none
truthy (some zero) = none
truthy (some (suc n)) = some (suc n)

-- The record of an attempt that failed
abbrev pub with_failure : StepSpec → FailureClass → ℕ → Failure → Attempt → Attempt
with_failure spec cls n f r = record r {
  failure = some f;
  budget = record {
    cls = some cls;
    max_auto = allowed spec cls;
    used = n;
    prior_used = truthy r.budget.prior_used;
  };
}

abbrev pub to_retry : FailureClass → Failure
to_retry cls = record { cls = cls; parked = false; retried = true; released = none; ruling = none }

abbrev pub to_park : FailureClass → Chars → Failure
to_park cls ruling = record {
  cls = cls;
  parked = true;
  retried = false;
  released = none;
  ruling = some ruling;
}
