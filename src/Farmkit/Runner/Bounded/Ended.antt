-- ===== src/Farmkit/Runner/Bounded/Ended.antt =====
-- The attempts that a tick ends are retried automatically only within the budget.
use agent_farm_runtime.Prelude.{
  ◌≡◌, inl, inr, ℕ, String, Option, none, some, true, false, List, [], All, arith, Bool-cases,
  string_eq,
}
use agent_farm_runtime.Farmkit.Classify.{is_terminal}
use agent_farm_runtime.Farmkit.Ledger.{
  Attempt, Submit, is_unfinalized, is_in_flight, has_job, is_open, state_of,
}
use agent_farm_runtime.Farmkit.Verify.{pass}
use agent_farm_runtime.Farmkit.Steps.{StepSpec}
use agent_farm_runtime.Farmkit.Act.{State, pure}
use agent_farm_runtime.Farmkit.Act.Kept.{Kept, gives, Kept-bind}
use agent_farm_runtime.Farmkit.Runner.{Outside}
use agent_farm_runtime.Farmkit.Runner.Launch.{launch}
use agent_farm_runtime.Farmkit.Runner.Tick.{spec_of, finalize_as, observe_one}
use agent_farm_runtime.Farmkit.Runner.Tick.Walk.{Found, not_found, is_found, spec_of-Found}
use agent_farm_runtime.Farmkit.Runner.Bounded.Counts.{is_retried}
use agent_farm_runtime.Farmkit.Runner.Bounded.Records.{Sane, Ending, untried-Sane}
use agent_farm_runtime.Farmkit.Runner.Bounded.Writes.{Limit, Bounded, store-Kept}
use agent_farm_runtime.Farmkit.Runner.Bounded.Launched.{launch-Kept}
use agent_farm_runtime.Farmkit.Runner.Bounded.Settled.{Leaves, finalize-Kept}

pub unfinalized-Ending : (r : Attempt) → Sane r → is_unfinalized r ≡ true → Ending r
unfolding is_unfinalized
unfinalized-Ending r s h =
    let over : is_terminal (state_of r) ≡ true = ground (arith, h) in
    record { untried = ground (arith, h); over = over; settled = s.closed over }

job-settled : (o : Option Submit) → has_job o ≡ true → is_open o ≡ false
job-settled none h = absurd (cc)
job-settled (some s) h = ground (arith, h)

-- An attempt in flight was not retried, and is no open intent.
pub flying_settled :
    (r : Attempt)
    → Sane r
    → is_in_flight r ≡ true
    → (is_retried r ≡ false) × (is_open r.submit ≡ false)
unfolding is_in_flight
flying_settled r s h =
    let flies : is_terminal (state_of r) ≡ false = ground (arith, h) in
    (
      elim (Bool-cases (is_retried r)) [
        | inl t ↦ let c = s.ended t in absurd (ground (arith, c, flies))
        | inr t ↦ t
      ],
      job-settled r.submit (ground (arith, h)),
    )

module _ (limit : Limit) (out : Outside) (specs : List StepSpec) (fuel : ℕ)
    (leaves : All (Leaves limit) specs) where
  finalize_as-Kept :
      (r : Attempt) (s : State) {o : Option StepSpec}
      → Found (Leaves limit) r.step o
      → Ending r
      → Bounded limit s
      → Kept (Bounded limit) (finalize_as out specs fuel r o s)
  finalize_as-Kept r s not_found g b =
      let r' = record r { verdict = some pass } in
      Kept-bind (Bounded limit) (λ _. pure {A = List String} [])
        (store-Kept limit out r' s g.untried (untried-Sane r' g.untried g.settled) b)
        (λ _ t d. gives d)
  finalize_as-Kept r s (is_found {spec} own l) g b =
      finalize-Kept limit out spec l (launch out spec fuel) (launch-Kept limit out spec l fuel) r s
        own g b

  pub own-Kept :
      (r : Attempt) (s : State)
      → Ending r
      → Bounded limit s
      → Kept (Bounded limit) (finalize_as out specs fuel r (spec_of out specs r.step specs) s)
  own-Kept r s g b =
      finalize_as-Kept r s (spec_of-Found (Leaves limit) out specs r.step specs leaves) g b

  pub observe_one-Kept :
      (r : Attempt) (s : State)
      → is_retried r ≡ false
      → is_open r.submit ≡ false
      → Bounded limit s
      → Kept (Bounded limit) (observe_one out specs fuel r s)
  observe_one-Kept r s u o b = elim (Bool-cases (is_terminal (state_of r))) [
    | inl e ↦ rw e (own-Kept r s (record { untried = u; over = e; settled = o }) b)
    | inr e ↦ rw e (
        Kept-bind (Bounded limit) (λ _. pure {A = List String} [])
          (store-Kept limit out r s u (untried-Sane r u o) b) (λ _ t d. gives d))
  ]
