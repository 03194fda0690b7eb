-- ===== src/Farmkit/Runner/Bounded/Launched.antt =====
-- A launch writes automatic retries only within the budget.
use agent_farm_runtime.Prelude.{
  rstrip, upper, take_word, lstrip, chars_eq, string_eq, is_eq, codes, contains, ◌≡◌, refl, inl,
  inr, ℕ, zero, suc, Option, none, some, true, false, ◌∷◌, arith, Bool-cases, if◌then◌else◌,
}
use agent_farm_runtime.Farmkit.Ledger.{Attempt, all_attempts}
use agent_farm_runtime.Farmkit.Steps.{StepSpec, Kind}
use agent_farm_runtime.Farmkit.Act.{Act, State, store, note, read_rows, pure, ran}
use agent_farm_runtime.Farmkit.Act.Rules.{stamped, stored}
use agent_farm_runtime.Farmkit.Act.Kept.{Kept, gives, breaks, Kept-bind}
use agent_farm_runtime.Farmkit.Runner.{Outside}
use agent_farm_runtime.Farmkit.Runner.Launch.{
  run_local, as_local, after_run, exit_of, by_kind, launched, launch_with, launch,
}
use agent_farm_runtime.Farmkit.Classify.{is_terminal, normalized}
use agent_farm_runtime.Farmkit.Ledger.{state_of}
use agent_farm_runtime.Farmkit.Runner.Bounded.Counts.{is_retried}
use agent_farm_runtime.Farmkit.Runner.Bounded.Records.{untried-Sane}
use agent_farm_runtime.Farmkit.Runner.Bounded.Submitted.{submit_sbatch-Kept}
use agent_farm_runtime.Farmkit.Runner.Bounded.Writes.{
  Limit, Bounded, read-Bounded, stored-Bounded, noted-Bounded,
}
use agent_farm_runtime.Farmkit.Runner.Bounded.Settled.{Leaves, finalize-Kept}

pub not_begun : is_terminal none ≡ false
unfolding is_terminal normalized contains
not_begun = ground arith

completed_over : is_terminal (some (codes "COMPLETED")) ≡ true
unfolding is_terminal normalized contains rstrip upper take_word lstrip
completed_over = ground arith

failed_over : is_terminal (some (codes "FAILED")) ≡ true
unfolding is_terminal normalized contains rstrip upper take_word lstrip
failed_over = ground arith

exit_over :
    (rc : ℕ) → is_terminal (some (if is_eq rc 0 then codes "COMPLETED" else codes "FAILED")) ≡ true
exit_over rc = elim (Bool-cases (is_eq rc 0)) [
  | inl e ↦ rw e completed_over
  | inr e ↦ rw e failed_over
]

module _ (limit : Limit) (out : Outside) (spec : StepSpec) (leaves : Leaves limit spec) where
  module _ (relaunch : Act (Option Attempt))
      (again : (s : State) → Bounded limit s → Kept (Bounded limit) (relaunch s)) where
    run_local-Kept :
        (r : Attempt) (s : State)
        → r.step ≡ spec.id
        → is_retried r ≡ false
        → Bounded limit s
        → Kept (Bounded limit) (run_local out spec relaunch r s)
    unfolding run_local store note
    run_local-Kept r s own u b =
        let r1 = as_local out spec r in
        let begun = stamped out.env r1 s in
        let running = stored out.env r1 s in
        let rc = exit_of out spec (out.run_local running.done spec) in
        let over = after_run out spec rc begun in
        let noted : State = record { ledger = running.ledger; done = ran spec.id ∷ running.done } in
        let r2 = stamped out.env over noted in
        Kept-bind (Bounded limit) (λ _. pure (some r2))
          (finalize-Kept limit out spec leaves relaunch again r2 (stored out.env over noted) own
            (record { untried = u; over = exit_over rc; settled = refl })
            (stored-Bounded limit out over noted u (untried-Sane over u refl) (
              noted-Bounded limit (ran spec.id) running
                (stored-Bounded limit out r1 s u (untried-Sane r1 u refl) b))))
          (λ _ t d. gives d)

    by_kind-Kept :
        (k : Kind) (r : Attempt) (s : State)
        → r.step ≡ spec.id
        → is_retried r ≡ false
        → is_terminal (state_of r) ≡ false
        → Bounded limit s
        → Kept (Bounded limit) (by_kind out spec relaunch r k s)
    by_kind-Kept Kind.sbatch r s own u e b = submit_sbatch-Kept limit out spec r s u e b
    by_kind-Kept Kind.local r s own u e b = run_local-Kept r s own u b

    launch_with-Kept :
        (s : State) → Bounded limit s → Kept (Bounded limit) (launch_with out spec relaunch s)
    unfolding launch_with read_rows
    launch_with-Kept s b =
        let t : State = record { ledger = (all_attempts s.ledger).0; done = s.done } in
        by_kind-Kept spec.kind (launched out spec t (all_attempts s.ledger).1) t refl refl not_begun
          (read-Bounded limit s b)

  pub launch-Kept :
      (fuel : ℕ) (s : State) → Bounded limit s → Kept (Bounded limit) (launch out spec fuel s)
  unfolding launch
  launch-Kept zero s b = breaks b
  launch-Kept (suc fuel) s b = launch_with-Kept (launch out spec fuel) (launch-Kept fuel) s b
