-- ===== src/Farmkit/Runner/Tick.antt =====
-- src/farmkit/runner.py: one tick of the runner (`tick`, `_observe_and_finalize`, `_barriers`,
-- `_decide`). The texts of its report and its checkpoint are left out.
pub mod Decide
pub mod Rounds
pub mod Walk
pub mod Ends
use agent_farm_runtime.Prelude.{
  ℕ, zero, suc, ◌+◌, ◌*◌, String, Option, none, some, Bool, not, List, [], ◌∷◌, ◌++◌, map, keep,
  length, contains, codes, Chars, chars_eq, is_set, string_eq, if◌then◌else◌, ◌==◌,
}
use agent_farm_runtime.Farmkit.Classify.{unknown, is_terminal, starts_with}
use agent_farm_runtime.Farmkit.Rulings.{ruling_name}
use agent_farm_runtime.Farmkit.Ledger.{Attempt, state_of, is_open, unfinalized, in_flight, parked}
use agent_farm_runtime.Farmkit.Steps.{StepSpec, ready, all_ok}
use agent_farm_runtime.Farmkit.Verify.{pass}
use agent_farm_runtime.Farmkit.Act.{Act, pure, read_rows, store, ◌>>=◌, ◌>>◌}
use agent_farm_runtime.Farmkit.Intent.{submit, reconcile_all, Lookup}
use agent_farm_runtime.Farmkit.Waits.{wait_reference, job_reference}
use agent_farm_runtime.Farmkit.Runner.{Outside, job_text}
use agent_farm_runtime.Farmkit.Runner.Barriers.{barriers}
use agent_farm_runtime.Farmkit.Runner.Launch.{finalize, launch}

abbrev pub is_barrier : Attempt → Bool
is_barrier r = starts_with (codes "barrier:") (codes r.step)

-- What a tick tells the worker to report
pub data Decision : Type 0 where
  awaiting : Chars → Decision
  submitted_all : Decision

abbrev ruling_text : Attempt → Chars
ruling_text r = elim r.failure [ none ↦ [] | some f ↦ elim f.ruling [ none ↦ [] | some t ↦ t ] ]

-- The rulings of the parked attempts
unfoldable pub parked_rulings : List Attempt → List Chars
unfolding keep parked
parked_rulings rows = keep is_set (map ruling_text (parked rows))

unfoldable pub open_rows : List Attempt → List Attempt
unfolding keep
open_rows rows = keep (λ (r : Attempt). is_open r.submit) rows

-- The steps that are ready and were not attempted in this tick
unfoldable pub open_steps : List StepSpec → List Attempt → List String → List StepSpec
unfolding ready contains keep
open_steps specs rows done = keep (λ (s : StepSpec). not (contains done s.id)) (ready specs rows)

abbrev pub first_step : List StepSpec → Option StepSpec
first_step [] = none
first_step (s ∷ rest) = some s

module _ (out : Outside) (specs : List StepSpec) where
  abbrev unknown_ruling : Chars → Chars → Chars
  unknown_ruling step attempt_id = ruling_name out.task_id unknown step attempt_id

  abbrev pub when_settled : List Attempt → Decision
  when_settled rows =
      if all_ok specs rows
      then submitted_all
      else awaiting (unknown_ruling (codes "no-progress") (codes "00000000"))

  abbrev pub when_parked : List Attempt → List Chars → Decision
  when_parked rows [] = when_settled rows
  when_parked rows (p ∷ ps) = awaiting p

  abbrev pub when_open : List Attempt → List Attempt → Decision
  when_open rows [] = when_parked rows (parked_rulings rows)
  when_open rows (r ∷ rest) =
      awaiting (unknown_ruling (codes "submit-" ++ codes r.step) (codes r.attempt_id))

  abbrev jobs : List Attempt → List Chars
  jobs rows = map job_text rows

  abbrev reference : Option Chars → Chars
  reference none = []
  reference (some w) = w

  abbrev pub when_flying : List Attempt → List Attempt → List Attempt → Decision
  when_flying rows [] _ = when_open rows (open_rows rows)
  when_flying rows (r ∷ rest) [] =
      awaiting (reference (wait_reference (jobs (r ∷ rest)) (λ j. none) none))
  when_flying rows (r ∷ rest) (b ∷ bs) = awaiting (job_reference (job_text b))

  -- `_decide`
  unfoldable pub decide : List Attempt → Decision
  unfolding in_flight open_rows parked_rulings all_ok wait_reference ruling_name keep
  decide rows = when_flying rows (in_flight rows) (keep is_barrier (in_flight rows))

  abbrev pub spec_of : String → List StepSpec → Option StepSpec
  spec_of step [] = none
  spec_of step (x ∷ rest) = elim (spec_of step rest) [
    | some y ↦ some y
    | none ↦ if x.id == step then some x else none
  ]

  -- An attempt of no step of the table, such as a barrier, is taken as passed.
  abbrev pub take_as_passed : Attempt → Act (List String)
  take_as_passed r = store out.env (record r { verdict = some pass }) >> pure []

  abbrev pub finalize_as : ℕ → Attempt → Option StepSpec → Act (List String)
  finalize_as fuel r none = take_as_passed r
  finalize_as fuel r (some spec) = finalize out spec (launch out spec fuel) r

  -- The loop over the attempts whose verification was never recorded
  unfoldable pub finalize_rows : ℕ → List Attempt → Act (List String)
  unfolding store finalize launch
  finalize_rows fuel [] = pure []
  finalize_rows fuel (r ∷ rest) = do
    added ← finalize_as fuel r (spec_of r.step specs)
    later ← finalize_rows fuel rest
    pure (added ++ later)

  abbrev pub observed_as : (Chars → Option Chars) → Attempt → Attempt
  observed_as states r = record r { observed = some (states (job_text r)) }

  abbrev pub observe_one : ℕ → Attempt → Act (List String)
  observe_one fuel r =
      if is_terminal (state_of r)
      then finalize_as fuel r (spec_of r.step specs)
      else (store out.env r >> pure [])

  -- The loop over the attempts in flight
  unfoldable pub observe_rows : ℕ → (Chars → Option Chars) → List Attempt → Act (List String)
  unfolding store finalize launch is_terminal
  observe_rows fuel states [] = pure []
  observe_rows fuel states (r ∷ rest) = do
    added ← observe_one fuel (observed_as states r)
    later ← observe_rows fuel states rest
    pure (added ++ later)

  -- The states of the jobs in flight are asked for at once.
  unfoldable pub observe_flying : ℕ → List String → List Attempt → Act (List String)
  unfolding observe_rows
  observe_flying fuel first flying s =
      let states = out.observed s.done (map job_text flying) in
      (observe_rows fuel states flying >>= λ later. pure (first ++ later)) s

  -- `_observe_and_finalize`; it gives what it adds to `submitted`.
  unfoldable pub observe_and_finalize : ℕ → Act (List String)
  unfolding read_rows unfinalized in_flight finalize_rows observe_flying
  observe_and_finalize fuel = do
    rows ← read_rows
    first ← finalize_rows fuel (unfinalized rows)
    rows' ← read_rows
    observe_flying fuel first (in_flight rows')

  -- The launches of a tick, with the rounds that are left
  module _ (launch_step : StepSpec → Act (Option Attempt)) where
    abbrev pub round :
        (List String → Act (List String)) → List String → Option StepSpec → Act (List String)
    round rest done none = pure done
    round rest done (some spec) = launch_step spec >> rest (done ++ spec.id ∷ [])

    unfoldable pub rounds : ℕ → List String → Act (List String)
    unfolding read_rows open_steps
    rounds zero done = pure done
    rounds (suc n) done = do
      rows ← read_rows
      round (rounds n) done (first_step (open_steps specs rows done))

  abbrev pub reconcile_with : Option Lookup → Act (Unit {0})
  reconcile_with none = pure tt
  reconcile_with (some lookup_jobs) = reconcile_all out.env lookup_jobs >> pure tt

  -- What a tick ends with: the barriers, and what to report, with the steps that were submitted
  unfoldable pub report : List String → Act (Decision × List String)
  unfolding barriers read_rows decide
  report launched = do
    groups ← barriers out specs
    rows ← read_rows
    pure (decide rows, launched ++ groups)

  -- `tick`: the reconciliation of intents, the jobs that ended, the launches, and the report.
  unfoldable pub tick : ℕ → Act (Decision × List String)
  unfolding reconcile_all observe_and_finalize rounds launch report
  tick fuel = do
    reconcile_with out.accounting
    first ← observe_and_finalize fuel
    later ← rounds (λ spec. launch out spec fuel) (length specs * 2 + 1) first
    report later
