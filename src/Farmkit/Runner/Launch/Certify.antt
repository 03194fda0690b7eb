-- ===== src/Farmkit/Runner/Launch/Certify.antt =====
-- When `_finalize` of src/farmkit/runner.py takes an attempt as verified.
use agent_farm_runtime.Farmkit.Verify.{Artifact, is_present, find}
use agent_farm_runtime.Prelude.{
  ◌≡◌, Option, none, some, Bool, true, false, codes, chars_eq, List, Chars, String,
}
use agent_farm_runtime.Farmkit.Classify.{Verdict, normalized, bad_exit, FailureClass}
use agent_farm_runtime.Farmkit.Ledger.{Attempt, state_of}
use agent_farm_runtime.Farmkit.Steps.{StepSpec}
use agent_farm_runtime.Farmkit.Act.{
  Act, State, Outcome, returned, raised, ◌>>=◌, pure, Raised, read_rows,
}
use agent_farm_runtime.Farmkit.Runner.{Outside, main_output}
use agent_farm_runtime.Farmkit.Runner.Checks.{Gate, gate_record, verified, verify, artifacts_of}
use agent_farm_runtime.Farmkit.Runner.Checks.Laws.{Verified}
use agent_farm_runtime.Farmkit.Runner.Launch.{main_present, conclude, settle_failure}

abbrev verdict_in : Outcome (Option Verdict × Attempt) → Option Verdict
verdict_in (returned (v, r) s) = v
verdict_in (raised e s) = none

-- The step has a main output, and the attempt left it.
pub record HasMain (artifacts : List (Chars × Artifact)) (spec : StepSpec) : Type 0 where
  pub main : Chars
  pub declared : main_output spec ≡ some main
  pub left : is_present (find main artifacts) ≡ true

module _ (out : Outside) (spec : StepSpec) (relaunch : Act (Option Attempt)) (r : Attempt)
    (s : State) where
  abbrev present : Bool
  present = main_present (artifacts_of out s.done r spec) (main_output spec)

  -- The job completed with no bad exit code and left its main output, and all the checks passed.
  pub record Certified : Type 0 where
    pub completed : normalized (state_of r) ≡ codes "COMPLETED"
    pub exit : bad_exit r.exit_code ≡ false
    pub output : HasMain (artifacts_of out s.done r spec) spec
    pub gate : Gate
    pub then_state : State
    pub gate_is : gate_record spec s ≡ returned gate then_state
    pub verified : Verified out then_state.done r spec gate

  abbrev Judged : Type 0
  Judged = Option Verdict × Attempt

  abbrev as_judged : Verdict × Attempt → Act Judged
  as_judged (v, r') = pure (some v, r')

  -- The three ways of a finalization: it publishes and clears the failure of the attempt, it goes on
  -- to retry or to park it for a class of failure, or the verification raised.
  pub data Finalizes (o : Outcome (List String)) : Type 0 where
    passes :
        (r' : Attempt) (s' : State)
        → Certified
        → o ≡ conclude out spec relaunch r' none s'
        → Finalizes o
    fails :
        (cls : FailureClass) (r' : Attempt) (s' : State)
        → o ≡ (read_rows >>= settle_failure out spec relaunch cls r') s'
        → Finalizes o
    stops :
        (e : Raised) (s' : State)
        → verify out r spec s ≡ raised e s'
        → o ≡ raised e s'
        → Finalizes o
