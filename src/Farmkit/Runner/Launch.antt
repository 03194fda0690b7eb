-- ===== src/Farmkit/Runner/Launch.antt =====
-- src/farmkit/runner.py: the end of an attempt, with its budget, and the launch of a step
-- (`_finalize`, `_launch`, `_submit_sbatch`, `_run_local`). A launch of a local step ends its attempt,
-- which may launch the step again: the fuel counts the launches that are left.
pub mod Retries
pub mod Certify
pub mod Fuel
pub mod Termination
use agent_farm_runtime.Prelude.{
  ℕ, zero, suc, ◌+◌, String, Option, none, some, Bool, false, List, [], ◌∷◌, ◌++◌, codes, Chars,
  chars_eq, ltb, is_eq, if◌then◌else◌, ◌==◌,
}
use agent_farm_runtime.Farmkit.Classify.{
  FailureClass, code, Verdict, normalized, classify, starts_with,
}
use agent_farm_runtime.Farmkit.Rulings.{ruling_name}
use agent_farm_runtime.Farmkit.Ledger.{
  Attempt, Submit, SubmitStatus, new_record, by_step, latest, next_number, state_of, submitted,
  rejected, local,
}
use agent_farm_runtime.Farmkit.Steps
use agent_farm_runtime.Farmkit.Steps.{StepSpec, Kind}
use agent_farm_runtime.Farmkit.Verify.{Artifact, is_present, find}
use agent_farm_runtime.Farmkit.Act.{
  Act, State, ran, returned, pure, raise, read_rows, note, store, no_fuel, ◌>>=◌, ◌>>◌,
}
use agent_farm_runtime.Farmkit.Intent.{submit, sbatch_argv}
use agent_farm_runtime.Farmkit.Runner.{Outside, main_output, attempt_dir, sbatch_flags}
use agent_farm_runtime.Farmkit.Runner.Budget.{used, allowed, with_failure, to_retry, to_park}
use agent_farm_runtime.Farmkit.Runner.Checks.{artifacts_of, verify, publish}
use agent_farm_runtime.Runtime.Observers.{rest_of, text_or_empty}

abbrev main_present : List (Chars × Artifact) → Option Chars → Bool
main_present artifacts none = false
main_present artifacts (some m) = is_present (find m artifacts)

-- `previous_job` of steps.py
abbrev job_of : Option Attempt → Option Chars
job_of none = none
job_of (some a) = elim a.submit [ none ↦ none | some s ↦ s.job_id ]

unfoldable pub previous_job : List String → List Attempt → Option Chars
unfolding starts_with latest rest_of
previous_job [] rows = none
previous_job (dep ∷ after) rows =
    let rest = previous_job after rows in
    if starts_with (codes "chain:") (codes dep)
    then job_of (latest (text_or_empty (rest_of b':' dep)) rows)
    else rest

module _ (out : Outside) (spec : StepSpec) where
  -- `_write_evidence`: the file of the evidence is left out, and the record is written once more.
  abbrev write_evidence : Attempt → Act Attempt
  write_evidence r = store out.env r

  abbrev pub ruling_of : FailureClass → Attempt → Chars
  ruling_of cls r = ruling_name out.task_id cls (codes spec.id) (codes r.attempt_id)

  unfoldable pub park : FailureClass → ℕ → Attempt → Act (List String)
  unfolding store ruling_name
  park cls n r = do
    r' ← store out.env (with_failure spec cls n (to_park cls (ruling_of cls r)) r)
    write_evidence r'
    pure []

  module _ (relaunch : Act (Option Attempt)) where
    abbrev relaunched : Option Attempt → List String
    relaunched none = []
    relaunched (some a) = spec.id ∷ []

    unfoldable pub retry : FailureClass → ℕ → Attempt → Act (List String)
    unfolding store
    retry cls n r = do
      r' ← store out.env (with_failure spec cls n (to_retry cls) r)
      write_evidence r'
      again ← relaunch
      pure (relaunched again)

    unfoldable pub settle_failure : FailureClass → Attempt → List Attempt → Act (List String)
    unfolding retry park used by_step
    settle_failure cls r rows =
        let n = used cls (by_step spec.id rows) in
        if ltb n (allowed spec cls) then retry cls n r else park cls n r

    unfoldable pub conclude : Attempt → Option FailureClass → Act (List String)
    unfolding publish store read_rows settle_failure
    conclude r none = do
      publish out (record r { failure = none }) spec
      store out.env (record r { failure = none })
      pure []
    conclude r (some cls) = do rows ← read_rows; settle_failure cls r rows

    -- The verdict of an attempt whose job completed
    unfoldable pub judge : Attempt → Act (Option Verdict × Attempt)
    unfolding normalized verify
    judge r =
        if normalized (state_of r) == codes "COMPLETED"
        then (verify out r spec >>= λ (v, r'). pure (some v, r'))
        else pure (none, r)

    -- `_finalize`; it gives what it adds to `submitted`.
    unfoldable pub finalize : Attempt → Act (List String)
    unfolding judge classify conclude artifacts_of
    finalize r s =
        let present = main_present (artifacts_of out s.done r spec) (main_output spec) in
        (judge r >>= λ (v, r'). conclude r' (classify (state_of r) v present r.exit_code)) s

  unfoldable pub refuse_sbatch : Attempt → Act (Option Attempt)
  unfolding store ruling_name
  refuse_sbatch r = do
    r' ← store out.env (record r { failure = some (to_park code (ruling_of code r)) })
    write_evidence r'
    pure none

  abbrev pub by_status : Attempt → SubmitStatus → Act (Option Attempt)
  by_status r submitted = pure (some r)
  by_status r rejected = refuse_sbatch r
  by_status r _ = pure none

  abbrev pub after_status : Attempt → Option Submit → Act (Option Attempt)
  after_status r none = pure none
  after_status r (some s) = by_status r s.status

  -- The arguments of sbatch for an attempt
  unfoldable pub argv_of : Attempt → List Attempt → List Chars
  unfolding sbatch_argv sbatch_flags previous_job
  argv_of r rows =
      let script = attempt_dir out r.attempt_id ++ codes "/code/" ++ spec.run in
      sbatch_argv r script (sbatch_flags out r spec (previous_job spec.after rows))

  unfoldable pub submit_after : Attempt → List Attempt → Act (Option Attempt)
  unfolding submit argv_of refuse_sbatch
  submit_after r rows = do r' ← submit out.env r (argv_of r rows); after_status r' r'.submit

  -- `_submit_sbatch`
  unfoldable pub submit_sbatch : Attempt → Act (Option Attempt)
  unfolding read_rows submit_after
  submit_sbatch r = read_rows >>= submit_after r

  -- `1` stands for a call that raises.
  abbrev pub exit_of : Option ℕ → ℕ
  exit_of none = 1
  exit_of (some rc) = rc

  abbrev pub after_run : ℕ → Attempt → Attempt
  after_run rc r = record r {
    exit_code = some rc;
    observed = some (some (if is_eq rc 0 then codes "COMPLETED" else codes "FAILED"));
  }

  abbrev pub as_local : Attempt → Attempt
  as_local r = record r { submit = some (record { status = local; job_id = none; error = none }) }

  -- `_run_local`
  unfoldable pub run_local : Act (Option Attempt) → Attempt → Act (Option Attempt)
  unfolding store note finalize
  run_local relaunch r = do
    r1 ← store out.env (as_local r)
    rc ← λ s. returned (exit_of (out.run_local s.done spec)) s
    note (ran spec.id)
    r2 ← store out.env (after_run rc r1)
    finalize relaunch r2
    pure (some r2)

  -- The record that `_launch` makes
  abbrev pub launched : State → List Attempt → Attempt
  launched s rows =
      let id = out.fresh_id s in
      let r = record (new_record id spec.id (next_number spec.id rows) (out.stamp s.done)) {
        code = out.snapshot s.done spec;
        run_dir = some (attempt_dir out id ++ codes "/code");
      } in
      record r { inputs = out.describe s.done r }

  abbrev pub by_kind : Act (Option Attempt) → Attempt → Kind → Act (Option Attempt)
  by_kind relaunch r Kind.sbatch = submit_sbatch r
  by_kind relaunch r Kind.local = run_local relaunch r

  -- `_launch`
  unfoldable pub launch_with : Act (Option Attempt) → Act (Option Attempt)
  unfolding read_rows next_number submit_sbatch run_local
  launch_with relaunch = do rows ← read_rows; λ s. by_kind relaunch (launched s rows) spec.kind s

  unfoldable pub launch : ℕ → Act (Option Attempt)
  unfolding launch_with
  launch zero = raise no_fuel
  launch (suc fuel) = launch_with (launch fuel)
