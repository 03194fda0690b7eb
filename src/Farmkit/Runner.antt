-- ===== src/Farmkit/Runner.antt =====
-- src/farmkit/runner.py: what a runner takes from outside, and the texts it makes of an attempt.
pub mod Checks
pub mod Budget
pub mod Launch
pub mod Bounded
pub mod Barriers
pub mod Tick
mod Ids
mod Tests
use agent_farm_runtime.Prelude.{
  ℕ, String, Option, none, some, Bool, false, not, List, [], ◌∷◌, ◌++◌, map, keep, contains, codes,
  Chars, chars_eq, is_set, if◌then◌else◌,
}
use agent_farm_runtime.Farmkit.Ledger.{Attempt, Input}
use agent_farm_runtime.Farmkit.Steps.{StepSpec}
use agent_farm_runtime.Farmkit.Verify.{Artifact, Code, Verified}
use agent_farm_runtime.Farmkit.Act.{Env, Event, State}
use agent_farm_runtime.Farmkit.Intent.{Lookup}
use agent_farm_runtime.Farmkit.Observe.{join_with}

-- The destination of an output: the parts of its resolved path, whether it is the source, and, for
-- a directory, whether its replacement succeeds.
pub record Target : Type 0 where
  pub source_exists : Bool
  pub resolved : List Chars
  pub same : Bool
  pub replaces : Bool

-- The programs, the clock, the ids that are drawn, and the files of the workspace and of the run
-- directories, as they stand after what was done.
pub record Outside : Type 0 where
  pub env : Env
  pub fresh_id : State → String
  pub stamp : List Event → String
  pub task_id : Option Chars
  pub workspace : List Chars
  pub workspace_text : Chars
  pub root : Chars
  pub snapshot : List Event → StepSpec → Code
  pub describe : List Event → Attempt → List (Chars × Input)
  pub in_run_dir : List Event → Attempt → Chars → Artifact
  pub in_workspace : List Event → Chars → Artifact
  pub verifier : List Event → Attempt → StepSpec → Verified
  pub target : List Event → Attempt → Chars → Target
  pub run_local : List Event → StepSpec → Option ℕ
  pub observed : List Event → List Chars → Chars → Option Chars
  pub accounting : Option Lookup
  pub barrier_partition : Option Chars
  pub barrier_time : Chars

-- The job of an attempt, if it has one
abbrev pub job_text : Attempt → Chars
job_text r = elim r.submit [ none ↦ [] | some s ↦ elim s.job_id [ none ↦ [] | some j ↦ j ] ]

abbrev pub has_run_dir : Attempt → Bool
has_run_dir r = elim r.run_dir [ none ↦ false | some d ↦ is_set d ]

abbrev pub main_output : StepSpec → Option Chars
main_output spec = elim spec.outputs [ [] ↦ none | ◌∷◌ x rest ↦ some x ]

abbrev pub step_keys : List Chars
step_keys =
    codes "FARMKIT_ATTEMPT_ID"
    ∷ codes "FARMKIT_STEP"
    ∷ codes "FARMKIT_WORKSPACE"
    ∷ codes "FARMKIT_RUN_DIR"
    ∷ []

module _ (out : Outside) where
  abbrev pub attempt_dir : String → Chars
  attempt_dir attempt_id = out.root ++ b'/' ∷ codes attempt_id

  -- `rec.get("run_dir") or str(self.workspace)`
  abbrev pub run_dir_or_workspace : Attempt → Chars
  run_dir_or_workspace r = elim r.run_dir [
    | none ↦ out.workspace_text
    | some d ↦ if is_set d then d else out.workspace_text
  ]

  -- `_step_env`
  unfoldable pub step_env : Attempt → StepSpec → List (Chars × Chars)
  unfolding keep contains
  step_env r spec =
      keep (λ (p : Chars × Chars). not (contains step_keys p.0)) spec.env
      ++ (codes "FARMKIT_ATTEMPT_ID", codes r.attempt_id)
        ∷ (codes "FARMKIT_STEP", codes spec.id)
        ∷ (codes "FARMKIT_WORKSPACE", out.workspace_text)
        ∷ (codes "FARMKIT_RUN_DIR", run_dir_or_workspace r)
        ∷ []

  abbrev dependency : StepSpec → Option Chars → List Chars
  dependency spec none = []
  dependency spec (some job) =
      if is_set job then (codes "--dependency=" ++ spec.chain ++ b':' ∷ job) ∷ [] else []

  -- `extra` in `_submit_sbatch`
  unfoldable pub sbatch_flags : Attempt → StepSpec → Option Chars → List Chars
  unfolding step_env join_with
  sbatch_flags r spec previous =
      (codes "--chdir=" ++ run_dir_or_workspace r)
      ∷ (codes "--output=" ++ attempt_dir r.attempt_id ++ codes "/slurm.out")
      ∷ (codes "--error=" ++ attempt_dir r.attempt_id ++ codes "/slurm.err")
      ∷ (codes "--export=ALL,"
          ++ join_with (codes ",")
              (map (λ (p : Chars × Chars). p.0 ++ b'=' ∷ p.1) (step_env r spec)))
      ∷ dependency spec previous
