-- ===== src/Runtime/Slurm/Laws.antt =====
-- What an answer of `slurm_state` of src/agent_farm_runtime/adapters/slurm.py rests on.
use agent_farm_runtime.Prelude.{
  ◌≡◌, refl, ◌∙◌, inl, inr, Option, none, some, true, List, [], ◌∷◌, Chars, strip, splitlines,
  Bool-cases,
}
use agent_farm_runtime.Runtime.Slurm.{
  Tools, is_job_id, sacct_states, only, from_sacct, ask_sacct, from_squeue, after_squeue,
  slurm_state,
}

-- A tool that is installed gave, for this job, one line.
pub data Observed (tools : Tools) (job_id s : Chars) : Type 0 where
  in_queue :
      (out : Chars)
      → tools.has_squeue ≡ true
      → tools.squeue job_id ≡ some out
      → splitlines (strip out) ≡ s ∷ []
      → Observed tools job_id s
  in_accounts :
      (out : Chars)
      → tools.has_sacct ≡ true
      → tools.sacct job_id ≡ some out
      → sacct_states out ≡ s ∷ []
      → Observed tools job_id s

module _ (tools : Tools) (job_id s : Chars) where
  only-some : (l : List Chars) → only l ≡ some s → l ≡ s ∷ []
  only-some [] h = absurd (cc)
  only-some (a ∷ []) h = cc
  only-some (a ∷ b ∷ l) h = absurd (cc)

  from_sacct-Observed :
      (o : Option Chars)
      → tools.has_sacct ≡ true
      → tools.sacct job_id ≡ o
      → from_sacct o ≡ some s
      → Observed tools job_id s
  from_sacct-Observed none q e h = absurd (cc)
  from_sacct-Observed (some out) q e h = in_accounts out q e (only-some (sacct_states out) h)

  ask_sacct-Observed : ask_sacct tools job_id ≡ some s → Observed tools job_id s
  unfolding ask_sacct
  ask_sacct-Observed h = elim (Bool-cases tools.has_sacct) [
    | inl e ↦ from_sacct-Observed (tools.sacct job_id) e refl (rw e at h)
    | inr e ↦ let q = rw e at h in absurd (cc)
  ]

  from_squeue-Observed :
      (out : Chars) (lines : List Chars)
      → tools.has_squeue ≡ true
      → tools.squeue job_id ≡ some out
      → splitlines (strip out) ≡ lines
      → from_squeue tools job_id lines ≡ some s
      → Observed tools job_id s
  from_squeue-Observed out [] q e l h = ask_sacct-Observed h
  from_squeue-Observed out (a ∷ rest) q e l h = in_queue out q e (l ∙ only-some (a ∷ rest) h)

  after_squeue-Observed :
      (o : Option Chars)
      → tools.has_squeue ≡ true
      → tools.squeue job_id ≡ o
      → after_squeue tools job_id o ≡ some s
      → Observed tools job_id s
  after_squeue-Observed none q e h = ask_sacct-Observed h
  after_squeue-Observed (some out) q e h = from_squeue-Observed out _ q e refl h

  -- `slurm_state` reports a state only for the id of one job or one array element, and only if a
  -- tool that is installed answered for it with this one line.
  pub slurm_state-Observed :
      slurm_state tools job_id ≡ some s → (is_job_id job_id ≡ true) × Observed tools job_id s
  unfolding slurm_state
  slurm_state-Observed h = elim (Bool-cases (is_job_id job_id)) [
    | inl e ↦
        let q = rw e at h in
        elim (Bool-cases tools.has_squeue) [
          | inl i ↦ (e, after_squeue-Observed (tools.squeue job_id) i refl (rw i at q))
          | inr i ↦ (e, ask_sacct-Observed (rw i at q))
        ]
    | inr e ↦ let q = rw e at h in absurd (cc)
  ]
