-- ===== src/Farmkit/Observe/Laws.antt =====
-- What the answers of src/farmkit/observe.py rest on.
use agent_farm_runtime.Prelude.{
  is_yes_iff, Chars-discrete, Option-cases, ◌≡◌, refl, ◌∙◌, inl, inr, Option, none, some, true,
  List, [], ◌∷◌, Chars, chars_eq, is_set, contains, strip, splitlines, codes, arith, Bool-cases,
}
use agent_farm_runtime.Farmkit.Observe.{
  Scheduler, output, squeue_argv, sacct_argv, from_accounts, ask_accounts, from_lines, from_queue,
  slurm_state, queue_row, queue_state, account_states, only_set, batch_state, queue_lines,
  account_lines, batch, words,
}
use agent_farm_runtime.Runtime.Slurm
use agent_farm_runtime.Runtime.Slurm.{Tools, is_job_id, only}

-- The programs, as the observer of the runtime calls them.
abbrev pub tools_of : Scheduler → Tools
tools_of sch = record {
  has_squeue = sch.has_squeue;
  has_sacct = sch.has_sacct;
  squeue = λ j. output (sch.run (squeue_argv j (codes "%T")));
  sacct = λ j. output (sch.run (sacct_argv [] j (codes "State%30")));
}

module _ (sch : Scheduler) (job_id : Chars) where
  from_accounts-eq : (o : Option Chars) → from_accounts sch o ≡ Slurm.from_sacct o
  from_accounts-eq none = refl
  from_accounts-eq (some out) = refl

  ask_accounts-eq : ask_accounts sch job_id ≡ Slurm.ask_sacct (tools_of sch) job_id
  unfolding ask_accounts Slurm.ask_sacct
  ask_accounts-eq = elim (Bool-cases sch.has_sacct) [
    | inl e ↦ rw e (from_accounts-eq (output (sch.run (sacct_argv [] job_id (codes "State%30")))))
    | inr e ↦ rw e refl
  ]

  from_lines-eq :
      (ls : List Chars) → from_lines sch job_id ls ≡ Slurm.from_squeue (tools_of sch) job_id ls
  from_lines-eq [] = ask_accounts-eq
  from_lines-eq (s ∷ []) = refl
  from_lines-eq (s ∷ t ∷ rest) = refl

  from_queue-eq :
      (o : Option Chars) → from_queue sch job_id o ≡ Slurm.after_squeue (tools_of sch) job_id o
  from_queue-eq none = ask_accounts-eq
  from_queue-eq (some out) = from_lines-eq (splitlines (strip out))

  -- The observer of farmkit and that of the runtime give the same state of a job, for the same
  -- programs and answers.
  pub slurm_state-eq : slurm_state sch job_id ≡ Slurm.slurm_state (tools_of sch) job_id
  unfolding slurm_state Slurm.slurm_state
  slurm_state-eq = elim (Bool-cases (is_job_id job_id)) [
    | inr e ↦ rw e refl
    | inl e ↦ elim (Bool-cases sch.has_squeue) [
      | inl q ↦ rw (e, q) (from_queue-eq (output (sch.run (squeue_argv job_id (codes "%T")))))
      | inr q ↦ rw (e, q) ask_accounts-eq
    ]
  ]

-- A line of squeue about the job
pub data HasRow (j s : Chars) : List Chars → Type 0 where
  at_head : {l : Chars} {ls : List Chars} → words l ≡ j ∷ s ∷ [] → HasRow j s (l ∷ ls)
  later : {l : Chars} {ls : List Chars} → HasRow j s ls → HasRow j s (l ∷ ls)

queue_row-some : (j s : Chars) (ws : List Chars) → queue_row j ws ≡ some s → ws ≡ j ∷ s ∷ []
queue_row-some j s [] h = cc
queue_row-some j s (i ∷ []) h = cc
queue_row-some j s (i ∷ t ∷ []) h = ground (arith, is_yes_iff (Chars-discrete i j))
queue_row-some j s (i ∷ t ∷ u ∷ r) h = cc

queue_state-HasRow : (j s : Chars) (ls : List Chars) → queue_state j ls ≡ some s → HasRow j s ls
unfolding queue_state
queue_state-HasRow j s [] h = absurd (cc)
queue_state-HasRow j s (l ∷ ls) h = elim (Option-cases (queue_state j ls)) [
  | inl e ↦ at_head (queue_row-some j s (words l) (rw (e, queue_state) at h))
  | inr (t, e) ↦ later (queue_state-HasRow j s ls (e ∙ (rw (e, queue_state) at h)))
]

only_set-some :
    (l : List Chars) (s : Chars) → only_set l ≡ some s → (l ≡ s ∷ []) × (is_set s ≡ true)
only_set-some [] s h = absurd (cc)
only_set-some (t ∷ []) s h = (ground arith, ground arith)
only_set-some (t ∷ u ∷ r) s h = absurd (cc)

module _ (sch : Scheduler) (ids : List Chars) (j s : Chars) where
  -- What a state in an answer for several jobs rests on.
  pub data Reported : Type 0 where
    in_queue :
        HasRow j s (queue_lines sch ids) → account_states j (account_lines sch ids) ≡ [] → Reported
    in_accounts : account_states j (account_lines sch ids) ≡ s ∷ [] → is_set s ≡ true → Reported

  batch_state-Reported :
      (o : Option Chars) (rows : List Chars)
      → queue_state j (queue_lines sch ids) ≡ o
      → account_states j (account_lines sch ids) ≡ rows
      → batch_state o rows ≡ some s
      → Reported
  batch_state-Reported o [] q a h =
      in_queue (queue_state-HasRow j s (queue_lines sch ids) (q ∙ h)) a
  batch_state-Reported o (t ∷ rows) q a h =
      let (e, k) = only_set-some (t ∷ rows) s h in in_accounts (a ∙ e) k

  -- A batch reports a state only for a job that was asked for, and only if a line of squeue says it
  -- of this job and sacct says nothing of it, or sacct has exactly one row of this job, which says
  -- it.
  pub batch-Reported : batch sch ids j ≡ some s → (contains ids j ≡ true) × Reported
  unfolding batch
  batch-Reported h = elim (Bool-cases (contains ids j)) [
    | inr e ↦ let q = rw e at h in absurd (cc)
    | inl e ↦ (e, batch_state-Reported _ _ refl refl (rw e at h))
  ]
