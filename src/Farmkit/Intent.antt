-- ===== src/Farmkit/Intent.antt =====
-- src/farmkit/intent.py: a submission, whose intent is written before sbatch is called, and the
-- correlation of an intent with the accounting records.
pub mod Laws
pub mod Accounting
pub mod Walk
pub mod Sound
mod Tests
use agent_farm_runtime.Prelude.{
  String, Option, none, some, Bool, false, not, List, [], ◌∷◌, ◌++◌, map, keep, is_eq, codes, Chars,
  chars_eq, is_set, strip, rstrip, first_word, splitlines, before, after_mark, if◌then◌else◌, ◌==◌,
}
use agent_farm_runtime.Farmkit.Rulings.{replace_runs, drop_dashes, first_chars}
use agent_farm_runtime.Farmkit.Ledger.{
  Attempt, Submit, SubmitStatus, SubmitError, intent, unverified, submitted, rejected,
  did_not_return, refused_by_sbatch, unparseable, query_failed, several_jobs, no_row,
  unverified_intents,
}
use agent_farm_runtime.Farmkit.Act.{
  Env, Proc, Act, State, pure, raise, read_rows, store, call, index_error, ◌>>=◌, ◌>>◌,
}
use agent_farm_runtime.Runtime.Slurm.{is_job_id}

abbrev or_step : Chars → Chars
or_step [] = codes "step"
or_step (c ∷ cs) = c ∷ cs

-- `sanitize`
unfoldable pub sanitize : Chars → Chars
unfolding replace_runs drop_dashes rstrip
sanitize text = or_step (rstrip (is_eq b'-') (drop_dashes (replace_runs false text)))

-- `job_name`
unfoldable pub job_name : String → String → Chars
unfolding sanitize first_chars
job_name step attempt_id = sanitize (codes step) ++ b'-' ∷ first_chars 8 (codes attempt_id)

-- `comment`
unfoldable pub comment : String → Chars
comment attempt_id = codes "attempt:" ++ codes attempt_id

-- `sbatch_argv`
unfoldable pub sbatch_argv : Attempt → Chars → List Chars → List Chars
unfolding job_name comment
sbatch_argv r script extra =
    codes "sbatch"
    ∷ codes "--parsable"
    ∷ (codes "--job-name=" ++ job_name r.step r.attempt_id)
    ∷ (codes "--comment=" ++ comment r.attempt_id)
    ∷ (extra ++ script ∷ [])

-- What is read in the output of sbatch: the first word before the first semicolon, if there is one.
pub data Parsed : Type 0 where
  no_word : Parsed
  no_id : Parsed
  job : Chars → Parsed

abbrev parsed_word : Chars → Parsed
parsed_word [] = no_word
parsed_word (c ∷ cs) = if is_job_id (c ∷ cs) then job (c ∷ cs) else no_id

unfoldable pub parse_output : Chars → Parsed
unfolding before rstrip first_word is_job_id
parse_output out =
    if is_set (strip out) then parsed_word (first_word (before b';' (strip out))) else no_id

-- `record["submit"] = {…}` before the call
unfoldable pub with_intent : Attempt → Attempt
with_intent r = record r { submit = some (record { status = intent; job_id = none; error = none }) }

-- The record after the call: an intent that failed stays an intent.
unfoldable pub failed_as : SubmitStatus → SubmitError → Attempt → Attempt
failed_as status e r = record r {
  submit = some (record { status = status; job_id = none; error = some e });
}

unfoldable pub as_job : Chars → Attempt → Attempt
as_job job_id r = record r {
  submit = some (record { status = submitted; job_id = some job_id; error = none });
  wait = some (codes "job:" ++ job_id);
}

module _ (env : Env) where
  unfoldable pub take_output : Attempt → Parsed → Act Attempt
  take_output r no_word = raise index_error
  take_output r no_id = store env (failed_as intent unparseable r)
  take_output r (job job_id) = store env (as_job job_id r)

  unfoldable pub answered : Attempt → Option Proc → Act Attempt
  unfolding take_output parse_output
  answered r none = store env (failed_as intent did_not_return r)
  answered r (some proc) =
      if not proc.succeeded
      then store env (failed_as rejected refused_by_sbatch r)
      else take_output r (parse_output proc.stdout)

  -- `submit`
  unfoldable pub submit : Attempt → List Chars → Act Attempt
  unfolding answered store call
  submit r argv = do r' ← store env (with_intent r); answer ← call env argv; answered r' answer

-- What `reconcile` gives
pub data Reconciled : Type 0 where
  status : SubmitStatus → Reconciled
  no_submit : Reconciled
  duplicate_suspected : Reconciled

abbrev unsure : Attempt → Submit → SubmitError → Attempt
unsure r s e = record r { submit = some (record s { status = unverified; error = some e }) }

-- `found`, the jobs whose accounting row carries the comment; none if the query failed
unfoldable pub resolved : Attempt → Submit → Option (List Chars) → Attempt
unfolding as_job
resolved r s none = unsure r s query_failed
resolved r s (some []) = unsure r s no_row
resolved r s (some (j ∷ [])) = as_job j r
resolved r s (some (j ∷ k ∷ rest)) = unsure r s several_jobs

abbrev verdict_on : Option (List Chars) → Reconciled
verdict_on (some (j ∷ [])) = status submitted
verdict_on (some (j ∷ k ∷ rest)) = duplicate_suspected
verdict_on _ = status unverified

abbrev pub Lookup : Type 0
Lookup = State → Chars → Option (List Chars)

module _ (env : Env) (lookup_jobs : Lookup) where
  unfoldable pub ask_accounting : Attempt → Submit → Act Reconciled
  unfolding resolved comment
  ask_accounting r sub s =
      let found = lookup_jobs s (comment r.attempt_id) in
      (store env (resolved r sub found) >> pure (verdict_on found)) s

  unfoldable pub reconcile_as : Attempt → Submit → SubmitStatus → Act Reconciled
  unfolding ask_accounting
  reconcile_as r sub intent = ask_accounting r sub
  reconcile_as r sub unverified = ask_accounting r sub
  reconcile_as r sub other = pure (status other)

  unfoldable pub reconcile_submit : Attempt → Option Submit → Act Reconciled
  unfolding reconcile_as
  reconcile_submit r none = pure no_submit
  reconcile_submit r (some sub) = reconcile_as r sub sub.status

  -- `reconcile`
  unfoldable pub reconcile : Attempt → Act Reconciled
  unfolding reconcile_submit
  reconcile r = reconcile_submit r r.submit

  unfoldable pub reconcile_rows : List Attempt → Act (List (String × Reconciled))
  unfolding reconcile
  reconcile_rows [] = pure []
  reconcile_rows (r ∷ rest) = do
    given ← reconcile r
    later ← reconcile_rows rest
    pure ((r.attempt_id, given) ∷ later)

  -- `reconcile_all`
  unfoldable pub reconcile_all : Act (List (String × Reconciled))
  unfolding reconcile_rows unverified_intents
  reconcile_all = do rows ← read_rows; reconcile_rows (unverified_intents rows)

-- A row of sacct: the job, and the comment if there is one
abbrev row_comment : Chars → Option Chars
row_comment rest = elim (after_mark b'|' rest) [ none ↦ none | some tail ↦ some (before b'|' tail) ]

unfoldable pub carries : Chars → Chars → Bool
unfolding before after_mark rstrip
carries comment_value line = elim (row_comment line) [
  | none ↦ false
  | some c ↦ strip c == comment_value
]

unfoldable pub sacct_rows : Chars → Chars → List Chars
unfolding keep carries splitlines before
sacct_rows comment_value out = map (before b'|') (keep (carries comment_value) (splitlines out))

abbrev pub sacct_argv : List Chars
sacct_argv =
    codes "sacct"
    ∷ codes "-n"
    ∷ codes "-X"
    ∷ codes "-P"
    ∷ codes "-S"
    ∷ codes "now-2days"
    ∷ codes "--format=JobID,Comment%80"
    ∷ []

abbrev rows_of : Chars → Option Proc → Option (List Chars)
rows_of comment_value none = none
rows_of comment_value (some proc) =
    if proc.succeeded then some (sacct_rows comment_value proc.stdout) else none

-- `sacct_lookup_factory`
unfoldable pub sacct_lookup : Env → Lookup
unfolding sacct_rows
sacct_lookup env s comment_value = rows_of comment_value (env.run s.done sacct_argv)
