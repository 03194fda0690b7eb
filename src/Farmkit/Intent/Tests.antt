-- ===== src/Farmkit/Intent/Tests.antt =====
-- A submission and the reconciliation of an intent, and the theorems on them there.
use agent_farm_runtime.Prelude.{
  ◌≡◌, refl, none, some, true, List, [], ◌∷◌, ◌++◌, Chars, codes, lstrip, rstrip, before, is_space,
  is_line_end, take_word, after_mark, all, is_digit, any, keep, arith, drop_open, split_open,
}
use agent_farm_runtime.Farmkit.Ledger.{Attempt, intent}
use agent_farm_runtime.Farmkit.Act.{Env, State, Proc}
use agent_farm_runtime.Farmkit.Intent.{
  submit, no_word, job, parse_output, sbatch_argv, sacct_rows, carries,
}
use agent_farm_runtime.Farmkit.Intent.Laws.{Submission, submit-Submission}

abbrev fit : Attempt
fit = record {
  attempt_id = "0123456789";
  step = "fit";
  n = 1;
  code = [];
  run_dir = none;
  inputs = [];
  submit = none;
  wait = none;
  observed = none;
  verdict = none;
  failure = none;
  budget = record { cls = none; max_auto = 0; used = 0; prior_used = none };
  exit_code = none;
  created_ts = some "2026-01-01";
  updated_ts = none;
}

abbrev answers : Proc → Env
answers p = record { clock = λ es. 7; run = λ es argv. some p }

abbrev cluster : Env
cluster = answers (record { succeeded = true; stdout = codes "12;gpu" })

abbrev empty : State
empty = record { ledger = record { files = []; cache = none }; done = [] }

abbrev fit_argv : List Chars
fit_argv = sbatch_argv fit (codes "fit.sbatch") []

job_read : parse_output (codes " 12;gpu") ≡ job (codes "12")
unfolding parse_output before lstrip rstrip is_space any take_word after_mark all is_digit
job_read = refl

-- The output that no branch of the source handles
semicolon_read : parse_output (codes ";gpu") ≡ no_word
unfolding parse_output before lstrip rstrip is_space any take_word
semicolon_read = refl

submit-Submission_example :
    Submission cluster fit fit_argv empty (submit cluster fit fit_argv empty)
submit-Submission_example = submit-Submission cluster fit fit_argv empty

abbrev left_open : Attempt
left_open = record fit { submit = some (record { status = intent; job_id = none; error = none }) }

abbrev crashed : State
crashed = record {
  ledger = record { files = ("0123456789", left_open) ∷ []; cache = none };
  done = [];
}

-- One row of the accounting carries the comment.
row_found :
    sacct_rows
      (codes "attempt:0123456789")
      (codes "11|attempt:ab" ++ 10 ∷ codes "12|attempt:0123456789")
    ≡ codes "12" ∷ []
unfolding sacct_rows keep carries before after_mark lstrip rstrip is_line_end any is_space drop_open
    split_open
row_found = ground arith
