-- ===== src/Farmkit/Classify/Laws.antt =====
-- The classes of failures against the states that end a job.
use agent_farm_runtime.Prelude.{
  ◌≡◌, ◌↔◌, ℕ, Option, none, Bool, true, false, arith, codes, Chars, chars_eq, contains,
}
use agent_farm_runtime.Farmkit.Classify.{
  Verdict, normalized, classify_state, classify, failed_verdict, bad_exit,
}

-- A job that is COMPLETED, ended with no exit code or with 0, left its output, and passed its
-- verifier if it had one.
pub record Passed (state : Option Chars) (verdict : Option Verdict) (output_present : Bool)
    (exit_code : Option ℕ) : Type 0 where
  pub completed : normalized state ≡ codes "COMPLETED"
  pub exit : bad_exit exit_code ≡ false
  pub output : output_present ≡ true
  pub verified : failed_verdict verdict ≡ none

-- `classify` finds no failure exactly in an attempt that passed.
pub classify-none_iff :
    (state : Option Chars) (verdict : Option Verdict) (output_present : Bool) (exit_code : Option ℕ)
    → (classify state verdict output_present exit_code ≡ none)
      ↔ Passed state verdict output_present exit_code
unfolding classify classify_state contains
classify-none_iff state verdict output_present exit_code = (
  λ h. record {
    completed = ground arith;
    exit = ground arith;
    output = ground arith;
    verified = ground arith;
  },
  λ h. ground arith,
)
