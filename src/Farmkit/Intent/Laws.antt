-- ===== src/Farmkit/Intent/Laws.antt =====
-- What `submit` and `reconcile_all` of src/farmkit/intent.py leave in the ledger.
use agent_farm_runtime.Prelude.{
  ◌≡◌, refl, inl, inr, Option, none, some, true, false, List, ◌∷◌, Chars, lookup, Bool-cases,
}
use agent_farm_runtime.Farmkit.Ledger.{
  Attempt, Submit, intent, submitted, rejected, did_not_return, refused_by_sbatch, unparseable,
  is_open,
}
use agent_farm_runtime.Farmkit.Act.{
  wrote, called, State, Env, Proc, Outcome, returned, raised, index_error, store, call,
}
use agent_farm_runtime.Farmkit.Act.Rules.{stamped, stored, lookup-stored}
use agent_farm_runtime.Farmkit.Intent.{
  Parsed, no_word, no_id, job, parse_output, with_intent, failed_as, as_job, take_output, answered,
  submit,
}

-- What is recorded of the answer of sbatch
pub data Recorded (answer : Option Proc) : Submit → Type 0 where
  unknown_outcome :
      answer ≡ none
      → Recorded answer (record { status = intent; job_id = none; error = some did_not_return })
  refused :
      (p : Proc)
      → answer ≡ some p
      → p.succeeded ≡ false
      → Recorded answer
          (record { status = rejected; job_id = none; error = some refused_by_sbatch })
  unread :
      (p : Proc)
      → answer ≡ some p
      → p.succeeded ≡ true
      → parse_output p.stdout ≡ no_id
      → Recorded answer (record { status = intent; job_id = none; error = some unparseable })
  queued :
      (p : Proc) (j : Chars)
      → answer ≡ some p
      → p.succeeded ≡ true
      → parse_output p.stdout ≡ job j
      → Recorded answer (record { status = submitted; job_id = some j; error = none })

module _ (env : Env) (r : Attempt) (argv : List Chars) (s : State) where
  -- The state at the call, and the one after it
  abbrev pub at_call : State
  at_call = stored env (with_intent r) s

  abbrev pub after_call : State
  after_call = record { ledger = at_call.ledger; done = called argv ∷ at_call.done }

  abbrev pub answer : Option Proc
  answer = env.run at_call.done argv

  -- How a submission ends: the answer is recorded in the file, or the output had no first word, and
  -- an exception left the intent.
  pub data Ends : Outcome Attempt → Type 0 where
    recorded :
        (last : Attempt) (sub : Submit) (s' : State)
        → last.submit ≡ some sub
        → Recorded answer sub
        → s'.done ≡ wrote last ∷ after_call.done
        → lookup r.attempt_id s'.ledger.files ≡ some last
        → Ends (returned last s')
    stopped :
        (p : Proc)
        → answer ≡ some p
        → p.succeeded ≡ true
        → parse_output p.stdout ≡ no_word
        → Ends (raised index_error after_call)

  pub record Submission (o : Outcome Attempt) : Type 0 where
    pub open_at_call :
        lookup r.attempt_id at_call.ledger.files ≡ some (stamped env (with_intent r) s)
    pub is_intent : is_open (stamped env (with_intent r) s).submit ≡ true
    pub ends : Ends o

  take_output-Ends :
      (p : Proc) (out : Parsed)
      → answer ≡ some p
      → p.succeeded ≡ true
      → parse_output p.stdout ≡ out
      → Ends (take_output env (stamped env (with_intent r) s) out after_call)
  unfolding take_output store failed_as as_job with_intent
  take_output-Ends p no_word a e k = stopped p a e k
  take_output-Ends p no_id a e k =
      recorded _ _ _ refl (unread p a e k) refl (
        lookup-stored env (failed_as intent unparseable (stamped env (with_intent r) s)) after_call)
  take_output-Ends p (job j) a e k =
      recorded _ _ _ refl (queued p j a e k) refl
        (lookup-stored env (as_job j (stamped env (with_intent r) s)) after_call)

  answered-Ends :
      (o : Option Proc)
      → answer ≡ o
      → Ends (answered env (stamped env (with_intent r) s) o after_call)
  unfolding answered store failed_as with_intent
  answered-Ends none a = recorded _ _ _ refl (unknown_outcome a) refl (
      lookup-stored env (failed_as intent did_not_return (stamped env (with_intent r) s))
        after_call)
  answered-Ends (some p) a = elim (Bool-cases p.succeeded) [
    | inl e ↦ rw e (take_output-Ends p (parse_output p.stdout) a e refl)
    | inr e ↦ rw e (
        recorded _ _ _ refl (refused p a e) refl (
          lookup-stored env (failed_as rejected refused_by_sbatch (stamped env (with_intent r) s))
            after_call))
  ]

  pub submit-Submission : Submission (submit env r argv s)
  unfolding submit store call with_intent
  submit-Submission = record {
    open_at_call = lookup-stored env (with_intent r) s;
    is_intent = refl;
    ends = answered-Ends answer refl;
  }
