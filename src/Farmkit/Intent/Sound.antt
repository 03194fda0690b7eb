-- ===== src/Farmkit/Intent/Sound.antt =====
-- The actions of src/farmkit/intent.py keep the ledger coherent.
use agent_farm_runtime.Prelude.{All-always, inl, inr, Option, none, some, List, Chars, Bool-cases}
use agent_farm_runtime.Farmkit.Ledger.{
  Attempt, Submit, intent, rejected, did_not_return, refused_by_sbatch, unparseable,
  unverified_intents,
}
use agent_farm_runtime.Farmkit.Act.{Env, State, Proc}
use agent_farm_runtime.Farmkit.Act.Sound.{
  Coherent, Sound, returns, fails, Sound-bind, store-Sound, call-Sound, no_index,
}
use agent_farm_runtime.Farmkit.Ledger.{all_attempts}
use agent_farm_runtime.Farmkit.Ledger.Laws.{all_attempts-Reads}
use agent_farm_runtime.Farmkit.Act.Logic.{soundness}
use agent_farm_runtime.Farmkit.Intent.Walk.{reconcile_all-Keeps}
use agent_farm_runtime.Farmkit.Intent.{
  Parsed, no_word, no_id, job, parse_output, with_intent, failed_as, as_job, take_output, answered,
  submit, Lookup, resolved, comment, ask_accounting, reconcile_all,
}

module _ (env : Env) where
  take_output-Sound : (r : Attempt) (p : Parsed) (s : State) → Sound (take_output env r p s)
  unfolding take_output
  take_output-Sound r no_word s = fails no_index
  take_output-Sound r no_id s = store-Sound env (failed_as intent unparseable r) s
  take_output-Sound r (job j) s = store-Sound env (as_job j r) s

  answered-Sound : (r : Attempt) (o : Option Proc) (s : State) → Sound (answered env r o s)
  unfolding answered
  answered-Sound r none s = store-Sound env (failed_as intent did_not_return r) s
  answered-Sound r (some p) s = elim (Bool-cases p.succeeded) [
    | inl e ↦ rw e (take_output-Sound r (parse_output p.stdout) s)
    | inr e ↦ rw e (store-Sound env (failed_as rejected refused_by_sbatch r) s)
  ]

  pub submit-Sound : (r : Attempt) (argv : List Chars) (s : State) → Sound (submit env r argv s)
  unfolding submit
  submit-Sound r argv s =
      Sound-bind _ (store-Sound env (with_intent r) s)
        λ r' t c. Sound-bind _ (call-Sound env argv t c) λ o u d. answered-Sound r' o u

  module _ (lookup_jobs : Lookup) where
    ask_accounting-Sound :
        (r : Attempt) (sub : Submit) (s : State) → Sound (ask_accounting env lookup_jobs r sub s)
    unfolding ask_accounting
    ask_accounting-Sound r sub s =
        Sound-bind _ (store-Sound env (resolved r sub (lookup_jobs s (comment r.attempt_id))) s)
          (λ _ t c. returns c)

    pub reconcile_all-Sound : (s : State) → Coherent s → Sound (reconcile_all env lookup_jobs s)
    reconcile_all-Sound =
        reconcile_all-Keeps soundness (λ r. Unit) env lookup_jobs
          (λ r sub s q c. ask_accounting-Sound r sub s)
          (λ s c. (all_attempts-Reads s.ledger c).coherent)
          (λ s c. All-always (λ r. Unit) (λ r. tt) (unverified_intents (all_attempts s.ledger).1))
