-- ===== src/Farmkit/Runner/Bounded/Submitted.antt =====
-- A submission to sbatch writes no automatic retry.
use agent_farm_runtime.Prelude.{◌≡◌, false, ap, ◌∙◌, refl, Option, none, some, not, List, Chars}
use agent_farm_runtime.Farmkit.Classify.{code}
use agent_farm_runtime.Farmkit.Ledger.{
  did_not_return, refused_by_sbatch, unparseable, Attempt, Submit, SubmitStatus, intent, unverified,
  submitted, rejected, adopted, local, all_attempts,
}
use agent_farm_runtime.Farmkit.Steps.{StepSpec}
use agent_farm_runtime.Farmkit.Act.{called, State, Proc, store, read_rows, call}
use agent_farm_runtime.Farmkit.Act.Rules.{stamped, stored}
use agent_farm_runtime.Farmkit.Act.Kept.{Kept, gives, breaks, Kept-bind, if-Kept}
use agent_farm_runtime.Farmkit.Runner.{Outside}
use agent_farm_runtime.Farmkit.Runner.Budget.{to_park}
use agent_farm_runtime.Farmkit.Runner.Launch.{
  refuse_sbatch, by_status, after_status, submit_after, submit_sbatch, argv_of, ruling_of,
}
use agent_farm_runtime.Farmkit.Intent.{
  Parsed, no_word, no_id, job, parse_output, with_intent, failed_as, as_job, take_output, answered,
  submit,
}
use agent_farm_runtime.Farmkit.Runner.Bounded.Writes.{
  Limit, Bounded, read-Bounded, stored-Bounded, written_twice-Bounded, noted-Bounded, store-Kept,
}
use agent_farm_runtime.Farmkit.Runner.Bounded.Records.{Quiet-Sane, untried-Sane}
use agent_farm_runtime.Farmkit.Runner.Bounded.Counts.{is_retried}
use agent_farm_runtime.Farmkit.Classify.{is_terminal}
use agent_farm_runtime.Farmkit.Ledger.{state_of, is_open}

module _ (limit : Limit) (out : Outside) where
  -- A write of an attempt that is not retried, and runs or has not begun
  pub quiet-Kept :
      (r : Attempt) (s : State)
      → is_retried r ≡ false
      → is_terminal (state_of r) ≡ false
      → Bounded limit s
      → Kept (Bounded limit) (store out.env r s)
  quiet-Kept r s u e b =
      store-Kept limit out r s u (Quiet-Sane r (record { untried = u; unended = e })) b

  take_output-Kept :
      (r : Attempt) (p : Parsed) (s : State)
      → is_retried r ≡ false
      → is_terminal (state_of r) ≡ false
      → Bounded limit s
      → Kept (Bounded limit) (take_output out.env r p s)
  unfolding take_output failed_as as_job
  take_output-Kept r no_word s u e b = breaks b
  take_output-Kept r no_id s u e b = quiet-Kept (failed_as intent unparseable r) s u e b
  take_output-Kept r (job j) s u e b = quiet-Kept (as_job j r) s u e b

  answered-Kept :
      (r : Attempt) (o : Option Proc) (s : State)
      → is_retried r ≡ false
      → is_terminal (state_of r) ≡ false
      → Bounded limit s
      → Kept (Bounded limit) (answered out.env r o s)
  unfolding answered failed_as
  answered-Kept r none s u e b = quiet-Kept (failed_as intent did_not_return r) s u e b
  answered-Kept r (some p) s u e b =
      if-Kept (Bounded limit) (not p.succeeded) _ _ s
        (quiet-Kept (failed_as rejected refused_by_sbatch r) s u e b)
        (take_output-Kept r (parse_output p.stdout) s u e b)

  pub submit-Kept :
      (r : Attempt) (argv : List Chars) (s : State)
      → is_retried r ≡ false
      → is_terminal (state_of r) ≡ false
      → Bounded limit s
      → Kept (Bounded limit) (submit out.env r argv s)
  unfolding submit store call with_intent
  submit-Kept r argv s u e b =
      let t = stored out.env (with_intent r) s in
      let q = Quiet-Sane (with_intent r) (record { untried = u; unended = e }) in
      answered-Kept (stamped out.env (with_intent r) s) (out.env.run t.done argv) _ u e
        (noted-Bounded limit (called argv) t (stored-Bounded limit out (with_intent r) s u q b))

  module _ (spec : StepSpec) where
    refuse_sbatch-Kept :
        (r : Attempt) (s : State)
        → is_open r.submit ≡ false
        → Bounded limit s
        → Kept (Bounded limit) (refuse_sbatch out spec r s)
    unfolding refuse_sbatch store
    refuse_sbatch-Kept r s o b =
        let r' = record r { failure = some (to_park code (ruling_of out spec code r)) } in
        gives (written_twice-Bounded limit out r' s refl (untried-Sane r' refl o) b)

    by_status-Kept :
        (r : Attempt) (st : SubmitStatus) (s : State)
        → (st ≡ rejected → is_open r.submit ≡ false)
        → Bounded limit s
        → Kept (Bounded limit) (by_status out spec r st s)
    by_status-Kept r submitted s o b = gives b
    by_status-Kept r rejected s o b = refuse_sbatch-Kept r s (o refl) b
    by_status-Kept r intent s o b = gives b
    by_status-Kept r unverified s o b = gives b
    by_status-Kept r adopted s o b = gives b
    by_status-Kept r local s o b = gives b

    rejected_closed :
        (r : Attempt) (sub : Submit)
        → r.submit ≡ some sub
        → sub.status ≡ rejected
        → is_open r.submit ≡ false
    rejected_closed r sub e h = ap is_open e ∙ rw h

    after_status-Kept :
        (r : Attempt) (o : Option Submit) (s : State)
        → r.submit ≡ o
        → Bounded limit s
        → Kept (Bounded limit) (after_status out spec r o s)
    after_status-Kept r none s e b = gives b
    after_status-Kept r (some sub) s e b = by_status-Kept r sub.status s (rejected_closed r sub e) b

    pub submit_sbatch-Kept :
        (r : Attempt) (s : State)
        → is_retried r ≡ false
        → is_terminal (state_of r) ≡ false
        → Bounded limit s
        → Kept (Bounded limit) (submit_sbatch out spec r s)
    unfolding submit_sbatch submit_after read_rows
    submit_sbatch-Kept r s u e b =
        Kept-bind (Bounded limit) (λ r'. after_status out spec r' r'.submit)
          (submit-Kept r (argv_of out spec r (all_attempts s.ledger).1) _ u e
            (read-Bounded limit s b))
          (λ r' v d. after_status-Kept r' r'.submit v refl d)
