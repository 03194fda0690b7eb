-- ===== src/Farmkit/Runner/Bounded/Intents.antt =====
-- The reconciliation of intents writes no automatic retry.
use agent_farm_runtime.Prelude.{
  All-map, All-holding, ◌≡◌, ◌∷◌, [], ◌∙◌, refl, Option, none, some, List, Chars,
}
use agent_farm_runtime.Farmkit.Ledger.{Attempt, Submit, all_attempts}
use agent_farm_runtime.Farmkit.Act.{State}
use agent_farm_runtime.Farmkit.Act.Kept.{Kept, gives, Kept-bind}
use agent_farm_runtime.Farmkit.Runner.{Outside}
use agent_farm_runtime.Farmkit.Act.Logic.{keeping}
use agent_farm_runtime.Farmkit.Intent.Walk.{reconcile_all-Keeps}
use agent_farm_runtime.Farmkit.Intent.{as_job}
use agent_farm_runtime.Farmkit.Runner.Bounded.Writes.{Limit, Bounded, read-Bounded, rows-Sane}
use agent_farm_runtime.Farmkit.Runner.Bounded.Records.{Sane, open-Quiet, Quiet}
use agent_farm_runtime.Farmkit.Runner.Bounded.Counts.{is_retried}
use agent_farm_runtime.Farmkit.Classify.{is_terminal}
use agent_farm_runtime.Farmkit.Intent.{Lookup, comment, resolved, ask_accounting, reconcile_all}
use agent_farm_runtime.Farmkit.Ledger.{state_of, is_open, unverified_intents}
use agent_farm_runtime.Farmkit.Runner.Bounded.Submitted.{quiet-Kept}

module _ (limit : Limit) (out : Outside) (lookup_jobs : Lookup) where
  resolved-untried :
      (r : Attempt) (sub : Submit) (o : Option (List Chars))
      → is_retried (resolved r sub o) ≡ is_retried r
  unfolding resolved as_job
  resolved-untried r sub none = refl
  resolved-untried r sub (some []) = refl
  resolved-untried r sub (some (j ∷ [])) = refl
  resolved-untried r sub (some (j ∷ k ∷ rest)) = refl

  resolved-unended :
      (r : Attempt) (sub : Submit) (o : Option (List Chars))
      → is_terminal (state_of (resolved r sub o)) ≡ is_terminal (state_of r)
  unfolding resolved as_job
  resolved-unended r sub none = refl
  resolved-unended r sub (some []) = refl
  resolved-unended r sub (some (j ∷ [])) = refl
  resolved-unended r sub (some (j ∷ k ∷ rest)) = refl

  ask_accounting-Kept :
      (r : Attempt) (sub : Submit) (s : State)
      → Quiet r
      → Bounded limit s
      → Kept (Bounded limit) (ask_accounting out.env lookup_jobs r sub s)
  unfolding ask_accounting
  ask_accounting-Kept r sub s q b =
      let o = lookup_jobs s (comment r.attempt_id) in
      Kept-bind (Bounded limit) _
        (quiet-Kept limit out (resolved r sub o) s (resolved-untried r sub o ∙ q.untried)
          (resolved-unended r sub o ∙ q.unended) b)
        (λ _ t d. gives d)

  pub reconcile_all-Kept :
      (s : State) → Bounded limit s → Kept (Bounded limit) (reconcile_all out.env lookup_jobs s)
  unfolding unverified_intents
  reconcile_all-Kept =
      reconcile_all-Keeps (keeping (Bounded limit)) Quiet out.env lookup_jobs ask_accounting-Kept
        (read-Bounded limit)
        (λ s b.
          All-map _ (λ r (q, o). open-Quiet r q o) _
            (All-holding Sane (λ (r : Attempt). is_open r.submit) (all_attempts s.ledger).1
              (rows-Sane limit s b)))
