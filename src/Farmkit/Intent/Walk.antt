-- ===== src/Farmkit/Intent/Walk.antt =====
-- A reconciliation of intents keeps what a read and a question to the accounting keep.
use agent_farm_runtime.Prelude.{String, Option, none, some, List, [], ◌∷◌, All}
use agent_farm_runtime.Farmkit.Ledger.{
  Attempt, Submit, SubmitStatus, intent, unverified, submitted, adopted, rejected, local,
  unverified_intents, all_attempts,
}
use agent_farm_runtime.Farmkit.Act.{Env, State, read_rows}
use agent_farm_runtime.Farmkit.Act.Logic.{Logic}
use agent_farm_runtime.Farmkit.Intent.{
  Lookup, Reconciled, ask_accounting, reconcile, reconcile_as, reconcile_submit, reconcile_rows,
  reconcile_all,
}

module _ (L : Logic) (Row : Attempt → Type 0) (env : Env) (lookup_jobs : Lookup)
    (asks : (r : Attempt) (sub : Submit) (s : State)
      → Row r
      → L.Holds s
      → L.Keeps Reconciled (ask_accounting env lookup_jobs r sub s)) where
  reconcile_as-Keeps :
      (r : Attempt) (sub : Submit) (st : SubmitStatus) (s : State)
      → Row r
      → L.Holds s
      → L.Keeps Reconciled (reconcile_as env lookup_jobs r sub st s)
  unfolding reconcile_as
  reconcile_as-Keeps r sub intent s q p = asks r sub s q p
  reconcile_as-Keeps r sub unverified s q p = asks r sub s q p
  reconcile_as-Keeps r sub submitted s q p = L.give _ _ s p
  reconcile_as-Keeps r sub adopted s q p = L.give _ _ s p
  reconcile_as-Keeps r sub rejected s q p = L.give _ _ s p
  reconcile_as-Keeps r sub local s q p = L.give _ _ s p

  reconcile_submit-Keeps :
      (r : Attempt) (o : Option Submit) (s : State)
      → Row r
      → L.Holds s
      → L.Keeps Reconciled (reconcile_submit env lookup_jobs r o s)
  unfolding reconcile_submit
  reconcile_submit-Keeps r none s q p = L.give _ _ s p
  reconcile_submit-Keeps r (some sub) s q p = reconcile_as-Keeps r sub sub.status s q p

  reconcile_rows-Keeps :
      (rows : List Attempt) (s : State)
      → All Row rows
      → L.Holds s
      → L.Keeps (List (String × Reconciled)) (reconcile_rows env lookup_jobs rows s)
  unfolding reconcile_rows reconcile
  reconcile_rows-Keeps [] s h p = L.give _ _ s p
  reconcile_rows-Keeps (r ∷ rest) s (q, h) p =
      L.bind _ _ _ _ (reconcile_submit-Keeps r r.submit s q p)
        λ g t d. L.bind _ _ _ _ (reconcile_rows-Keeps rest t h d) (λ l v e. L.give _ _ v e)

  pub reconcile_all-Keeps :
      (reads : (s : State)
        → L.Holds s
        → L.Holds (record { ledger = (all_attempts s.ledger).0; done = s.done }))
      (rows : (s : State) → L.Holds s → All Row (unverified_intents (all_attempts s.ledger).1))
      (s : State)
      → L.Holds s
      → L.Keeps (List (String × Reconciled)) (reconcile_all env lookup_jobs s)
  unfolding reconcile_all read_rows
  reconcile_all-Keeps reads rows s p = reconcile_rows-Keeps _ _ (rows s p) (reads s p)
