-- ===== src/Farmkit/Runner/Launch/Termination.antt =====
-- A launch of src/farmkit/runner.py ends: the fuel that the budget of its step allows is enough.
use agent_farm_runtime.Prelude.{
  ◌≡◌, refl, sym, ◌∙◌, ap, ℕ, zero, suc, ◌<◌, String, Option, none, some, List, ◌∷◌, put, put-put,
  lookup, arith,
}
use mathlib.Core.Path.{subst}
use agent_farm_runtime.Farmkit.Classify.{FailureClass}
use agent_farm_runtime.Farmkit.Ledger.{
  Attempt, Submit, SubmitStatus, submitted, rejected, intent, unverified, adopted, local, save,
  all_attempts, by_step,
}
use agent_farm_runtime.Farmkit.Ledger.Laws.{all_attempts-Reads, save-IsCoherent}
use agent_farm_runtime.Farmkit.Steps.{StepSpec, Kind}
use agent_farm_runtime.Farmkit.Act.{Act, State, ran, store, note, read_rows, pure}
use agent_farm_runtime.Farmkit.Act.Rules.{stamped, stored}
use agent_farm_runtime.Farmkit.Act.Sound.{Coherent, Sound, returns, Sound-bind, read_rows-Sound}
use agent_farm_runtime.Farmkit.Intent.Sound.{submit-Sound}
use agent_farm_runtime.Farmkit.Runner.{Outside}
use agent_farm_runtime.Farmkit.Runner.Budget.{used}
use agent_farm_runtime.Farmkit.Runner.Launch.{
  as_local, refuse_sbatch, submit_sbatch, submit_after, argv_of, by_status, after_status, run_local,
  after_run, exit_of, launched, by_kind, launch_with, launch,
}
use agent_farm_runtime.Farmkit.Runner.Launch.Retries.{
  spent, used-spent, spent-fresh, left, left-retried, budget_of, left-le-budget_of,
}
use agent_farm_runtime.Farmkit.Runner.Launch.Fuel.{Same, WithinBudget, failed_row, finalize-Sound}

module _ (out : Outside) (spec : StepSpec) where
  refuse_sbatch-Sound : (r : Attempt) (s : State) → Sound (refuse_sbatch out spec r s)
  unfolding refuse_sbatch store
  refuse_sbatch-Sound r s = returns (save-IsCoherent _ _ _)

  by_status-Sound :
      (r : Attempt) (st : SubmitStatus) (s : State) → Coherent s → Sound (by_status out spec r st s)
  by_status-Sound r submitted s c = returns c
  by_status-Sound r rejected s c = refuse_sbatch-Sound r s
  by_status-Sound r intent s c = returns c
  by_status-Sound r unverified s c = returns c
  by_status-Sound r adopted s c = returns c
  by_status-Sound r local s c = returns c

  after_submit-Sound :
      (r : Attempt) (o : Option Submit) (s : State)
      → Coherent s
      → Sound (after_status out spec r o s)
  after_submit-Sound r none s c = returns c
  after_submit-Sound r (some sub) s c = by_status-Sound r sub.status s c

  submit_after-Sound :
      (r : Attempt) (rows : List Attempt) (s : State) → Sound (submit_after out spec r rows s)
  unfolding submit_after
  submit_after-Sound r rows s =
      Sound-bind (λ r'. after_status out spec r' r'.submit)
        (submit-Sound out.env r (argv_of out spec r rows) s)
        (λ r' u e. after_submit-Sound r' r'.submit u e)

  submit_sbatch-Sound : (r : Attempt) (s : State) → Coherent s → Sound (submit_sbatch out spec r s)
  unfolding submit_sbatch
  submit_sbatch-Sound r s c =
      Sound-bind (submit_after out spec r) (read_rows-Sound s c)
        (λ rows t d. submit_after-Sound r rows t)

  module _ (relaunch : Act (Option Attempt)) (r : Attempt) (files : List (String × Attempt))
      (new : lookup r.attempt_id files ≡ none) (own : r.step ≡ spec.id) (first : r.failure ≡ none)
      (prior : r.budget.prior_used ≡ none)
      (ends : (t : State)
        → Coherent t
        → left spec t.ledger.files < left spec files
        → Sound (relaunch t)) where
    abbrev rows : State → List Attempt
    rows t = (all_attempts t.ledger).1

    -- What is used of a class, while the attempt has not failed
    used-files :
        (t : State) (cls : FailureClass)
        → t.ledger.files ≡ put r.attempt_id r files
        → Coherent t
        → used cls (by_step spec.id (rows t)) ≡ spent spec.id cls files
    used-files t cls f c =
        ap (λ (l : List Attempt). used cls (by_step spec.id l)) (all_attempts-Reads t.ledger c).rows
        ∙ used-spent spec.id cls t.ledger
        ∙ ap (spent spec.id cls) f
        ∙ spent-fresh spec r.attempt_id r files new own (rw prior refl) cls first

    files-after :
        (r' x : Attempt) (t t' : State)
        → r'.attempt_id ≡ r.attempt_id
        → t.ledger.files ≡ put r.attempt_id r files
        → Coherent t
        → t'.ledger.files ≡ put r'.attempt_id x (all_attempts t.ledger).0.files
        → t'.ledger.files ≡ put r.attempt_id x files
    files-after r' x t t' i f c g =
        g
        ∙ ap (λ (k : String). put k x (all_attempts t.ledger).0.files) i
        ∙ ap (put r.attempt_id x) ((all_attempts-Reads t.ledger c).kept ∙ f)
        ∙ put-put r.attempt_id x r files

    -- A failure within the budget leaves less of it.
    local_WithinBudget :
        (r' : Attempt) (t : State)
        → Same r r'
        → t.ledger.files ≡ put r.attempt_id r files
        → Coherent t
        → WithinBudget out spec relaunch r'
            (record { ledger = (all_attempts t.ledger).0; done = t.done })
            (rows t)
    local_WithinBudget r' t q f c cls l u t' c' f' =
        let n = used cls (by_step spec.id (rows t)) in
        let x = failed_row out spec relaunch cls n r' u in
        let p : r'.budget.prior_used ≡ none = q.prior ∙ prior in
        ends t' c' (
          subst (λ (m : List (String × Attempt)). left spec m < left spec files)
            (sym (files-after r' x t t' q.id f c f'))
            (left-retried spec r.attempt_id x files new (q.step ∙ own) (rw p refl) cls refl
              (rw (← used-files t cls f c) l)))

  module _ (relaunch : Act (Option Attempt)) (r : Attempt) (s : State)
      (new : lookup r.attempt_id s.ledger.files ≡ none) (own : r.step ≡ spec.id)
      (first : r.failure ≡ none) (prior : r.budget.prior_used ≡ none)
      (ends : (t : State)
        → Coherent t
        → left spec t.ledger.files < left spec s.ledger.files
        → Sound (relaunch t)) where
    -- The record and the state when a local run is over
    abbrev begun : Attempt
    begun = stamped out.env (as_local out spec r) s

    abbrev running : State
    running = stored out.env (as_local out spec r) s

    abbrev over : Attempt
    over = after_run out spec (exit_of out spec (out.run_local running.done spec)) begun

    abbrev noted : State
    noted = record { ledger = running.ledger; done = ran spec.id ∷ running.done }

    over-files :
        (stored out.env over noted).ledger.files
        ≡ put r.attempt_id (stamped out.env over noted) s.ledger.files
    unfolding save all_attempts
    over-files = put-put r.attempt_id (stamped out.env over noted) begun s.ledger.files

    run_local-Sound : Sound (run_local out spec relaunch r s)
    unfolding run_local store note
    run_local-Sound =
        let r2 = stamped out.env over noted in
        Sound-bind (λ _. pure (some r2))
          (finalize-Sound out spec relaunch r2 (stored out.env over noted)
            (save-IsCoherent (out.env.clock noted.done) over noted.ledger)
            (λ r' t q f c.
              local_WithinBudget relaunch r2 s.ledger.files new own first prior ends r' t q
                (f ∙ over-files) c))
          (λ _ t d. returns d)

    by_kind-Sound : (k : Kind) → Coherent s → Sound (by_kind out spec relaunch r k s)
    by_kind-Sound Kind.sbatch c = submit_sbatch-Sound r s c
    by_kind-Sound Kind.local c = run_local-Sound

  module _ (fresh : (s : State) → lookup (out.fresh_id s) s.ledger.files ≡ none) where
    launch_with-Sound :
        (relaunch : Act (Option Attempt)) (s : State)
        → Coherent s
        → ((t : State)
            → Coherent t
            → left spec t.ledger.files < left spec s.ledger.files
            → Sound (relaunch t))
        → Sound (launch_with out spec relaunch s)
    unfolding launch_with read_rows
    launch_with-Sound relaunch s c h =
        let k = all_attempts-Reads s.ledger c in
        let t : State = record { ledger = (all_attempts s.ledger).0; done = s.done } in
        by_kind-Sound relaunch (launched out spec t (all_attempts s.ledger).1) t (fresh t) refl refl
          refl (λ u d l. h u d (rw (ap (left spec) k.kept) at l)) spec.kind k.coherent

    pub launch-Sound-at :
        (n : ℕ) (s : State)
        → Coherent s
        → left spec s.ledger.files < n
        → Sound (launch out spec n s)
    unfolding launch
    launch-Sound-at zero s c l = absurd (omega arith)
    launch-Sound-at (suc n) s c l =
        launch_with-Sound (launch out spec n) s c λ t d m. launch-Sound-at n t d (omega arith)

    -- From a coherent cache of the ledger, a launch ends within the fuel that the budget of its step
    -- allows, however its runs, its checks and sbatch turn out, if no id of an attempt is drawn
    -- twice: it does not run out of fuel.
    pub launch-Sound : (s : State) → Coherent s → Sound (launch out spec (suc (budget_of spec)) s)
    launch-Sound s c =
        launch-Sound-at (suc (budget_of spec)) s c
          (let l = left-le-budget_of spec s.ledger.files in omega arith)
