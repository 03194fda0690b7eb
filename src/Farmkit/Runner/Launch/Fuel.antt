-- ===== src/Farmkit/Runner/Launch/Fuel.antt =====
-- The launches of src/farmkit/runner.py end: an attempt is retried at most as often as the budget of
-- its step allows.
use agent_farm_runtime.Prelude.{
  ◌≡◌, refl, inl, inr, ℕ, ◌<◌, String, Option, none, some, List, [], put, put-put, ltb, arith,
  Bool-cases, ◌==◌, chars_eq, codes,
}
use agent_farm_runtime.Farmkit.Classify.{FailureClass, Verdict, normalized}
use agent_farm_runtime.Farmkit.Ledger.{Attempt, Ledger, save, all_attempts, by_step, state_of}
use agent_farm_runtime.Farmkit.Ledger.Laws.{save-IsCoherent}
use agent_farm_runtime.Farmkit.Steps.{StepSpec}
use agent_farm_runtime.Farmkit.Act.{
  Act, State, Outcome, returned, store, read_rows, ◌>>=◌, go_on, pure,
}
use agent_farm_runtime.Farmkit.Act.Rules.{stamped, stored}
use agent_farm_runtime.Farmkit.Act.Sound.{Coherent, Sound, returns, Sound-bind}
use agent_farm_runtime.Farmkit.Runner.{Outside}
use agent_farm_runtime.Farmkit.Runner.Checks.{Gate, verified, verify}
use agent_farm_runtime.Farmkit.Runner.Checks.Sound.{
  GateRead, gate_read, gate_record-GateRead, publish-Sound,
}
use agent_farm_runtime.Farmkit.Runner.Budget.{used, allowed, with_failure, to_retry}
use agent_farm_runtime.Farmkit.Runner.Launch.{
  park, retry, settle_failure, conclude, judge, finalize,
}

-- The same attempt of the same step, with the same failure, earlier budget, state and submission.
pub record Same (r r' : Attempt) : Type 0 where
  pub id : r'.attempt_id ≡ r.attempt_id
  pub step : r'.step ≡ r.step
  pub failure : r'.failure ≡ r.failure
  pub prior : r'.budget.prior_used ≡ r.budget.prior_used
  pub observed : r'.observed ≡ r.observed
  pub submit : r'.submit ≡ r.submit

module _ (out : Outside) (spec : StepSpec) (relaunch : Act (Option Attempt)) where
  -- A judgement changes no file.
  pub data JudgedAs (r : Attempt) (s : State) : Outcome (Option Verdict × Attempt) → Type 0 where
    judged :
        {v : Option Verdict} {r' : Attempt} {t : State}
        → Same r r'
        → t.ledger.files ≡ s.ledger.files
        → Coherent t
        → JudgedAs r s (returned (v, r') t)

  verified-JudgedAs :
      (r : Attempt) (s : State) {o : Outcome Gate}
      → GateRead out spec s o
      → JudgedAs r s (
          go_on {B = Option Verdict × Attempt}
            (go_on o (λ gate t. pure (verified out r spec gate t) t))
            (λ (v, r'). pure (some v, r')))
  verified-JudgedAs r s (gate_read f c) =
      judged
        (record {
          id = refl;
          step = refl;
          failure = refl;
          prior = refl;
          observed = refl;
          submit = refl;
        })
        f c

  pub judge-JudgedAs :
      (r : Attempt) (s : State) → Coherent s → JudgedAs r s (judge out spec relaunch r s)
  unfolding judge verify
  judge-JudgedAs r s c = elim (Bool-cases (normalized (state_of r) == codes "COMPLETED")) [
    | inl e ↦ rw e (verified-JudgedAs r s (gate_record-GateRead out spec s c))
    | inr e ↦ rw e (
        judged
          (record {
            id = refl;
            step = refl;
            failure = refl;
            prior = refl;
            observed = refl;
            submit = refl;
          })
          refl c)
  ]

  -- The record of a failure that is retried
  abbrev pub failed_row : FailureClass → ℕ → Attempt → Option ℕ → Attempt
  failed_row c n r u = record (with_failure spec c n (to_retry c) r) { updated_ts = u }

  -- The launch that follows it, whatever the record says of its time
  abbrev pub Relaunches : FailureClass → ℕ → Attempt → State → Type 0
  Relaunches c n r s =
      (u : Option ℕ) (t : State)
      → Coherent t
      → t.ledger.files ≡ put r.attempt_id (failed_row c n r u) s.ledger.files
      → Sound (relaunch t)

  -- What a second write of a record replaces
  pub written_twice :
      (now later : ℕ) (r : Attempt) (l : Ledger)
      → (save later (record r { updated_ts = some now }) (save now r l)).files
        ≡ put r.attempt_id (record r { updated_ts = some later }) l.files
  unfolding save all_attempts
  written_twice now later r l =
      put-put r.attempt_id (record r { updated_ts = some later })
        (record r { updated_ts = some now }) l.files

  retry-Sound :
      (c : FailureClass) (n : ℕ) (r : Attempt) (s : State)
      → Relaunches c n r s
      → Sound (retry out spec relaunch c n r s)
  unfolding retry store
  retry-Sound c n r s h =
      let f = with_failure spec c n (to_retry c) r in
      let s1 = stored out.env f s in
      let s2 = stored out.env (stamped out.env f s) s1 in
      Sound-bind _
        (h (some (out.env.clock s1.done)) s2
          (save-IsCoherent (out.env.clock s1.done) (stamped out.env f s) s1.ledger)
          (written_twice (out.env.clock s.done) (out.env.clock s1.done) f s.ledger))
        (λ a t d. returns d)

  park-Sound : (c : FailureClass) (n : ℕ) (r : Attempt) (s : State) → Sound (park out spec c n r s)
  unfolding park store
  park-Sound c n r s = returns (save-IsCoherent _ _ _)

  -- The launch after a failure within the budget, whose uses are those of the rows
  abbrev pub WithinBudget : Attempt → State → List Attempt → Type 0
  WithinBudget r s rows =
      (c : FailureClass)
      → used c (by_step spec.id rows) < allowed spec c
      → Relaunches c (used c (by_step spec.id rows)) r s

  settle_failure-Sound :
      (c : FailureClass) (r : Attempt) (rows : List Attempt) (s : State)
      → WithinBudget r s rows
      → Sound (settle_failure out spec relaunch c r rows s)
  unfolding settle_failure
  settle_failure-Sound c r rows s h =
      elim (Bool-cases (ltb (used c (by_step spec.id rows)) (allowed spec c))) [
        | inl e ↦ rw e (retry-Sound c _ r s (h c (ground arith)))
        | inr e ↦ rw e (park-Sound c _ r s)
      ]

  passed-Sound :
      (r : Attempt) (s : State)
      → Sound ((store out.env (record r { failure = none }) >>= λ _. pure {A = List String} []) s)
  unfolding store
  passed-Sound r s = returns (save-IsCoherent _ _ _)

  conclude-Sound :
      (r : Attempt) (o : Option FailureClass) (s : State)
      → Coherent s
      → WithinBudget r
          (record { ledger = (all_attempts s.ledger).0; done = s.done })
          (all_attempts s.ledger).1
      → Sound (conclude out spec relaunch r o s)
  unfolding conclude
  conclude-Sound r none s c h =
      Sound-bind (λ _. store out.env (record r { failure = none }) >>= λ _. pure [])
        (publish-Sound out spec (record r { failure = none }) s c) (λ _ t d. passed-Sound r t)
  conclude-Sound r (some cls) s c h =
      unfold read_rows in settle_failure-Sound cls r (all_attempts s.ledger).1 _ h

  -- The rest of the end of an attempt, at what was judged
  judged-Sound :
      (r : Attempt) (s : State) (cls : Option Verdict → Option FailureClass)
      {o : Outcome (Option Verdict × Attempt)}
      → JudgedAs r s o
      → ((r' : Attempt) (t : State)
          → Same r r'
          → t.ledger.files ≡ s.ledger.files
          → Coherent t
          → WithinBudget r'
              (record { ledger = (all_attempts t.ledger).0; done = t.done })
              (all_attempts t.ledger).1)
      → Sound (go_on o (λ (v, r'). conclude out spec relaunch r' (cls v)))
  judged-Sound r s cls (judged {v} {r'} {t} q f c) h = conclude-Sound r' (cls v) t c (h r' t q f c)

  pub finalize-Sound :
      (r : Attempt) (s : State)
      → Coherent s
      → ((r' : Attempt) (t : State)
          → Same r r'
          → t.ledger.files ≡ s.ledger.files
          → Coherent t
          → WithinBudget r'
              (record { ledger = (all_attempts t.ledger).0; done = t.done })
              (all_attempts t.ledger).1)
      → Sound (finalize out spec relaunch r s)
  unfolding finalize
  finalize-Sound r s c h = judged-Sound r s _ (judge-JudgedAs r s c) h
