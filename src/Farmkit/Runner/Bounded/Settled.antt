-- ===== src/Farmkit/Runner/Bounded/Settled.antt =====
-- The end of an attempt writes an automatic retry only within the budget.
use mathlib.Core.Path.{subst}
use agent_farm_runtime.Prelude.{
  chars_eq, string_eq, ◌==◌, string_dec, is_yes_iff, ◌≡◌, refl, sym, ◌∙◌, ap, inl, inr, ℕ, ◌+◌, ◌≤◌,
  ◌<◌, String, Option, none, some, false, List, [], ltb, arith, Bool-cases,
}
use agent_farm_runtime.Farmkit.Classify.{FailureClass, Verdict}
use agent_farm_runtime.Farmkit.Ledger.{Attempt, all_attempts, by_step}
use agent_farm_runtime.Farmkit.Ledger.Laws.{all_attempts-Reads, save-IsCoherent}
use agent_farm_runtime.Farmkit.Steps.{StepSpec}
use agent_farm_runtime.Farmkit.Act.{◌>>=◌, Act, State, Outcome, go_on, store, read_rows, pure}
use agent_farm_runtime.Farmkit.Act.Rules.{stamped, stored}
use agent_farm_runtime.Farmkit.Act.Sound.{Coherent}
use agent_farm_runtime.Farmkit.Act.Kept.{Kept, gives, Kept-bind}
use agent_farm_runtime.Farmkit.Runner.{Outside}
use agent_farm_runtime.Farmkit.Runner.Budget.{
  used, allowed, with_failure, same_class, to_retry, to_park,
}
use agent_farm_runtime.Farmkit.Runner.Launch.{
  park, retry, settle_failure, ruling_of, conclude, finalize,
}
use agent_farm_runtime.Farmkit.Runner.Launch.Retries.{used-spent}
use agent_farm_runtime.Farmkit.Runner.Launch.Fuel.{
  Same, written_twice, JudgedAs, judged, judge-JudgedAs,
}
use agent_farm_runtime.Farmkit.Runner.Bounded.Counts.{
  retried_as, retries, retries-spent, same_class-same,
}
use agent_farm_runtime.Farmkit.Runner.Launch.Retries.{on_step}
use agent_farm_runtime.Farmkit.Runner.Launch.{ruling_of, park}
use agent_farm_runtime.Farmkit.Runner.Budget.{to_park}
use agent_farm_runtime.Farmkit.Ledger.{is_open}
use agent_farm_runtime.Farmkit.Runner.Bounded.Counts.{
  on_step-one, on_step-elsewhere, on_step-other_class,
}
use agent_farm_runtime.Farmkit.Runner.Bounded.Records.{Ending, untried-Sane}
use agent_farm_runtime.Farmkit.Runner.Bounded.Writes.{
  Limit, Bounded, read-Bounded, same_files-Bounded, put-Bounded, store-Kept, written_twice-Bounded,
  publish-Kept,
}

Same-Ending : (r r' : Attempt) → Same r r' → Ending r → Ending r'
Same-Ending r r' q g = record {
  untried = rw (q.failure) (g.untried);
  over = rw (q.observed) (g.over);
  settled = rw (q.submit) (g.settled);
}

-- The limit leaves a step its budget.
abbrev pub Leaves : Limit → StepSpec → Type 0
Leaves limit spec = (c : FailureClass) → allowed spec c ≤ limit spec.id c

module _ (limit : Limit) (out : Outside) (spec : StepSpec) (leaves : Leaves limit spec) where
  -- What is used of a class, by the rows that are read, is at least the retries.
  retries-used :
      (c : FailureClass) (s : State)
      → Coherent s
      → retries spec.id c s.ledger.files ≤ used c (by_step spec.id (all_attempts s.ledger).1)
  retries-used c s h =
      let e =
        ap (λ (l : List Attempt). used c (by_step spec.id l)) (all_attempts-Reads s.ledger h).rows
        ∙ used-spent spec.id c s.ledger in
      omega (arith, e, retries-spent spec.id c s.ledger.files)

  park-Kept :
      (c : FailureClass) (n : ℕ) (r : Attempt) (s : State)
      → is_open r.submit ≡ false
      → Bounded limit s
      → Kept (Bounded limit) (park out spec c n r s)
  unfolding park store
  park-Kept c n r s o b =
      let r' = with_failure spec c n (to_park c (ruling_of out spec c r)) r in
      gives (written_twice-Bounded limit out r' s refl (untried-Sane r' refl o) b)

  -- One more retry of a step and class that had room
  one_more :
      (s : State) (v : Attempt) (c : FailureClass)
      → Bounded limit s
      → v.step ≡ spec.id
      → v.failure ≡ some (to_retry c)
      → retries spec.id c s.ledger.files < allowed spec c
      → (step : String) (d : FailureClass)
      → on_step step (retried_as d) v + retries step d s.ledger.files ≤ limit step d
  one_more s v c b own f l step d = elim (Bool-cases (v.step == step)) [
    | inr elsewhere ↦
        omega (arith, on_step-elsewhere step (retried_as d) v elsewhere, b.within step d)
    | inl here ↦ elim (Bool-cases (same_class c d)) [
      | inr other ↦ omega (arith, on_step-other_class step c d v f other, b.within step d)
      | inl same ↦
          let at = sym own ∙ (is_yes_iff (string_dec v.step step)).0 here in
          let room : retries spec.id c s.ledger.files < limit spec.id c =
            omega (arith, l, leaves c) in
          let there =
            subst (λ x. retries x d s.ledger.files < limit x d) at
              (subst (λ x. retries spec.id x s.ledger.files < limit spec.id x)
                (same_class-same c d same) room) in
          omega (arith, on_step-one step d v, there)
    ]
  ]

  module _ (relaunch : Act (Option Attempt))
      (again : (s : State) → Bounded limit s → Kept (Bounded limit) (relaunch s)) where
    retry-Kept :
        (c : FailureClass) (n : ℕ) (r : Attempt) (s : State)
        → r.step ≡ spec.id
        → Ending r
        → retries spec.id c s.ledger.files < allowed spec c
        → Bounded limit s
        → Kept (Bounded limit) (retry out spec relaunch c n r s)
    unfolding retry store
    retry-Kept c n r s own g l b =
        let f = with_failure spec c n (to_retry c) r in
        let s1 = stored out.env f s in
        let f2 = stamped out.env (stamped out.env f s) s1 in
        let s2 = stored out.env (stamped out.env f s) s1 in
        Kept-bind (Bounded limit) _
          (again s2 (
            put-Bounded limit r.attempt_id f2 s s2
              (written_twice out spec relaunch (out.env.clock s.done) (out.env.clock s1.done) f
                s.ledger)
              (save-IsCoherent (out.env.clock s1.done) (stamped out.env f s) s1.ledger)
              (record { ended = λ _. g.over; closed = λ _. g.settled })
              (one_more s f2 c b own refl l) b))
          (λ a t d. gives d)

    settle_failure-Kept :
        (c : FailureClass) (r : Attempt) (rows : List Attempt) (s : State)
        → r.step ≡ spec.id
        → Ending r
        → retries spec.id c s.ledger.files ≤ used c (by_step spec.id rows)
        → Bounded limit s
        → Kept (Bounded limit) (settle_failure out spec relaunch c r rows s)
    unfolding settle_failure
    settle_failure-Kept c r rows s own g l b =
        elim (Bool-cases (ltb (used c (by_step spec.id rows)) (allowed spec c))) [
          | inl e ↦ rw e (retry-Kept c _ r s own g (ground (arith, l, e)) b)
          | inr e ↦ rw e (park-Kept c _ r s g.settled b)
        ]

    conclude-Kept :
        (r : Attempt) (o : Option FailureClass) (s : State)
        → r.step ≡ spec.id
        → Ending r
        → Bounded limit s
        → Kept (Bounded limit) (conclude out spec relaunch r o s)
    unfolding conclude
    conclude-Kept r none s own g b =
        let r' = record r { failure = none } in
        Kept-bind (Bounded limit) (λ _. store out.env r' >>= λ _. pure {A = List String} [])
          (publish-Kept limit out spec r' s b)
          λ _ u d.
            Kept-bind (Bounded limit) (λ _. pure {A = List String} [])
              (store-Kept limit out r' u refl (untried-Sane r' refl g.settled) d) (λ _ v e. gives e)
    conclude-Kept r (some c) s own g b =
        let k = all_attempts-Reads s.ledger b.coherent in
        unfold read_rows in
        settle_failure-Kept c r (all_attempts s.ledger).1 _ own g
          (rw (k.kept) (retries-used c s b.coherent)) (read-Bounded limit s b)

    judged-Kept :
        (r : Attempt) (s : State) (cls : Option Verdict → Option FailureClass)
        {o : Outcome (Option Verdict × Attempt)}
        → JudgedAs out spec relaunch r s o
        → r.step ≡ spec.id
        → Ending r
        → Bounded limit s
        → Kept (Bounded limit) (go_on o (λ (v, r'). conclude out spec relaunch r' (cls v)))
    judged-Kept r s cls (judged {v} {r'} {t} q f c) own g b =
        conclude-Kept r' (cls v) t (q.step ∙ own) (Same-Ending r r' q g)
          (same_files-Bounded limit s t f c b)

    pub finalize-Kept :
        (r : Attempt) (s : State)
        → r.step ≡ spec.id
        → Ending r
        → Bounded limit s
        → Kept (Bounded limit) (finalize out spec relaunch r s)
    unfolding finalize
    finalize-Kept r s own g b =
        judged-Kept r s _ (judge-JudgedAs out spec relaunch r s b.coherent) own g b
