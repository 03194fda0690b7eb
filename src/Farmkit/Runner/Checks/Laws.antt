-- ===== src/Farmkit/Runner/Checks/Laws.antt =====
-- What src/farmkit/runner.py checks before an attempt passes, and where it publishes.
use agent_farm_runtime.Prelude.{
  both_iff, is_yes_iff, Chars-discrete, ◌==◌, ◌≡◌, ◌≢◌, ◌++◌, refl, inl, inr, Bool, true, false,
  List, [], ◌∷◌, All, Chars, codes, Bool-cases, if◌then◌else◌, chars_eq,
}
use agent_farm_runtime.Farmkit.Classify.{Verdict}
use agent_farm_runtime.Farmkit.Ledger.{Attempt, Input}
use agent_farm_runtime.Farmkit.Steps.{StepSpec}
use agent_farm_runtime.Farmkit.Verify.{find, pass, fail, merge, default_checks, run_verifier}
use agent_farm_runtime.Farmkit.Verify.Laws.{Passes, default_checks-ok_iff}
use agent_farm_runtime.Farmkit.Act.{
  Act, State, Event, Outcome, returned, raised, published, note, ◌>>◌,
}
use agent_farm_runtime.Farmkit.Act.Rules.{Since, nothing, then_done, Since-trans}
use agent_farm_runtime.Farmkit.Runner.{Outside, has_run_dir, main_output}
use agent_farm_runtime.Farmkit.Runner.Checks.{
  Inputs, below, is_changed, settle, Gate, no_gate, certified, not_passed, gate_code, gate_verdict,
  settle_inputs, artifacts_of, verdict_of, is_allowed, publish_names, publish_to, publish,
}

fail-test : (b : Bool) (reason : Chars) → (if b then fail reason else pass).ok ≡ true → b ≡ false
fail-test true reason h = absurd (cc)
fail-test false reason h = refl

-- No input has other bytes than at the submission.
abbrev pub Unchanged : Inputs → Inputs → Type 0
Unchanged before now = All (λ (p : Chars × Input). is_changed p.1 (find p.0 before) ≡ false) now

settle-Unchanged :
    (before now settled : Inputs) → (settle before now settled).0.ok ≡ true → Unchanged before now
unfolding settle
settle-Unchanged before [] settled h = tt
settle-Unchanged before ((rel, entry) ∷ rest) settled h =
    let (p, q) = (both_iff _ _).0 h in (fail-test _ _ p, settle-Unchanged before rest _ q)

abbrev pub GatePassed : Gate → Type 0
GatePassed (not_passed gate) = ⊥
GatePassed _ = Unit

gate_verdict-GatePassed : (g : Gate) → (gate_verdict g).ok ≡ true → GatePassed g
gate_verdict-GatePassed no_gate h = tt
gate_verdict-GatePassed (certified code) h = tt
gate_verdict-GatePassed (not_passed gate) h = absurd (cc)

settled-Unchanged :
    (b : Bool) (before now settled : Inputs)
    → (if b then settle before now settled else (pass, settled)).0.ok ≡ true
    → Unchanged before (if b then now else [])
settled-Unchanged true before now settled h = settle-Unchanged before now settled h
settled-Unchanged false before now settled h = tt

verifier-ok :
    (b : Bool) (w v : Verdict)
    → (if b then merge w v else w).ok ≡ true
    → (w.ok ≡ true) × ((if b then v.ok else true) ≡ true)
verifier-ok true w v h = (both_iff w.ok v.ok).0 h
verifier-ok false w v h = (h, refl)

module _ (out : Outside) (done : List Event) (r : Attempt) (spec : StepSpec) (gate : Gate) where
  -- The inputs that are described again, for an attempt with a run directory
  abbrev pub described : Inputs
  described = if has_run_dir r then out.describe done r else []

  pub record Verified : Type 0 where
    pub checks :
        Passes
          (codes r.attempt_id)
          r.code
          (artifacts_of out done r spec)
          spec.outputs
          spec.finite
          (gate_code gate)
          (main_output spec)
    pub gate_passed : GatePassed gate
    pub inputs : Unchanged r.inputs described
    pub verifier :
        (if spec.has_verifier then (run_verifier (out.verifier done r spec)).ok else true) ≡ true

  settle_inputs-Unchanged : (settle_inputs out done r).0.ok ≡ true → Unchanged r.inputs described
  unfolding settle_inputs
  settle_inputs-Unchanged h =
      settled-Unchanged (has_run_dir r) r.inputs (out.describe done r) r.inputs h

  abbrev checked : Verdict
  checked =
      default_checks (codes r.attempt_id) r.code (artifacts_of out done r spec) spec.outputs
        spec.finite (gate_code gate) (main_output spec)

  pub verdict_of-Verified : (verdict_of out done r spec gate).ok ≡ true → Verified
  unfolding verdict_of
  verdict_of-Verified h =
      let inputs = (settle_inputs out done r).0 in
      let gated = merge checked (gate_verdict gate) in
      let (w, v) =
        verifier-ok spec.has_verifier (merge gated inputs) (run_verifier (out.verifier done r spec))
          h in
      let (g, i) = (both_iff gated.ok inputs.ok).0 w in
      let (c, k) = (both_iff checked.ok (gate_verdict gate).ok).0 g in
      record {
        checks =
            (default_checks-ok_iff (codes r.attempt_id) r.code (artifacts_of out done r spec)
                spec.outputs spec.finite (gate_code gate) (main_output spec)).0
              c;
        gate_passed = gate_verdict-GatePassed gate k;
        inputs = settle_inputs-Unchanged i;
        verifier = v;
      }

-- The parts of a path strictly inside a directory: the parts of the directory and then more, the
-- first of which is not the ledger's.
pub record IsBelow (workspace resolved : List Chars) : Type 0 where
  pub first : Chars
  pub rest : List Chars
  pub parts : resolved ≡ workspace ++ first ∷ rest
  pub no_ledger : first ≢ codes "attempts"

cons-IsBelow :
    (p q : Chars) (workspace resolved : List Chars)
    → p ≡ q
    → IsBelow workspace resolved
    → IsBelow (p ∷ workspace) (q ∷ resolved)
cons-IsBelow p q workspace resolved e h = record {
  first = h.first;
  rest = h.rest;
  parts = rw (e, h.parts) refl;
  no_ledger = h.no_ledger;
}

is_allowed-IsBelow :
    (workspace resolved : List Chars)
    → is_allowed workspace resolved ≡ true
    → IsBelow workspace resolved
unfolding is_allowed below
is_allowed-IsBelow [] [] h = absurd (cc)
is_allowed-IsBelow [] (q ∷ rest) h = record {
  first = q;
  rest = rest;
  parts = refl;
  no_ledger = λ e.
      let b = (is_yes_iff (Chars-discrete q (codes "attempts"))).1 e in
      let k = rw b at h in absurd (cc);
}
is_allowed-IsBelow (p ∷ workspace) [] h = absurd (cc)
is_allowed-IsBelow (p ∷ workspace) (q ∷ resolved) h = elim (Bool-cases (p == q)) [
  | inr e ↦ let k = rw e at h in absurd (cc)
  | inl e ↦
      let k = rw e at h in
      cons-IsBelow p q workspace resolved ((is_yes_iff (Chars-discrete p q)).0 e)
        (is_allowed-IsBelow workspace resolved k)
]

-- An output was published whose destination resolved strictly inside the workspace, and not into the
-- ledger.
pub data IsInside (out : Outside) (r : Attempt) : Event → Type 0 where
  inside :
      (done : List Event) (name : Chars)
      → IsBelow out.workspace (out.target done r name).resolved
      → (out.target done r name).source_exists ≡ true
      → IsInside out r (published name)

abbrev pub state_of : Outcome (Unit {0}) → State
state_of (returned a s) = s
state_of (raised e s) = s

module _ (out : Outside) (r : Attempt) where
  abbrev Inside : State → Outcome (Unit {0}) → Type 0
  Inside s o = Since (IsInside out r) s.done (state_of o).done

  -- The source exists, and the destination is allowed.
  replace-Inside :
      (name : Chars) (rest : Act (Unit {0})) (s : State)
      → (out.target s.done r name).source_exists ≡ true
      → is_allowed out.workspace (out.target s.done r name).resolved ≡ true
      → ((t : State) → Inside t (rest t))
      → Inside s ((note (published name) >> rest) s)
  unfolding note
  replace-Inside name rest s e i h =
      let t : State = record { ledger = s.ledger; done = published name ∷ s.done } in
      Since-trans
        (then_done (published name) nothing (inside s.done name (is_allowed-IsBelow _ _ i) e)) (h t)

  publish_to-Inside :
      (name : Chars) (rest : Act (Unit {0})) (s : State)
      → ((t : State) → Inside t (rest t))
      → Inside s (publish_to out r name (out.target s.done r name) rest s)
  publish_to-Inside name rest s h =
      let t = out.target s.done r name in
      elim (Bool-cases t.source_exists) [
        | inr e ↦ rw e (h s)
        | inl e ↦ elim (Bool-cases (is_allowed out.workspace t.resolved)) [
          | inr i ↦ rw (e, i) nothing
          | inl i ↦ elim (Bool-cases t.same) [
            | inl q ↦ rw (e, i, q) (h s)
            | inr q ↦ elim (Bool-cases t.replaces) [
              | inl k ↦ rw (e, i, q, k) (replace-Inside name rest s e i h)
              | inr k ↦ rw (e, i, q, k) nothing
            ]
          ]
        ]
      ]

  publish_names-Inside : (names : List Chars) (s : State) → Inside s (publish_names out r names s)
  unfolding publish_names
  publish_names-Inside [] s = nothing
  publish_names-Inside (name ∷ names) s =
      publish_to-Inside name (publish_names out r names) s (publish_names-Inside names)

  -- A publication writes nothing but outputs that the attempt left and whose destinations resolve
  -- strictly inside the workspace and outside the ledger, also if it raises.
  pub publish-Inside : (spec : StepSpec) (s : State) → Inside s (publish out r spec s)
  unfolding publish
  publish-Inside spec s = elim (Bool-cases (has_run_dir r)) [
    | inl e ↦ rw e (publish_names-Inside spec.outputs s)
    | inr e ↦ rw e nothing
  ]
