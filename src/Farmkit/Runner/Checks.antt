-- ===== src/Farmkit/Runner/Checks.antt =====
-- src/farmkit/runner.py: the verification of an attempt (`_settle_inputs`, `_gate_record`, `_verify`)
-- and the publication of its outputs (`_publish`).
pub mod Laws
pub mod Published
pub mod Walk
pub mod Sound
use agent_farm_runtime.Prelude.{
  String, Option, none, some, Bool, false, not, ◌&&◌, List, [], ◌∷◌, ◌++◌, map, nonempty, codes,
  Chars, chars_eq, if◌then◌else◌, ◌==◌,
}
use agent_farm_runtime.Farmkit.Classify.{Verdict}
use agent_farm_runtime.Farmkit.Ledger.{Attempt, Input, latest, passed}
use agent_farm_runtime.Farmkit.Steps.{StepSpec}
use agent_farm_runtime.Farmkit.Verify.{
  Artifact, Artifacts, Code, is_present, find, pass, fail, merge, default_checks, run_verifier,
}
use agent_farm_runtime.Farmkit.Act.{
  Act, State, Event, published, pure, raise, read_rows, note, steps_error, ◌>>=◌, ◌>>◌,
}
use agent_farm_runtime.Farmkit.Runner.{Outside, Target, has_run_dir, main_output}

abbrev pub Inputs : Type 0
Inputs = List (Chars × Input)

-- `settled[rel] = entry`
unfoldable pub assign : Chars → Input → Inputs → Inputs
assign k v [] = (k, v) ∷ []
assign k v ((j, w) ∷ rest) = if k == j then (k, v) ∷ rest else (j, w) ∷ assign k v rest

-- An entry of the inputs as they are now, against what was recorded before
abbrev existed : Option Input → Bool
existed none = false
existed (some i) = i.exists

abbrev pub is_changed : Input → Option Input → Bool
is_changed entry none = false
is_changed entry (some i) = i.exists && (entry.exists && not (i.identity == entry.identity))

abbrev changed_verdict : Chars → Input → Option Input → Verdict
changed_verdict rel entry before =
    if is_changed entry before
    then fail (codes "input " ++ rel ++ codes " changed between submission and verification")
    else pass

abbrev settle_one : Chars → Input → Option Input → Inputs → Inputs
settle_one rel entry before settled = if existed before then settled else assign rel entry settled

-- The loop of `_settle_inputs`, over the inputs as they are now
unfoldable pub settle : Inputs → Inputs → Inputs → Verdict × Inputs
unfolding assign find
settle before [] settled = (pass, settled)
settle before ((rel, entry) ∷ rest) settled =
    let (v, done) = settle before rest (settle_one rel entry (find rel before) settled) in
    (merge (changed_verdict rel entry (find rel before)) v, done)

-- The gate of a step: none, the code it certified, or a gate that has not passed
pub data Gate : Type 0 where
  no_gate : Gate
  certified : Code → Gate
  not_passed : String → Gate

abbrev gate_row : String → Option Attempt → Gate
gate_row gate none = not_passed gate
gate_row gate (some a) = if passed (some a) then certified a.code else not_passed gate

abbrev pub gate_named : String → Act Gate
gate_named gate =
    if nonempty gate
    then (read_rows >>= λ rows. pure (gate_row gate (latest gate rows)))
    else pure no_gate

abbrev pub gate_of : Option String → Act Gate
gate_of none = pure no_gate
gate_of (some gate) = gate_named gate

-- `_gate_record`
unfoldable pub gate_record : StepSpec → Act Gate
unfolding read_rows latest
gate_record spec = gate_of spec.gate

abbrev pub gate_code : Gate → Option Code
gate_code (certified code) = some code
gate_code _ = none

abbrev pub gate_verdict : Gate → Verdict
gate_verdict (not_passed gate) =
    fail
      (codes "gate step " ++ codes gate ++ codes " has not passed; cannot certify this run's code")
gate_verdict _ = pass

module _ (out : Outside) where
  -- `_settle_inputs`
  unfoldable pub settle_inputs : List Event → Attempt → Verdict × Inputs
  unfolding settle
  settle_inputs done r =
      if has_run_dir r then settle r.inputs (out.describe done r) r.inputs else (pass, r.inputs)

  abbrev artifact : List Event → Attempt → Chars → Artifact
  artifact done r name =
      if has_run_dir r && is_present (some (out.in_run_dir done r name))
      then out.in_run_dir done r name
      else out.in_workspace done name

  -- `_artifacts`
  unfoldable pub artifacts_of : List Event → Attempt → StepSpec → Artifacts
  artifacts_of done r spec = map (λ (name : Chars). (name, artifact done r name)) spec.outputs

  -- The verdict of `_verify`
  unfoldable pub verdict_of : List Event → Attempt → StepSpec → Gate → Verdict
  unfolding default_checks artifacts_of settle_inputs run_verifier
  verdict_of done r spec gate =
      let v =
        default_checks (codes r.attempt_id) r.code (artifacts_of done r spec) spec.outputs
          spec.finite (gate_code gate) (main_output spec) in
      let w = merge (merge v (gate_verdict gate)) (settle_inputs done r).0 in
      if spec.has_verifier then merge w (run_verifier (out.verifier done r spec)) else w

  abbrev pub verified : Attempt → StepSpec → Gate → State → Verdict × Attempt
  verified r spec gate s =
      let v = verdict_of s.done r spec gate in
      (v, record r { inputs = (settle_inputs s.done r).1; verdict = some v })

  -- `_verify`, with the record that it changed
  unfoldable pub verify : Attempt → StepSpec → Act (Verdict × Attempt)
  unfolding gate_record verdict_of
  verify r spec = gate_record spec >>= λ gate s. pure (verified r spec gate s) s

-- The parts of a path below another, if it is below it
unfoldable pub below : List Chars → List Chars → Option (List Chars)
below [] path = some path
below (w ∷ ws) [] = none
below (w ∷ ws) (p ∷ ps) = if w == p then below ws ps else none

abbrev pub is_free : Option (List Chars) → Bool
is_free none = false
is_free (some []) = false
is_free (some (p ∷ ps)) = not (p == codes "attempts")

-- Strictly inside the workspace, and not in the ledger
unfoldable pub is_allowed : List Chars → List Chars → Bool
unfolding below
is_allowed workspace resolved = is_free (below workspace resolved)

module _ (out : Outside) (r : Attempt) where
  abbrev pub publish_to : Chars → Target → Act (Unit {0}) → Act (Unit {0})
  publish_to name t rest =
      if not t.source_exists
      then rest
      else if not (is_allowed out.workspace t.resolved)
      then raise steps_error
      else if t.same
      then rest
      else if t.replaces
      then note (published name) >> rest
      else raise steps_error

  -- The loop of `_publish`
  unfoldable pub publish_names : List Chars → Act (Unit {0})
  unfolding note is_allowed
  publish_names [] = pure tt
  publish_names (name ∷ names) =
      let rest = publish_names names in λ s. publish_to name (out.target s.done r name) rest s

  -- `_publish`
  unfoldable pub publish : StepSpec → Act (Unit {0})
  unfolding publish_names
  publish spec = if has_run_dir r then publish_names spec.outputs else pure tt
