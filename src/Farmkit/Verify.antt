-- ===== src/Farmkit/Verify.antt =====
-- src/farmkit/verify.py: the default checks of an attempt's outputs, and the call of a project's
-- verifier. A file is what a read of it gives; `checked` of a verdict is only written, and is left
-- out, as are the ends of reasons that tell what was found. `str.isdigit` is that of ASCII.
mod Values
pub mod Laws
mod Tests
use agent_farm_runtime.Prelude.{
  Option, none, some, Bool, true, false, not, ◌&&◌, List, [], ◌∷◌, ◌++◌, keep, codes, codes_lt,
  Chars, Chars-discrete, chars_eq, is_set, if◌then◌else◌, ◌==◌, Eq,
}
use agent_farm_runtime.Farmkit.Classify.{Verdict}
use agent_farm_runtime.Farmkit.Observe.{join_with}
unfoldable pub use Values.*

-- An output: the path does not exist, a read raises, or it holds JSON.
pub data Artifact : Type 0 where
  missing : Artifact
  unreadable : Chars → Artifact
  parsed : Json → Artifact

module _ {ℓ} {V : Type ℓ} where
  -- `table.get(key)`
  unfoldable pub find : Chars → List (Chars × V) → Option V
  find k [] = none
  find k ((j, v) ∷ rest) = if k == j then some v else find k rest

  unfoldable pub keys : List (Chars × V) → List Chars
  keys [] = []
  keys ((k, v) ∷ rest) = k ∷ keys rest

abbrev pub pass : Verdict
pass = record { ok = true; reasons = [] }

abbrev pub fail : Chars → Verdict
fail reason = record { ok = false; reasons = reason ∷ [] }

-- `Verdict.merge`
abbrev pub merge : Verdict → Verdict → Verdict
merge v w = record { ok = v.ok && w.ok; reasons = v.reasons ++ w.reasons }

abbrev pub is_present : Option Artifact → Bool
is_present none = false
is_present (some missing) = false
is_present (some a) = true

abbrev pub Artifacts : Type 0
Artifacts = List (Chars × Artifact)

-- The loop over the required outputs
unfoldable pub check_required : Artifacts → List Chars → Verdict
unfolding find
check_required artifacts [] = pass
check_required artifacts (name ∷ rest) =
    merge
      (if is_present (find name artifacts)
        then pass
        else fail (codes "required output missing: " ++ name))
      (check_required artifacts rest)

-- `isinstance(value, (int, float)) and math.isfinite(value)`, of no Boolean
abbrev pub is_finite : Option Json → Bool
is_finite (some (num finite)) = finite
is_finite _ = false

unfoldable pub check_finite : Chars → Json → List Chars → Verdict
unfolding resolve
check_finite main payload [] = pass
check_finite main payload (key ∷ rest) =
    merge
      (if is_finite (resolve key payload)
        then pass
        else fail (key ++ codes " is missing or not a finite number in " ++ main))
      (check_finite main payload rest)

abbrev provenance_id : Option Json → Option Json
provenance_id (some (obj fields)) = get (codes "attempt_id") fields
provenance_id _ = none

-- `seen == attempt["attempt_id"]`
abbrev is_this : Chars → Option Json → Bool
is_this attempt_id (some (text t)) = t == attempt_id
is_this attempt_id _ = false

-- The provenance of the payload is this attempt.
unfoldable pub is_own : Chars → Fields → Bool
unfolding get
is_own attempt_id fields = is_this attempt_id (provenance_id (get (codes "provenance") fields))

unfoldable pub check_payload : Chars → Chars → List Chars → Json → Verdict
unfolding is_own check_finite
check_payload main attempt_id finite (obj fields) =
    merge
      (if is_own attempt_id fields
        then pass
        else fail (main ++ codes " belongs to a different attempt"))
      (check_finite main (obj fields) finite)
check_payload main attempt_id finite _ = fail (main ++ codes " is not a JSON object")

abbrev pub check_artifact : Chars → Chars → List Chars → Option Artifact → Verdict
check_artifact main attempt_id finite (some (unreadable exc)) =
    fail (main ++ codes " is not readable JSON: " ++ exc)
check_artifact main attempt_id finite (some (parsed payload)) =
    check_payload main attempt_id finite payload
check_artifact main attempt_id finite _ = pass

abbrev first_key : Artifacts → Option Chars
first_key [] = none
first_key ((k, a) ∷ rest) = some k

-- `main or (list(artifacts)[0] if artifacts else None)`
abbrev pub main_name : Option Chars → Artifacts → Option Chars
main_name none artifacts = first_key artifacts
main_name (some m) artifacts = if is_set m then some m else first_key artifacts

-- The main output, if it has a name
abbrev pub main_artifact : Artifacts → Option Chars → Option Artifact
main_artifact artifacts none = none
main_artifact artifacts (some m) = if is_set m then find m artifacts else none

abbrev pub text_of : Option Chars → Chars
text_of none = []
text_of (some m) = m

unfoldable pub check_main : Chars → List Chars → Artifacts → Option Chars → Verdict
unfolding find check_payload
check_main attempt_id finite artifacts main =
    let m = main_name main artifacts in
    check_artifact (text_of m) attempt_id finite (main_artifact artifacts m)

-- The code of an attempt: for each file, its digest
abbrev pub Code : Type 0
Code = List (Chars × Chars)

pub Option-chars-discrete : Discrete (Option Chars)
Option-chars-discrete = hlevel Chars-discrete

instance abbrev pub option_chars_eq : Eq (Option Chars)
option_chars_eq = record { dec = Option-chars-discrete }

-- `certified.get(f) != ran.get(f)`
unfoldable pub differs : Code → Code → Chars → Bool
unfolding find
differs certified ran f = not (find f certified == find f ran)

unfoldable pub insert_name : Chars → List Chars → List Chars
unfolding codes_lt
insert_name x [] = x ∷ []
insert_name x (y ∷ ys) =
    let later = insert_name x ys in
    if x == y then y ∷ ys else if codes_lt x y then x ∷ y ∷ ys else y ∷ later

-- `sorted(set(…))`
unfoldable pub sort_names : List Chars → List Chars
unfolding insert_name
sort_names [] = []
sort_names (x ∷ xs) = insert_name x (sort_names xs)

unfoldable pub differing : Code → Code → List Chars
unfolding differs keys sort_names keep
differing certified ran = sort_names (keep (differs certified ran) (keys certified ++ keys ran))

abbrev pub certified_verdict : List Chars → Verdict
certified_verdict [] = pass
certified_verdict (f ∷ fs) =
    fail (codes "code differs from the certified gate: " ++ join_with (codes ", ") (f ∷ fs))

unfoldable pub check_gate : Option Code → Code → Verdict
unfolding differing join_with
check_gate none ran = pass
check_gate (some certified) ran = certified_verdict (differing certified ran)

-- `default_checks`
unfoldable pub default_checks :
    Chars → Code → Artifacts → List Chars → List Chars → Option Code → Option Chars → Verdict
unfolding check_required check_main check_gate
default_checks attempt_id ran artifacts required finite gate main =
    merge (check_required artifacts required)
      (merge (check_main attempt_id finite artifacts main) (check_gate gate ran))

-- What a project's verifier does: it raises, gives a verdict, or another value.
pub data Verified : Type 0 where
  crashed : Chars → Verified
  verdict : Verdict → Verified
  value : Bool → Verified

-- `run_verifier`
unfoldable pub run_verifier : Verified → Verdict
run_verifier (crashed exc) = fail (codes "verifier raised " ++ exc)
run_verifier (verdict v) = v
run_verifier (value b) = if b then pass else fail (codes "verifier returned false")
