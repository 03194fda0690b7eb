-- ===== src/Farmkit/Classify.antt =====
-- src/farmkit/classify.py: the classes of failures, their budgets, and the wait reference of a
-- parked failure; and `normalized` and `is_terminal` of src/farmkit/observe.py.
pub mod Laws
use agent_farm_runtime.Prelude.{
  ℕ, Option, none, some, Bool, true, false, not, ◌&&◌, ◌||◌, List, [], ◌∷◌, ltb, is_eq, any,
  contains, codes, Chars, chars_eq, is_set, rstrip, first_word, upper, if◌then◌else◌, ◌==◌,
}

-- `normalized`
unfoldable pub normalized : Option Chars → Chars
unfolding first_word upper rstrip
normalized none = []
normalized (some state) = rstrip (is_eq b'+') (upper (first_word state))

-- TERMINAL_STATES
abbrev pub terminal_states : List Chars
terminal_states =
    codes "COMPLETED"
    ∷ codes "FAILED"
    ∷ codes "TIMEOUT"
    ∷ codes "OUT_OF_MEMORY"
    ∷ codes "NODE_FAIL"
    ∷ codes "CANCELLED"
    ∷ codes "BOOT_FAIL"
    ∷ codes "DEADLINE"
    ∷ []

-- `is_terminal`
unfoldable pub is_terminal : Option Chars → Bool
unfolding normalized contains
is_terminal state = contains terminal_states (normalized state)

-- CLASSES
pub data FailureClass : Type 0 where
  code science budget infra unknown : FailureClass

-- The verdict of a verifier
pub record Verdict : Type 0 where
  pub ok : Bool
  pub reasons : List Chars

unfoldable pub starts_with : Chars → Chars → Bool
starts_with [] s = true
starts_with (c ∷ cs) [] = false
starts_with (c ∷ cs) (d ∷ ds) = is_eq c d && starts_with cs ds

-- `marker in reason`
unfoldable pub has_part : Chars → Chars → Bool
unfolding starts_with
has_part marker [] = starts_with marker []
has_part marker (c ∷ cs) = starts_with marker (c ∷ cs) || has_part marker cs

-- CODE_MARKERS
abbrev pub code_markers : List Chars
code_markers =
    codes "belongs to a different attempt"
    ∷ codes "required output missing"
    ∷ codes "is not readable JSON"
    ∷ []

unfoldable pub is_marked : List Chars → Bool
unfolding has_part any
is_marked reasons = any (λ r. any (λ marker. has_part marker r) code_markers) reasons

-- INFRA_STATES
abbrev pub infra_states : List Chars
infra_states = codes "NODE_FAIL" ∷ codes "BOOT_FAIL" ∷ codes "PREEMPTED" ∷ []

abbrev pub code_states : List Chars
code_states = codes "FAILED" ∷ codes "OUT_OF_MEMORY" ∷ codes "CANCELLED" ∷ codes "DEADLINE" ∷ []

-- `exit_code not in (None, 0)`, for an exit code that is not negative
abbrev pub bad_exit : Option ℕ → Bool
bad_exit none = false
bad_exit (some n) = not (is_eq n 0)

abbrev pub failed_verdict : Option Verdict → Option FailureClass
failed_verdict none = none
failed_verdict (some v) =
    if v.ok then none else if is_marked v.reasons then some code else some science

-- The class of a normalized state
unfoldable pub classify_state : Chars → Option Verdict → Bool → Option ℕ → Option FailureClass
unfolding contains is_marked
classify_state norm verdict output_present exit_code =
    if not (is_set norm)
    then some unknown
    else if contains infra_states norm
    then some infra
    else if norm == codes "TIMEOUT"
    then some budget
    else if contains code_states norm
    then some code
    else if norm == codes "COMPLETED"
    then if bad_exit exit_code || not output_present then some code else failed_verdict verdict
    else some unknown

-- `classify`
unfoldable pub classify : Option Chars → Option Verdict → Bool → Option ℕ → Option FailureClass
unfolding normalized classify_state
classify state verdict output_present exit_code =
    classify_state (normalized state) verdict output_present exit_code

-- MAX_AUTO
abbrev pub max_auto : FailureClass → ℕ
max_auto infra = 1
max_auto _ = 0

-- `retry_allowed`
unfoldable pub retry_allowed : FailureClass → ℕ → Bool
retry_allowed cls used = ltb used (max_auto cls)
