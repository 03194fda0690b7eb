-- ===== src/Farmkit/Steps.antt =====
-- src/farmkit/steps.py: which steps of the table may run, as the ledger stands. The rows are those of
-- `Ledger.all`.
pub mod Laws
pub mod Paths
mod Tests
use agent_farm_runtime.Prelude.{
  is_there, ℕ, String, Option, none, some, Bool, true, false, not, ◌&&◌, ◌||◌, List, [], ◌∷◌, map,
  keep, Chars, all, length, nonempty, is_set, contains, is_eq, leb, ◌==◌, string_eq, if◌then◌else◌,
}
use agent_farm_runtime.Farmkit.Classify.{FailureClass}
use agent_farm_runtime.Farmkit.Ledger.{Submit, Failure, Attempt, latest, is_ok, is_parked, passed}
use agent_farm_runtime.Runtime.Observers.{head_to, rest_of, text_or_empty}

-- `kind`
pub data Kind : Type 0 where
  sbatch local : Kind

-- A step of the table; `pool` is the template.
pub record StepSpec : Type 0 where
  pub id : String
  pub pool : String
  pub group : Option String
  pub after : List String
  pub segment : Option ℕ
  pub concurrency : Option ℕ
  pub kind : Kind
  pub run : Chars
  pub env : List (Chars × Chars)
  pub inputs : List Chars
  pub outputs : List Chars
  pub finite : List Chars
  pub gate : Option String
  pub chain : Chars
  pub wait : Chars
  pub retry : FailureClass → Option ℕ
  pub has_verifier : Bool

-- `chain_root`
abbrev pub chain_root : StepSpec → String
chain_root s = head_to b'#' s.id

abbrev pub is_settled : Failure → Bool
is_settled f = f.parked || is_there f.released || (f.retried && not f.parked)

abbrev pub is_unresolved_attempt : Attempt → Bool
is_unresolved_attempt a =
    not (passed (some a)) && not (elim a.failure [ none ↦ false | some f ↦ is_settled f ])

abbrev pub is_unresolved_latest : Option Attempt → Bool
is_unresolved_latest none = false
is_unresolved_latest (some a) = is_unresolved_attempt a

-- `unresolved`
unfoldable pub unresolved : List Attempt → String → Bool
unfolding latest
unresolved rows step_id = is_unresolved_latest (latest step_id rows)

abbrev in_group : String → StepSpec → Bool
in_group name s = elim s.group [ none ↦ false | some g ↦ nonempty g && g == name ]

-- `groups().get(name, [])`
unfoldable pub group_members : List StepSpec → String → List String
unfolding keep
group_members specs name = map (λ (s : StepSpec). s.id) (keep (in_group name) specs)

abbrev job_known : Option Submit → Bool
job_known none = false
job_known (some s) = elim s.job_id [ none ↦ false | some j ↦ is_set j ]

abbrev chain_started : Option Attempt → Bool
chain_started none = false
chain_started (some a) = job_known a.submit && not (is_parked a)

abbrev any_member : List String → Bool
any_member [] = false
any_member (x ∷ xs) = true

-- `dependency_met`
unfoldable pub dependency_met : List StepSpec → List Attempt → String → Bool
unfolding head_to rest_of group_members is_ok latest all
dependency_met specs rows dep =
    let kind = head_to b':' dep in
    let rest = text_or_empty (rest_of b':' dep) in
    if kind == "group"
    then all (λ i. is_ok i rows) (group_members specs rest) && any_member (group_members specs rest)
    else if kind == "chain"
    then chain_started (latest rest rows)
    else is_ok dep rows

abbrev in_pool : List Attempt → StepSpec → StepSpec → Bool
in_pool rows spec other =
    other.pool == spec.pool && (is_there other.segment && unresolved rows other.id)

-- `len({…})`: a text counts once.
unfoldable pub distinct : List String → List String
unfolding contains
distinct [] = []
distinct (x ∷ xs) = let rest = distinct xs in if contains rest x then rest else x ∷ rest

-- `active_in_pool`
unfoldable pub active_in_pool : List StepSpec → List Attempt → StepSpec → ℕ
unfolding unresolved keep distinct head_to
active_in_pool specs rows spec = length (distinct (map chain_root (keep (in_pool rows spec) specs)))

abbrev pub is_first : Option ℕ → Bool
is_first none = false
is_first (some n) = is_eq n 1

-- `s.concurrency and s.segment == 1 and … >= s.concurrency`
abbrev pub pool_full : List StepSpec → List Attempt → StepSpec → Bool
pool_full specs rows s = elim s.concurrency [
  | none ↦ false
  | some c ↦ not (is_eq c 0) && (is_first s.segment && leb c (active_in_pool specs rows s))
]

abbrev pub latest_parked : Option Attempt → Bool
latest_parked none = false
latest_parked (some a) = is_parked a

unfoldable pub is_ready : List StepSpec → List Attempt → StepSpec → Bool
unfolding unresolved is_ok latest all dependency_met active_in_pool
is_ready specs rows s =
    not (is_ok s.id rows || unresolved rows s.id)
    && (not (latest_parked (latest s.id rows))
        && (all (dependency_met specs rows) s.after && not (pool_full specs rows s)))

-- `ready`
unfoldable pub ready : List StepSpec → List Attempt → List StepSpec
unfolding keep is_ready
ready specs rows = keep (is_ready specs rows) specs

-- `all_ok`
unfoldable pub all_ok : List StepSpec → List Attempt → Bool
unfolding all is_ok
all_ok specs rows = all (λ (s : StepSpec). is_ok s.id rows) specs
