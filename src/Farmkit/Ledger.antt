-- ===== src/Farmkit/Ledger.antt =====
-- src/farmkit/ledger.py: the records of attempts, one file each, and the queries on them. INDEX.json
-- and the files of other schemas are no records; the index is derived and nothing reads it back.
pub mod Lift
pub mod Laws
mod Tests
use agent_farm_runtime.Prelude.{
  is_there, ℕ, ◌+◌, String, Option, none, some, Bool, true, false, not, ◌&&◌, ◌||◌, List, [], ◌∷◌,
  keep, length, codes, codes_lt, Chars, is_set, put, values, ◌==◌, string_eq, if◌then◌else◌,
}
use agent_farm_runtime.Farmkit.Classify.{FailureClass, Verdict, is_terminal}

-- `submit["status"]`
pub data SubmitStatus : Type 0 where
  intent unverified submitted adopted rejected local : SubmitStatus

-- `submit["error"]`, without its text
pub data SubmitError : Type 0 where
  did_not_return refused_by_sbatch unparseable query_failed several_jobs no_row : SubmitError

pub record Submit : Type 0 where
  pub status : SubmitStatus
  pub job_id : Option Chars
  pub error : Option SubmitError

pub record Release : Type 0 where
  pub ts : ℕ
  pub ruling : Chars

pub record Failure : Type 0 where
  pub cls : FailureClass
  pub parked : Bool
  pub retried : Bool
  pub released : Option Release
  pub ruling : Option Chars

-- `budget`, as `new_record` begins it and `_finalize` writes it
pub record Budget : Type 0 where
  pub cls : Option FailureClass
  pub max_auto : ℕ
  pub used : ℕ
  pub prior_used : Option ℕ

-- What is described of an input: whether it exists, and what identifies its bytes
pub record Input : Type 0 where
  pub exists : Bool
  pub identity : Chars

-- A record of the schema; what is left out is only written.
pub record Attempt : Type 0 where
  pub attempt_id : String
  pub step : String
  pub n : ℕ
  pub code : List (Chars × Chars)
  pub run_dir : Option Chars
  pub inputs : List (Chars × Input)
  pub submit : Option Submit
  pub wait : Option Chars
  pub observed : Option (Option Chars)
  pub verdict : Option Verdict
  pub failure : Option Failure
  pub budget : Budget
  pub exit_code : Option ℕ
  pub created_ts : Option String
  pub updated_ts : Option ℕ

-- The directory of the attempts and the cache of an instance.
pub record Ledger : Type 0 where
  pub files : List (String × Attempt)
  pub cache : Option (List Attempt)

-- `new_record`
abbrev pub new_record : String → String → ℕ → String → Attempt
new_record attempt_id step n created = record {
  attempt_id = attempt_id;
  step = step;
  n = n;
  code = [];
  run_dir = none;
  inputs = [];
  submit = none;
  wait = none;
  observed = none;
  verdict = none;
  failure = none;
  budget = record { cls = none; max_auto = 0; used = 0; prior_used = none };
  exit_code = none;
  created_ts = some created;
  updated_ts = none;
}

abbrev text_of : Option String → String
text_of none = ""
text_of (some s) = s

-- The order of `(r.get("created_ts") or "", r["attempt_id"])`
unfoldable pub is_before : Attempt → Attempt → Bool
unfolding codes_lt
is_before a b =
    codes_lt (codes (text_of a.created_ts)) (codes (text_of b.created_ts))
    || (text_of a.created_ts == text_of b.created_ts
        && codes_lt (codes a.attempt_id) (codes b.attempt_id))

unfoldable pub insert : Attempt → List Attempt → List Attempt
unfolding is_before
insert a [] = a ∷ []
insert a (b ∷ rest) = let later = insert a rest in if is_before b a then b ∷ later else a ∷ b ∷ rest

unfoldable pub sort : List Attempt → List Attempt
unfolding insert
sort [] = []
sort (a ∷ rest) = insert a (sort rest)

-- `_read_all`
unfoldable pub read_all : Ledger → List Attempt
unfolding sort values
read_all l = sort (values l.files)

abbrev cached : Option (List Attempt) → List Attempt → List Attempt
cached none fresh = fresh
cached (some rows) fresh = rows

-- `all`, with the ledger that has read
unfoldable pub all_attempts : Ledger → Ledger × List Attempt
unfolding read_all
all_attempts l = let rows = cached l.cache (read_all l) in (record l { cache = some rows }, rows)

-- `invalidate`
abbrev pub invalidate : Ledger → Ledger
invalidate l = record l { cache = none }

-- `save`, of a record of the schema: the file is replaced, and the index is built anew.
unfoldable pub save : ℕ → Attempt → Ledger → Ledger
unfolding put all_attempts
save now a l =
    (all_attempts (
      invalidate
        (record l { files = put a.attempt_id (record a { updated_ts = some now }) l.files }))).0

-- The queries, on the rows of `all`
unfoldable pub by_step : String → List Attempt → List Attempt
unfolding keep
by_step step rows = keep (λ (r : Attempt). r.step == step) rows

-- `rows[-1] if rows else None`
unfoldable pub last_of : List Attempt → Option Attempt
last_of [] = none
last_of (a ∷ []) = some a
last_of (a ∷ b ∷ rest) = last_of (b ∷ rest)

-- `latest`
unfoldable pub latest : String → List Attempt → Option Attempt
unfolding by_step last_of
latest step rows = last_of (by_step step rows)

-- `new` with no number given
unfoldable pub next_number : String → List Attempt → ℕ
unfolding by_step
next_number step rows = length (by_step step rows) + 1

-- The state that was observed, if any
abbrev pub state_of : Attempt → Option Chars
state_of a = elim a.observed [ none ↦ none | some s ↦ s ]

abbrev pub is_open : Option Submit → Bool
is_open none = false
is_open (some s) = elim s.status [ intent ↦ true | unverified ↦ true | _ ↦ false ]

abbrev pub has_job : Option Submit → Bool
has_job none = false
has_job (some s) =
    elim s.status [ submitted ↦ true | adopted ↦ true | _ ↦ false ]
    && elim s.job_id [ none ↦ false | some j ↦ is_set j ]

-- `unverified_intents`
unfoldable pub unverified_intents : List Attempt → List Attempt
unfolding keep
unverified_intents rows = keep (λ (r : Attempt). is_open r.submit) rows

unfoldable pub is_unfinalized : Attempt → Bool
unfolding is_terminal
is_unfinalized r =
    is_terminal (state_of r) && (not (is_there r.verdict) && not (is_there r.failure))

-- `unfinalized`
unfoldable pub unfinalized : List Attempt → List Attempt
unfolding keep is_unfinalized
unfinalized rows = keep is_unfinalized rows

unfoldable pub is_in_flight : Attempt → Bool
unfolding is_terminal
is_in_flight r = has_job r.submit && not (is_terminal (state_of r))

-- `in_flight`
unfoldable pub in_flight : List Attempt → List Attempt
unfolding keep is_in_flight
in_flight rows = keep is_in_flight rows

abbrev pub is_parked : Attempt → Bool
is_parked r = elim r.failure [ none ↦ false | some f ↦ f.parked ]

-- `parked`
unfoldable pub parked : List Attempt → List Attempt
unfolding keep
parked rows = keep is_parked rows

abbrev pub passed : Option Attempt → Bool
passed none = false
passed (some a) = elim a.verdict [ none ↦ false | some v ↦ v.ok ]

-- `ok`
unfoldable pub is_ok : String → List Attempt → Bool
unfolding latest
is_ok step rows = passed (latest step rows)
