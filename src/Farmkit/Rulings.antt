-- ===== src/Farmkit/Rulings.antt =====
-- src/farmkit/classify.py: the wait reference of a parked failure, `ruling_name`, and what the watch
-- and the board read in it, `parse_ruling`.
pub mod Laws
use agent_farm_runtime.Prelude.{
  ℕ, zero, suc, Option, none, some, Bool, true, false, not, [], ◌∷◌, ◌++◌, is_eq, is_id_char, codes,
  Chars, chars_eq, is_set, rstrip, before, length, if◌then◌else◌, ◌==◌,
}
use agent_farm_runtime.Farmkit.Classify.{
  FailureClass, code, science, budget, infra, unknown, starts_with,
}

-- Each run of other characters becomes one dash; `true` in the middle of a run.
unfoldable pub replace_runs : Bool → Chars → Chars
unfolding is_id_char
replace_runs inside [] = []
replace_runs inside (c ∷ cs) =
    let kept = replace_runs false cs in
    let skipped = replace_runs true cs in
    if is_id_char c then c ∷ kept else if inside then skipped else b'-' ∷ skipped

unfoldable pub drop_dashes : Chars → Chars
drop_dashes [] = []
drop_dashes (c ∷ cs) = let rest = drop_dashes cs in if is_eq c b'-' then rest else c ∷ cs

abbrev pub or_x : Chars → Chars
or_x [] = codes "x"
or_x (c ∷ cs) = c ∷ cs

-- `sanitize`
unfoldable pub sanitize : Chars → Chars
unfolding replace_runs drop_dashes rstrip
sanitize text = or_x (rstrip (is_eq b'-') (drop_dashes (replace_runs false text)))

-- `sanitize(task_id) if task_id else "task"`
unfoldable pub task_part : Option Chars → Chars
unfolding sanitize
task_part none = codes "task"
task_part (some task_id) = if is_set task_id then sanitize task_id else codes "task"

unfoldable pub class_text : FailureClass → Chars
class_text code = codes "code"
class_text science = codes "science"
class_text budget = codes "budget"
class_text infra = codes "infra"
class_text unknown = codes "unknown"

-- `text[:n]` and `text[n:]`
unfoldable pub first_chars : ℕ → Chars → Chars
first_chars zero s = []
first_chars (suc n) [] = []
first_chars (suc n) (c ∷ cs) = c ∷ first_chars n cs

unfoldable pub skip_chars : ℕ → Chars → Chars
skip_chars zero s = s
skip_chars (suc n) [] = []
skip_chars (suc n) (c ∷ cs) = skip_chars n cs

-- The four parts of a name, joined by dashes.
unfoldable pub ruling_body : Option Chars → FailureClass → Chars → Chars → Chars
unfolding task_part class_text sanitize first_chars
ruling_body task_id cls step attempt_id =
    (task_part task_id ++ b'-' ∷ [])
    ++ (class_text cls ++ b'-' ∷ (sanitize step ++ b'-' ∷ first_chars 8 attempt_id))

-- `ruling_name`
unfoldable pub ruling_name : Option Chars → FailureClass → Chars → Chars → Chars
unfolding ruling_body
ruling_name task_id cls step attempt_id = codes "ruling:" ++ ruling_body task_id cls step attempt_id

-- The class that is read, `owner` beside those of a failure.
pub data RulingClass : Type 0 where
  owner : RulingClass
  of_failure : FailureClass → RulingClass

pub record Ruling : Type 0 where
  pub cls : RulingClass
  pub owner_only : Bool

-- `head if head in CLASSES else "unknown"`
unfoldable pub read_class : Chars → FailureClass
read_class head =
    if head == codes "code"
    then code
    else if head == codes "science"
    then science
    else if head == codes "budget"
    then budget
    else if head == codes "infra"
    then infra
    else unknown

abbrev pub is_code : FailureClass → Bool
is_code code = true
is_code _ = false

abbrev pub read_ruling : FailureClass → Ruling
read_ruling cls = record { cls = of_failure cls; owner_only = not (is_code cls) }

-- The name after `ruling:`
unfoldable pub parse_name : Chars → Option Chars → Ruling
unfolding starts_with task_part skip_chars before read_class
parse_name name task_id =
    let prefix = task_part task_id ++ b'-' ∷ [] in
    if starts_with (codes "owner") name
    then record { cls = owner; owner_only = true }
    else if not (starts_with prefix name)
    then read_ruling unknown
    else read_ruling (read_class (before b'-' (skip_chars (length prefix) name)))

-- `parse_ruling`
unfoldable pub parse_ruling : Option Chars → Option Chars → Option Ruling
unfolding starts_with skip_chars parse_name
parse_ruling none task_id = none
parse_ruling (some waiting_on) task_id =
    if not (starts_with (codes "ruling:") waiting_on)
    then none
    else some (parse_name (skip_chars 7 waiting_on) task_id)
