-- ===== src/Farmkit/Rulings/Laws.antt =====
-- `parse_ruling` reads what `ruling_name` wrote.
use agent_farm_runtime.Prelude.{
  ◌≡◌, refl, ap, Option, some, true, [], ◌∷◌, ◌++◌, arith, codes, Chars, before, length,
  if◌then◌else◌,
}
use agent_farm_runtime.Farmkit.Classify.{
  FailureClass, code, science, budget, infra, unknown, starts_with,
}
use agent_farm_runtime.Farmkit.Rulings.{
  class_text, skip_chars, ruling_body, ruling_name, owner, Ruling, read_class, read_ruling,
  parse_name, parse_ruling,
}

starts_with-append : (p r : Chars) → starts_with p (p ++ r) ≡ true
unfolding starts_with
starts_with-append [] r = refl
starts_with-append (c ∷ cs) r = ground (arith, starts_with-append cs r)

skip_chars-append : (p r : Chars) → skip_chars (length p) (p ++ r) ≡ r
unfolding skip_chars
skip_chars-append [] r = refl
skip_chars-append (c ∷ cs) r = skip_chars-append cs r

before-class_text :
    (cls : FailureClass) (r : Chars) → before b'-' (class_text cls ++ b'-' ∷ r) ≡ class_text cls
unfolding before class_text
before-class_text code r = refl
before-class_text science r = refl
before-class_text budget r = refl
before-class_text infra r = refl
before-class_text unknown r = refl

read_class-class_text : (cls : FailureClass) → read_class (class_text cls) ≡ cls
unfolding read_class class_text
read_class-class_text code = ground arith
read_class-class_text science = ground arith
read_class-class_text budget = ground arith
read_class-class_text infra = ground arith
read_class-class_text unknown = ground arith

parse_name-ruling_body :
    (task_id : Option Chars) (cls : FailureClass) (step attempt_id : Chars)
    → parse_name (ruling_body task_id cls step attempt_id) task_id ≡ (
        if starts_with (codes "owner") (ruling_body task_id cls step attempt_id)
        then record { cls = owner; owner_only = true }
        else read_ruling cls)
unfolding parse_name ruling_body
parse_name-ruling_body task_id cls step attempt_id =
    simp (starts_with-append, skip_chars-append, before-class_text, read_class-class_text)

-- What `parse_ruling` reads, for the same task, in the name of a parked failure: its class, which
-- the master may resolve only if it is `code`; but if the name begins with `owner`, the class
-- `owner`, which only the Owner may resolve.
pub parse_ruling-ruling_name :
    (task_id : Option Chars) (cls : FailureClass) (step attempt_id : Chars)
    → parse_ruling (some (ruling_name task_id cls step attempt_id)) task_id
      ≡ some (
          if starts_with (codes "owner") (ruling_body task_id cls step attempt_id)
          then record { cls = owner; owner_only = true }
          else read_ruling cls)
unfolding parse_ruling ruling_name starts_with skip_chars
parse_ruling-ruling_name task_id cls step attempt_id =
    ap {B = Option Ruling} some (parse_name-ruling_body task_id cls step attempt_id)
