-- ===== src/Farmkit/Steps/Paths.antt =====
-- src/farmkit/steps.py: which paths a step may declare (`_relative_ok`, `path_problems`).
pub mod Laws
use agent_farm_runtime.Prelude.{
  Option, none, some, Bool, true, false, not, ◌&&◌, ◌||◌, List, [], ◌∷◌, ◌++◌, map, keep, codes,
  contains, Chars, chars_eq, is_set, is_eq, if◌then◌else◌, ◌==◌,
}
use agent_farm_runtime.Farmkit.Steps.{StepSpec}
use agent_farm_runtime.Farmkit.Observe.{split_on}

-- `Path(rel).is_absolute()`
abbrev pub is_absolute : Chars → Bool
is_absolute [] = false
is_absolute (c ∷ cs) = is_eq c b'/'

-- A part of a path that `Path` keeps
abbrev pub is_part : Chars → Bool
is_part p = is_set p && not (p == codes ".")

-- `Path(rel).parts` of a relative path
unfoldable pub relative_parts : Chars → List Chars
unfolding keep split_on
relative_parts rel = keep is_part (split_on b'/' rel)

-- The root of an absolute path: exactly two slashes are kept.
abbrev pub root_of : Chars → Chars
root_of (_ ∷ a ∷ b ∷ cs) = if is_eq a b'/' && not (is_eq b b'/') then codes "//" else codes "/"
root_of (_ ∷ a ∷ []) = if is_eq a b'/' then codes "//" else codes "/"
root_of _ = codes "/"

-- `Path(name).parts`
unfoldable pub path_parts : Chars → List Chars
unfolding relative_parts
path_parts name =
    if is_absolute name then root_of name ∷ relative_parts name else relative_parts name

-- Why a path is refused
pub data Reason : Type 0 where
  not_inside climbs into_ledger : Reason

-- What `_relative_ok` does: it says why, it says nothing, or `p.parts[0]` raises IndexError.
pub data Checked : Type 0 where
  refused : Reason → Checked
  fine no_part : Checked

abbrev pub first_checked : List Chars → Checked
first_checked [] = no_part
first_checked (p ∷ ps) = if p == codes "attempts" then refused into_ledger else fine

-- `_relative_ok`
unfoldable pub relative_ok : Chars → Checked
unfolding relative_parts contains
relative_ok rel =
    if contains ([] ∷ codes "." ∷ []) rel || is_absolute rel
    then refused not_inside
    else if contains (relative_parts rel) (codes "..")
    then refused climbs
    else first_checked (relative_parts rel)

pub data Problem : Type 0 where
  bad_output bad_input : Chars → Reason → Problem
  overlaps : Chars → Chars → Problem

-- `parts[:len(prefix)] == prefix`
unfoldable pub starts_parts : List Chars → List Chars → Bool
starts_parts [] parts = true
starts_parts (p ∷ ps) [] = false
starts_parts (p ∷ ps) (q ∷ qs) = p == q && starts_parts ps qs

-- The loop over the outputs; none if IndexError is raised
unfoldable pub output_problems : List Chars → Option (List Problem)
unfolding relative_ok
output_problems [] = some []
output_problems (name ∷ rest) = elim (relative_ok name) [
  | no_part ↦ none
  | fine ↦ output_problems rest
  | refused why ↦ elim (output_problems rest) [
    | none ↦ none
    | some found ↦ some (bad_output name why ∷ found)
  ]
]

abbrev pub is_overlap : Chars → Chars → Bool
is_overlap rel name = rel == name || starts_parts (path_parts name) (path_parts rel)

unfoldable pub overlaps_of : Chars → List Chars → List Problem
unfolding keep starts_parts path_parts
overlaps_of rel outputs = map (overlaps rel) (keep (is_overlap rel) outputs)

-- What an input adds
unfoldable pub input_problems : List Chars → Chars → Option (List Problem)
unfolding relative_ok overlaps_of
input_problems outputs rel = if is_absolute rel then some [] else elim (relative_ok rel) [
  | no_part ↦ none
  | fine ↦ some (overlaps_of rel outputs)
  | refused why ↦ some (bad_input rel why ∷ [])
]

abbrev pub and_then : Option (List Problem) → Option (List Problem) → Option (List Problem)
and_then none more = none
and_then (some found) none = none
and_then (some found) (some more) = some (found ++ more)

-- The loop over the inputs
unfoldable pub inputs_problems : List Chars → List Chars → Option (List Problem)
unfolding input_problems
inputs_problems outputs [] = some []
inputs_problems outputs (rel ∷ rest) =
    and_then (input_problems outputs rel) (inputs_problems outputs rest)

-- `path_problems`
unfoldable pub path_problems : StepSpec → Option (List Problem)
unfolding output_problems inputs_problems
path_problems spec =
    and_then (output_problems spec.outputs) (inputs_problems spec.outputs spec.inputs)
