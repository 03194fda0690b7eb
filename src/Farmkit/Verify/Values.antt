-- ===== src/Farmkit/Verify/Values.antt =====
-- JSON values, and `resolve` of src/farmkit/verify.py.
use agent_farm_runtime.Prelude.{
  ℕ, zero, suc, Option, none, some, Bool, ◌&&◌, List, [], ◌∷◌, all, is_digit, Chars, chars_eq,
  is_set, if◌then◌else◌, ◌==◌,
}
use agent_farm_runtime.Farmkit.Waits.{numeric}
use agent_farm_runtime.Farmkit.Observe.{split_on}

-- What `json.loads` gives; of a number, whether it is finite.
mutual
  pub data Json : Type 0 where
    null : Json
    bool : Bool → Json
    num : Bool → Json
    text : Chars → Json
    arr : Items → Json
    obj : Fields → Json

  pub data Items : Type 0 where
    nil : Items
    cons : Json → Items → Items

  pub data Fields : Type 0 where
    end : Fields
    field : Chars → Json → Fields → Fields

-- `cur[part]` of an object; of two fields with one name, the last counts.
unfoldable pub get : Chars → Fields → Option Json
get k end = none
get k (field j v rest) = elim (get k rest) [
  | some w ↦ some w
  | none ↦ if k == j then some v else none
]

unfoldable pub item : ℕ → Items → Option Json
item n nil = none
item zero (cons v rest) = some v
item (suc n) (cons v rest) = item n rest

abbrev pub child : Chars → Json → Option Json
child part (obj fields) = get part fields
child part (arr items) =
    if is_set part && all is_digit part then item (numeric part) items else none
child part _ = none

unfoldable pub resolve_parts : List Chars → Json → Option Json
unfolding get item all is_digit
resolve_parts [] cur = some cur
resolve_parts (part ∷ rest) cur = elim (child part cur) [
  | none ↦ none
  | some next ↦ resolve_parts rest next
]

-- `resolve`
unfoldable pub resolve : Chars → Json → Option Json
unfolding resolve_parts split_on
resolve dotted payload = resolve_parts (split_on b'.' dotted) payload
