-- ===== src/Farmkit/Steps/Paths/Laws.antt =====
-- What a step without path problems may declare.
use agent_farm_runtime.Prelude.{
  neither, ◌≡◌, refl, inl, inr, ◌⊎◌, Option, none, some, Bool, true, false, List, [], ◌∷◌, arith,
  codes, contains, keep, map, Chars, chars_eq, All, if◌then◌else◌, ◌==◌,
}
use agent_farm_runtime.Farmkit.Steps.{StepSpec}
use agent_farm_runtime.Farmkit.Steps.Paths.{
  is_absolute, relative_parts, Checked, refused, fine, no_part, not_inside, climbs, first_checked,
  relative_ok, Problem, bad_output, bad_input, overlaps, output_problems, is_overlap, overlaps_of,
  input_problems, and_then, inputs_problems, path_problems,
}

-- A path strictly inside the workspace, without a part that climbs, and not in the ledger
pub record Inside (name : Chars) : Type 0 where
  pub relative : is_absolute name ≡ false
  pub stays : contains (relative_parts name) (codes "..") ≡ false
  pub first : Chars
  pub rest : List Chars
  pub parts : relative_parts name ≡ first ∷ rest
  pub no_ledger : (first == codes "attempts") ≡ false

first_checked-fine :
    (xs : List Chars)
    → first_checked xs ≡ fine
    → (p : Chars) × (ps : List Chars) × (xs ≡ p ∷ ps) × ((p == codes "attempts") ≡ false)
first_checked-fine [] h = absurd (cc)
first_checked-fine (p ∷ ps) h = (p, ps, refl, ground arith)

checks-fine :
    (a b : Bool) (c : Checked)
    → (if a then refused not_inside else if b then refused climbs else c) ≡ fine
    → (a ≡ false) × (b ≡ false) × (c ≡ fine)
checks-fine true b c h = absurd (cc)
checks-fine false true c h = absurd (cc)
checks-fine false false c h = (refl, refl, h)

pub relative_ok-Inside : (name : Chars) → relative_ok name ≡ fine → Inside name
unfolding relative_ok
relative_ok-Inside name h =
    let (outer, stays, first) = checks-fine _ _ (first_checked (relative_parts name)) h in
    let (p, ps, e, n) = first_checked-fine (relative_parts name) first in
    record {
      relative = (neither _ _ outer).1;
      stays = stays;
      first = p;
      rest = ps;
      parts = e;
      no_ledger = n;
    }

module _ (name : Chars) (found : Option (List Problem)) where
  output_found :
      (c : Checked)
      → elim c [
        | no_part ↦ none
        | fine ↦ found
        | refused why ↦ elim found [ none ↦ none | some more ↦ some (bad_output name why ∷ more) ]
      ]
        ≡ some []
      → (c ≡ fine) × (found ≡ some [])
  output_found no_part h = absurd (cc)
  output_found fine h = (refl, h)
  output_found (refused why) h = absurd (ground arith)

pub output_problems-Inside :
    (outputs : List Chars) → output_problems outputs ≡ some [] → All Inside outputs
unfolding output_problems
output_problems-Inside [] h = tt
output_problems-Inside (name ∷ rest) h =
    let (e, more) = output_found name (output_problems rest) (relative_ok name) h in
    (relative_ok-Inside name e, output_problems-Inside rest more)

and_then-nothing :
    (a b : Option (List Problem)) → and_then a b ≡ some [] → (a ≡ some []) × (b ≡ some [])
and_then-nothing none b h = absurd (cc)
and_then-nothing (some found) none h = absurd (cc)
and_then-nothing (some []) (some more) h = (refl, h)
and_then-nothing (some (x ∷ xs)) (some more) h = absurd (cc)

apart_first :
    (rel name : Chars) (rest : List Chars) (b : Bool)
    → is_overlap rel name ≡ b
    → (overlaps_of rel rest ≡ [] → All (λ n. is_overlap rel n ≡ false) rest)
    → map
        (overlaps rel)
        (elim b [ true ↦ name ∷ keep (is_overlap rel) rest | false ↦ keep (is_overlap rel) rest ])
      ≡ []
    → All (λ n. is_overlap rel n ≡ false) (name ∷ rest)
unfolding overlaps_of
apart_first rel name rest true e again h = absurd (cc)
apart_first rel name rest false e again h = (e, again h)

overlaps_of-nothing :
    (rel : Chars) (outputs : List Chars)
    → overlaps_of rel outputs ≡ []
    → All (λ name. is_overlap rel name ≡ false) outputs
unfolding overlaps_of keep
overlaps_of-nothing rel [] h = tt
overlaps_of-nothing rel (name ∷ rest) h =
    apart_first rel name rest (is_overlap rel name) refl (overlaps_of-nothing rel rest) h

-- An input is absolute, or inside the workspace and apart from the outputs.
abbrev pub Readable : List Chars → Chars → Type 0
Readable outputs rel =
    (is_absolute rel ≡ true) ⊎ (Inside rel × All (λ name. is_overlap rel name ≡ false) outputs)

-- What the check of a step's paths promises
pub record Declared (spec : StepSpec) : Type 0 where
  pub outputs : All Inside spec.outputs
  pub inputs : All (Readable spec.outputs) spec.inputs

input_found :
    (outputs : List Chars) (rel : Chars) (b : Bool) (c : Checked)
    → is_absolute rel ≡ b
    → relative_ok rel ≡ c
    → (if b then some [] else elim c [
      | no_part ↦ none
      | fine ↦ some (overlaps_of rel outputs)
      | refused why ↦ some (bad_input rel why ∷ [])
    ])
      ≡ some []
    → Readable outputs rel
input_found outputs rel true c a e h = inl a
input_found outputs rel false no_part a e h = absurd (cc)
input_found outputs rel false (refused why) a e h = absurd (cc)
input_found outputs rel false fine a e h =
    inr (relative_ok-Inside rel e, overlaps_of-nothing rel outputs (cc))

inputs_problems-Readable :
    (outputs inputs : List Chars)
    → inputs_problems outputs inputs ≡ some []
    → All (Readable outputs) inputs
unfolding inputs_problems input_problems
inputs_problems-Readable outputs [] h = tt
inputs_problems-Readable outputs (rel ∷ rest) h =
    let (here, more) = and_then-nothing (input_problems outputs rel) _ h in
    (
      input_found outputs rel (is_absolute rel) (relative_ok rel) refl refl here,
      inputs_problems-Readable outputs rest more,
    )

pub path_problems-Declared : (spec : StepSpec) → path_problems spec ≡ some [] → Declared spec
unfolding path_problems
path_problems-Declared spec h =
    let (o, i) = and_then-nothing (output_problems spec.outputs) _ h in
    record {
      outputs = output_problems-Inside spec.outputs o;
      inputs = inputs_problems-Readable spec.outputs spec.inputs i;
    }
