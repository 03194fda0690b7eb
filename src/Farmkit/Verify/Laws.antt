-- ===== src/Farmkit/Verify/Laws.antt =====
-- When the default checks of src/farmkit/verify.py pass.
use mathlib.Core.Bool.{and-true}
use agent_farm_runtime.Prelude.{
  contains-append, both_iff, sym, ◌∙◌, ◌≡◌, ◌≢◌, refl, sym, ◌∙◌, ◌↔◌, inl, inr, Option, none, some,
  Bool, true, false, List, [], ◌∷◌, ◌++◌, keep, contains, contains-keep, Chars, chars_eq, arith,
  All, Bool-cases, is_yes_iff, if◌then◌else◌, codes,
}
use agent_farm_runtime.Farmkit.Verify.{
  Artifact, Artifacts, missing, unreadable, parsed, find, keys, pass, fail, is_present,
  check_required, is_finite, check_finite, is_own, check_payload, main_name, main_artifact,
  check_artifact, text_of, certified_verdict, check_main, Code, Option-chars-discrete,
  option_chars_eq, differs, insert_name, sort_names, differing, check_gate, default_checks,
}
use agent_farm_runtime.Farmkit.Verify.{Json, obj, resolve, null, bool, num, text, arr}

-- The main output, if it exists, is an object of this attempt, and its declared metrics are finite.
abbrev pub MainPasses : Chars → List Chars → Option Artifact → Type 0
MainPasses attempt_id finite (some (parsed (obj fields))) =
    (is_own attempt_id fields ≡ true)
    × All (λ key. is_finite (resolve key (obj fields)) ≡ true) finite
MainPasses attempt_id finite (some (parsed _)) = ⊥
MainPasses attempt_id finite (some (unreadable exc)) = ⊥
MainPasses attempt_id finite _ = Unit

-- Every file has the digest that the gate certified, or is in neither.
abbrev pub GatePasses : Option Code → Code → Type 0
GatePasses none ran = Unit
GatePasses (some certified) ran = (f : Chars) → find f certified ≡ find f ran

pub record Passes (attempt_id : Chars) (ran : Code) (artifacts : Artifacts)
    (required finite : List Chars) (gate : Option Code) (main : Option Chars) : Type 0 where
  pub present : All (λ name. is_present (find name artifacts) ≡ true) required
  pub main_passes :
      MainPasses attempt_id finite (main_artifact artifacts (main_name main artifacts))
  pub gate_passes : GatePasses gate ran

ok-test : (b : Bool) (reason : Chars) → (if b then pass else fail reason).ok ≡ b
ok-test true reason = refl
ok-test false reason = refl

check_required_iff :
    (artifacts : Artifacts) (names : List Chars)
    → ((check_required artifacts names).ok ≡ true)
      ↔ All (λ name. is_present (find name artifacts) ≡ true) names
unfolding check_required
check_required_iff artifacts [] = (λ h. tt, λ h. refl)
check_required_iff artifacts (n ∷ names) =
    let (f, g) = check_required_iff artifacts names in
    rw (ok-test (is_present (find n artifacts)) (codes "required output missing: " ++ n))
      (λ h. let (p, q) = (both_iff _ _).0 h in (p, f q), λ (p, q). (both_iff _ _).1 (p, g q))

check_finite_iff :
    (main : Chars) (payload : Json) (ks : List Chars)
    → ((check_finite main payload ks).ok ≡ true)
      ↔ All (λ key. is_finite (resolve key payload) ≡ true) ks
unfolding check_finite
check_finite_iff main payload [] = (λ h. tt, λ h. refl)
check_finite_iff main payload (k ∷ ks) =
    let (f, g) = check_finite_iff main payload ks in
    rw
      (ok-test (is_finite (resolve k payload))
        (k ++ codes " is missing or not a finite number in " ++ main))
      (λ h. let (p, q) = (both_iff _ _).0 h in (p, f q), λ (p, q). (both_iff _ _).1 (p, g q))

check_artifact_iff :
    (main attempt_id : Chars) (finite : List Chars) (o : Option Artifact)
    → ((check_artifact main attempt_id finite o).ok ≡ true) ↔ MainPasses attempt_id finite o
unfolding check_payload
check_artifact_iff main id finite none = (λ h. tt, λ h. refl)
check_artifact_iff main id finite (some missing) = (λ h. tt, λ h. refl)
check_artifact_iff main id finite (some (unreadable exc)) = (λ h. cc, λ h. absurd h)
check_artifact_iff main id finite (some (parsed null)) = (λ h. cc, λ h. absurd h)
check_artifact_iff main id finite (some (parsed (bool b))) = (λ h. cc, λ h. absurd h)
check_artifact_iff main id finite (some (parsed (num b))) = (λ h. cc, λ h. absurd h)
check_artifact_iff main id finite (some (parsed (text b))) = (λ h. cc, λ h. absurd h)
check_artifact_iff main id finite (some (parsed (arr b))) = (λ h. cc, λ h. absurd h)
check_artifact_iff main id finite (some (parsed (obj fields))) =
    let (f, g) = check_finite_iff main (obj fields) finite in
    rw (ok-test (is_own id fields) (main ++ codes " belongs to a different attempt"))
      (λ h. let (p, q) = (both_iff _ _).0 h in (p, f q), λ (p, q). (both_iff _ _).1 (p, g q))

insert_name-ne : (x : Chars) (ys : List Chars) → insert_name x ys ≢ []
unfolding insert_name
insert_name-ne x [] h = absurd (cc)
insert_name-ne x (y ∷ ys) h = ground arith

sort_names-nil : (xs : List Chars) → sort_names xs ≡ [] → xs ≡ []
unfolding sort_names
sort_names-nil [] h = refl
sort_names-nil (x ∷ xs) h = absurd (insert_name-ne x (sort_names xs) h)

certified_verdict_iff : (fs : List Chars) → ((certified_verdict fs).ok ≡ true) ↔ (fs ≡ [])
certified_verdict_iff [] = (λ h. refl, λ h. refl)
certified_verdict_iff (f ∷ fs) = (λ h. absurd (cc), λ h. absurd (cc))

-- A file that is in no table has no digest in it.
find-none : (table : Code) (f : Chars) → contains (keys table) f ≡ false → find f table ≡ none
unfolding contains keys find
find-none [] f h = refl
find-none ((k, v) ∷ rest) f h = ground (arith, find-none rest f)

keep-none : (p : Chars → Bool) (xs : List Chars) → ((x : Chars) → p x ≡ false) → keep p xs ≡ []
unfolding keep
keep-none p [] h = refl
keep-none p (x ∷ xs) h = ground (arith, h x, keep-none p xs h)

not_kept :
    (p : Chars → Bool) (xs : List Chars) (f : Chars)
    → p f ≡ true
    → keep p xs ≡ []
    → contains xs f ≡ false
unfolding contains
not_kept p xs f e k =
    let q : contains (keep p xs) f ≡ false = rw k refl in
    sym (and-true (contains xs f)) ∙ rw (contains-keep p xs f, e) at q

module _ (certified ran : Code) where
  -- A file that is in neither table
  neither :
      (f : Chars) → contains (keys certified ++ keys ran) f ≡ false → find f certified ≡ find f ran
  neither f h =
      let e = rw (contains-append (keys certified) (keys ran) f) at h in
      find-none certified f (ground arith) ∙ sym (find-none ran f (ground arith))

  differs_iff : (f : Chars) → (differs certified ran f ≡ false) ↔ (find f certified ≡ find f ran)
  unfolding differs
  differs_iff f =
      let d = Option-chars-discrete (find f certified) (find f ran) in
      (λ h. ground (arith, is_yes_iff d), λ h. ground (arith, is_yes_iff d))

  differing-GatePasses : differing certified ran ≡ [] → (f : Chars) → find f certified ≡ find f ran
  unfolding differing
  differing-GatePasses h f = elim (Bool-cases (differs certified ran f)) [
    | inr e ↦ (differs_iff f).0 e
    | inl e ↦ neither f (
        not_kept (differs certified ran) (keys certified ++ keys ran) f e
          (sort_names-nil (keep (differs certified ran) (keys certified ++ keys ran)) h))
  ]

  GatePasses-differing :
      ((f : Chars) → find f certified ≡ find f ran) → differing certified ran ≡ []
  unfolding differing sort_names
  GatePasses-differing h =
      rw
        (keep-none (differs certified ran) (keys certified ++ keys ran)
          (λ f. (differs_iff f).1 (h f)))
        refl

check_gate_iff :
    (gate : Option Code) (ran : Code) → ((check_gate gate ran).ok ≡ true) ↔ GatePasses gate ran
unfolding check_gate
check_gate_iff none ran = (λ h. tt, λ h. refl)
check_gate_iff (some certified) ran =
    let (f, g) = certified_verdict_iff (differing certified ran) in
    (λ h. differing-GatePasses certified ran (f h), λ h. g (GatePasses-differing certified ran h))

-- The default checks pass exactly if every required output exists, the main output, if it exists, is
-- a JSON object whose provenance names this attempt and whose declared metrics are all there and
-- finite, and, with a gate, every file of the code that ran has the digest that the gate certified,
-- and none is missing.
pub default_checks-ok_iff :
    (attempt_id : Chars) (ran : Code) (artifacts : Artifacts) (required finite : List Chars)
    (gate : Option Code) (main : Option Chars)
    → ((default_checks attempt_id ran artifacts required finite gate main).ok ≡ true)
      ↔ Passes attempt_id ran artifacts required finite gate main
unfolding default_checks check_main
default_checks-ok_iff attempt_id ran artifacts required finite gate main =
    let m = main_name main artifacts in
    let (rf, rg) = check_required_iff artifacts required in
    let (mf, mg) = check_artifact_iff (text_of m) attempt_id finite (main_artifact artifacts m) in
    let (gf, gg) = check_gate_iff gate ran in
    (
      λ h.
          let (p, q) = (both_iff _ _).0 h in
          let (r, s) = (both_iff _ _).0 q in
          record { present = rf p; main_passes = mf r; gate_passes = gf s },
      λ h. (both_iff _ _).1 (rg h.present, (both_iff _ _).1 (mg h.main_passes, gg h.gate_passes)),
    )
