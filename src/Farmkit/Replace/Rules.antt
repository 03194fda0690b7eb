-- ===== src/Farmkit/Replace/Rules.antt =====
-- What holds after every step of an action on the published names.
use agent_farm_runtime.Prelude.{
  is_there, neither, ◌≡◌, refl, sym, ◌∙◌, ap, ◌⊎◌, inl, inr, ℕ, zero, suc, Option, none, Bool, true,
  false, not, ◌||◌, List, [], ◌∷◌,
}
use mathlib.Core.Path.{subst}
use agent_farm_runtime.Farmkit.Replace.{
  Tree, Area, Place, at_fresh, at_old, Step, thin, drop, write, replay, Outcome, returned, refused,
  Act, step, check_gone, when_gone, remove_tree, tree_at, thinned, go_on,
}

module _ (start : Area) (Inv : Area → Type 0) where
  -- The invariant holds after each of the steps.
  abbrev pub Visits : List Step → Type 0
  Visits [] = Inv start
  Visits (s ∷ before) = Inv (replay start (s ∷ before)) × Visits before

  -- An action that returns with a postcondition, or refuses with another, and kept the invariant at
  -- every instant.
  pub data Good {A : Type 0} (Q : A → Area → Type 0) (R : Area → Type 0) : Outcome A → Type 0 where
    good : (a : A) (es : List Step) → Visits es → Q a (replay start es) → Good Q R (returned a es)
    bad : (es : List Step) → Visits es → R (replay start es) → Good Q R (refused es)

  pub Good-bind :
      {A B : Type 0} (Q : A → Area → Type 0) (Q' : B → Area → Type 0) (R : Area → Type 0)
      (f : A → Act B) {o : Outcome A}
      → Good Q R o
      → ((a : A) (es : List Step) → Visits es → Q a (replay start es) → Good Q' R (f a es))
      → Good Q' R (go_on o f)
  Good-bind Q Q' R f (good a es v q) h = h a es v q
  Good-bind Q Q' R f (bad es v r) h = bad es v r

  -- One more step, at known names.
  pub replay-next :
      (s : Step) (es : List Step) {x : Area}
      → replay start es ≡ x
      → replay start (s ∷ es) ≡ write x s
  unfolding replay
  replay-next s es e = ap (λ (a : Area). write a s) e

  pub Visits-next :
      (s : Step) (es : List Step) {x : Area}
      → replay start es ≡ x
      → Inv (write x s)
      → Visits es
      → Visits (s ∷ es)
  Visits-next s es e i v = (subst Inv (sym (replay-next s es e)) i, v)

-- A weaker invariant
module _ (start : Area) {Inv Safe : Area → Type 0} (weaken : (a : Area) → Inv a → Safe a) where
  Visits-weaken : (es : List Step) → Visits start Inv es → Visits start Safe es
  Visits-weaken [] i = weaken start i
  Visits-weaken (s ∷ es) (i, v) = (weaken (replay start (s ∷ es)) i, Visits-weaken es v)

  pub Good-weaken :
      {A : Type 0} {Q : A → Area → Type 0} {R : Area → Type 0} {o : Outcome A}
      → Good start Inv Q R o
      → Good start Safe Q R o
  Good-weaken (good a es v q) = good a es (Visits-weaken es v) q
  Good-weaken (bad es v r) = bad es (Visits-weaken es v) r

abbrev pub set_tree : Place → Option Tree → Area → Area
set_tree at_fresh t a = record a { fresh = t }
set_tree at_old t a = record a { old = t }

write-thin :
    (p : Place) (t : Option Tree) (x : Area)
    → write (set_tree p t x) (thin p) ≡ set_tree p (thinned t) x
write-thin at_fresh t x = refl
write-thin at_old t x = refl

write-drop :
    (p : Place) (t : Option Tree) (x : Area) → write (set_tree p t x) (drop p) ≡ set_tree p none x
write-drop at_fresh t x = refl
write-drop at_old t x = refl

-- A removal left its tree.
abbrev pub Fails : (List Step → Bool) → Type 0
Fails gone = (es : List Step) × (gone es ≡ false)

module _ (start : Area) (gone : List Step → Bool) (Inv : Area → Type 0) (R : Area → Type 0) where
  -- The tree at a place is gone, or a removal left some of it.
  abbrev pub Removed : Place → Area → Bool → Area → Type 0
  Removed p x b a =
      ((b ≡ true) × (a ≡ set_tree p none x))
      ⊎ ((b ≡ false) × ((t : Option Tree) × (a ≡ set_tree p t x)) × Fails gone)

  module _ (p : Place) (x : Area) (inv : (t : Option Tree) → Inv (set_tree p t x)) where
    abbrev is_gone : List Step → Bool
    is_gone es = not (is_there (tree_at p (replay start es)))

    abbrev found : List Step → Bool
    found es = is_gone es || gone es

    when_gone-Good :
        (rest : Act Bool) (b : Bool) (t : Option Tree) (es : List Step)
        → Visits start Inv es
        → replay start es ≡ set_tree p t x
        → (b ≡ false → Good start Inv (Removed p x) R (rest es))
        → Good start Inv (Removed p x) R (when_gone start gone p rest b es)
    unfolding when_gone step replay
    when_gone-Good rest true t es v e h =
        let e' : replay start (drop p ∷ es) ≡ set_tree p none x =
          ap (λ (a : Area). write a (drop p)) e ∙ write-drop p t x in
        good true (drop p ∷ es) (subst Inv (sym e') (inv none), v) (inl (refl, e'))
    when_gone-Good rest false t es v e h = h refl

    pub remove_tree-Good :
        (n : ℕ) (t : Option Tree) (es : List Step)
        → Visits start Inv es
        → replay start es ≡ set_tree p t x
        → Good start Inv (Removed p x) R (remove_tree start gone p n es)
    unfolding remove_tree check_gone step replay
    remove_tree-Good zero t es v e =
        when_gone-Good (λ fs. returned false fs) (found es) t es v e
          λ b. good false es v (inr (refl, (t, e), (es, (neither (is_gone es) (gone es) b).1)))
    remove_tree-Good (suc n) t es v e =
        let e' : replay start (thin p ∷ es) ≡ set_tree p (thinned t) x =
          ap (λ (a : Area). write a (thin p)) e ∙ write-thin p t x in
        let v' : Visits start Inv (thin p ∷ es) = (subst Inv (sym e') (inv (thinned t)), v) in
        when_gone-Good (remove_tree start gone p n) (found (thin p ∷ es)) (thinned t) (thin p ∷ es)
          v' e' λ b. remove_tree-Good n (thinned t) (thin p ∷ es) v' e'
