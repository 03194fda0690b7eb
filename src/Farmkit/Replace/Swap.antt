-- ===== src/Farmkit/Replace/Swap.antt =====
-- `_replace_dir` of src/farmkit/runner.py once the copy is complete: where a run may stop, and how it
-- ends from there.
use agent_farm_runtime.Prelude.{
  ◌≡◌, refl, ◌⊎◌, inl, inr, ℕ, Option, none, some, Bool, true, false, List, ◌∷◌,
}
use agent_farm_runtime.Farmkit.Replace.{
  Tree, whole, Node, absent, file, broken_link, dir, Area, at_old, Step, replay, Outcome, ◌>>◌,
  step, unlink_marker, unlink_dst, dst_to_old, fresh_to_dst, clear_old, move_away, clean_up,
}
use agent_farm_runtime.Farmkit.Replace.Rules.{
  Visits, Good, good, Good-bind, replay-next, Visits-next, Fails, Removed, remove_tree-Good,
}

abbrev pub at : Node → Option Tree → Bool → Option Tree → Area
at d f m o = record { dst = d; fresh = f; marker = m; old = o }

-- The version v that is published, over what stood at the destination before.
module _ (v : ℕ) (before : Node) where
  abbrev pub Stands : Node → Type 0
  Stands d = (d ≡ before) ⊎ (d ≡ dir (whole v))

  -- Where a run may stop: before the copy, in it, with a complete copy, with the destination moved
  -- away, or with the copy installed.
  pub data Inv (a : Area) : Type 0 where
    idle : (d : Node) (m : Bool) → Stands d → a ≡ at d none m none → Inv a
    copying : (d : Node) (t : Tree) → Stands d → a ≡ at d (some t) false none → Inv a
    ready : (d : Node) → Stands d → a ≡ at d (some (whole v)) true none → Inv a
    moved : (o : Option Tree) → a ≡ at absent (some (whole v)) true o → Inv a
    swapped : (m : Bool) (o : Option Tree) → a ≡ at (dir (whole v)) none m o → Inv a

  -- A complete copy is at hand.
  pub data Available (a : Area) : Type 0 where
    stands : Stands a.dst → Available a
    staged : a.fresh ≡ some (whole v) → a.marker ≡ true → Available a

  pub Inv-Available : {a : Area} → Inv a → Available a
  Inv-Available (idle d m s e) = stands (rw e s)
  Inv-Available (copying d t s e) = stands (rw e s)
  Inv-Available (ready d s e) = stands (rw e s)
  Inv-Available (moved o e) = staged (rw e refl) (rw e refl)
  Inv-Available (swapped m o e) = stands (rw e (inr refl))

  module _ (start : Area) (gone : List Step → Bool) where
    -- Refused: a removal failed, and the destination is as it was.
    abbrev pub Refused : Area → Type 0
    Refused a = Stands a.dst × Fails gone

    -- Published: the version stands, and of the helping names at most a backup is left, if a removal
    -- failed.
    abbrev pub Published : Area → Type 0
    Published a =
        (o : Option Tree) × (a ≡ at (dir (whole v)) none false o) × ((o ≡ none) ⊎ Fails gone)

    abbrev pub Ends : Outcome (Unit {0}) → Type 0
    Ends o = Good start Inv (λ _ a. Published a) Refused o

    abbrev pub installed : Bool → Option Tree → Area
    installed m o = at (dir (whole v)) none m o

    unlink-Ends :
        (m : Bool) (o : Option Tree) (es : List Step)
        → Visits start Inv es
        → replay start es ≡ installed m o
        → (o ≡ none) ⊎ Fails gone
        → Ends (step unlink_marker es)
    unfolding step
    unlink-Ends m o es h e k =
        good tt (unlink_marker ∷ es)
          (Visits-next start Inv unlink_marker es e (swapped false o refl) h)
          (o, replay-next start Inv unlink_marker es e, k)

    removed-Ends :
        (m b : Bool) (es : List Step)
        → Visits start Inv es
        → Removed start gone Inv Refused at_old (installed m none) b (replay start es)
        → Ends (step unlink_marker es)
    removed-Ends m b es h (inl (_, e)) = unlink-Ends m none es h e (inl refl)
    removed-Ends m b es h (inr (_, (t, e), f)) = unlink-Ends m t es h e (inr f)

    pub clean_up-Ends :
        (m : Bool) (o : Option Tree) (es : List Step)
        → Visits start Inv es
        → replay start es ≡ installed m o
        → Ends (clean_up start gone es)
    unfolding clean_up
    clean_up-Ends m o es h e =
        Good-bind start Inv (Removed start gone Inv Refused at_old (installed m none))
          (λ _ a. Published a) Refused (λ _. step unlink_marker)
          (remove_tree-Good start gone Inv Refused at_old (installed m none) (λ t. swapped m t refl)
            6 o es h e)
          (removed-Ends m)

    -- The copy is moved in, and the backup is removed.
    pub install-Ends :
        (o : Option Tree) (es : List Step)
        → Visits start Inv es
        → replay start es ≡ at absent (some (whole v)) true o
        → Ends ((step fresh_to_dst >> clean_up start gone) es)
    unfolding step
    install-Ends o es h e =
        clean_up-Ends true o (fresh_to_dst ∷ es)
          (Visits-next start Inv fresh_to_dst es e (swapped true o refl) h)
          (replay-next start Inv fresh_to_dst es e)

    abbrev pub complete : Node → Area
    complete d = at d (some (whole v)) true none

    pub move_away-Ends :
        (d : Node) (es : List Step)
        → Visits start Inv es
        → replay start es ≡ complete d
        → Ends
            ((move_away start gone (complete d) d >> (step fresh_to_dst >> clean_up start gone)) es)
    unfolding move_away clear_old step
    move_away-Ends absent es h e = install-Ends none es h e
    move_away-Ends file es h e =
        install-Ends none (unlink_dst ∷ es)
          (Visits-next start Inv unlink_dst es e (moved none refl) h)
          (replay-next start Inv unlink_dst es e)
    move_away-Ends broken_link es h e =
        install-Ends none (unlink_dst ∷ es)
          (Visits-next start Inv unlink_dst es e (moved none refl) h)
          (replay-next start Inv unlink_dst es e)
    move_away-Ends (dir t) es h e =
        install-Ends (some t) (dst_to_old ∷ es)
          (Visits-next start Inv dst_to_old es e (moved (some t) refl) h)
          (replay-next start Inv dst_to_old es e)
