-- ===== src/Farmkit/Replace/Laws.antt =====
-- What `_replace_dir` of src/farmkit/runner.py guarantees at every instant and at its end.
use agent_farm_runtime.Prelude.{
  ◌≡◌, refl, sym, ◌∙◌, inl, inr, ℕ, Option, none, some, Bool, true, false, List, [], ◌∷◌,
}
use mathlib.Core.Path.{subst}
use agent_farm_runtime.Farmkit.Replace.{
  Tree, whole, part, Node, absent, dir, Area, at_fresh, Step, replay, Outcome, ◌>>=◌, ◌>>◌, step,
  unlink_marker, begin_copy, end_copy, touch_marker, fresh_to_dst, remove_tree, or_refuse,
  clear_fresh, copy, move_away, clean_up, swap, stage, replace_dir,
}
use agent_farm_runtime.Farmkit.Replace.Rules.{
  Visits, Good, good, bad, Good-bind, Good-weaken, replay-next, Visits-next, Removed,
  remove_tree-Good,
}
use agent_farm_runtime.Farmkit.Replace.Swap
use agent_farm_runtime.Farmkit.Replace.Swap.{
  at, Inv, idle, copying, ready, moved, swapped, Available, Inv-Available,
}

-- The names are as a run may leave them, and a complete copy is at hand.
abbrev pub Safe : ℕ → Node → Area → Type 0
Safe v before a = Inv v before a × Available v before a

Inv-Safe : (v : ℕ) (before : Node) (a : Area) → Inv v before a → Safe v before a
Inv-Safe v before a i = (i, Inv-Available v before i)

module _ (v : ℕ) (before : Node) (start : Area) (gone : List Step → Bool) where
  abbrev Before : Area → Type 0
  Before = Inv v before

  abbrev Refused : Area → Type 0
  Refused = Swap.Refused v before start gone

  abbrev Published : Area → Type 0
  Published = Swap.Published v before start gone

  abbrev Ends : Outcome (Unit {0}) → Type 0
  Ends = Swap.Ends v before start gone

  abbrev installed : Bool → Option Tree → Area
  installed = Swap.installed v before start gone

  abbrev complete : Node → Area
  complete = Swap.complete v before start gone

  -- The rest of a run once the copy is complete
  abbrev swap_at : Area → List Step → Outcome (Unit {0})
  swap_at x es = (move_away start gone x x.dst >> (step fresh_to_dst >> clean_up start gone)) es

  swap-Ends :
      (x : Area) (es : List Step)
      → replay start es ≡ x
      → Ends (swap_at x es)
      → Ends (swap start gone es)
  unfolding swap
  swap-Ends x es e h = subst (λ a. Ends (swap_at a es)) (sym e) h

  copy-Ends :
      (d : Node) (m : Bool) (es : List Step)
      → Visits start Before es
      → Swap.Stands v before d
      → replay start es ≡ at d none m none
      → Ends ((copy start gone v >> swap start gone) es)
  unfolding copy step
  copy-Ends d m es h s e =
      let e1 = replay-next start Before unlink_marker es e in
      let h1 = Visits-next start Before unlink_marker es e (idle d false s refl) h in
      let es1 : List Step = unlink_marker ∷ es in
      let e2 = replay-next start Before begin_copy es1 e1 in
      let h2 = Visits-next start Before begin_copy es1 e1 (copying d part s refl) h1 in
      let es2 : List Step = begin_copy ∷ es1 in
      let e3 = replay-next start Before (end_copy v) es2 e2 in
      let h3 = Visits-next start Before (end_copy v) es2 e2 (copying d (whole v) s refl) h2 in
      let es3 : List Step = end_copy v ∷ es2 in
      let e4 = replay-next start Before touch_marker es3 e3 in
      let h4 = Visits-next start Before touch_marker es3 e3 (ready d s refl) h3 in
      let es4 : List Step = touch_marker ∷ es3 in
      swap-Ends (complete d) es4 e4 (Swap.move_away-Ends v before start gone d es4 h4 e4)

  -- The second half of a run, at the names that the first left
  abbrev rest_at : Area → List Step → Outcome (Unit {0})
  rest_at x es = stage start gone v x es

  swapped-Ends :
      (m : Bool) (o : Option Tree) (es : List Step)
      → Visits start Before es
      → replay start es ≡ installed m o
      → Ends (rest_at (installed m o) es)
  unfolding stage
  swapped-Ends m none es h e = copy-Ends (dir (whole v)) m es h (inr refl) e
  swapped-Ends m (some t) es h e = Swap.clean_up-Ends v before start gone m (some t) es h e

  clearing : (d : Node) → Swap.Stands v before d → (t : Option Tree) → Before (at d t false none)
  clearing d s none = idle d false s refl
  clearing d s (some t) = copying d t s refl

  abbrev Cleared : Node → Outcome (Unit {0}) → Type 0
  Cleared d o = Good start Before (λ _ a. a ≡ at d none false none) Refused o

  or_refuse-Cleared :
      (d : Node) (b : Bool) (es : List Step)
      → Visits start Before es
      → Swap.Stands v before d
      → Removed start gone Before Refused at_fresh (at d none false none) b (replay start es)
      → Cleared d (or_refuse start gone b es)
  unfolding or_refuse
  or_refuse-Cleared d true es h s (inl (_, e)) = good tt es h e
  or_refuse-Cleared d false es h s (inl (q, e)) = absurd (cc)
  or_refuse-Cleared d true es h s (inr (q, r, f)) = absurd (cc)
  or_refuse-Cleared d false es h s (inr (_, (t, e), f)) = bad es h (rw e (s, f))

  remove-Cleared :
      (d : Node) (t : Tree) (es : List Step)
      → Visits start Before es
      → Swap.Stands v before d
      → replay start es ≡ at d (some t) false none
      → Cleared d ((remove_tree start gone at_fresh 6 >>= or_refuse start gone) es)
  remove-Cleared d t es h s e =
      Good-bind start Before (Removed start gone Before Refused at_fresh (at d none false none))
        (λ _ a. a ≡ at d none false none) Refused (or_refuse start gone)
        (remove_tree-Good start gone Before Refused at_fresh (at d none false none) (clearing d s) 6
          (some t) es h e)
        (λ b fs h' r. or_refuse-Cleared d b fs h' s r)

  abbrev run_at : Area → List Step → Outcome (Unit {0})
  run_at x es = (clear_fresh start gone x >>= λ _ es'. rest_at (replay start es') es') es

  ready-Ends :
      (d : Node) (es : List Step)
      → Visits start Before es
      → replay start es ≡ complete d
      → Ends (rest_at (complete d) es)
  unfolding stage
  ready-Ends d es h e =
      swap-Ends (complete d) es e (Swap.move_away-Ends v before start gone d es h e)

  moved-Ends :
      (o : Option Tree) (es : List Step)
      → Visits start Before es
      → replay start es ≡ at absent (some (whole v)) true o
      → Ends (rest_at (at absent (some (whole v)) true o) es)
  unfolding stage move_away
  moved-Ends o es h e =
      swap-Ends (at absent (some (whole v)) true o) es e
        (Swap.install-Ends v before start gone o es h e)

  from-Ends :
      (x : Area) (es : List Step)
      → replay start es ≡ x
      → Ends (rest_at x es)
      → Ends (rest_at (replay start es) es)
  from-Ends x es e h = subst (λ a. Ends (rest_at a es)) (sym e) h

  run-Ends :
      {x : Area}
      → Before x
      → (es : List Step) → Visits start Before es
      → replay start es ≡ x
      → Ends (run_at x es)
  unfolding clear_fresh
  run-Ends (idle d m s q) es h e =
      rw q (from-Ends (at d none m none) es (e ∙ q) (unfold stage in copy-Ends d m es h s (e ∙ q)))
  run-Ends (copying d t s q) es h e = rw q (
      Good-bind start Before (λ _ a. a ≡ at d none false none) (λ _ a. Published a) Refused
        (λ _ es'. rest_at (replay start es') es') (remove-Cleared d t es h s (e ∙ q))
        (λ _ fs h' r.
          from-Ends (at d none false none) fs r (unfold stage in copy-Ends d false fs h' s r)))
  run-Ends (ready d s q) es h e =
      rw q (from-Ends (complete d) es (e ∙ q) (ready-Ends d es h (e ∙ q)))
  run-Ends (moved o q) es h e =
      rw q (from-Ends (at absent (some (whole v)) true o) es (e ∙ q) (moved-Ends o es h (e ∙ q)))
  run-Ends (swapped m o q) es h e =
      rw q (from-Ends (installed m o) es (e ∙ q) (swapped-Ends m o es h (e ∙ q)))

  -- From names as a run that stopped anywhere leaves them, or with nothing staged, a publication
  -- keeps a complete copy at hand after every step, and leaves names after every step from which
  -- it may be run again; if it returns, the version stands, and of the other names at most a
  -- backup is left; it refuses, or leaves a backup, only if a removal failed, and a refusal leaves
  -- the destination as it was.
  pub replace_dir-Good :
      Inv v before start
      → Good start (Safe v before) (λ _ a. Published a) Refused (replace_dir start gone v [])
  unfolding replace_dir replay
  replace_dir-Good i = Good-weaken start (Inv-Safe v before) (run-Ends i [] i refl)
