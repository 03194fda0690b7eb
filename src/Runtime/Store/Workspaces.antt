-- ===== src/Runtime/Store/Workspaces.antt =====
-- INV-12: reserved tasks of one farm never share a workspace, and every file is named for its task.
use mathlib.Core.Path.{subst}
use agent_farm_runtime.Prelude.{
  ◌≡◌, sym, ap, ◌∙◌, ◌⊎◌, String, Option, some, Bool, true, false, inl, inr, List, [], ◌∷◌, arith,
  ◌==◌, string_eq, nonempty, lookup, put, lookup-put, values, any, if◌then◌else◌,
}
use agent_farm_runtime.Runtime.Equality.{option_string_eq}
use agent_farm_runtime.Runtime.Metadata.{Timestamp}
use agent_farm_runtime.Runtime.Models.{Task, Payload}
use agent_farm_runtime.Runtime.Result.{ok}
use agent_farm_runtime.Runtime.World.{Disk, Effect, World, after}
use agent_farm_runtime.Runtime.Store.{
  Outside, is_reserved, workspace_key, occupies, workspace_taken, commit_locked,
}
use agent_farm_runtime.Runtime.Store.Recovery.{settled}
use agent_farm_runtime.Runtime.Store.Atomic.{commit_locked_atomic, commit_free}

any-values :
    (p : Task → Bool) (m : List (String × Task)) (j : String) (b : Task)
    → any p (values m) ≡ false
    → lookup j m ≡ some b
    → p b ≡ false
unfolding any values lookup
any-values p [] j b h e = cc
any-values p ((i, a) ∷ m) j b h e = ground (arith, any-values p m j b)

module _ (out : Outside) where
  -- The task holds the workspace `k`.
  pub record Holds (a : Task) (k : String) : Type 0 where
    pub reserved : is_reserved a.state ≡ true
    pub keyed : workspace_key out a ≡ some k
    pub named : nonempty k ≡ true

  pub record IsExclusive (d : Disk) : Type 0 where
    pub keyed : (i : String) (a : Task) → lookup i d.tasks ≡ some a → a.id ≡ i
    pub alone :
        (i j : String) (a b : Task) (k : String)
        → lookup i d.tasks ≡ some a
        → lookup j d.tasks ≡ some b
        → Holds a k
        → Holds b k
        → i ≡ j

  free_workspace :
      (d : Disk) (task : Task) (j : String) (b : Task) (k : String)
      → workspace_taken out d task ≡ false
      → lookup j d.tasks ≡ some b
      → Holds task k
      → Holds b k
      → b.id ≡ task.id
  unfolding workspace_taken
  free_workspace d task j b k free e ht hb =
      ground (arith, any-values (occupies out task) d.tasks j b)

  -- The invariant, at the files that a commit of `task` leaves.
  module _ (d : Disk) (task : Task) (x : IsExclusive d) (free : workspace_taken out d task ≡ false)
      (m : List (String × Task)) (same : m ≡ put task.id task d.tasks) where
    found : (i : String) → lookup i m ≡ (if task.id == i then some task else lookup i d.tasks)
    found i = rw (same, lookup-put)

    found-cases :
        (i : String) (a : Task)
        → lookup i m ≡ some a
        → ((task.id ≡ i) × (a ≡ task)) ⊎ (lookup i d.tasks ≡ some a)
    found-cases i a e = ground (arith, found i)

    put_keyed : (i : String) (a : Task) → lookup i m ≡ some a → a.id ≡ i
    put_keyed i a e = elim (found-cases i a e) [
      | inl (p, q) ↦ ap (λ (t : Task). t.id) q ∙ p
      | inr old ↦ x.keyed i a old
    ]

    -- A task that was there before does not hold what `task` holds, unless it is `task`.
    old_or_new :
        (j : String) (a b : Task) (k : String)
        → a ≡ task
        → lookup j d.tasks ≡ some b
        → Holds a k
        → Holds b k
        → task.id ≡ j
    old_or_new j a b k q e ha hb =
        sym (free_workspace d task j b k free e (subst (λ t. Holds t k) q ha) hb) ∙ x.keyed j b e

    put_alone :
        (i j : String) (a b : Task) (k : String)
        → lookup i m ≡ some a
        → lookup j m ≡ some b
        → Holds a k
        → Holds b k
        → i ≡ j
    put_alone i j a b k ei ej ha hb = elim (found-cases i a ei) [
      | inl (p, q) ↦ elim (found-cases j b ej) [
        | inl (p', q') ↦ sym p ∙ p'
        | inr old ↦ sym p ∙ old_or_new j a b k q old ha hb
      ]
      | inr old ↦ elim (found-cases j b ej) [
        | inl (p', q') ↦ sym (old_or_new i b a k q' old hb ha) ∙ p'
        | inr old' ↦ x.alone i j a b k old old' ha hb
      ]
    ]

-- If the files, with the journal carried out, name every file for its task and let no two tasks in
-- a reserved state have one workspace, then so do the files that a commit leaves.
pub commit_locked-IsExclusive :
    (out : Outside) (task : Task) (expected : Option Task) (event_type actor : String)
    (payload : Payload) (ts : Option Timestamp) (w : World) {t : Task} (es : List Effect)
    → commit_locked out task expected event_type actor payload ts w ≡ (ok t, es)
    → IsExclusive out (settled w.disk)
    → IsExclusive out (after w es).disk
commit_locked-IsExclusive out task expected event_type actor payload ts w {t} es h x =
    let o = commit_locked_atomic out task expected event_type actor payload ts w es h in
    let free = commit_free out task expected event_type actor payload ts w es h in
    let m = ap (λ (d : Disk). d.tasks) o.left in
    record {
      keyed = put_keyed out (settled w.disk) t x free (after w es).disk.tasks m;
      alone = put_alone out (settled w.disk) t x free (after w es).disk.tasks m;
    }
