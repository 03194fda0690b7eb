-- ===== src/Farmkit/Replace.antt =====
-- `_replace_dir` and `_remove_tree` of src/farmkit/runner.py: a directory that is published is
-- replaced through a staging copy, a marker and a backup beside it. Every change of these four names
-- is a step; a crash leaves what some first part of the steps made. The copy of the source and the
-- removal of a tree are not atomic: a tree that lacks some of its files is a part.
pub mod Rules
pub mod Swap
pub mod Laws
mod Tests
use agent_farm_runtime.Prelude.{
  is_there, ℕ, zero, suc, Option, none, some, Bool, true, false, not, ◌&&◌, ◌||◌, List, [], ◌∷◌,
  if◌then◌else◌,
}

-- A directory: all the files of a version, or some of those of one.
pub data Tree : Type 0 where
  whole : ℕ → Tree
  part : Tree

-- What stands at the destination
pub data Node : Type 0 where
  absent file broken_link : Node
  dir : Tree → Node

pub record Area : Type 0 where
  pub dst : Node
  pub fresh : Option Tree
  pub marker : Bool
  pub old : Option Tree

-- The staging copy or the backup
pub data Place : Type 0 where
  at_fresh at_old : Place

pub data Step : Type 0 where
  thin drop : Place → Step
  begin_copy : Step
  end_copy : ℕ → Step
  touch_marker unlink_marker unlink_dst dst_to_old fresh_to_dst : Step

abbrev pub thinned : Option Tree → Option Tree
thinned none = none
thinned (some t) = some part

abbrev pub moved_out : Node → Option Tree → Option Tree
moved_out (dir t) o = some t
moved_out _ o = o

abbrev pub moved_in : Option Tree → Node → Node
moved_in none d = d
moved_in (some t) d = dir t

abbrev pub write : Area → Step → Area
write a (thin at_fresh) = record a { fresh = thinned a.fresh }
write a (thin at_old) = record a { old = thinned a.old }
write a (drop at_fresh) = record a { fresh = none }
write a (drop at_old) = record a { old = none }
write a begin_copy = record a { fresh = some part }
write a (end_copy v) = record a { fresh = some (whole v) }
write a touch_marker = record a { marker = true }
write a unlink_marker = record a { marker = false }
write a unlink_dst = record a { dst = absent }
write a dst_to_old = record a { dst = absent; old = moved_out a.dst a.old }
write a fresh_to_dst = record a { dst = moved_in a.fresh a.dst; fresh = none }

-- The names after some steps, the last step first
unfoldable pub replay : Area → List Step → Area
replay a [] = a
replay a (s ∷ before) = write (replay a before) s

pub data Outcome (A : Type 0) : Type 0 where
  returned : A → List Step → Outcome A
  refused : List Step → Outcome A

abbrev pub Act : Type 0 → Type 0
Act A = List Step → Outcome A

infixl 10 ◌>>=◌ ◌>>◌
abbrev pub go_on : {A B : Type 0} → Outcome A → (A → Act B) → Outcome B
go_on (returned a es) f = f a es
go_on (refused es) f = refused es

abbrev pub ◌>>=◌ : {A B : Type 0} → Act A → (A → Act B) → Act B
◌>>=◌ m f es = go_on (m es) f

abbrev pub ◌>>◌ : {A B : Type 0} → Act A → Act B → Act B
m >> k = m >>= λ _. k

abbrev pub pure : {A : Type 0} → A → Act A
pure a es = returned a es

-- `raise StepsError`
abbrev pub refuse : Act (Unit {0})
refuse es = refused es

unfoldable pub step : Step → Act (Unit {0})
step s es = returned tt (s ∷ es)

-- `dst.exists()`
abbrev pub exists : Node → Bool
exists absent = false
exists broken_link = false
exists _ = true

abbrev pub tree_at : Place → Area → Option Tree
tree_at at_fresh a = a.fresh
tree_at at_old a = a.old

-- The names at the start, and whether a path is found gone after some steps
module _ (start : Area) (gone : List Step → Bool) where
  abbrev pub area : Act Area
  area es = returned (replay start es) es

  -- `not path.exists()` after a removal
  unfoldable pub check_gone : Place → Act Bool
  unfolding replay
  check_gone p es = returned (not (is_there (tree_at p (replay start es))) || gone es) es

  unfoldable pub when_gone : Place → Act Bool → Bool → Act Bool
  unfolding step
  when_gone p rest true = step (drop p) >> pure true
  when_gone p rest false = rest

  -- `_remove_tree`, with the rounds that are left and the look after the last of them
  unfoldable pub remove_tree : Place → ℕ → Act Bool
  unfolding step check_gone when_gone
  remove_tree p zero = check_gone p >>= when_gone p (pure false)
  remove_tree p (suc n) = step (thin p) >> (check_gone p >>= when_gone p (remove_tree p n))

  -- `attempts=6`
  abbrev pub remove : Place → Act Bool
  remove p = remove_tree p 6

  unfoldable pub or_refuse : Bool → Act (Unit {0})
  or_refuse true = pure tt
  or_refuse false = refuse

  -- A staging copy without its marker is incomplete.
  unfoldable pub clear_fresh : Area → Act (Unit {0})
  unfolding remove_tree or_refuse
  clear_fresh a =
      if is_there a.fresh && not a.marker then (remove at_fresh >>= or_refuse) else pure tt

  unfoldable pub copy : ℕ → Act (Unit {0})
  unfolding step
  copy v = do step unlink_marker; step begin_copy; step (end_copy v); step touch_marker

  unfoldable pub clear_old : Area → Act (Unit {0})
  unfolding remove_tree or_refuse
  clear_old a = if is_there a.old then (remove at_old >>= or_refuse) else pure tt

  unfoldable pub move_away : Area → Node → Act (Unit {0})
  unfolding clear_old step
  move_away a absent = pure tt
  move_away a file = step unlink_dst
  move_away a broken_link = step unlink_dst
  move_away a (dir t) = clear_old a >> step dst_to_old

  unfoldable pub clean_up : Act (Unit {0})
  unfolding remove_tree step
  clean_up = remove at_old >> step unlink_marker

  unfoldable pub swap : Act (Unit {0})
  unfolding move_away clean_up step
  swap = do a ← area; move_away a a.dst; step fresh_to_dst; clean_up

  -- An earlier run that installed the copy left only its backup.
  unfoldable pub stage : ℕ → Area → Act (Unit {0})
  unfolding swap copy clean_up
  stage v a =
      if is_there a.fresh
      then swap
      else if is_there a.old && exists a.dst
      then clean_up
      else copy v >> swap

  -- `_replace_dir`, of a source that holds version v
  unfoldable pub replace_dir : ℕ → Act (Unit {0})
  unfolding clear_fresh stage
  replace_dir v = do a ← area; clear_fresh a; b ← area; stage v b
