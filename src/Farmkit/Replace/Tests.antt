-- ===== src/Farmkit/Replace/Tests.antt =====
-- A publication over an earlier version, and the theorem on it there.
use agent_farm_runtime.Prelude.{◌≡◌, refl, inl, none, some, true, false, List, [], Bool}
use agent_farm_runtime.Farmkit.Replace.{
  Area, Step, whole, dir, part, returned, refused, replay, replace_dir, remove_tree, clear_fresh,
  stage, copy, swap, move_away, clear_old, clean_up, check_gone, when_gone, step, or_refuse,
}
use agent_farm_runtime.Farmkit.Replace.Rules.{Good}
use agent_farm_runtime.Farmkit.Replace.Swap
use agent_farm_runtime.Farmkit.Replace.Swap.{at, copying}
use agent_farm_runtime.Farmkit.Replace.Laws.{Safe, replace_dir-Good}

-- An earlier run stopped in its copy of version 2, over version 1.
abbrev stopped : Area
stopped = at (dir (whole 1)) (some part) false none

abbrev always : List Step → Bool
always es = true

-- Where a run ends, and what stands there.
abbrev names_after : Area → (List Step → Bool) → Area
names_after a gone = elim (replace_dir a gone 2 []) [
  | returned u es ↦ replay a es
  | refused es ↦ replay a es
]

recovers : names_after stopped always ≡ at (dir (whole 2)) none false none
unfolding replace_dir remove_tree clear_fresh stage copy swap move_away clear_old clean_up
    check_gone when_gone step or_refuse replay
recovers = refl

replace_dir-Good_example :
    Good stopped
      (Safe 2 (dir (whole 1)))
      (λ _ a. Swap.Published 2 (dir (whole 1)) stopped always a)
      (Swap.Refused 2 (dir (whole 1)) stopped always)
      (replace_dir stopped always 2 [])
replace_dir-Good_example =
    replace_dir-Good 2 (dir (whole 1)) stopped always (copying (dir (whole 1)) part (inl refl) refl)
