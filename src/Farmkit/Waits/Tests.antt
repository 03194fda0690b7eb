-- ===== src/Farmkit/Waits/Tests.antt =====
-- Three jobs, and the theorem on the one that is waited on.
use agent_farm_runtime.Prelude.{◌≡◌, refl, none, some, List, [], ◌∷◌, Chars, codes, is_digit, keep}
use agent_farm_runtime.Farmkit.Waits.{
  Ends, wait_reference, job_reference, leading_number, min_by, is_lower,
}
use agent_farm_runtime.Farmkit.Waits.Laws.{Chosen, wait_reference-Chosen}

abbrev jobs : List Chars
jobs = codes "31" ∷ codes "12_4" ∷ codes "120" ∷ []

abbrev unknown_ends : Ends
unknown_ends j = none

lowest : wait_reference jobs unknown_ends none ≡ some (job_reference (codes "12_4"))
unfolding wait_reference min_by is_lower leading_number is_digit keep
lowest = refl

wait_reference-Chosen_example :
    Chosen jobs unknown_ends none (wait_reference jobs unknown_ends none)
wait_reference-Chosen_example = wait_reference-Chosen jobs unknown_ends none
