-- ===== src/Farmkit/Runner/Barriers/Walk.antt =====
-- The loop over the groups keeps what a read and the submission of a barrier keep.
use agent_farm_runtime.Prelude.{String, Option, none, some, List, [], ◌∷◌, Chars}
use agent_farm_runtime.Farmkit.Ledger.{Attempt, all_attempts}
use agent_farm_runtime.Farmkit.Steps.{StepSpec, group_members}
use agent_farm_runtime.Farmkit.Act.{State, read_rows}
use agent_farm_runtime.Farmkit.Act.Logic.{Logic, if_keeps}
use agent_farm_runtime.Farmkit.Runner.{Outside}
use agent_farm_runtime.Farmkit.Runner.Barriers.{
  submit_barrier, with_jobs, barrier_loop, group_names, barriers, wants_barrier, member_jobs,
  has_barrier_job,
}

module _ (L : Logic) (out : Outside) (specs : List StepSpec)
    (reads : (s : State)
      → L.Holds s
      → L.Holds (record { ledger = (all_attempts s.ledger).0; done = s.done }))
    (submits : (group : String) (jobs : List Chars) (rows : List Attempt) (s : State)
      → L.Holds s
      → L.Keeps (List String) (submit_barrier out specs group jobs rows s)) where
  with_jobs-Keeps :
      (group : String) (rows : List Attempt) (o : Option (List Chars)) (s : State)
      → L.Holds s
      → L.Keeps (List String) (with_jobs out specs group rows o s)
  with_jobs-Keeps group rows none s p = L.give _ _ s p
  with_jobs-Keeps group rows (some []) s p = L.give _ _ s p
  with_jobs-Keeps group rows (some (j ∷ jobs)) s p =
      if_keeps L _ _ s (has_barrier_job group rows) (L.give _ _ s p)
        (submits group (j ∷ jobs) rows s p)

  barrier_loop-Keeps :
      (groups : List String) (s : State)
      → L.Holds s
      → L.Keeps (List String) (barrier_loop out specs groups s)
  unfolding barrier_loop read_rows
  barrier_loop-Keeps [] s p = L.give _ _ s p
  barrier_loop-Keeps (group ∷ rest) s p =
      let q = reads s p in
      let rows = (all_attempts s.ledger).1 in
      let members = group_members specs group in
      L.bind _ _ _ _
        (if_keeps L _ _ _ (wants_barrier specs members)
          (with_jobs-Keeps group rows (member_jobs members rows) _ q) (L.give _ _ _ q))
        λ here u d. L.bind _ _ _ _ (barrier_loop-Keeps rest u d) (λ l v e. L.give _ _ v e)

  pub barriers-Keeps : (s : State) → L.Holds s → L.Keeps (List String) (barriers out specs s)
  unfolding barriers
  barriers-Keeps s p = barrier_loop-Keeps (group_names specs []) s p
