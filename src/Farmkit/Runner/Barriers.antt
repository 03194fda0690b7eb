-- ===== src/Farmkit/Runner/Barriers.antt =====
-- src/farmkit/runner.py: the barrier job of a group (`_barriers`).
pub mod Walk
pub mod Sound
use agent_farm_runtime.Prelude.{
  is_there, String, Option, none, some, Bool, not, ◌&&◌, List, [], ◌∷◌, ◌++◌, any, nonempty,
  contains, codes, cat, Chars, chars_eq, string_eq, if◌then◌else◌, ◌==◌,
}
use agent_farm_runtime.Farmkit.Classify.{is_terminal}
use agent_farm_runtime.Farmkit.Ledger.{
  Attempt, Submit, submitted, latest, state_of, in_flight, new_record, next_number,
}
use agent_farm_runtime.Farmkit.Steps.{StepSpec, group_members}
use agent_farm_runtime.Farmkit.Act.{Act, pure, read_rows, ◌>>=◌, ◌>>◌}
use agent_farm_runtime.Farmkit.Intent.{submit}
use agent_farm_runtime.Farmkit.Waits.{barrier_argv}
use agent_farm_runtime.Farmkit.Runner.{Outside, job_text}

abbrev add_group : Option String → List String → List String
add_group none names = names
add_group (some g) names = if nonempty g && not (contains names g) then names ++ g ∷ [] else names

-- The groups, in the order in which `groups()` meets them
unfoldable pub group_names : List StepSpec → List String → List String
unfolding contains
group_names [] names = names
group_names (s ∷ rest) names = group_names rest (add_group s.group names)

-- The job of a member that has not ended, as far as is known; empty if there is none
abbrev pub running_job : Option Attempt → Chars
running_job none = []
running_job (some a) = if is_terminal (state_of a) then [] else job_text a

-- The jobs of all the members, or none
unfoldable pub member_jobs : List String → List Attempt → Option (List Chars)
unfolding latest is_terminal
member_jobs [] rows = some []
member_jobs (m ∷ rest) rows = elim (running_job (latest m rows)) [
  | [] ↦ none
  | ◌∷◌ c cs ↦ elim (member_jobs rest rows) [ none ↦ none | some jobs ↦ some ((c ∷ cs) ∷ jobs) ]
]

abbrev pub barrier_step : String → String
barrier_step group = cat "barrier:" group

abbrev pub wants_barrier : List StepSpec → List String → Bool
wants_barrier specs members =
    any (λ (s : StepSpec). contains members s.id && s.wait == codes "barrier") specs

-- A barrier of the group is in flight.
unfoldable pub has_barrier_job : String → List Attempt → Bool
unfolding latest in_flight any
has_barrier_job group rows =
    is_there (latest (barrier_step group) rows)
    && any (λ (r : Attempt). r.step == barrier_step group) (in_flight rows)

module _ (out : Outside) (specs : List StepSpec) where
  abbrev pub added : String → Option Submit → List String
  added group none = []
  added group (some s) = elim s.status [ submitted ↦ barrier_step group ∷ [] | _ ↦ [] ]

  unfoldable pub submit_barrier : String → List Chars → List Attempt → Act (List String)
  unfolding submit barrier_argv next_number
  submit_barrier group jobs rows s =
      let id = out.fresh_id s in
      let n = next_number (barrier_step group) rows in
      let r = new_record id (barrier_step group) n (out.stamp s.done) in
      let argv =
        barrier_argv (codes group) jobs out.barrier_partition out.barrier_time (codes id) in
      (submit out.env r argv >>= λ (r' : Attempt). pure (added group r'.submit)) s

  abbrev pub with_jobs : String → List Attempt → Option (List Chars) → Act (List String)
  with_jobs group rows none = pure []
  with_jobs group rows (some []) = pure []
  with_jobs group rows (some (j ∷ jobs)) =
      if has_barrier_job group rows then pure [] else submit_barrier group (j ∷ jobs) rows

  abbrev pub group_barrier : String → List Attempt → Act (List String)
  group_barrier group rows =
      let members = group_members specs group in
      if wants_barrier specs members
      then with_jobs group rows (member_jobs members rows)
      else pure []

  unfoldable pub barrier_loop : List String → Act (List String)
  unfolding read_rows group_members any contains member_jobs has_barrier_job submit_barrier
  barrier_loop [] = pure []
  barrier_loop (group ∷ rest) = do
    rows ← read_rows
    here ← group_barrier group rows
    later ← barrier_loop rest
    pure (here ++ later)

  -- `_barriers`; it gives what it adds to `submitted`.
  unfoldable pub barriers : Act (List String)
  unfolding barrier_loop group_names
  barriers = barrier_loop (group_names specs [])
