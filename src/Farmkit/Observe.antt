-- ===== src/Farmkit/Observe.antt =====
-- src/farmkit/observe.py: the state of a job, of several jobs at once, and the cache of the answers.
pub mod Laws
pub mod Cache
mod Tests
use agent_farm_runtime.Prelude.{
  is_there, ℕ, ◌+◌, Option, none, some, Bool, true, false, not, ◌&&◌, List, [], ◌∷◌, ◌++◌, keep,
  is_eq, contains, codes, Chars, chars_eq, is_set, is_space, lstrip, rstrip, strip, first_word,
  splitlines, to_line, if◌then◌else◌, ◌==◌,
}
use agent_farm_runtime.Farmkit.Classify.{normalized}
use agent_farm_runtime.Farmkit.Act.{Proc}
use agent_farm_runtime.Runtime.Slurm.{is_job_id, only, sacct_states}

-- The programs that are installed, and what a call gives; none if it fails or takes too long.
pub record Scheduler : Type 0 where
  pub has_squeue : Bool
  pub has_sacct : Bool
  pub run : List Chars → Option Proc

-- ACTIVE_STATES
abbrev pub active_states : List Chars
active_states =
    codes "PENDING"
    ∷ codes "RUNNING"
    ∷ codes "CONFIGURING"
    ∷ codes "COMPLETING"
    ∷ codes "SUSPENDED"
    ∷ codes "RESIZING"
    ∷ []

-- `is_active`
unfoldable pub is_active : Option Chars → Bool
unfolding normalized contains
is_active state = contains active_states (normalized state)

-- What a program printed that ended with the code 0
abbrev pub output : Option Proc → Option Chars
output none = none
output (some p) = if p.succeeded then some p.stdout else none

abbrev pub squeue_argv : Chars → Chars → List Chars
squeue_argv jobs format = codes "squeue" ∷ codes "-h" ∷ codes "-j" ∷ jobs ∷ codes "-o" ∷ format ∷ []

abbrev pub sacct_argv : List Chars → Chars → Chars → List Chars
sacct_argv flags jobs format =
    (codes "sacct" ∷ codes "-n" ∷ codes "-X" ∷ flags)
    ++ codes "-j" ∷ jobs ∷ (codes "--format=" ++ format) ∷ []

module _ (sch : Scheduler) where
  abbrev pub from_accounts : Option Chars → Option Chars
  from_accounts none = none
  from_accounts (some out) = only (sacct_states out)

  unfoldable pub ask_accounts : Chars → Option Chars
  unfolding sacct_states
  ask_accounts job_id =
      if sch.has_sacct
      then from_accounts (output (sch.run (sacct_argv [] job_id (codes "State%30"))))
      else none

  abbrev pub from_lines : Chars → List Chars → Option Chars
  from_lines job_id [] = ask_accounts job_id
  from_lines job_id (s ∷ []) = some s
  from_lines job_id (s ∷ t ∷ rest) = none

  abbrev pub from_queue : Chars → Option Chars → Option Chars
  from_queue job_id none = ask_accounts job_id
  from_queue job_id (some out) = from_lines job_id (splitlines (strip out))

  -- `slurm_state`
  unfoldable pub slurm_state : Chars → Option Chars
  unfolding is_job_id ask_accounts
  slurm_state job_id =
      if is_job_id job_id
      then (if sch.has_squeue
          then from_queue job_id (output (sch.run (squeue_argv job_id (codes "%T"))))
          else ask_accounts job_id)
      else none

  abbrev only_row : Option Chars → Option Chars
  only_row none = none
  only_row (some out) = only (keep (λ l. is_set (strip l)) (splitlines out))

  -- `sacct_row`
  unfoldable pub sacct_row : Chars → Option Chars
  unfolding is_job_id keep
  sacct_row job_id =
      if is_job_id job_id && sch.has_sacct
      then only_row (
          output (
            sch.run (
              sacct_argv (codes "-P" ∷ []) job_id
                (codes "JobID,JobName%40,State,ExitCode,Elapsed,End,Comment%60"))))
      else none

-- `text.split()`
abbrev in_word : Chars → Bool
in_word [] = false
in_word (c ∷ cs) = not (is_space c)

unfoldable pub words : Chars → List Chars
unfolding is_space
words [] = []
words (c ∷ cs) =
    let rest = words cs in
    if is_space c then rest else if in_word cs then to_line c rest else (c ∷ []) ∷ rest

-- `text.split(mark)`
unfoldable pub split_on : ℕ → Chars → List Chars
split_on mark [] = [] ∷ []
split_on mark (c ∷ cs) =
    let rest = split_on mark cs in if is_eq c mark then [] ∷ rest else to_line c rest

unfoldable pub join_with : Chars → List Chars → Chars
join_with sep [] = []
join_with sep (s ∷ []) = s
join_with sep (s ∷ t ∷ rest) = s ++ sep ++ join_with sep (t ∷ rest)

-- The state in a line of squeue about this job, if it has two words
abbrev pub queue_row : Chars → List Chars → Option Chars
queue_row j (i ∷ s ∷ []) = if i == j then some s else none
queue_row j _ = none

abbrev pub or_else : Option Chars → Option Chars → Option Chars
or_else none o = o
or_else (some s) o = some s

-- The last line about the job
unfoldable pub queue_state : Chars → List Chars → Option Chars
unfolding words
queue_state j [] = none
queue_state j (l ∷ ls) = or_else (queue_state j ls) (queue_row j (words l))

-- The state in a line of sacct about this job, empty if it is blank
abbrev pub account_row : Chars → List Chars → List Chars → List Chars
account_row j (i ∷ s ∷ more) states = if i == j then first_word s ∷ states else states
account_row j _ states = states

unfoldable pub account_states : Chars → List Chars → List Chars
unfolding split_on rstrip lstrip first_word
account_states j [] = []
account_states j (l ∷ ls) = account_row j (split_on b'|' (strip l)) (account_states j ls)

-- `states[0] if len(states) == 1 and states[0] else None`
abbrev pub only_set : List Chars → Option Chars
only_set (s ∷ []) = if is_set s then some s else none
only_set _ = none

-- What sacct says of a job replaces what squeue said.
abbrev pub batch_state : Option Chars → List Chars → Option Chars
batch_state queued [] = queued
batch_state queued (s ∷ states) = only_set (s ∷ states)

abbrev pub lines_of : Option Chars → List Chars
lines_of none = []
lines_of (some out) = splitlines out

abbrev is_nil : List Chars → Bool
is_nil [] = true
is_nil (x ∷ xs) = false

module _ (sch : Scheduler) (job_ids : List Chars) where
  -- The lines of squeue about these jobs
  abbrev pub queue_lines : List Chars
  queue_lines =
      if sch.has_squeue
      then lines_of (output (sch.run (squeue_argv (join_with (codes ",") job_ids) (codes "%i %T"))))
      else []

  -- The jobs that squeue does not know
  abbrev pub unqueued : List Chars
  unqueued = keep (λ j. not (is_there (queue_state j queue_lines))) job_ids

  abbrev pub account_lines : List Chars
  account_lines =
      if not (is_nil unqueued) && sch.has_sacct
      then lines_of (
          output (
            sch.run (
              sacct_argv (codes "-P" ∷ []) (join_with (codes ",") unqueued) (codes "JobID,State"))))
      else []

  -- `_batch`, for one of the jobs
  unfoldable pub batch : Chars → Option Chars
  unfolding queue_state account_states contains join_with keep
  batch j =
      if contains job_ids j
      then batch_state (queue_state j queue_lines) (account_states j account_lines)
      else none
