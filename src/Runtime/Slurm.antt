-- ===== src/Runtime/Slurm.antt =====
-- src/agent_farm_runtime/adapters/slurm.py: what is known of a job, from squeue and sacct.
pub mod Laws
mod Tests
use agent_farm_runtime.Prelude.{
  Option, none, some, Bool, true, not, ◌&&◌, List, [], ◌∷◌, map, keep, all, is_eq, is_digit,
  contains, codes, Chars, chars_eq, is_set, strip, rstrip, first_word, upper, splitlines, before,
  after_mark, if◌then◌else◌,
}

-- The tools that are installed, and what they print for a job; none if the call fails or ends with
-- another code than 0.
pub record Tools : Type 0 where
  pub has_squeue : Bool
  pub has_sacct : Bool
  pub squeue : Chars → Option Chars
  pub sacct : Chars → Option Chars

abbrev pub digits : Chars → Bool
digits s = is_set s && all is_digit s

abbrev element : Option Chars → Bool
element none = true
element (some s) = digits s

-- `[0-9]+(?:_[0-9]+)?`
unfoldable pub is_job_id : Chars → Bool
unfolding is_digit all before after_mark
is_job_id s = digits (before b'_' s) && element (after_mark b'_' s)

abbrev pub or_empty : Option Chars → Chars
or_empty none = []
or_empty (some s) = s

-- `normalized_slurm_state`
unfoldable pub normalized_slurm_state : Option Chars → Chars
unfolding first_word upper rstrip
normalized_slurm_state state = rstrip (is_eq b'+') (upper (first_word (or_empty state)))

-- ACTIVE_SLURM_STATES
abbrev pub active_slurm_states : List Chars
active_slurm_states =
    codes "PENDING"
    ∷ codes "RUNNING"
    ∷ codes "CONFIGURING"
    ∷ codes "COMPLETING"
    ∷ codes "SUSPENDED"
    ∷ codes "RESIZING"
    ∷ []

-- TERMINAL_SLURM_STATES
abbrev pub terminal_slurm_states : List Chars
terminal_slurm_states =
    codes "COMPLETED"
    ∷ codes "FAILED"
    ∷ codes "TIMEOUT"
    ∷ codes "OUT_OF_MEMORY"
    ∷ codes "NODE_FAIL"
    ∷ codes "CANCELLED"
    ∷ codes "BOOT_FAIL"
    ∷ codes "DEADLINE"
    ∷ []

-- `slurm_job_terminal`
unfoldable pub slurm_job_terminal : Option Chars → Bool
unfolding normalized_slurm_state contains
slurm_job_terminal state = contains terminal_slurm_states (normalized_slurm_state state)

-- `slurm_job_active`
unfoldable pub slurm_job_active : Option Chars → Bool
unfolding normalized_slurm_state contains
slurm_job_active state = contains active_slurm_states (normalized_slurm_state state)

-- The rows of sacct: the first word of each line that is not blank.
unfoldable pub sacct_states : Chars → List Chars
sacct_states out = map first_word (keep (λ l. is_set (strip l)) (splitlines out))

abbrev pub only : List Chars → Option Chars
only (s ∷ []) = some s
only _ = none

abbrev pub from_sacct : Option Chars → Option Chars
from_sacct none = none
from_sacct (some out) = only (sacct_states out)

unfoldable pub ask_sacct : Tools → Chars → Option Chars
unfolding sacct_states
ask_sacct tools job_id = if tools.has_sacct then from_sacct (tools.sacct job_id) else none

-- An empty answer of squeue is no answer; several lines are no single fact.
abbrev pub from_squeue : Tools → Chars → List Chars → Option Chars
from_squeue tools job_id [] = ask_sacct tools job_id
from_squeue tools job_id (s ∷ rest) = only (s ∷ rest)

abbrev pub after_squeue : Tools → Chars → Option Chars → Option Chars
after_squeue tools job_id none = ask_sacct tools job_id
after_squeue tools job_id (some out) = from_squeue tools job_id (splitlines (strip out))

-- `slurm_state`
unfoldable pub slurm_state : Tools → Chars → Option Chars
unfolding is_job_id ask_sacct
slurm_state tools job_id =
    if not (is_job_id job_id)
    then none
    else if tools.has_squeue
    then after_squeue tools job_id (tools.squeue job_id)
    else ask_sacct tools job_id
