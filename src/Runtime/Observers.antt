-- ===== src/Runtime/Observers.antt =====
-- src/agent_farm_runtime/observers.py: the grammar of wait references, and what unblocks a WAITING
-- task without a decision of the master.
pub mod Laws
mod Tests
use Prim.Native.Char.{code}
use agent_farm_runtime.Prelude.{
  ℕ, String, Option, none, some, Bool, true, false, not, ◌&&◌, ◌||◌, List, [], ◌∷◌, is_eq, all,
  is_space, is_identifier, is_short_identifier, codes, nonempty, not_blank, chars_eq, ◌==◌, ◌!=◌,
  string_eq, is_absolute, if◌then◌else◌,
}
use agent_farm_runtime.Runtime.Equality.{state_eq, option_string_eq}
use agent_farm_runtime.Runtime.Metadata.{get, text_set}
use agent_farm_runtime.Runtime.Models.{TaskState, Task}
use agent_farm_runtime.Runtime.Result.{Result, ok, err}
use agent_farm_runtime.Runtime.World.{World, Effect}
use agent_farm_runtime.Runtime.Store.{get_task}
use agent_farm_runtime.Runtime.Files.{Files, master_note_digest}
use agent_farm_runtime.Runtime.Rotation.{clean_surrender}
use agent_farm_runtime.Runtime.Slurm.{
  Tools, is_job_id, normalized_slurm_state, slurm_job_terminal, slurm_state,
}

-- `text.partition(mark)` on a `String`
unfoldable pub head_to : ℕ → String → String
head_to mark String.[] = String.[]
head_to mark (String.◌∷◌ c s) =
    let rest = head_to mark s in if is_eq (code c) mark then String.[] else String.◌∷◌ c rest

unfoldable pub rest_of : ℕ → String → Option String
rest_of mark String.[] = none
rest_of mark (String.◌∷◌ c s) =
    let later = rest_of mark s in if is_eq (code c) mark then some s else later

abbrev pub text_or_empty : Option String → String
text_or_empty none = ""
text_or_empty (some s) = s

-- The errors of `waiting_on_error`
pub data WaitError : Type 0 where
  no_reference bad_job not_absolute bad_task unnamed_ruling bad_rotation unsupported : WaitError

abbrev fails : Bool → WaitError → Option WaitError
fails true e = none
fails false e = some e

-- `(?::(?:start|end))?` after the id of a job
abbrev good_mode : Option String → Bool
good_mode none = true
good_mode (some mode) = mode == "start" || mode == "end"

-- `#[^\s]+` after the id of a task
abbrev good_anchor : Option String → Bool
good_anchor none = true
good_anchor (some anchor) = nonempty anchor && all (λ c. not (is_space c)) (codes anchor)

-- The test of the part after the first colon
unfoldable pub reference_error : String → String → Option WaitError
unfolding head_to rest_of is_job_id is_identifier is_short_identifier is_absolute
reference_error kind rest =
    if kind == "job"
    then fails (is_job_id (codes (head_to b':' rest)) && good_mode (rest_of b':' rest)) bad_job
    else if kind == "artifact" || kind == "file"
    then fails (is_absolute rest) not_absolute
    else if kind == "task"
    then fails (is_identifier (codes (head_to b'#' rest)) && good_anchor (rest_of b'#' rest))
        bad_task
    else if kind == "ruling"
    then fails (not_blank rest) unnamed_ruling
    else if kind == "rotation"
    then fails (is_short_identifier (codes rest)) bad_rotation
    else some unsupported

abbrev pub error_of_parts : String → Option String → Option WaitError
error_of_parts kind none = some no_reference
error_of_parts kind (some rest) = reference_error kind rest

-- `waiting_on_error`
unfoldable pub waiting_on_error : Option String → Option WaitError
unfolding head_to rest_of reference_error
waiting_on_error none = some no_reference
waiting_on_error (some value) = error_of_parts (head_to b':' value) (rest_of b':' value)

-- What the observers ask the world
pub record Sensors : Type 0 where
  pub tools : World → Tools
  pub exists : World → String → Bool

abbrev pub is_done : Result Task × List Effect → Bool
is_done (ok task, es) = task.state == TaskState.done
is_done (err e, es) = false

-- `unread_master_note`
unfoldable pub unread_master_note : Files → World → Task → Bool
unfolding master_note_digest
unread_master_note files w task = elim (master_note_digest files w (get task.metadata.workspace)) [
  | none ↦ false
  | some current ↦ get task.metadata.master_notes_digest != some current
]

module _ (sensors : Sensors) where
  -- `job:<id>:start`, or else the end of the job
  unfoldable pub job_reached : World → String → Bool
  unfolding head_to rest_of slurm_state normalized_slurm_state slurm_job_terminal
  job_reached w rest =
      let state = slurm_state (sensors.tools w) (codes (head_to b':' rest)) in
      if text_or_empty (rest_of b':' rest) == "start"
      then normalized_slurm_state state == codes "RUNNING"
      else slurm_job_terminal state

  -- The condition of a reference that has no error
  unfoldable pub condition_holds : World → String → String → Bool
  unfolding job_reached head_to get_task
  condition_holds w kind rest =
      if kind == "job"
      then job_reached w rest
      else if kind == "artifact" || kind == "file"
      then sensors.exists w rest
      else if kind == "task"
      then is_done (get_task (head_to b'#' rest) w)
      else false

  -- `evaluate_waiting_on`
  unfoldable pub evaluate_waiting_on : World → Option String → Bool
  unfolding waiting_on_error head_to rest_of condition_holds
  evaluate_waiting_on w waiting_on = elim (waiting_on_error waiting_on) [
    | some e ↦ false
    | none ↦
        condition_holds w (head_to b':' (text_or_empty waiting_on))
          (text_or_empty (rest_of b':' (text_or_empty waiting_on)))
  ]

  -- `make_unblock`
  unfoldable pub make_unblock : Files → World → Task → Bool
  unfolding evaluate_waiting_on clean_surrender unread_master_note
  make_unblock files w task =
      if text_set task.metadata.resume_requested
      then true
      else if evaluate_waiting_on w (get task.metadata.waiting_on)
      then true
      else if clean_surrender task
      then false
      else unread_master_note files w task
