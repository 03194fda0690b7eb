-- ===== src/Runtime/Observers/Laws.antt =====
-- What unblocks a WAITING task: positive evidence of its condition, or a decision of the master.
use mathlib.Core.Bool.{false≢true}
use agent_farm_runtime.Prelude.{
  chars_eq, take_word, lstrip, upper, rstrip, All, is_set, ◌==◌, contains, is_yes_iff,
  Chars-discrete, Option, List, ◌∷◌, Chars, ◌≡◌, refl, sym, ◌∙◌, ◌⊎◌, inl, inr, String, none, some,
  true, false, not, [], arith, string_eq, if◌then◌else◌, Bool-cases, Option-cases, string_dec,
  is_identifier, codes, lookup, ◌≢◌,
}
use agent_farm_runtime.Runtime.Metadata.{get, text_set}
use agent_farm_runtime.Runtime.Models.{TaskState, Task}
use agent_farm_runtime.Runtime.Result.{err, invalid_task_id}
use agent_farm_runtime.Runtime.World.{World, pure, raise}
use agent_farm_runtime.Runtime.World.Rules.{act_rules}
use agent_farm_runtime.Runtime.Files.{Files}
use agent_farm_runtime.Runtime.Rotation.{clean_surrender}
use agent_farm_runtime.Runtime.Store.{get_task, or_missing}
use agent_farm_runtime.Runtime.Slurm.{normalized_slurm_state, slurm_job_terminal, slurm_state}
use agent_farm_runtime.Runtime.Observers.{
  head_to, rest_of, text_or_empty, waiting_on_error, Sensors, is_done, job_reached, condition_holds,
  evaluate_waiting_on, unread_master_note, make_unblock,
}

-- The two parts of a reference
abbrev pub kind_of : String → String
kind_of value = head_to b':' value

abbrev pub target_of : String → String
target_of value = text_or_empty (rest_of b':' value)

-- The states of Slurm in which a job has ended
abbrev pub ended_states : List Chars
ended_states =
    codes "BOOT_FAIL"
    ∷ codes "CANCELLED"
    ∷ codes "COMPLETED"
    ∷ codes "DEADLINE"
    ∷ codes "FAILED"
    ∷ codes "NODE_FAIL"
    ∷ codes "OUT_OF_MEMORY"
    ∷ codes "TIMEOUT"
    ∷ []

-- What Slurm says of the job of a reference `job:<id>` or `job:<id>:<mark>`
abbrev pub job_state : Sensors → World → String → Option Chars
job_state sensors w value = slurm_state (sensors.tools w) (codes (head_to b':' (target_of value)))

-- Evidence of the condition that a reference names
pub data Evidence (sensors : Sensors) (w : World) (value : String) : Type 0 where
  job_started :
      (state : Chars)
      → kind_of value ≡ "job"
      → text_or_empty (rest_of b':' (target_of value)) ≡ "start"
      → job_state sensors w value ≡ some state
      → normalized_slurm_state (some state) ≡ codes "RUNNING"
      → Evidence sensors w value
  job_ended :
      (state : Chars)
      → kind_of value ≡ "job"
      → text_or_empty (rest_of b':' (target_of value)) ≢ "start"
      → job_state sensors w value ≡ some state
      → contains ended_states (normalized_slurm_state (some state)) ≡ true
      → Evidence sensors w value
  path_exists :
      (kind_of value ≡ "artifact") ⊎ (kind_of value ≡ "file")
      → sensors.exists w (target_of value) ≡ true
      → Evidence sensors w value
  task_done :
      (t : Task)
      → kind_of value ≡ "task"
      → lookup (head_to b'#' (target_of value)) w.disk.tasks ≡ some t
      → t.state ≡ TaskState.done
      → Evidence sensors w value

get_task_lem :
    (id : String) (w : World)
    → get_task id w ≡ (
        if not (is_identifier (codes id))
        then (err invalid_task_id, [])
        else or_missing (lookup id w.disk.tasks) w)
unfolding get_task
get_task_lem id w = simp act_rules

is_done-lookup :
    (id : String) (w : World)
    → is_done (get_task id w) ≡ true
    → (t : Task) × (lookup id w.disk.tasks ≡ some t) × (t.state ≡ TaskState.done)
unfolding pure raise
is_done-lookup id w h =
    let q = rw get_task_lem at h in
    elim (Option-cases (lookup id w.disk.tasks)) [
      | inl e ↦ absurd (ground arith)
      | inr (t, e) ↦ (t, e, ground arith)
    ]

terminal-ended :
    (state : Option Chars)
    → slurm_job_terminal state ≡ true
    → contains ended_states (normalized_slurm_state state) ≡ true
unfolding slurm_job_terminal contains
terminal-ended state h = ground arith

-- No state at all is none of them.
contains-nil : (xs : List Chars) → All (λ x. is_set x ≡ true) xs → contains xs [] ≡ true → ⊥
unfolding contains
contains-nil [] s h = absurd (cc)
contains-nil ([] ∷ xs) (s, k) h = absurd (cc)
contains-nil ((c ∷ cs) ∷ xs) (s, k) h = elim (Bool-cases ([] == (c ∷ cs))) [
  | inl e ↦ let q = (is_yes_iff (Chars-discrete [] (c ∷ cs))).0 e in absurd (cc)
  | inr e ↦ contains-nil xs k (rw e at h)
]

normalized-none : normalized_slurm_state none ≡ []
unfolding normalized_slurm_state take_word lstrip upper rstrip
normalized-none = refl

ended-some :
    (o : Option Chars)
    → contains ended_states (normalized_slurm_state o) ≡ true
    → (state : Chars) × (o ≡ some state)
ended-some none h = absurd (contains-nil ended_states (ground arith) (rw normalized-none at h))
ended-some (some state) h = (state, refl)

running-some :
    (o : Option Chars)
    → normalized_slurm_state o ≡ codes "RUNNING"
    → (state : Chars) × (o ≡ some state)
running-some none h = let k = rw normalized-none at h in absurd (cc)
running-some (some state) h = (state, refl)

module _ (sensors : Sensors) (w : World) (value : String) where
  job-Evidence :
      kind_of value ≡ "job"
      → job_reached sensors w (target_of value) ≡ true
      → Evidence sensors w value
  unfolding job_reached
  job-Evidence k h = elim (string_dec (text_or_empty (rest_of b':' (target_of value))) "start") [
    | yes e ↦
        let r : normalized_slurm_state (job_state sensors w value) ≡ codes "RUNNING" =
          (is_yes_iff (Chars-discrete _ _)).0 (ground arith) in
        let (state, s) = running-some (job_state sensors w value) r in
        job_started state k e s (rw s at r)
    | no n ↦
        let r = terminal-ended (job_state sensors w value) (ground arith) in
        let (state, s) = ended-some (job_state sensors w value) r in
        job_ended state k n s (rw s at r)
  ]

  condition-Evidence :
      condition_holds sensors w (kind_of value) (target_of value) ≡ true → Evidence sensors w value
  unfolding condition_holds
  condition-Evidence h = elim (string_dec (kind_of value) "job") [
    | yes e ↦ job-Evidence e (ground arith)
    | no n1 ↦ elim (string_dec (kind_of value) "artifact") [
      | yes e ↦ path_exists (inl e) (ground arith)
      | no n2 ↦ elim (string_dec (kind_of value) "file") [
        | yes e ↦ path_exists (inr e) (ground arith)
        | no n3 ↦ elim (string_dec (kind_of value) "task") [
          | yes e ↦
              let (t, found, done) =
                is_done-lookup (head_to b'#' (target_of value)) w (ground arith) in
              task_done t e found done
          | no n4 ↦ absurd (ground arith)
        ]
      ]
    ]
  ]

  evaluate-Evidence :
      evaluate_waiting_on sensors w (some value) ≡ true
      → (waiting_on_error (some value) ≡ none) × Evidence sensors w value
  unfolding evaluate_waiting_on
  evaluate-Evidence h = (ground arith, condition-Evidence (ground arith))

-- A decision of the master: a request to resume, or, unless the worker surrendered, a note in the
-- workspace that the task has not seen.
pub data Decision (files : Files) (w : World) (task : Task) : Type 0 where
  asked : text_set task.metadata.resume_requested ≡ true → Decision files w task
  noted :
      clean_surrender task ≡ false → unread_master_note files w task ≡ true → Decision files w task

evaluate-none : (sensors : Sensors) (w : World) → evaluate_waiting_on sensors w none ≡ false
unfolding evaluate_waiting_on waiting_on_error
evaluate-none sensors w = refl

-- `make_unblock` wakes a task only on a decision of the master, or on positive evidence of the
-- condition that a well-formed wait reference names: a job that Slurm reports, as running if the
-- mark is `start` and as ended in one of eight states if it is not, a path that exists or a task
-- that is DONE. A job of which nothing or another state is known is no evidence, and no `ruling:` and no `rotation:` reference is evidence by itself.
pub make_unblock-Evidence :
    (sensors : Sensors) (files : Files) (w : World) (task : Task)
    → make_unblock sensors files w task ≡ true
    → Decision files w task
      ⊎ ((value : String) × (get task.metadata.waiting_on ≡ some value)
          × (waiting_on_error (some value) ≡ none)
          × Evidence sensors w value)
unfolding make_unblock
make_unblock-Evidence sensors files w task h =
    elim (Bool-cases (text_set task.metadata.resume_requested)) [
      | inl e ↦ inl (asked e)
      | inr r ↦ elim (Bool-cases (evaluate_waiting_on sensors w (get task.metadata.waiting_on))) [
        | inr e ↦ inl (noted (ground arith) (ground arith))
        | inl e ↦ elim (Option-cases (get task.metadata.waiting_on)) [
          | inl n ↦ let q = rw n at e in absurd (false≢true (sym (evaluate-none sensors w) ∙ q))
          | inr (value, n) ↦
              let q = rw n at e in
              let (good, evidence) = evaluate-Evidence sensors w value q in
              inr (value, n, good, evidence)
        ]
      ]
    ]
