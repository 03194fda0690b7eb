-- ===== src/Farmkit/Waits.antt =====
-- src/farmkit/waits.py: the reference that a worker waits on after a submission.
pub mod Laws
mod Tests
use agent_farm_runtime.Prelude.{
  ℕ, ◌+◌, ◌-◌, ◌*◌, Option, none, some, Bool, true, false, ◌&&◌, ◌||◌, List, [], ◌∷◌, ◌++◌, keep,
  ltb, is_eq, is_digit, codes, Chars, is_set, if◌then◌else◌,
}
use agent_farm_runtime.Farmkit.Classify.{starts_with}
use agent_farm_runtime.Farmkit.Rulings.{first_chars}

-- `forbid_artifact_wait`: whether it raises
unfoldable pub is_artifact_wait : Chars → Bool
unfolding starts_with
is_artifact_wait waiting_on =
    starts_with (codes "artifact:") waiting_on || starts_with (codes "file:") waiting_on

-- The number that the digits at the front of a text write, 0 if there are none
unfoldable pub leading_number : ℕ → Chars → ℕ
unfolding is_digit
leading_number n [] = n
leading_number n (c ∷ cs) =
    let more = leading_number (n * 10 + (c - b'0')) cs in if is_digit c then more else n

-- `_numeric`
abbrev pub numeric : Chars → ℕ
numeric job_id = leading_number 0 job_id

-- `min(best, *xs, key=…)`, by the order of the keys: the first of the smallest
unfoldable pub min_by {ℓ} : {A : Type ℓ} → (A → A → Bool) → A → List A → A
min_by less best [] = best
min_by less best (x ∷ xs) = min_by less (if less x best then x else best) xs

-- `expected_end`, where it is known
abbrev pub Ends : Type 0
Ends = Chars → Option ℕ

abbrev pub is_known : Ends → Chars → Bool
is_known ends j = elim (ends j) [ none ↦ false | some t ↦ true ]

abbrev pub end_of : Ends → Chars → ℕ
end_of ends j = elim (ends j) [ none ↦ 0 | some t ↦ t ]

-- The order of `(expected_end[j], _numeric(j))`
unfoldable pub ends_before : Ends → Chars → Chars → Bool
ends_before ends i j =
    ltb (end_of ends i) (end_of ends j)
    || (is_eq (end_of ends i) (end_of ends j) && ltb (numeric i) (numeric j))

unfoldable pub is_lower : Chars → Chars → Bool
is_lower i j = ltb (numeric i) (numeric j)

abbrev pub job_reference : Chars → Chars
job_reference j = codes "job:" ++ j

-- The job among those with a known end, else among all.
abbrev pub earliest : Ends → Chars → List Chars → List Chars → Chars
earliest ends j js [] = min_by is_lower j js
earliest ends j js (k ∷ known) = min_by (ends_before ends) k known

abbrev pub wait_among : Ends → List Chars → Option Chars
wait_among ends [] = none
wait_among ends (j ∷ js) = some (job_reference (earliest ends j js (keep (is_known ends) (j ∷ js))))

-- `wait_reference`; none where it raises
unfoldable pub wait_reference : List Chars → Ends → Option Chars → Option Chars
unfolding min_by is_lower ends_before keep
wait_reference job_ids ends none = wait_among ends job_ids
wait_reference job_ids ends (some barrier_job) =
    if is_set barrier_job then some (job_reference barrier_job) else wait_among ends job_ids

unfoldable pub join_ids : List Chars → Chars
join_ids [] = []
join_ids (j ∷ []) = j
join_ids (j ∷ k ∷ rest) = j ++ b':' ∷ join_ids (k ∷ rest)

abbrev partition_argv : Option Chars → List Chars
partition_argv none = []
partition_argv (some p) = if is_set p then codes "-p" ∷ p ∷ [] else []

-- `barrier_argv`
unfoldable pub barrier_argv : Chars → List Chars → Option Chars → Chars → Chars → List Chars
unfolding join_ids first_chars
barrier_argv group job_ids partition time_limit attempt_id =
    codes "sbatch"
    ∷ codes "--parsable"
    ∷ (codes "--job-name=barrier-" ++ group ++ b'-' ∷ first_chars 8 attempt_id)
    ∷ (codes "--comment=attempt:" ++ attempt_id)
    ∷ (codes "--dependency=afterany:" ++ join_ids job_ids)
    ∷ (codes "--time=" ++ time_limit)
    ∷ codes "-c"
    ∷ codes "1"
    ∷ (partition_argv partition ++ codes "--wrap" ∷ codes "exit 0" ∷ [])
