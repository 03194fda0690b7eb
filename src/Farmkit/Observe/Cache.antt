-- ===== src/Farmkit/Observe/Cache.antt =====
-- `StateCache` of src/farmkit/observe.py: the answers about jobs, kept for a short time.
use mathlib.Core.Bool.{and-false}
use agent_farm_runtime.Prelude.{
  is_there, both_iff, ◌≡◌, refl, sym, ◌∙◌, ℕ, ◌+◌, Option, none, some, Bool, true, false, not, ◌&&◌,
  List, keep, ltb, contains, contains-keep, Chars, chars_eq, if◌then◌else◌,
}
use agent_farm_runtime.Runtime.Slurm.{is_job_id}
use agent_farm_runtime.Farmkit.Observe.{Scheduler, batch}

-- `_cache`: for a job, when it was asked for and what was answered
abbrev pub Cache : Type 0
Cache = Chars → Option (ℕ × Option Chars)

abbrev pub still_fresh : ℕ → ℕ → Option (ℕ × Option Chars) → Option (Option Chars)
still_fresh now ttl none = none
still_fresh now ttl (some (t, v)) = if ltb now (t + ttl) then some v else none

-- What a call gives: the answers, the cache after it, and the jobs that were asked for.
pub record Asked : Type 0 where
  pub answer : Chars → Option Chars
  pub cache : Cache
  pub asked : List Chars

abbrev value_of : Option (Option Chars) → Option Chars
value_of none = none
value_of (some v) = v

module _ (sch : Scheduler) (ttl now : ℕ) (cache : Cache) (job_ids : List Chars) where
  abbrev pub missing : List Chars
  missing = keep (λ j. not (is_there (still_fresh now ttl (cache j)))) (keep is_job_id job_ids)

  -- `states`; the answer about a text that is no id of a job is None.
  unfoldable pub states : Asked
  unfolding keep is_job_id batch contains
  states = record {
    answer = λ j.
        if not (contains job_ids j && is_job_id j)
        then none
        else if contains missing j
        then batch sch missing j
        else value_of (still_fresh now ttl (cache j));
    cache = λ j. if contains missing j then some (now, batch sch missing j) else cache j;
    asked = missing;
  }

both_first : (a b c : Bool) → ((a && b) && c) ≡ true → (a ≡ true) × (b ≡ true)
both_first a b c h = (both_iff a b).0 ((both_iff _ c).0 h).0

module _ (sch later : Scheduler) (ttl now soon : ℕ) (cache : Cache) (job_ids ids : List Chars) where
  abbrev pub first_call : Asked
  first_call = states sch ttl now cache job_ids

  abbrev pub second_call : Asked
  second_call = states later ttl soon first_call.cache ids

  asked-fresh :
      (j : Chars)
      → contains first_call.asked j ≡ true
      → ltb soon (now + ttl) ≡ true
      → still_fresh soon ttl (first_call.cache j) ≡ some (batch sch first_call.asked j)
  unfolding states
  asked-fresh j h t = rw (h, t) refl

  not-missing :
      (j : Chars)
      → contains first_call.asked j ≡ true
      → ltb soon (now + ttl) ≡ true
      → contains second_call.asked j ≡ false
  unfolding states
  not-missing j h t =
      rw
        (
          contains-keep (λ i. not (is_there (still_fresh soon ttl (first_call.cache i))))
              (keep is_job_id ids) j,
          asked-fresh j h t,
        )
        (and-false (contains (keep is_job_id ids) j))

  asked-id :
      (j : Chars)
      → contains first_call.asked j ≡ true
      → (contains job_ids j ≡ true) × (is_job_id j ≡ true)
  unfolding states
  asked-id j h =
      both_first (contains job_ids j) (is_job_id j) (not (is_there (still_fresh now ttl (cache j))))
        (rw
          (
            contains-keep (λ i. not (is_there (still_fresh now ttl (cache i))))
                (keep is_job_id job_ids) j,
            contains-keep is_job_id job_ids j,
          )
          at h)

  first_answer :
      (j : Chars)
      → contains first_call.asked j ≡ true
      → first_call.answer j ≡ batch sch first_call.asked j
  unfolding states
  first_answer j h = let (i, k) = asked-id j h in rw (i, k, h) refl

  second_answer :
      (j : Chars)
      → contains first_call.asked j ≡ true
      → ltb soon (now + ttl) ≡ true
      → contains ids j ≡ true
      → second_call.answer j ≡ batch sch first_call.asked j
  unfolding states
  second_answer j h t i = let (a, k) = asked-id j h in rw (i, k, not-missing j h t, h, t) refl

  -- A job that a call asked for is not asked for again before its time is over: the next call gives
  -- the same answer from the cache, whatever the programs say by then.
  pub states-Cached :
      (j : Chars)
      → contains first_call.asked j ≡ true
      → ltb soon (now + ttl) ≡ true
      → contains ids j ≡ true
      → (contains second_call.asked j ≡ false) × (second_call.answer j ≡ first_call.answer j)
  states-Cached j h t i = (not-missing j h t, second_answer j h t i ∙ sym (first_answer j h))
