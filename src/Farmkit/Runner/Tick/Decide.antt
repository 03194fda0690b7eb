-- ===== src/Farmkit/Runner/Tick/Decide.antt =====
-- What `_decide` of src/farmkit/runner.py tells the worker to wait for.
use agent_farm_runtime.Prelude.{
  ◌≡◌, refl, inl, inr, Option, none, some, true, false, List, [], ◌∷◌, ◌++◌, map, keep, contains,
  Chars, chars_eq, Chars-discrete, is_yes_iff, arith, codes, Bool-cases,
}
use agent_farm_runtime.Farmkit.Classify.{unknown}
use agent_farm_runtime.Farmkit.Rulings.{ruling_name}
use agent_farm_runtime.Farmkit.Ledger.{Attempt, in_flight}
use agent_farm_runtime.Farmkit.Steps.{StepSpec, all_ok}
use agent_farm_runtime.Farmkit.Waits.{job_reference}
use agent_farm_runtime.Farmkit.Waits.Laws.{
  Chosen, at_barrier, by_end, by_number, nothing, wait_reference-Chosen,
}
use agent_farm_runtime.Farmkit.Runner.{Outside, job_text}
use agent_farm_runtime.Farmkit.Runner.Tick.{
  Decision, awaiting, submitted_all, is_barrier, parked_rulings, open_rows, when_settled,
  when_parked, when_open, when_flying, decide,
}

abbrev jobs_of : List Attempt → List Chars
jobs_of rows = map job_text rows

module _ (out : Outside) (specs : List StepSpec) (rows : List Attempt) where
  -- The reason for what is reported: a job in flight; else an intent whose job is unknown; else a
  -- parked failure; else that every step passed, or that nothing can go on.
  pub data Justified : Decision → Type 0 where
    on_job :
        {w : Chars} (j : Chars)
        → contains (jobs_of (in_flight rows)) j ≡ true
        → w ≡ job_reference j
        → Justified (awaiting w)
    on_intent :
        {w : Chars} (r : Attempt) (rest : List Attempt)
        → in_flight rows ≡ []
        → open_rows rows ≡ r ∷ rest
        → w ≡ ruling_name out.task_id unknown (codes "submit-" ++ codes r.step) (codes r.attempt_id)
        → Justified (awaiting w)
    on_ruling :
        {w : Chars} (rest : List Chars)
        → in_flight rows ≡ []
        → open_rows rows ≡ []
        → parked_rulings rows ≡ w ∷ rest
        → Justified (awaiting w)
    all_passed :
        in_flight rows ≡ []
        → open_rows rows ≡ []
        → parked_rulings rows ≡ []
        → all_ok specs rows ≡ true
        → Justified submitted_all
    no_progress :
        {w : Chars}
        → in_flight rows ≡ []
        → open_rows rows ≡ []
        → parked_rulings rows ≡ []
        → all_ok specs rows ≡ false
        → w ≡ ruling_name out.task_id unknown (codes "no-progress") (codes "00000000")
        → Justified (awaiting w)

  when_settled-Justified :
      in_flight rows ≡ []
      → open_rows rows ≡ []
      → parked_rulings rows ≡ []
      → Justified (when_settled out specs rows)
  when_settled-Justified f o p = elim (Bool-cases (all_ok specs rows)) [
    | inl e ↦ rw e (all_passed f o p e)
    | inr e ↦ rw e (no_progress f o p e refl)
  ]

  when_parked-Justified :
      (ps : List Chars)
      → in_flight rows ≡ []
      → open_rows rows ≡ []
      → parked_rulings rows ≡ ps
      → Justified (when_parked out specs rows ps)
  when_parked-Justified [] f o p = when_settled-Justified f o p
  when_parked-Justified (w ∷ rest) f o p = on_ruling rest f o p

  when_open-Justified :
      (os : List Attempt)
      → in_flight rows ≡ []
      → open_rows rows ≡ os
      → Justified (when_open out specs rows os)
  when_open-Justified [] f o = when_parked-Justified (parked_rulings rows) f o refl
  when_open-Justified (r ∷ rest) f o = on_intent r rest f o refl

  contains-barrier :
      (xs bs : List Attempt) (b : Attempt)
      → keep is_barrier xs ≡ b ∷ bs
      → contains (jobs_of xs) (job_text b) ≡ true
  unfolding contains keep
  contains-barrier [] bs b h = absurd (cc)
  contains-barrier (x ∷ xs) bs b h =
      ground
        (arith, contains-barrier xs bs b, is_yes_iff (Chars-discrete (job_text b) (job_text x)))

  Chosen-Justified :
      (r : Attempt) (rest : List Attempt) (o : Option Chars)
      → in_flight rows ≡ r ∷ rest
      → Chosen (jobs_of (r ∷ rest)) (λ j. none) none o
      → Justified (awaiting (elim o [ none ↦ [] | some w ↦ w ]))
  Chosen-Justified r rest o f (at_barrier b e s q) = absurd (cc)
  Chosen-Justified r rest o f (by_end j n q c k a) = absurd (cc)
  Chosen-Justified r rest o f (by_number j n q c k a) = on_job j (rw f c) (rw q refl)
  Chosen-Justified r rest o f (nothing n e q) = absurd (cc)

  when_flying-Justified :
      (fs bs : List Attempt)
      → in_flight rows ≡ fs
      → keep is_barrier fs ≡ bs
      → Justified (when_flying out specs rows fs bs)
  when_flying-Justified [] bs f b = when_open-Justified (open_rows rows) f refl
  when_flying-Justified (r ∷ rest) [] f b =
      Chosen-Justified r rest _ f (wait_reference-Chosen (jobs_of (r ∷ rest)) (λ j. none) none)
  when_flying-Justified (r ∷ rest) (x ∷ bs) f b =
      on_job (job_text x) (rw f (contains-barrier (r ∷ rest) bs x b)) refl

  -- A tick reports SUBMITTED only if every step passed and nothing is in flight, open or parked. It
  -- waits for a job only if that job is in flight, and failures park last: for a ruling on an intent
  -- only if nothing is in flight, on a failure only if there is no open intent either, and on the
  -- lack of progress only if no failure is parked and some step has not passed.
  pub decide-Justified : Justified (decide out specs rows)
  unfolding decide
  decide-Justified =
      when_flying-Justified (in_flight rows) (keep is_barrier (in_flight rows)) refl refl
