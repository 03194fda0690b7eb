-- ===== src/Farmkit/Runner/Tick/Walk.antt =====
-- A tick of src/farmkit/runner.py keeps what the operations that it is composed of keep.
use agent_farm_runtime.Prelude.{
  All-holding, ◌≡◌, ℕ, zero, suc, ◌+◌, ◌*◌, String, Option, none, some, true, not, List, [], ◌∷◌,
  Chars, All, length, contains, map, if◌then◌else◌, ◌==◌, string_eq, string_dec, is_yes_iff,
  Bool-cases, inl, inr, sym,
}
use agent_farm_runtime.Farmkit.Ledger.{
  Attempt, unfinalized, is_unfinalized, in_flight, is_in_flight, all_attempts,
}
use agent_farm_runtime.Farmkit.Steps.{StepSpec, ready, is_ready}
use agent_farm_runtime.Farmkit.Act.{Act, State, read_rows}
use agent_farm_runtime.Farmkit.Act.Logic.{Logic}
use agent_farm_runtime.Farmkit.Runner.{Outside, job_text}
use agent_farm_runtime.Farmkit.Runner.Barriers.{barriers}
use agent_farm_runtime.Farmkit.Runner.Launch.{launch}
use agent_farm_runtime.Farmkit.Runner.Tick.{
  spec_of, finalize_as, finalize_rows, observed_as, observe_one, observe_rows, observe_flying,
  observe_and_finalize, report, open_steps, first_step, round, rounds, reconcile_with, tick,
}

abbrev pub read : State → State
read s = record { ledger = (all_attempts s.ledger).0; done = s.done }

-- What a tick is composed of, and what each part keeps: of a row that is read, `Row` holds.
pub record Parts (L : Logic) (Row : Attempt → Type 0) (out : Outside) (specs : List StepSpec)
    (fuel : ℕ) : Type 0 where
  pub reads : (s : State) → L.Holds s → L.Holds (read s)
  pub rows : (s : State) → L.Holds s → All Row (all_attempts s.ledger).1
  pub intents :
      (s : State) → L.Holds s → L.Keeps (Unit {0}) (reconcile_with out specs out.accounting s)
  pub ends :
      (r : Attempt) (s : State)
      → Row r
      → is_unfinalized r ≡ true
      → L.Holds s
      → L.Keeps (List String) (finalize_as out specs fuel r (spec_of out specs r.step specs) s)
  pub observes :
      (states : Chars → Option Chars) (r : Attempt) (s : State)
      → Row r
      → is_in_flight r ≡ true
      → L.Holds s
      → L.Keeps (List String) (observe_one out specs fuel (observed_as out specs states r) s)
  pub launches :
      All
        (λ spec. (s : State) → L.Holds s → L.Keeps (Option Attempt) (launch out spec fuel s))
        specs
  pub submits : (s : State) → L.Holds s → L.Keeps (List String) (barriers out specs s)

module _ (L : Logic) {Row : Attempt → Type 0} (out : Outside) (specs : List StepSpec) (fuel : ℕ)
    (parts : Parts L Row out specs fuel) where
  finalize_rows-Keeps :
      (rows : List Attempt) (s : State)
      → All (λ r. Row r × (is_unfinalized r ≡ true)) rows
      → L.Holds s
      → L.Keeps (List String) (finalize_rows out specs fuel rows s)
  unfolding finalize_rows
  finalize_rows-Keeps [] s h p = L.give _ _ _ p
  finalize_rows-Keeps (r ∷ rest) s ((q, e), h) p =
      L.bind _ _ _ _ (parts.ends r s q e p)
        λ a t d. L.bind _ _ _ _ (finalize_rows-Keeps rest t h d) (λ l u e. L.give _ _ _ e)

  observe_rows-Keeps :
      (states : Chars → Option Chars) (rows : List Attempt) (s : State)
      → All (λ r. Row r × (is_in_flight r ≡ true)) rows
      → L.Holds s
      → L.Keeps (List String) (observe_rows out specs fuel states rows s)
  unfolding observe_rows
  observe_rows-Keeps states [] s h p = L.give _ _ _ p
  observe_rows-Keeps states (r ∷ rest) s ((q, e), h) p =
      L.bind _ _ _ _ (parts.observes states r s q e p)
        λ a t d. L.bind _ _ _ _ (observe_rows-Keeps states rest t h d) (λ l u e. L.give _ _ _ e)

  observe_and_finalize-Keeps :
      (s : State) → L.Holds s → L.Keeps (List String) (observe_and_finalize out specs fuel s)
  unfolding observe_and_finalize observe_flying read_rows unfinalized in_flight
  observe_and_finalize-Keeps s p =
      L.bind _ _ _ _
        (finalize_rows-Keeps _ (read s)
          (All-holding Row is_unfinalized (all_attempts s.ledger).1 (parts.rows s p))
          (parts.reads s p))
        λ first t q.
          L.bind _ _ _ _
            (observe_rows-Keeps
              (out.observed t.done (map job_text (in_flight (all_attempts t.ledger).1))) _ (read t)
              (All-holding Row is_in_flight (all_attempts t.ledger).1 (parts.rows t q))
              (parts.reads t q))
            (λ l u e. L.give _ _ _ e)

  abbrev launch_step : StepSpec → Act (Option Attempt)
  launch_step spec = launch out spec fuel

  abbrev Launches : StepSpec → Type 0
  Launches spec = (s : State) → L.Holds s → L.Keeps (Option Attempt) (launch_step spec s)

  -- The step of a round is in the table.
  data First : Option StepSpec → Type 0 where
    no_first : First none
    is_first : {spec : StepSpec} → Launches spec → First (some spec)

  first-First :
      (P Q : StepSpec → Type 0) (xs : List StepSpec)
      → All (λ x. (Launches x × P x) × Q x) xs
      → First (first_step xs)
  first-First P Q [] h = no_first
  first-First P Q (x ∷ xs) (((h, p), q), k) = is_first h

  open_steps-First :
      (rows : List Attempt) (done : List String) → First (first_step (open_steps specs rows done))
  unfolding open_steps ready
  open_steps-First rows done = first-First _ _ _ (
      All-holding _ (λ (x : StepSpec). not (contains done x.id)) (ready specs rows)
        (All-holding Launches (is_ready specs rows) specs parts.launches))

  round-Keeps :
      (rest : List String → Act (List String)) (done : List String) {o : Option StepSpec}
      (s : State)
      → First o
      → L.Holds s
      → ((d : List String) (t : State) → L.Holds t → L.Keeps (List String) (rest d t))
      → L.Keeps (List String) (round out specs launch_step rest done o s)
  round-Keeps rest done s no_first p h = L.give _ _ _ p
  round-Keeps rest done s (is_first launches) p h = L.bind _ _ _ _ (launches s p) (λ _ t d. h _ t d)

  rounds-Keeps :
      (n : ℕ) (done : List String) (s : State)
      → L.Holds s
      → L.Keeps (List String) (rounds out specs launch_step n done s)
  unfolding rounds read_rows
  rounds-Keeps zero done s p = L.give _ _ _ p
  rounds-Keeps (suc n) done s p =
      round-Keeps (rounds out specs launch_step n) done (read s)
        (open_steps-First (all_attempts s.ledger).1 done) (parts.reads s p) (rounds-Keeps n)

  report-Keeps : (done : List String) (s : State) → L.Holds s → L.Keeps _ (report out specs done s)
  unfolding report read_rows
  report-Keeps done s p =
      L.bind _ _ _ _ (parts.submits s p) (λ groups t d. L.give _ _ _ (parts.reads t d))

  pub tick-Keeps : (s : State) → L.Holds s → L.Keeps _ (tick out specs fuel s)
  unfolding tick
  tick-Keeps s p = L.bind _ _ _ _ (parts.intents s p) λ _ t d.
      L.bind _ _ _ _ (observe_and_finalize-Keeps t d) λ first u e.
        L.bind _ _ _ _ (rounds-Keeps (length specs * 2 + 1) first u e)
          (λ done v g. report-Keeps done v g)

-- The step of an attempt, if it is in the table, with what holds of the steps there
pub data Found (R : StepSpec → Type 0) (step : String) : Option StepSpec → Type 0 where
  not_found : Found R step none
  is_found : {spec : StepSpec} → step ≡ spec.id → R spec → Found R step (some spec)

module _ (R : StepSpec → Type 0) (out : Outside) (specs : List StepSpec) (step : String) where
  here-Found :
      (x : StepSpec) {o : Option StepSpec}
      → R x
      → Found R step o
      → Found R step (elim o [ some y ↦ some y | none ↦ if x.id == step then some x else none ])
  here-Found x h not_found = elim (Bool-cases (x.id == step)) [
    | inl e ↦ rw e (is_found (sym ((is_yes_iff (string_dec x.id step)).0 e)) h)
    | inr e ↦ rw e not_found
  ]
  here-Found x h (is_found e i) = is_found e i

  pub spec_of-Found : (xs : List StepSpec) → All R xs → Found R step (spec_of out specs step xs)
  spec_of-Found [] h = not_found
  spec_of-Found (x ∷ xs) (h, k) = here-Found x h (spec_of-Found xs k)
