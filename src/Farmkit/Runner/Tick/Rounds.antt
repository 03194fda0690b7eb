-- ===== src/Farmkit/Runner/Tick/Rounds.antt =====
-- The launches of a tick of src/farmkit/runner.py end before their bound is reached.
use agent_farm_runtime.Prelude.{
  contains-append, contains-last, ap, ◌≡◌, refl, ℕ, zero, suc, ◌+◌, ◌*◌, ◌≤◌, ◌<◌, String, Option,
  none, some, Bool, true, false, not, List, [], ◌∷◌, ◌++◌, keep, length, contains, string_eq, arith,
}
use agent_farm_runtime.Farmkit.Ledger.{Attempt, all_attempts}
use agent_farm_runtime.Farmkit.Steps.{StepSpec, ready, is_ready}
use agent_farm_runtime.Farmkit.Act.{Act, State, Outcome, Raised, returned, raised, read_rows, go_on}
use agent_farm_runtime.Farmkit.Runner.{Outside}
use agent_farm_runtime.Farmkit.Runner.Tick.{open_steps, first_step, round, rounds}

data In (s : StepSpec) : List StepSpec → Type 0 where
  head : {x : StepSpec} {xs : List StepSpec} → x ≡ s → In s (x ∷ xs)
  tail : {x : StepSpec} {xs : List StepSpec} → In s xs → In s (x ∷ xs)

In-kept :
    (p : StepSpec → Bool) (s x : StepSpec) (xs ks : List StepSpec) (b : Bool)
    → p x ≡ b
    → (In s ks → In s xs × (p s ≡ true))
    → In s (elim b [ true ↦ x ∷ ks | false ↦ ks ])
    → In s (x ∷ xs) × (p s ≡ true)
In-kept p s x xs ks true e h (head q) = (head q, rw (← q) e)
In-kept p s x xs ks true e h (tail k) = let (i, j) = h k in (tail i, j)
In-kept p s x xs ks false e h k = let (i, j) = h k in (tail i, j)

In-keep :
    (p : StepSpec → Bool) (s : StepSpec) (xs : List StepSpec)
    → In s (keep p xs)
    → In s xs × (p s ≡ true)
unfolding keep
In-keep p s [] h = elim h [ ]
In-keep p s (x ∷ xs) h = In-kept p s x xs (keep p xs) (p x) refl (In-keep p s xs) h

first_step-In : (s : StepSpec) (xs : List StepSpec) → first_step xs ≡ some s → In s xs
first_step-In s [] h = absurd (cc)
first_step-In s (x ∷ xs) h = head (cc)

-- Fewer steps pass a test that implies another and that a step fails which passes the other.
keep-le :
    (p q : StepSpec → Bool) (xs : List StepSpec)
    → ((x : StepSpec) → q x ≡ true → p x ≡ true)
    → length (keep q xs) ≤ length (keep p xs)
unfolding keep
keep-le p q [] h = omega arith
keep-le p q (x ∷ xs) h = ground (arith, h x, keep-le p q xs h)

keep-lt :
    (p q : StepSpec → Bool) (s : StepSpec) (xs : List StepSpec)
    → ((x : StepSpec) → q x ≡ true → p x ≡ true)
    → p s ≡ true
    → q s ≡ false
    → In s xs
    → length (keep q xs) < length (keep p xs)
unfolding keep
keep-lt p q s [] h a b i = elim i [ ]
keep-lt p q s (x ∷ xs) h a b (head e) =
    let a' : p x ≡ true = rw e a in
    let b' : q x ≡ false = rw e b in ground (arith, keep-le p q xs h)
keep-lt p q s (x ∷ xs) h a b (tail i) = ground (arith, h x, keep-lt p q s xs h a b i)

keep-le-length : (p : StepSpec → Bool) (xs : List StepSpec) → length (keep p xs) ≤ length xs
unfolding keep
keep-le-length p [] = omega arith
keep-le-length p (x ∷ xs) = ground (arith, keep-le-length p xs)

module _ (out : Outside) (specs : List StepSpec) where
  abbrev waiting : List String → StepSpec → Bool
  waiting done s = not (contains done s.id)

  -- The steps that were not attempted in this tick
  unfoldable pub pending : List String → ℕ
  unfolding keep contains
  pending done = length (keep (waiting done) specs)

  after_round :
      (done : List String) (s x : StepSpec)
      → waiting (done ++ s.id ∷ []) x ≡ true
      → waiting done x ≡ true
  after_round done s x h = ground (arith, contains-append done (s.id ∷ []) x.id)

  attempted : (done : List String) (s : StepSpec) → waiting (done ++ s.id ∷ []) s ≡ false
  attempted done s = ap not (contains-last done s.id)

  pending-lt :
      (rows : List Attempt) (done : List String) (s : StepSpec)
      → first_step (open_steps specs rows done) ≡ some s
      → pending (done ++ s.id ∷ []) < pending done
  unfolding pending open_steps ready
  pending-lt rows done s h =
      let (i, w) = In-keep (waiting done) s (ready specs rows) (first_step-In s _ h) in
      let (j, r) = In-keep (is_ready specs rows) s specs i in
      keep-lt (waiting done) (waiting (done ++ s.id ∷ [])) s specs (after_round done s) w
        (attempted done s) j

  pending-le : (done : List String) → pending done ≤ length specs
  unfolding pending
  pending-le done = keep-le-length (waiting done) specs

  -- Nothing is ready that was not attempted, or a launch raised.
  pub data Exhausted : Outcome (List String) → Type 0 where
    exhausted :
        {done : List String} {s : State}
        → open_steps specs (all_attempts s.ledger).1 done ≡ []
        → Exhausted (returned done s)
    stopped : {e : Raised} {s : State} → Exhausted (raised e s)

  module _ (launch_step : StepSpec → Act (Option Attempt)) where
    first_step-none : (xs : List StepSpec) → first_step xs ≡ none → xs ≡ []
    first_step-none [] h = refl
    first_step-none (x ∷ xs) h = absurd (cc)

    launched-Exhausted :
        (o : Outcome (Option Attempt)) (rest : List String → Act (List String)) (done : List String)
        → ((s : State) → Exhausted (rest done s))
        → Exhausted (go_on o (λ _. rest done))
    launched-Exhausted (returned a s) rest done h = h s
    launched-Exhausted (raised e s) rest done h = stopped

    round-Exhausted :
        (n : ℕ) (done : List String) (s : State) (o : Option StepSpec)
        → first_step (open_steps specs (all_attempts s.ledger).1 done) ≡ o
        → pending done ≤ n
        → ((d : List String) (t : State)
            → pending d < n
            → Exhausted (rounds out specs launch_step n d t))
        → Exhausted (round out specs launch_step (rounds out specs launch_step n) done o s)
    round-Exhausted n done s none e m ih = exhausted (first_step-none _ e)
    round-Exhausted n done s (some spec) e m ih =
        launched-Exhausted (launch_step spec s) (rounds out specs launch_step n)
          (done ++ spec.id ∷ [])
          λ t. ih _ t (let l = pending-lt (all_attempts s.ledger).1 done spec e in omega arith)

    rounds-Exhausted :
        (n : ℕ) (done : List String) (s : State)
        → pending done < n
        → Exhausted (rounds out specs launch_step n done s)
    unfolding rounds read_rows all_attempts
    rounds-Exhausted zero done s h = absurd (omega arith)
    rounds-Exhausted (suc n) done s h =
        let (l, rows) = all_attempts s.ledger in
        round-Exhausted n done (record { ledger = l; done = s.done })
          (first_step (open_steps specs rows done)) refl (omega arith)
          (λ d t m. rounds-Exhausted n d t m)

    -- In the launches of a tick, each round either finds nothing ready that was not attempted in this
    -- tick, or launches a step that was not: the rounds that the code allows are enough to end with
    -- nothing left, whatever a launch does, unless a launch raises.
    pub tick_rounds-Exhausted :
        (done : List String) (s : State)
        → Exhausted (rounds out specs launch_step (length specs * 2 + 1) done s)
    tick_rounds-Exhausted done s =
        rounds-Exhausted (length specs * 2 + 1) done s (omega (arith, pending-le done))
