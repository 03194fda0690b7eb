-- ===== src/Farmkit/Intent/Accounting.antt =====
-- What `reconcile_all` of src/farmkit/intent.py leaves in the ledger.
use mathlib.Core.List.{Mem}
use mathlib.Core.Logic.Or
use agent_farm_runtime.Prelude.{
  ◌++◌, codes, ◌≡◌, ◌≢◌, String, none, some, true, List, [], ◌∷◌, map, Chars,
}
use agent_farm_runtime.Farmkit.Ledger.{Attempt, submitted, is_open}
use agent_farm_runtime.Farmkit.Act.{Event, wrote, State, Outcome, returned}
use agent_farm_runtime.Farmkit.Act.Rules.{Since}
use agent_farm_runtime.Farmkit.Intent.{Lookup, comment, Reconciled}

-- `r'` is `r` but for its submission, its wait reference and the time of the write.
abbrev pub SameBut : Attempt → Attempt → Type 0
SameBut r r' = r' ≡ record r { submit = r'.submit; wait = r'.wait; updated_ts = r'.updated_ts }

-- An attempt of the ledger that was open is written again, by what the accounting said of its
-- comment: it has a job exactly if one row carries the comment, and that job; else it stays open.
pub data IsResolution (rows : List Attempt) (lookup_jobs : Lookup) : Event → Type 0 where
  found :
      (s : State) (r r' : Attempt) (j : Chars)
      → Mem r rows
      → is_open r.submit ≡ true
      → SameBut r r'
      → lookup_jobs s (comment r.attempt_id) ≡ some (j ∷ [])
      → r'.submit ≡ some (record { status = submitted; job_id = some j; error = none })
      → r'.wait ≡ some (codes "job:" ++ j)
      → IsResolution rows lookup_jobs (wrote r')
  still_open :
      (s : State) (r r' : Attempt)
      → Mem r rows
      → is_open r.submit ≡ true
      → SameBut r r'
      → ((j : Chars) → lookup_jobs s (comment r.attempt_id) ≢ some (j ∷ []))
      → is_open r'.submit ≡ true
      → r'.wait ≡ r.wait
      → IsResolution rows lookup_jobs (wrote r')

-- An action that returns, whose writes are all resolutions.
pub record Resolves (rows : List Attempt) (lookup_jobs : Lookup) {A : Type 0} (s : State)
    (o : Outcome A) : Type 0 where
  pub value : A
  pub final : State
  pub returns : o ≡ returned value final
  pub writes : Since (IsResolution rows lookup_jobs) s.done final.done

abbrev ids : List (String × Reconciled) → List String
ids given = map (λ (p : String × Reconciled). p.0) given
