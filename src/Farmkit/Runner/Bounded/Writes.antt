-- ===== src/Farmkit/Runner/Bounded/Writes.antt =====
-- Records that are no automatic retries, and a publication.
use agent_farm_runtime.Prelude.{
  All, values, false, sym, ◌≡◌, refl, ℕ, ◌+◌, ◌≤◌, String, ◌∷◌, put, arith,
}
use agent_farm_runtime.Farmkit.Classify.{FailureClass}
use agent_farm_runtime.Farmkit.Ledger.{Attempt, save, all_attempts}
use agent_farm_runtime.Farmkit.Ledger.Laws.{save-IsCoherent, all_attempts-Reads}
use agent_farm_runtime.Farmkit.Steps.{StepSpec}
use agent_farm_runtime.Farmkit.Act.{State, Event, store}
use agent_farm_runtime.Farmkit.Act.Rules.{stamped, stored}
use agent_farm_runtime.Farmkit.Act.Sound.{Coherent}
use agent_farm_runtime.Farmkit.Act.Kept.{Kept, gives, breaks}
use agent_farm_runtime.Farmkit.Runner.{Outside}
use agent_farm_runtime.Farmkit.Act.Logic.{keeping}
use agent_farm_runtime.Farmkit.Runner.Checks.Walk.{publish-Keeps}
use agent_farm_runtime.Farmkit.Runner.Checks.{publish}
use agent_farm_runtime.Farmkit.Runner.Bounded.Counts.{
  retried_as, retries, retries-put, is_retried, uncounted,
}
use agent_farm_runtime.Farmkit.Runner.Bounded.Records.{Sane, All-values-put, All-read_all}
use agent_farm_runtime.Farmkit.Runner.Launch.Retries.{on_step}
use mathlib.Core.Path.{subst}

abbrev pub Limit : Type 0
Limit = String → FailureClass → ℕ

-- The cache agrees with the files; of each step and class, the automatic retries are at most a
-- limit; and every record is one that the runner writes.
pub record Bounded (limit : Limit) (s : State) : Type 0 where
  pub coherent : Coherent s
  pub within : (step : String) (c : FailureClass) → retries step c s.ledger.files ≤ limit step c
  pub sane : All Sane (values s.ledger.files)

module _ (limit : Limit) where
  pub same_files-Bounded :
      (s t : State)
      → t.ledger.files ≡ s.ledger.files
      → Coherent t
      → Bounded limit s
      → Bounded limit t
  same_files-Bounded s t f c b = record {
    coherent = c;
    within = λ step d. rw f (b.within step d);
    sane = rw f b.sane;
  }

  pub put-Bounded :
      (k : String) (v : Attempt) (s t : State)
      → t.ledger.files ≡ put k v s.ledger.files
      → Coherent t
      → Sane v
      → ((step : String) (c : FailureClass)
          → on_step step (retried_as c) v + retries step c s.ledger.files ≤ limit step c)
      → Bounded limit s
      → Bounded limit t
  put-Bounded k v s t f c q h b = record {
    coherent = c;
    within = λ step d. rw f (omega (arith, h step d, retries-put step d k v s.ledger.files));
    sane = rw f (All-values-put Sane k v s.ledger.files q b.sane);
  }

  pub read-Bounded :
      (s : State)
      → Bounded limit s
      → Bounded limit (record { ledger = (all_attempts s.ledger).0; done = s.done })
  read-Bounded s b =
      let k = all_attempts-Reads s.ledger b.coherent in same_files-Bounded s _ k.kept k.coherent b

  -- What a read gives is what the files hold.
  pub rows-Sane : (s : State) → Bounded limit s → All Sane (all_attempts s.ledger).1
  rows-Sane s b =
      subst (All Sane) (sym (all_attempts-Reads s.ledger b.coherent).rows)
        (All-read_all Sane s.ledger b.sane)

  pub noted-Bounded :
      (e : Event) (s : State)
      → Bounded limit s
      → Bounded limit (record { ledger = s.ledger; done = e ∷ s.done })
  noted-Bounded e s b = same_files-Bounded s _ refl b.coherent b

module _ (limit : Limit) (out : Outside) where
  stored-files :
      (r : Attempt) (s : State)
      → (stored out.env r s).ledger.files ≡ put r.attempt_id (stamped out.env r s) s.ledger.files
  unfolding save all_attempts
  stored-files r s = refl

  stamped-Sane : (r : Attempt) (s : State) → Sane r → Sane (stamped out.env r s)
  stamped-Sane r s q = record { ended = q.ended; closed = q.closed }

  pub stored-Bounded :
      (r : Attempt) (s : State)
      → is_retried r ≡ false
      → Sane r
      → Bounded limit s
      → Bounded limit (stored out.env r s)
  stored-Bounded r s n q b =
      put-Bounded limit r.attempt_id (stamped out.env r s) s (stored out.env r s) (stored-files r s)
        (save-IsCoherent (out.env.clock s.done) r s.ledger) (stamped-Sane r s q)
        (λ step c. omega (arith, uncounted step c (stamped out.env r s) n, b.within step c)) b

  pub store-Kept :
      (r : Attempt) (s : State)
      → is_retried r ≡ false
      → Sane r
      → Bounded limit s
      → Kept (Bounded limit) (store out.env r s)
  unfolding store
  store-Kept r s n q b = gives (stored-Bounded r s n q b)

  -- A record that is written, and written again with its evidence
  pub written_twice-Bounded :
      (r : Attempt) (s : State)
      → is_retried r ≡ false
      → Sane r
      → Bounded limit s
      → Bounded limit (stored out.env (stamped out.env r s) (stored out.env r s))
  written_twice-Bounded r s n q b =
      stored-Bounded (stamped out.env r s) (stored out.env r s) n (stamped-Sane r s q)
        (stored-Bounded r s n q b)

  pub publish-Kept :
      (spec : StepSpec) (r : Attempt) (s : State)
      → Bounded limit s
      → Kept (Bounded limit) (publish out r spec s)
  publish-Kept = publish-Keeps (keeping (Bounded limit)) out (noted-Bounded limit) (λ s b. breaks b)
