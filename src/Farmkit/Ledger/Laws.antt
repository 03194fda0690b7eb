-- ===== src/Farmkit/Ledger/Laws.antt =====
-- The ledger of attempts: its cache, its queries, and the release of a parked failure.
use agent_farm_runtime.Prelude.{
  ◌≡◌, refl, sym, ◌⊎◌, inl, inr, ℕ, String, Option, none, some, true, false, not, arith, Bool-cases,
  lookup, lookup-put, Chars, is_set, strip, ◌==◌, string_eq, if◌then◌else◌,
}
use agent_farm_runtime.Farmkit.Ledger.{
  Attempt, Failure, Ledger, read_all, all_attempts, save, latest, is_open, has_job, is_unfinalized,
  is_in_flight, is_parked,
}
use agent_farm_runtime.Farmkit.Ledger.Lift.{
  lifted, released_to, release_row, release_failed, release,
}

-- The cache is empty, or what the files hold.
unfoldable pub IsCoherent : Ledger → Type 0
IsCoherent l = (l.cache ≡ none) ⊎ (l.cache ≡ some (read_all l))

-- What a read of the ledger gives, and leaves.
pub record Reads (l : Ledger) : Type 0 where
  pub rows : (all_attempts l).1 ≡ read_all l
  pub coherent : IsCoherent (all_attempts l).0
  pub kept : (all_attempts l).0.files ≡ l.files

pub all_attempts-Reads : (l : Ledger) → IsCoherent l → Reads l
unfolding all_attempts IsCoherent read_all
all_attempts-Reads l (inl e) = record { rows = rw e refl; coherent = inr (rw e refl); kept = refl }
all_attempts-Reads l (inr e) = record { rows = rw e refl; coherent = inr (rw e refl); kept = refl }

pub save-IsCoherent : (now : ℕ) (a : Attempt) (l : Ledger) → IsCoherent (save now a l)
unfolding save all_attempts IsCoherent read_all
save-IsCoherent now a l = inr refl

-- A record that was saved is in its file, the other files are as before, and the next `all` reads
-- the files, whatever the cache held before.
pub save-Reads :
    (now : ℕ) (a : Attempt) (l : Ledger)
    → Reads (save now a l)
      × ((id : String)
          → lookup id (save now a l).files ≡ (
              if a.attempt_id == id
              then some (record a { updated_ts = some now })
              else lookup id l.files))
unfolding save all_attempts
save-Reads now a l = (
  all_attempts-Reads (save now a l) (save-IsCoherent now a l),
  λ id. lookup-put a.attempt_id id (record a { updated_ts = some now }) l.files,
)

-- No attempt is lost, and none is taken twice: one that has a job and neither a verdict nor a
-- failure is either in flight or unfinalized, not both, and is not an intent whose job is unknown.
pub is_in_flight-is_unfinalized :
    (r : Attempt)
    → has_job r.submit ≡ true
    → r.verdict ≡ none
    → r.failure ≡ none
    → (is_in_flight r ≡ not (is_unfinalized r)) × (is_open r.submit ≡ false)
unfolding is_in_flight is_unfinalized
is_in_flight-is_unfinalized r h v f = (ground arith, ground arith)

read_files : (l : Ledger) → (all_attempts l).0.files ≡ l.files
unfolding all_attempts
read_files l = refl

-- What a release that succeeded did to the latest attempt of the step, which was parked.
pub record Lifted (now : ℕ) (step : String) (ruling : Chars) (l l' : Ledger) (a : Attempt)
    : Type 0 where
  pub old : Attempt
  pub failure : Failure
  pub was : latest step (all_attempts l).1 ≡ some old
  pub failed : old.failure ≡ some failure
  pub parked : failure.parked ≡ true
  pub decided : is_set (strip ruling) ≡ true
  pub lifted : is_parked a ≡ false
  -- The failure keeps its class, and all else but the park and the release.
  pub released : Failure
  pub kept : a ≡ record old { failure = some released }
  pub cls : released.cls ≡ failure.cls
  pub retried : released.retried ≡ failure.retried
  pub asked : released.ruling ≡ failure.ruling
  pub unparked : released.parked ≡ false
  pub by_ruling : released.released ≡ some (record { ts = now; ruling = strip ruling })
  -- The attempt is in its file, and no other file has changed.
  pub files :
      (id : String)
      → lookup id l'.files ≡ (
          if old.attempt_id == id
          then some (record a { updated_ts = some now })
          else lookup id l.files)
  pub reads : Reads l'

attempt-injective : {a b : Attempt} {l k : Ledger} → released_to a l ≡ released_to b k → a ≡ b
attempt-injective h = cc

ledger-injective : {a b : Attempt} {l k : Ledger} → released_to a l ≡ released_to b k → l ≡ k
ledger-injective h = cc

module _ (now : ℕ) (step : String) (ruling : Chars) (l l' : Ledger) (a : Attempt) where
  -- A read leaves the files, and then the record is put into its own.
  saved_files :
      (b : Attempt) (id : String)
      → lookup id (save now b (all_attempts l).0).files ≡ (
          if b.attempt_id == id
          then some (record b { updated_ts = some now })
          else lookup id l.files)
  saved_files b id = rw (read_files l) at (save-Reads now b (all_attempts l).0).1 id

  released-Lifted :
      (old : Attempt) (f : Failure)
      → latest step (all_attempts l).1 ≡ some old
      → old.failure ≡ some f
      → f.parked ≡ true
      → is_set (strip ruling) ≡ true
      → a ≡ lifted now (strip ruling) old f
      → l' ≡ save now (lifted now (strip ruling) old f) (all_attempts l).0
      → Lifted now step ruling l l' a
  released-Lifted old f e k p d q r = record {
    old = old;
    failure = f;
    was = e;
    failed = k;
    parked = p;
    decided = d;
    lifted = rw q refl;
    released = _;
    kept = q;
    cls = refl;
    retried = refl;
    asked = refl;
    unparked = refl;
    by_ruling = refl;
    files = rw (r, q) (saved_files (lifted now (strip ruling) old f));
    reads = rw r (
        all_attempts-Reads _
          (save-IsCoherent now (lifted now (strip ruling) old f) (all_attempts l).0));
  }

  failed-Lifted :
      (old : Attempt) (o : Option Failure)
      → latest step (all_attempts l).1 ≡ some old
      → old.failure ≡ o
      → release_failed now ruling (all_attempts l).0 old o ≡ released_to a l'
      → Lifted now step ruling l l' a
  failed-Lifted old none e k h = absurd (cc)
  failed-Lifted old (some f) e k h = elim (Bool-cases f.parked) [
    | inr p ↦ let q = rw p at h in absurd (cc)
    | inl p ↦ elim (Bool-cases (is_set (strip ruling))) [
      | inr d ↦ let q = rw (p, d) at h in absurd (cc)
      | inl d ↦
          let q = rw (p, d) at h in
          released-Lifted old f e k p d (sym (attempt-injective q)) (sym (ledger-injective q))
    ]
  ]

  row-Lifted :
      (o : Option Attempt)
      → latest step (all_attempts l).1 ≡ o
      → release_row now ruling (all_attempts l).0 o ≡ released_to a l'
      → Lifted now step ruling l l' a
  row-Lifted none e h = absurd (cc)
  row-Lifted (some old) e h = failed-Lifted old old.failure e refl h

  -- A release that succeeds lifts the latest attempt of its step, which was parked, by a ruling that
  -- is not blank: the failure stays, with its class and the ruling it asked for, but is no longer
  -- parked and names the time and the ruling of the release, the rest of the attempt is as it was,
  -- and the attempt is in its file, the other files are unchanged and the next `all` reads them.
  pub release-Lifted : release now step ruling l ≡ released_to a l' → Lifted now step ruling l l' a
  unfolding release
  release-Lifted h = row-Lifted (latest step (all_attempts l).1) refl h
