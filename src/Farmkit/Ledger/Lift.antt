-- ===== src/Farmkit/Ledger/Lift.antt =====
-- `Ledger.release`: what the owner's ruling does to a parked failure.
use agent_farm_runtime.Prelude.{
  ℕ, String, Option, none, some, false, not, Chars, is_set, strip, lstrip, rstrip, string_eq,
  if◌then◌else◌,
}
use agent_farm_runtime.Farmkit.Ledger.{Attempt, Failure, Ledger, all_attempts, latest, save}

pub data ReleaseError : Type 0 where
  not_parked no_ruling : ReleaseError

abbrev pub lifted : ℕ → Chars → Attempt → Failure → Attempt
lifted now ruling a f = record a {
  failure =
      some (record f { parked = false; released = some (record { ts = now; ruling = ruling }) });
}

pub data Released : Type 0 where
  refused : ReleaseError → Released
  released_to : Attempt → Ledger → Released

abbrev pub release_failed : ℕ → Chars → Ledger → Attempt → Option Failure → Released
release_failed now ruling l a none = refused not_parked
release_failed now ruling l a (some f) =
    if not f.parked
    then refused not_parked
    else if not (is_set (strip ruling))
    then refused no_ruling
    else released_to (lifted now (strip ruling) a f) (save now (lifted now (strip ruling) a f) l)

abbrev pub release_row : ℕ → Chars → Ledger → Option Attempt → Released
release_row now ruling l none = refused not_parked
release_row now ruling l (some a) = release_failed now ruling l a a.failure

-- `release`
unfoldable pub release : ℕ → String → Chars → Ledger → Released
unfolding all_attempts latest save lstrip rstrip
release now step ruling l =
    let (read, rows) = all_attempts l in release_row now ruling read (latest step rows)
