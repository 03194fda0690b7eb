-- ===== src/Farmkit/Ledger/Tests.antt =====
-- A parked attempt, and the theorems on the ledger there.
use agent_farm_runtime.Prelude.{
  ◌≡◌, refl, String, none, some, true, false, not, [], ◌∷◌, codes, lookup, ◌==◌, string_eq,
  if◌then◌else◌, values, keep, lstrip, rstrip, string_dec,
}
use agent_farm_runtime.Farmkit.Classify.{code}
use agent_farm_runtime.Farmkit.Ledger.{
  Attempt, Ledger, submitted, is_in_flight, is_unfinalized, is_open, all_attempts, save, read_all,
  sort, insert, latest, by_step, last_of, Failure,
}
use agent_farm_runtime.Farmkit.Ledger.Lift.{lifted, release, released_to}
use agent_farm_runtime.Farmkit.Ledger.Laws.{
  Reads, save-Reads, is_in_flight-is_unfinalized, Lifted, release-Lifted,
}

abbrev running : Attempt
running = record {
  attempt_id = "a1";
  step = "fit";
  n = 1;
  code = [];
  run_dir = none;
  inputs = [];
  submit = some (record { status = submitted; job_id = some (codes "12"); error = none });
  wait = some (codes "job:12");
  observed = none;
  verdict = none;
  failure = none;
  budget = record { cls = none; max_auto = 0; used = 0; prior_used = none };
  exit_code = none;
  created_ts = some "2026-01-01";
  updated_ts = none;
}

abbrev crash : Failure
crash = record { cls = code; parked = true; retried = false; released = none; ruling = none }

abbrev stopped : Attempt
stopped = record running { failure = some crash }

abbrev ledger : Ledger
ledger = record { files = ("a1", stopped) ∷ []; cache = none }

save-Reads_example :
    Reads (save 9 running ledger)
    × ((id : String)
        → lookup id (save 9 running ledger).files ≡ (
            if "a1" == id
            then some (record running { updated_ts = some 9 })
            else lookup id ledger.files))
save-Reads_example = save-Reads 9 running ledger

is_in_flight-is_unfinalized_example :
    (is_in_flight running ≡ not (is_unfinalized running)) × (is_open running.submit ≡ false)
is_in_flight-is_unfinalized_example = is_in_flight-is_unfinalized running refl refl refl

abbrev lifted_attempt : Attempt
lifted_attempt = lifted 9 (codes "rerun") stopped crash

releases :
    release 9 "fit" (codes "rerun ") ledger
    ≡ released_to lifted_attempt (save 9 lifted_attempt (all_attempts ledger).0)
unfolding release all_attempts read_all sort insert values latest by_step last_of keep rstrip lstrip
    string_dec
releases = refl

release-Lifted_example :
    Lifted 9 "fit"
      (codes "rerun ")
      ledger
      (save 9 lifted_attempt (all_attempts ledger).0)
      lifted_attempt
release-Lifted_example =
    release-Lifted 9 "fit" (codes "rerun ") ledger (save 9 lifted_attempt (all_attempts ledger).0)
      lifted_attempt releases
