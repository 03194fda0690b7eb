-- ===== src/Runtime/Master/Tests.antt =====
-- The acceptance of a SUBMITTED task, and the theorem on decisions there.
use agent_farm_runtime.Prelude.{none, some, codes, List}
use agent_farm_runtime.Runtime.Result.{ok}
use agent_farm_runtime.Runtime.World.{Effect}
use agent_farm_runtime.Runtime.Files.{Files}
use agent_farm_runtime.Runtime.Master.{record_decision}
use agent_farm_runtime.Runtime.Tests.{out, world}

abbrev evidence_files : Files
evidence_files = record {
  read = λ w path. ok (path, codes "checked by hand");
  notes = λ w path. none;
  decode = λ raw. some "checked by hand";
  encode = λ text. codes text;
  sha256 = λ raw. "5a";
}

abbrev acceptance : List Effect
acceptance =
    (record_decision out evidence_files "T-1" 4 "accept" "/work/a/check.md" "master" none none
      world).1
