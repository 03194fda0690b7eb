-- ===== src/Farmkit/Verify/Tests.antt =====
-- An output of an attempt, and the theorem on the default checks there.
use agent_farm_runtime.Prelude.{◌≡◌, ◌↔◌, none, some, true, [], ◌∷◌, codes}
use agent_farm_runtime.Farmkit.Verify.{Artifacts, parsed, Code, default_checks}
use agent_farm_runtime.Farmkit.Verify.{Fields, obj, num, text, field, end}
use agent_farm_runtime.Farmkit.Verify.Laws.{Passes, default_checks-ok_iff}

abbrev fields : Fields
fields =
    field (codes "provenance") (obj (field (codes "attempt_id") (text (codes "a1")) end))
      (field (codes "loss") (num true) end)

abbrev outputs : Artifacts
outputs = (codes "RUN.json", parsed (obj fields)) ∷ []

abbrev ran : Code
ran = (codes "train.py", codes "0f") ∷ []

default_checks-ok_iff_example :
    ((default_checks
        (codes "a1")
        ran
        outputs
        (codes "RUN.json" ∷ [])
        (codes "loss" ∷ [])
        (some ran)
        none).ok
      ≡ true)
    ↔ Passes (codes "a1") ran outputs (codes "RUN.json" ∷ []) (codes "loss" ∷ []) (some ran) none
default_checks-ok_iff_example =
    default_checks-ok_iff (codes "a1") ran outputs (codes "RUN.json" ∷ []) (codes "loss" ∷ [])
      (some ran) none
