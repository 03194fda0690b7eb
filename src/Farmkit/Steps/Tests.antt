-- ===== src/Farmkit/Steps/Tests.antt =====
-- A step that was never attempted, and the theorem on the steps that may run.
use agent_farm_runtime.Prelude.{none, false, codes, [], ◌∷◌, All}
use agent_farm_runtime.Farmkit.Steps.{StepSpec, local, ready}
use agent_farm_runtime.Farmkit.Steps.Laws.{IsRunnable, ready-IsRunnable}

abbrev fit : StepSpec
fit = record {
  id = "fit";
  pool = "fit";
  group = none;
  after = [];
  segment = none;
  concurrency = none;
  kind = local;
  run = codes "python fit.py";
  env = [];
  inputs = [];
  outputs = codes "RUN.json" ∷ [];
  finite = [];
  gate = none;
  chain = codes "afterok";
  wait = codes "earliest";
  retry = λ cls. none;
  has_verifier = false;
}

ready-IsRunnable_example : All (IsRunnable (fit ∷ []) []) (ready (fit ∷ []) [])
ready-IsRunnable_example = ready-IsRunnable (fit ∷ []) []
