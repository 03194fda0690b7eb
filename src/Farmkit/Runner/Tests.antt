-- ===== src/Farmkit/Runner/Tests.antt =====
-- A runner with one local step, and the theorems on its parts there.
use agent_farm_runtime.Prelude.{
  values, keep, contains, suc, inl, lookup, All, ◌≡◌, refl, ◌+◌, ◌*◌, none, some, true, false,
  Option, List, [], ◌∷◌, ◌++◌, Chars, codes, arith, length, any, chars_eq, lstrip, rstrip,
  take_word, upper, is_space,
}
use agent_farm_runtime.Farmkit.Classify.{Verdict, failed_verdict, classify, normalized}
use agent_farm_runtime.Farmkit.Classify.Laws.{classify-none_iff}
use agent_farm_runtime.Farmkit.Ledger.{Attempt, new_record, state_of}
use agent_farm_runtime.Farmkit.Ledger.Laws.{IsCoherent}
use agent_farm_runtime.Farmkit.Steps.{StepSpec, local}
use agent_farm_runtime.Farmkit.Steps.Paths.{
  path_problems, output_problems, inputs_problems, relative_ok, relative_parts,
}
use agent_farm_runtime.Farmkit.Observe.{split_on}
use agent_farm_runtime.Farmkit.Runner.Checks.Published.{Returns, publish-Returns}
use agent_farm_runtime.Farmkit.Verify.{
  parsed, value, default_checks, check_required, check_main, check_gate, check_payload,
  check_finite, is_own, find, run_verifier,
}
use agent_farm_runtime.Farmkit.Verify.{obj, text, field, end, get}
use agent_farm_runtime.Farmkit.Act.{State, Act, returned}
use agent_farm_runtime.Farmkit.Act.Rules.{Since}
use agent_farm_runtime.Farmkit.Runner.{Outside}
use agent_farm_runtime.Farmkit.Runner.Checks.{
  publish, no_gate, verified, verdict_of, verify, gate_record, settle_inputs, artifacts_of,
}
use agent_farm_runtime.Farmkit.Runner.Checks.Laws.{
  IsInside, publish-Inside, state_of as state_after,
}
use agent_farm_runtime.Farmkit.Runner.Launch.{launch, judge}
use agent_farm_runtime.Farmkit.Act.Sound.{Coherent, Sound}
use agent_farm_runtime.Farmkit.Runner.Ids.{fresh_letters, lookup-fresh_letters}
use agent_farm_runtime.Farmkit.Runner.Launch.Retries.{budget_of}
use agent_farm_runtime.Farmkit.Runner.Launch.Termination.{launch-Sound}
use agent_farm_runtime.Farmkit.Act.Kept.{Kept}
use agent_farm_runtime.Farmkit.Runner.Budget.{tally, allowed}
use agent_farm_runtime.Farmkit.Runner.Bounded.{tick-Bounded}
use agent_farm_runtime.Farmkit.Runner.Bounded.Settled.{Leaves}
use agent_farm_runtime.Farmkit.Runner.Bounded.Writes.{Limit, Bounded}
use agent_farm_runtime.Farmkit.Runner.Bounded.Counts.{retries}
use agent_farm_runtime.Farmkit.Runner.Tick.Ends.{Covers, tick-Sound}
use agent_farm_runtime.Farmkit.Runner.Tick.{decide, rounds, tick}
use agent_farm_runtime.Farmkit.Runner.Tick.Decide.{Justified, decide-Justified}
use agent_farm_runtime.Farmkit.Runner.Tick.Rounds.{Exhausted, tick_rounds-Exhausted}

abbrev fit : StepSpec
fit = record {
  id = "fit";
  pool = "fit";
  group = none;
  after = [];
  segment = none;
  concurrency = none;
  kind = local;
  run = codes "python fit.py";
  env = [];
  inputs = [];
  outputs = codes "R" ∷ [];
  finite = [];
  gate = none;
  chain = codes "afterok";
  wait = codes "earliest";
  retry = λ cls. none;
  has_verifier = false;
}

abbrev workspace : List Chars
workspace = codes "/" ∷ codes "w" ∷ []

abbrev outside : Outside
outside = record {
  env = record { clock = λ es. 7; run = λ es argv. none };
  fresh_id = λ s. "a1";
  stamp = λ es. "2026-01-01";
  task_id = none;
  workspace = workspace;
  workspace_text = codes "/w";
  root = codes "/w/attempts";
  snapshot = λ es s. [];
  describe = λ es r. [];
  in_run_dir = λ es r name. parsed (
      obj (
        field (codes "provenance") (obj (field (codes "attempt_id") (text (codes "a1")) end)) end));
  in_workspace = λ es name. parsed (obj end);
  verifier = λ es r s. value true;
  target = λ es r name. record {
    source_exists = true;
    resolved = workspace ++ name ∷ [];
    same = false;
    replaces = true;
  };
  run_local = λ es s. some 0;
  observed = λ es ids j. none;
  accounting = none;
  barrier_partition = none;
  barrier_time = codes "0:05:00";
}

abbrev ended : Attempt
ended = record (new_record "a1" "fit" 1 "2026-01-01") {
  run_dir = some (codes "/w/attempts/a1/code");
  exit_code = some 0;
  observed = some (some (codes "COMPLETED"));
}

abbrev empty : State
empty = record { ledger = record { files = []; cache = none }; done = [] }

decide-Justified_example :
    Justified outside (fit ∷ []) (ended ∷ []) (decide outside (fit ∷ []) (ended ∷ []))
decide-Justified_example = decide-Justified outside (fit ∷ []) (ended ∷ [])

abbrev launch_fit : StepSpec → Act (Option Attempt)
launch_fit s = launch outside s 1

tick_rounds-Exhausted_example :
    Exhausted outside
      (fit ∷ [])
      (rounds outside (fit ∷ []) launch_fit (length (fit ∷ []) * 2 + 1) [] empty)
tick_rounds-Exhausted_example = tick_rounds-Exhausted outside (fit ∷ []) launch_fit [] empty

publish-Inside_example :
    Since (IsInside outside ended) [] (state_after (publish outside ended fit empty)).done
publish-Inside_example = publish-Inside outside ended fit empty

abbrev verdict : Verdict
verdict = verdict_of outside [] ended fit no_gate

judged :
    judge outside fit (launch outside fit 1) ended empty
    ≡ returned (some verdict, (verified outside ended fit no_gate empty).1) empty
unfolding judge normalized lstrip rstrip take_word upper is_space any verify gate_record
judged = ground arith

passes : verdict.ok ≡ true
unfolding verdict_of default_checks check_required check_main check_gate check_payload check_finite
    is_own get find run_verifier settle_inputs artifacts_of
passes = ground arith

-- A verdict that passes is no failure.
no_failure : (v : Verdict) → v.ok ≡ true → failed_verdict (some v) ≡ none
no_failure v h = ground arith

is_completed : normalized (state_of ended) ≡ codes "COMPLETED"
unfolding normalized lstrip rstrip take_word upper is_space any
is_completed = refl

no_class : classify (state_of ended) (some verdict) true ended.exit_code ≡ none
no_class = (classify-none_iff (state_of ended) (some verdict) true ended.exit_code).1 (record {
  completed = is_completed;
  exit = refl;
  output = refl;
  verified = no_failure verdict passes;
})

-- A runner whose ids are new
abbrev drawing : Outside
drawing = record outside { fresh_id = λ s. fresh_letters s.ledger.files }

fresh : (s : State) → lookup (drawing.fresh_id s) s.ledger.files ≡ none
fresh s = lookup-fresh_letters s.ledger.files

coherent : Coherent empty
unfolding IsCoherent
coherent = inl refl

covers : All (Covers 2) (fit ∷ [])
unfolding budget_of
covers = (omega arith, tt)

tick-Sound_example : Sound (tick drawing (fit ∷ []) 2 empty)
tick-Sound_example = tick-Sound drawing (fit ∷ []) 2 fresh covers empty coherent

launch-Sound_example : Sound (launch drawing fit (suc (budget_of fit)) empty)
launch-Sound_example = launch-Sound drawing fit fresh empty coherent

-- The limit of each step and class, and a ledger in which nothing was retried yet
abbrev limit : Limit
limit step c = allowed fit c

unused : Bounded limit empty
unfolding retries tally values
unused = record { coherent = coherent; within = λ step c. omega arith; sane = tt }

leaves : All (Leaves limit) (fit ∷ [])
leaves = ((λ c. omega arith), tt)

tick-Bounded_example : Kept (Bounded limit) (tick drawing (fit ∷ []) 2 empty)
tick-Bounded_example = tick-Bounded limit drawing (fit ∷ []) 2 leaves empty unused

-- A step with an output, in a workspace without symbolic links
abbrev reporting : StepSpec
reporting = record fit { outputs = codes "RUN.json" ∷ [] }

abbrev plain : Outside
plain = record outside {
  target = λ es r name. record {
    source_exists = true;
    resolved = workspace ++ relative_parts name;
    same = false;
    replaces = true;
  };
}

no_problems : path_problems reporting ≡ some []
unfolding path_problems output_problems inputs_problems relative_ok relative_parts contains split_on
    keep
no_problems = ground arith

publish-Returns_example :
    Returns plain ended (codes "RUN.json" ∷ []) empty (publish plain ended reporting empty)
publish-Returns_example =
    publish-Returns plain ended (λ d name. refl) (λ d name. refl) reporting no_problems refl empty
