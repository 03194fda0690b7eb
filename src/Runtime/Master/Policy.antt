-- ===== src/Runtime/Master/Policy.antt =====
-- `record_decision` of src/agent_farm_runtime/master.py does what its action allows, and nothing else.
use agent_farm_runtime.Runtime.World.Policy.{Policy}
use agent_farm_runtime.Prelude.{lookup, List, ◌≡◌, ℕ, String, Option, some, string_eq, nat_eq}
use agent_farm_runtime.Runtime.Equality.{state_eq}
use agent_farm_runtime.Runtime.Metadata.{MasterDecision}
use agent_farm_runtime.Runtime.Models.{Task}
use agent_farm_runtime.Runtime.World.{World, Effect, after}
use agent_farm_runtime.Runtime.Files.{Files}
use agent_farm_runtime.Runtime.Store.{Outside}
use agent_farm_runtime.Runtime.Master.{record_decision}
use agent_farm_runtime.Runtime.Master.Decisions.{IsRecorded}

-- What a decision on a task may do, at the world in which it begins: commit a change of the task in
-- the files that its action allows, with the decision recorded; it makes no call of the executor.
abbrev pub decision_policy : String → String → World → Policy
decision_policy task_id action w = record {
  prepares = λ txn.
      (b : Task) × (m : MasterDecision) × (lookup task_id w.disk.tasks ≡ some b)
      × (txn.before ≡ some b)
      × IsRecorded b txn.after action m;
  launches = λ w t l. ⊥;
  resumes = λ w t id l. ⊥;
  stops = λ id. ⊥;
}

module _ (out : Outside) (files : Files) (task_id : String) (revision : ℕ)
    (action evidence_file actor : String) (outcome file : Option String) (w : World) where
  abbrev pub decision_effects : List Effect
  decision_effects =
      (record_decision out files task_id revision action evidence_file actor outcome file w).1
