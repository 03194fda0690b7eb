-- ===== src/Runtime/Master.antt =====
-- `record_decision` of src/agent_farm_runtime/master.py: the decisions of the master.
pub mod Decisions
pub mod Policy
mod Tests
use agent_farm_runtime.Prelude.{
  ℕ, String, Option, none, some, Bool, true, false, not, ◌&&◌, ◌||◌, [], ◌∷◌, ◌++◌, length, ◌==◌,
  ◌!=◌, nat_eq, string_eq, nonempty, not_blank, contains, if◌then◌else◌,
}
use agent_farm_runtime.Runtime.Equality.{state_eq}
use agent_farm_runtime.Runtime.Metadata.{
  null, value, get_or, present, text_set, iso, Snapshot, Decided, plain, accepted_contract,
  replaced_contract, MasterDecision, decision, Metadata, no_metadata, update,
}
use agent_farm_runtime.Runtime.Models.{TaskState, Task, decided}
use agent_farm_runtime.Runtime.Result.{
  revision_changed, nameless_actor, accept_refused, bad_outcome, amend_refused, no_acceptance_file,
  hold_needs_release, decision_refused, decision_pending, unknown_decision,
}
use agent_farm_runtime.Runtime.Transitions.{transition_task, assign, unchanged}
use agent_farm_runtime.Runtime.World.{Act, pure, raise, lift, gets, guard, ◌>>=◌, ◌>>◌}
use agent_farm_runtime.Runtime.Files.{Files, snapshot_file}
use agent_farm_runtime.Runtime.Store.{Outside, get_task, commit}
use agent_farm_runtime.Runtime.Rotation.{clean_surrender, has_lease}

-- A decision that is ready to be committed
pub record Ready : Type 0 where
  pub updated : Task
  pub event : String
  pub record_made : MasterDecision

abbrev pub with_decided : MasterDecision → Decided → MasterDecision
with_decided r d = record r { decided = d }

-- `[*task.metadata.get("master_decisions", []), record]`, with the record as it is in the end
abbrev pub decision_patch : Task → MasterDecision → Metadata
decision_patch task r = record no_metadata {
  master_decisions = value (get_or task.metadata.master_decisions [] ++ r ∷ []);
}

abbrev pub or_accepted : Option String → String
or_accepted none = "accepted"
or_accepted (some outcome) = outcome

abbrev pub patched : Task → Metadata → Task
patched task patch = record task { metadata = update task.metadata patch }

abbrev pub accept_patch : Task → MasterDecision → String → Metadata
accept_patch task made label = record (decision_patch task made) {
  acceptance_receipt = value (decision made);
  outcome = value label;
}

abbrev pub release_patch : Task → MasterDecision → Metadata
release_patch task r = record (decision_patch task r) {
  recovery_hold = null;
  latest_master_instruction = value r;
  resume_requested = null;
  automatic_restarts = value 0;
  restart_limit_reached = value false;
}

-- A recovery holds the task.
abbrev pub is_held : Task → Bool
is_held task = task.state == TaskState.blocked && present task.metadata.recovery_hold

module _ (out : Outside) (files : Files) where
  abbrev pub contract_of : Task → String → Decided
  contract_of task outcome =
      accepted_contract outcome task.acceptance
        (length (get_or task.metadata.contract_revisions []))
        (files.sha256 (files.encode task.acceptance))

  -- `action == "accept"`
  unfoldable pub accept : Task → MasterDecision → Option String → Act Ready
  unfolding transition_task
  accept task r outcome = do
    guard (task.state != TaskState.submitted || text_set task.metadata.rework_requested)
        accept_refused
    guard (not (not_blank (or_accepted outcome))) bad_outcome
    let made = with_decided r (contract_of task (or_accepted outcome))
    updated ← lift (
        transition_task task TaskState.done none true (accept_patch task made (or_accepted outcome))
          (assign none))
    pure (record { updated = updated; event = "ACCEPTED"; record_made = made })

  abbrev pub or_no_file : Option String → Act Snapshot
  or_no_file none = raise no_acceptance_file
  or_no_file (some path) =
      if nonempty path then snapshot_file files path else raise no_acceptance_file

  -- `action == "amend"`
  unfoldable pub amend : Task → MasterDecision → Option String → Act Ready
  unfolding contains snapshot_file
  amend task r acceptance_file = do
    guard
        (not (
          contains
            (TaskState.ready ∷ TaskState.waiting ∷ TaskState.submitted ∷ TaskState.blocked ∷ [])
            task.state))
        amend_refused
    replacement ← or_no_file acceptance_file
    let made = with_decided r (replaced_contract task.acceptance replacement)
    let patch = record (decision_patch task made) {
      contract_revisions = value (get_or task.metadata.contract_revisions [] ++ made ∷ []);
    }
    pure (record {
      updated = record (patched task patch) { acceptance = replacement.text };
      event = "CONTRACT_AMENDED";
      record_made = made;
    })

  -- A ruling on a task that a recovery holds
  unfoldable pub release_hold : Task → MasterDecision → Act Ready
  unfolding transition_task
  release_hold task r = do
    guard (has_lease task) hold_needs_release
    updated ←
        lift (transition_task task TaskState.ready none false (release_patch task r) unchanged)
    pure (record { updated = updated; event = "RECOVERY_RELEASED"; record_made = r })

  -- A ruling on a WAITING task
  unfoldable pub rule : Task → MasterDecision → Act Ready
  unfolding clean_surrender
  rule task r = do
    guard (task.state != TaskState.waiting || (not (has_lease task) && not (clean_surrender task)))
        decision_refused
    guard (text_set task.metadata.resume_requested) decision_pending
    pure (record {
      updated = patched task (record (decision_patch task r) {
        resume_requested = value r.evidence.sha256;
        latest_master_instruction = value r;
      });
      event = "RULING_RECORDED";
      record_made = r;
    })

  -- `action == "rework"`
  unfoldable pub rework : Task → MasterDecision → Act Ready
  rework task r = do
    guard (task.state != TaskState.submitted) decision_refused
    guard (text_set task.metadata.rework_requested) decision_pending
    pure (record {
      updated = patched task (record (decision_patch task r) {
        rework_requested = value r.evidence.sha256;
        latest_master_instruction = value r;
      });
      event = "REWORK_REQUESTED";
      record_made = r;
    })

  -- The branches on the action
  unfoldable pub decide : Task → String → MasterDecision → Option String → Option String → Act Ready
  unfolding accept amend release_hold rule rework
  decide task action r outcome acceptance_file =
      if action == "accept"
      then accept task r outcome
      else if action == "amend"
      then amend task r acceptance_file
      else if action == "ruling" && is_held task
      then release_hold task r
      else if action == "ruling"
      then rule task r
      else if action == "rework"
      then rework task r
      else raise unknown_decision

  abbrev pub plain_decision : Snapshot → String → ℕ → String → ℕ → MasterDecision
  plain_decision s actor now action revision = record {
    evidence = s;
    actor = actor;
    ts = iso now;
    action = action;
    based_on_revision = revision;
    decided = plain;
  }

  -- `record_decision`
  unfoldable pub record_decision :
      String → ℕ → String → String → String → Option String → Option String → Act Task
  unfolding get_task snapshot_file decide commit
  record_decision task_id expected_revision action evidence_file actor outcome acceptance_file = do
    task ← get_task task_id
    guard (get_or task.metadata.revision 0 != expected_revision) revision_changed
    guard (not (not_blank actor)) nameless_actor
    evidence ← snapshot_file files evidence_file
    now ← gets out.now
    let r = plain_decision evidence actor now action expected_revision
    made ← decide task action r outcome acceptance_file
    commit out made.updated (some task) made.event actor (decided made.record_made) none none none
