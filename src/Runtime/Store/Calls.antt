-- ===== src/Runtime/Store/Calls.antt =====
-- The effects of the store's operations, under a policy.
use agent_farm_runtime.Prelude.{
  ◌≡◌, String, Option, none, some, Bool, true, false, ◌+◌, lookup, arith, if◌then◌else◌, string_eq,
}
use agent_farm_runtime.Runtime.Metadata.{Timestamp}
use agent_farm_runtime.Runtime.Models.{Task, Payload, Event}
use agent_farm_runtime.Runtime.World.{
  ◌>>=◌, Txn, Handoff, effect, install, append, sync_log, clear_journal, prepare, World, Act, pure,
  after, Manifest,
}
use agent_farm_runtime.Runtime.World.Policy.{
  Policy, Allows, Safe, Safe-bind, Safe-then, Safe-pure, Safe-effect, Safe-gets-bind, safe_rules,
}
use agent_farm_runtime.Runtime.Deployment.{
  Identity, deployment, require_no_pending_recovery, handoff_writer, require_task_writer,
}
use agent_farm_runtime.Runtime.Store.{
  revised, revision_of, Outside, path_for, or_missing, get_task, current_task, log_ids, finish_txn,
  finish_pending, recover_locked, stage_commit, commit_locked, commit, recover,
}
use agent_farm_runtime.Runtime.Store.Commit.{txn_at, saved, commit_locked-Committed}
use agent_farm_runtime.Runtime.Store.Atomic.{commit_lookup}

module _ (p : Policy) where
  -- What a commit asks of its dispatch, at the task that it is given.
  abbrev pub SafeDispatch : Option (Task → Act (Unit {0})) → World → Task → Type 0
  SafeDispatch none v t = Unit
  SafeDispatch (some d) v t = Safe p (d t) v

  pub path_for-Safe : (task_id : String) (w : World) → Safe p (path_for task_id) w
  unfolding path_for
  path_for-Safe task_id w = search safe_rules

  or_missing-Safe : (o : Option Task) (w : World) → Safe p (or_missing o) w
  or_missing-Safe none w = search safe_rules
  or_missing-Safe (some t) w = search safe_rules

  pub get_task-Safe : (task_id : String) (w : World) → Safe p (get_task task_id) w
  unfolding get_task
  get_task-Safe task_id w = search (safe_rules, or_missing-Safe)

  pub current_task-Safe : (task_id : String) (w : World) → Safe p (current_task task_id) w
  unfolding current_task
  current_task-Safe task_id w = search safe_rules

  log_ids-Safe : (w : World) → Safe p log_ids w
  unfolding log_ids
  log_ids-Safe w = search safe_rules

  -- The writes of the journal's transaction, and other writes, are always allowed.
  Safe-install : (w : World) (t : Task) → Safe p (effect (install t)) w
  unfolding Allows
  Safe-install w t = Safe-effect p w (install t) tt

  Safe-clear_journal : (w : World) → Safe p (effect clear_journal) w
  unfolding Allows
  Safe-clear_journal w = Safe-effect p w clear_journal tt

  Safe-audit :
      (w : World) (b : Bool) (e : Event) → Safe p (effect (if b then sync_log else append e)) w
  unfolding Allows
  Safe-audit w true e = Safe-effect p w sync_log tt
  Safe-audit w false e = Safe-effect p w (append e) tt

  finish_pending-Safe : (o : Option Txn) (w : World) → Safe p (finish_pending o) w
  unfolding finish_txn
  finish_pending-Safe none w = search safe_rules
  finish_pending-Safe (some txn) w =
      search
        (safe_rules, current_task-Safe, log_ids-Safe, Safe-install, Safe-clear_journal, Safe-audit)
        depth 20

  pub recover_locked-Safe : (w : World) → Safe p recover_locked w
  unfolding recover_locked
  recover_locked-Safe w = search (safe_rules, finish_pending-Safe)

  pub deployment-Safe : (w : World) → Safe p deployment w
  unfolding deployment
  deployment-Safe w = search safe_rules

  no_pending-Safe : (w : World) → Safe p require_no_pending_recovery w
  unfolding require_no_pending_recovery
  no_pending-Safe w = search safe_rules

  module _ (current : Identity) where
    handoff_writer-Safe :
        (m : Manifest) (upgrade : Option String) (o : Option Handoff) (w : World)
        → Safe p (handoff_writer current m upgrade o) w
    unfolding handoff_writer
    handoff_writer-Safe m upgrade none w = search safe_rules
    handoff_writer-Safe m upgrade (some h) w = search safe_rules

    pub require_task_writer-Safe :
        (dispatch : Bool) (epoch upgrade : Option String) (w : World)
        → Safe p (require_task_writer current dispatch epoch upgrade) w
    unfolding require_task_writer
    require_task_writer-Safe dispatch epoch upgrade w =
        search (safe_rules, no_pending-Safe, deployment-Safe, handoff_writer-Safe) depth 20

  module _ (out : Outside) where
    pub recover-Safe : (w : World) → Safe p (recover out) w
    unfolding recover
    recover-Safe w = search (safe_rules, require_task_writer-Safe, recover_locked-Safe)

    module _ (task : Task) (expected : Option Task) (event_type actor : String) (payload : Payload)
        (ts : Option Timestamp)
        (ready : (w : World)
          → p.prepares (txn_at out task expected event_type actor payload ts w)) where
      Safe-prepared :
          (w : World)
          → Safe p
              (effect (prepare (txn_at out task expected event_type actor payload ts w)) >>= λ u.
                pure (saved out task expected event_type actor payload ts))
              w
      unfolding Allows
      Safe-prepared w = Safe-then p w _ _ (Safe-effect p w _ (ready w)) (λ a v. Safe-pure p v _)

      stage_commit-Safe :
          (w : World) → Safe p (stage_commit out task expected event_type actor payload ts) w
      unfolding stage_commit
      stage_commit-Safe w =
          search (Safe-gets-bind, Safe-prepared, safe_rules, current_task-Safe) depth 30

      pub commit_locked-Safe :
          (w : World) → Safe p (commit_locked out task expected event_type actor payload ts) w
      unfolding commit_locked
      commit_locked-Safe w = search (safe_rules, recover_locked-Safe, stage_commit-Safe) depth 20

      -- A dispatch starts where the committed task is in the files.
      commit_dispatch :
          (d : Task → Act (Unit {0})) (w : World)
          → ((v : World) (t : Task)
              → lookup task.id v.disk.tasks ≡ some t
              → t ≡ revised task (revision_of expected + 1)
              → Safe p (d t) v)
          → Safe p
              (commit_locked out task expected event_type actor payload ts >>= λ t.
                d t >>= λ u. pure t)
              w
      commit_dispatch d w h = Safe-bind p w _ _ (commit_locked-Safe w) λ t es q.
          let c = commit_lookup out task expected event_type actor payload ts w es q in
          let r = commit_locked-Committed out task expected event_type actor payload ts w es q in
          Safe-then p (after w es) (d t) _
            (h (after w es) t (ground (arith, c.1 task.id)) r.returned) (λ a v. Safe-pure p v t)

      pub commit-Safe :
          (dispatch : Option (Task → Act (Unit {0}))) (epoch : Option String) (w : World)
          → ((v : World) (t : Task)
              → lookup task.id v.disk.tasks ≡ some t
              → t ≡ revised task (revision_of expected + 1)
              → SafeDispatch dispatch v t)
          → Safe p (commit out task expected event_type actor payload ts dispatch epoch) w
      unfolding commit
      commit-Safe none epoch w h =
          search (safe_rules, require_task_writer-Safe, commit_locked-Safe) depth 20
      commit-Safe (some d) epoch w h =
          Safe-then p w _ _ (require_task_writer-Safe out.identity true epoch none w)
            (λ a v. commit_dispatch d v h)
