-- ===== src/Runtime/Store/Commit.antt =====
-- `_commit_locked`: its checks, what a commit that returns leaves on disk, and its interruptions.
use mathlib.Core.Path.{subst}
use agent_farm_runtime.Prelude.{
  ◌≡◌, ap, ◌∙◌, not, ◌+◌, String, Option, true, false, List, [], ◌∷◌, ◌++◌, arith, ◌!=◌, string_eq,
  codes, is_identifier, lookup, if◌then◌else◌,
}
use agent_farm_runtime.Runtime.Equality.{task_eq}
use agent_farm_runtime.Runtime.Metadata.{Timestamp}
use agent_farm_runtime.Runtime.Models.{Task, Payload}
use agent_farm_runtime.Runtime.Result.{
  ok, err, invalid_task_id, id_changed, stale_snapshot, workspace_reserved,
}
use agent_farm_runtime.Runtime.World.{Txn, Disk, Effect, prepare, World, step, after}
use agent_farm_runtime.Runtime.World.Rules.{act_rules, on_ok, bound, bound_pure}
use agent_farm_runtime.Runtime.Store.{
  Outside, check_transition, workspace_taken, commit_event, stage_commit, commit_locked,
  recover_locked, changes_id, revision_of, revised,
}

module _ (out : Outside) (task : Task) (expected : Option Task) (event_type actor : String)
    (payload : Payload) (ts : Option Timestamp) where
  abbrev pub saved : Task
  saved = revised task (revision_of expected + 1)

  abbrev pub txn_at : World → Txn
  txn_at w = record {
    before = expected;
    after = saved;
    event = commit_event out w task event_type actor payload ts (revision_of expected + 1);
  }

  -- What a commit asks of the files.
  pub record CanCommit (d : Disk) : Type 0 where
    pub named : is_identifier (codes task.id) ≡ true
    pub same_id : changes_id task expected ≡ false
    pub current : lookup task.id d.tasks ≡ expected
    pub allowed : check_transition task expected ≡ ok tt
    pub free : workspace_taken out d task ≡ false

  module _ (w : World) where
    stage_lem : stage_commit out task expected event_type actor payload ts w ≡ (
        if not (is_identifier (codes task.id))
        then (err invalid_task_id, [])
        else if changes_id task expected
        then (err id_changed, [])
        else if not (is_identifier (codes task.id))
        then (err invalid_task_id, [])
        else if lookup task.id w.disk.tasks != expected
        then (err stale_snapshot, [])
        else on_ok (check_transition task expected) λ u.
          if workspace_taken out w.disk task
          then (err workspace_reserved, [])
          else (ok saved, prepare (txn_at w) ∷ []))
    unfolding stage_commit
    stage_lem = simp act_rules

    stage-CanCommit :
        {t : Task} (es : List Effect)
        → stage_commit out task expected event_type actor payload ts w ≡ (ok t, es)
        → CanCommit w.disk × (t ≡ saved) × (es ≡ prepare (txn_at w) ∷ [])
    unfolding on_ok
    stage-CanCommit es h = let k = rw stage_lem at h in (ground arith, ground arith, ground arith)

    pub CanCommit-stage :
        CanCommit w.disk
        → stage_commit out task expected event_type actor payload ts w
          ≡ (ok saved, prepare (txn_at w) ∷ [])
    unfolding on_ok
    CanCommit-stage h = rw stage_lem (ground arith)

  -- The parts of a commit that returned.
  pub record Committed (w : World) (t : Task) (es : List Effect) : Type 0 where
    pub before : List Effect
    pub recovered : recover_locked w ≡ (ok tt, before)
    pub can : CanCommit (after w before).disk
    pub returned : t ≡ saved
    pub later : List Effect
    pub finishes :
        recover_locked (step (after w before) (prepare (txn_at (after w before)))) ≡ (ok tt, later)
    pub all : es ≡ before ++ prepare (txn_at (after w before)) ∷ later

  module _ (w : World) where
    pub commit_locked-Committed :
        {t : Task} (es : List Effect)
        → commit_locked out task expected event_type actor payload ts w ≡ (ok t, es)
        → Committed w t es
    unfolding commit_locked after
    commit_locked-Committed {t} es h =
        let b1 = bound _ w recover_locked h in
        let b2 = bound _ _ (stage_commit out task expected event_type actor payload ts) b1.ended in
        let (can, same, made) = stage-CanCommit (after w b1.before) b2.before b2.began in
        let (finishes, returned) = bound_pure b2.first _ recover_locked b2.ended in
        record {
          before = b1.before;
          recovered = b1.began;
          can = can;
          returned = returned ∙ same;
          later = b2.later;
          finishes =
              subst (λ l. recover_locked (after (after w b1.before) l) ≡ (ok tt, b2.later)) made
                finishes;
          all = b1.all ∙ ap (λ l. b1.before ++ l) (b2.all ∙ ap (λ l. l ++ b2.later) made);
        }
