-- ===== src/Runtime/Store/Success.antt =====
-- When a commit returns.
use agent_farm_runtime.Prelude.{◌≡◌, ap, ◌∙◌, String, Option, false, inl, List, ◌∷◌, ◌++◌}
use agent_farm_runtime.Runtime.Metadata.{Timestamp}
use agent_farm_runtime.Runtime.Models.{Task, Payload}
use agent_farm_runtime.Runtime.Result.{ok}
use agent_farm_runtime.Runtime.World.{
  Effect, prepare, World, step, write, after, pure, then_do, ◌>>=◌, ◌>>◌,
}
use agent_farm_runtime.Runtime.World.Rules.{bind-ok, pure_lem}
use agent_farm_runtime.Runtime.Store.{Outside, recover_locked, stage_commit, commit_locked}
use agent_farm_runtime.Runtime.Store.Recovery.{
  finish_effects, CanFinish, recover_locked_lem, CanFinish-finish_txn,
}
use agent_farm_runtime.Runtime.Store.Commit.{CanCommit, CanCommit-stage, txn_at, saved}

module _ (out : Outside) (task : Task) (expected : Option Task) (event_type actor : String)
    (payload : Payload) (ts : Option Timestamp) (w : World) where
  abbrev pub prepared : World → World
  prepared v = step v (prepare (txn_at out task expected event_type actor payload ts v))

  prepared-CanFinish :
      (v : World)
      → CanCommit out task expected event_type actor payload ts v.disk
      → v.disk.log.damaged ≡ false
      → CanFinish (prepared v).disk (txn_at out task expected event_type actor payload ts v)
  unfolding step write
  prepared-CanFinish v c intact = record {
    named = c.named;
    current = inl c.current;
    intact = intact;
  }

  finishes :
      (v : World)
      → CanCommit out task expected event_type actor payload ts v.disk
      → v.disk.log.damaged ≡ false
      → recover_locked (prepared v) ≡ (
        ok tt,
        finish_effects (prepared v).disk (txn_at out task expected event_type actor payload ts v),
      )
  finishes v c intact =
      let f =
        CanFinish-finish_txn (txn_at out task expected event_type actor payload ts v) (prepared v)
          (prepared-CanFinish v c intact) in
      rw recover_locked_lem (unfold step write in f)

  abbrev pub all_effects : List Effect → List Effect
  all_effects before =
      let v = after w before in
      before
      ++ prepare (txn_at out task expected event_type actor payload ts v)
        ∷ finish_effects (prepared v).disk (txn_at out task expected event_type actor payload ts v)

  -- The block after the first recovery.
  from_stage :
      (v : World)
      → CanCommit out task expected event_type actor payload ts v.disk
      → v.disk.log.damaged ≡ false
      → (do t ← stage_commit out task expected event_type actor payload ts; recover_locked; pure t)
          v
        ≡ (
          ok (saved out task expected event_type actor payload ts),
          prepare (txn_at out task expected event_type actor payload ts v)
              ∷ finish_effects
                  (prepared v).disk
                  (txn_at out task expected event_type actor payload ts v),
        )
  unfolding after
  from_stage v c intact =
      bind-ok _ v _ (CanCommit-stage out task expected event_type actor payload ts v c)
      ∙ rw (bind-ok _ (prepared v) recover_locked (finishes v c intact)) (simp pure_lem)

  pub succeeds :
      (before : List Effect)
      → recover_locked w ≡ (ok tt, before)
      → CanCommit out task expected event_type actor payload ts (after w before).disk
      → (after w before).disk.log.damaged ≡ false
      → commit_locked out task expected event_type actor payload ts w
        ≡ (ok (saved out task expected event_type actor payload ts), all_effects before)
  unfolding commit_locked
  succeeds before r c intact =
      bind-ok _ w recover_locked r
      ∙ ap (λ p. then_do p before) (from_stage (after w before) c intact)
