-- ===== src/Runtime/Handoff/Release/Sealed.antt =====
-- What a release that returns says of the farm.
use agent_farm_runtime.Prelude.{
  ◌≡◌, refl, sym, ◌∙◌, ap, inl, inr, String, Option, none, some, true, false, List, [], ◌∷◌, arith,
  lookup, put, lookup-put, contains, any, All, codes, is_short_identifier, string_eq,
}
use agent_farm_runtime.Runtime.Result.{ok, workers_uncertain, not_surrendered}
use agent_farm_runtime.Runtime.World.{
  Handoff, Manifest, Archive, Disk, Txn, Effect, seal, World, Act, step, write, after, then_do,
  pure, guard, gets, ◌>>=◌, ◌>>◌,
}
use agent_farm_runtime.Runtime.World.Through.{after-append}
use agent_farm_runtime.Runtime.World.Silent.{bound_silent, then_do-ok}
use agent_farm_runtime.Runtime.World.Rules.{
  act_rules, bind-ok, bound, bound_pure, guard-ok, pure_lem, gets-bind,
}
use agent_farm_runtime.Runtime.Deployment.{execution_epoch}
use agent_farm_runtime.Runtime.Store.{list_tasks, recover_locked}
use agent_farm_runtime.Runtime.Store.Recovery.{
  ids, audited, audited-contains, recover_locked-effects, after-finish_effects,
}
use agent_farm_runtime.Runtime.Executor.{Executor}
use agent_farm_runtime.Runtime.Handoff.{event_of, publish_control}
use agent_farm_runtime.Runtime.Handoff.Audit.{
  publish_control-CanPublish, CanPublish, CanPublish-publish_control, after-publish_effects,
  publish_effects,
}
use agent_farm_runtime.Runtime.Handoff.Release.{
  Plane, is_unsettled, issued_workers, uncertain_of, is_any, proof_of, sealed_as, seal_with,
  seal_farm,
}
use agent_farm_runtime.Runtime.Handoff.Release.Rest.{
  AtRest, Dispatched, all-AtRest, issued_workers-All,
}
use agent_farm_runtime.Runtime.Handoff.Release.Workers.{
  Dead, issued_workers-silent, uncertain_of-silent, uncertain_of-Dead,
}

module _ (plane : Plane) (executor : Executor) (request_id actor : String) (m : Manifest)
    (control : Handoff) where
  abbrev pub proof : List String → World → Archive
  proof workers w = proof_of plane executor request_id actor m workers w

  abbrev pub seals : Handoff → Archive → Handoff
  seals c a = sealed_as plane executor request_id actor c a

  module _ (workers : List String) (w : World) where
    abbrev pub written : World
    written = step w (seal request_id (proof workers w))

    abbrev pub result : Handoff
    result = seals control (proof workers w)

    abbrev sealed_disk : Disk
    sealed_disk = record w.disk {
      handoffs = put request_id (proof workers w) w.disk.handoffs;
      log = audited w.disk.log (event_of result "FARM_RELEASED" actor);
      deployment = record m { handoff = some result; pending_event = none };
    }

    seal_with_lem :
        seal_with plane executor request_id actor m control workers w
        ≡ then_do
            ((publish_control plane.out.identity m result "FARM_RELEASED" actor >>= λ _.
                pure result)
              written)
            (seal request_id (proof workers w) ∷ [])
    unfolding seal_with
    seal_with_lem = simp act_rules

    abbrev pub publishing : List Effect
    publishing = publish_effects plane.out.identity m result "FARM_RELEASED" actor written

    pub seal_with-returns :
        CanPublish plane.out.identity m result "FARM_RELEASED" actor written
        → seal_with plane executor request_id actor m control workers w
          ≡ (ok result, seal request_id (proof workers w) ∷ publishing)
    seal_with-returns c =
        seal_with_lem
        ∙ rw
            (bind-ok _ written _ (
              CanPublish-publish_control plane.out.identity m result "FARM_RELEASED" actor written
                c))
            (rw pure_lem refl)

    after-seal : (after w (seal request_id (proof workers w) ∷ publishing)).disk ≡ sealed_disk
    unfolding after step write
    after-seal = after-publish_effects plane.out.identity m result "FARM_RELEASED" actor written

    seal_with-disk :
        (sealed : Handoff) (es : List Effect)
        → seal_with plane executor request_id actor m control workers w ≡ (ok sealed, es)
        → (sealed ≡ result)
          × ((after w es).disk ≡ sealed_disk)
          × (is_short_identifier (codes control.id) ≡ true)
          × (w.disk.log.damaged ≡ false)
    unfolding step write
    seal_with-disk sealed es h =
        let (p, all) =
          then_do-ok _ (seal request_id (proof workers w) ∷ []) (sym seal_with_lem ∙ h) in
        let (q, same) = bound_pure result written _ p in
        let (c, effects) =
          publish_control-CanPublish plane.out.identity m result "FARM_RELEASED" actor written _
            q in
        (
          same,
          ap {B = Disk} (λ l. (after w l).disk)
                (all ∙ ap {B = List Effect} (λ l. seal request_id (proof workers w) ∷ l) effects)
              ∙ after-seal,
          c.named,
          c.intact,
        )

  -- What a sealed farm is, in the files at the end: no task holds a lease, runs, or waits without a
  -- clean surrender, and every worker that a task was dispatched to in the epoch was polled with the
  -- answer that it is not alive; the archive holds the tasks as they stand, and the deployment record its digest; the record has no event
  -- left, and the log has the event of the release.
  pub record Sealed (w : World) (sealed : Handoff) : Type 0 where
    pub at_rest : All AtRest (list_tasks w.disk)
    pub workers : List String
    pub asked : World
    -- The tasks have not changed since the workers were polled.
    pub unchanged : list_tasks asked.disk ≡ list_tasks w.disk
    pub issued : issued_workers (execution_epoch m) (list_tasks w.disk) asked ≡ (ok workers, [])
    pub dead : All (Dispatched (Dead executor asked) (execution_epoch m)) (list_tasks w.disk)
    pub archived : lookup request_id w.disk.handoffs ≡ some (proof workers w)
    pub same : sealed ≡ seals control (proof workers w)
    pub standing : w.disk.deployment ≡ record m { handoff = some sealed; pending_event = none }
    pub logged : contains (ids w.disk.log) (event_of sealed "FARM_RELEASED" actor).id ≡ true
    pub short : is_short_identifier (codes control.id) ≡ true
    pub intact : w.disk.log.damaged ≡ false
    pub cleared : w.disk.pending ≡ none

  disk-Sealed :
      (workers : List String) (w v : World) (sealed : Handoff)
      → any is_unsettled (list_tasks w.disk) ≡ false
      → issued_workers (execution_epoch m) (list_tasks w.disk) w ≡ (ok workers, [])
      → All (Dead executor w) workers
      → sealed ≡ result workers w
      → v.disk ≡ sealed_disk workers w
      → is_short_identifier (codes control.id) ≡ true
      → w.disk.log.damaged ≡ false
      → w.disk.pending ≡ none
      → Sealed v sealed
  unfolding list_tasks audited
  disk-Sealed workers w v sealed s i d e f short intact cleared = record {
    short = short;
    intact = rw f (ground arith);
    cleared = rw f cleared;
    at_rest = rw f (all-AtRest (list_tasks w.disk) s);
    workers = workers;
    asked = w;
    unchanged = rw f refl;
    issued = rw f i;
    dead = rw f (
        issued_workers-All (Dead executor w) (execution_epoch m) (list_tasks w.disk) w workers i d);
    archived = rw (f, lookup-put) (ground arith);
    same = rw f e;
    standing = rw (f, e) refl;
    logged = rw (f, e) (audited-contains _ _);
  }

  recovery-clears :
      (w : World) (es : List Effect)
      → recover_locked w ≡ (ok tt, es)
      → (after w es).disk.pending ≡ none
  unfolding after step write
  recovery-clears w es h = elim (recover_locked-effects w es h) [
    | inl (e, s) ↦ rw s e
    | inr (txn, e, c, s) ↦
        rw s (ap {B = Option Txn} (λ (d : Disk). d.pending) (after-finish_effects txn w))
  ]

  module _ (w : World) (sealed : Handoff) (cleared : w.disk.pending ≡ none) where
    abbrev after_ask : List String → Act Handoff
    after_ask workers = do
      uncertain ← uncertain_of executor workers
      guard (is_any uncertain) workers_uncertain
      seal_with plane executor request_id actor m control workers

    after_ask-Sealed :
        (workers : List String) (es : List Effect)
        → any is_unsettled (list_tasks w.disk) ≡ false
        → issued_workers (execution_epoch m) (list_tasks w.disk) w ≡ (ok workers, [])
        → after_ask workers w ≡ (ok sealed, es)
        → Sealed (after w es) sealed
    after_ask-Sealed workers es s i h =
        let (us, asked, g) =
          bound_silent _ w (uncertain_of executor workers) (uncertain_of-silent executor w workers)
            h in
        let (none_left, sealing) = guard-ok w _ _ _ g in
        let (same, files, short, intact) = seal_with-disk workers w sealed es sealing in
        disk-Sealed workers w (after w es) sealed s i
          (uncertain_of-Dead executor w workers us [] asked none_left) same files short intact
          cleared

    abbrev after_recovery : Act Handoff
    after_recovery = do
      tasks ← gets (λ v. list_tasks v.disk)
      guard (any is_unsettled tasks) not_surrendered
      workers ← issued_workers (execution_epoch m) tasks
      after_ask workers

    after_recovery-Sealed :
        (es : List Effect) → after_recovery w ≡ (ok sealed, es) → Sealed (after w es) sealed
    after_recovery-Sealed es h =
        let (settled, g) = guard-ok w _ _ _ (sym (gets-bind _ w _) ∙ h) in
        let (workers, issued, k) =
          bound_silent _ w (issued_workers (execution_epoch m) (list_tasks w.disk))
            (issued_workers-silent (execution_epoch m) (list_tasks w.disk) w) g in
        after_ask-Sealed workers es settled issued k

  pub seal_farm-Sealed :
      (w : World) (sealed : Handoff) (es : List Effect)
      → seal_farm plane executor request_id actor m control w ≡ (ok sealed, es)
      → Sealed (after w es) sealed
  unfolding seal_farm
  seal_farm-Sealed w sealed es h =
      let k = bound _ w recover_locked h in
      rw (k.all, after-append)
        (after_recovery-Sealed (after w k.before) sealed (recovery-clears w k.before k.began)
          k.later k.ended)
