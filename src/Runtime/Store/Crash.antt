-- ===== src/Runtime/Store/Crash.antt =====
-- A recovery that is interrupted, and run again, leaves the files of one that is not.
use agent_farm_runtime.Prelude.{◌≡◌, refl, some, inl, inr, List, arith, lookup-put, put-put}
use agent_farm_runtime.Runtime.Result.{ok}
use agent_farm_runtime.Runtime.World.{
  Txn, Effect, install, clear_journal, World, step, write, after,
}
use agent_farm_runtime.Runtime.World.Through.{Through}
use agent_farm_runtime.Runtime.Store.{recover_locked}
use agent_farm_runtime.Runtime.Store.Recovery.{
  finished, settled, settled-none, settled-some, audited, audited_twice, CanFinish, Recovers,
  Recovers-none, Recovers-some, finish_effects, after-finish_effects, audit_effect,
  recover_locked-effects,
}

module _ (w : World) (txn : Txn) (e : w.disk.pending ≡ some txn) (h : CanFinish w.disk txn) where
  abbrev first : World
  first = step w (install txn.after)

  abbrev second : World
  second = step first (audit_effect w.disk.log txn.event)

  first-CanFinish : CanFinish first.disk txn
  unfolding step write
  first-CanFinish = record {
    named = h.named;
    current = inr (simp lookup-put (ground arith));
    intact = h.intact;
  }

  second_disk : second.disk ≡ record first.disk { log = audited w.disk.log txn.event }
  unfolding step write audited
  second_disk = ground arith

  first_finished : finished first.disk txn ≡ finished w.disk txn
  unfolding step write
  first_finished = rw put-put

  second_finished : finished second.disk txn ≡ finished w.disk txn
  second_finished = rw second_disk (unfold step write in rw (audited_twice, put-put))

  second-CanFinish : CanFinish second.disk txn
  unfolding audited
  second-CanFinish = record {
    named = h.named;
    current = rw second_disk first-CanFinish.current;
    intact = rw second_disk (ground arith);
  }

  third_disk : (step second clear_journal).disk ≡ finished w.disk txn
  unfolding step write audited
  third_disk = ground arith

  pending_kept : (first.disk.pending ≡ some txn) × (second.disk.pending ≡ some txn)
  unfolding step write
  pending_kept = (e, ground arith)

  pub interrupted : Through (Recovers (finished w.disk txn)) w (finish_effects w.disk txn)
  unfolding step write
  interrupted = (
    Recovers-some w txn e h,
    (
      rw (← first_finished) (Recovers-some first txn pending_kept.0 first-CanFinish),
      (
        rw (← second_finished) (Recovers-some second txn pending_kept.1 second-CanFinish),
        rw (← third_disk) (Recovers-none (step second clear_journal) refl),
      ),
    ),
  )

-- A recovery that returns leaves the files with the journal carried out and gone, and if it is cut
-- off after any of its writes, running it again succeeds and leaves the same files.
pub recover_locked_interrupted :
    (w : World) (es : List Effect)
    → recover_locked w ≡ (ok tt, es)
    → Through (Recovers (settled w.disk)) w es × ((after w es).disk ≡ settled w.disk)
unfolding after
recover_locked_interrupted w es h = elim (recover_locked-effects w es h) [
  | inl (e, k) ↦ rw (k, settled-none w.disk e) (Recovers-none w e, refl)
  | inr (txn, e, c, k) ↦
      rw (k, settled-some w.disk txn e) (interrupted w txn e c, after-finish_effects txn w)
]
