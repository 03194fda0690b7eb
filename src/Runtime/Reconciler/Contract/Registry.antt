-- ===== src/Runtime/Reconciler/Contract/Registry.antt =====
-- The recovery that begins a pass of src/agent_farm_runtime/reconciler.py keeps the registry.
use agent_farm_runtime.Prelude.{
  ◌≡◌, refl, String, Option, none, some, Bool, false, List, inl, inr, ap, [],
}
use agent_farm_runtime.Runtime.Result.{ok}
use agent_farm_runtime.Runtime.World.{
  World, Effect, Handoff, Manifest, after, step, write, gets, Disk,
}
use agent_farm_runtime.Runtime.World.Silent.{bound_silent, silent-bind, silent-pure, guard-silent}
use agent_farm_runtime.Runtime.Deployment.{
  Identity, deployment, handoff_writer, require_no_pending_recovery, require_task_writer,
}
use agent_farm_runtime.Runtime.Store.{Outside, recover, recover_locked}
use agent_farm_runtime.Runtime.Store.Recovery.{recover_locked-effects, after-finish_effects}

gets-silent {ℓ} : {A : Type ℓ} (g : World → A) (w : World) → (gets g w).1 ≡ []
unfolding gets
gets-silent g w = refl

handoff_writer-silent :
    (current : Identity) (m : Manifest) (upgrade : Option String) (o : Option Handoff) (w : World)
    → (handoff_writer current m upgrade o w).1 ≡ []
unfolding handoff_writer
handoff_writer-silent current m upgrade none w = silent-pure tt w
handoff_writer-silent current m upgrade (some h) w =
    search (silent-bind, guard-silent, silent-pure) depth 20

deployment-silent : (w : World) → (deployment w).1 ≡ []
unfolding deployment
deployment-silent w = search (silent-bind, gets-silent, guard-silent, silent-pure) depth 20

no_pending-silent : (w : World) → (require_no_pending_recovery w).1 ≡ []
unfolding require_no_pending_recovery
no_pending-silent w = search (silent-bind, gets-silent, guard-silent, silent-pure) depth 20

require_task_writer-silent :
    (current : Identity) (dispatch : Bool) (epoch upgrade : Option String) (w : World)
    → (require_task_writer current dispatch epoch upgrade w).1 ≡ []
unfolding require_task_writer
require_task_writer-silent current dispatch epoch upgrade w =
    search
      (
        silent-bind, gets-silent, guard-silent, silent-pure, no_pending-silent, deployment-silent,
        handoff_writer-silent,
      )
      depth 30

recover_locked-workers :
    (w : World) (es : List Effect)
    → recover_locked w ≡ (ok tt, es)
    → (after w es).disk.workers ≡ w.disk.workers
unfolding after step write
recover_locked-workers w es h = elim (recover_locked-effects w es h) [
  | inl (e, s) ↦ rw s refl
  | inr (txn, e, c, s) ↦ rw s (ap (λ (d : Disk). d.workers) (after-finish_effects txn w))
]

pub recover-workers :
    (out : Outside) (w : World) {a : Unit {0}} (es : List Effect)
    → recover out w ≡ (ok a, es)
    → (after w es).disk.workers ≡ w.disk.workers
unfolding recover
recover-workers out w es h =
    let (m, began, k) =
      bound_silent _ w (require_task_writer out.identity false none none)
        (require_task_writer-silent out.identity false none none w) h in
    recover_locked-workers w es k
