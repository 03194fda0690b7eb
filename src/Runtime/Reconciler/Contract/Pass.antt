-- ===== src/Runtime/Reconciler/Contract/Pass.antt =====
-- A whole pass of src/agent_farm_runtime/reconciler.py keeps the contract of the reconciler.
use agent_farm_runtime.Runtime.Reconciler.Contract.Registry.{recover-workers}
use agent_farm_runtime.Prelude.{
  values, ◌≡◌, refl, ◌&&◌, Option, none, some, Bool, not, List, [], ◌∷◌, ap,
}
use agent_farm_runtime.Runtime.Metadata.{get, present, text_set, RotationRequest}
use agent_farm_runtime.Runtime.Models.{TaskState, Task, Worker}
use agent_farm_runtime.Runtime.Result.{Error, Result}
use agent_farm_runtime.Runtime.World.{after, World, draining, Handoff}
use agent_farm_runtime.Runtime.World.Policy.{
  Safe, Safe-bind, Safe-then, Safe-pure, Safe-if, Safe-gets-bind, Safe-catch, Obeys, safe_rules,
}
use agent_farm_runtime.Runtime.Deployment.{phase_is}
use agent_farm_runtime.Runtime.Rotation.{clean_surrender, has_lease}
use agent_farm_runtime.Runtime.Store.Calls.{deployment-Safe, get_task-Safe, recover-Safe}
use agent_farm_runtime.Runtime.Reconciler.{Env}
use agent_farm_runtime.Runtime.Reconciler.Pass.{
  may_resume, may_restart, waits_at_limit, reconcile_held, reconcile_waiting, drained, reconcile_in,
  asked, asked_to_restart, reconcile_requested, on_second, on_error, differs, reconcile_task,
  note_error, reconcile_one, reconcile_all, reconcile_once, with_error, error_info,
}
use agent_farm_runtime.Runtime.Reconciler.Running.{reconcile_running}
use agent_farm_runtime.Runtime.Reconciler.Moves.{is_ready, in_rework, surrendered, notes, contract}
use agent_farm_runtime.Runtime.Reconciler.Contract.{report-Safe, record_change-Safe}
use agent_farm_runtime.Runtime.Reconciler.Contract.Start.{start-Safe}
use agent_farm_runtime.Runtime.Reconciler.Contract.Resume.{resume-Safe}
use agent_farm_runtime.Runtime.Reconciler.Contract.Receipts.{surrender-Safe}
use agent_farm_runtime.Runtime.Reconciler.Contract.Rotation.{request_rotation-Safe}
use agent_farm_runtime.Runtime.Reconciler.Contract.Running.{reconcile_leased-Safe}

module _ (env : Env) (workers : List Worker) where
  module _ (task : Task) where
    asked-Safe :
        (o : Option (World → Task → Result Bool)) (w : World)
        → Safe (contract env workers) (asked env o task) w
    asked-Safe none w = search safe_rules
    asked-Safe (some f) w = search safe_rules

    asked_to_restart-Safe :
        (o : Option (World → Task → Result Bool)) (w : World)
        → Safe (contract env workers) (asked_to_restart env o task) w
    asked_to_restart-Safe none w = search safe_rules
    asked_to_restart-Safe (some f) w = search safe_rules

    reconcile_held-Safe :
        task.state ≡ TaskState.waiting
        → (w : World) → Safe (contract env workers) (reconcile_held env task) w
    unfolding reconcile_held may_resume may_restart
    reconcile_held-Safe s w =
        Safe-if (contract env workers) w (waits_at_limit env task)
          (λ e. Safe-pure (contract env workers) w tt)
          λ e.
            Safe-if (contract env workers) w (clean_surrender task)
              (λ clean.
                Safe-then (contract env workers) w _ _ (asked_to_restart-Safe env.unblock w) λ go v.
                  Safe-if (contract env workers) v go
                    (λ e. start-Safe env workers task (surrendered clean) v)
                    (λ e. Safe-pure (contract env workers) v tt))
              (λ e.
                Safe-if (contract env workers) w (has_lease task)
                  (λ e. Safe-then (contract env workers) w _ _ (asked-Safe env.unblock w) λ go v.
                    Safe-if (contract env workers) v go (λ e. resume-Safe env workers task s v)
                      (λ e. Safe-pure (contract env workers) v tt))
                  (λ e. Safe-pure (contract env workers) w tt))

    reconcile_requested-Safe :
        (o : Option RotationRequest)
        → task.state ≡ TaskState.waiting
        → (w : World) → Safe (contract env workers) (reconcile_requested env task o) w
    reconcile_requested-Safe none s w = reconcile_held-Safe s w
    reconcile_requested-Safe (some request) s w =
        Safe-if (contract env workers) w (has_lease task)
          (λ e. surrender-Safe env workers task request s w) (λ e. reconcile_held-Safe s w)

    reconcile_in-Safe :
        (s : TaskState)
        → task.state ≡ s
        → (w : World) → Safe (contract env workers) (reconcile_in env s task workers) w
    unfolding reconcile_running reconcile_waiting
    reconcile_in-Safe TaskState.ready h w = start-Safe env workers task (is_ready h) w
    reconcile_in-Safe TaskState.submitted h w =
        Safe-if (contract env workers) w (text_set task.metadata.rework_requested)
          (λ e. start-Safe env workers task (in_rework h e) w)
          (λ e. Safe-pure (contract env workers) w tt)
    reconcile_in-Safe TaskState.running h w =
        reconcile_leased-Safe env workers task task.lease h refl w
    reconcile_in-Safe TaskState.waiting h w =
        reconcile_requested-Safe (get task.metadata.rotation_request) h w
    reconcile_in-Safe TaskState.done h w = Safe-pure (contract env workers) w tt
    reconcile_in-Safe TaskState.blocked h w = Safe-pure (contract env workers) w tt
    reconcile_in-Safe TaskState.failed h w = Safe-pure (contract env workers) w tt

    drained-Safe :
        (o : Option Handoff) (w : World) → Safe (contract env workers) (drained env task o) w
    unfolding drained
    drained-Safe none w = Safe-pure (contract env workers) w task
    drained-Safe (some h) w =
        Safe-if (contract env workers) w
          (phase_is draining (some h)
            && (has_lease task && not (present task.metadata.rotation_request)))
          (λ e. request_rotation-Safe env workers task.id _ _ _ none w)
          (λ e. Safe-pure (contract env workers) w task)

  reconcile_task-Safe :
      (task : Task) (w : World) → Safe (contract env workers) (reconcile_task env task workers) w
  unfolding reconcile_task
  reconcile_task-Safe task w =
      Safe-then (contract env workers) w _ _ (deployment-Safe (contract env workers) w) λ control v.
        Safe-then (contract env workers) v _ _ (drained-Safe task control.handoff v)
          λ t u. reconcile_in-Safe t t.state refl u

  on_second-Safe : (e : Error) (w : World) → Safe (contract env workers) (on_second env e) w
  on_second-Safe e w = search (safe_rules, report-Safe)

  note_error-Safe :
      (task : Task) (e : Error) (w : World) → Safe (contract env workers) (note_error env task e) w
  unfolding note_error
  note_error-Safe task e w =
      Safe-then (contract env workers) w _ _ (report-Safe (contract env workers) _ w) λ a v.
        Safe-then (contract env workers) v _ _ (get_task-Safe (contract env workers) task.id v)
          λ t u.
            Safe-if (contract env workers) u
              (differs (get t.metadata.runtime_error) (error_info t e))
              (λ d.
                Safe-catch (contract env workers) u _ _
                  (Safe-then (contract env workers) u _ _
                    (record_change-Safe env workers (with_error t (error_info t e)) _ _ t u
                      (λ n. notes refl refl))
                    (λ b x. Safe-pure (contract env workers) x tt))
                  on_second-Safe)
              (λ d. Safe-pure (contract env workers) u tt)

  on_error-Safe :
      (task : Task) (e : Error) (w : World) → Safe (contract env workers) (on_error env task e) w
  on_error-Safe task e w = search (safe_rules, report-Safe, note_error-Safe)

  reconcile_all-Safe :
      (tasks : List Task) (w : World)
      → Safe (contract env workers) (reconcile_all env workers tasks) w
  unfolding reconcile_all reconcile_one
  reconcile_all-Safe [] w = Safe-pure (contract env workers) w tt
  reconcile_all-Safe (t ∷ rest) w =
      Safe-then (contract env workers) w _ _
        (Safe-catch (contract env workers) w _ _ (reconcile_task-Safe t w) (on_error-Safe t))
        (λ a v. reconcile_all-Safe rest v)

module _ (env : Env) where
  read_registry-Safe :
      (workers given : List Worker) (tasks : List Task) (v : World)
      → given ≡ workers
      → Safe (contract env workers) (reconcile_all env given tasks) v
  read_registry-Safe workers given tasks v e = rw e (reconcile_all-Safe env workers tasks v)

  reconcile_once-Safe :
      (w : World) → Safe (contract env (values w.disk.workers)) (reconcile_once env) w
  unfolding reconcile_once
  reconcile_once-Safe w =
      let p = contract env (values w.disk.workers) in
      Safe-bind p w _ _ (recover-Safe p env.outside w) λ a es q.
        let same = ap values (recover-workers env.outside w es q) in
        Safe-gets-bind p (after w es) _ _ (
          Safe-gets-bind p (after w es) _ _
            (read_registry-Safe (values w.disk.workers) _ _ (after w es) same))

-- In a pass, whatever the executor answers and whatever the files hold: every commit that is
-- written is a move of the contract; every launch and every resumption finds its task in the files,
-- RUNNING under that lease, and a launched worker in the dispatches of the epoch; and every worker
-- that is stopped was observed dead, at a time when the last sign of life of it, which is its
-- heartbeat in the registry as the pass began or else the launch that its task records, was the
-- grace time ago or more, or gave the receipt that ended its task.
pub reconcile_once-Obeys :
    (env : Env) (w : World)
    → Obeys (contract env (values w.disk.workers)) w (reconcile_once env w).1
reconcile_once-Obeys env w = (reconcile_once-Safe env w).obeys
