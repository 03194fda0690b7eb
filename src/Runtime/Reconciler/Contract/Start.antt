-- ===== src/Runtime/Reconciler/Contract/Start.antt =====
-- `_start` of src/agent_farm_runtime/reconciler.py keeps the contract of the reconciler.
use agent_farm_runtime.Prelude.{
  ◌≡◌, refl, sym, String, Option, none, some, true, false, arith, contains, string_eq, leb, List,
}
use mathlib.Core.Bool.{false≢true}
use agent_farm_runtime.Runtime.Models.{TaskState, Lease, Task, Worker}
use agent_farm_runtime.Runtime.Transitions.{assign}
use agent_farm_runtime.Runtime.Transitions.Graph.{transition_task_iff}
use agent_farm_runtime.Runtime.World.{World}
use agent_farm_runtime.Runtime.World.Policy.{
  Safe, Safe-bind, Safe-then, Safe-pure, Safe-if, Safe-lift-bind,
}
use agent_farm_runtime.Runtime.Rotation.{clean_surrender}
use agent_farm_runtime.Runtime.Store.Calls.{deployment-Safe}
use agent_farm_runtime.Runtime.Reconciler.{Env, withholds, named, restarts_of}
use agent_farm_runtime.Runtime.Reconciler.Start.{
  is_startable, launch_under, pause_at_limit, over_limit, start, limit_patch,
}
use agent_farm_runtime.Runtime.Reconciler.Moves.{
  Death, Startable, is_ready, in_rework, unowned, surrendered, starts, adopts, pauses, died,
  contract,
}
use agent_farm_runtime.Runtime.Reconciler.Contract.Launch.{launch_under-Safe}
use agent_farm_runtime.Runtime.Reconciler.Contract.{
  report-Safe, preflight-Safe, the_lease-Safe, record_change-Safe,
}

some-injective : {a b : String} → some a ≡ some b → a ≡ b
some-injective h = cc

module _ (env : Env) (workers : List Worker) (task : Task) (adopting_from : Option String)
    (pause : (w : World)
      → over_limit env task adopting_from ≡ true
      → Safe (contract env workers) (pause_at_limit env task) w)
    (launch : over_limit env task adopting_from ≡ false
      → (w : World) → Safe (contract env workers) (launch_under env task adopting_from) w) where
  start_by-Safe : (w : World) → Safe (contract env workers) (start env task adopting_from) w
  unfolding start
  start_by-Safe w =
      Safe-then (contract env workers) w _ _ (deployment-Safe (contract env workers) w) λ control v.
        Safe-if (contract env workers) v (withholds control)
          (λ e. Safe-pure (contract env workers) v tt)
          λ e.
            Safe-if (contract env workers) v (over_limit env task adopting_from) (pause v) λ under.
              Safe-then (contract env workers) v _ _
                (preflight-Safe (contract env workers) env task v)
                λ accepts u.
                  Safe-if (contract env workers) u accepts (λ e. launch under u)
                    (λ e. Safe-pure (contract env workers) u tt)

module _ (env : Env) (workers : List Worker) (task : Task) (old : Lease)
    (is_running : task.state ≡ TaskState.running) (held : task.lease ≡ some old)
    (death : Death env workers task old) where
  pause_at_limit-Safe :
      (w : World)
      → over_limit env task (some old.worker_id) ≡ true
      → Safe (contract env workers) (pause_at_limit env task) w
  unfolding pause_at_limit
  pause_at_limit-Safe w over =
      Safe-bind (contract env workers) w _ _ (the_lease-Safe (contract env workers) task w)
        λ l es q. Safe-lift-bind (contract env workers) _ _ _ λ paused e.
          let m =
            (transition_task_iff task TaskState.waiting (some l.lease_id) false (limit_patch env)
                (assign task.lease) paused).0
              e in
          Safe-then (contract env workers) _ _ _
            (record_change-Safe env workers paused _ _ task _
              λ n. pauses old is_running held death (ground arith) (rw m.1 refl) (rw m.1 refl))
            (λ a v. report-Safe (contract env workers) _ v)

  budget :
      over_limit env task (some old.worker_id) ≡ false
      → named (some old.worker_id) ≡ true
      → leb env.max_auto_restarts (restarts_of task) ≡ false
  budget h k = ground arith

  -- Adoption.
  pub adopt-Safe : (w : World) → Safe (contract env workers) (start env task (some old.worker_id)) w
  adopt-Safe = start_by-Safe env workers task (some old.worker_id) pause_at_limit-Safe λ under.
      launch_under-Safe env workers task (some old.worker_id) (λ _. is_running)
        (λ dead q. died task old (some-injective (sym q)) death)
        (λ t l _ r. adopts old l is_running held death (budget under) r)

Startable-state :
    (env : Env) (task : Task)
    → Startable env task
    → is_startable task.state ≡ false
    → task.state ≡ TaskState.running
unfolding contains clean_surrender
Startable-state env task (is_ready e) h = ground arith
Startable-state env task (in_rework e r) h = ground arith
Startable-state env task (unowned e) h = e
Startable-state env task (surrendered e) h = ground arith

module _ (env : Env) (workers : List Worker) (task : Task) (h : Startable env task) where
  -- A start of a task without a holder.
  pub start-Safe : (w : World) → Safe (contract env workers) (start env task none) w
  start-Safe =
      start_by-Safe env workers task none (λ w e. absurd (false≢true e))
        λ under.
          launch_under-Safe env workers task none (Startable-state env task h)
            (λ dead q. absurd (cc)) (λ t l free r. starts l (free refl) h r)
