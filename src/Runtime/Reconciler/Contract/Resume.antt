-- ===== src/Runtime/Reconciler/Contract/Resume.antt =====
-- `_resume` of src/agent_farm_runtime/reconciler.py keeps the contract of the reconciler.
use agent_farm_runtime.Prelude.{◌≡◌, refl, Option, none, some, Bool, true, false, List}
use agent_farm_runtime.Runtime.Models.{TaskState, Lease, Task, Worker}
use agent_farm_runtime.Runtime.Transitions.{assign}
use agent_farm_runtime.Runtime.Transitions.Graph.{transition_task_iff}
use agent_farm_runtime.Runtime.World.{World, after}
use agent_farm_runtime.Runtime.World.Policy.{
  Safe, Safe-bind, Safe-then, Safe-pure, Safe-if, Safe-gets-bind, Safe-lift-bind,
}
use agent_farm_runtime.Runtime.Store.Calls.{deployment-Safe}
use agent_farm_runtime.Runtime.Reconciler.{Env, withholds}
use agent_farm_runtime.Runtime.Reconciler.Resume.{
  dispatch_resume, wake, resume_on, poll_and_resume, resume,
}
use agent_farm_runtime.Runtime.Reconciler.Moves.{Exited, resumes, Resumable, contract}
use agent_farm_runtime.Runtime.Reconciler.Contract.{
  report-Safe, observe-Safe, preflight-Safe, the_lease-Safe, the_lease-ok, poll-Safe, poll-answer,
  resume_worker-Safe, commit_change-Safe,
}

module _ (env : Env) (workers : List Worker) (task : Task)
    (is_waiting : task.state ≡ TaskState.waiting) where
  module _ (l : Lease) (held : task.lease ≡ some l) where
    dispatch_resume-Safe :
        (saved : Task) (w : World)
        → Resumable env w saved l.worker_id l
        → Safe (contract env workers) (dispatch_resume env task l saved) w
    unfolding dispatch_resume
    dispatch_resume-Safe saved w r =
        Safe-then (contract env workers) w _ _
          (resume_worker-Safe (contract env workers) env.executor saved l.worker_id l w r)
          (λ a v.
            observe-Safe (contract env workers) env l.worker_id none task.id l.lease_id true v)

    wake-Safe :
        Exited env l.worker_id → (w : World) → Safe (contract env workers) (wake env task l) w
    unfolding wake
    wake-Safe exited w = Safe-gets-bind (contract env workers) _ _ _ (
        Safe-gets-bind (contract env workers) _ _ _ (
          Safe-lift-bind (contract env workers) _ _ _ λ woken e.
            let m =
              (transition_task_iff task TaskState.running (some l.lease_id) false _
                  (assign (some l)) woken).0
                e in
            Safe-then (contract env workers) _ _ _
              (commit_change-Safe env workers woken _ _ task (some (dispatch_resume env task l)) _
                (λ n. resumes l is_waiting held exited (rw m.1 refl) (rw (m.1, held) refl))
                (λ v t stored k. dispatch_resume-Safe t v (
                  rw k record {
                    stored = rw (← k) stored;
                    state = rw m.1 refl;
                    held = rw m.1 refl;
                    worker = refl;
                  })))
              (λ a v. report-Safe (contract env workers) _ v)))

    resume_on-Safe :
        (alive : Option Bool) (w : World)
        → (alive ≡ some false → Exited env l.worker_id)
        → Safe (contract env workers) (resume_on env task l alive) w
    resume_on-Safe none w h = report-Safe (contract env workers) _ w
    resume_on-Safe (some true) w h = report-Safe (contract env workers) _ w
    resume_on-Safe (some false) w h = wake-Safe (h refl) w

  poll_and_resume-Safe : (w : World) → Safe (contract env workers) (poll_and_resume env task) w
  unfolding poll_and_resume
  poll_and_resume-Safe w =
      Safe-bind (contract env workers) w _ _ (the_lease-Safe (contract env workers) task w)
        λ l es q.
          Safe-bind (contract env workers) _ _ _
            (poll-Safe (contract env workers) env.executor l.worker_id _)
            λ obs fs a. resume_on-Safe l (the_lease-ok task w q) obs.alive _ λ dead. record {
              obs = obs;
              observed = record {
                at = after w es;
                answered = poll-answer env.executor l.worker_id _ a;
              };
              dead = dead;
            }

  pub resume-Safe : (w : World) → Safe (contract env workers) (resume env task) w
  unfolding resume
  resume-Safe w =
      Safe-then (contract env workers) w _ _ (deployment-Safe (contract env workers) w) λ control v.
        Safe-if (contract env workers) v (withholds control)
          (λ e. Safe-pure (contract env workers) v tt)
          λ e.
            Safe-then (contract env workers) v _ _
              (preflight-Safe (contract env workers) env task v)
              λ accepts u.
                Safe-if (contract env workers) u accepts (λ e. poll_and_resume-Safe u)
                  (λ e. Safe-pure (contract env workers) u tt)
