-- ===== src/Runtime/Reconciler/Contract.antt =====
-- The reconciler keeps its contract: the parts that several of its steps share.
pub mod Launch
pub mod Start
pub mod Resume
pub mod Receipts
pub mod Running
pub mod Rotation
pub mod Registry
pub mod Pass
use agent_farm_runtime.Prelude.{
  ◌≡◌, refl, String, Option, none, some, Bool, true, List, ℕ, lookup, arith, ◌+◌, inl, inr,
  Option-cases,
}
use agent_farm_runtime.Runtime.Metadata.{Metadata, update, iso}
use agent_farm_runtime.Runtime.Models.{Lease, Task, Worker, Payload, Event}
use agent_farm_runtime.Runtime.Result.{Result, ok}
use agent_farm_runtime.Runtime.Transitions.{acquire_lease, rotate_lease}
use agent_farm_runtime.Runtime.World.{
  launch, resume, stop, ReportLine, put_observed, reported, Effect, World, Act, pure, raise, after,
  effect, ask,
}
use agent_farm_runtime.Runtime.World.Policy.{
  Policy, Allows, Safe, Safe-then, Safe-pure, Safe-ask, Safe-effect, Safe-catch, Safe-gets-bind,
  safe_rules,
}
use agent_farm_runtime.Runtime.Executor.{
  WorkerObservation, Executor, launch_worker, resume_worker, poll, stop_worker,
}
use agent_farm_runtime.Runtime.Store.{revised, revision_of}
use agent_farm_runtime.Runtime.Store.Calls.{commit-Safe, SafeDispatch}
use agent_farm_runtime.Runtime.Reconciler.{
  Env, the_lease, report, commit_change, observe, preflight_by, preflight_failed, preflight,
  or_no_lease,
}
use agent_farm_runtime.Runtime.Reconciler.Moves.{Move, Planned, contract}

pub the_lease-ok :
    (task : Task) (w : World) {l : Lease} {es : List Effect}
    → the_lease task w ≡ (ok l, es)
    → task.lease ≡ some l
unfolding pure raise
the_lease-ok task w h = ground arith

pub poll-answer :
    (executor : Executor) (worker_id : String) (w : World) {obs : WorkerObservation}
    {es : List Effect}
    → poll executor worker_id w ≡ (ok obs, es)
    → executor.poll_answer w worker_id ≡ ok obs
unfolding poll ask
poll-answer executor worker_id w h = cc

module _ (p : Policy) where
  pub report-Safe : (line : ReportLine) (w : World) → Safe p (report line) w
  unfolding Allows
  report-Safe line w = Safe-effect p w (reported line) tt

  Safe-put_observed : (v : Worker) (w : World) → Safe p (effect (put_observed v)) w
  unfolding Allows
  Safe-put_observed v w = Safe-effect p w (put_observed v) tt

  pub observe-Safe :
      (env : Env) (worker_id : String) (handle : Option String) (task_id lease_id : String)
      (alive : Bool) (w : World)
      → Safe p (observe env worker_id handle task_id lease_id alive) w
  unfolding observe
  observe-Safe env worker_id handle task_id lease_id alive w =
      search (safe_rules, Safe-put_observed)

  preflight_by-Safe :
      (env : Env) (o : Option (World → Task → Result (Unit {0}))) (task : Task) (w : World)
      → Safe p (preflight_by env o task) w
  preflight_by-Safe env none task w = Safe-pure p w true
  preflight_by-Safe env (some validate) task w =
      Safe-catch p w _ (preflight_failed env task) (search safe_rules)
        (λ e v. search (safe_rules, report-Safe))

  pub preflight-Safe : (env : Env) (task : Task) (w : World) → Safe p (preflight env task) w
  unfolding preflight
  preflight-Safe env task w = preflight_by-Safe env env.executor.validate_task task w

  or_no_lease-Safe : (o : Option Lease) (w : World) → Safe p (or_no_lease o) w
  or_no_lease-Safe none w = search safe_rules
  or_no_lease-Safe (some l) w = search safe_rules

  pub the_lease-Safe : (task : Task) (w : World) → Safe p (the_lease task) w
  the_lease-Safe task w = or_no_lease-Safe task.lease w

  module _ (executor : Executor) where
    pub stop_worker-Safe :
        (worker_id : String) (w : World)
        → p.stops worker_id
        → Safe p (stop_worker executor worker_id) w
    unfolding stop_worker Allows
    stop_worker-Safe worker_id w h =
        Safe-then p w _ _ (Safe-effect p w (stop worker_id) h) (λ a v. Safe-ask p v _)

    pub launch_worker-Safe :
        (task : Task) (lease : Lease) (w : World)
        → p.launches w task lease
        → Safe p (launch_worker executor task lease) w
    unfolding launch_worker Allows
    launch_worker-Safe task lease w h =
        Safe-then p w _ _ (Safe-effect p w (launch task lease) h) (λ a v. Safe-ask p v _)

    pub resume_worker-Safe :
        (task : Task) (worker_id : String) (lease : Lease) (w : World)
        → p.resumes w task worker_id lease
        → Safe p (resume_worker executor task worker_id lease) w
    unfolding resume_worker Allows
    resume_worker-Safe task worker_id lease w h =
        Safe-then p w _ _ (Safe-effect p w (resume task worker_id lease) h) (λ a v. Safe-ask p v _)

    pub poll-Safe : (worker_id : String) (w : World) → Safe p (poll executor worker_id) w
    unfolding poll
    poll-Safe worker_id w = Safe-ask p w _

module _ (env : Env) (workers : List Worker) where
  pub commit_change-Safe :
      (new_task : Task) (event_type : String) (payload : Payload) (expected : Task)
      (dispatch : Option (Task → Act (Unit {0}))) (w : World)
      → ((n : ℕ) → Move env workers expected (revised new_task n))
      → ((v : World) (t : Task)
          → lookup new_task.id v.disk.tasks ≡ some t
          → t ≡ revised new_task (revision_of (some expected) + 1)
          → SafeDispatch (contract env workers) dispatch v t)
      → Safe
          (contract env workers)
          (commit_change env new_task event_type payload expected dispatch)
          w
  unfolding commit_change
  commit_change-Safe new_task event_type payload expected dispatch w mv h =
      Safe-gets-bind (contract env workers) w _ _ (
        commit-Safe (contract env workers) env.outside new_task (some expected) event_type env.actor
          payload (some (iso (env.outside.now w))) (λ v. planned _) dispatch (some env.epoch) w h)
    where
      planned :
          {n : ℕ} (e : Event)
          → Planned env workers
              (record { before = some expected; after = revised new_task n; event = e })
      planned e = record { before = expected; same = refl; move = mv _ }

  -- A commit that no call follows.
  pub record_change-Safe :
      (new_task : Task) (event_type : String) (payload : Payload) (expected : Task) (w : World)
      → ((n : ℕ) → Move env workers expected (revised new_task n))
      → Safe (contract env workers) (commit_change env new_task event_type payload expected none) w
  record_change-Safe new_task event_type payload expected w mv =
      commit_change-Safe new_task event_type payload expected none w mv (λ v t h k. tt)

pub acquire_lease-ok :
    (b t : Task) (l : Lease) (patch : Metadata)
    → acquire_lease b l patch ≡ ok t
    → (b.lease ≡ none) × (t ≡ record b { lease = some l; metadata = update b.metadata patch })
unfolding acquire_lease
acquire_lease-ok b t l patch h = (ground arith, ground arith)

pub rotate_lease-ok :
    (b t : Task) (dead reason : String)
    → rotate_lease b dead reason ≡ ok t
    → (l : Lease) × (b.lease ≡ some l) × (l.worker_id ≡ dead) × (t ≡ record b { lease = none })
unfolding rotate_lease
rotate_lease-ok b t dead reason h = elim (Option-cases b.lease) [
  | inl e ↦ absurd (ground arith)
  | inr (l, e) ↦ (l, e, ground arith, ground arith)
]
