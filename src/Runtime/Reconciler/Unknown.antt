-- ===== src/Runtime/Reconciler/Unknown.antt =====
-- What a turn of src/agent_farm_runtime/reconciler.py does to a task whose worker is UNKNOWN.
use mathlib.Core.Bool.{false≢true}
use agent_farm_runtime.Prelude.{
  ◌≡◌, sym, ◌∙◌, Option, none, some, Bool, true, false, List, All, arith, ◌!=◌, ◌||◌, string_eq,
}
use agent_farm_runtime.Runtime.Metadata.{get, RotationRequest}
use agent_farm_runtime.Runtime.Models.{Lease, Task}
use agent_farm_runtime.Runtime.Result.{Result, ok}
use agent_farm_runtime.Runtime.World.{World, Effect, after}
use agent_farm_runtime.Runtime.World.Quiet.{
  IsReport, Quiet, Quiet-pure, Quiet-if, Quiet-catch, Quiet-ask, Quiet-bind, Quiet-then,
  Quiet-report, quiet_rules,
}
use agent_farm_runtime.Runtime.Deployment.{deployment}
use agent_farm_runtime.Runtime.Rotation.{clean_surrender, has_lease}
use agent_farm_runtime.Runtime.Executor.{WorkerObservation, poll}
use agent_farm_runtime.Runtime.Reconciler.{
  Env, withholds, the_lease, preflight, preflight_by, preflight_failed,
}
use agent_farm_runtime.Runtime.Reconciler.Resume.{resume, poll_and_resume, resume_on}
use agent_farm_runtime.Runtime.Reconciler.Receipts.{
  surrender, surrender_with, surrender_checkpoint, is_dead,
}
use agent_farm_runtime.Runtime.Reconciler.Pass.{
  asked, may_resume, waits_at_limit, reconcile_held, reconcile_requested, reconcile_waiting,
}
use agent_farm_runtime.Runtime.Reconciler.Contract.{poll-answer, the_lease-ok}

-- Only lines of the report, and the files as they were
abbrev pub IsQuiet : World → Result (Unit {0}) × List Effect → Type 0
IsQuiet w (r, es) = All IsReport es × ((after w es).disk ≡ w.disk)

module _ (env : Env) (task : Task) (l : Lease) (held : task.lease ≡ some l)
    (unknown : (v : World) (obs : WorkerObservation)
      → env.executor.poll_answer v l.worker_id ≡ ok obs
      → obs.alive ≡ none) where
  poll-Quiet : (id : _) (w : World) → Quiet (poll env.executor id) w
  unfolding poll
  poll-Quiet id w = Quiet-ask w _

  the_lease-Quiet : (w : World) → Quiet (the_lease task) w
  the_lease-Quiet w = rw held (Quiet-pure w l)

  deployment-Quiet : (w : World) → Quiet deployment w
  unfolding deployment
  deployment-Quiet w = search quiet_rules depth 20

  preflight_by-Quiet :
      (o : Option (World → Task → Result (Unit {0}))) (w : World)
      → Quiet (preflight_by env o task) w
  preflight_by-Quiet none w = Quiet-pure w true
  preflight_by-Quiet (some validate) w =
      Quiet-catch w _ (preflight_failed env task) (search quiet_rules) (λ e v. search quiet_rules)

  preflight-Quiet : (w : World) → Quiet (preflight env task) w
  unfolding preflight
  preflight-Quiet w = preflight_by-Quiet env.executor.validate_task w

  resume_on-Quiet :
      (alive : Option Bool) (w : World) → alive ≡ none → Quiet (resume_on env task l alive) w
  resume_on-Quiet none w e = Quiet-report w _
  resume_on-Quiet (some b) w e = absurd (cc)

  -- The answer of a poll of the holder
  answered-none :
      (m : Lease) (w : World) {obs : WorkerObservation} {es : List Effect}
      → task.lease ≡ some m
      → poll env.executor m.worker_id w ≡ (ok obs, es)
      → (m ≡ l) × (obs.alive ≡ none)
  answered-none m w {obs = obs} h a =
      let same : m ≡ l = cc in
      let p = poll-answer env.executor m.worker_id w a in (same, unknown w obs (rw same at p))

  poll_and_resume-Quiet : (w : World) → Quiet (poll_and_resume env task) w
  unfolding poll_and_resume
  poll_and_resume-Quiet w = Quiet-bind w _ _ (the_lease-Quiet w) λ m es q.
      Quiet-bind _ _ _ (poll-Quiet m.worker_id _) λ obs fs a.
        let (same, u) = answered-none m _ (the_lease-ok task w q) a in
        rw same (resume_on-Quiet obs.alive _ u)

  resume-Quiet : (w : World) → Quiet (resume env task) w
  unfolding resume
  resume-Quiet w = Quiet-then w _ _ (deployment-Quiet w) λ control v.
      Quiet-if v (withholds control) (λ e. Quiet-pure v tt)
        λ e.
          Quiet-then v _ _ (preflight-Quiet v)
            λ accepts u. Quiet-if u accepts (λ e. poll_and_resume-Quiet u) (λ e. Quiet-pure u tt)

  asked-Quiet : (o : Option (World → Task → Result Bool)) (w : World) → Quiet (asked env o task) w
  asked-Quiet none w = Quiet-pure w false
  asked-Quiet (some f) w = Quiet-ask w _

  -- A task with a lease has no clean surrender.
  held-unsurrendered : clean_surrender task ≡ false
  unfolding clean_surrender
  held-unsurrendered = ground arith

  reconcile_held-Quiet : (w : World) → Quiet (reconcile_held env task) w
  unfolding reconcile_held may_resume
  reconcile_held-Quiet w =
      Quiet-if w (waits_at_limit env task) (λ e. Quiet-pure w tt)
        λ e.
          Quiet-if w (clean_surrender task) (λ c. absurd (false≢true (sym held-unsurrendered ∙ c)))
            (λ c.
              Quiet-if w (has_lease task)
                (λ e.
                  Quiet-then w _ _ (asked-Quiet env.unblock w)
                    λ go v. Quiet-if v go (λ e. resume-Quiet v) (λ e. Quiet-pure v tt))
                (λ e. Quiet-pure w tt))

  surrender_with-Quiet :
      (request : RotationRequest) (m : Lease) (o : Option _) (w : World)
      → task.lease ≡ some m
      → Quiet (surrender_with env task request m o) w
  surrender_with-Quiet request m none w h = Quiet-report w _
  surrender_with-Quiet request m (some c) w h =
      Quiet-bind w _ _ (poll-Quiet m.worker_id w) λ obs fs a.
        let (same, u) = answered-none m w h a in
        Quiet-if (after w fs) (is_dead env obs.alive) (λ d. absurd (false≢true (rw u at d)))
          (λ d. Quiet-report _ _)

  surrender-Quiet : (request : RotationRequest) (w : World) → Quiet (surrender env task request) w
  unfolding surrender
  surrender-Quiet request w = Quiet-bind w _ _ (the_lease-Quiet w) λ m es q.
      Quiet-if (after w es) (request.worker_id != m.worker_id || request.lease_id != m.lease_id)
        (λ e. Quiet-report (after w es) _)
        (λ e.
          surrender_with-Quiet request m (surrender_checkpoint env request m task) (after w es)
            (the_lease-ok task w q))

  requested-Quiet :
      (o : Option RotationRequest) (w : World) → Quiet (reconcile_requested env task o) w
  requested-Quiet none w = reconcile_held-Quiet w
  requested-Quiet (some request) w =
      Quiet-if w (has_lease task) (λ e. surrender-Quiet request w) (λ e. reconcile_held-Quiet w)

  pub waiting-Quiet : (w : World) → Quiet (reconcile_waiting env task) w
  unfolding reconcile_waiting
  waiting-Quiet w = requested-Quiet (get task.metadata.rotation_request) w
