-- ===== src/Runtime/Reconciler/Contract/Receipts.antt =====
-- `_apply_receipt` and `_surrender` of src/agent_farm_runtime/reconciler.py keep the contract of the
-- reconciler.
use agent_farm_runtime.Prelude.{
  ◌≡◌, refl, String, Option, none, some, Bool, true, false, not, arith, nonempty, if◌then◌else◌,
  string_eq, ◌!=◌, ◌||◌, List,
}
use mathlib.Core.Bool.{false≢true}
use agent_farm_runtime.Runtime.Metadata.{Metadata, get, Checkpoint, RotationRequest}
use agent_farm_runtime.Runtime.Models.{TaskState, Lease, Task, Receipt, Worker}
use agent_farm_runtime.Runtime.Result.{Error, ok}
use agent_farm_runtime.Runtime.Transitions.{assign}
use agent_farm_runtime.Runtime.Transitions.Graph.{transition_task_iff}
use agent_farm_runtime.Runtime.World.{World}
use agent_farm_runtime.Runtime.World.Policy.{
  Safe, Safe-bind, Safe-then, Safe-pure, Safe-if, Safe-gets-bind, Safe-lift-bind, Safe-catch,
  safe_rules,
}
use agent_farm_runtime.Runtime.Files.{snapshot_file}
use agent_farm_runtime.Runtime.Reconciler.{Env, receipt_target}
use agent_farm_runtime.Runtime.Reconciler.Receipts.{
  is_waiting, observe_known, receipt_checkpoint, advance, advance_with, advance_at,
  checkpoint_failed, surrender_with, wait_at, apply_receipt, surrender_of, retire_worker, is_dead,
  surrender, wrong_rotation,
}
use agent_farm_runtime.Runtime.Reconciler.Moves.{
  Exited, Reported, advances, surrenders, ended, contract,
}
use agent_farm_runtime.Runtime.Reconciler.Contract.{
  report-Safe, observe-Safe, the_lease-Safe, the_lease-ok, poll-Safe, poll-answer, stop_worker-Safe,
  record_change-Safe, rotate_lease-ok,
}

is_waiting-true :
    (target : TaskState) → not (is_waiting target) ≡ false → target ≡ TaskState.waiting
is_waiting-true target h = ground arith

is_dead-false : (env : Env) (o : Option Bool) → is_dead env o ≡ true → o ≡ some false
is_dead-false env none h = absurd (false≢true h)
is_dead-false env (some true) h = absurd (false≢true h)
is_dead-false env (some false) h = refl

module _ (env : Env) (workers : List Worker) (task : Task) where
  module _ (receipt : Receipt) (alive : Option Bool) (l : Lease)
      (is_running : task.state ≡ TaskState.running) (held : task.lease ≡ some l)
      (given : Reported env task l receipt) where
    observe_known-Safe :
        (h : Lease) (o : Option Bool) (w : World)
        → Safe (contract env workers) (observe_known env receipt task h o) w
    observe_known-Safe h none w = Safe-pure (contract env workers) w tt
    observe_known-Safe h (some b) w = observe-Safe (contract env workers) env _ _ _ _ b w

    advance-Safe :
        (target : TaskState) (patch : Metadata)
        → receipt_target receipt.status ≡ ok target
        → (w : World) → Safe (contract env workers) (advance env task receipt target patch alive) w
    unfolding advance
    advance-Safe target patch e w =
        Safe-bind (contract env workers) w _ _ (the_lease-Safe (contract env workers) task w)
          λ h es q. Safe-lift-bind (contract env workers) _ _ _ λ t moves.
            let m =
              (transition_task_iff task target (some h.lease_id) false patch
                  (assign (if is_waiting target then task.lease else none)) t).0
                moves in
            Safe-then (contract env workers) _ _ _
              (record_change-Safe env workers t _ _ task _ λ n.
                advances l receipt is_running held given (rw m.1 e) (rw m.1 (ground arith))
                  (rw m.1 (ground arith)))
              λ a v. Safe-then (contract env workers) v _ _ (observe_known-Safe h alive v) λ b u.
                Safe-then (contract env workers) u _ _ (report-Safe (contract env workers) _ u)
                  λ c x.
                    Safe-if (contract env workers) x (is_waiting target)
                      (λ y. Safe-pure (contract env workers) x tt)
                      λ y.
                        stop_worker-Safe (contract env workers) env.executor receipt.worker_id x
                          (ended task l receipt target refl given e (ground arith))

    receipt_checkpoint-Safe :
        (path : String) (w : World)
        → Safe (contract env workers) (receipt_checkpoint env receipt path) w
    unfolding receipt_checkpoint snapshot_file
    receipt_checkpoint-Safe path w = search safe_rules depth 20

    checkpoint_failed-Safe :
        (e : Error) (w : World) → Safe (contract env workers) (checkpoint_failed env task e) w
    checkpoint_failed-Safe e w = search (safe_rules, report-Safe)

    advance_at-Safe :
        receipt_target receipt.status ≡ ok TaskState.waiting
        → (c : Option Checkpoint) (w : World)
        → Safe (contract env workers) (advance_at env task receipt alive c) w
    advance_at-Safe e none w = Safe-pure (contract env workers) w tt
    advance_at-Safe e (some c) w = advance-Safe TaskState.waiting _ e w

    advance_with-Safe :
        (path : String)
        → receipt_target receipt.status ≡ ok TaskState.waiting
        → (w : World) → Safe (contract env workers) (advance_with env task receipt path alive) w
    unfolding advance_with
    advance_with-Safe path e w =
        Safe-then (contract env workers) w _ _
          (Safe-catch (contract env workers) w _ _
            (Safe-then (contract env workers) w _ _ (receipt_checkpoint-Safe path w)
              (λ c v. Safe-pure (contract env workers) v (some c)))
            (checkpoint_failed-Safe))
          (advance_at-Safe e)

    wait_at-Safe :
        (o : Option String)
        → receipt_target receipt.status ≡ ok TaskState.waiting
        → (w : World) → Safe (contract env workers) (wait_at env task receipt o alive) w
    wait_at-Safe none e w = advance-Safe TaskState.waiting _ e w
    wait_at-Safe (some path) e w =
        Safe-if (contract env workers) w (nonempty path) (λ h. advance_with-Safe path e w)
          (λ h. advance-Safe TaskState.waiting _ e w)

    pub apply_receipt-Safe :
        (w : World) → Safe (contract env workers) (apply_receipt env task receipt alive) w
    unfolding apply_receipt
    apply_receipt-Safe w = Safe-lift-bind (contract env workers) w _ _ λ target e.
        Safe-if (contract env workers) w (not (is_waiting target)) (λ h. advance-Safe target _ e w)
          λ h.
            Safe-if (contract env workers) w
              (wrong_rotation receipt (get task.metadata.rotation_request))
              (λ x. report-Safe (contract env workers) _ w)
              λ x. wait_at-Safe receipt.checkpoint (rw (← is_waiting-true target h) e) w

  module _ (request : RotationRequest) (is_held : task.state ≡ TaskState.waiting) (l : Lease)
      (held : task.lease ≡ some l) where
    retire_worker-Safe :
        (c : Checkpoint)
        → Exited env l.worker_id
        → (w : World) → Safe (contract env workers) (retire_worker env task request l c) w
    unfolding retire_worker
    retire_worker-Safe c exited w = Safe-gets-bind (contract env workers) w _ _ (
        Safe-lift-bind (contract env workers) w _ _ λ t r.
          let (old, had, holder, e) =
            rotate_lease-ok task t l.worker_id "clean checkpoint and confirmed exit" r in
          Safe-then (contract env workers) w _ _
            (record_change-Safe env workers _ _ _ task w λ n.
              surrenders l (surrender_of env task request l c (env.outside.now w)) is_held held
                exited refl (refl, refl) (rw e is_held) (rw e refl))
            (λ a v. report-Safe (contract env workers) _ v))

    surrender_with-Safe :
        (o : Option Checkpoint) (w : World)
        → Safe (contract env workers) (surrender_with env task request l o) w
    surrender_with-Safe none w = report-Safe (contract env workers) _ w
    surrender_with-Safe (some c) w =
        Safe-bind (contract env workers) w _ _
          (poll-Safe (contract env workers) env.executor l.worker_id w)
          λ obs es a.
            Safe-if (contract env workers) _ (is_dead env obs.alive)
              (λ d.
                retire_worker-Safe c
                  (record {
                    obs = obs;
                    observed = record {
                      at = w;
                      answered = poll-answer env.executor l.worker_id w a;
                    };
                    dead = is_dead-false env obs.alive d;
                  })
                  _)
              (λ d. report-Safe (contract env workers) _ _)

  pub surrender-Safe :
      (request : RotationRequest)
      → task.state ≡ TaskState.waiting
      → (w : World) → Safe (contract env workers) (surrender env task request) w
  unfolding surrender
  surrender-Safe request is_held w =
      Safe-bind (contract env workers) w _ _ (the_lease-Safe (contract env workers) task w)
        λ l es q.
          Safe-if (contract env workers) _
            (request.worker_id != l.worker_id || request.lease_id != l.lease_id)
            (λ e. report-Safe (contract env workers) _ _)
            (λ e. surrender_with-Safe request is_held l (the_lease-ok task w q) _ _)
