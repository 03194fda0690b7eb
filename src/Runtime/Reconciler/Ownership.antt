-- ===== src/Runtime/Reconciler/Ownership.antt =====
-- What the contract says of the states and the leases that a pass of
-- src/agent_farm_runtime/reconciler.py writes.
use agent_farm_runtime.Prelude.{◌≡◌, ◌≢◌, sym, ◌∙◌, some, true, false, List, [], ◌∷◌, leb, values}
use agent_farm_runtime.Runtime.Models.{TaskState, ReceiptStatus, Lease, Task, Worker, Receipt}
use agent_farm_runtime.Runtime.Equality.{TaskState-discrete}
use agent_farm_runtime.Runtime.Result.{ok}
use agent_farm_runtime.Runtime.World.{
  Effect, prepare, install, append, sync_log, clear_journal, put_observed, put_deployment, seal,
  launch, resume, stop, reported, World, step,
}
use agent_farm_runtime.Runtime.World.Policy.{Policy, Allows, Obeys}
use agent_farm_runtime.Runtime.Reconciler.{Env, receipt_target, named, restarts_of}
use agent_farm_runtime.Runtime.Reconciler.Pass.{reconcile_once}
use agent_farm_runtime.Runtime.Reconciler.Moves.{
  Exited, Reported, Move, starts, adopts, pauses, advances, resumes, surrenders, notes, contract,
}
use agent_farm_runtime.Runtime.Reconciler.Contract.Pass.{reconcile_once-Obeys}

-- The holder of the lease exited, or gave a receipt that ends its execution.
pub data Ended (env : Env) (b t : Task) (old : Lease) : Type 0 where
  exited : Exited env old.worker_id → Ended env b t old
  reported_end :
      (receipt : Receipt)
      → Reported env b old receipt
      → receipt_target receipt.status ≡ ok t.state
      → t.state ≢ TaskState.waiting
      → Ended env b t old

-- What a pass may write over a task.
pub record IsOwned (env : Env) (b t : Task) : Type 0 where
  pub done : t.state ≡ TaskState.done → b.state ≡ TaskState.done
  pub lease : (old : Lease) → b.lease ≡ some old → t.lease ≢ some old → Ended env b t old
  pub budget :
      (old new : Lease)
      → b.lease ≡ some old
      → t.lease ≡ some new
      → old ≢ new
      → named (some old.worker_id) ≡ true
      → leb env.max_auto_restarts (restarts_of b) ≡ false

target_not_done : (s : ReceiptStatus) (t : TaskState) → receipt_target s ≡ ok t → t ≢ TaskState.done
target_not_done ReceiptStatus.running t h e = absurd (cc)
target_not_done ReceiptStatus.awaiting t h e = absurd (cc)
target_not_done ReceiptStatus.submitted t h e = absurd (cc)
target_not_done ReceiptStatus.failed t h e = absurd (cc)

some-injective : {a b : Lease} → some a ≡ some b → a ≡ b
some-injective h = cc

Move-IsOwned :
    (env : Env) (workers : List Worker) (b t : Task) → Move env workers b t → IsOwned env b t
Move-IsOwned env workers b t (starts l free s r) = record {
  done = λ e. absurd (let q = r.state in cc);
  lease = λ old h n. absurd (cc);
  budget = λ old new h k n m. absurd (cc);
}
Move-IsOwned env workers b t (adopts old l s held d under r) = record {
  done = λ e. absurd (let q = r.state in cc);
  lease = λ o h n. (rw (some-injective (sym h ∙ held)) (exited d.exited));
  budget = λ o new h k n m. under (rw (← some-injective (sym h ∙ held)) m);
}
Move-IsOwned env workers b t (pauses old s held d over s' l') = record {
  done = λ e. absurd (cc);
  lease = λ o h n. absurd (n (l' ∙ h));
  budget = λ o new h k n m. absurd (n (some-injective (sym h ∙ sym l' ∙ k)));
}
Move-IsOwned env workers b t (advances l receipt s held given target stays leaves) = record {
  done = λ e. absurd (target_not_done receipt.status t.state target e);
  lease = λ o h n.
      reported_end receipt (rw (some-injective (sym h ∙ held)) given) target (λ w. n (stays w ∙ h));
  budget = λ o new h k n m. elim (TaskState-discrete t.state TaskState.waiting) [
    | yes w ↦ absurd (n (some-injective (sym h ∙ sym (stays w) ∙ k)))
    | no w ↦ let q = leaves w in absurd (cc)
  ];
}
Move-IsOwned env workers b t (resumes l s held e s' l') = record {
  done = λ e. absurd (cc);
  lease = λ o h n. absurd (n (l' ∙ h));
  budget = λ o new h k n m. absurd (n (some-injective (sym h ∙ sym l' ∙ k)));
}
Move-IsOwned env workers b t (surrenders l s w held e r i s' l') = record {
  done = λ e. absurd (cc);
  lease = λ o h n. (rw (some-injective (sym h ∙ held)) (exited e));
  budget = λ o new h k n m. absurd (cc);
}
Move-IsOwned env workers b t (notes s l) = record {
  done = λ e. sym s ∙ e;
  lease = λ o h n. absurd (n (l ∙ h));
  budget = λ o new h k n m. absurd (n (some-injective (sym h ∙ sym l ∙ k)));
}

-- A commit that a pass writes, over the task that it replaces.
abbrev pub owned_writes : Env → Policy
owned_writes env = record {
  prepares = λ txn. (b : Task) × (txn.before ≡ some b) × IsOwned env b txn.after;
  launches = λ w t l. Unit;
  resumes = λ w t id l. Unit;
  stops = λ id. Unit;
}

weaken :
    (env : Env) (workers : List Worker) (w : World) (es : List Effect)
    → Obeys (contract env workers) w es
    → Obeys (owned_writes env) w es
unfolding Obeys Allows step
weaken env workers w [] h = tt
weaken env workers w (prepare txn ∷ es) (a, h) = (
  (a.before, a.same, Move-IsOwned env workers a.before txn.after a.move),
  weaken env workers (step w (prepare txn)) es h,
)
weaken env workers w (launch t l ∷ es) (a, h) = (tt, weaken env workers (step w (launch t l)) es h)
weaken env workers w (resume t id l ∷ es) (a, h) =
    (tt, weaken env workers (step w (resume t id l)) es h)
weaken env workers w (stop id ∷ es) (a, h) = (tt, weaken env workers (step w (stop id)) es h)
weaken env workers w (install t ∷ es) (a, h) = (tt, weaken env workers (step w (install t)) es h)
weaken env workers w (append e ∷ es) (a, h) = (tt, weaken env workers (step w (append e)) es h)
weaken env workers w (sync_log ∷ es) (a, h) = (tt, weaken env workers (step w (sync_log)) es h)
weaken env workers w (clear_journal ∷ es) (a, h) =
    (tt, weaken env workers (step w (clear_journal)) es h)
weaken env workers w (put_observed v ∷ es) (a, h) =
    (tt, weaken env workers (step w (put_observed v)) es h)
weaken env workers w (put_deployment m ∷ es) (a, h) =
    (tt, weaken env workers (step w (put_deployment m)) es h)
weaken env workers w (seal id a ∷ es) (b, h) = (tt, weaken env workers (step w (seal id a)) es h)
weaken env workers w (reported line ∷ es) (a, h) =
    (tt, weaken env workers (step w (reported line)) es h)

-- Every commit that a pass writes is over a task, and: it makes a task DONE only if it was DONE; a
-- lease leaves its worker only if the worker was observed dead or gave, for this task and lease, a
-- receipt that ends the execution; and a lease goes from a worker to another only while the task
-- has restarted fewer times than the budget allows.
pub reconcile_once-IsOwned :
    (env : Env) (w : World) → Obeys (owned_writes env) w (reconcile_once env w).1
reconcile_once-IsOwned env w =
    weaken env (values w.disk.workers) w (reconcile_once env w).1 (reconcile_once-Obeys env w)
