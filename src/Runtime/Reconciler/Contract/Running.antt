-- ===== src/Runtime/Reconciler/Contract/Running.antt =====
-- The turn of a RUNNING task in src/agent_farm_runtime/reconciler.py keeps the contract.
use agent_farm_runtime.Prelude.{
  ◌≡◌, refl, Option, none, some, Bool, true, false, List, arith, inl, inr, Bool-cases, ℕ,
  Option-cases,
}
use agent_farm_runtime.Runtime.Metadata.{present, get, Timestamp, iso, unparsed}
use agent_farm_runtime.Runtime.Models.{TaskState, Lease, Task, Worker, Receipt}
use agent_farm_runtime.Runtime.Result.{ok}
use agent_farm_runtime.Runtime.World.{pure, ◌>>=◌, go_on, effect, World, Effect, after}
use agent_farm_runtime.Runtime.World.Policy.{
  Safe, Safe-bind, Safe-then, Safe-pure, Safe-if, Safe-gets-bind, safe_rules,
}
use agent_farm_runtime.Runtime.Reconciler.{
  Env, durably_dead, parse, find_worker, or_else, heartbeat_of,
}
use agent_farm_runtime.Runtime.Reconciler.Running.{
  is_stale, is_progress, fenced, verify_executor, verify_alive, found_dead, on_liveness, on_receipt,
  reconcile_leased, clear_error,
}
use agent_farm_runtime.Runtime.Reconciler.Moves.{
  Reported, Observed, Exited, unowned, notes, contract, SignOfLife, beat, launched, Aged,
}
use agent_farm_runtime.Runtime.Reconciler.Contract.{
  report-Safe, observe-Safe, poll-Safe, poll-answer, record_change-Safe,
}
use agent_farm_runtime.Runtime.Reconciler.Contract.Start.{start-Safe, adopt-Safe}
use agent_farm_runtime.Runtime.Reconciler.Contract.Receipts.{apply_receipt-Safe}

parse-iso : (o : Option Timestamp) (t : ℕ) → parse o ≡ some t → o ≡ some (iso t)
parse-iso none t h = absurd (cc)
parse-iso (some (iso s)) t h = cc
parse-iso (some (unparsed s)) t h = absurd (cc)

module _ (env : Env) (workers : List Worker) (task : Task) (l : Lease) where
  heartbeat-SignOfLife :
      (v : Worker) (seen : ℕ) (o : Option Timestamp)
      → find_worker l.worker_id workers ≡ some v
      → v.heartbeat ≡ o
      → or_else (parse o) (parse (get task.metadata.launched_ts)) ≡ some seen
      → SignOfLife env workers task l seen
  heartbeat-SignOfLife v seen none f e h = launched (λ u t g k. absurd (cc)) (parse-iso _ seen h)
  heartbeat-SignOfLife v seen (some (iso t)) f e h =
      let same : t ≡ seen = cc in beat v f (rw (e, same) refl)
  heartbeat-SignOfLife v seen (some (unparsed s)) f e h =
      launched (λ u t g k. absurd (cc)) (parse-iso _ seen h)

  baseline-SignOfLife :
      (o : Option Worker) (seen : ℕ)
      → find_worker l.worker_id workers ≡ o
      → or_else (parse (heartbeat_of o)) (parse (get task.metadata.launched_ts)) ≡ some seen
      → SignOfLife env workers task l seen
  baseline-SignOfLife none seen f h = launched (λ u t g k. absurd (cc)) (parse-iso _ seen h)
  baseline-SignOfLife (some v) seen f h = heartbeat-SignOfLife v seen v.heartbeat f refl h

  -- The age gate, in the words of the contract.
  durably_dead-Aged :
      (now : ℕ) → durably_dead env now task l workers ≡ true → Aged env workers task l now
  unfolding durably_dead
  durably_dead-Aged now h =
      let w = find_worker l.worker_id workers in
      elim (Option-cases
        (or_else (parse (heartbeat_of w)) (parse (get task.metadata.launched_ts)))) [
          | inl e ↦ let q = rw (e, durably_dead) at h in absurd (cc)
          | inr (seen, e) ↦
              let q = rw (e, durably_dead) at h in
              record {
                seen = seen;
                sign = baseline-SignOfLife w seen refl e;
                passed = ground arith;
              }
        ]

module _ (env : Env) (workers : List Worker) (task : Task) (l : Lease)
    (is_running : task.state ≡ TaskState.running) (held : task.lease ≡ some l) where
  verify_executor-Safe : (w : World) → Safe (contract env workers) (verify_executor env task) w
  unfolding verify_executor
  verify_executor-Safe w =
      Safe-if (contract env workers) w (present task.metadata.runtime_error)
        (λ e.
          Safe-then (contract env workers) w _ _
            (record_change-Safe env workers (clear_error task) _ _ task w (λ n. notes refl refl))
            (λ a v. Safe-pure (contract env workers) v tt))
        (λ e. Safe-pure (contract env workers) w tt)

  verify_alive-Safe : (w : World) → Safe (contract env workers) (verify_alive env task l) w
  unfolding verify_alive
  verify_alive-Safe w = Safe-then (contract env workers) w _ _ (verify_executor-Safe w) λ a v.
      Safe-then (contract env workers) v _ _
        (observe-Safe (contract env workers) env _ _ _ _ true v)
        λ b u. report-Safe (contract env workers) _ u

  found_dead-Safe :
      Exited env l.worker_id
      → (w : World) → Safe (contract env workers) (found_dead env task l workers) w
  unfolding found_dead
  found_dead-Safe exited w =
      Safe-if (contract env workers) w (present task.metadata.runtime_error)
        (λ e. report-Safe (contract env workers) _ w)
        (λ no_error.
          Safe-if (contract env workers) w (present task.metadata.rotation_request)
            (λ e. report-Safe (contract env workers) _ w)
            (λ no_rotation. Safe-gets-bind (contract env workers) w _ _ (
              Safe-if (contract env workers) w (durably_dead env (env.outside.now w) task l workers)
                (λ aged.
                  adopt-Safe env workers task l is_running held
                    (record {
                      exited = exited;
                      at = w;
                      aged = durably_dead-Aged env workers task l (env.outside.now w) aged;
                      no_error = no_error;
                      no_rotation = no_rotation;
                    })
                    w)
                (λ e. report-Safe (contract env workers) _ w))))

  on_liveness-Safe :
      (alive : Option Bool)
      → (alive ≡ some false → Exited env l.worker_id)
      → (w : World) → Safe (contract env workers) (on_liveness env task l workers alive) w
  on_liveness-Safe none h w = report-Safe (contract env workers) _ w
  on_liveness-Safe (some true) h w = verify_alive-Safe w
  on_liveness-Safe (some false) h w = found_dead-Safe (h refl) w

  on_receipt-Safe :
      (alive : Option Bool) (o : Option Receipt)
      → (alive ≡ some false → Exited env l.worker_id)
      → ((r : Receipt) → o ≡ some r → Reported env task l r)
      → (w : World) → Safe (contract env workers) (on_receipt env task l workers alive o) w
  unfolding on_receipt
  on_receipt-Safe alive none h k w = on_liveness-Safe alive h w
  on_receipt-Safe alive (some r) h k w =
      Safe-if (contract env workers) w (is_progress r) (λ e. on_liveness-Safe alive h w)
        (λ e. apply_receipt-Safe env workers task r alive l is_running held (k r refl) w)

-- A receipt that passes the fence is the given one, and fresh.
fenced-ok :
    (env : Env) (task : Task) (l : Lease) (o o' : Option Receipt) (w : World) (es : List Effect)
    → fenced env task l o w ≡ (ok o', es)
    → (r : Receipt) → o' ≡ some r
    → (o ≡ some r) × (is_stale task l r ≡ false)
unfolding fenced pure ◌>>=◌ go_on effect after
fenced-ok env task l none o' w es h r k = absurd (cc)
fenced-ok env task l (some s) o' w es h r k = elim (Bool-cases (is_stale task l s)) [
  | inl e ↦ let q = rw e at h in absurd (cc)
  | inr e ↦ let q = rw e at h in (cc, ground arith)
]

module _ (env : Env) (workers : List Worker) where
  fenced-Safe :
      (task : Task) (l : Lease) (o : Option Receipt) (w : World)
      → Safe (contract env workers) (fenced env task l o) w
  unfolding fenced
  fenced-Safe task l none w = search safe_rules
  fenced-Safe task l (some r) w = search (safe_rules, report-Safe)

  pub reconcile_leased-Safe :
      (task : Task) (o : Option Lease)
      → task.state ≡ TaskState.running
      → task.lease ≡ o
      → (w : World) → Safe (contract env workers) (reconcile_leased env task workers o) w
  reconcile_leased-Safe task none r h w = start-Safe env workers task (unowned r) w
  reconcile_leased-Safe task (some l) r h w =
      Safe-bind (contract env workers) w _ _
        (poll-Safe (contract env workers) env.executor l.worker_id w)
        λ obs es a.
          let seen : Observed env l.worker_id obs = record {
            at = w;
            answered = poll-answer env.executor l.worker_id w a;
          } in
          Safe-bind (contract env workers) _ _ _ (fenced-Safe task l obs.receipt _) λ o fs q.
            on_receipt-Safe env workers task l r h obs.alive o
              (λ dead. record { obs = obs; observed = seen; dead = dead })
              (λ receipt k.
                let f = fenced-ok env task l obs.receipt o _ fs q receipt k in
                record { obs = obs; observed = seen; given = f.0; fresh = f.1 })
              _
