-- ===== src/Runtime/Reconciler/Contract/Launch.antt =====
-- `_start` of src/agent_farm_runtime/reconciler.py, from the lease to the dispatch: it keeps the contract.
use agent_farm_runtime.Prelude.{
  contains-last, ◌≡◌, refl, sym, ◌∙◌, ap, String, Option, none, some, true, false, List, ◌∷◌, [],
  ◌++◌, ℕ, lookup, nonempty, inl, inr, Bool-cases, string_eq,
}
use mathlib.Core.Path.{subst}
use agent_farm_runtime.Runtime.Metadata.{no_metadata, update}
use agent_farm_runtime.Runtime.Models.{TaskState, Lease, Task, Payload, Worker}
use agent_farm_runtime.Runtime.Result.{Result, ok}
use agent_farm_runtime.Runtime.Transitions.{acquire_lease, assign}
use agent_farm_runtime.Runtime.Transitions.Graph.{transition_task_iff}
use agent_farm_runtime.Runtime.World.{
  step, write, effect, ask, ◌>>=◌, go_on, World, Effect, pure, lift, after,
}
use agent_farm_runtime.Runtime.World.Policy.{
  Safe, Safe-bind, Safe-then, Safe-pure, Safe-gets-bind, Safe-lift-bind, safe_rules,
}
use agent_farm_runtime.Runtime.Store.{revised}
use agent_farm_runtime.Runtime.Executor.{stop_worker}
use agent_farm_runtime.Runtime.Reconciler.{Env, commit_change}
use agent_farm_runtime.Runtime.Reconciler.Start.{
  retire, launch_patch, run_under, is_startable, dispatch_start, stop_dead, launch_under, issued,
}
use agent_farm_runtime.Runtime.Reconciler.Moves.{RunsUnder, Move, Stoppable, contract}
use agent_farm_runtime.Runtime.Reconciler.Contract.{
  report-Safe, observe-Safe, commit_change-Safe, stop_worker-Safe, launch_worker-Safe,
  acquire_lease-ok, rotate_lease-ok,
}

-- A task that was taken from its worker keeps all but the lease.
record Retired (task base : Task) (adopting_from : Option String) : Type 0 where
  state : base.state ≡ task.state
  metadata : base.metadata ≡ task.metadata
  id : base.id ≡ task.id
  lease : adopting_from ≡ none → base.lease ≡ task.lease

retire-Retired :
    (task base : Task) (adopting_from : Option String) (w : World) (es : List Effect)
    → retire task adopting_from w ≡ (ok base, es)
    → Retired task base adopting_from
unfolding retire pure lift
retire-Retired task base none w es h = record {
  state = cc;
  metadata = cc;
  id = cc;
  lease = λ _. cc;
}
retire-Retired task base (some dead) w es h =
    let (l, held, holder, e) =
      rotate_lease-ok task base dead "no heartbeat within the grace time"
        (ap (λ (p : Result Task × List Effect). p.0) h) in
    rw e record { state = refl; metadata = refl; id = refl; lease = λ q. cc }

retire-Safe :
    (env : Env) (workers : List Worker) (task : Task) (adopting_from : Option String) (w : World)
    → Safe (contract env workers) (retire task adopting_from) w
unfolding retire
retire-Safe env workers task none w = search safe_rules
retire-Safe env workers task (some dead) w = search safe_rules

run_under-Safe :
    (env : Env) (workers : List Worker) (base owned : Task) (l : Lease) (w : World)
    → Safe (contract env workers) (run_under base owned l) w
unfolding run_under
run_under-Safe env workers base owned l w = search safe_rules

-- What a start makes of the task that it leased.
run_under-ok :
    (base owned t : Task) (l : Lease) (w : World) (es : List Effect)
    → run_under base owned l w ≡ (ok t, es)
    → owned.lease ≡ some l
    → owned.state ≡ base.state
    → (is_startable base.state ≡ false → base.state ≡ TaskState.running)
    → (t.state ≡ TaskState.running)
      × (t.lease ≡ some l)
      × (t.id ≡ owned.id)
      × (t.metadata.dispatches ≡ owned.metadata.dispatches)
unfolding run_under lift pure update
run_under-ok base owned t l w es h k j r = elim (Bool-cases (is_startable base.state)) [
  | inl e ↦
      let q = rw e at h in
      let m =
        (transition_task_iff owned TaskState.running (some l.lease_id) false no_metadata
            (assign (some l)) t).0
          (ap (λ (p : Result Task × List Effect). p.0) q) in
      rw m.1 (refl, refl, refl, refl)
  | inr e ↦
      let q = rw e at h in
      let s = ap (λ (p : Result Task × List Effect). p.0) q in let st = r e in (cc, cc, cc, cc)
]

module _ (env : Env) (workers : List Worker) (task : Task) (adopting_from : Option String)
    (running : is_startable task.state ≡ false → task.state ≡ TaskState.running) where
  -- The task that is committed.
  leased-RunsUnder :
      (base owned leased : Task) (l : Lease) (now : ℕ) (digest : Option String) (n : ℕ) (w : World)
      (es : List Effect)
      → Retired task base adopting_from
      → acquire_lease base l (launch_patch env task adopting_from l.worker_id now digest) ≡ ok owned
      → run_under base owned l w ≡ (ok leased, es)
      → RunsUnder env (revised leased n) l × (leased.id ≡ task.id)
  unfolding launch_patch update
  leased-RunsUnder base owned leased l now digest n w es r a u =
      let (free, o) = acquire_lease-ok base owned l _ a in
      let (st, held, name, ds) =
        run_under-ok base owned leased l w es u (rw o refl) (rw o refl)
          (subst (λ s. is_startable s ≡ false → s ≡ TaskState.running) (sym r.state) running) in
      (
        record {
          state = st;
          held = held;
          dispatches = record { epoch = env.epoch; workers = issued env task ++ l.worker_id ∷ [] };
          recorded = ds ∙ rw o refl;
          epoch = refl;
          listed = contains-last (issued env task) l.worker_id;
        },
        name ∙ rw o r.id,
      )

  -- A stop does not change the files.
  stop_dead-disk :
      (o : Option String) (w : World) {a : Unit {0}} (es : List Effect)
      → stop_dead env o w ≡ (ok a, es)
      → (after w es).disk ≡ w.disk
  unfolding stop_worker pure after step write effect ask ◌>>=◌ go_on
  stop_dead-disk none w es h = rw (← ap (λ (p : Result (Unit {0}) × List Effect). p.1) h) refl
  stop_dead-disk (some dead) w es h = elim (Bool-cases (nonempty dead)) [
    | inl e ↦ let q = rw e at h in rw (← ap (λ (p : Result (Unit {0}) × List Effect). p.1) q) refl
    | inr e ↦ let q = rw e at h in rw (← ap (λ (p : Result (Unit {0}) × List Effect). p.1) q) refl
  ]

  module _
      (retired : (dead : String) → adopting_from ≡ some dead → Stoppable env workers dead) where
    stop_dead-Safe :
        (o : Option String) (w : World)
        → ((dead : String) → o ≡ some dead → Stoppable env workers dead)
        → Safe (contract env workers) (stop_dead env o) w
    stop_dead-Safe none w h = Safe-pure (contract env workers) w tt
    stop_dead-Safe (some dead) w h =
        let stopped = stop_worker-Safe (contract env workers) env.executor dead w (h dead refl) in
        search (safe_rules, stopped)

    -- The dispatch, at the committed task.
    dispatch_start-Safe :
        (l : Lease) (saved : Task) (w : World)
        → lookup saved.id w.disk.tasks ≡ some saved
        → RunsUnder env saved l
        → Safe (contract env workers) (dispatch_start env task adopting_from l saved) w
    unfolding dispatch_start
    dispatch_start-Safe l saved w e r =
        Safe-bind (contract env workers) w _ _ (stop_dead-Safe adopting_from w retired) λ a es q.
          Safe-then (contract env workers) (after w es) _ _
            (launch_worker-Safe (contract env workers) env.executor saved l (after w es)
              (record { stored = rw (stop_dead-disk adopting_from w es q) e; runs = r }))
            (λ handle v.
              observe-Safe (contract env workers) env l.worker_id handle task.id l.lease_id true v)

    module _
        (ready : (t : Task) (l : Lease)
          → (adopting_from ≡ none → task.lease ≡ none)
          → RunsUnder env t l
          → Move env workers task t) where
      -- The commit of a start, with its dispatch.
      start_commit-Safe :
          (base owned leased : Task) (l : Lease) (now : ℕ) (digest : Option String)
          (event_type : String) (payload : Payload) (w v : World) (es : List Effect)
          → Retired task base adopting_from
          → acquire_lease base l (launch_patch env task adopting_from l.worker_id now digest)
            ≡ ok owned
          → run_under base owned l w ≡ (ok leased, es)
          → Safe
              (contract env workers)
              (commit_change env leased event_type payload task
                (some (dispatch_start env task adopting_from l)))
              v
      start_commit-Safe base owned leased l now digest event_type payload w v es r a u =
          let runs = λ (n : ℕ). leased-RunsUnder base owned leased l now digest n w es r a u in
          let (free, o) = acquire_lease-ok base owned l _ a in
          commit_change-Safe env workers leased event_type payload task _ v
            (λ n. ready (revised leased n) l (λ q. sym (r.lease q) ∙ free) (runs n).0)
            (λ v t e k. rw k (dispatch_start-Safe l _ v (rw (← k) e) (runs _).0))

      pub launch_under-Safe :
          (w : World) → Safe (contract env workers) (launch_under env task adopting_from) w
      unfolding launch_under
      launch_under-Safe w =
          Safe-bind (contract env workers) w _ _ (retire-Safe env workers task adopting_from w)
            λ base es r.
              let old = retire-Retired task base adopting_from w es r in
              Safe-gets-bind (contract env workers) _ _ _ (
                Safe-gets-bind (contract env workers) _ _ _ (
                  Safe-gets-bind (contract env workers) _ _ _ (
                    Safe-lift-bind (contract env workers) _ _ _ λ owned a.
                      Safe-bind (contract env workers) _ _ _
                        (run_under-Safe env workers base owned _ _)
                        λ leased fs u.
                          Safe-then (contract env workers) _ _ _
                            (start_commit-Safe base owned leased _ _ _ _ _ _ _ fs old a u)
                            (λ x v. report-Safe (contract env workers) _ v))))
