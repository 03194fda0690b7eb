-- ===== src/Runtime/Handoff/Release/Rest.antt =====
-- What the guards of a release say of the tasks (src/agent_farm_runtime/turnover.py).
use agent_farm_runtime.Prelude.{
  ◌≡◌, ◌≢◌, refl, inl, inr, String, none, true, false, List, [], ◌∷◌, arith, All, any, nonempty,
  not_blank, string_eq, string_dec, codes, codes_lt, is_yes_iff, Bool-cases, if◌then◌else◌, ◌==◌,
}
use agent_farm_runtime.Runtime.Equality.{state_eq, option_string_eq}
use agent_farm_runtime.Runtime.Metadata.{Entry, missing, null, value, get, Dispatches, Surrender}
use agent_farm_runtime.Runtime.Models.{TaskState, Task}
use agent_farm_runtime.Runtime.Result.{ok}
use agent_farm_runtime.Runtime.Rotation.{clean_surrender, surrender_holds}
use agent_farm_runtime.Runtime.World.{World, pure}
use agent_farm_runtime.Runtime.World.Rules.{pure-ok}
use agent_farm_runtime.Runtime.World.Silent.{bound_silent}
use agent_farm_runtime.Runtime.Handoff.Release.{
  is_unsettled, insert_worker, insert_workers, issued_by, issued_workers,
}
use agent_farm_runtime.Runtime.Handoff.Release.Workers.{issued_workers-silent, issued_by-silent}

-- The worker gave up the task in good order: it named itself and its lease, left a checkpoint with a
-- text, and what it waits for is what the task waits for.
pub record Surrendered (t : Task) : Type 0 where
  pub surrender : Surrender
  pub found : t.metadata.clean_surrender ≡ value surrender
  pub id : nonempty surrender.id ≡ true
  pub worker : nonempty surrender.worker_id ≡ true
  pub lease : nonempty surrender.lease_id ≡ true
  pub checkpoint : not_blank surrender.checkpoint.snapshot.text ≡ true
  pub same_wait : surrender.waiting_on ≡ get t.metadata.waiting_on

-- Nobody works at the task.
pub record AtRest (t : Task) : Type 0 where
  pub unleased : t.lease ≡ none
  pub not_running : t.state ≢ TaskState.running
  pub surrendered : t.state ≡ TaskState.waiting → Surrendered t

holds-Surrendered :
    (t : Task) (s : Surrender)
    → t.metadata.clean_surrender ≡ value s
    → surrender_holds t s ≡ true
    → Surrendered t
unfolding surrender_holds
holds-Surrendered t s e h = record {
  surrender = s;
  found = e;
  id = ground arith;
  worker = ground arith;
  lease = ground arith;
  checkpoint = ground arith;
  same_wait = ground arith;
}

clean-Surrendered :
    (t : Task) (e : Entry Surrender)
    → t.metadata.clean_surrender ≡ e
    → clean_surrender t ≡ true
    → Surrendered t
unfolding clean_surrender
clean-Surrendered t missing e h = absurd (ground arith)
clean-Surrendered t null e h = absurd (ground arith)
clean-Surrendered t (value s) e h = holds-Surrendered t s e (ground arith)

unsettled-AtRest : (t : Task) → is_unsettled t ≡ false → AtRest t
unfolding is_unsettled
unsettled-AtRest t h = record {
  unleased = ground arith;
  not_running = ground arith;
  surrendered = λ e. clean-Surrendered t t.metadata.clean_surrender refl (ground arith);
}

pub all-AtRest : (ts : List Task) → any is_unsettled ts ≡ false → All AtRest ts
unfolding any
all-AtRest [] h = tt
all-AtRest (t ∷ ts) h = (unsettled-AtRest t (ground arith), all-AtRest ts (ground arith))

module _ (P : String → Type 0) where
  cons-All :
      (id other : String) (rest later : List String)
      → (All P later → P id × All P rest)
      → All P (
          if id == other
          then other ∷ rest
          else if codes_lt (codes id) (codes other)
          then id ∷ other ∷ rest
          else other ∷ later)
      → P id × All P (other ∷ rest)
  cons-All id other rest later k h = elim (Bool-cases (id == other)) [
    | inl e ↦ let q = (is_yes_iff (string_dec id other)).0 e in let g = rw e at h in (rw q g.0, g)
    | inr e ↦ elim (Bool-cases (codes_lt (codes id) (codes other))) [
      | inl l ↦ let g = rw (e, l) at h in (g.0, g.1)
      | inr l ↦ let g = rw (e, l) at h in let (p, ps) = k g.1 in (p, (g.0, ps))
    ]
  ]

  insert-All : (id : String) (xs : List String) → All P (insert_worker id xs) → P id × All P xs
  unfolding insert_worker
  insert-All id [] h = h
  insert-All id (other ∷ rest) h =
      cons-All id other rest (insert_worker id rest) (insert-All id rest) h

  inserts-All : (ids xs : List String) → All P (insert_workers ids xs) → All P ids × All P xs
  unfolding insert_workers
  inserts-All [] xs h = (tt, h)
  inserts-All (id ∷ rest) xs h =
      let (p, k) = insert-All id (insert_workers rest xs) h in
      let (ps, q) = inserts-All rest xs k in ((p, ps), q)

  -- Every worker that a task was dispatched to in an epoch
  abbrev pub Dispatched : String → Task → Type 0
  Dispatched epoch t =
      (d : Dispatches) → t.metadata.dispatches ≡ value d → d.epoch ≡ epoch → All P d.workers

  issued_by-All :
      (epoch : String) (t : Task) (w : World) (here : List String) (o : Entry Dispatches)
      → t.metadata.dispatches ≡ o
      → issued_by epoch o w ≡ (ok here, [])
      → All P here
      → Dispatched epoch t
  unfolding pure
  issued_by-All epoch t w here missing e h a d f i = absurd (cc)
  issued_by-All epoch t w here null e h a d f i = absurd (cc)
  issued_by-All epoch t w here (value c) e h a d f i =
      let same : c ≡ d = cc in
      let q = pure-ok w h in
      let k = (is_yes_iff (string_dec c.epoch epoch)).1 (rw same i) in
      let g : c.workers ≡ here = rw k at q in rw (← same, g) a

  pub issued_workers-All :
      (epoch : String) (ts : List Task) (w : World) (workers : List String)
      → issued_workers epoch ts w ≡ (ok workers, [])
      → All P workers
      → All (Dispatched epoch) ts
  unfolding issued_workers
  issued_workers-All epoch [] w workers h a = tt
  issued_workers-All epoch (t ∷ rest) w workers h a =
      let (here, began, k) =
        bound_silent _ w (issued_by epoch t.metadata.dispatches)
          (issued_by-silent epoch t.metadata.dispatches w) h in
      let (later, more, ended) =
        bound_silent _ w (issued_workers epoch rest) (issued_workers-silent epoch rest w) k in
      let (p, q) = inserts-All here later (rw (pure-ok w ended) a) in
      (
        issued_by-All epoch t w here t.metadata.dispatches refl began p,
        issued_workers-All epoch rest w later more q,
      )
