-- ===== src/Runtime/Lifecycle/Clear.antt =====
-- `clear_stop_control`, stopped anywhere and run again.
mod LogOnce
use agent_farm_runtime.Prelude.{
  ◌≡◌, string_eq, refl, sym, ◌∙◌, ap, inl, inr, Bool-cases, not, String, Option, none, some, Bool,
  true, false, List, [], ◌∷◌, ◌++◌, arith, contains, if◌then◌else◌,
}
use agent_farm_runtime.Runtime.Models.{Event}
use agent_farm_runtime.Runtime.Result.{Result, ok, err, invalid_handoff}
use agent_farm_runtime.Runtime.World.{
  Handoff, Manifest, Effect, append, put_deployment, World, step, write, after,
}
use agent_farm_runtime.Runtime.World.Through.{Through, after-append}
use agent_farm_runtime.Runtime.World.Rules.{
  act_rules, bind-ok, gets-bind, pure_lem, if-ok, bound, bound_pure, pure-ok,
}
use agent_farm_runtime.Runtime.Deployment.{valid_handoff, deployment}
use agent_farm_runtime.Runtime.Store.{Outside}
use agent_farm_runtime.Runtime.Store.Recovery.{ids}
use agent_farm_runtime.Runtime.Handoff.Release.{is_stop}
use agent_farm_runtime.Runtime.Lifecycle.{cleared_event, log_once, clear_with, clear_stop_control}
use agent_farm_runtime.Runtime.Lifecycle.Clear.LogOnce.{
  once, log_effects, log_once-ok, log_once-disk, ids-audited, once-added, log_once-intact,
}

module _ (out : Outside) (actor : String) where
  abbrev cleared : Manifest → Manifest
  cleared m = record m { handoff = none }

  abbrev event_at : Handoff → World → Event
  event_at c w = cleared_event out actor c (out.now w)

  clear_with-stop :
      (m : Manifest) (c : Handoff) (w : World)
      → is_stop c ≡ true
      → w.disk.log.damaged ≡ false
      → clear_with out actor m (some c) w
        ≡ (ok (some c), log_effects (event_at c w) w ++ put_deployment (cleared m) ∷ [])
  unfolding clear_with
  clear_with-stop m c w s d =
      rw (s, gets-bind)
        (bind-ok _ w (log_once (event_at c w)) (log_once-ok (event_at c w) w d) ∙ simp act_rules)

  -- The clear has ended: the control is gone from the deployment and its event is in the log.
  pub record Ended (w : World) (c : Handoff) (v : World) : Type 0 where
    pub deployment : v.disk.deployment ≡ cleared w.disk.deployment
    pub logged : ids v.disk.log ≡ once (ids w.disk.log) (event_at c w).id
    pub tasks : v.disk.tasks ≡ w.disk.tasks

  -- A run from `v` returns, and ends so.
  pub record Reruns (w : World) (c : Handoff) (v : World) : Type 0 where
    pub result : Option Handoff
    pub effects : List Effect
    pub runs : clear_stop_control out actor v ≡ (ok result, effects)
    pub ended : Ended w c (after v effects)

  -- A stop that can be cleared stands.
  pub record Standing (c : Handoff) (v : World) : Type 0 where
    pub standing : v.disk.deployment.handoff ≡ some c
    pub valid : valid_handoff (some c) ≡ true
    pub stop : is_stop c ≡ true
    pub intact : v.disk.log.damaged ≡ false

  abbrev pub effects_at : Handoff → World → List Effect
  effects_at c v = log_effects (event_at c v) v ++ put_deployment (cleared v.disk.deployment) ∷ []

  clear_lem :
      (w : World)
      → clear_stop_control out actor w ≡ (
          if not (valid_handoff w.disk.deployment.handoff)
          then (err invalid_handoff, [])
          else clear_with out actor w.disk.deployment w.disk.deployment.handoff w)
  unfolding clear_stop_control deployment
  clear_lem w = simp act_rules

  pub clear-Standing :
      (c : Handoff) (v : World)
      → Standing c v
      → clear_stop_control out actor v ≡ (ok (some c), effects_at c v)
  clear-Standing c v s =
      clear_lem v
      ∙ simp (s.standing, s.valid, clear_with-stop v.disk.deployment c v s.stop s.intact)

  clear-Gone :
      (v : World)
      → v.disk.deployment.handoff ≡ none
      → clear_stop_control out actor v ≡ (ok none, [])
  unfolding clear_with
  clear-Gone v gone = clear_lem v ∙ simp (gone, pure_lem)

  Standing-Ended : (c : Handoff) (v : World) → Ended v c (after v (effects_at c v))
  unfolding after step write
  Standing-Ended c v =
      rw (after-append, log_once-disk)
        (record { deployment = refl; logged = ids-audited v.disk.log (event_at c v); tasks = refl })

  -- After the event, and before the deployment is written
  Logged-Standing :
      (c : Handoff) (v : World) → Standing c v → Standing c (step v (append (event_at c v)))
  unfolding step write
  Logged-Standing c v s = record {
    standing = s.standing;
    valid = s.valid;
    stop = s.stop;
    intact = s.intact;
  }

  Standing-Reruns : (c : Handoff) (v : World) → Standing c v → Reruns v c v
  Standing-Reruns c v s = record {
    result = some c;
    effects = effects_at c v;
    runs = clear-Standing c v s;
    ended = Standing-Ended c v;
  }

  Ended-Reruns : (c : Handoff) (w v : World) → Ended w c v → Reruns w c v
  unfolding after
  Ended-Reruns c w v e = record {
    result = none;
    effects = [];
    runs = clear-Gone v (ap (λ (m : Manifest). m.handoff) e.deployment);
    ended = e;
  }

  Logged-Reruns :
      (c : Handoff) (w : World)
      → Standing c w
      → contains (ids w.disk.log) (event_at c w).id ≡ false
      → Reruns w c (step w (append (event_at c w)))
  unfolding step write
  Logged-Reruns c w s new =
      let v = step w (append (event_at c w)) in
      let r = Standing-Reruns c v (Logged-Standing c w s) in
      record {
        result = r.result;
        effects = r.effects;
        runs = r.runs;
        ended = record {
          deployment = r.ended.deployment;
          logged = r.ended.logged ∙ once-added w.disk.log (event_at c w) new;
          tasks = r.ended.tasks;
        };
      }

  abbrev effects_if : Bool → Handoff → World → List Effect
  effects_if old c w =
      (if old then [] else append (event_at c w) ∷ [])
      ++ put_deployment (cleared w.disk.deployment) ∷ []

  module _ (c : Handoff) (w : World) (s : Standing c w) where
    all_done :
        (old : Bool)
        → contains (ids w.disk.log) (event_at c w).id ≡ old
        → Ended w c (after w (effects_if old c w))
    all_done old e = rw (← e) (Standing-Ended c w)

    effects-Through :
        (old : Bool)
        → contains (ids w.disk.log) (event_at c w).id ≡ old
        → Through (Reruns w c) w (effects_if old c w)
    unfolding after
    effects-Through true e =
        (Standing-Reruns c w s, Ended-Reruns c w (after w (effects_if true c w)) (all_done true e))
    effects-Through false e = (
      Standing-Reruns c w s,
      (Logged-Reruns c w s e, Ended-Reruns c w (after w (effects_if false c w)) (all_done false e)),
    )

  -- A clear that gives a control back
  record Cleared (d c : Handoff) (w : World) : Type 0 where
    pub stop : is_stop d ≡ true
    pub intact : w.disk.log.damaged ≡ false
    pub same : d ≡ c

  clear_with-Cleared :
      (m : Manifest) (d c : Handoff) (w : World) (es : List Effect)
      → clear_with out actor m (some d) w ≡ (ok (some c), es)
      → Cleared d c w
  unfolding clear_with
  clear_with-Cleared m d c w es h = elim (if-ok w (is_stop d) _ _ h) [
    | inl (s, k) ↦
        let b = bound _ w (log_once (event_at d w)) (sym (gets-bind _ w _) ∙ k) in
        record {
          stop = s;
          intact = log_once-intact (event_at d w) w b.first b.before b.began;
          same = let e = (bound_pure (some d) _ _ b.ended).1 in cc;
        }
    | inr (s, k) ↦ let e = pure-ok w k in absurd (cc)
  ]

  branch-Standing :
      (m : Manifest) (o : Option Handoff) (c : Handoff) (w : World) (es : List Effect)
      → w.disk.deployment.handoff ≡ o
      → (if not (valid_handoff o) then (err invalid_handoff, []) else clear_with out actor m o w)
        ≡ (ok (some c), es)
      → Standing c w
  unfolding clear_with
  branch-Standing m none c w es e h = let p = pure-ok w h in absurd (cc)
  branch-Standing m (some d) c w es e h = elim (Bool-cases (valid_handoff (some d))) [
    | inl valid ↦
        let r = clear_with-Cleared m d c w es (rw valid at h) in
        record {
          standing = e ∙ ap (λ x. some x) r.same;
          valid = rw (← r.same) valid;
          stop = rw (← r.same) r.stop;
          intact = r.intact;
        }
    | inr bad ↦ let k = rw bad at h in absurd (cc)
  ]

  cleared-Standing :
      (c : Handoff) (w : World) (es : List Effect)
      → clear_stop_control out actor w ≡ (ok (some c), es)
      → Standing c w
  cleared-Standing c w es h =
      branch-Standing w.disk.deployment _ c w es refl (sym (clear_lem w) ∙ h)

  -- A clear that gives a control back can be stopped after any of its effects: a second run from
  -- there returns, and then the deployment is the one before without its control, the ids in the
  -- log are those before, with the id of the clear added at the end unless it was among them, and
  -- the tasks are those before.
  pub clear_stop_control-Reruns :
      (c : Handoff) (w : World) (es : List Effect)
      → clear_stop_control out actor w ≡ (ok (some c), es)
      → Through (Reruns w c) w es
  clear_stop_control-Reruns c w es h =
      let s = cleared-Standing c w es h in
      let same : es ≡ effects_at c w =
        ap (λ (p : Result (Option Handoff) × List Effect). p.1) (sym h ∙ clear-Standing c w s) in
      rw same (effects-Through c w s _ refl)
