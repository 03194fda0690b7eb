-- ===== src/Runtime/Lifecycle/Clear/LogOnce.antt =====
-- `log_once`, and the ids that it leaves.
use mathlib.Core.List.{map-append}
use agent_farm_runtime.Prelude.{
  ◌≡◌, string_eq, sym, ◌∙◌, ap, inl, inr, Bool-cases, String, false, List, [], ◌∷◌, ◌++◌, arith,
  contains, if◌then◌else◌,
}
use agent_farm_runtime.Runtime.Models.{Event}
use agent_farm_runtime.Runtime.Result.{ok}
use agent_farm_runtime.Runtime.World.{EventLog, Effect, append, World, step, write, after}
use agent_farm_runtime.Runtime.World.Rules.{act_rules}
use agent_farm_runtime.Runtime.Store.Recovery.{ids, audited, audited-contains}
use agent_farm_runtime.Runtime.Lifecycle.{log_once}

-- A list of ids, and one more unless it is there.
abbrev pub once : List String → String → List String
once l id = if contains l id then l else l ++ id ∷ []

abbrev pub log_effects : Event → World → List Effect
log_effects event w = if contains (ids w.disk.log) event.id then [] else append event ∷ []

pub log_once-ok :
    (event : Event) (w : World)
    → w.disk.log.damaged ≡ false
    → log_once event w ≡ (ok tt, log_effects event w)
unfolding log_once
log_once-ok event w d = elim (Bool-cases (contains (ids w.disk.log) event.id)) [
  | inl old ↦ simp (d, old, act_rules)
  | inr new ↦ simp (d, new, act_rules)
]

pub log_once-disk :
    (event : Event) (w : World)
    → (after w (log_effects event w)).disk ≡ record w.disk { log = audited w.disk.log event }
unfolding after step write audited
log_once-disk event w = ground arith

pub ids-audited :
    (log : EventLog) (event : Event) → ids (audited log event) ≡ once (ids log) event.id
unfolding audited
ids-audited log event = elim (Bool-cases (contains (ids log) event.id)) [
  | inl old ↦ rw old
  | inr new ↦ rw new (map-append _ _ _)
]

pub once-added :
    (log : EventLog) (event : Event)
    → contains (ids log) event.id ≡ false
    → once (ids (record log { events = log.events ++ event ∷ [] })) event.id
      ≡ once (ids log) event.id
unfolding audited
once-added log event new =
    let same : audited log event ≡ record log { events = log.events ++ event ∷ [] } = rw new in
    (ap (λ l. once (ids l) event.id) (sym same)
      ∙ (simp (audited-contains log event))
      ∙ ids-audited log event)

pub log_once-intact :
    (event : Event) (w : World) (u : Unit {0}) (es : List Effect)
    → log_once event w ≡ (ok u, es)
    → w.disk.log.damaged ≡ false
unfolding log_once
log_once-intact event w u es h = elim (Bool-cases w.disk.log.damaged) [
  | inl torn ↦ let k = simp (act_rules, torn) at h in absurd (cc)
  | inr intact ↦ intact
]
