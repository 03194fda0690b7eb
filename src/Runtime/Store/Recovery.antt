-- ===== src/Runtime/Store/Recovery.antt =====
-- `_recover_locked`: what it leaves on disk, and what it leaves when it is interrupted.
use mathlib.Core.List.{map-append}
use agent_farm_runtime.Prelude.{
  contains-last, ◌≡◌, refl, sym, ap, not, ◌||◌, String, Option, none, some, true, false, inl, inr,
  List, [], ◌∷◌, map, ◌++◌, arith, ◌==◌, string_eq, contains, lookup, put, if◌then◌else◌,
  Option-cases, Bool-cases, ◌⊎◌, codes, is_identifier,
}
use agent_farm_runtime.Runtime.Equality.{task_eq}
use agent_farm_runtime.Runtime.Models.{Event}
use agent_farm_runtime.Runtime.Result.{Result, ok, err, invalid_task_id, journal_conflict, torn_log}
use agent_farm_runtime.Runtime.World.{
  Txn, Disk, Effect, install, append, sync_log, clear_journal, World, step, write, after, EventLog,
}
use agent_farm_runtime.Runtime.World.Rules.{act_rules, pure_lem}
use agent_farm_runtime.Runtime.Store.{finish_txn, finish_pending, recover_locked}

abbrev pub ids : EventLog → List String
ids log = map (λ (e : Event). e.id) log.events

-- The event is in the log once.
unfoldable pub audited : EventLog → Event → EventLog
audited log event =
    if contains (ids log) event.id then log else record log { events = log.events ++ event ∷ [] }

-- The files after the journal has been carried out.
abbrev pub finished : Disk → Txn → Disk
finished d txn = record d {
  tasks = put txn.after.id txn.after d.tasks;
  log = audited d.log txn.event;
  pending = none;
}

unfoldable pub settled : Disk → Disk
settled d = elim d.pending [ none ↦ d | some txn ↦ finished d txn ]

pub settled-none : (d : Disk) → d.pending ≡ none → settled d ≡ d
unfolding settled
settled-none d e = ground arith

pub settled-some : (d : Disk) (txn : Txn) → d.pending ≡ some txn → settled d ≡ finished d txn
unfolding settled
settled-some d txn e = ground arith

-- What `_recover_locked` asks of the files before it carries out a transaction.
pub record CanFinish (d : Disk) (txn : Txn) : Type 0 where
  pub named : is_identifier (codes txn.after.id) ≡ true
  pub current :
      (lookup txn.after.id d.tasks ≡ txn.before) ⊎ (lookup txn.after.id d.tasks ≡ some txn.after)
  pub intact : d.log.damaged ≡ false

abbrev pub audit_effect : EventLog → Event → Effect
audit_effect log event = if contains (ids log) event.id then sync_log else append event

abbrev pub finish_effects : Disk → Txn → List Effect
finish_effects d txn = install txn.after ∷ audit_effect d.log txn.event ∷ clear_journal ∷ []

module _ (txn : Txn) (w : World) where
  finish_txn_lem : finish_txn txn w ≡ (
      if not (is_identifier (codes txn.after.id))
      then (err invalid_task_id, [])
      else if not (
          lookup txn.after.id w.disk.tasks == txn.before
          || lookup txn.after.id w.disk.tasks == some txn.after)
      then (err journal_conflict, [])
      else if w.disk.log.damaged
      then (err torn_log, [])
      else (ok tt, finish_effects w.disk txn))
  unfolding finish_txn
  finish_txn_lem = simp act_rules

  finish_txn-CanFinish :
      (es : List Effect)
      → finish_txn txn w ≡ (ok tt, es)
      → CanFinish w.disk txn × (es ≡ finish_effects w.disk txn)
  finish_txn-CanFinish es h = let k = rw finish_txn_lem at h in (ground arith, ground arith)

  pub CanFinish-finish_txn :
      CanFinish w.disk txn → finish_txn txn w ≡ (ok tt, finish_effects w.disk txn)
  CanFinish-finish_txn h = rw finish_txn_lem (ground arith)

  pub after-finish_effects : (after w (finish_effects w.disk txn)).disk ≡ finished w.disk txn
  unfolding after step write audited
  after-finish_effects = ground arith

-- Recovery from the world gives the files `d`.
pub record Recovers (d : Disk) (w : World) : Type 0 where
  pub effects : List Effect
  pub succeeds : recover_locked w ≡ (ok tt, effects)
  pub gives : (after w effects).disk ≡ d

module _ (w : World) where
  finish_pending_lem :
      (p : Option Txn)
      → finish_pending p w ≡ (elim p [ none ↦ (ok tt, []) | some txn ↦ finish_txn txn w ])
  finish_pending_lem none = pure_lem tt w
  finish_pending_lem (some txn) = refl

  pub recover_locked_lem :
      recover_locked w ≡ (elim w.disk.pending [ none ↦ (ok tt, []) | some txn ↦ finish_txn txn w ])
  unfolding recover_locked
  recover_locked_lem = simp act_rules (finish_pending_lem w.disk.pending)

  pub Recovers-none : w.disk.pending ≡ none → Recovers w.disk w
  unfolding after
  Recovers-none e = record { effects = []; succeeds = rw (recover_locked_lem, e); gives = refl }

  pub Recovers-some :
      (txn : Txn)
      → w.disk.pending ≡ some txn
      → CanFinish w.disk txn
      → Recovers (finished w.disk txn) w
  Recovers-some txn e h = record {
    effects = finish_effects w.disk txn;
    succeeds = rw (recover_locked_lem, e) (CanFinish-finish_txn txn w h);
    gives = after-finish_effects txn w;
  }

  -- The journal of a recovery that returned, and the effects of it.
  pub recover_locked-effects :
      (es : List Effect)
      → recover_locked w ≡ (ok tt, es)
      → ((w.disk.pending ≡ none) × (es ≡ []))
        ⊎ ((txn : Txn) × (w.disk.pending ≡ some txn)
            × CanFinish w.disk txn
            × (es ≡ finish_effects w.disk txn))
  recover_locked-effects es h = elim (Option-cases w.disk.pending) [
    | inl e ↦ inl (
      e,
      ap (λ (p : Result (Unit {0}) × List Effect). p.1) (sym (rw (recover_locked_lem, e) at h)),
    )
    | inr (txn, e) ↦
        let (c, k) = finish_txn-CanFinish txn w es (rw (recover_locked_lem, e) at h) in
        inr (txn, e, c, k)
  ]

module _ (log : EventLog) (event : Event) where
  pub audited-contains : contains (ids (audited log event)) event.id ≡ true
  unfolding audited
  audited-contains = elim (Bool-cases (contains (ids log) event.id)) [
    | inl old ↦ rw old old
    | inr new ↦ rw (new, map-append) (contains-last (ids log) event.id)
  ]

  pub audited_twice : audited (audited log event) event ≡ audited log event
  audited_twice = unfold audited in rw audited-contains
