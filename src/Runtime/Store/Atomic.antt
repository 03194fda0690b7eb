-- ===== src/Runtime/Store/Atomic.antt =====
-- A commit, seen from the disk: all of it or none of it, whenever the process dies.
use agent_farm_runtime.Prelude.{
  ◌≡◌, refl, ap, ◌∙◌, ◌⊎◌, ◌+◌, String, Option, some, false, inl, inr, List, ◌∷◌, ◌==◌, string_eq,
  lookup, lookup-put, if◌then◌else◌,
}
use agent_farm_runtime.Runtime.Metadata.{Timestamp}
use agent_farm_runtime.Runtime.Models.{Task, Event, Payload}
use agent_farm_runtime.Runtime.Result.{ok}
use agent_farm_runtime.Runtime.World.{Txn, Disk, Effect, prepare, World, step, write, after}
use agent_farm_runtime.Runtime.World.Through.{
  Through, Through-append, Through-end, Through-map, after-append,
}
use agent_farm_runtime.Runtime.Store.{
  Outside, workspace_taken, workspace_key, revision_of, revised, commit_locked,
}
use agent_farm_runtime.Runtime.Store.Recovery.{finished, settled, Recovers}
use agent_farm_runtime.Runtime.Store.Crash.{recover_locked_interrupted}
use agent_farm_runtime.Runtime.Store.Commit.{Committed, commit_locked-Committed, txn_at}

-- The files before and after a commit that has the journal `txn`.
abbrev pub Either : Disk → Disk → World → Type 0
Either old new v = Recovers old v ⊎ Recovers new v

settled-prepare :
    (w : World) (txn : Txn) → settled (step w (prepare txn)).disk ≡ finished w.disk txn
unfolding settled step write
settled-prepare w txn = refl

module _ (out : Outside) (task : Task) (expected : Option Task) (event_type actor : String)
    (payload : Payload) (ts : Option Timestamp) (w : World) {t : Task} (es : List Effect)
    (h : commit_locked out task expected event_type actor payload ts w ≡ (ok t, es)) where
  parts : Committed out task expected event_type actor payload ts w t es
  parts = commit_locked-Committed out task expected event_type actor payload ts w es h

  middle : World
  middle = after w parts.before

  txn : Txn
  txn = txn_at out task expected event_type actor payload ts middle

  middle_disk : middle.disk ≡ settled w.disk
  unfolding middle
  middle_disk = (recover_locked_interrupted w parts.before parts.recovered).1

  prepared : World
  prepared = step middle (prepare txn)

  new_disk : settled prepared.disk ≡ finished (settled w.disk) txn
  unfolding prepared
  new_disk = settled-prepare middle txn ∙ ap (λ d. finished d txn) middle_disk

  later-Through :
      Through (Recovers (finished (settled w.disk) txn)) prepared parts.later
      × ((after prepared parts.later).disk ≡ finished (settled w.disk) txn)
  unfolding prepared middle txn
  later-Through = rw (← new_disk) (recover_locked_interrupted prepared parts.later parts.finishes)

  through : Through (Either (settled w.disk) (finished (settled w.disk) txn)) w es
  unfolding prepared middle txn
  through =
      let first = recover_locked_interrupted w parts.before parts.recovered in
      rw parts.all (
        Through-append _ w parts.before (prepare txn ∷ parts.later)
          (Through-map _ (λ v r. inl r) w parts.before first.0)
          (
            inl (Through-end _ w parts.before first.0),
            Through-map _ (λ v r. inr r) prepared parts.later later-Through.0,
          ))

  final_disk : (after w es).disk ≡ finished (settled w.disk) txn
  unfolding prepared middle txn after
  final_disk = rw parts.all (
      ap (λ (v : World). v.disk) (after-append w parts.before (prepare txn ∷ parts.later))
      ∙ later-Through.1)

-- What a commit that returned left behind.
pub record CommitOutcome (task : Task) (expected : Option Task) (event_type actor : String)
    (w : World) (t : Task) (es : List Effect) : Type 0 where
  pub event : Event
  pub event_of : (event.task_id ≡ task.id) × (event.type ≡ event_type) × (event.actor ≡ actor)
  pub event_revision : event.revision ≡ some (revision_of expected + 1)
  pub returned : t ≡ revised task (revision_of expected + 1)
  pub left :
      (after w es).disk
      ≡ finished (settled w.disk) (record { before = expected; after = t; event = event })
  pub interrupted :
      Through
        (Either
          (settled w.disk)
          (finished (settled w.disk) (record { before = expected; after = t; event = event })))
        w
        es

-- A commit that returns gives the task with the next revision; the files are those before it, with
-- the old journal carried out, plus the task and one event of the commit that has that revision;
-- and if the process dies after any of its effects, recovery succeeds and gives the files before
-- it or the files after it.
pub commit_locked_atomic :
    (out : Outside) (task : Task) (expected : Option Task) (event_type actor : String)
    (payload : Payload) (ts : Option Timestamp) (w : World) {t : Task} (es : List Effect)
    → commit_locked out task expected event_type actor payload ts w ≡ (ok t, es)
    → CommitOutcome task expected event_type actor w t es
unfolding txn
commit_locked_atomic out task expected event_type actor payload ts w {t} es h =
    let p = parts out task expected event_type actor payload ts w es h in
    let x = txn out task expected event_type actor payload ts w es h in
    record {
      event = x.event;
      event_of = (refl, refl, refl);
      event_revision = refl;
      returned = p.returned;
      left = rw p.returned (final_disk out task expected event_type actor payload ts w es h);
      interrupted = rw p.returned (through out task expected event_type actor payload ts w es h);
    }

-- The workspace of a task that was committed was free.
pub commit_free :
    (out : Outside) (task : Task) (expected : Option Task) (event_type actor : String)
    (payload : Payload) (ts : Option Timestamp) (w : World) {t : Task} (es : List Effect)
    → commit_locked out task expected event_type actor payload ts w ≡ (ok t, es)
    → workspace_taken out (settled w.disk) t ≡ false
unfolding middle workspace_taken workspace_key
commit_free out task expected event_type actor payload ts w {t} es h =
    let p = parts out task expected event_type actor payload ts w es h in
    rw (← middle_disk out task expected event_type actor payload ts w es h)
      (rw p.returned p.can.free)

-- The task that was committed is in the files, the other tasks are as recovery leaves them.
pub commit_lookup :
    (out : Outside) (task : Task) (expected : Option Task) (event_type actor : String)
    (payload : Payload) (ts : Option Timestamp) (w : World) {t : Task} (es : List Effect)
    → commit_locked out task expected event_type actor payload ts w ≡ (ok t, es)
    → (lookup task.id (settled w.disk).tasks ≡ expected)
      × ((j : String)
          → lookup j (after w es).disk.tasks
            ≡ (if task.id == j then some t else lookup j (settled w.disk).tasks))
unfolding middle txn
commit_lookup out task expected event_type actor payload ts w {t} es h =
    let p = parts out task expected event_type actor payload ts w es h in
    (
      rw (← middle_disk out task expected event_type actor payload ts w es h) p.can.current,
      λ j.
          rw (
            final_disk out task expected event_type actor payload ts w es h,
            lookup-put,
            p.returned,
          ),
    )
