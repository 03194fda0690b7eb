-- ===== src/Runtime/World.antt =====
-- What the runtime reads and changes: the files under .farm (the paths of `FarmPaths` in store.py,
-- events.py, the deployment record of turnover.py) and the calls of the worker executor
-- (adapters/base.py). A method is an action: from a world it gives a result and the effects that it
-- made, in order, those before an exception included. A crash leaves the files as some first part
-- of the effects made them.
pub mod Through
pub mod Rules
pub mod Silent
pub mod Policy
pub mod Count
pub mod Quiet
use agent_farm_runtime.Prelude.{
  ℕ, String, Option, none, some, Bool, true, false, List, [], ◌∷◌, ◌++◌, put,
}
pub use agent_farm_runtime.Runtime.Models.{Phase, draining, released, claimed, Handoff}
use agent_farm_runtime.Runtime.Models.{TaskState, Lease, Task, Worker, Event}
use agent_farm_runtime.Runtime.Result.{Error, Result, ok, err}

-- deployment.json; a farm that never ran has the empty record.
pub record Manifest : Type 0 where
  pub execution_epoch : Option String
  pub recovery_id : Option String
  pub host : Option String
  pub source_sha256 : Option String
  pub protocol_version : Option ℕ
  pub pending_event : Option Event
  pub handoff : Option Handoff

-- events/log.ndjson; `damaged` when its last record is incomplete or a line is no record.
pub record EventLog : Type 0 where
  pub events : List Event
  pub damaged : Bool

-- runtime/pending-task-commit.json
pub record Txn : Type 0 where
  pub before : Option Task
  pub after : Task
  pub event : Event

-- runtime/handoffs/<id>.json: what a release proves of the farm.
pub record Archive : Type 0 where
  pub root : String
  pub deployment : Manifest
  pub tasks : List Task
  pub quiesced_workers : List String

pub record Disk : Type 0 where
  pub tasks : List (String × Task)
  pub workers : List (String × Worker)
  pub log : EventLog
  pub pending : Option Txn
  pub pending_recovery : Bool
  pub deployment : Manifest
  pub handoffs : List (String × Archive)

-- A line that the reconciler adds to a list of its `ReconcileReport`; the texts of errors are left
-- out.
pub data ReportLine : Type 0 where
  launched adopted resumed heartbeat ignored_stale waiting_grace : String → ReportLine
  advanced : String → TaskState → ReportLine
  conflict : Error → ReportLine
  preflight_failure : String → Error → ReportLine
  observation_error executor_error : String → ReportLine

-- A durable write of the runtime, a call of the executor that acts, or a line of the report.
pub data Effect : Type 0 where
  prepare : Txn → Effect
  install : Task → Effect
  append : Event → Effect
  sync_log : Effect
  clear_journal : Effect
  put_observed : Worker → Effect
  put_deployment : Manifest → Effect
  seal : String → Archive → Effect
  launch : Task → Lease → Effect
  resume : Task → String → Lease → Effect
  stop : String → Effect
  reported : ReportLine → Effect

-- The files, and the effects made so far, the last one first.
pub record World : Type 0 where
  pub disk : Disk
  pub history : List Effect

unfoldable pub write : Disk → Effect → Disk
write d (prepare txn) = record d { pending = some txn }
write d (install task) = record d { tasks = put task.id task d.tasks }
write d (append event) = record d {
  log = record { events = d.log.events ++ event ∷ []; damaged = d.log.damaged };
}
write d clear_journal = record d { pending = none }
write d (put_observed w) = record d { workers = put w.id w d.workers }
write d (put_deployment m) = record d { deployment = m }
write d (seal id archive) = record d { handoffs = put id archive d.handoffs }
write d _ = d

unfoldable pub step : World → Effect → World
step w e = record { disk = write w.disk e; history = e ∷ w.history }

unfoldable pub after : World → List Effect → World
after w [] = w
after w (e ∷ es) = after (step w e) es

abbrev pub Act {ℓ} : Type ℓ → Type ℓ
Act A = World → Result A × List Effect

module _ {ℓ} {A : Type ℓ} where
  unfoldable pub pure : A → Act A
  pure a w = (ok a, [])

  unfoldable pub raise : Error → Act A
  raise e w = (err e, [])

  unfoldable pub lift : Result A → Act A
  lift r w = (r, [])

  unfoldable pub gets : (World → A) → Act A
  gets f w = (ok (f w), [])

  -- An answer from outside, which may be an exception.
  unfoldable pub ask : (World → Result A) → Act A
  ask f w = (f w, [])

  abbrev caught : (Error → Act A) → World → Result A → List Effect → Result A × List Effect
  caught handler w (ok a) es = (ok a, es)
  caught handler w (err e) es = let (r, later) = handler e (after w es) in (r, es ++ later)

  -- `try: … except`, with a handler that raises again what it does not catch
  unfoldable pub try_catch : Act A → (Error → Act A) → Act A
  try_catch m handler w = let (r, es) = m w in caught handler w r es

unfoldable pub effect : Effect → Act (Unit {0})
effect e w = (ok tt, e ∷ [])

abbrev pub then_do {ℓ} :
    {B : Type ℓ} → Result B × List Effect → List Effect → Result B × List Effect
then_do (r, later) es = (r, es ++ later)

module _ {ℓ κ} {A : Type ℓ} {B : Type κ} where
  unfoldable pub go_on : World → (A → Act B) → Result A → List Effect → Result B × List Effect
  go_on w f (ok a) es = then_do (f a (after w es)) es
  go_on w f (err e) es = (err e, es)

  infixl 10 ◌>>=◌ ◌>>◌
  unfoldable pub ◌>>=◌ : Act A → (A → Act B) → Act B
  unfolding go_on pure raise lift gets ask effect
  ◌>>=◌ m f w = let (r, es) = m w in go_on w f r es

  abbrev pub ◌>>◌ : Act A → Act B → Act B
  m >> k = m >>= λ _. k

-- `if test: raise e`
abbrev pub guard : Bool → Error → Act (Unit {0})
guard true e = raise e
guard false e = pure tt
