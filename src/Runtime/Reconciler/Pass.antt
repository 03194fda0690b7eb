-- ===== src/Runtime/Reconciler/Pass.antt =====
-- `_reconcile_task` and `reconcile_once` of src/agent_farm_runtime/reconciler.py.
use agent_farm_runtime.Prelude.{
  String, Option, none, some, Bool, true, false, not, ◌&&◌, List, [], ◌∷◌, ◌==◌, ◌!=◌, string_eq,
  cat, take_text, values, if◌then◌else◌,
}
use agent_farm_runtime.Runtime.Equality.{state_eq, status_eq, error_eq}
use agent_farm_runtime.Runtime.Metadata.{
  Entry, value, get, get_or, present, text_set, flag_set, Surrender, RotationRequest, ErrorInfo,
}
use agent_farm_runtime.Runtime.Models.{TaskState, Task, Worker, executor_error}
use agent_farm_runtime.Runtime.Result.{
  Error, executor_unavailable, os_error, Result, is_conflict, is_executor_or_os,
}
use agent_farm_runtime.Runtime.World.{
  draining, Handoff, ReportLine, World, Act, pure, raise, gets, ask, try_catch, ◌>>=◌, ◌>>◌,
}
use agent_farm_runtime.Runtime.Deployment.{deployment, phase_is}
use agent_farm_runtime.Runtime.Store.{get_task, list_tasks, recover}
use agent_farm_runtime.Runtime.Rotation.{clean_surrender, has_lease, request_rotation}
use agent_farm_runtime.Runtime.Reconciler.{Env, report, commit_change}
use agent_farm_runtime.Runtime.Reconciler.Start.{start}
use agent_farm_runtime.Runtime.Reconciler.Resume.{resume}
use agent_farm_runtime.Runtime.Reconciler.Receipts.{surrender}
use agent_farm_runtime.Runtime.Reconciler.Running.{reconcile_running}

-- `str(exc)[:1000]`
unfoldable pub message_of : Error → String
unfolding take_text
message_of (executor_unavailable detail) = take_text 1000 detail
message_of (os_error detail) = take_text 1000 detail
message_of _ = ""

abbrev pub error_info : Task → Error → ErrorInfo
error_info task e = record {
  worker_id = elim task.lease [ none ↦ none | some l ↦ some l.worker_id ];
  message = message_of e;
}

abbrev pub differs : Option ErrorInfo → ErrorInfo → Bool
differs none e = true
differs (some old) e = old != e

abbrev pub with_error : Task → ErrorInfo → Task
with_error task e = record task { metadata = record task.metadata { runtime_error = value e } }

-- `metadata.get("waiting_on") == f"rotation:{…}"`
abbrev pub rotation_only : Option String → Entry Surrender → Bool
rotation_only (some wait) (value s) = wait == cat "rotation:" s.id
rotation_only _ _ = false

module _ (env : Env) where
  abbrev pub asked : Option (World → Task → Result Bool) → Task → Act Bool
  asked none task = pure false
  asked (some unblock) task = ask (λ w. unblock w task)

  -- `self.unblock is not None and self.unblock(task)`
  unfoldable pub may_resume : Task → Act Bool
  may_resume task = asked env.unblock task

  abbrev pub asked_to_restart : Option (World → Task → Result Bool) → Task → Act Bool
  asked_to_restart none task = pure false
  asked_to_restart (some unblock) task =
      if rotation_only (get task.metadata.waiting_on) task.metadata.clean_surrender
      then pure true
      else ask (λ w. unblock w task)

  -- `waiting_on == f"rotation:{…}" or self.unblock(task)`, if there is an `unblock`
  unfoldable pub may_restart : Task → Act Bool
  may_restart task = asked_to_restart env.unblock task

  abbrev pub waits_at_limit : Task → Bool
  waits_at_limit task =
      flag_set task.metadata.restart_limit_reached && not (text_set task.metadata.resume_requested)

  -- A WAITING task without a rotation request
  unfoldable pub reconcile_held : Task → Act (Unit {0})
  unfolding clean_surrender may_restart may_resume start resume
  reconcile_held task =
      if waits_at_limit task
      then pure tt
      else if clean_surrender task
      then may_restart task >>= (λ yes. if yes then start env task none else pure tt)
      else if has_lease task
      then may_resume task >>= (λ yes. if yes then resume env task else pure tt)
      else pure tt

  abbrev pub reconcile_requested : Task → Option RotationRequest → Act (Unit {0})
  reconcile_requested task none = reconcile_held task
  reconcile_requested task (some request) =
      if has_lease task then surrender env task request else reconcile_held task

  -- A WAITING task
  unfoldable pub reconcile_waiting : Task → Act (Unit {0})
  unfolding surrender reconcile_held
  reconcile_waiting task = reconcile_requested task (get task.metadata.rotation_request)

  -- A farm that drains asks for the rotation of every worker.
  unfoldable pub drained : Task → Option Handoff → Act Task
  unfolding request_rotation
  drained task none = pure task
  drained task (some h) =
      if phase_is draining (some h)
        && (has_lease task && not (present task.metadata.rotation_request))
      then request_rotation env.outside env.files task.id (get_or task.metadata.revision 0) h.id
          env.actor none
      else pure task

  abbrev pub reconcile_in : TaskState → Task → List Worker → Act (Unit {0})
  reconcile_in TaskState.ready task workers = start env task none
  reconcile_in TaskState.submitted task workers =
      if text_set task.metadata.rework_requested then start env task none else pure tt
  reconcile_in TaskState.running task workers = reconcile_running env task workers
  reconcile_in TaskState.waiting task workers = reconcile_waiting task
  reconcile_in _ task workers = pure tt

  -- `_reconcile_task`
  unfoldable pub reconcile_task : Task → List Worker → Act (Unit {0})
  unfolding deployment phase_is drained start reconcile_running reconcile_waiting
  reconcile_task task workers = do
    control ← deployment
    task ← drained task control.handoff
    reconcile_in task.state task workers

  abbrev pub on_second : Error → Act (Unit {0})
  on_second c = if is_conflict c then report (ReportLine.conflict c) else raise c

  -- The handler of ExecutorUnavailable and OSError
  unfoldable pub note_error : Task → Error → Act (Unit {0})
  unfolding get_task commit_change
  note_error task e = do
    report (ReportLine.executor_error task.id)
    current ← get_task task.id
    let info = error_info current e
    if differs (get current.metadata.runtime_error) info
        then try_catch
            (commit_change env (with_error current info) "EXECUTOR_ERROR" (executor_error info)
                current none
              >>= (λ _. pure tt))
            on_second
        else pure tt

  abbrev pub on_error : Task → Error → Act (Unit {0})
  on_error task e =
      if is_conflict e
      then report (ReportLine.conflict e)
      else if is_executor_or_os e
      then note_error task e
      else raise e

  -- One turn of the loop
  unfoldable pub reconcile_one : List Worker → Task → Act (Unit {0})
  unfolding reconcile_task note_error
  reconcile_one workers task = try_catch (reconcile_task task workers) (on_error task)

  unfoldable pub reconcile_all : List Worker → List Task → Act (Unit {0})
  unfolding reconcile_one
  reconcile_all workers [] = pure tt
  reconcile_all workers (task ∷ rest) = do reconcile_one workers task; reconcile_all workers rest

  -- `reconcile_once`
  unfoldable pub reconcile_once : Act (Unit {0})
  unfolding recover list_tasks values reconcile_all
  reconcile_once = do
    recover env.outside
    workers ← gets (λ w. values w.disk.workers)
    tasks ← gets (λ w. list_tasks w.disk)
    reconcile_all workers tasks
