-- ===== src/Runtime/Reconciler/Resume.antt =====
-- `_resume` of src/agent_farm_runtime/reconciler.py: wake the worker of a WAITING task.
use agent_farm_runtime.Prelude.{ℕ, String, Option, none, some, Bool, true, false, if◌then◌else◌}
use agent_farm_runtime.Runtime.Metadata.{
  missing, null, value, get, flag_set, iso, Metadata, no_metadata,
}
use agent_farm_runtime.Runtime.Models.{TaskState, Lease, Task, resumed}
use agent_farm_runtime.Runtime.Transitions.{transition_task, assign}
use agent_farm_runtime.Runtime.World.{ReportLine, Act, pure, lift, gets, ◌>>=◌, ◌>>◌}
use agent_farm_runtime.Runtime.Deployment.{deployment}
use agent_farm_runtime.Runtime.Files.{master_note_digest}
use agent_farm_runtime.Runtime.Executor.{poll, resume_worker}
use agent_farm_runtime.Runtime.Reconciler.{
  Env, withholds, the_lease, report, commit_change, observe, preflight,
}
use agent_farm_runtime.Runtime.Reconciler.Start.{digest_entry}

unfoldable pub resume_patch : Task → ℕ → Option String → Metadata
resume_patch task now digest = record no_metadata {
  launched_ts = value (iso now);
  resume_requested = null;
  runtime_error = null;
  worker_checkpoint = null;
  restart_limit_reached =
      if flag_set task.metadata.restart_limit_reached then value false else missing;
  automatic_restarts = if flag_set task.metadata.restart_limit_reached then value 0 else missing;
  master_notes_digest = digest_entry digest;
}

module _ (env : Env) where
  -- The dispatch of a resumption.
  unfoldable pub dispatch_resume : Task → Lease → Task → Act (Unit {0})
  unfolding resume_worker observe
  dispatch_resume task lease saved = do
    resume_worker env.executor saved lease.worker_id lease
    observe env lease.worker_id none task.id lease.lease_id true

  -- `_resume` of a worker that exited
  unfoldable pub wake : Task → Lease → Act (Unit {0})
  unfolding transition_task resume_patch dispatch_resume commit_change master_note_digest
  wake task lease = do
    now ← gets env.outside.now
    digest ← gets (λ w. master_note_digest env.files w (get task.metadata.workspace))
    woken ← lift (
        transition_task task TaskState.running (some lease.lease_id) false
          (resume_patch task now digest) (assign (some lease)))
    commit_change env woken "RESUMED" (resumed lease.worker_id) task
        (some (dispatch_resume task lease))
    report (ReportLine.resumed task.id)

  abbrev pub resume_on : Task → Lease → Option Bool → Act (Unit {0})
  resume_on task lease none = report (ReportLine.observation_error task.id)
  resume_on task lease (some true) = report (ReportLine.waiting_grace task.id)
  resume_on task lease (some false) = wake task lease

  unfoldable pub poll_and_resume : Task → Act (Unit {0})
  unfolding poll wake
  poll_and_resume task = do
    lease ← the_lease task
    obs ← poll env.executor lease.worker_id
    resume_on task lease obs.alive

  -- `_resume`
  unfoldable pub resume : Task → Act (Unit {0})
  unfolding deployment preflight poll_and_resume
  resume task = do
    control ← deployment
    if withholds control
        then pure tt
        else preflight env task >>= (λ accepts. if accepts then poll_and_resume task else pure tt)
