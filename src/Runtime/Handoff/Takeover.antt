-- ===== src/Runtime/Handoff/Takeover.antt =====
-- A farm that was sealed can be claimed on the host that the handoff names.
use agent_farm_runtime.Prelude.{
  ◌≡◌, refl, is_yes_iff, String, Option, none, some, true, false, List, [], ◌∷◌, arith, not_blank,
  string_eq, ◌==◌,
}
use agent_farm_runtime.Runtime.Equality.{
  option_string_eq, task_eq, Task-discrete, Option_String-discrete,
}
use agent_farm_runtime.Runtime.Models.{Task}
use agent_farm_runtime.Runtime.Result.{ok}
use agent_farm_runtime.Runtime.World.{Handoff, claimed, Manifest, Archive, Effect, World, after}
use agent_farm_runtime.Runtime.Deployment.{phase_is}
use agent_farm_runtime.Runtime.Executor.{Executor}
use agent_farm_runtime.Runtime.Handoff.{is_at}
use agent_farm_runtime.Runtime.Handoff.Audit.{after-publish_effects}
use agent_farm_runtime.Runtime.Handoff.Release.{Plane, is_stop}
use agent_farm_runtime.Runtime.Handoff.Release.Sealed.{Sealed, proof}
use agent_farm_runtime.Runtime.Handoff.Claim.{same_tasks, is_changed, claim_farm}
use agent_farm_runtime.Runtime.Handoff.Claim.Claims.{
  Claimable, claim_farm-Claims, claim_effects, over, result,
}

same_task : (t : Task) → (some t == some t) ≡ true
same_task t = (is_yes_iff (Task-discrete (some t) (some t))).1 refl

same_tasks_self : (ts : List Task) → same_tasks ts ts ≡ true
unfolding same_tasks
same_tasks_self [] = refl
same_tasks_self (t ∷ ts) = rw (same_task t, same_tasks_self ts) refl

same_digest : (s : Option String) → (s == s) ≡ true
same_digest s = (is_yes_iff (Option_String-discrete s s)).1 refl

module _ (old new : Plane) (executor : Executor) (request_id actor claimer : String) (m : Manifest)
    (control sealed : Handoff) (w : World)
    (s : Sealed old executor request_id actor m control w sealed)
    (same_id : control.id ≡ request_id) (no_stop : is_stop control ≡ false)
    (no_recovery : w.disk.pending_recovery ≡ false) (named : not_blank claimer ≡ true)
    (root : new.root ≡ old.root) (digest : (a : Archive) → new.digest a ≡ old.digest a)
    (here : is_at new.out.identity control.target_host m ≡ true) where
  abbrev the_proof : Archive
  the_proof = proof old executor request_id actor m control s.workers w

  unchanged : is_changed new request_id claimer sealed the_proof w ≡ false
  unfolding is_changed
  unchanged = rw (s.same, digest, same_digest, same_tasks_self, s.cleared, root) (ground arith)

  sealed-Claimable : Claimable new request_id claimer w sealed the_proof
  unfolding phase_is
  sealed-Claimable = record {
    named = named;
    no_recovery = no_recovery;
    handoff = rw s.standing refl;
    short = rw s.same s.short;
    audited = rw s.standing refl;
    no_stop = rw s.same no_stop;
    same_id = rw s.same same_id;
    here = rw (s.standing, s.same) here;
    sealed = rw s.same refl;
    archived = s.archived;
    unchanged = unchanged;
    intact = s.intact;
  }

  -- The claim returns, and the deployment is of the new host and epoch.
  pub record TakenOver : Type 0 where
    pub claimed_by : Handoff
    pub effects : List Effect
    pub returns : claim_farm new request_id claimer w ≡ (ok claimed_by, effects)
    pub phase : phase_is claimed (some claimed_by) ≡ true
    pub deployed : (after w effects).disk.deployment ≡ record m {
      host = some new.out.identity.host;
      source_sha256 = some new.out.identity.source_sha256;
      protocol_version = some new.out.identity.protocol_version;
      execution_epoch = some request_id;
      pending_event = none;
      handoff = some claimed_by;
    }
    pub tasks : (after w effects).disk.tasks ≡ w.disk.tasks

  -- After a release sealed a farm, and as long as its files are as the release left them and no
  -- recovery is pending, a claim of the same handoff by a named actor, which is no stop, on the
  -- host that the handoff names, with the same build and at the same root, returns; the deployment
  -- is then of that host, in the epoch of the handoff, with no event left to redo, and the tasks are
  -- as they were.
  pub Sealed-TakenOver : TakenOver
  unfolding phase_is
  Sealed-TakenOver =
      let c = sealed-Claimable in
      let files =
        after-publish_effects new.out.identity (over new request_id claimer w sealed the_proof)
          (result new request_id claimer w sealed the_proof) "FARM_CLAIMED" claimer w in
      record {
        claimed_by = result new request_id claimer w sealed the_proof;
        effects = claim_effects new request_id claimer w sealed the_proof;
        returns = claim_farm-Claims new request_id claimer w sealed the_proof c;
        phase = refl;
        deployed = rw (files, s.standing) refl;
        tasks = rw files refl;
      }
