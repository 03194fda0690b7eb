-- ===== src/Runtime/Handoff/Claim/Claims.antt =====
-- When a claim returns, and what it leaves.
use agent_farm_runtime.Prelude.{
  ◌≡◌, refl, ◌∙◌, ap, not, ◌||◌, ◌!=◌, String, none, some, true, false, List, arith, lookup, codes,
  is_short_identifier, not_blank, string_eq,
}
use agent_farm_runtime.Runtime.Equality.{option_string_eq}
use agent_farm_runtime.Runtime.Result.{Result, ok}
use agent_farm_runtime.Runtime.World.{
  Handoff, draining, released, claimed, Manifest, Archive, Effect, World, after, Act, pure, ◌>>=◌,
}
use agent_farm_runtime.Runtime.World.Silent.{passes}
use agent_farm_runtime.Runtime.World.Rules.{act_rules, bind-ok, pure_lem}
use agent_farm_runtime.Runtime.Deployment.{phase_is, require_no_pending_recovery, deployment}
use agent_farm_runtime.Runtime.Handoff.{is_at, finish_deployment_event, publish_control}
use agent_farm_runtime.Runtime.Handoff.Audit.{
  CanPublish, CanPublish-publish_control, publish_effects, finish_deployment_event-none,
}
use agent_farm_runtime.Runtime.Handoff.Release.{Plane, is_stop}
use agent_farm_runtime.Runtime.Handoff.Claim.{
  taken_over, claimed_as, is_changed, take_over, claim_control, claim_farm,
}

module _ (plane : Plane) (request_id actor : String) (w : World) (control : Handoff)
    (proof : Archive) where
  -- What a claim asks of the files
  pub record Claimable : Type 0 where
    pub named : not_blank actor ≡ true
    pub no_recovery : w.disk.pending_recovery ≡ false
    pub handoff : w.disk.deployment.handoff ≡ some control
    pub short : is_short_identifier (codes control.id) ≡ true
    pub audited : w.disk.deployment.pending_event ≡ none
    pub no_stop : is_stop control ≡ false
    pub same_id : control.id ≡ request_id
    pub here : is_at plane.out.identity control.target_host w.disk.deployment ≡ true
    pub sealed : phase_is released (some control) ≡ true
    pub archived : lookup request_id w.disk.handoffs ≡ some proof
    pub unchanged : is_changed plane request_id actor control proof w ≡ false
    pub intact : w.disk.log.damaged ≡ false

  abbrev m : Manifest
  m = w.disk.deployment

  abbrev pub over : Manifest
  over = taken_over plane request_id actor m

  abbrev pub result : Handoff
  result = claimed_as plane request_id actor control

  abbrev pub claim_effects : List Effect
  claim_effects = publish_effects plane.out.identity over result "FARM_CLAIMED" actor w

  take_over_lem :
      lookup request_id w.disk.handoffs ≡ some proof
      → is_changed plane request_id actor control proof w ≡ false
      → take_over plane request_id actor m control w
        ≡ (publish_control plane.out.identity over result "FARM_CLAIMED" actor >>= λ _. pure result)
            w
  unfolding take_over
  take_over_lem e n = simp act_rules (rw e (simp act_rules (rw n refl)))

  publishes : Claimable → CanPublish plane.out.identity over result "FARM_CLAIMED" actor w
  publishes c = record { intact = c.intact; named = c.short; here = ground arith }

  take_over-Claims :
      Claimable → take_over plane request_id actor m control w ≡ (ok result, claim_effects)
  take_over-Claims c =
      take_over_lem c.archived c.unchanged
      ∙ bind-ok _ w _ (
          CanPublish-publish_control plane.out.identity over result "FARM_CLAIMED" actor w
            (publishes c))
      ∙ rw pure_lem refl

  finishes_nothing {ℓ} :
      {B : Type ℓ} (k : Manifest → Act B)
      → Claimable
      → (finish_deployment_event plane.out.identity true >>= k) w ≡ k m w
  unfolding after
  finishes_nothing k c =
      bind-ok k w (finish_deployment_event plane.out.identity true)
        (finish_deployment_event-none plane.out.identity true w c.audited (rw c.handoff c.short))

  mismatch :
      Claimable
      → (control.id != request_id || not (is_at plane.out.identity control.target_host m)) ≡ false
  mismatch c = let i = c.same_id in let h = c.here in ground arith

  is_sealed :
      Claimable
      → (phase_is draining (some control) ≡ false) × (phase_is claimed (some control) ≡ false)
  unfolding phase_is
  is_sealed c = let s = c.sealed in (ground arith, ground arith)

  claim_control-Claims :
      Claimable
      → claim_control plane request_id actor m (some control) w ≡ (ok result, claim_effects)
  unfolding claim_control
  claim_control-Claims c =
      passes w _ _ _ c.no_stop
      ∙ passes w _ _ _ (mismatch c)
      ∙ passes w _ _ _ (is_sealed c).0
      ∙ finishes_nothing _ c
      ∙ rw ((is_sealed c).1) (take_over-Claims c)

  no_recovery_lem {ℓ} :
      {B : Type ℓ} (k : Unit {0} → Act B)
      → Claimable
      → (require_no_pending_recovery >>= k) w ≡ k tt w
  unfolding require_no_pending_recovery
  no_recovery_lem k c = simp act_rules (rw (c.no_recovery) refl)

  deployment_lem {ℓ} :
      {B : Type ℓ} (k : Manifest → Act B) → Claimable → (deployment >>= k) w ≡ k m w
  unfolding deployment
  deployment_lem k c = simp act_rules (rw (c.handoff, c.short) refl)

  pub claim_farm-Claims :
      Claimable → claim_farm plane request_id actor w ≡ (ok result, claim_effects)
  unfolding claim_farm
  claim_farm-Claims c =
      passes w _ _ _ (ap not c.named)
      ∙ no_recovery_lem _ c
      ∙ deployment_lem _ c
      ∙ ap {B = Result Handoff × List Effect} (λ o. claim_control plane request_id actor m o w)
          c.handoff
      ∙ claim_control-Claims c
