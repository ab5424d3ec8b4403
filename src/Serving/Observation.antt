-- ===== src/Serving/Observation.antt =====
-- `observationOf` of internal/controller/serving_controller.go: the states that the engine reports of the
-- targets, as one observation of the deployed entry.
pub mod Observed
use kokumi.Prelude.Result.{Result, err, ok}
use kokumi.Prelude.Order.{Ordering, compare_ℕ}
use kokumi.Prelude.Sort.{sort}
use kokumi.Promotion.History.{Entry, Observation, Health}
use kokumi.Serving.Status.{
  ConditionStatus, is_true, is_false, is_unknown, Condition, DeploymentClusters, DeploymentTarget,
  ServingStatus,
}
use kokumi.Prelude.{
  ℕ, zero, suc, ◌+◌, ◌-◌, ◌*◌, ◌/◌, ◌%◌, ◌^◌, ◌≤◌, ◌<◌, min, String, ◌≡◌, refl, sym, ap, ◌∙◌, ◌≢◌,
  ◌↔◌, ◌⊎◌, inl, inr, Bool, true, false, not, ◌&&◌, ◌||◌, Option, none, some, List, [], ◌∷◌, ◌++◌,
  map, arith, ltb, leb, ◌==◌, ◌=?◌, =?_iff, =?_refl, if◌then◌else◌, ltb→lt, leb→le, le→leb, lt→leb,
  Bool-cases, Option-cases, length, take, tail, any, All, All-take, length-take, take_all,
}
use kokumi.Serving.Targets.{
  Cluster, States, Target, TargetState, cluster_conflict, cluster_not_ready, degraded_reason,
  deployment_failed, has_status_true, is_taken, progressing_reason, registry_unreachable, state_of,
}

-- The variables `counted` and `healthy` of `observationOf`, or the observation it returns early.
pub data Observing : Type 0 where
  counting : ℕ → ℕ → Observing
  found_degraded : Observing

abbrev pub is_at : Entry → Target → Option TargetState → Bool
is_at deployed t none = false
is_at deployed t (some s) = (t.hold_reason =? "") && (s.revision =? deployed.digest)

abbrev pub health_of : Option TargetState → Health
health_of none = Health.progressing
health_of (some s) = s.health

-- The `switch` of the loop of `observationOf`, on what is at the digest.
abbrev pub count_health : Health → ℕ → ℕ → Observing
count_health Health.degraded counted healthy = found_degraded
count_health Health.healthy counted healthy = counting counted (suc healthy)
count_health Health.progressing counted healthy = counting counted healthy

unfoldable pub observe_target : Entry → Target → States → ℕ → ℕ → Observing
unfolding state_of
observe_target deployed t states counted healthy =
    if t.hold_reason =? cluster_not_ready
    then counting counted healthy
    else if is_at deployed t (state_of t.cluster states)
    then count_health (health_of (state_of t.cluster states)) (suc counted) healthy
    else counting (suc counted) healthy

abbrev pub continue_with : Observing → (ℕ → ℕ → Observing) → Observing
continue_with found_degraded rest = found_degraded
continue_with (counting c h) rest = rest c h

unfoldable pub observe_targets : Entry → List Target → States → ℕ → ℕ → Observing
unfolding observe_target
observe_targets deployed [] states counted healthy = counting counted healthy
observe_targets deployed (t ∷ ts) states counted healthy =
    continue_with (observe_target deployed t states counted healthy)
      (λ c h. observe_targets deployed ts states c h)

abbrev pub observation_from : Entry → Observing → Observation
observation_from deployed found_degraded = record {
  revision = deployed.digest;
  health = Health.degraded;
}
observation_from deployed (counting counted healthy) =
    if ltb 0 counted && healthy == counted
    then record { revision = deployed.digest; health = Health.healthy }
    else record { revision = ""; health = Health.progressing }

unfoldable pub observation_of : Entry → List Target → States → Observation
unfolding observe_targets
observation_of deployed targets states =
    observation_from deployed (observe_targets deployed targets states 0 0)
