-- ===== src/Serving/Standing.antt =====
-- `setTargets` and the Ready condition of internal/controller/serving_controller.go: how the deployment
-- stands on each target. The texts of messages are left out.
use kokumi.Prelude.Order.{Ordering, compare_ℕ}
use kokumi.Prelude.Sort.{sort}
use kokumi.Promotion.History.{Entry, Observation, Health}
use kokumi.Serving.Status.{
  is_true, is_false, is_unknown, Condition, DeploymentClusters, DeploymentTarget, ServingStatus,
}
use kokumi.Prelude.{
  ℕ, suc, ◌+◌, String, Bool, true, false, not, Option, none, some, List, [], ◌∷◌, ltb, ◌==◌, ◌=?◌,
  if◌then◌else◌, length, take,
}
use kokumi.Serving.Targets.{
  States, Target, TargetState, cluster_not_ready, degraded_reason, deployment_failed,
  progressing_reason, state_of,
}
use kokumi.Serving.Observation.{is_at, health_of}

-- The state of a target, by the `switch` of `setTargets`.
pub data Standing : Type 0 where
  stands_held stands_degraded stands_healthy stands_progressing : Standing

abbrev pub standing_at : Health → Standing
standing_at Health.degraded = stands_degraded
standing_at Health.healthy = stands_healthy
standing_at Health.progressing = stands_progressing

unfoldable pub standing : Entry → Target → States → Standing
unfolding state_of
standing deployed t states =
    if not (t.hold_reason =? "")
    then stands_held
    else if is_at deployed t (state_of t.cluster states)
    then standing_at (health_of (state_of t.cluster states))
    else stands_progressing

abbrev pub ready_of : Target → Standing → Condition
ready_of t stands_held = record { status = is_false; reason = t.hold_reason }
ready_of t stands_degraded = record { status = is_false; reason = degraded_reason }
ready_of t _ = record { status = is_unknown; reason = progressing_reason }

abbrev pub revision_of : Option TargetState → String
revision_of none = ""
revision_of (some s) = s.revision

abbrev pub is_listed : Standing → Bool
is_listed stands_healthy = false
is_listed _ = true

abbrev pub is_standing : Standing → Standing → ℕ
is_standing stands_held stands_held = 1
is_standing stands_degraded stands_degraded = 1
is_standing stands_healthy stands_healthy = 1
is_standing stands_progressing stands_progressing = 1
is_standing _ _ = 0

-- How many of the targets stand so.
unfoldable pub count_standing : Standing → Entry → List Target → States → ℕ
unfolding standing
count_standing x deployed [] states = 0
count_standing x deployed (t ∷ ts) states =
    is_standing x (standing deployed t states) + count_standing x deployed ts states

-- The targets that the loop of `setTargets` lists.
unfoldable pub listed_targets : Entry → List Target → States → List DeploymentTarget
unfolding standing state_of
listed_targets deployed [] states = []
listed_targets deployed (t ∷ ts) states =
    let rest = listed_targets deployed ts states in
    if is_listed (standing deployed t states)
    then record {
      cluster = t.cluster;
      revision = revision_of (state_of t.cluster states);
      ready = ready_of t (standing deployed t states);
    }
      ∷ rest
    else rest

-- targetRank
unfoldable pub target_rank : DeploymentTarget → ℕ
target_rank t = elim t.ready.status [
  | is_unknown ↦ 2
  | is_true ↦ if t.ready.reason =? degraded_reason then 1 else 0
  | is_false ↦ if t.ready.reason =? degraded_reason then 1 else 0
]

abbrev pub max_listed_targets : ℕ
max_listed_targets = 64

unfoldable pub by_rank : DeploymentTarget → DeploymentTarget → Ordering
unfolding target_rank
by_rank a b = compare_ℕ (target_rank a) (target_rank b)

unfoldable pub clusters_of : Entry → List Target → States → DeploymentClusters
unfolding count_standing
clusters_of deployed targets states = record {
  selected = length targets;
  healthy = count_standing stands_healthy deployed targets states;
  progressing = count_standing stands_progressing deployed targets states;
  degraded = count_standing stands_degraded deployed targets states;
  held = count_standing stands_held deployed targets states;
}

unfoldable pub set_targets : Entry → List Target → States → ServingStatus → ServingStatus
unfolding clusters_of listed_targets by_rank
set_targets deployed targets states s = record s {
  clusters = some (clusters_of deployed targets states);
  targets = take max_listed_targets (sort by_rank (listed_targets deployed targets states));
}

unfoldable pub count_unready : List Target → ℕ
count_unready [] = 0
count_unready (t ∷ ts) =
    if t.hold_reason =? cluster_not_ready then suc (count_unready ts) else count_unready ts

-- The Ready condition of `markDeployment`; an int of the source, which may be negative, is compared
-- by its two sides.
unfoldable pub deployment_condition : DeploymentClusters → List Target → Observation → Condition
unfolding count_unready
deployment_condition counts targets o =
    if ltb (count_unready targets) (counts.held + counts.degraded)
    then record { status = is_false; reason = deployment_failed }
    else if count_unready targets == length targets
    then record { status = is_false; reason = deployment_failed }
    else elim o.health [
      | Health.healthy ↦ record { status = is_true; reason = "Deployed" }
      | Health.degraded ↦ record { status = is_unknown; reason = "Deploying" }
      | Health.progressing ↦ record { status = is_unknown; reason = "Deploying" }
    ]
