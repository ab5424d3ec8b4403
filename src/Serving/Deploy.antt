-- ===== src/Serving/Deploy.antt =====
-- `deploy` of internal/controller/serving_controller.go: the deployed Preparation on the clusters of its
-- Environment, and what is recorded of it. The Events that it emits are left out.
pub mod Moves
use kokumi.Prelude.Result.{Result, and_then, err, ok}
use kokumi.Clock.{Duration, Time, is_zero}
use kokumi.Prelude.Int.{pos}
use kokumi.Promotion.History.{
  Entry, History, Observation, Health, is_healthy, deployed, observe, record_deployment, unrecorded,
}
use kokumi.Serving.Checks.{product_of}
use kokumi.Serving.Engine.{
  RecordTarget, Deploying, Selected, deploys_to, may_not_deploy, targets, apply_targets,
}
use kokumi.Serving.Inputs.{Inputs}
use kokumi.Serving.Preparation.{ReleaseImage, Preparation, Product, release_images_of}
use kokumi.Serving.Promote.{Hold, history_pass_interval}
use kokumi.Serving.Status.{
  Fetched, fetched, missing, unread, is_unknown, is_false, Condition, ServingStatus, history_of,
  set_history,
}
use kokumi.Serving.Targets.{Target, TargetState, States, state_of, deployment_failed}
use kokumi.Serving.Observation.{observation_of}
use kokumi.Serving.Standing.{set_targets, deployment_condition, clusters_of}
use kokumi.Vulnerability.Evaluation.{total}
use kokumi.Vulnerability.Severity.{Summary}
use kokumi.Prelude.{
  ℕ, zero, suc, ◌+◌, ◌-◌, ◌*◌, ◌/◌, ◌%◌, ◌^◌, ◌≤◌, ◌<◌, min, String, ◌≡◌, refl, sym, ap, ◌∙◌, ◌≢◌,
  ◌↔◌, ◌⊎◌, inl, inr, Bool, true, false, not, ◌&&◌, ◌||◌, Option, none, some, List, [], ◌∷◌, ◌++◌,
  map, arith, ltb, leb, ◌==◌, ◌=?◌, =?_iff, =?_refl, if◌then◌else◌, ltb→lt, leb→le, le→leb, lt→leb,
  Bool-cases, Option-cases, length, take, tail, any, All, All-take, length-take, take_all,
}

-- The status that `deploy` leaves, and what it returns.
pub record Deployed : Type 0 where
  pub status : ServingStatus
  pub result : Result Duration

abbrev pub leaving : ServingStatus → Result Duration → Deployed
leaving s r = record { status = s; result = r }

-- The Ready condition set; `markHeld` changes only its message.
abbrev pub with_ready : Condition → ServingStatus → ServingStatus
with_ready c s = record s { ready = some c }

abbrev pub runs_entry : Entry → Target → Option TargetState → Bool
runs_entry e t none = false
runs_entry e t (some s) = (t.hold_reason =? "") && ((s.revision =? e.digest) && is_healthy s.health)

-- The targets that a deployment record of the entry names.
unfoldable pub record_targets : Entry → String → List Target → States → List RecordTarget
unfolding state_of
record_targets e namespace [] states = []
record_targets e namespace (t ∷ ts) states =
    let rest = record_targets e namespace ts states in
    if runs_entry e t (state_of t.cluster states)
    then record { cluster = t.cluster; server = t.server; namespace = namespace } ∷ rest
    else rest

-- A round of the loop of `recordDeployments`.
unfoldable pub record_one :
    Deploying → List Target → States → Entry → History → Fetched Preparation → Result History
unfolding record_targets
record_one d ts states e h missing = ok h
record_one d ts states e h (unread m) = err m
record_one d ts states e h (fetched p) =
    and_then (d.push_deployment e (record_targets e p.target_namespace ts states))
      (λ r. ok (record_deployment e.digest e.healthy r h))

unfoldable pub record_each :
    Deploying → List Target → States → List Entry → History → Result History
unfolding record_one
record_each d ts states [] h = ok h
record_each d ts states (e ∷ es) h =
    and_then (record_one d ts states e h (d.preparation_named e.preparation))
      (λ k. record_each d ts states es k)

-- The history that `recordDeployments` writes, `none` when it writes none.
unfoldable pub recorded :
    Deploying → History → List Target → States → List Entry → Result (Option History)
unfolding record_each
recorded d h ts states [] = ok none
recorded d h ts states (e ∷ es) = elim d.signing_error [
  | some m ↦ err m
  | none ↦ and_then (record_each d ts states (e ∷ es) h) (λ k. ok (some k))
]

abbrev pub summary_of : Summary × Bool → Option Summary
summary_of (sum, scanned) = if scanned then some sum else none

abbrev pub product_summary : Preparation → Option Product → Option Summary
product_summary p none = none
product_summary p (some product) = summary_of (total (release_images_of p.images product))

-- `recordDeployedVulnerabilities` behind its first read.
unfoldable pub record_vulnerabilities : Inputs → Fetched Preparation → ServingStatus → Deployed
unfolding product_of
record_vulnerabilities w missing s = leaving s (ok (pos 0))
record_vulnerabilities w (unread m) s = leaving s (err m)
record_vulnerabilities w (fetched p) s = elim (product_of w) [
  | err m ↦ leaving s (err m)
  | ok product ↦
      leaving (record s { deployed_vulnerabilities = product_summary p product }) (ok (pos 0))
]

unfoldable pub record_deployed_vulnerabilities :
    Inputs → Deploying → Entry → ServingStatus → Deployed
unfolding record_vulnerabilities
record_deployed_vulnerabilities w d e s =
    if is_zero e.healthy
    then leaving s (ok (pos 0))
    else record_vulnerabilities w (d.preparation_named e.preparation) s

abbrev pub write_recorded : Option History → ServingStatus → ServingStatus
write_recorded none s = s
write_recorded (some h) s = set_history h s

-- `deploy` on an observation that changes nothing.
unfoldable pub record_deployments :
    Inputs → Deploying → Entry → Result (Option History) → ServingStatus → Deployed
unfolding record_deployed_vulnerabilities
record_deployments w d e (err m) s = leaving s (err m)
record_deployments w d e (ok k) s = record_deployed_vulnerabilities w d e (write_recorded k s)

abbrev pub is_healthy_now : Option Entry → Bool
is_healthy_now none = false
is_healthy_now (some e) = not (is_zero e.healthy)

-- The summary is cleared once the entry is healthy for the first time.
abbrev pub clear_summary : Entry → History → ServingStatus → ServingStatus
clear_summary e observed s = record s {
  deployed_vulnerabilities =
      if is_zero e.healthy && is_healthy_now (deployed observed)
      then none
      else s.deployed_vulnerabilities;
}

-- `deploy` behind `Observe`.
unfoldable pub after_observe :
    Inputs
    → Deploying
    → Entry
    → History
    → List Target
    → States
    → History × Bool
    → ServingStatus
    → Deployed
unfolding recorded record_deployments
after_observe w d e h ts states (observed, true) s =
    leaving (set_history observed (clear_summary e observed s)) (ok history_pass_interval)
after_observe w d e h ts states (observed, false) s =
    record_deployments w d e (recorded d h ts states (unrecorded h)) s

-- The status behind `setTargets` and `markDeployment`.
abbrev pub with_targets : Entry → List Target → States → ServingStatus → ServingStatus
with_targets e ts states s =
    with_ready (deployment_condition (clusters_of e ts states) ts (observation_of e ts states))
      (set_targets e ts states s)

-- `deploy` behind `applyTargets`.
unfoldable pub after_apply :
    Inputs → Deploying → Entry → History → Result (List Target × States) → ServingStatus → Deployed
unfolding after_observe
after_apply w d e h (err m) s =
    leaving (with_ready (record { status = is_false; reason = deployment_failed }) s) (err m)
after_apply w d e h (ok (ts, states)) s =
    after_observe w d e h ts states (observe (observation_of e ts states) d.observe_time h)
      (with_targets e ts states s)

-- `deploy` behind `targets`.
unfoldable pub after_targets :
    Inputs → Deploying → Entry → History → Result Selected → ServingStatus → Deployed
unfolding after_apply
after_targets w d e h (err m) s = leaving s (err m)
after_targets w d e h (ok (may_not_deploy reason)) s = elim (d.remove []) [
  | some m ↦ leaving s (err m)
  | none ↦
      leaving (with_ready (record { status = is_false; reason = reason }) (set_targets e [] [] s))
        (ok (pos 0))
]
after_targets w d e h (ok (deploys_to ts)) s = after_apply w d e h (apply_targets d e ts) s

-- `deploy` behind the read of the deployed Preparation.
unfoldable pub deploy_entry :
    Inputs → Deploying → Entry → History → Fetched Preparation → ServingStatus → Deployed
unfolding after_targets
deploy_entry w d e h (unread m) s = leaving s (err m)
deploy_entry w d e h missing s =
    leaving (with_ready (record { status = is_false; reason = "PreparationNotFound" }) s)
      (ok (pos 0))
deploy_entry w d e h (fetched p) s = after_targets w d e h (targets d p) s

abbrev pub mark_pending : Option Hold → ServingStatus → ServingStatus
mark_pending none s = s
mark_pending (some _) s = with_ready (record { status = is_unknown; reason = "Pending" }) s

-- `deploy`, with whether there is an Order and a deployed entry.
unfoldable pub deploy_with :
    Inputs → Deploying → Bool → Option Hold → History → Option Entry → ServingStatus → Deployed
unfolding deploy_entry
deploy_with w d has_order held h none s = leaving (mark_pending held s) (ok (pos 0))
deploy_with w d false held h (some e) s = leaving (mark_pending held s) (ok (pos 0))
deploy_with w d true held h (some e) s = deploy_entry w d e h (d.preparation_named e.preparation) s

unfoldable pub deploy : Inputs → Deploying → Bool → Option Hold → ServingStatus → Deployed
unfolding deploy_with
deploy w d has_order held s =
    deploy_with w d has_order held (history_of s.history) (deployed (history_of s.history)) s
