-- ===== src/Serving/Upstream.antt =====
-- `upstream` of internal/controller/serving_controller.go: the gate that waits for the upstream stages
-- and for the records of their deployments.
pub mod Satisfied
use kokumi.Prelude.Result.{Result, and_then, err, ok}
use kokumi.Approval
use kokumi.Clock.{Time, Duration}
use kokumi.Prelude.Int.{ℤ, pos}
use kokumi.Promotion.Gate.{
  Stage, Upstream, Request, Qualified, Outcome, satisfied, soaking, not_deployed_upstream,
  invalid_pipeline, seconds,
}
use kokumi.Promotion.Gate
use kokumi.Promotion.History.{History, promoted_before}
use kokumi.Promotion.Release.{Requirement, required}
use kokumi.Vulnerability.Evaluation
use kokumi.Vulnerability.Evaluation.{Scan, Assessment}
use kokumi.Vulnerability.Reading.{Reading, read}
use kokumi.Vulnerability.Severity.{Severity, max_age_of}
use kokumi.Serving.Preparation.{
  VulnerabilityCheck, Preparation, Product, release_images_of, VulnerabilitiesEvidence,
  vulnerabilities_evidence_of,
}
use kokumi.Serving.Status.{
  Fetched, fetched, missing, unread, ConditionStatus, is_true, is_false, is_unknown, Change,
  unchanged, removed, marked, DeploymentEntry, history_of,
}
use kokumi.Serving.Inputs.{
  RecordCheck, record_verified, record_unverified, EvidenceCheck, key_not_ready, evidence_verified,
  evidence_rejected, evidence_unreachable, evidence_failed, UpstreamOrder, ChecksVerdict,
  Upstreamed, Inputs, Gated, failing,
}
use kokumi.Prelude.{
  ℕ, zero, suc, ◌+◌, ◌-◌, ◌*◌, ◌/◌, ◌%◌, ◌^◌, ◌≤◌, ◌<◌, min, String, ◌≡◌, refl, sym, ap, ◌∙◌, ◌≢◌,
  ◌↔◌, ◌⊎◌, inl, inr, Bool, true, false, not, ◌&&◌, ◌||◌, Option, none, some, List, [], ◌∷◌, ◌++◌,
  map, arith, ltb, leb, ◌==◌, ◌=?◌, =?_iff, =?_refl, if◌then◌else◌, ltb→lt, leb→le, le→leb, lt→leb,
  Bool-cases, Option-cases, length, take, tail, any, All, All-take, length-take, take_all,
}

abbrev pub is_satisfied : Outcome → Bool
is_satisfied satisfied = true
is_satisfied _ = false

-- upstreamReasons
unfoldable pub upstream_reasons : Outcome → String
upstream_reasons satisfied = "Satisfied"
upstream_reasons soaking = "Soaking"
upstream_reasons not_deployed_upstream = "NotDeployedUpstream"
upstream_reasons invalid_pipeline = "InvalidPipeline"

-- The maps `environments` and `req.Upstreams`, read from their fronts.
pub record Collected : Type 0 where
  pub environments : List (String × String)
  pub upstreams : List (String × Upstream)

unfoldable pub environment_of : List (String × String) → String → String
environment_of [] order = ""
environment_of ((k, e) ∷ l) order = if k =? order then e else environment_of l order

unfoldable pub upstream_of : List (String × Upstream) → String → Option Upstream
upstream_of [] order = none
upstream_of ((k, u) ∷ l) order = if k =? order then some u else upstream_of l order

unfoldable pub requirements : Inputs → Result (List Requirement)
requirements w = elim w.environment [
  | fetched none ↦ ok []
  | fetched (some l) ↦ ok l
  | missing ↦ ok []
  | unread e ↦ err e
]

abbrev pub collected_with : Stage → UpstreamOrder → History → Collected → Collected
collected_with s o h c = record {
  environments = (s.order, o.environment) ∷ c.environments;
  upstreams = (s.order, record { product = o.product; history = h }) ∷ c.upstreams;
}

-- A round of the loop over the stages, from its second read on.
unfoldable pub collect_serving :
    Stage → UpstreamOrder → Collected → Fetched (List DeploymentEntry) → Result Collected
collect_serving s o c (fetched entries) = ok (collected_with s o (history_of entries) c)
collect_serving s o c missing = ok (collected_with s o [] c)
collect_serving s o c (unread e) = err e

unfoldable pub collect_stage : Inputs → Stage → Collected → Result Collected
unfolding collect_serving
collect_stage w s c = elim (w.upstream_order s.order) [
  | fetched o ↦ collect_serving s o c (w.upstream_serving s.order)
  | missing ↦ ok c
  | unread e ↦ err e
]

unfoldable pub collect : Inputs → List Stage → Collected → Result Collected
unfolding collect_stage
collect w [] c = ok c
collect w (s ∷ ss) c = and_then (collect_stage w s c) (λ d. collect w ss d)

abbrev pub held_upstream : Outcome → Upstreamed
held_upstream o = record { outcome = o; requeue_after = pos 0; qualified = []; promotion = "" }

-- The loop over the records that qualify: the first that does not verify holds.
unfoldable pub check_records : Inputs → List Qualified → Option (Gated Upstreamed)
check_records w [] = none
check_records w (q ∷ qs) = elim (w.verify_deployment q) [
  | record_verified ↦ check_records w qs
  | record_unverified reason e ↦
      if reason =? ""
      then some (record { change = marked is_false "SignatureMissing"; result = err e })
      else some (record {
        change = marked is_false reason;
        result = ok (held_upstream not_deployed_upstream);
      })
]

abbrev pub upstreamed_of : Gate.Result → Upstreamed
upstreamed_of r = record {
  outcome = r.outcome;
  requeue_after = r.requeue_after;
  qualified = r.qualified;
  promotion = r.promotion;
}

abbrev pub unless_held : Option (Gated Upstreamed) → Gated Upstreamed → Gated Upstreamed
unless_held (some held) rest = held
unless_held none rest = rest

-- `upstream` behind `Evaluate`.
unfoldable pub judge_upstream : Inputs → Gate.Result → Gated Upstreamed
unfolding upstream_reasons check_records
judge_upstream w r =
    if not (is_satisfied r.outcome)
    then record {
      change = marked is_false (upstream_reasons r.outcome);
      result = ok (upstreamed_of r);
    }
    else unless_held (check_records w r.qualified)
        (record { change = marked is_true "Satisfied"; result = ok (upstreamed_of r) })

abbrev pub request_of : Inputs → Preparation → History → Collected → Request
request_of w p h c = record {
  preparation = p.name;
  product = w.product_ref;
  revision = p.product_revision;
  stages = p.stages;
  self = h;
  upstreams = upstream_of c.upstreams;
  now = w.upstream_time;
}

-- `upstream` behind the loop over the stages.
unfoldable pub evaluate_upstreams :
    Inputs → Preparation → History → List Requirement → Result Collected → Gated Upstreamed
unfolding judge_upstream environment_of
evaluate_upstreams w p h reqs (err e) = failing e
evaluate_upstreams w p h reqs (ok c) =
    elim (required p.stages (environment_of c.environments) reqs) [
      | [] ↦ judge_upstream w (Gate.evaluate (request_of w p h c))
      | _ ∷ _ ↦ record {
        change = marked is_false "PipelineRequired";
        result = ok (held_upstream invalid_pipeline);
      }
    ]

-- `upstream` behind the requirements.
unfoldable pub require_upstreams :
    Inputs → Preparation → History → Result (List Requirement) → Gated Upstreamed
unfolding evaluate_upstreams collect
require_upstreams w p h (err e) = failing e
require_upstreams w p h (ok reqs) =
    if length p.stages == 0 && length reqs == 0
    then record { change = removed; result = ok (held_upstream satisfied) }
    else evaluate_upstreams w p h reqs
        (collect w p.stages (record { environments = []; upstreams = [] }))

unfoldable pub upstream : Inputs → Preparation → History → Gated Upstreamed
unfolding require_upstreams requirements
upstream w p h = elim (promoted_before p.name h) [
  | none ↦ require_upstreams w p h (requirements w)
  | some _ ↦ require_upstreams w p h (ok [])
]
