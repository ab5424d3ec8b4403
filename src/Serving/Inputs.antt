-- ===== src/Serving/Inputs.antt =====
-- What the API server, the registry and the keys answer in one pass of the reconciler of Servings
-- (internal/controller/serving_controller.go), and what its gates return.
use kokumi.Prelude.Result.{Result, err}
use kokumi.Approval
use kokumi.Clock.{Time, Duration}
use kokumi.Promotion.Gate.{Qualified, Outcome}
use kokumi.Promotion.History.{History}
use kokumi.Promotion.Release.{Requirement}
use kokumi.Vulnerability.Evaluation.{Scan}
use kokumi.Vulnerability.Reading.{Reading}
use kokumi.Serving.Preparation.{Product, VulnerabilitiesEvidence}
use kokumi.Serving.Status.{Fetched, Change, unchanged, DeploymentEntry}
use kokumi.Prelude.{String, Bool, Option, List}

-- What `verifyDeployment` returns: no error, or the reason for the condition, "" for a registry that
-- could not be read, with the error.
pub data RecordCheck : Type 0 where
  record_verified : RecordCheck
  record_unverified : (reason error : String) → RecordCheck

-- How the evidence of an artifact verifies: a key that is not loaded, a `*evidence.Rejected`, an
-- error that `registry.Reason` names, any other error, or none.
pub data EvidenceCheck : Type 0 where
  key_not_ready evidence_verified : EvidenceCheck
  evidence_rejected evidence_unreachable evidence_failed : String → EvidenceCheck

-- An Order, by what the upstream gate reads of it.
pub record UpstreamOrder : Type 0 where
  pub environment : String
  pub product : String

-- checksVerdict
pub record ChecksVerdict : Type 0 where
  pub passed : Bool
  pub recheck : Duration
  pub evidence : Option VulnerabilitiesEvidence

-- promotion.Result, without its message.
pub record Upstreamed : Type 0 where
  pub outcome : Outcome
  pub requeue_after : Duration
  pub qualified : List Qualified
  pub promotion : String

-- What the calls of one pass answer. An Environment is the `requireAfter` of its promotion, `none`
-- without one; `product_ref` is that of the Serving's Order.
pub record Inputs : Type 0 where
  pub upstream_time : Time
  pub checks_time : Time
  pub open_time : Time
  pub product_ref : String
  pub environment : Fetched (Option (List Requirement))
  pub upstream_order : String → Fetched UpstreamOrder
  pub upstream_serving : String → Fetched (List DeploymentEntry)
  pub verify_deployment : Qualified → RecordCheck
  pub own_order : Fetched String
  pub product_named : String → Fetched Product
  pub scan_interval : Result Duration
  pub read_report : Scan → Reading
  pub approvals : Result (List Approval.Approval)
  pub verify_evidence : EvidenceCheck
  pub record_promotion : History → Upstreamed → ChecksVerdict → Result String

-- A gate's result with what it does to its condition.
pub record Gated {ℓ} (A : Type ℓ) : Type ℓ where
  pub change : Change
  pub result : Result A

abbrev pub failing {ℓ} : {A : Type ℓ} → String → Gated A
failing e = record { change = unchanged; result = err e }
