-- ===== src/Serving/Approvals.antt =====
-- `gate` and `verify` of internal/controller/serving_controller.go: the approvals of a Preparation, and
-- the evidence of its artifact.
use kokumi.Prelude.Result.{Result, err, ok}
use kokumi.Approval
use kokumi.Serving.Preparation.{Preparation}
use kokumi.Serving.Status.{ConditionStatus, is_true, is_false, is_unknown, Change, marked}
use kokumi.Serving.Inputs.{
  key_not_ready, evidence_verified, evidence_rejected, evidence_unreachable, evidence_failed,
  Inputs, Gated, failing,
}
use kokumi.Prelude.{String, Bool, true, false, not, List}

-- The texts of the reasons.
unfoldable pub approval_reason : Approval.Reason → String
approval_reason Approval.approval_not_required = "ApprovalNotRequired"
approval_reason Approval.digest_mismatch = "DigestMismatch"
approval_reason Approval.superseded = "Superseded"
approval_reason Approval.is_counted = "Counted"
approval_reason Approval.is_not_eligible = "NotEligible"
approval_reason Approval.submitted_after_seal = "SubmittedAfterSeal"
approval_reason Approval.changes_requested = "ChangesRequested"
approval_reason Approval.approved = "Approved"
approval_reason Approval.awaiting_approvals = "AwaitingApprovals"
approval_reason Approval.sealing_approvals = "SealingApprovals"

-- What `gate` returns, with the status's target and the Approved condition that it sets.
pub record Approved : Type 0 where
  pub passes : Bool
  pub target_name : String
  pub change : Change

abbrev pub status_if : Bool → ConditionStatus
status_if true = is_true
status_if false = is_false

abbrev pub approved_by : Preparation → Bool → List Approval.Approval → Approved
approved_by p false l =
    let res = Approval.evaluate p.approval l in
    record {
      passes = res.is_approved;
      target_name = "";
      change = marked (status_if res.is_approved) (approval_reason res.reason);
    }
approved_by p true l =
    let g = Approval.gate p.approval l in
    record {
      passes = not g.blocked;
      target_name = p.name;
      change = marked (status_if g.condition) (approval_reason g.reason);
    }

unfoldable pub gate : Inputs → Preparation → Bool → Result Approved
unfolding approval_reason
gate w p target = elim w.approvals [ err e ↦ err e | ok l ↦ ok (approved_by p target l) ]

unfoldable pub verify : Inputs → Gated Bool
verify w = elim w.verify_evidence [
  | key_not_ready ↦ record { change = marked is_unknown "SigningKeyNotReady"; result = ok false }
  | evidence_rejected reason ↦ record { change = marked is_false reason; result = ok false }
  | evidence_unreachable reason ↦ record { change = marked is_false reason; result = ok false }
  | evidence_failed e ↦ failing e
  | evidence_verified ↦ record { change = marked is_true "SignaturesVerified"; result = ok true }
]
