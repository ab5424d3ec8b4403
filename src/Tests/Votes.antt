-- ===== src/Tests/Votes.antt =====
-- A Preparation with one approval (internal/approval/evaluate.go, gate.go).
use kokumi.Prelude.Sort.{sort, insert}
use kokumi.Approval.{
  Vote, counted, ApprovalStatus, evaluate_policy, evaluate_open, pick_latest, put, previous,
  vote_of, votes_of, eligible, conclude, tally, sorted_matching, matching, matches, mismatched,
  open_verdicts, approve, Approval, Policy, Preparation, evaluate_for, sealed_status, is_sealed,
  gate,
}
use kokumi.Approval.Votes.{Distinct, OfKey}
use kokumi.Approval.Quorum.{IsSupport, approved_quorum}
use kokumi.Approval.Seal.{gate_sealed}
use kokumi.Approval.Opened.{IsArchived, IsEnough, gate-open_iff}
use kokumi.Prelude.{
  ◌≤◌, String, ◌≡◌, refl, ◌↔◌, ◌⊎◌, true, false, none, some, List, [], ◌∷◌, ◌=?◌, length, All,
}

abbrev policy : Policy
policy = record { required_approvals = 1; allowed_groups = "team" ∷ [] }

abbrev unsealed : Preparation
unsealed = record {
  name = "shop-1";
  uid = "u1";
  digest = "sha256:aa";
  policy = some policy;
  status = none;
  approvals_sealed = false;
}

abbrev ann_approves : Approval
ann_approves = record {
  name = "shop-1-ann";
  creation = 10;
  submitted = 10;
  preparation_uid = "u1";
  artifact_digest = "sha256:aa";
  issuer = "dex";
  subject = "ann";
  username = "ann@example.com";
  groups = "team" ∷ [];
  decision = approve;
}

abbrev ann_vote : Vote
ann_vote = record {
  approval_name = "shop-1-ann";
  issuer = "dex";
  subject = "ann";
  username = "ann@example.com";
  decision = approve;
  result = counted;
  submitted = 10;
}

abbrev sealed : Preparation
sealed = record unsealed {
  status = some (record {
    required_approvals = 1;
    submission_count = 1;
    votes = ann_vote ∷ [];
    sealed_time = some 20;
    attestation = some "approvals-1";
    approved_count = 1;
    rejected_count = 0;
    ineligible_count = 0;
  });
  approvals_sealed = true;
}

not_sealed : is_sealed unsealed ≡ false
unfolding is_sealed sealed_status
not_sealed = refl

has_seal : is_sealed sealed ≡ true
unfolding is_sealed sealed_status
has_seal = refl

ann_enough : (evaluate_for unsealed (ann_approves ∷ []) (some policy)).is_approved ≡ true
unfolding evaluate_for sealed_status evaluate_policy evaluate_open pick_latest put previous vote_of
    votes_of eligible conclude tally sorted_matching matching matches mismatched open_verdicts sort
    insert ◌=?◌
ann_enough = refl

approved_quorum_example :
    (t : List (String × Approval)) × Distinct t
    × All (OfKey (IsSupport unsealed (ann_approves ∷ []) policy)) t
    × (1 ≤ length t)
approved_quorum_example = approved_quorum unsealed (ann_approves ∷ []) policy not_sealed ann_enough

gate_sealed_example : gate sealed [] ≡ gate sealed (ann_approves ∷ [])
gate_sealed_example = gate_sealed sealed [] (ann_approves ∷ []) has_seal

gate-open_iff_example : ((gate sealed []).blocked ≡ false) ↔ (
    (sealed.policy ≡ none)
    ⊎ ((p : Policy) × (s : ApprovalStatus) × (sealed.policy ≡ some p)
        × IsArchived sealed s
        × IsEnough p s.votes))
gate-open_iff_example = gate-open_iff sealed []
