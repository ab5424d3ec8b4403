-- ===== src/Approval/Seal.antt =====
-- What the seal on the votes keeps (internal/approval/evaluate.go, gate.go).
use kokumi.Approval.{
  Approval, Policy, ApprovalStatus, Preparation, Result, conclude, evaluate_policy, evaluate_for,
  evaluate, sealed_status, is_sealed, is_some, gate_of, gate,
}
use kokumi.Prelude.{◌≡◌, refl, ap, inl, inr, true, Option, none, some, List, arith, Option-cases}

abbrev SameDecision : Result → Result → Type 0
SameDecision r s =
    (r.is_approved ≡ s.is_approved) × (r.reason ≡ s.reason) × (r.required ≡ s.required)

sealed_SameDecision :
    (prep : Preparation) (l m : List Approval) (s : ApprovalStatus) (policy : Option Policy)
    → sealed_status prep ≡ some s
    → SameDecision (evaluate_for prep l policy) (evaluate_for prep m policy)
unfolding evaluate_for evaluate_policy conclude
sealed_SameDecision prep l m s none e = (refl, refl, refl)
sealed_SameDecision prep l m s (some p) e = rw e (refl, refl, refl)

gate_of-SameDecision :
    (prep : Preparation) (r s : Result) → SameDecision r s → gate_of prep r ≡ gate_of prep s
unfolding gate_of
gate_of-SameDecision prep r s d = ground arith

-- Once the votes are sealed, the gate is the same whatever Approvals there are.
pub gate_sealed :
    (prep : Preparation) (l m : List Approval) → is_sealed prep ≡ true → gate prep l ≡ gate prep m
unfolding gate evaluate is_sealed
gate_sealed prep l m h = elim (Option-cases (sealed_status prep)) [
  | inl e ↦ let no = ap is_some e in ground (arith, h, no)
  | inr (s, e) ↦
      gate_of-SameDecision prep (evaluate_for prep l prep.policy) (evaluate_for prep m prep.policy)
        (sealed_SameDecision prep l m s prep.policy e)
]
