-- ===== src/Approval/Quorum.antt =====
-- What the open votes decide: who approved an approved Preparation, and whose reject vetoes it
-- (internal/approval/evaluate.go).
use mathlib.Core.Path.{subst}
use kokumi.Approval.{
  Decision, approve, reject, Approval, counted, Vote, Policy, Preparation, Verdicts, max_approvers,
  eligible, mismatched, previous, vote_of, votes_of, evaluate_open, evaluate_policy, evaluate_for,
  sealed_status, is_sealed, conclude, tally, has, is_some, Time, sorted_matching,
}
use kokumi.Approval.Votes.{IsLatest, Table, Distinct, OfKey, table_of, table_of-Latest}
use kokumi.Prelude.{
  ℕ, zero, suc, ◌≤◌, String, ◌≡◌, refl, ap, ◌∙◌, inl, inr, Bool, true, false, ◌&&◌, Option, none,
  some, List, [], ◌∷◌, arith, if◌then◌else◌, leb→le, Bool-cases, Option-cases, length, take, All,
  All-take,
}

-- An eligible approver's approval, which is the latest of that approver.
pub record IsSupport (prep : Preparation) (l : List Approval) (p : Policy) (a : Approval)
    : Type 0 where
  pub latest : IsLatest prep l a
  pub is_eligible : eligible p a.groups ≡ true
  pub approves : a.decision ≡ approve

take-votes_of : (p : Policy) (n : ℕ) (t : Table) → take n (votes_of p t) ≡ votes_of p (take n t)
unfolding votes_of
take-votes_of p zero t = refl
take-votes_of p (suc n) [] = refl
take-votes_of p (suc n) ((k, a) ∷ t) = ap (λ vs. vote_of p a ∷ vs) (take-votes_of p n t)

previous-take :
    (k : String) (n : ℕ) (t : Table) → previous k t ≡ none → previous k (take n t) ≡ none
unfolding previous
previous-take k zero t h = refl
previous-take k (suc n) [] h = refl
previous-take k (suc n) ((j, b) ∷ t) h = ground (arith, previous-take k n t)

take-Distinct : (n : ℕ) (t : Table) → Distinct t → Distinct (take n t)
take-Distinct zero t d = tt
take-Distinct (suc n) [] d = tt
take-Distinct (suc n) ((k, a) ∷ t) d = (previous-take k n t d.0, take-Distinct n t d.1)

abbrev is_approve : Decision → Bool
is_approve approve = true
is_approve reject = false

abbrev supports : Policy → Approval → Bool
supports p a = eligible p a.groups && is_approve a.decision

abbrev supporters : Policy → Table → Table
supporters p [] = []
supporters p ((k, a) ∷ t) = if supports p a then (k, a) ∷ supporters p t else supporters p t

is_approve_iff : (d : Decision) → is_approve d ≡ true → d ≡ approve
is_approve_iff approve h = refl
is_approve_iff reject h = ground (arith, h)

has_approve :
    (p : Policy) (a : Approval) (b : Bool) (d : Decision)
    → eligible p a.groups ≡ b
    → a.decision ≡ d
    → has counted approve (vote_of p a) ≡ supports p a
unfolding vote_of
has_approve p a true approve e f = rw (e, f) refl
has_approve p a true reject e f = rw (e, f) refl
has_approve p a false d e f = rw e refl

tally-votes_of :
    (p : Policy) (t : Table) → tally counted approve (votes_of p t) ≡ length (supporters p t)
unfolding votes_of tally vote_of
tally-votes_of p [] = refl
tally-votes_of p ((k, a) ∷ t) =
    let rest = tally-votes_of p t in
    let here = has_approve p a (eligible p a.groups) a.decision refl refl in
    elim (Bool-cases (supports p a)) [
      | inl e ↦ rw (here, e) (ap (λ n. suc n) rest)
      | inr e ↦ rw (here, e) rest
    ]

previous-supporters :
    (k : String) (p : Policy) (t : Table) → previous k t ≡ none → previous k (supporters p t) ≡ none
unfolding previous
previous-supporters k p [] h = refl
previous-supporters k p ((j, b) ∷ t) h = ground (arith, previous-supporters k p t)

supporters-Distinct : (p : Policy) (t : Table) → Distinct t → Distinct (supporters p t)
supporters-Distinct p [] d = tt
supporters-Distinct p ((k, a) ∷ t) d = elim (Bool-cases (supports p a)) [
  | inl e ↦ rw e (previous-supporters k p t d.0, supporters-Distinct p t d.1)
  | inr e ↦ rw e (supporters-Distinct p t d.1)
]

supporters-All :
    (prep : Preparation) (l : List Approval) (p : Policy) (t : Table)
    → All (OfKey (IsLatest prep l)) t
    → All (OfKey (IsSupport prep l p)) (supporters p t)
supporters-All prep l p [] h = tt
supporters-All prep l p ((k, a) ∷ t) h = elim (Bool-cases (supports p a)) [
  | inl e ↦ rw e (
    (
      h.0.0,
      record {
        latest = h.0.1;
        is_eligible = ground (arith, e);
        approves = is_approve_iff a.decision (ground (arith, e));
      },
    ),
    supporters-All prep l p t h.1,
  )
  | inr e ↦ rw e (supporters-All prep l p t h.1)
]

conclude-approved :
    (p : Policy) (n : ℕ) (s : Option Time) (b : Option String) (votes : List Vote) (v : Verdicts)
    → (conclude p n s b votes v).is_approved ≡ true
    → (p.required_approvals ≤ tally counted approve votes) × (tally counted reject votes ≡ 0)
unfolding conclude
conclude-approved p n s b votes v h =
    ground (arith, leb→le p.required_approvals (tally counted approve votes))

-- What an approved Preparation's open votes are.
open_votes :
    (prep : Preparation) (l : List Approval) (p : Policy) (t : Table)
    → sealed_status prep ≡ none
    → table_of prep l (mismatched prep l) ≡ t
    → (evaluate_for prep l (some p)).is_approved ≡ true
    → (p.required_approvals ≤ tally counted approve (votes_of p (take max_approvers t)))
      × (tally counted reject (votes_of p (take max_approvers t)) ≡ 0)
unfolding evaluate_for evaluate_policy evaluate_open
open_votes prep l p t e te h =
    let done : (evaluate_policy prep l p none).is_approved ≡ true =
      subst (λ s. (evaluate_policy prep l p s).is_approved ≡ true) e h in
    let votes = take max_approvers (votes_of p (table_of prep l (mismatched prep l))) in
    let same : votes ≡ votes_of p (take max_approvers t) =
      ap (λ x. take max_approvers (votes_of p x)) te ∙ take-votes_of p max_approvers t in
    subst (λ x. (p.required_approvals ≤ tally counted approve x) × (tally counted reject x ≡ 0))
      same
      (conclude-approved p (length l) none none votes
        (evaluate_open p (sorted_matching prep l) (mismatched prep l)).1 done)

-- If the votes are open and the Preparation is approved under a policy, then there are at least as
-- many different approvers as the policy requires, each with a latest Approval for this Preparation
-- and artifact that is eligible and approves.
pub approved_quorum :
    (prep : Preparation) (l : List Approval) (p : Policy)
    → is_sealed prep ≡ false
    → (evaluate_for prep l (some p)).is_approved ≡ true
    → (t : Table) × Distinct t
      × All (OfKey (IsSupport prep l p)) t
      × (p.required_approvals ≤ length t)
unfolding is_sealed
approved_quorum prep l p unsealed h = elim (Option-cases (sealed_status prep)) [
  | inr (s, e) ↦ let no = ap is_some e in ground (arith, unsealed, no)
  | inl e ↦
      let (t, te, d, q, c) = table_of-Latest prep l (mismatched prep l) in
      let u = take max_approvers t in
      (
        supporters p u,
        supporters-Distinct p u (take-Distinct max_approvers t d),
        supporters-All prep l p u (All-take (OfKey (IsLatest prep l)) max_approvers t q),
        ground (arith, open_votes prep l p t e te h, tally-votes_of p u),
      )
]
