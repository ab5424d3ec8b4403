-- ===== src/Approval/Opened.antt =====
-- When the gate lets a Preparation be deployed (internal/approval/gate.go).
use mathlib.Core.Option.{some-injective}
use mathlib.Core.Path.{subst}
use kokumi.Approval.{
  Time, Vote, evaluate_sealed, sorted_matching, mismatched, VoteResult, counted, not_eligible,
  Decision, approve, reject, Verdicts, has, tally, Approval, Policy, ApprovalStatus, Preparation,
  conclude, evaluate_policy, evaluate_for, evaluate, sealed_status, is_sealed, is_archived, gate_of,
  gate,
}
use kokumi.Prelude.{
  length, ℕ, zero, suc, ◌≤◌, String, [], ◌∷◌, All, Bool-cases, leb→le, ◌≡◌, refl, sym, ◌↔◌, ◌⊎◌,
  inl, inr, true, false, Option, none, some, List, arith, Option-cases,
}

evaluate_policy_required :
    (prep : Preparation) (l : List Approval) (p : Policy) (s : Option ApprovalStatus)
    → (evaluate_policy prep l p s).required ≡ true
unfolding evaluate_policy conclude
evaluate_policy_required prep l p none = refl
evaluate_policy_required prep l p (some s) = refl

gate_of-open_iff :
    (prep : Preparation) (l : List Approval) (policy : Option Policy)
    → ((gate_of prep (evaluate_for prep l policy)).blocked ≡ false) ↔ (
        ((evaluate_for prep l policy).is_approved ≡ true)
        × ((policy ≡ none) ⊎ (is_archived prep ≡ true)))
unfolding gate_of evaluate_for
gate_of-open_iff prep l none = ground arith
gate_of-open_iff prep l (some p) =
    ground (arith, evaluate_policy_required prep l p (sealed_status prep))

-- A vote that is counted for the Preparation, and one that is counted against it.
abbrev pub IsYes : Vote → Type 0
IsYes v = (v.result ≡ counted) × (v.decision ≡ approve)

abbrev pub IsVeto : Vote → Type 0
IsVeto v = (v.result ≡ counted) × (v.decision ≡ reject)

-- At least so many of the votes are counted for the Preparation.
pub data AtLeast : ℕ → List Vote → Type 0 where
  enough : {votes : List Vote} → AtLeast 0 votes
  yes :
      {n : ℕ} {v : Vote} {votes : List Vote}
      → IsYes v
      → AtLeast n votes
      → AtLeast (suc n) (v ∷ votes)
  skip : {n : ℕ} {v : Vote} {votes : List Vote} → AtLeast n votes → AtLeast n (v ∷ votes)

-- The votes of the status are sealed, attested and archived.
pub record IsArchived (prep : Preparation) (s : ApprovalStatus) : Type 0 where
  pub in_status : prep.status ≡ some s
  pub sealed : (t : Time) × (s.sealed_time ≡ some t)
  pub is_attested : (d : String) × (s.attestation ≡ some d)
  pub condition : prep.approvals_sealed ≡ true

-- The votes satisfy the policy.
abbrev pub IsEnough : Policy → List Vote → Type 0
IsEnough p votes = AtLeast p.required_approvals votes × All (λ v. ¬ IsVeto v) votes

has-IsYes : (v : Vote) → (has counted approve v ≡ true) ↔ IsYes v
has-IsYes v = by_fields v.result v.decision refl refl
  where
    by_fields :
        (r : VoteResult) (d : Decision)
        → v.result ≡ r
        → v.decision ≡ d
        → (has counted approve v ≡ true) ↔ IsYes v
    by_fields counted approve e f = rw (e, f) (λ h. (refl, refl), λ h. refl)
    by_fields counted reject e f = rw (e, f) (λ h. cc h, λ h. cc h.1)
    by_fields not_eligible d e f = rw e (λ h. cc h, λ h. cc h.0)

has-IsVeto : (v : Vote) → (has counted reject v ≡ true) ↔ IsVeto v
has-IsVeto v = by_fields v.result v.decision refl refl
  where
    by_fields :
        (r : VoteResult) (d : Decision)
        → v.result ≡ r
        → v.decision ≡ d
        → (has counted reject v ≡ true) ↔ IsVeto v
    by_fields counted approve e f = rw (e, f) (λ h. cc h, λ h. cc h.1)
    by_fields counted reject e f = rw (e, f) (λ h. (refl, refl), λ h. refl)
    by_fields not_eligible d e f = rw e (λ h. cc h, λ h. cc h.0)

tally-AtLeast : (votes : List Vote) (n : ℕ) → n ≤ tally counted approve votes → AtLeast n votes
unfolding tally
tally-AtLeast votes zero h = enough
tally-AtLeast [] (suc n) h = absurd (omega (arith, h))
tally-AtLeast (v ∷ votes) (suc n) h = elim (Bool-cases (has counted approve v)) [
  | inl e ↦ yes ((has-IsYes v).0 e) (tally-AtLeast votes n (ground (arith, h, e)))
  | inr e ↦ skip (tally-AtLeast votes (suc n) (ground (arith, h, e)))
]

AtLeast-tally : (votes : List Vote) (n : ℕ) → AtLeast n votes → n ≤ tally counted approve votes
unfolding tally
AtLeast-tally votes _ enough = omega arith
AtLeast-tally (v ∷ votes) _ (yes {n = n} y m) =
    let rest = AtLeast-tally votes n m in rw ((has-IsYes v).1 y) (omega (arith, rest))
AtLeast-tally (v ∷ votes) n (skip m) =
    let rest = AtLeast-tally votes n m in
    elim (Bool-cases (has counted approve v)) [
      | inl e ↦ rw e (omega (arith, rest))
      | inr e ↦ rw e rest
    ]

tally-reject_iff :
    (votes : List Vote) → (tally counted reject votes ≡ 0) ↔ All (λ v. ¬ IsVeto v) votes
unfolding tally
tally-reject_iff [] = (λ h. tt, λ h. refl)
tally-reject_iff (v ∷ votes) =
    let (sound, complete) = tally-reject_iff votes in
    elim (Bool-cases (has counted reject v)) [
      | inl e ↦ rw e (λ h. absurd (omega (arith, h)), λ h. absurd (h.0 ((has-IsVeto v).0 e)))
      | inr e ↦ rw e (
        λ h. (λ y. let no = (has-IsVeto v).1 y in ground (arith, no, e), sound h),
        λ h. complete h.1,
      )
    ]

conclude-IsEnough :
    (p : Policy) (n : ℕ) (s : Option Time) (b : Option String) (votes : List Vote) (v : Verdicts)
    → ((conclude p n s b votes v).is_approved ≡ true) ↔ IsEnough p votes
unfolding conclude
conclude-IsEnough p n s b votes v =
    let (sound, complete) = tally-reject_iff votes in
    (
      λ h. (
        tally-AtLeast votes p.required_approvals
            (ground (arith, h, leb→le p.required_approvals (tally counted approve votes))),
        sound (ground (arith, h)),
      ),
      λ h.
          let count = AtLeast-tally votes p.required_approvals h.0 in
          let none_against = complete h.1 in ground (arith, count, none_against),
    )

sealed-IsEnough :
    (prep : Preparation) (l : List Approval) (p : Policy) (s : ApprovalStatus)
    → IsArchived prep s
    → ((evaluate_for prep l (some p)).is_approved ≡ true) ↔ IsEnough p s.votes
unfolding evaluate_for sealed_status evaluate_policy
sealed-IsEnough prep l p s a =
    rw (a.in_status, a.sealed.1)
      (conclude-IsEnough p (length l) s.sealed_time s.attestation s.votes (
        evaluate_sealed (sorted_matching prep l) s.votes (sorted_matching prep l)
          (mismatched prep l)))

is_archived-IsArchived :
    (prep : Preparation) → is_archived prep ≡ true → (s : ApprovalStatus) × IsArchived prep s
unfolding is_archived is_sealed sealed_status
is_archived-IsArchived prep h = elim (Option-cases prep.status) [
  | inl e ↦ absurd (ground (arith, rw e at h))
  | inr (s, e) ↦ elim (Option-cases s.sealed_time) [
    | inl f ↦ absurd (ground (arith, rw f at rw e at h))
    | inr (t, f) ↦ elim (Option-cases s.attestation) [
      | inl g ↦ absurd (ground (arith, rw (f, g) at rw e at h))
      | inr (d, g) ↦ (
        s,
        record {
          in_status = e;
          sealed = (t, f);
          is_attested = (d, g);
          condition = ground (arith, rw (f, g) at rw e at h);
        },
      )
    ]
  ]
]

IsArchived-is_archived :
    (prep : Preparation) (s : ApprovalStatus) → IsArchived prep s → is_archived prep ≡ true
unfolding is_archived is_sealed sealed_status
IsArchived-is_archived prep s a = rw (a.in_status, a.sealed.1, a.is_attested.1, a.condition) refl

gate_of-IsEnough :
    (prep : Preparation) (l : List Approval) (policy : Option Policy)
    → ((gate_of prep (evaluate_for prep l policy)).blocked ≡ false) ↔ (
        (policy ≡ none)
        ⊎ ((p : Policy) × (s : ApprovalStatus) × (policy ≡ some p)
            × IsArchived prep s
            × IsEnough p s.votes))
gate_of-IsEnough prep l none =
    let (sound, complete) = gate_of-open_iff prep l none in
    (λ h. inl refl, λ h. complete (unfold evaluate_for in refl, inl refl))
gate_of-IsEnough prep l (some p) =
    let (sound, complete) = gate_of-open_iff prep l (some p) in
    (
      λ h.
          let (is_approved, either) = sound h in
          elim either [
            | inl e ↦ inl e
            | inr a ↦
                let (s, archived) = is_archived-IsArchived prep a in
                inr (p, s, refl, archived, (sealed-IsEnough prep l p s archived).0 is_approved)
          ],
      λ h. elim h [
        | inl e ↦ cc e
        | inr (q, s, e, archived, enough_votes) ↦ complete (
          (sealed-IsEnough prep l p s archived).1 (
              subst (λ (x : Policy). IsEnough x s.votes) (sym (some-injective p q e)) enough_votes),
          inr (IsArchived-is_archived prep s archived),
        )
      ],
    )

-- The gate lets a Preparation be deployed exactly when no approval policy applies, or when one does
-- and the Preparation's status has votes with a seal time and an attestation, the condition
-- ApprovalsSealed is true, at least as many of these votes as the policy requires are counted and
-- approve, and no counted one rejects.
pub gate-open_iff :
    (prep : Preparation) (l : List Approval)
    → ((gate prep l).blocked ≡ false) ↔ (
        (prep.policy ≡ none)
        ⊎ ((p : Policy) × (s : ApprovalStatus) × (prep.policy ≡ some p)
            × IsArchived prep s
            × IsEnough p s.votes))
unfolding gate evaluate
gate-open_iff prep l = gate_of-IsEnough prep l prep.policy
