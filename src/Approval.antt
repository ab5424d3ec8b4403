-- ===== src/Approval.antt =====
-- internal/approval: the approval gate of a Preparation (evaluate.go, gate.go). The map of verdicts
-- is the list of its writes, the last one first; messages are left out of it, since each reason has
-- one text but for the names in it.
pub mod Votes
pub mod Opened
pub mod Quorum
pub mod Seal
use Prim.Native.Char.{nul}
use Prim.Native.String.{◌++◌ as text_append}
use kokumi.Prelude.Order.{Ordering, is_lt, compare_ℕ, compare_string, lexicographic}
use kokumi.Prelude.Sort.{sort}
use kokumi.Clock.{Time}
use kokumi.Prelude.{
  ℕ, zero, suc, ◌+◌, ◌-◌, ◌*◌, ◌/◌, ◌%◌, ◌^◌, ◌≤◌, ◌<◌, min, String, ◌≡◌, refl, sym, ap, ◌∙◌, ◌≢◌,
  ◌↔◌, ◌⊎◌, inl, inr, Bool, true, false, not, ◌&&◌, ◌||◌, Option, none, some, List, [], ◌∷◌, ◌++◌,
  map, arith, ltb, leb, ◌==◌, ◌=?◌, =?_iff, =?_refl, if◌then◌else◌, ltb→lt, leb→le, le→leb, lt→leb,
  Bool-cases, Option-cases, length, take, tail, any, All, All-take, length-take, take_all,
}

pub data Decision : Type 0 where
  approve reject : Decision

-- An Approval, by what this package reads of its metadata and its spec.
pub record Approval : Type 0 where
  pub name : String
  pub creation : Time
  pub submitted : Time
  pub preparation_uid : String
  pub artifact_digest : String
  pub issuer : String
  pub subject : String
  pub username : String
  pub groups : List String
  pub decision : Decision

pub data VoteResult : Type 0 where
  counted not_eligible : VoteResult

pub record Vote : Type 0 where
  pub approval_name : String
  pub issuer : String
  pub subject : String
  pub username : String
  pub decision : Decision
  pub result : VoteResult
  pub submitted : Time

pub record Policy : Type 0 where
  pub required_approvals : ℕ
  pub allowed_groups : List String

pub record ApprovalStatus : Type 0 where
  pub required_approvals : ℕ
  pub submission_count : ℕ
  pub votes : List Vote
  pub sealed_time : Option Time
  pub attestation : Option String
  pub approved_count : ℕ
  pub rejected_count : ℕ
  pub ineligible_count : ℕ

-- `approvals_sealed` is the status of the condition ApprovalsSealed.
pub record Preparation : Type 0 where
  pub name : String
  pub uid : String
  pub digest : String
  pub policy : Option Policy
  pub status : Option ApprovalStatus
  pub approvals_sealed : Bool

pub data Reason : Type 0 where
  approval_not_required digest_mismatch superseded is_counted is_not_eligible : Reason
  submitted_after_seal changes_requested approved awaiting_approvals sealing_approvals : Reason

pub record Verdict : Type 0 where
  pub counts : Bool
  pub reason : Reason

abbrev pub Verdicts : Type 0
Verdicts = List (String × Verdict)

abbrev pub max_approvers : ℕ
max_approvers = 64

-- issuer + "\x00" + subject
unfoldable pub approver_key : Approval → String
approver_key a = text_append a.issuer (String.◌∷◌ nul a.subject)

unfoldable pub compare_approvals : Approval → Approval → Ordering
compare_approvals =
    lexicographic (λ a b. compare_ℕ a.creation b.creation)
      (lexicographic (λ a b. compare_ℕ a.submitted b.submitted)
        (λ a b. compare_string a.name b.name))

unfoldable pub eligible : Policy → List String → Bool
eligible p [] = false
eligible p (g ∷ gs) = any (λ x. x =? g) p.allowed_groups || eligible p gs

-- The Approval was cast for this Preparation object and artifact.
unfoldable pub matches : Preparation → Approval → Bool
matches prep a = (a.preparation_uid =? prep.uid) && (a.artifact_digest =? prep.digest)

unfoldable pub matching : Preparation → List Approval → List Approval
unfolding matches
matching prep [] = []
matching prep (a ∷ l) = if matches prep a then a ∷ matching prep l else matching prep l

unfoldable pub mismatched : Preparation → List Approval → Verdicts
unfolding matches
mismatched prep [] = []
mismatched prep (a ∷ l) =
    if matches prep a
    then mismatched prep l
    else mismatched prep l ++ (a.name, record { counts = false; reason = digest_mismatch }) ∷ []

-- The variables `latest`, read in the order of `order`, and `verdicts` of `evaluateOpen`.
pub record Latest : Type 0 where
  pub table : List (String × Approval)
  pub verdicts : Verdicts

-- latest[key] = a, which keeps the key's place in `order`.
unfoldable pub put : String → Approval → List (String × Approval) → List (String × Approval)
put k a [] = (k, a) ∷ []
put k a ((j, b) ∷ t) = let rest = (j, b) ∷ put k a t in if j =? k then (j, a) ∷ t else rest

unfoldable pub previous : String → List (String × Approval) → Option Approval
previous k [] = none
previous k ((j, b) ∷ t) = if j =? k then some b else previous k t

abbrev pub supersede : Option Approval → Verdicts → Verdicts
supersede none v = v
supersede (some b) v = (b.name, record { counts = false; reason = superseded }) ∷ v

-- The first loop of `evaluateOpen`.
unfoldable pub pick_latest : List Approval → Latest → Latest
unfolding put previous approver_key
pick_latest [] s = s
pick_latest (a ∷ l) s = pick_latest l (record {
  table = put (approver_key a) a s.table;
  verdicts = supersede (previous (approver_key a) s.table) s.verdicts;
})

unfoldable pub vote_of : Policy → Approval → Vote
unfolding eligible
vote_of p a = record {
  approval_name = a.name;
  issuer = a.issuer;
  subject = a.subject;
  username = a.username;
  decision = a.decision;
  result = if eligible p a.groups then counted else not_eligible;
  submitted = a.submitted;
}

abbrev pub open_verdict : Policy → Approval → Verdict
open_verdict p a =
    if eligible p a.groups
    then record { counts = true; reason = is_counted }
    else record { counts = false; reason = is_not_eligible }

-- The second loop of `evaluateOpen`.
unfoldable pub votes_of : Policy → List (String × Approval) → List Vote
unfolding vote_of
votes_of p [] = []
votes_of p ((k, a) ∷ t) = vote_of p a ∷ votes_of p t

unfoldable pub open_verdicts : Policy → List (String × Approval) → Verdicts → Verdicts
open_verdicts p [] v = v
open_verdicts p ((k, a) ∷ t) v = open_verdicts p t ((a.name, open_verdict p a) ∷ v)

unfoldable pub evaluate_open : Policy → List Approval → Verdicts → List Vote × Verdicts
unfolding pick_latest votes_of open_verdicts
evaluate_open p sorted v =
    let s = pick_latest sorted (record { table = []; verdicts = v }) in
    (take max_approvers (votes_of p s.table), open_verdicts p s.table s.verdicts)

-- sealedByName[name]; a later vote of the same name overwrites an earlier one.
unfoldable pub sealed_by_name : String → List Vote → Option Vote
sealed_by_name name [] = none
sealed_by_name name (v ∷ vs) = elim (sealed_by_name name vs) [
  | some w ↦ some w
  | none ↦ if v.approval_name =? name then some v else none
]

abbrev pub is_some {ℓ} : {A : Type ℓ} → Option A → Bool
is_some none = false
is_some (some _) = true

-- sealedByKey[key]: the last of the sorted Approvals with that key whose vote is sealed.
unfoldable pub sealed_by_key : String → List Vote → List Approval → Option Approval
unfolding approver_key sealed_by_name
sealed_by_key k vs [] = none
sealed_by_key k vs (a ∷ l) = elim (sealed_by_key k vs l) [
  | some b ↦ some b
  | none ↦ if is_some (sealed_by_name a.name vs) && (approver_key a =? k) then some a else none
]

abbrev pub is_before : Approval → Option Approval → Bool
is_before a none = false
is_before a (some b) = is_lt (compare_approvals a b)

abbrev pub sealed_verdict : Option Vote → Bool → Verdict
sealed_verdict (some v) before = elim v.result [
  | counted ↦ record { counts = true; reason = is_counted }
  | not_eligible ↦ record { counts = false; reason = is_not_eligible }
]
sealed_verdict none true = record { counts = false; reason = superseded }
sealed_verdict none false = record { counts = false; reason = submitted_after_seal }

-- The last loop of `evaluateSealed`, over the rest of the sorted Approvals.
unfoldable pub evaluate_sealed : List Approval → List Vote → List Approval → Verdicts → Verdicts
unfolding sealed_by_name sealed_by_key compare_approvals
evaluate_sealed sorted vs [] w = w
evaluate_sealed sorted vs (a ∷ l) w = evaluate_sealed sorted vs l (
    (
      a.name,
      sealed_verdict (sealed_by_name a.name vs)
          (is_before a (sealed_by_key (approver_key a) vs sorted)),
    )
    ∷ w)

unfoldable pub sealed_status : Preparation → Option ApprovalStatus
sealed_status prep = elim prep.status [
  | none ↦ none
  | some s ↦ if is_some s.sealed_time then some s else none
]

unfoldable pub is_sealed : Preparation → Bool
unfolding sealed_status
is_sealed prep = is_some (sealed_status prep)

-- How many votes have been counted for each decision, and how many are not eligible.
abbrev pub has : VoteResult → Decision → Vote → Bool
has counted approve v = elim v.result [
  | counted ↦ elim v.decision [ approve ↦ true | reject ↦ false ]
  | not_eligible ↦ false
]
has counted reject v = elim v.result [
  | counted ↦ elim v.decision [ approve ↦ false | reject ↦ true ]
  | not_eligible ↦ false
]
has not_eligible _ v = elim v.result [ counted ↦ false | not_eligible ↦ true ]

unfoldable pub tally : VoteResult → Decision → List Vote → ℕ
tally r d [] = 0
tally r d (v ∷ vs) = if has r d v then suc (tally r d vs) else tally r d vs

pub record Result : Type 0 where
  pub required : Bool
  pub is_approved : Bool
  pub reason : Reason
  pub status : Option ApprovalStatus
  pub verdicts : Verdicts

-- The status of the votes, and the `switch` at the end of `Evaluate`.
unfoldable pub conclude : Policy → ℕ → Option Time → Option String → List Vote → Verdicts → Result
unfolding tally
conclude p submissions sealed attestation votes v =
    let yes_count = tally counted approve votes in
    let no_count = tally counted reject votes in
    record {
      required = true;
      is_approved = not (ltb 0 no_count) && leb p.required_approvals yes_count;
      reason =
          if ltb 0 no_count
          then changes_requested
          else if leb p.required_approvals yes_count
          then approved
          else awaiting_approvals;
      status = some (record {
        required_approvals = p.required_approvals;
        submission_count = min submissions 2_147_483_647;
        votes = votes;
        sealed_time = sealed;
        attestation = attestation;
        approved_count = yes_count;
        rejected_count = no_count;
        ineligible_count = tally not_eligible approve votes;
      });
      verdicts = v;
    }

unfoldable pub sorted_matching : Preparation → List Approval → List Approval
unfolding matching
sorted_matching prep l = sort compare_approvals (matching prep l)

unfoldable pub evaluate_policy :
    Preparation → List Approval → Policy → Option ApprovalStatus → Result
unfolding conclude evaluate_open evaluate_sealed mismatched
evaluate_policy prep l p none =
    let (votes, v) = evaluate_open p (sorted_matching prep l) (mismatched prep l) in
    conclude p (length l) none none votes v
evaluate_policy prep l p (some s) =
    conclude p (length l) s.sealed_time s.attestation s.votes (
      evaluate_sealed (sorted_matching prep l) s.votes (sorted_matching prep l) (mismatched prep l))

abbrev pub not_required : List Approval → Verdicts → Verdicts
not_required [] v = v
not_required (a ∷ l) v =
    not_required l ((a.name, record { counts = false; reason = approval_not_required }) ∷ v)

unfoldable pub evaluate_for : Preparation → List Approval → Option Policy → Result
evaluate_for prep l none = record {
  required = false;
  is_approved = true;
  reason = approval_not_required;
  status = none;
  verdicts = not_required l [];
}
evaluate_for prep l (some p) = evaluate_policy prep l p (sealed_status prep)

unfoldable pub evaluate : Preparation → List Approval → Result
evaluate prep l = evaluate_for prep l prep.policy

pub record GateResult : Type 0 where
  pub blocked : Bool
  pub condition : Bool
  pub reason : Reason

abbrev pub attested : Option ApprovalStatus → Bool
attested none = false
attested (some s) = is_some s.attestation

unfoldable pub is_archived : Preparation → Bool
unfolding is_sealed
is_archived prep = is_sealed prep && (attested prep.status && prep.approvals_sealed)

unfoldable pub gate_of : Preparation → Result → GateResult
unfolding is_archived
gate_of prep res =
    if not res.is_approved
    then record { blocked = true; condition = false; reason = res.reason }
    else if res.required && not (is_archived prep)
    then record { blocked = true; condition = false; reason = sealing_approvals }
    else record { blocked = false; condition = true; reason = res.reason }

unfoldable pub gate : Preparation → List Approval → GateResult
unfolding gate_of
gate prep l = gate_of prep (evaluate prep l)
