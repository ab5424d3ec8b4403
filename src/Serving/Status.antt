-- ===== src/Serving/Status.antt =====
-- The status of a Serving, and how the reconciler reads and writes it
-- (internal/controller/serving_controller.go). Of a condition its status and its reason are kept: its
-- message and its transition time decide nothing. A time of the API is an instant, `nil` is `none`.
pub mod RoundTrip
use kokumi.Prelude.Int.{ℤ, pos, negsuc, ltb_ℤ}
use kokumi.Clock.{Time, Duration, is_zero}
use kokumi.Promotion.History.{EndReason, Entry, History}
use kokumi.Vulnerability.Severity.{Summary}
use kokumi.Vulnerability.Evaluation.{is_unset}
use kokumi.Prelude.{
  ℕ, zero, suc, ◌+◌, ◌-◌, ◌*◌, ◌/◌, ◌%◌, ◌^◌, ◌≤◌, ◌<◌, min, String, ◌≡◌, refl, sym, ap, ◌∙◌, ◌≢◌,
  ◌↔◌, ◌⊎◌, inl, inr, Bool, true, false, not, ◌&&◌, ◌||◌, Option, none, some, List, [], ◌∷◌, ◌++◌,
  map, arith, ltb, leb, ◌==◌, ◌=?◌, =?_iff, =?_refl, if◌then◌else◌, ltb→lt, leb→le, le→leb, lt→leb,
  Bool-cases, Option-cases, length, take, tail, any, All, All-take, length-take, take_all,
}

-- What a read of an object returns: a missing object is an error of its own.
pub data Fetched {ℓ} (A : Type ℓ) : Type ℓ where
  fetched : A → Fetched A
  missing : Fetched A
  unread : String → Fetched A

pub data ConditionStatus : Type 0 where
  is_true is_false is_unknown : ConditionStatus

pub record Condition : Type 0 where
  pub status : ConditionStatus
  pub reason : String

-- DeploymentEntry, the form in which the status stores an entry.
pub record DeploymentEntry : Type 0 where
  pub preparation_name : String
  pub digest : String
  pub oci_ref : String
  pub registry_ref : Option String
  pub product_revision : String
  pub started_time : Time
  pub healthy_time : Option Time
  pub ended_time : Option Time
  pub end_reason : EndReason
  pub promotion_record : String
  pub deployment_record : String

pub record DeploymentClusters : Type 0 where
  pub selected : ℕ
  pub healthy : ℕ
  pub progressing : ℕ
  pub degraded : ℕ
  pub held : ℕ

-- A target that the status lists, with its Ready condition.
pub record DeploymentTarget : Type 0 where
  pub cluster : String
  pub revision : String
  pub ready : Condition

-- The fields of the status that the reconciler writes, with one field for each condition.
pub record ServingStatus : Type 0 where
  pub history : List DeploymentEntry
  pub target_preparation_name : String
  pub upstream_deployed : Option Condition
  pub checks_passed : Option Condition
  pub approved : Option Condition
  pub verified : Option Condition
  pub ready : Option Condition
  pub clusters : Option DeploymentClusters
  pub targets : List DeploymentTarget
  pub deployed_vulnerabilities : Option Summary

-- What happens to a condition: conditions.Remove, conditions.Set, or nothing.
pub data Change : Type 0 where
  unchanged removed : Change
  marked : ConditionStatus → String → Change

unfoldable pub apply_change : Change → Option Condition → Option Condition
apply_change unchanged c = c
apply_change removed c = none
apply_change (marked s r) c = some (record { status = s; reason = r })

abbrev pub or_zero : Option Time → Time
or_zero none = 0
or_zero (some t) = t

abbrev pub or_empty : Option String → String
or_empty none = ""
or_empty (some s) = s

-- The body of the loop of `historyOf`.
unfoldable pub entry_from : DeploymentEntry → Entry
entry_from e = record {
  preparation = e.preparation_name;
  digest = e.digest;
  oci_ref = e.oci_ref;
  registry = or_empty e.registry_ref;
  product_revision = e.product_revision;
  started = e.started_time;
  healthy = or_zero e.healthy_time;
  ended = or_zero e.ended_time;
  end_reason = e.end_reason;
  promotion_record = e.promotion_record;
  deployment_record = e.deployment_record;
}

unfoldable pub history_of : List DeploymentEntry → History
unfolding entry_from
history_of [] = []
history_of (e ∷ es) = entry_from e ∷ history_of es

unfoldable pub optional_time : Time → Option Time
optional_time t = if is_zero t then none else some t

unfoldable pub registry_ref : String → Option String
registry_ref name = if name =? "" then none else some name

-- The body of the loop of `setHistory`.
unfoldable pub entry_to : Entry → DeploymentEntry
unfolding optional_time registry_ref
entry_to e = record {
  preparation_name = e.preparation;
  digest = e.digest;
  oci_ref = e.oci_ref;
  registry_ref = registry_ref e.registry;
  product_revision = e.product_revision;
  started_time = e.started;
  healthy_time = optional_time e.healthy;
  ended_time = optional_time e.ended;
  end_reason = e.end_reason;
  promotion_record = e.promotion_record;
  deployment_record = e.deployment_record;
}

unfoldable pub entries_of : History → List DeploymentEntry
unfolding entry_to
entries_of [] = []
entries_of (e ∷ h) = entry_to e ∷ entries_of h

unfoldable pub set_history : History → ServingStatus → ServingStatus
unfolding entries_of
set_history h s = record s { history = entries_of h }

-- The loop of `soonest`.
unfoldable pub soonest_from : Duration → List Duration → Duration
soonest_from shortest [] = shortest
soonest_from shortest (w ∷ ws) =
    soonest_from
      (if ltb_ℤ (pos 0) w && (is_unset shortest || ltb_ℤ w shortest) then w else shortest) ws

unfoldable pub soonest : List Duration → Duration
unfolding soonest_from
soonest ws = soonest_from (pos 0) ws
