-- ===== src/Promotion/History.antt =====
-- internal/promotion/history.go: the deployment history of a stage, newest first. A method that
-- returns a new `History` is a function of the old one; a pointer into a slice is the entry itself,
-- and where the code writes through it the list is rebuilt.
pub mod Identity
pub mod Invariant
pub mod Passes
pub mod Runs
use kokumi.Prelude.{
  ℕ, String, Bool, true, false, not, ◌&&◌, Option, none, some, List, [], ◌∷◌, ◌++◌, ◌==◌, ◌=?◌,
  if◌then◌else◌, take, tail,
}
use kokumi.Clock.{Time, is_zero, truncate_second}

abbrev pub max_entries : ℕ
max_entries = 16

-- `ongoing` is the empty string of the source.
pub data EndReason : Type 0 where
  ongoing superseded degraded : EndReason

pub record Entry : Type 0 where
  pub preparation : String
  pub digest : String
  pub oci_ref : String
  pub registry : String
  pub product_revision : String
  pub started : Time
  pub healthy : Time
  pub ended : Time
  pub end_reason : EndReason
  pub promotion_record : String
  pub deployment_record : String

abbrev pub running : Entry → Bool
running e = is_zero e.ended

abbrev pub promoted : Entry → Bool
promoted e = not (e.promotion_record =? "")

abbrev pub is_degraded : EndReason → Bool
is_degraded degraded = true
is_degraded _ = false

abbrev pub History : Type 0
History = List Entry

unfoldable pub deployed : History → Option Entry
deployed [] = none
deployed (e ∷ h) = if promoted e then some e else deployed h

unfoldable pub pending : History → Option Entry
pending [] = none
pending (e ∷ h) = if promoted e then none else some e

unfoldable pub promoted_before : String → History → Option Entry
promoted_before name [] = none
promoted_before name (e ∷ h) =
    if (e.preparation =? name) && promoted e then some e else promoted_before name h

unfoldable pub drop : History → History
unfolding pending
drop h = elim (pending h) [ none ↦ h | some _ ↦ tail h ]

unfoldable pub prepend : Entry → History → History
prepend e h = take max_entries (e ∷ h)

-- The entry that `Open` adds.
abbrev pub fresh : Entry → Time → Entry
fresh candidate started = record {
  preparation = candidate.preparation;
  digest = candidate.digest;
  oci_ref = candidate.oci_ref;
  registry = candidate.registry;
  product_revision = candidate.product_revision;
  started = started;
  healthy = 0;
  ended = 0;
  end_reason = ongoing;
  promotion_record = "";
  deployment_record = "";
}

unfoldable pub open_entry : Entry → Time → History → History
unfolding drop prepend truncate_second
open_entry candidate now h = prepend (fresh candidate (truncate_second now)) (drop h)

-- The write of `Start` through the pointer that `Deployed` returns: the newest promoted entry ends
-- at `at`, if it still runs.
unfoldable pub supersede : Time → History → History
supersede at [] = []
supersede at (e ∷ h) =
    let rest = e ∷ supersede at h in
    if promoted e
    then (if running e then record e { ended = at; end_reason = superseded } else e) ∷ h
    else rest

unfoldable pub start : String → History → History
unfolding supersede
start record_digest [] = []
start record_digest (p ∷ h) =
    if promoted p
    then p ∷ h
    else record p { promotion_record = record_digest } ∷ supersede p.started h

pub data Step : Type 0 where
  step_deployed step_open step_record : Step

abbrev pub names : String → Option Entry → Bool
names candidate none = false
names candidate (some e) = e.preparation =? candidate

unfoldable pub next : String → History → Step
unfolding deployed pending
next candidate h =
    if names candidate (deployed h)
    then step_deployed
    else if names candidate (pending h)
    then step_record
    else step_open

pub data Health : Type 0 where
  progressing healthy degraded : Health

pub record Observation : Type 0 where
  pub revision : String
  pub health : Health

abbrev pub is_healthy : Health → Bool
is_healthy Health.healthy = true
is_healthy _ = false

abbrev pub reports_degraded : Health → Bool
reports_degraded Health.degraded = true
reports_degraded _ = false

-- The entry that opens when an entry that ended degraded is healthy again.
abbrev pub recovery : Entry → Time → Entry
recovery d now = record {
  preparation = d.preparation;
  digest = d.digest;
  oci_ref = d.oci_ref;
  registry = d.registry;
  product_revision = d.product_revision;
  started = now;
  healthy = now;
  ended = 0;
  end_reason = ongoing;
  promotion_record = d.promotion_record;
  deployment_record = "";
}

-- What `Observe` does at the deployed entry: write it, insert an entry before it, or nothing.
pub data Change : Type 0 where
  write insert : Entry → Change
  keep : Change

-- The `switch` of `Observe` at the deployed entry `d`.
unfoldable pub observe_entry : Health → Time → Entry → Change
observe_entry health now d =
    if is_healthy health && (running d && is_zero d.healthy)
    then write (record d { healthy = now })
    else if is_healthy health && is_degraded d.end_reason
    then insert (recovery d now)
    else if reports_degraded health && running d
    then write (record d { ended = now; end_reason = EndReason.degraded })
    else keep

-- The entries before the deployed one, it, and those behind it: the index of the source.
unfoldable pub split_deployed : History → Option (List Entry × Entry × List Entry)
split_deployed [] = none
split_deployed (e ∷ h) = if promoted e then some ([], e, h) else elim (split_deployed h) [
  | none ↦ none
  | some (before, d, after) ↦ some (e ∷ before, d, after)
]

unfoldable pub apply_change : Change → List Entry → Entry → List Entry → History → History × Bool
apply_change (write e) before d after h = (before ++ (e ∷ after), true)
apply_change (insert r) before d after h = (take max_entries (before ++ (r ∷ d ∷ after)), true)
apply_change keep before d after h = (h, false)

unfoldable pub observe_split :
    Observation → Time → History → Option (List Entry × Entry × List Entry) → History × Bool
observe_split o now h none = (h, false)
observe_split o now h (some (before, d, after)) =
    if d.digest =? o.revision
    then apply_change (observe_entry o.health now d) before d after h
    else (h, false)

unfoldable pub observe : Observation → Time → History → History × Bool
observe o now h = observe_split o (truncate_second now) h (split_deployed h)

unfoldable pub record_deployment : String → Time → String → History → History
record_deployment digest at r [] = []
record_deployment digest at r (e ∷ h) =
    (if (e.digest =? digest) && e.healthy == at then record e { deployment_record = r } else e)
    ∷ record_deployment digest at r h

abbrev pub is_unrecorded : Entry → Bool
is_unrecorded e = promoted e && (not (is_zero e.healthy) && (e.deployment_record =? ""))

unfoldable pub unrecorded : History → List Entry
unrecorded [] = []
unrecorded (e ∷ h) = if is_unrecorded e then e ∷ unrecorded h else unrecorded h
