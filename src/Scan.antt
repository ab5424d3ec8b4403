-- ===== src/Scan.antt =====
-- internal/scan/schedule.go: which images are due to be scanned, when the next one is, and the state
-- of a Product's scans. A map by digest is an association list, read from its front.
pub mod Due
pub mod Health
use kokumi.Prelude.Int.{ℤ, pos, negsuc, leb_ℤ, ltb_ℤ}
use kokumi.Prelude.Order.{compare_string}
use kokumi.Prelude.Sort.{sort}
use kokumi.Clock.{Time, Duration, second, is_zero, sub, add}
use kokumi.Vulnerability.Severity.{Summary}
use kokumi.Prelude.{
  ℕ, zero, suc, ◌+◌, ◌-◌, ◌*◌, ◌/◌, ◌%◌, ◌^◌, ◌≤◌, ◌<◌, min, String, ◌≡◌, refl, sym, ap, ◌∙◌, ◌≢◌,
  ◌↔◌, ◌⊎◌, inl, inr, Bool, true, false, not, ◌&&◌, ◌||◌, Option, none, some, List, [], ◌∷◌, ◌++◌,
  map, arith, ltb, leb, ◌==◌, ◌=?◌, =?_iff, =?_refl, if◌then◌else◌, ltb→lt, leb→le, le→leb, lt→leb,
  Bool-cases, Option-cases, length, take, tail, any, All, All-take, length-take, take_all,
}

-- scan.go's Record, without the identity of its SBOM.
pub record Record : Type 0 where
  pub digest : String
  pub repository : String
  pub platform : String
  pub scanned_at : Time
  pub report : String
  pub summary : Summary

abbrev pub Records : Type 0
Records = List (String × Record)

unfoldable pub lookup : String → Records → Option Record
lookup d [] = none
lookup d ((k, r) ∷ rs) = if k =? d then some r else lookup d rs

-- Without a record, or with one that is `interval` old.
abbrev pub is_old : Duration → Time → Option Record → Bool
is_old interval now none = true
is_old interval now (some r) = not (ltb now (add r.scanned_at interval))

unfoldable pub is_due : Records → Duration → Time → String → Bool
unfolding lookup
is_due records interval now digest = is_old interval now (lookup digest records)

-- The loop of `Due`, over the digests of the images in use.
unfoldable pub due_of : Records → Duration → Time → List String → List String
unfolding is_due
due_of records interval now [] = []
due_of records interval now (d ∷ ds) =
    let rest = due_of records interval now ds in
    if is_due records interval now d then d ∷ rest else rest

unfoldable pub due : List String → Records → Duration → Time → List String
unfolding due_of
due in_use records interval now = sort compare_string (due_of records interval now in_use)

abbrev pub min_duration : Duration → Duration → Duration
min_duration a b = if ltb_ℤ b a then b else a

abbrev pub max_duration : Duration → Duration → Duration
max_duration a b = if ltb_ℤ a b then b else a

abbrev pub minute : Duration
minute = pos (60 * second)

-- The loop of `Next`.
unfoldable pub next_of : Records → Duration → Time → Duration → Duration
next_of [] interval now next = next
next_of ((k, r) ∷ rs) interval now next =
    next_of rs interval now (min_duration next (sub (add r.scanned_at interval) now))

unfoldable pub next : Records → Duration → Time → Duration
unfolding next_of
next records interval now = max_duration (next_of records interval now interval) minute

pub data Reason : Type 0 where
  scan_failed database_stale stale scanned : Reason

-- A digest that could not be scanned, and the message of the error.
pub record Failure : Type 0 where
  pub digest : String
  pub message : String

pub record Status : Type 0 where
  pub records : List Record
  pub in_use : ℕ
  pub failures : List Failure
  pub database : String
  pub database_built : Time

-- The first record that is older than allowed.
unfoldable pub first_stale : List Record → Duration → Time → Option Record
first_stale [] stale_after now = none
first_stale (r ∷ rs) stale_after now =
    let rest = first_stale rs stale_after now in
    if ltb_ℤ stale_after (sub now r.scanned_at) then some r else rest

abbrev pub is_empty {ℓ} : {A : Type ℓ} → List A → Bool
is_empty [] = true
is_empty (x ∷ xs) = false

unfoldable pub is_database_stale : Status → Duration → Time → Bool
is_database_stale s max_database_age now =
    not (is_zero s.database_built)
    && (not (is_empty s.records) && ltb_ℤ max_database_age (sub now s.database_built))

abbrev pub stale_reason : Option Record → Reason
stale_reason (some r) = stale
stale_reason none = scanned

-- The reason of `Status.Health`.
unfoldable pub health : Status → Duration → Duration → Time → Reason
unfolding first_stale is_database_stale
health s max_database_age stale_after now =
    if not (is_empty s.failures)
    then scan_failed
    else if is_database_stale s max_database_age now
    then database_stale
    else stale_reason (first_stale s.records stale_after now)
