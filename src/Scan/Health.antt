-- ===== src/Scan/Health.antt =====
-- When the scans of a Product are current (internal/scan/schedule.go, Status.Health).
use kokumi.Prelude.Int.{ltb_ℤ, ◌≤ℤ◌}
use kokumi.Clock.{Time, Duration, sub}
use kokumi.Scan.{
  Record, scanned, Status, first_stale, is_empty, is_database_stale, stale_reason, health,
}
use kokumi.Prelude.{
  ◌≡◌, refl, ◌↔◌, ◌⊎◌, inl, inr, true, false, List, [], ◌∷◌, arith, Bool-cases, All,
}

first_stale-none_iff :
    (rs : List Record) (stale_after : Duration) (now : Time)
    → (stale_reason (first_stale rs stale_after now) ≡ scanned)
      ↔ All (λ r. sub now r.scanned_at ≤ℤ stale_after) rs
unfolding first_stale
first_stale-none_iff [] stale_after now = (λ h. tt, λ h. refl)
first_stale-none_iff (r ∷ rs) stale_after now =
    let (f, g) = first_stale-none_iff rs stale_after now in
    elim (Bool-cases (ltb_ℤ stale_after (sub now r.scanned_at))) [
      | inl old ↦ rw old (λ h. cc h, λ h. ground (arith, old, h.0))
      | inr fresh ↦ rw fresh (λ h. (ground (arith, fresh), f h), λ h. g h.1)
    ]

is_empty_iff : {A : Type 0} (l : List A) → (is_empty l ≡ true) ↔ (l ≡ [])
is_empty_iff [] = (λ h. refl, λ h. refl)
is_empty_iff (x ∷ l) = (λ h. ground (arith, h), λ h. cc h)

database_fresh_iff :
    (s : Status) (max_age : Duration) (now : Time)
    → (is_database_stale s max_age now ≡ false)
      ↔ ((s.database_built ≡ 0) ⊎ (s.records ≡ []) ⊎ (sub now s.database_built ≤ℤ max_age))
unfolding is_database_stale
database_fresh_iff s max_age now = ground (arith, is_empty_iff s.records)

-- The scans of a Product are reported as current exactly when no image failed to scan, the database
-- is no older than allowed, if it is known when it was built and there are records, and no record is
-- older than allowed.
pub health-scanned_iff :
    (s : Status) (max_database_age stale_after : Duration) (now : Time)
    → (health s max_database_age stale_after now ≡ scanned) ↔ (
        (s.failures ≡ [])
        × ((s.database_built ≡ 0)
            ⊎ (s.records ≡ [])
            ⊎ (sub now s.database_built ≤ℤ max_database_age))
        × All (λ r. sub now r.scanned_at ≤ℤ stale_after) s.records)
unfolding health
health-scanned_iff s max_database_age stale_after now =
    let (f, g) = first_stale-none_iff s.records stale_after now in
    let no_failures = is_empty_iff s.failures in
    let database = database_fresh_iff s max_database_age now in
    elim (Bool-cases (is_empty s.failures)) [
      | inr some_failed ↦
          rw some_failed (λ h. cc h, λ h. ground (arith, some_failed, no_failures, h.0))
      | inl none_failed ↦ elim (Bool-cases (is_database_stale s max_database_age now)) [
        | inl old ↦
            rw (none_failed, old)
              (λ h. cc h, λ h. let fresh = database.1 h.1 in ground (arith, old, fresh))
        | inr new ↦
            rw (none_failed, new)
              (λ h. (no_failures.0 none_failed, database.0 new, f h), λ h. g h.2)
      ]
    ]
