-- ===== src/Scan/Due.antt =====
-- Which images are due, and when the next one is (internal/scan/schedule.go, Due and Next).
use mathlib.Core.List.{Memᴰ}
use mathlib.Core.List.Memᴰ
use mathlib.Core.Path.{subst}
use kokumi.Prelude.Int.{◌≤ℤ◌}
use kokumi.Prelude.Order.{compare_string, compare_string-IsComparison}
use kokumi.Prelude.Sort.{IsSorted, sort-All, sort-IsSorted, mem-sort}
use kokumi.Clock.{Time, Duration, sub, add}
use kokumi.Scan.{
  Record, Records, lookup, is_old, is_due, due_of, due, min_duration, max_duration, minute, next_of,
  next,
}
use kokumi.Prelude.{
  All-each, ◌≤◌, String, ◌≡◌, refl, sym, ap, ◌∙◌, ◌↔◌, ◌⊎◌, inl, inr, true, Option, none, some,
  List, [], ◌∷◌, arith, Bool-cases, All,
}

-- The image has no record, or one that is at least the interval old.
abbrev pub IsDue : Records → Duration → Time → String → Type 0
IsDue records interval now d =
    (r : Record) → lookup d records ≡ some r → add r.scanned_at interval ≤ now

is_due_iff :
    (records : Records) (interval : Duration) (now : Time) (d : String)
    → (is_due records interval now d ≡ true) ↔ IsDue records interval now d
unfolding is_due
is_due_iff records interval now d = by_record (lookup d records)
  where
    by_record :
        (o : Option Record)
        → (is_old interval now o ≡ true)
          ↔ ((r : Record) → o ≡ some r → add r.scanned_at interval ≤ now)
    by_record none = (λ h r e. cc e, λ n. refl)
    by_record (some r) = (
      λ h x e.
          subst (λ (y : Record). add y.scanned_at interval ≤ now) (ap (λ o. other r o) e)
            (ground (arith, h)),
      λ n. ground (arith, n r refl),
    )
      where
        other : Record → Option Record → Record
        other x none = x
        other x (some y) = y

mem-due_of :
    (records : Records) (interval : Duration) (now : Time) (d : String) (ds : List String)
    → Memᴰ d (due_of records interval now ds) ↔ (Memᴰ d ds × IsDue records interval now d)
unfolding due_of
mem-due_of records interval now d [] =
    (λ m. absurd (Memᴰ.not-nil m), λ h. absurd (Memᴰ.not-nil h.0))
mem-due_of records interval now d (x ∷ ds) =
    let (there, back) = mem-due_of records interval now d ds in
    let (sound, complete) = is_due_iff records interval now x in
    elim (Bool-cases (is_due records interval now x)) [
      | inl old ↦ rw old (
        λ m. elim (Memᴰ.cases_cons m) [
          | inl e ↦ (Memᴰ.head e, subst (IsDue records interval now) (sym e) (sound old))
          | inr later ↦ let (n, h) = there later in (Memᴰ.tail n, h)
        ],
        λ h. elim (Memᴰ.cases_cons h.0) [
          | inl e ↦ Memᴰ.head e
          | inr later ↦ Memᴰ.tail (back (later, h.1))
        ],
      )
      | inr fresh ↦ rw fresh (
        λ m. let (n, h) = there m in (Memᴰ.tail n, h),
        λ h. elim (Memᴰ.cases_cons h.0) [
          | inl e ↦
              let old = complete (subst (IsDue records interval now) e h.1) in
              ground (arith, old, fresh)
          | inr later ↦ back (later, h.1)
        ],
      )
    ]

-- `Due` returns, in the order of their digests, the images in use that have no record or one at
-- least the interval old, and no others.
pub due-IsDue :
    (in_use : List String) (records : Records) (interval : Duration) (now : Time)
    → IsSorted compare_string (due in_use records interval now)
      × All (λ d. Memᴰ d in_use × IsDue records interval now d) (due in_use records interval now)
      × ((d : String)
          → Memᴰ d in_use
          → IsDue records interval now d
          → Memᴰ d (due in_use records interval now))
unfolding due
due-IsDue in_use records interval now = (
  sort-IsSorted compare_string compare_string-IsComparison (due_of records interval now in_use),
  sort-All compare_string (λ d. Memᴰ d in_use × IsDue records interval now d)
      (due_of records interval now in_use)
      (All-each _ (due_of records interval now in_use)
        (λ d. (mem-due_of records interval now d in_use).0)),
  λ d m h.
      mem-sort compare_string d (due_of records interval now in_use)
        ((mem-due_of records interval now d in_use).1 (m, h)),
)

-- How long until the record is due.
abbrev pub left_of : Duration → Time → String × Record → Duration
left_of interval now (k, r) = sub (add r.scanned_at interval) now

min_duration_lem :
    (a b : Duration)
    → (min_duration a b ≤ℤ a)
      × (min_duration a b ≤ℤ b)
      × ((min_duration a b ≡ a) ⊎ (min_duration a b ≡ b))
min_duration_lem a b = ground arith

next_of-least :
    (records : Records) (interval : Duration) (now : Time) (d : Duration)
    → (next_of records interval now d ≤ℤ d)
      × All (λ r. next_of records interval now d ≤ℤ left_of interval now r) records
      × ((next_of records interval now d ≡ d)
          ⊎ ((r : String × Record) × Memᴰ r records
              × (next_of records interval now d ≡ left_of interval now r)))
unfolding next_of
next_of-least [] interval now d = (omega arith, tt, inl refl)
next_of-least (r ∷ records) interval now d =
    let left = left_of interval now r in
    let (least, each, attained) = next_of-least records interval now (min_duration d left) in
    let (on_d, on_left, either) = min_duration_lem d left in
    (
      omega (arith, least, on_d),
      (omega (arith, least, on_left), each),
      elim attained [
        | inl e ↦ elim either [
          | inl is_d ↦ inl (e ∙ is_d)
          | inr is_left ↦ inr (r, Memᴰ.head refl, e ∙ is_left)
        ]
        | inr (x, m, e) ↦ inr (x, Memᴰ.tail m, e)
      ],
    )

max_duration_lem :
    (a b : Duration)
    → (b ≤ℤ max_duration a b) × ((max_duration a b ≡ a) ⊎ (max_duration a b ≡ b) × (a ≤ℤ b))
max_duration_lem a b = ground arith

-- The duration is the interval, or what is left until a record is due.
abbrev pub IsWait : Records → Duration → Time → Duration → Type 0
IsWait records interval now d =
    (d ≡ interval) ⊎ ((r : String × Record) × Memᴰ r records × (d ≡ left_of interval now r))

-- `Next` is at least a minute. It is a minute, and the interval or what is left until some record is
-- due is at most that; or it is itself the interval or what is left until some record is due, and is
-- no longer than any of these.
pub next-least :
    (records : Records) (interval : Duration) (now : Time)
    → (minute ≤ℤ next records interval now)
      × ((next records interval now ≡ minute)
            × ((d : Duration) × IsWait records interval now d × (d ≤ℤ minute))
          ⊎ (next records interval now ≤ℤ interval)
            × All (λ r. next records interval now ≤ℤ left_of interval now r) records
            × IsWait records interval now (next records interval now))
unfolding next
next-least records interval now =
    let (on_minute, either) = max_duration_lem (next_of records interval now interval) minute in
    let (least, each, attained) = next_of-least records interval now interval in
    (
      on_minute,
      elim either [
        | inr (is_minute, short) ↦
            inl (is_minute, (next_of records interval now interval, attained, short))
        | inl is_left ↦ inr (
            subst
              (λ n.
                (n ≤ℤ interval)
                × All (λ r. n ≤ℤ left_of interval now r) records
                × IsWait records interval now n)
              (sym is_left) (least, each, attained))
      ],
    )
