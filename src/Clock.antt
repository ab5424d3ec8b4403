-- ===== src/Clock.antt =====
-- Go's time.Time and time.Duration, as internal/promotion, internal/vulnerability and internal/scan
-- use them. An instant is the count of nanoseconds since Go's zero time (January 1 of the year 1,
-- UTC), so that `IsZero` is a test for 0; instants before it are not represented. A duration is an
-- int64 count of nanoseconds, an integer here: `Sub` saturates at its bounds, as Go's does.
use kokumi.Prelude.{ℕ, ◌+◌, ◌-◌, ◌%◌, ◌^◌, ◌≤◌, ◌<◌, ◌≡◌, arith, leb, ◌==◌, if◌then◌else◌, Bool}
use kokumi.Prelude.Int.{ℤ, pos, negsuc, pos_part, neg_part, sub_ℕ, leb_ℤ}

abbrev pub Time : Type 0
Time = ℕ

abbrev pub Duration : Type 0
Duration = ℤ

abbrev pub second : ℕ
second = 1_000_000_000

-- math.MaxInt64; the least int64 is `negsuc max_int64`.
abbrev pub max_int64 : ℕ
max_int64 = 9_223_372_036_854_775_807

abbrev pub is_zero : Time → Bool
is_zero t = t == 0

-- The nearest int64.
unfoldable pub saturate : ℤ → Duration
saturate (pos n) = if leb n max_int64 then pos n else pos max_int64
saturate (negsuc n) = if leb n max_int64 then negsuc n else negsuc max_int64

-- t.Sub(u)
unfoldable pub sub : Time → Time → Duration
unfolding saturate
sub t u = saturate (sub_ℕ t u)

-- t.Add(d), for a result that is not before the zero time.
unfoldable pub add : Time → Duration → Time
add t d = t + pos_part d - neg_part d

-- An int64 result, wrapped round.
unfoldable pub wrap64 : ℤ → Duration
wrap64 (pos n) = if leb n max_int64 then pos n else sub_ℕ ((n + 2 ^ 63) % 2 ^ 64) (2 ^ 63)
wrap64 (negsuc n) =
    if leb n max_int64 then negsuc n else sub_ℕ ((2 ^ 64 - 1 - (n + 2 ^ 63) % 2 ^ 64)) (2 ^ 63)

-- t.Truncate(time.Second): down to a multiple of a second since the zero time.
unfoldable pub truncate_second : Time → Time
truncate_second t = t - t % second

-- A duration in range that the exact difference reaches is reached by `Sub`, and the other way round.
pub sub_reaches :
    (d : Duration) (t u : Time)
    → pos_part d ≤ max_int64
    → neg_part d ≤ max_int64
    → leb_ℤ d (sub t u) ≡ leb (u + pos_part d) (t + neg_part d)
unfolding sub
sub_reaches (pos n) t u h k = ground arith
sub_reaches (negsuc n) t u h k = ground arith

pub truncate_second_pos : (t : Time) → second ≤ t → 0 < truncate_second t
unfolding truncate_second
truncate_second_pos t h = omega arith

pub truncate_second-le : (t : Time) → truncate_second t ≤ t
unfolding truncate_second
truncate_second-le t = omega arith
