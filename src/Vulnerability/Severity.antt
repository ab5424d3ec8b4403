-- ===== src/Vulnerability/Severity.antt =====
-- internal/vulnerability/severity.go: severities, summaries of findings, and the findings that a
-- check blocks on. An int32 is its bit pattern, a number below 2 ^ 32.
pub mod Counts
use kokumi.Prelude.Int.{pos, negsuc, ltb_ℤ}
use kokumi.Clock.{Duration, wrap64}
use kokumi.Prelude.{
  ℕ, zero, suc, ◌+◌, ◌-◌, ◌*◌, ◌/◌, ◌%◌, ◌^◌, ◌≤◌, ◌<◌, min, String, ◌≡◌, refl, sym, ap, ◌∙◌, ◌≢◌,
  ◌↔◌, ◌⊎◌, inl, inr, Bool, true, false, not, ◌&&◌, ◌||◌, Option, none, some, List, [], ◌∷◌, ◌++◌,
  map, arith, ltb, leb, ◌==◌, ◌=?◌, =?_iff, =?_refl, if◌then◌else◌, ltb→lt, leb→le, le→leb, lt→leb,
  Bool-cases, Option-cases, length, take, tail, any, All, All-take, length-take, take_all,
}

pub data Severity : Type 0 where
  critical high medium low unknown : Severity

-- report.go's Finding.
pub record Finding : Type 0 where
  pub id : String
  pub package_name : String
  pub installed : String
  pub fixed : String
  pub severity : Severity
  pub title : String
  pub target : String

pub record Summary : Type 0 where
  pub critical_count : ℕ
  pub high_count : ℕ
  pub medium_count : ℕ
  pub low_count : ℕ
  pub unknown_count : ℕ
  pub fixable_count : ℕ

pub record Check : Type 0 where
  pub max_severity : Severity
  pub ignore_unfixed : Bool
  pub max_age : Duration

-- 2 * d, in an int64.
unfoldable pub twice : Duration → Duration
twice (pos n) = wrap64 (pos (2 * n))
twice (negsuc n) = wrap64 (negsuc (2 * n + 1))

unfoldable pub max_age_of : Duration → Duration → Duration
unfolding twice
max_age_of max_age scan_interval = if ltb_ℤ (pos 0) max_age then max_age else twice scan_interval

-- severity; `upper` is Go's strings.ToUpper.
unfoldable pub severity_of : (String → String) → String → Severity
severity_of upper s =
    if upper s =? "CRITICAL"
    then critical
    else if upper s =? "HIGH"
    then high
    else if upper s =? "MEDIUM"
    then medium
    else if upper s =? "LOW"
    then low
    else unknown

unfoldable pub rank : Severity → ℕ
rank critical = 4
rank high = 3
rank medium = 2
rank low = 1
rank unknown = 0

-- int32 addition
abbrev pub add32 : ℕ → ℕ → ℕ
add32 a b = (a + b) % 2 ^ 32

abbrev pub no_findings : Summary
no_findings = record {
  critical_count = 0;
  high_count = 0;
  medium_count = 0;
  low_count = 0;
  unknown_count = 0;
  fixable_count = 0;
}

abbrev pub count_severity : Severity → Summary → Summary
count_severity critical s = record s { critical_count = add32 s.critical_count 1 }
count_severity high s = record s { high_count = add32 s.high_count 1 }
count_severity medium s = record s { medium_count = add32 s.medium_count 1 }
count_severity low s = record s { low_count = add32 s.low_count 1 }
count_severity unknown s = record s { unknown_count = add32 s.unknown_count 1 }

-- The body of the loop of `Summarize`.
unfoldable pub count_finding : Summary → Finding → Summary
count_finding s f =
    let t = count_severity f.severity s in
    if f.fixed =? "" then t else record t { fixable_count = add32 t.fixable_count 1 }

unfoldable pub summarize_from : Summary → List Finding → Summary
unfolding count_finding
summarize_from s [] = s
summarize_from s (f ∷ fs) = summarize_from (count_finding s f) fs

unfoldable pub summarize : List Finding → Summary
unfolding summarize_from
summarize fs = summarize_from no_findings fs

-- Add
unfoldable pub add_summary : Summary → Summary → Summary
add_summary a b = record {
  critical_count = add32 a.critical_count b.critical_count;
  high_count = add32 a.high_count b.high_count;
  medium_count = add32 a.medium_count b.medium_count;
  low_count = add32 a.low_count b.low_count;
  unknown_count = add32 a.unknown_count b.unknown_count;
  fixable_count = add32 a.fixable_count b.fixable_count;
}

-- A round of the loop of `AtLeast`.
abbrev pub tally : Severity → Severity → ℕ → ℕ → ℕ
tally min s count n = if leb (rank min) (rank s) then add32 n count else n

unfoldable pub at_least : Summary → Severity → ℕ
unfolding rank
at_least s min = tally min low s.low_count (
    tally min medium s.medium_count
      (tally min high s.high_count (tally min critical s.critical_count 0)))

-- An int32 as a number in the order of the signed integers.
abbrev pub ordinal32 : ℕ → ℕ
ordinal32 n = (n + 2 ^ 31) % 2 ^ 32

unfoldable pub increased : Summary → Summary → Severity → ℕ × ℕ × Bool
unfolding at_least
increased previous current min =
    let before = at_least previous min in
    let after = at_least current min in (before, after, ltb (ordinal32 before) (ordinal32 after))

abbrev pub is_unknown : Severity → Bool
is_unknown unknown = true
is_unknown _ = false

-- The two guards that pass a finding over.
unfoldable pub blocks : Check → Finding → Bool
unfolding rank
blocks check f =
    not (ltb (rank f.severity) (rank check.max_severity) || is_unknown f.severity)
    && not (check.ignore_unfixed && (f.fixed =? ""))

unfoldable pub blocking : List Finding → Check → List Finding
unfolding blocks
blocking [] check = []
blocking (f ∷ fs) check = let rest = blocking fs check in if blocks check f then f ∷ rest else rest
