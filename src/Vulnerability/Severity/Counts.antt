-- ===== src/Vulnerability/Severity/Counts.antt =====
-- What summaries count (internal/vulnerability/severity.go).
use mathlib.Core.Bool.{false≢true}
use kokumi.Vulnerability.Severity.{
  high, medium, low, critical, no_findings, count_severity, add32, Severity, unknown, Finding,
  Summary, Check, rank, is_unknown, count_finding, summarize_from, summarize, at_least, blocks,
  blocking,
}
use mathlib.Core.List.{Memᴰ}
use mathlib.Core.List.Memᴰ
use kokumi.Prelude.{
  ℕ, suc, ◌+◌, ◌%◌, ◌^◌, ◌≤◌, ◌<◌, min, ◌≡◌, refl, sym, ap, ◌∙◌, ◌≢◌, ◌↔◌, inl, inr, true, false,
  not, ◌&&◌, List, [], ◌∷◌, arith, leb, ◌=?◌, =?_iff, if◌then◌else◌, Bool-cases, length,
}

-- How many findings are at or above a severity, those of unknown severity left out.
abbrev pub count_above : Severity → List Finding → ℕ
count_above min [] = 0
count_above min (f ∷ fs) =
    if leb (rank min) (rank f.severity) && not (is_unknown f.severity)
    then suc (count_above min fs)
    else count_above min fs

count_above-le : (min : Severity) (fs : List Finding) → count_above min fs ≤ length fs
count_above-le min [] = omega arith
count_above-le min (f ∷ fs) = ground (arith, count_above-le min fs)

-- Counting one more severity adds one to what is counted at or above another, or nothing.
at_least-count_severity :
    (sev min : Severity) (s : Summary)
    → at_least (count_severity sev s) min ≡ (
        if leb (rank min) (rank sev) && not (is_unknown sev)
        then add32 (at_least s min) 1
        else at_least s min)
unfolding at_least rank
at_least-count_severity sev critical s = ground arith
at_least-count_severity sev high s = ground arith
at_least-count_severity sev medium s = ground arith
at_least-count_severity sev low s = ground arith
at_least-count_severity sev unknown s = ground arith

at_least-lt : (s : Summary) (min : Severity) → at_least s min < 2 ^ 32
unfolding at_least rank
at_least-lt s critical = omega arith
at_least-lt s _ = omega arith

at_least-fixable :
    (s : Summary) (n : ℕ) (min : Severity)
    → at_least (record s { fixable_count = n }) min ≡ at_least s min
unfolding at_least
at_least-fixable s n min = refl

at_least-count_finding :
    (s : Summary) (f : Finding) (min : Severity)
    → at_least (count_finding s f) min ≡ (
        if leb (rank min) (rank f.severity) && not (is_unknown f.severity)
        then add32 (at_least s min) 1
        else at_least s min)
unfolding count_finding
at_least-count_finding s f min = elim (Bool-cases (f.fixed =? "")) [
  | inl unfixed ↦ rw unfixed (at_least-count_severity f.severity min s)
  | inr fixed ↦ rw fixed (
      at_least-fixable (count_severity f.severity s) _ min
      ∙ at_least-count_severity f.severity min s)
]

at_least-summarize_from :
    (fs : List Finding) (s : Summary) (min : Severity)
    → at_least (summarize_from s fs) min ≡ (at_least s min + count_above min fs) % 2 ^ 32
unfolding summarize_from
at_least-summarize_from [] s min = omega (arith, at_least-lt s min)
at_least-summarize_from (f ∷ fs) s min =
    at_least-summarize_from fs (count_finding s f) min
    ∙ ground (arith, at_least-count_finding s f min)

at_least-empty : (min : Severity) → at_least no_findings min ≡ 0
unfolding at_least rank
at_least-empty critical = refl
at_least-empty _ = refl

-- The number of findings that a summary shows at or above a severity is the number of such findings
-- of a known severity, as long as an int32 holds the number of findings.
pub at_least-summarize :
    (fs : List Finding) (min : Severity)
    → length fs < 2 ^ 31
    → at_least (summarize fs) min ≡ count_above min fs
unfolding summarize
at_least-summarize fs min h =
    at_least-summarize_from fs no_findings min
    ∙ omega (arith, at_least-empty min, count_above-le min fs)

blocking_counts :
    (f : Finding) (fs : List Finding) (check : Check)
    → check.ignore_unfixed ≡ false
    → length (blocking fs check) ≡ count_above check.max_severity fs
    → length (blocking (f ∷ fs) check) ≡ count_above check.max_severity (f ∷ fs)
unfolding blocking blocks
blocking_counts f fs check i h = ground arith

-- A check that does not ignore unfixed findings blocks on as many findings as the summary counts at
-- or above its severity.
length-blocking :
    (fs : List Finding) (check : Check)
    → check.ignore_unfixed ≡ false
    → length fs < 2 ^ 31
    → length (blocking fs check) ≡ at_least (summarize fs) check.max_severity
length-blocking fs check i h = counted fs ∙ sym (at_least-summarize fs check.max_severity h)
  where
    counted : (gs : List Finding) → length (blocking gs check) ≡ count_above check.max_severity gs
    counted [] = unfold blocking in refl
    counted (g ∷ gs) = blocking_counts g gs check i (counted gs)

-- What makes a finding block.
abbrev pub IsBlocking : Check → Finding → Type 0
IsBlocking check f =
    (rank check.max_severity ≤ rank f.severity)
    × (f.severity ≢ unknown)
    × (check.ignore_unfixed ≡ true → f.fixed ≢ "")

blocks_iff : (check : Check) (f : Finding) → (blocks check f ≡ true) ↔ IsBlocking check f
unfolding blocks
blocks_iff check f = ground (arith, =?_iff f.fixed "")

-- A finding blocks exactly when it is of the release, of a known severity at or above the check's,
-- and, if the check ignores unfixed findings, fixed by some version.
pub mem-blocking :
    (f : Finding) (fs : List Finding) (check : Check)
    → Memᴰ f (blocking fs check) ↔ (Memᴰ f fs × IsBlocking check f)
unfolding blocking
mem-blocking f [] check = (λ m. absurd (Memᴰ.not-nil m), λ (m, b). absurd (Memᴰ.not-nil m))
mem-blocking f (x ∷ fs) check =
    let (there, back) = mem-blocking f fs check in
    elim (Bool-cases (blocks check x)) [
      | inl b ↦ rw b (
        λ m. elim (Memᴰ.cases_cons m) [
          | inl e ↦ (Memᴰ.head e, (blocks_iff check f).0 (ap (blocks check) e ∙ b))
          | inr later ↦ let (n, k) = there later in (Memᴰ.tail n, k)
        ],
        λ (m, k). elim (Memᴰ.cases_cons m) [
          | inl e ↦ Memᴰ.head e
          | inr later ↦ Memᴰ.tail (back (later, k))
        ],
      )
      | inr n ↦ rw n (
        λ m. let (o, k) = there m in (Memᴰ.tail o, k),
        λ (m, k). elim (Memᴰ.cases_cons m) [
          | inl e ↦
              absurd (false≢true (sym n ∙ ap (blocks check) (sym e) ∙ (blocks_iff check f).1 k))
          | inr later ↦ back (later, k)
        ],
      )
    ]
