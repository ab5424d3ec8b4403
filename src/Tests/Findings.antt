-- ===== src/Tests/Findings.antt =====
-- Findings of two severities (internal/vulnerability/severity.go).
use kokumi.Prelude.Int.{pos, pos_part}
use mathlib.Core.List.Memᴰ
use mathlib.Core.Path.{subst}
use kokumi.Clock.{second, add, sub, saturate}
use kokumi.Vulnerability.Evaluation.{
  Scan, Assessment, evaluate, evaluate_from, check_image, check_scan, read_report, conclude,
}
use kokumi.Vulnerability.Evaluation.Passed.{IsClear, passes, evaluate-passes_iff}
use kokumi.Vulnerability.Evaluation.Recheck.{recheck_of, evaluate_until_recheck}
use kokumi.Vulnerability.Diff.{diff}
use kokumi.Vulnerability.Diff.Missing.{IsMissing, diff-IsMissing}
use kokumi.Vulnerability.Severity.{
  no_findings, blocks, rank, critical, high, low, Finding, Check, summarize, at_least, blocking,
}
use kokumi.Vulnerability.Severity.Counts.{at_least-summarize, IsBlocking}
use kokumi.Prelude.{
  ◌≡◌, refl, false, List, [], ◌∷◌, arith, ◌+◌, ◌*◌, ◌<◌, sym, inl, inr, true, none, some, ◌=?◌,
  =?_ne,
}

abbrev severe : Finding
severe = record {
  id = "CVE-1";
  package_name = "openssl";
  installed = "1.0";
  fixed = "1.1";
  severity = critical;
  title = "";
  target = "image";
}

abbrev minor : Finding
minor = record severe { id = "CVE-2"; severity = low; fixed = "" }

abbrev found : List Finding
found = severe ∷ minor ∷ []

abbrev from_high : Check
from_high = record { max_severity = high; ignore_unfixed = false; max_age = pos 0 }

at_least-summarize_example : at_least (summarize found) low ≡ 2
unfolding rank
at_least-summarize_example = at_least-summarize found low (omega arith)

severe_blocks : IsBlocking from_high severe
unfolding rank
severe_blocks = (omega arith, λ e. cc e, λ e. absurd (ground (arith, e)))

abbrev scan : Scan
scan = record {
  repository = "registry/shop";
  digest = "sha256:aa";
  report = "sha256:bb";
  scanned_at = 1_000 * second;
  summary = no_findings;
}

abbrev assessed : Assessment
assessed = record {
  image = record { name = "shop"; digest = "sha256:aa"; vendored = true; scan = some scan };
  findings = minor ∷ [];
  error = none;
}

-- At most an hour old.
abbrev hourly : Check
hourly = record from_high { max_age = pos (3_600 * second) }

minor_passes : ¬ IsBlocking hourly minor
unfolding rank
minor_passes b = omega (arith, b.0)

assessed-IsClear : IsClear hourly (2_000 * second) assessed
unfolding add ◌=?◌
assessed-IsClear = record {
  is_vendored = refl;
  is_pinned = =?_ne "sha256:aa" "" refl;
  scan = scan;
  is_scanned = refl;
  is_fresh = omega arith;
  is_readable = refl;
  none_blocks = λ f m. elim (Memᴰ.cases_cons m) [
    | inl e ↦ subst (λ g. ¬ IsBlocking hourly g) (sym e) minor_passes
    | inr later ↦ absurd (Memᴰ.not-nil later)
  ];
}

assessed-passes : passes (evaluate (assessed ∷ []) hourly (2_000 * second)) ≡ true
assessed-passes =
    (evaluate-passes_iff (assessed ∷ []) hourly (2_000 * second)).1 (assessed-IsClear, tt)

evaluate-passes_iff_example : passes (evaluate (assessed ∷ []) hourly (2_000 * second)) ≡ true
evaluate-passes_iff_example =
    (evaluate-passes_iff (assessed ∷ []) hourly (2_000 * second)).1 (assessed-IsClear, tt)

before_recheck :
    4_000 * second
    < 2_000 * second + pos_part (recheck_of (evaluate (assessed ∷ []) hourly (2_000 * second)))
unfolding evaluate evaluate_from check_image check_scan read_report conclude blocking blocks rank
    add sub saturate ◌=?◌
before_recheck = omega arith

evaluate_until_recheck_example : passes (evaluate (assessed ∷ []) hourly (4_000 * second)) ≡ true
evaluate_until_recheck_example =
    evaluate_until_recheck (assessed ∷ []) hourly (2_000 * second) (4_000 * second) assessed-passes
      before_recheck

diff-IsMissing_example :
    IsMissing found (minor ∷ []) (diff found (minor ∷ [])).0
    × IsMissing (minor ∷ []) found (diff found (minor ∷ [])).1
diff-IsMissing_example = diff-IsMissing found (minor ∷ [])
