-- ===== src/Tests/Schedule.antt =====
-- Two images, one scanned an hour ago and one two hours ago (internal/scan/schedule.go).
use mathlib.Core.List.{Memᴰ}
use kokumi.Prelude.Int.{pos, ◌≤ℤ◌}
use kokumi.Prelude.Order.{compare_string}
use kokumi.Prelude.Sort.{IsSorted}
use kokumi.Clock.{Duration, second, sub, saturate}
use kokumi.Vulnerability.Severity.{no_findings}
use kokumi.Scan.{Record, Records, due, minute, next, scanned, Status, health}
use kokumi.Scan.Due.{IsDue, due-IsDue, left_of, IsWait, next-least}
use kokumi.Scan.Health.{health-scanned_iff}
use kokumi.Prelude.{ℕ, ◌*◌, String, ◌≡◌, refl, ◌⊎◌, inr, List, [], ◌∷◌, arith, All}

abbrev hour : ℕ
hour = 3_600 * second

abbrev recent : Record
recent = record {
  digest = "sha256:aa";
  repository = "oci://registry/shop";
  platform = "";
  scanned_at = 9 * hour;
  report = "sha256:r1";
  summary = no_findings;
}

abbrev older : Record
older = record recent { digest = "sha256:bb"; scanned_at = 8 * hour }

abbrev scans : Records
scans = ("sha256:aa", recent) ∷ ("sha256:bb", older) ∷ []

abbrev in_use : List String
in_use = "sha256:bb" ∷ "sha256:aa" ∷ []

abbrev status : Status
status = record {
  records = recent ∷ older ∷ [];
  in_use = 2;
  failures = [];
  database = "ghcr.io/db";
  database_built = 7 * hour;
}

due-IsDue_example :
    IsSorted compare_string (due in_use scans (pos (2 * hour)) (10 * hour))
    × All
        (λ d. Memᴰ d in_use × IsDue scans (pos (2 * hour)) (10 * hour) d)
        (due in_use scans (pos (2 * hour)) (10 * hour))
    × ((d : String)
        → Memᴰ d in_use
        → IsDue scans (pos (2 * hour)) (10 * hour) d
        → Memᴰ d (due in_use scans (pos (2 * hour)) (10 * hour)))
due-IsDue_example = due-IsDue in_use scans (pos (2 * hour)) (10 * hour)

next-least_example :
    (minute ≤ℤ next scans (pos (3 * hour)) (10 * hour))
    × ((next scans (pos (3 * hour)) (10 * hour) ≡ minute)
          × ((d : Duration) × IsWait scans (pos (3 * hour)) (10 * hour) d × (d ≤ℤ minute))
        ⊎ (next scans (pos (3 * hour)) (10 * hour) ≤ℤ pos (3 * hour))
          × All
              (λ r.
                next scans (pos (3 * hour)) (10 * hour) ≤ℤ left_of (pos (3 * hour)) (10 * hour) r)
              scans
          × IsWait scans (pos (3 * hour)) (10 * hour) (next scans (pos (3 * hour)) (10 * hour)))
next-least_example = next-least scans (pos (3 * hour)) (10 * hour)

young : sub (10 * hour) (9 * hour) ≤ℤ pos (3 * hour)
unfolding sub saturate
young = omega arith

still_young : sub (10 * hour) (8 * hour) ≤ℤ pos (3 * hour)
unfolding sub saturate
still_young = omega arith

database_young : sub (10 * hour) (7 * hour) ≤ℤ pos (24 * hour)
unfolding sub saturate
database_young = omega arith

health-scanned_iff_example : health status (pos (24 * hour)) (pos (3 * hour)) (10 * hour) ≡ scanned
health-scanned_iff_example =
    (health-scanned_iff status (pos (24 * hour)) (pos (3 * hour)) (10 * hour)).1
      (refl, inr (inr database_young), (young, (still_young, tt)))
