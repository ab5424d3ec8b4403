-- ===== src/Vulnerability/Reading.antt =====
-- Read of internal/vulnerability/evaluate.go: the findings of the images of a release, each report
-- read once. The reads of different reports run at the same time and do not depend on one another, so
-- that `read_report`, what the reader returns for a scan, is a function.
use kokumi.Vulnerability.Severity.{Finding}
use kokumi.Vulnerability.Evaluation.{Scan, Image, ReadError, Assessment}
use kokumi.Prelude.{String, Option, none, some, List, [], ◌∷◌, ◌=?◌, if◌then◌else◌}

-- What the reader returns for a scan.
pub record Reading : Type 0 where
  pub findings : List Finding
  pub error : Option ReadError

abbrev pub scan_read : Image → Option Scan
scan_read i = if i.vendored then i.scan else none

-- The scan by which a report is read: the first one in `reports`.
unfoldable pub first_scan : String → List Image → Option Scan
first_scan report [] = none
first_scan report (i ∷ l) = elim (scan_read i) [
  | none ↦ first_scan report l
  | some s ↦ let rest = first_scan report l in if s.report =? report then some s else rest
]

abbrev pub reading_of : (Scan → Reading) → List Image → Option Scan → Reading
reading_of read_report all none = record { findings = []; error = none }
reading_of read_report all (some s) = elim (first_scan s.report all) [
  | none ↦ record { findings = []; error = none }
  | some first ↦ read_report first
]

-- The last loop of `Read`.
unfoldable pub assess : (Scan → Reading) → List Image → List Image → List Assessment
unfolding first_scan
assess read_report all [] = []
assess read_report all (i ∷ l) =
    let r = reading_of read_report all (scan_read i) in
    record { image = i; findings = r.findings; error = r.error } ∷ assess read_report all l

unfoldable pub read : (Scan → Reading) → List Image → List Assessment
unfolding assess
read read_report images = assess read_report images images
