-- ===== src/Serving/Checks.antt =====
-- `checks` of internal/controller/serving_controller.go: the vulnerability check of a Preparation
-- against the scans of its images.
use kokumi.Prelude.Result.{Result, err, ok}
use kokumi.Clock.{Duration}
use kokumi.Prelude.Int.{pos}
use kokumi.Promotion.Gate.{seconds}
use kokumi.Vulnerability.Evaluation
use kokumi.Vulnerability.Evaluation.{Scan, Assessment}
use kokumi.Vulnerability.Reading.{read}
use kokumi.Vulnerability.Severity.{max_age_of}
use kokumi.Serving.Preparation.{
  VulnerabilityCheck, Preparation, Product, release_images_of, vulnerabilities_evidence_of,
}
use kokumi.Serving.Status.{fetched, missing, unread, is_true, is_false, removed, marked}
use kokumi.Serving.Inputs.{ChecksVerdict, Inputs, Gated, failing}
use kokumi.Prelude.{String, Bool, true, false, not, Option, none, some, List, [], if◌then◌else◌}

-- checkReasons
unfoldable pub check_reasons : Evaluation.Outcome → String
check_reasons Evaluation.passed = "Passed"
check_reasons Evaluation.vulnerabilities_found = "VulnerabilitiesFound"
check_reasons Evaluation.scan_missing = "ScanMissing"
check_reasons Evaluation.scan_stale = "ScanStale"

-- productOf
unfoldable pub product_of : Inputs → Result (Option Product)
product_of w = elim w.own_order [
  | missing ↦ ok none
  | unread e ↦ err e
  | fetched name ↦ elim (w.product_named name) [
    | missing ↦ ok none
    | unread e ↦ err e
    | fetched p ↦ ok (some p)
  ]
]

-- What `evaluateVulnerabilities` returns: the outcome of its verdict, how soon to check again, and
-- the assessments.
pub record Evaluated : Type 0 where
  pub outcome : Evaluation.Outcome
  pub recheck : Duration
  pub assessments : List Assessment

abbrev pub evaluated_with : List Assessment → Evaluation.Evaluated → Result Evaluated
evaluated_with l (Evaluation.failed name e) = err e
evaluated_with l (Evaluation.judged v) =
    ok (record { outcome = v.outcome; recheck = v.recheck; assessments = l })

abbrev pub assessments_of : Inputs → Preparation → Product → List Assessment
assessments_of w p product = read w.read_report (release_images_of p.images product)

unfoldable pub evaluate_product :
    Inputs → Preparation → VulnerabilityCheck → Product → Result Duration → Result Evaluated
evaluate_product w p check product (err e) = err e
evaluate_product w p check product (ok interval) = evaluated_with (assessments_of w p product) (
    Evaluation.evaluate (assessments_of w p product)
      (record {
        max_severity = check.max_severity;
        ignore_unfixed = check.ignore_unfixed;
        max_age = max_age_of (seconds check.max_age_seconds) interval;
      })
      w.checks_time)

unfoldable pub evaluate_vulnerabilities :
    Inputs → Preparation → VulnerabilityCheck → Result Evaluated
unfolding product_of evaluate_product
evaluate_vulnerabilities w p check = elim (product_of w) [
  | err e ↦ err e
  | ok none ↦ ok (record { outcome = Evaluation.scan_missing; recheck = pos 0; assessments = [] })
  | ok (some product) ↦ evaluate_product w p check product w.scan_interval
]

abbrev pub is_passed : Evaluation.Outcome → Bool
is_passed Evaluation.passed = true
is_passed _ = false

abbrev pub no_checks : Bool → ChecksVerdict
no_checks passes = record { passed = passes; recheck = pos 0; evidence = none }

unfoldable pub checks_of : VulnerabilityCheck → Result Evaluated → Gated ChecksVerdict
unfolding check_reasons
checks_of check (err e) = failing e
checks_of check (ok v) =
    if not (is_passed v.outcome)
    then record {
      change = marked is_false (check_reasons v.outcome);
      result = ok (no_checks false);
    }
    else record {
      change = marked is_true (check_reasons v.outcome);
      result = ok (record {
        passed = true;
        recheck = v.recheck;
        evidence = some (vulnerabilities_evidence_of check.max_severity v.assessments);
      });
    }

unfoldable pub checks : Inputs → Preparation → Gated ChecksVerdict
unfolding checks_of evaluate_vulnerabilities
checks w p = elim p.check [
  | none ↦ record { change = removed; result = ok (no_checks true) }
  | some check ↦ checks_of check (evaluate_vulnerabilities w p check)
]
