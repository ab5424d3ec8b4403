-- ===== src/Serving/Preparation.antt =====
-- The Preparations and Products that a Serving is reconciled with (api/v1alpha1), and what
-- internal/controller/serving_controller.go makes of them.
use kokumi.Clock.{Time}
use kokumi.Prelude.Int.{ℤ}
use kokumi.Approval
use kokumi.Promotion.Gate.{Stage}
use kokumi.Promotion.History.{Entry, ongoing}
use kokumi.Vulnerability.Severity.{Severity, Summary}
use kokumi.Vulnerability.Evaluation.{Scan, Image, Assessment}
use kokumi.Serving.Status.{Condition, or_empty}
use kokumi.Prelude.{String, Bool, not, Option, none, some, List, [], ◌∷◌, ◌=?◌, if◌then◌else◌}

-- An image of a Preparation; `vendored` is "" for one that is not vendored.
pub record ReleaseImage : Type 0 where
  pub name : String
  pub ref : String
  pub digest : String
  pub vendored : String

-- VulnerabilityCheck; `max_age_seconds` is an int32.
pub record VulnerabilityCheck : Type 0 where
  pub max_severity : Severity
  pub ignore_unfixed : Bool
  pub max_age_seconds : ℤ

-- The fields of a Preparation that the reconciler reads. `check` is the vulnerability check of
-- `PromotionChecks`, and `approval` what internal/approval reads.
pub record Preparation : Type 0 where
  pub name : String
  pub ready : Option Condition
  pub digest : String
  pub oci_ref : String
  pub registry_ref : Option String
  pub product_revision : String
  pub target_namespace : String
  pub stages : List Stage
  pub check : Option VulnerabilityCheck
  pub images : List ReleaseImage
  pub approval : Approval.Preparation

-- ImageScan
pub record ImageScan : Type 0 where
  pub digest : String
  pub repository : String
  pub report : String
  pub scanned_time : Time
  pub summary : Summary

-- A Product, by the scans that its status records.
pub record Product : Type 0 where
  pub scans : List ImageScan

-- entryOf
unfoldable pub entry_of : Preparation → Entry
entry_of p = record {
  preparation = p.name;
  digest = p.digest;
  oci_ref = p.oci_ref;
  registry = or_empty p.registry_ref;
  product_revision = p.product_revision;
  started = 0;
  healthy = 0;
  ended = 0;
  end_reason = ongoing;
  promotion_record = "";
  deployment_record = "";
}

-- The map `scans` of `releaseImagesOf`, which a later scan of a digest overwrites.
unfoldable pub scan_of : String → List ImageScan → Option ImageScan → Option ImageScan
scan_of digest [] found = found
scan_of digest (s ∷ l) found = scan_of digest l (if s.digest =? digest then some s else found)

abbrev pub scan_from : Option ImageScan → Option Scan
scan_from none = none
scan_from (some s) = some (record {
  repository = s.repository;
  digest = s.digest;
  report = s.report;
  scanned_at = s.scanned_time;
  summary = s.summary;
})

unfoldable pub release_images_of : List ReleaseImage → Product → List Image
unfolding scan_of
release_images_of [] product = []
release_images_of (i ∷ l) product =
    record {
      name = if i.name =? "" then i.ref else i.name;
      digest = i.digest;
      vendored = not (i.vendored =? "");
      scan = scan_from (scan_of i.digest product.scans none);
    }
    ∷ release_images_of l product

-- ImageEvidence and VulnerabilitiesEvidence of internal/promotion/record.go.
pub record ImageEvidence : Type 0 where
  pub name : String
  pub digest : String
  pub report : String

pub record VulnerabilitiesEvidence : Type 0 where
  pub max_severity : Severity
  pub images : List ImageEvidence

-- The loop of `VulnerabilitiesEvidenceOf`.
unfoldable pub image_evidence : List Assessment → List ImageEvidence
image_evidence [] = []
image_evidence (a ∷ l) = elim a.image.scan [
  | none ↦ image_evidence l
  | some s ↦
      record { name = a.image.name; digest = a.image.digest; report = s.report } ∷ image_evidence l
]

unfoldable pub vulnerabilities_evidence_of : Severity → List Assessment → VulnerabilitiesEvidence
unfolding image_evidence
vulnerabilities_evidence_of max_severity l = record {
  max_severity = max_severity;
  images = image_evidence l;
}
