-- ===== src/Vulnerability/Evaluation.antt =====
-- internal/vulnerability/evaluate.go: the vulnerability check of a release over the scans of its
-- images. A message is the data that its text is made of.
pub mod Passed
pub mod Recheck
use kokumi.Prelude.Int.{ℤ, pos, negsuc, ltb_ℤ, leb_ℤ}
use kokumi.Clock.{Time, Duration, sub, add}
use kokumi.Vulnerability.Severity.{
  Severity, Finding, Summary, Check, no_findings, add_summary, blocking,
}
use kokumi.Prelude.{
  ℕ, zero, suc, ◌+◌, ◌-◌, ◌*◌, ◌/◌, ◌%◌, ◌^◌, ◌≤◌, ◌<◌, min, String, ◌≡◌, refl, sym, ap, ◌∙◌, ◌≢◌,
  ◌↔◌, ◌⊎◌, inl, inr, Bool, true, false, not, ◌&&◌, ◌||◌, Option, none, some, List, [], ◌∷◌, ◌++◌,
  map, arith, ltb, leb, ◌==◌, ◌=?◌, =?_iff, =?_refl, if◌then◌else◌, ltb→lt, leb→le, le→leb, lt→leb,
  Bool-cases, Option-cases, length, take, tail, any, All, All-take, length-take, take_all,
}

pub record Scan : Type 0 where
  pub repository : String
  pub digest : String
  pub report : String
  pub scanned_at : Time
  pub summary : Summary

pub record Image : Type 0 where
  pub name : String
  pub digest : String
  pub vendored : Bool
  pub scan : Option Scan

-- An error that `Unreadable` marked, or another one, with its message.
pub data ReadError : Type 0 where
  unreadable : String → ReadError
  unexpected : String → ReadError

pub record Assessment : Type 0 where
  pub image : Image
  pub findings : List Finding
  pub error : Option ReadError

pub data Outcome : Type 0 where
  scan_missing scan_stale vulnerabilities_found passed : Outcome

-- Why an image has no verified scan, with its name.
pub data Missing : Type 0 where
  not_vendored : String → Missing
  not_scanned : String → Missing
  not_readable : String → String → Missing

pub data Message : Type 0 where
  no_verified_scan : List Missing → Message
  older_than : Duration → List (String × Time) → Message
  found_at : Severity → List Finding → Message
  none_at : Severity → Message

pub record Verdict : Type 0 where
  pub outcome : Outcome
  pub message : Message
  pub blocking : List Finding
  pub recheck : Duration

-- `Evaluate` returns an error, of the image named, or a verdict.
pub data Evaluated : Type 0 where
  failed : String → String → Evaluated
  judged : Verdict → Evaluated

-- The variables of the loop of `Evaluate`.
pub record Progress : Type 0 where
  pub missing : List Missing
  pub stale : List (String × Time)
  pub blocking : List Finding
  pub recheck : Duration

pub data Round : Type 0 where
  failing : String → String → Round
  going : Progress → Round

abbrev pub note_missing : Missing → Progress → Round
note_missing m p = going (record p { missing = p.missing ++ m ∷ [] })

abbrev pub is_unset : Duration → Bool
is_unset (pos n) = n == 0
is_unset (negsuc n) = false

abbrev pub note_left : Duration → Progress → Progress
note_left left p =
    if is_unset p.recheck || ltb_ℤ left p.recheck then record p { recheck = left } else p

unfoldable pub read_report : Check → Assessment → Progress → Option ReadError → Round
read_report check a p none = going (record p { blocking = p.blocking ++ blocking a.findings check })
read_report check a p (some (unreadable m)) = note_missing (not_readable a.image.name m) p
read_report check a p (some (unexpected m)) = failing a.image.name m

unfoldable pub check_scan : Check → Time → Assessment → Progress → Option Scan → Round
unfolding read_report
check_scan check now a p none = note_missing (not_scanned a.image.name) p
check_scan check now a p (some s) =
    let left = sub (add s.scanned_at check.max_age) now in
    if leb_ℤ left (pos 0)
    then going (record p { stale = p.stale ++ (a.image.name, s.scanned_at) ∷ [] })
    else read_report check a (note_left left p) a.error

-- The body of the loop.
unfoldable pub check_image : Check → Time → Assessment → Progress → Round
unfolding check_scan
check_image check now a p =
    if not a.image.vendored || (a.image.digest =? "")
    then note_missing (not_vendored a.image.name) p
    else check_scan check now a p a.image.scan

-- The `switch` behind the loop.
unfoldable pub conclude :
    Check → List Missing → List (String × Time) → List Finding → Duration → Verdict
conclude check (m ∷ ms) stale found recheck = record {
  outcome = scan_missing;
  message = no_verified_scan (m ∷ ms);
  blocking = [];
  recheck = pos 0;
}
conclude check [] (s ∷ ss) found recheck = record {
  outcome = scan_stale;
  message = older_than check.max_age (s ∷ ss);
  blocking = [];
  recheck = pos 0;
}
conclude check [] [] (f ∷ fs) recheck = record {
  outcome = vulnerabilities_found;
  message = found_at check.max_severity (f ∷ fs);
  blocking = f ∷ fs;
  recheck = pos 0;
}
conclude check [] [] [] recheck = record {
  outcome = passed;
  message = none_at check.max_severity;
  blocking = [];
  recheck = recheck;
}

-- An error ends the loop.
abbrev pub after_round : Round → (Progress → Evaluated) → Evaluated
after_round (failing name m) rest = failed name m
after_round (going q) rest = rest q

unfoldable pub evaluate_from : Check → Time → List Assessment → Progress → Evaluated
unfolding check_image conclude
evaluate_from check now [] p = judged (conclude check p.missing p.stale p.blocking p.recheck)
evaluate_from check now (a ∷ l) p =
    after_round (check_image check now a p) (λ q. evaluate_from check now l q)

unfoldable pub evaluate : List Assessment → Check → Time → Evaluated
unfolding evaluate_from
evaluate l check now =
    evaluate_from check now l (record { missing = []; stale = []; blocking = []; recheck = pos 0 })

-- The loop of `Total`.
unfoldable pub total_from : List Image → Summary → Bool → Summary × Bool
unfolding add_summary
total_from [] total scanned = (total, scanned)
total_from (i ∷ l) total scanned = elim i.scan [
  | none ↦ total_from l total scanned
  | some s ↦
      if i.vendored
      then total_from l (add_summary total s.summary) true
      else total_from l total scanned
]

unfoldable pub total : List Image → Summary × Bool
unfolding total_from
total l = total_from l no_findings false
