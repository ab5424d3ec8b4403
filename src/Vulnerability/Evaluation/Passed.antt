-- ===== src/Vulnerability/Evaluation/Passed.antt =====
-- When a release passes its vulnerability check (internal/vulnerability/evaluate.go).
use mathlib.Core.List.{Memᴰ}
use mathlib.Core.List.Memᴰ
use mathlib.Core.Path.{subst}
use kokumi.Prelude.Int.{pos, leb_ℤ}
use kokumi.Clock.{Time, Duration, sub, add, saturate}
use kokumi.Vulnerability.Severity.{Finding, Check, blocking}
use kokumi.Vulnerability.Severity.Counts.{IsBlocking, mem-blocking}
use kokumi.Vulnerability.Evaluation.{
  Scan, ReadError, unreadable, unexpected, Assessment, passed, Evaluated, failed, judged, Missing,
  Progress, Round, failing, going, note_left, read_report, check_scan, check_image, after_round,
  conclude, evaluate_from, evaluate,
}
use kokumi.Prelude.{
  ◌<◌, String, ◌≡◌, refl, sym, ap, ◌∙◌, ◌≢◌, ◌↔◌, inl, inr, Bool, true, false, not, ◌||◌, Option,
  none, some, List, [], ◌∷◌, ◌++◌, arith, leb, ◌=?◌, =?_iff, if◌then◌else◌, Bool-cases, All,
}

-- The image is vendored and pinned, its scan is recent enough, and the report of it is readable and
-- has no finding that blocks.
pub record IsClear (check : Check) (now : Time) (a : Assessment) : Type 0 where
  pub is_vendored : a.image.vendored ≡ true
  pub is_pinned : a.image.digest ≢ ""
  pub scan : Scan
  pub is_scanned : a.image.scan ≡ some scan
  pub is_fresh : now < add scan.scanned_at check.max_age
  pub is_readable : a.error ≡ none
  pub none_blocks : (f : Finding) → Memᴰ f a.findings → ¬ IsBlocking check f

abbrev pub passes : Evaluated → Bool
passes (failed name m) = false
passes (judged v) = elim v.outcome [ passed ↦ true | _ ↦ false ]

-- Nothing was found to hold the release.
abbrev pub Clean : Progress → Type 0
Clean p = (p.missing ≡ []) × (p.stale ≡ []) × (p.blocking ≡ [])

append-nil : {A : Type 0} (xs ys : List A) → xs ++ ys ≡ [] → (xs ≡ []) × (ys ≡ [])
append-nil [] ys h = (refl, h)
append-nil (x ∷ xs) ys h = absurd (cc h)

append-ne-nil : {A : Type 0} (xs : List A) (x : A) → xs ++ x ∷ [] ≢ []
append-ne-nil [] x h = cc h
append-ne-nil (y ∷ xs) x h = cc h

abbrev progress_of : Progress → Round → Progress
progress_of p (failing name m) = p
progress_of p (going q) = q

going-inj : (p q : Progress) → going p ≡ going q → p ≡ q
going-inj p q e = ap (progress_of p) e

none_blocks-nil :
    (check : Check) (fs : List Finding)
    → (blocking fs check ≡ []) ↔ ((f : Finding) → Memᴰ f fs → ¬ IsBlocking check f)
none_blocks-nil check fs = (
  λ e f m b. Memᴰ.not-nil (subst (Memᴰ f) e ((mem-blocking f fs check).1 (m, b))),
  λ n. empty (blocking fs check) (λ f m. let (h, b) = (mem-blocking f fs check).0 m in n f h b),
)
  where
    empty : (gs : List Finding) → ((f : Finding) → Memᴰ f gs → ⊥) → gs ≡ []
    empty [] n = refl
    empty (g ∷ gs) n = absurd (n g (Memᴰ.head refl))

-- A round that leaves nothing to hold the release found nothing, and read the report.
report_clear :
    (check : Check) (a : Assessment) (p q : Progress) (error : Option ReadError)
    → read_report check a p error ≡ going q
    → Clean q
    → Clean p × (error ≡ none) × (blocking a.findings check ≡ []) × (q.recheck ≡ p.recheck)
unfolding read_report
report_clear check a p q none h c =
    let e = going-inj _ q h in
    let (old, new) =
      append-nil p.blocking (blocking a.findings check) (ap (λ x. x.blocking) e ∙ c.2) in
    (
      (ap (λ x. x.missing) e ∙ c.0, ap (λ x. x.stale) e ∙ c.1, old),
      refl,
      new,
      sym (ap (λ x. x.recheck) e),
    )
report_clear check a p q (some (unreadable m)) h c =
    absurd (append-ne-nil p.missing _ (ap (λ x. x.missing) (going-inj _ q h) ∙ c.0))
report_clear check a p q (some (unexpected m)) h c = absurd (cc h)

taken : {A : Type 0} {b : Bool} {z : A} (x y : A) → b ≡ true → (if b then x else y) ≡ z → x ≡ z
taken {A} {b} {z} x y h e = subst (λ c. (if c then x else y) ≡ z) h e

passed_over :
    {A : Type 0} {b : Bool} {z : A} (x y : A) → b ≡ false → (if b then x else y) ≡ z → y ≡ z
passed_over {A} {b} {z} x y h e = subst (λ c. (if c then x else y) ≡ z) h e

sub_le_zero : (t u : Time) → leb_ℤ (sub t u) (pos 0) ≡ leb t u
unfolding sub saturate
sub_le_zero t u = ground arith

abbrev pub left_of : Check → Time → Scan → Duration
left_of check now s = sub (add s.scanned_at check.max_age) now

scan_clear :
    (check : Check) (now : Time) (a : Assessment) (p q : Progress) (scan : Option Scan)
    → check_scan check now a p scan ≡ going q
    → Clean q
    → Clean p
      × (s : Scan) × (scan ≡ some s)
      × (now < add s.scanned_at check.max_age)
      × (a.error ≡ none)
      × (blocking a.findings check ≡ [])
      × (q.recheck ≡ (note_left (left_of check now s) p).recheck)
unfolding check_scan
scan_clear check now a p q none h c =
    absurd (append-ne-nil p.missing _ (ap (λ x. x.missing) (going-inj _ q h) ∙ c.0))
scan_clear check now a p q (some s) h c = elim (Bool-cases (leb_ℤ (left_of check now s) (pos 0))) [
  | inl old ↦
      let stale = taken _ _ old h in
      absurd (append-ne-nil p.stale _ (ap (λ x. x.stale) (going-inj _ q stale) ∙ c.1))
  | inr fresh ↦
      let read = passed_over _ _ fresh h in
      let (clean, r, b, e) =
        report_clear check a (note_left (left_of check now s) p) q a.error read c in
      (
        note_left_clean (left_of check now s) p clean,
        s,
        refl,
        ground (arith, fresh, sub_le_zero (add s.scanned_at check.max_age) now),
        r,
        b,
        e,
      )
]
  where
    note_left_clean : (left : Duration) (p : Progress) → Clean (note_left left p) → Clean p
    note_left_clean left p k = ground (arith, k)

pub image-IsClear :
    (check : Check) (now : Time) (a : Assessment) (p q : Progress)
    → check_image check now a p ≡ going q
    → Clean q
    → Clean p
      × (k : IsClear check now a) × (q.recheck ≡ (note_left (left_of check now k.scan) p).recheck)
unfolding check_image
image-IsClear check now a p q h c =
    elim (Bool-cases (not a.image.vendored || (a.image.digest =? ""))) [
      | inl other ↦
          let m = taken _ _ other h in
          absurd (append-ne-nil p.missing _ (ap (λ x. x.missing) (going-inj _ q m) ∙ c.0))
      | inr own ↦
          let m = passed_over _ _ own h in
          let (clean, s, e, l, r, b, t) = scan_clear check now a p q a.image.scan m c in
          (
            clean,
            record {
              is_vendored = ground (arith, own);
              is_pinned = ground (arith, own, =?_iff a.image.digest "");
              scan = s;
              is_scanned = e;
              is_fresh = l;
              is_readable = r;
              none_blocks = (none_blocks-nil check a.findings).0 b;
            },
            t,
          )
    ]

-- The converse: an image that is clear is passed over.
clear_image :
    (check : Check) (now : Time) (a : Assessment) (p : Progress)
    → IsClear check now a
    → Clean p
    → (q : Progress) × (check_image check now a p ≡ going q) × Clean q
unfolding check_image check_scan read_report
clear_image check now a p k c =
    let b = (none_blocks-nil check a.findings).1 k.none_blocks in
    let fresh : leb_ℤ (left_of check now k.scan) (pos 0) ≡ false =
      ground (arith, k.is_fresh, sub_le_zero (add k.scan.scanned_at check.max_age) now) in
    let own : (not a.image.vendored || (a.image.digest =? "")) ≡ false =
      ground (arith, k.is_vendored, k.is_pinned, =?_iff a.image.digest "") in
    let p' = note_left (left_of check now k.scan) p in
    let e1 : check_image check now a p ≡ check_scan check now a p a.image.scan = rw own refl in
    let e3 : check_scan check now a p (some k.scan) ≡ read_report check a p' a.error =
      rw fresh refl in
    (
      record p' { blocking = p'.blocking ++ blocking a.findings check },
      e1
          ∙ ap (check_scan check now a p) k.is_scanned
          ∙ e3
          ∙ ap (read_report check a p') k.is_readable,
      ground (arith, c, b),
    )

conclude-Clean :
    (check : Check) (p : Progress)
    → passes (judged (conclude check p.missing p.stale p.blocking p.recheck)) ≡ true
    → Clean p
unfolding conclude
conclude-Clean check p h = by_lists p.missing p.stale p.blocking h
  where
    by_lists :
        (m : List Missing) (s : List (String × Time)) (f : List Finding)
        → passes (judged (conclude check m s f p.recheck)) ≡ true
        → (m ≡ []) × (s ≡ []) × (f ≡ [])
    by_lists [] [] [] h = (refl, refl, refl)
    by_lists [] [] (f ∷ fs) h = absurd (cc h)
    by_lists [] (s ∷ ss) f h = absurd (cc h)
    by_lists (m ∷ ms) s f h = absurd (cc h)

Clean-conclude :
    (check : Check) (p : Progress)
    → Clean p
    → passes (judged (conclude check p.missing p.stale p.blocking p.recheck)) ≡ true
unfolding conclude
Clean-conclude check p c = rw (c.0, c.1, c.2) refl

-- The loop over the rest of the images.
pub rest-IsClear :
    (check : Check) (now : Time) (l : List Assessment) (p : Progress)
    → passes (evaluate_from check now l p) ≡ true
    → Clean p × All (IsClear check now) l
unfolding evaluate_from
rest-IsClear check now [] p h = (conclude-Clean check p h, tt)
rest-IsClear check now (a ∷ l) p h =
    next_image (check_image check now a p) (λ q. rest-IsClear check now l q) refl h
  where
    next_image :
        (r : Round)
        → ((q : Progress)
            → passes (evaluate_from check now l q) ≡ true
            → Clean q × All (IsClear check now) l)
        → check_image check now a p ≡ r
        → passes (after_round r (λ q. evaluate_from check now l q)) ≡ true
        → Clean p × All (IsClear check now) (a ∷ l)
    next_image (failing name m) rest e h = absurd (cc h)
    next_image (going q) rest e h =
        let (clean, later) = rest q h in
        let (before, k, t) = image-IsClear check now a p q e clean in (before, (k, later))

clear_rest :
    (check : Check) (now : Time) (l : List Assessment) (p : Progress)
    → Clean p
    → All (IsClear check now) l
    → passes (evaluate_from check now l p) ≡ true
unfolding evaluate_from
clear_rest check now [] p c k = Clean-conclude check p c
clear_rest check now (a ∷ l) p c k =
    let (q, e, d) = clear_image check now a p k.0 c in
    ap (λ r. passes (after_round r (λ x. evaluate_from check now l x))) e
    ∙ clear_rest check now l q d k.1

-- A release passes its vulnerability check exactly when every image is vendored and pinned to a
-- digest, has a scan that is younger than the check's age, and a readable report without a finding
-- that blocks.
pub evaluate-passes_iff :
    (l : List Assessment) (check : Check) (now : Time)
    → (passes (evaluate l check now) ≡ true) ↔ All (IsClear check now) l
unfolding evaluate
evaluate-passes_iff l check now =
    (λ h. (rest-IsClear check now l _ h).1, λ k. clear_rest check now l _ (refl, refl, refl) k)
