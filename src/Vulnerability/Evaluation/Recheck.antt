-- ===== src/Vulnerability/Evaluation/Recheck.antt =====
-- How long a passed vulnerability check holds (internal/vulnerability/evaluate.go).
use kokumi.Prelude.Int.{pos, pos_part}
use kokumi.Clock.{Time, Duration, sub, add, saturate, max_int64}
use kokumi.Vulnerability.Severity.{Check}
use kokumi.Vulnerability.Evaluation.{
  Assessment, Evaluated, failed, judged, Progress, Round, failing, going, note_left, check_image,
  after_round, conclude, evaluate_from, evaluate,
}
use kokumi.Vulnerability.Evaluation.Passed.{
  IsClear, passes, Clean, image-IsClear, rest-IsClear, evaluate-passes_iff,
}
use kokumi.Prelude.{
  ℕ, ◌+◌, ◌-◌, ◌≤◌, ◌<◌, ◌≡◌, refl, ap, ◌∙◌, ◌⊎◌, inl, inr, true, ◌||◌, List, [], ◌∷◌, arith, ltb,
  leb, ◌==◌, Bool-cases, All,
}

-- The time until the next check, as the verdict has it.
abbrev pub recheck_of : Evaluated → Duration
recheck_of (failed name m) = pos 0
recheck_of (judged v) = v.recheck

-- The image is clear until `now + d` at least.
abbrev Lasts : Check → Time → Duration → Assessment → Type 0
Lasts check now d a =
    (k : IsClear check now a) × (now + pos_part d ≤ add k.scan.scanned_at check.max_age)

left_positive : (t u : Time) → u < t → (n : ℕ) × (sub t u ≡ pos n) × (0 < n) × (u + n ≤ t)
unfolding sub saturate
left_positive t u h = elim (Bool-cases (leb (t - u) max_int64)) [
  | inl fits ↦ (t - u, ground (arith, fits), omega (arith, h), omega (arith, h))
  | inr over ↦ (max_int64, ground (arith, over, h), omega arith, ground (arith, over, h))
]

-- What is left is positive, so that a noted time is never taken for an unset one.
note_left-le :
    (left n : ℕ) (p : Progress)
    → 0 < left
    → p.recheck ≡ pos n
    → (m : ℕ) × ((note_left (pos left) p).recheck ≡ pos m)
      × (0 < m)
      × (m ≤ left)
      × ((n ≡ 0) ⊎ (m ≤ n))
note_left-le left n p h e = elim (Bool-cases (n == 0 || ltb left n)) [
  | inl new ↦ (left, ground (arith, e, new), h, omega arith, ground (arith, new))
  | inr old ↦
      (n, ground (arith, e, old), ground (arith, old), ground (arith, old), inr (omega arith))
]

conclude-recheck :
    (check : Check) (p : Progress)
    → Clean p
    → recheck_of (judged (conclude check p.missing p.stale p.blocking p.recheck)) ≡ p.recheck
unfolding conclude
conclude-recheck check p c = rw (c.0, c.1, c.2) refl

rest-Lasts :
    (check : Check) (now : Time) (l : List Assessment) (p : Progress) (n : ℕ)
    → p.recheck ≡ pos n
    → passes (evaluate_from check now l p) ≡ true
    → (m : ℕ) × (recheck_of (evaluate_from check now l p) ≡ pos m)
      × ((n ≡ 0) ⊎ (m ≤ n))
      × All (Lasts check now (pos m)) l
unfolding evaluate_from
rest-Lasts check now [] p n e h =
    (n, conclude-recheck check p (rest-IsClear check now [] p h).0 ∙ e, inr (omega arith), tt)
rest-Lasts check now (a ∷ l) p n e h =
    next_image (check_image check now a p) (λ q. rest-Lasts check now l q)
      (λ q. rest-IsClear check now l q) refl h
  where
    next_image :
        (r : Round)
        → ((q : Progress) (k : ℕ)
            → q.recheck ≡ pos k
            → passes (evaluate_from check now l q) ≡ true
            → (m : ℕ) × (recheck_of (evaluate_from check now l q) ≡ pos m)
              × ((k ≡ 0) ⊎ (m ≤ k))
              × All (Lasts check now (pos m)) l)
        → ((q : Progress)
            → passes (evaluate_from check now l q) ≡ true
            → Clean q × All (IsClear check now) l)
        → check_image check now a p ≡ r
        → passes (after_round r (λ q. evaluate_from check now l q)) ≡ true
        → (m : ℕ) × (recheck_of (after_round r (λ q. evaluate_from check now l q)) ≡ pos m)
          × ((n ≡ 0) ⊎ (m ≤ n))
          × All (Lasts check now (pos m)) (a ∷ l)
    next_image (failing name m) rest clean d h = absurd (cc h)
    next_image (going q) rest clean d h =
        let (before, k, t) = image-IsClear check now a p q d (clean q h).0 in
        let (left, le, lp, ll) =
          left_positive (add k.scan.scanned_at check.max_age) now k.is_fresh in
        let (m, me, mp, ml, mn) = note_left-le left n p lp e in
        let (r, re, rm, lasts) = rest q m (t ∙ ap (λ x. (note_left x p).recheck) le ∙ me) h in
        (r, re, omega (arith, rm, mn, mp), ((k, omega (arith, rm, mp, ml, ll)), lasts))

later-IsClear :
    (check : Check) (now t : Time) (m : ℕ) (l : List Assessment)
    → t < now + m
    → All (Lasts check now (pos m)) l
    → All (IsClear check t) l
later-IsClear check now t m [] h k = tt
later-IsClear check now t m (a ∷ l) h k = (
  record {
    is_vendored = k.0.0.is_vendored;
    is_pinned = k.0.0.is_pinned;
    scan = k.0.0.scan;
    is_scanned = k.0.0.is_scanned;
    is_fresh = omega (arith, h, k.0.1);
    is_readable = k.0.0.is_readable;
    none_blocks = k.0.0.none_blocks;
  },
  later-IsClear check now t m l h k.1,
)

-- A release that passes its vulnerability check passes it at any other time before its recheck is
-- due, as long as its scans and reports stay as they are.
pub evaluate_until_recheck :
    (l : List Assessment) (check : Check) (now t : Time)
    → passes (evaluate l check now) ≡ true
    → t < now + pos_part (recheck_of (evaluate l check now))
    → passes (evaluate l check t) ≡ true
unfolding evaluate
evaluate_until_recheck l check now t h b =
    let (m, e, u, lasts) = rest-Lasts check now l _ 0 refl h in
    (evaluate-passes_iff l check t).1 (later-IsClear check now t m l (ground (arith, b, e)) lasts)
