-- ===== src/Serving/Promote/Admitted.antt =====
-- What `promote` (internal/controller/serving_controller.go) does to the history of a Serving.
use kokumi.Prelude.Result.{Result, err, ok}
use kokumi.Approval
use kokumi.Clock.{Duration}
use kokumi.Prelude.Int.{pos}
use kokumi.Promotion.History.{
  History, Step, step_deployed, step_open, step_record, drop, next, open_entry, start,
}
use kokumi.Serving.Approvals.{Approved, gate, verify}
use kokumi.Serving.Checks.{checks}
use kokumi.Serving.Inputs.{ChecksVerdict, Upstreamed, Inputs, evidence_verified}
use kokumi.Serving.Preparation.{Preparation, entry_of}
use kokumi.Serving.Promote.{
  Hold, Promoted, hold, is_current, is_target, start_promotion, take_step, promote_verified,
  promote_gated, promote_checked, promote_upstreamed, promote_with, promote, with_approved,
  with_verified, waiting_for_evidence, marked, is_unknown, waiting_for_upstream_stages,
  held_by_checks, waiting_for_approvals, preparation_not_ready,
}
use kokumi.Serving.Status.{apply_change, ServingStatus, history_of, set_history}
use kokumi.Serving.Status.RoundTrip.{history_of-set_history}
use kokumi.Serving.Targets.{has_status_true}
use kokumi.Serving.Upstream.{upstream, is_satisfied}
use kokumi.Prelude.{
  String, ◌≡◌, refl, sym, ap, ◌∙◌, Bool, true, false, not, ◌&&◌, List, arith, if◌then◌else◌,
}

-- The Preparation passes every gate, on a Serving with this history, with these results.
pub record IsAdmitted (w : Inputs) (p : Preparation) (h : History) (u : Upstreamed)
    (c : ChecksVerdict) : Type 0 where
  pub ready : has_status_true p.ready ≡ true
  pub upstream_ok : (upstream w p (drop h)).result ≡ ok u
  pub upstream_satisfied : is_satisfied u.outcome ≡ true
  pub checks_ok : (checks w p).result ≡ ok c
  pub checks_passed : c.passed ≡ true
  pub approvals : List Approval.Approval
  pub approvals_ok : w.approvals ≡ ok approvals
  pub not_blocked : (Approval.gate p.approval approvals).blocked ≡ false
  pub evidence_ok : w.verify_evidence ≡ evidence_verified

-- The history behind `promote`, which was `h`.
pub data Advance (w : Inputs) (p : Preparation) (h : History) : History → Type 0 where
  stays : Advance w p h h
  drops : Advance w p h (drop h)
  opens :
      {u : Upstreamed} {c : ChecksVerdict}
      → IsAdmitted w p h u c
      → next p.name h ≡ step_open
      → Advance w p h (open_entry (entry_of p) w.open_time h)
  starts :
      {u : Upstreamed} {c : ChecksVerdict}
      → IsAdmitted w p h u c
      → next p.name h ≡ step_record
      → (r : String) → w.record_promotion h u c ≡ ok r
      → Advance w p h (start r h)

-- What `gate` passes on.
pub data IsApproved (w : Inputs) (p : Preparation) : Type 0 where
  approved_by :
      (l : List Approval.Approval)
      → w.approvals ≡ ok l
      → (Approval.gate p.approval l).blocked ≡ false
      → IsApproved w p

gate-IsApproved :
    (w : Inputs) (p : Preparation) (a : Approved)
    → gate w p true ≡ ok a
    → a.passes ≡ true
    → IsApproved w p
unfolding gate
gate-IsApproved w p a e passes = by_list w.approvals refl
  where
    by_list : (r : Result (List Approval.Approval)) → w.approvals ≡ r → IsApproved w p
    by_list (ok l) f = approved_by l f (ground (arith, e, f, passes))
    by_list (err m) f = ground (arith, e, f)

verify-evidence : (w : Inputs) → (verify w).result ≡ ok true → w.verify_evidence ≡ evidence_verified
unfolding verify
verify-evidence w e = ground (arith, e)

module _ (w : Inputs) (p : Preparation) (h : History) where
  abbrev Leaves : Promoted → Type 0
  Leaves o = Advance w p h (history_of o.status.history)

  unchanged-Leaves : {h' : History} → h' ≡ h → Advance w p h h'
  unchanged-Leaves e = rw e stays

  set-Leaves :
      (h' : History) (s : ServingStatus)
      → Advance w p h h'
      → Advance w p h (history_of (set_history h' s).history)
  set-Leaves h' s a = rw (history_of-set_history h' s) a

  hold-Leaves : (wait : Duration) (m : Hold) (s : ServingStatus) → Leaves (hold h wait m s)
  unfolding hold
  hold-Leaves wait m s = set-Leaves (drop h) s drops

  start-Leaves :
      (u : Upstreamed) (c : ChecksVerdict) (r : Result String) (s : ServingStatus)
      → history_of s.history ≡ h
      → next p.name h ≡ step_record
      → IsAdmitted w p h u c
      → w.record_promotion h u c ≡ r
      → Leaves (start_promotion h c r s)
  unfolding start_promotion
  start-Leaves u c (ok r) s e n a f = set-Leaves (start r h) s (starts a n r f)
  start-Leaves u c (err m) s e n a f = unchanged-Leaves e

  take-Leaves :
      (u : Upstreamed) (c : ChecksVerdict) (step : Step) (s : ServingStatus)
      → history_of s.history ≡ h
      → next p.name h ≡ step
      → (is_current step ≡ false → IsAdmitted w p h u c)
      → Leaves (take_step w p h u c step s)
  unfolding take_step
  take-Leaves u c step_deployed s e n a = set-Leaves (drop h) s drops
  take-Leaves u c step_open s e n a =
      set-Leaves (open_entry (entry_of p) w.open_time h) s (opens (a refl) n)
  take-Leaves u c step_record s e n a =
      start-Leaves u c (w.record_promotion h u c) s e n (a refl) refl

  verified-Leaves :
      (u : Upstreamed) (c : ChecksVerdict) (step : Step) (v : Result Bool) (s : ServingStatus)
      → history_of s.history ≡ h
      → next p.name h ≡ step
      → (is_current step ≡ false → v ≡ ok true → IsAdmitted w p h u c)
      → Leaves (promote_verified w p h step u c v s)
  unfolding promote_verified
  verified-Leaves u c step (err m) s e n a = unchanged-Leaves e
  verified-Leaves u c step_deployed (ok v) s e n a =
      take-Leaves u c step_deployed s e n (λ f. a f (ground (arith, f)))
  verified-Leaves u c step_open (ok true) s e n a = take-Leaves u c step_open s e n (λ f. a f refl)
  verified-Leaves u c step_open (ok false) s e n a = hold-Leaves (pos 0) waiting_for_evidence s
  verified-Leaves u c step_record (ok true) s e n a =
      take-Leaves u c step_record s e n (λ f. a f refl)
  verified-Leaves u c step_record (ok false) s e n a = hold-Leaves (pos 0) waiting_for_evidence s

  gated-Leaves :
      (u : Upstreamed) (c : ChecksVerdict) (step : Step) (target : Bool) (g : Result Approved)
      (s : ServingStatus)
      → history_of s.history ≡ h
      → next p.name h ≡ step
      → (is_current step ≡ false
          → target ≡ true
          → (a : Approved) → g ≡ ok a
          → a.passes ≡ true
          → (verify w).result ≡ ok true
          → IsAdmitted w p h u c)
      → Leaves (promote_gated w p h step u c target g s)
  unfolding promote_gated
  gated-Leaves u c step target (err m) s e n a = unchanged-Leaves e
  gated-Leaves u c step false (ok g) s e n a = by_outcome (is_satisfied u.outcome)
    where
      pending : ServingStatus
      pending = with_verified (marked is_unknown "Pending") (with_approved g s)

      by_outcome :
          (satisfied : Bool)
          → Leaves (
              if not satisfied
              then hold h u.requeue_after waiting_for_upstream_stages pending
              else hold h c.recheck held_by_checks pending)
      by_outcome true = hold-Leaves c.recheck held_by_checks pending
      by_outcome false = hold-Leaves u.requeue_after waiting_for_upstream_stages pending
  gated-Leaves u c step true (ok g) s e n a = by_verdict g.passes (is_current step) refl refl
    where
      by_verdict :
          (passes current : Bool)
          → g.passes ≡ passes
          → is_current step ≡ current
          → Leaves (
              if not passes && not current
              then hold h (pos 0) waiting_for_approvals (with_approved g s)
              else promote_verified w p h step u c
                  (verify w).result
                  (with_verified (verify w).change (with_approved g s)))
      by_verdict false false f k = hold-Leaves (pos 0) waiting_for_approvals (with_approved g s)
      by_verdict true current f k =
          verified-Leaves u c step (verify w).result
            (with_verified (verify w).change (with_approved g s)) e n (λ d v. a d refl g refl f v)
      by_verdict false true f k =
          verified-Leaves u c step (verify w).result
            (with_verified (verify w).change (with_approved g s)) e n (λ d v. ground (arith, d, k))

  checked-Leaves :
      (u : Upstreamed) (step : Step) (r : Result ChecksVerdict) (s : ServingStatus)
      → history_of s.history ≡ h
      → next p.name h ≡ step
      → (checks w p).result ≡ r
      → has_status_true p.ready ≡ true
      → (upstream w p (drop h)).result ≡ ok u
      → Leaves (promote_checked w p h step u r s)
  unfolding promote_checked
  checked-Leaves u step (err m) s e n k ready up = unchanged-Leaves e
  checked-Leaves u step (ok c) s e n k ready up =
      gated-Leaves u c step (is_target step u c) (gate w p (is_target step u c)) s e n
        (λ d t a g passes v.
          admitted a (is_satisfied u.outcome) c.passed refl refl (ground (arith, d, t))
            (ap (gate w p) (sym t) ∙ g) passes v)
    where
      admitted :
          (a : Approved) (satisfied passed : Bool)
          → is_satisfied u.outcome ≡ satisfied
          → c.passed ≡ passed
          → (satisfied && passed) ≡ true
          → gate w p true ≡ ok a
          → a.passes ≡ true
          → (verify w).result ≡ ok true
          → IsAdmitted w p h u c
      admitted a satisfied passed f g both approved passes v =
          by_approval (gate-IsApproved w p a approved passes)
        where
          by_approval : IsApproved w p → IsAdmitted w p h u c
          by_approval (approved_by l m o) = record {
            ready = ready;
            upstream_ok = up;
            upstream_satisfied = ground (arith, f, both);
            checks_ok = k;
            checks_passed = ground (arith, g, both);
            approvals = l;
            approvals_ok = m;
            not_blocked = o;
            evidence_ok = verify-evidence w v;
          }

  upstreamed-Leaves :
      (step : Step) (r : Result Upstreamed) (s : ServingStatus)
      → history_of s.history ≡ h
      → next p.name h ≡ step
      → (upstream w p (drop h)).result ≡ r
      → has_status_true p.ready ≡ true
      → Leaves (promote_upstreamed w p h step r s)
  unfolding promote_upstreamed
  upstreamed-Leaves step (err m) s e n k ready = unchanged-Leaves e
  upstreamed-Leaves step (ok u) s e n k ready =
      checked-Leaves u step (checks w p).result
        (record s { checks_passed = apply_change (checks w p).change s.checks_passed }) e n refl
        ready k

  leaves :
      (step : Step) (s : ServingStatus)
      → history_of s.history ≡ h
      → next p.name h ≡ step
      → Leaves (promote_with w p h step s)
  unfolding promote_with
  leaves step s e n = by_ready (has_status_true p.ready) refl
    where
      noted : ServingStatus
      noted = record s {
        upstream_deployed = apply_change (upstream w p (drop h)).change s.upstream_deployed;
      }

      by_ready :
          (ready : Bool)
          → has_status_true p.ready ≡ ready
          → Leaves (
              if not ready
              then hold h (pos 0) preparation_not_ready (record s { target_preparation_name = "" })
              else promote_upstreamed w p h step (upstream w p (drop h)).result noted)
      by_ready false f =
          hold-Leaves (pos 0) preparation_not_ready (record s { target_preparation_name = "" })
      by_ready true f = upstreamed-Leaves step (upstream w p (drop h)).result noted e n refl f

-- `promote` does one of four things to the history of a Serving: it leaves it as it is, it drops a
-- pending entry, it opens a pending entry for the candidate, or it starts the pending entry with the
-- record of the promotion that the registry returned. It opens only on a history whose next step for
-- the candidate is to open, and starts only where the next step is to record. And it does these two
-- only when the candidate is Ready, its upstream gate is satisfied, its checks pass, its approval
-- gate does not block, and its evidence verifies.
pub promote-Advance :
    (w : Inputs) (p : Preparation) (s : ServingStatus)
    → Advance w p (history_of s.history) (history_of (promote w p s).status.history)
unfolding promote
promote-Advance w p s =
    leaves w p (history_of s.history) (next p.name (history_of s.history)) s refl refl
