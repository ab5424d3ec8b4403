-- ===== src/Serving/Promote/Twice.antt =====
-- The two passes of a promotion (internal/controller/serving_controller.go, promote).
use kokumi.Prelude.Result.{ok}
use kokumi.Clock.{truncate_second}
use kokumi.Promotion.History.{
  History, Step, step_deployed, step_open, step_record, deployed, drop, next, open_entry, start,
}
use kokumi.Promotion.History.Invariant.{IsWell}
use kokumi.Promotion.History.Passes.{started, two_passes}
use kokumi.Serving.Approvals.{approved_by, gate, verify}
use kokumi.Serving.Checks.{checks}
use kokumi.Serving.Inputs.{Inputs, Upstreamed, ChecksVerdict}
use kokumi.Serving.Preparation.{Preparation, entry_of}
use kokumi.Serving.Promote.{
  is_current, is_target, take_step, start_promotion, promote_verified, promote_gated,
  promote_checked, promote_upstreamed, promote_with, promote, with_approved, with_verified,
}
use kokumi.Serving.Promote.Admitted.{IsAdmitted}
use kokumi.Serving.Status.{ServingStatus, history_of, apply_change}
use kokumi.Serving.Status.RoundTrip.{history_of-set_history}
use kokumi.Serving.Upstream.{upstream}
use kokumi.Prelude.{String, ◌≡◌, refl, ◌≢◌, true, ◌||◌, some, arith}

current_or_true : (step : Step) → (is_current step || true) ≡ true
current_or_true step_deployed = refl
current_or_true step_open = refl
current_or_true step_record = refl

module _ (w : Inputs) (p : Preparation) (h : History) (u : Upstreamed) (c : ChecksVerdict)
    (a : IsAdmitted w p h u c) where
  target_holds : (step : Step) → is_target step u c ≡ true
  target_holds step_deployed = refl
  target_holds step_open = ground (arith, a.upstream_satisfied, a.checks_passed)
  target_holds step_record = ground (arith, a.upstream_satisfied, a.checks_passed)

  gate_ok : gate w p true ≡ ok (approved_by p true a.approvals)
  unfolding gate
  gate_ok = rw a.approvals_ok refl

  verify_ok : (verify w).result ≡ ok true
  unfolding verify
  verify_ok = rw a.evidence_ok refl

  -- The last status before the step, on the way that an admitted Preparation takes.
  abbrev before_step : ServingStatus → ServingStatus
  before_step s = with_verified (verify w).change (
      with_approved (approved_by p true a.approvals) (record s {
        upstream_deployed = apply_change (upstream w p (drop h)).change s.upstream_deployed;
        checks_passed = apply_change (checks w p).change s.checks_passed;
      }))

  promote_with-admitted :
      (step : Step) (s : ServingStatus)
      → promote_with w p h step s ≡ take_step w p h u c step (before_step s)
  unfolding promote_with promote_upstreamed promote_checked promote_gated promote_verified
  promote_with-admitted step s = rw a.ready (
      rw a.upstream_ok (
        rw a.checks_ok (
          rw (target_holds step)
            (rw gate_ok (rw a.not_blocked (rw verify_ok (rw (current_or_true step) refl)))))))

  opened_by :
      (s : ServingStatus)
      → history_of (promote_with w p h step_open s).status.history
        ≡ open_entry (entry_of p) w.open_time h
  unfolding take_step
  opened_by s =
      rw (promote_with-admitted step_open s)
        (history_of-set_history (open_entry (entry_of p) w.open_time h) (before_step s))

  started_by :
      (r : String) (s : ServingStatus)
      → w.record_promotion h u c ≡ ok r
      → history_of (promote_with w p h step_record s).status.history ≡ start r h
  unfolding take_step start_promotion
  started_by r s e =
      rw (promote_with-admitted step_record s)
        (rw e (history_of-set_history (start r h) (before_step s)))

-- The history behind `promote`, on a status that holds this one.
abbrev after : Inputs → Preparation → History → ServingStatus → History
after w p h s = history_of (promote_with w p h (next p.name h) s).status.history

after_open :
    {w : Inputs} {p : Preparation} {h : History} {u : Upstreamed} {c : ChecksVerdict}
    → IsAdmitted w p h u c
    → (s : ServingStatus) → next p.name h ≡ step_open
    → after w p h s ≡ open_entry (entry_of p) w.open_time h
after_open {w} {p} {h} {u} {c} a s n = rw n (opened_by w p h u c a s)

after_record :
    {w : Inputs} {p : Preparation} {h : History} {u : Upstreamed} {c : ChecksVerdict}
    → IsAdmitted w p h u c
    → (r : String) (s : ServingStatus) → next p.name h ≡ step_record
    → w.record_promotion h u c ≡ ok r
    → after w p h s ≡ start r h
after_record {w} {p} {h} {u} {c} a r s n e = rw n (started_by w p h u c a r s e)

-- On a well-formed history whose next step for the candidate is to open: when the candidate passes
-- every gate in a pass, and again in the next one, whose promotion record the registry returns with a
-- digest that is not empty, then the first pass leaves the candidate pending, and behind the second
-- one the candidate is deployed, under that record, started at the time of the first pass and
-- running.
pub promote-twice :
    (w w' : Inputs) (p : Preparation) (s : ServingStatus) (r : String)
    → {u u' : Upstreamed} {c c' : ChecksVerdict} → IsWell (history_of s.history)
    → next p.name (history_of s.history) ≡ step_open
    → IsAdmitted w p (history_of s.history) u c
    → IsAdmitted w' p (open_entry (entry_of p) w.open_time (history_of s.history)) u' c'
    → w'.record_promotion (open_entry (entry_of p) w.open_time (history_of s.history)) u' c' ≡ ok r
    → r ≢ ""
    → (next p.name (history_of (promote w p s).status.history) ≡ step_record)
      × (deployed (history_of (promote w' p (promote w p s).status).status.history)
          ≡ some (started (entry_of p) (truncate_second w.open_time) r))
unfolding promote entry_of
promote-twice w w' p s r {u'} {c'} well n a b e full =
    let passes = two_passes (entry_of p) w.open_time r (history_of s.history) full well n in
    let first = after_open a s n in
    rw first (passes.0, rw (after_record {u = u'} {c = c'} b r _ passes.0 e) passes.2)
