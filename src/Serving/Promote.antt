-- ===== src/Serving/Promote.antt =====
-- `promote` and `targetPreparation` of internal/controller/serving_controller.go: the Preparation that
-- a Serving converges to, and the gates that it passes before it is deployed.
pub mod Admitted
pub mod Twice
use kokumi.Prelude.Result.{Result, err, ok}
use kokumi.Clock.{Duration, second, Time}
use kokumi.Prelude.Int.{pos}
use kokumi.Promotion.History.{
  History, Step, step_deployed, step_open, step_record, drop, next, open_entry, start,
}
use kokumi.Promotion.Release.{newest_ready}
use kokumi.Serving.Approvals.{Approved, gate, verify}
use kokumi.Serving.Checks.{checks}
use kokumi.Serving.Inputs.{ChecksVerdict, Upstreamed, Inputs, Gated}
use kokumi.Serving.Preparation.{Preparation, entry_of}
use kokumi.Serving.Status.{
  Fetched, fetched, missing, unread, is_unknown, Change, marked, apply_change, ServingStatus,
  history_of, set_history,
}
use kokumi.Serving.Targets.{has_status_true}
use kokumi.Serving.Upstream.{upstream, is_satisfied}
use kokumi.Prelude.{
  ℕ, zero, suc, ◌+◌, ◌-◌, ◌*◌, ◌/◌, ◌%◌, ◌^◌, ◌≤◌, ◌<◌, min, String, ◌≡◌, refl, sym, ap, ◌∙◌, ◌≢◌,
  ◌↔◌, ◌⊎◌, inl, inr, Bool, true, false, not, ◌&&◌, ◌||◌, Option, none, some, List, [], ◌∷◌, ◌++◌,
  map, arith, ltb, leb, ◌==◌, ◌=?◌, =?_iff, =?_refl, if◌then◌else◌, ltb→lt, leb→le, le→leb, lt→leb,
  Bool-cases, Option-cases, length, take, tail, any, All, All-take, length-take, take_all,
}

-- What holds a Preparation, by the text that says so.
pub data Hold : Type 0 where
  waiting_for_order waiting_for_promotion waiting_for_preparation : Hold
  waiting_for_ready_preparation waiting_for_preparations preparation_not_ready : Hold
  waiting_for_upstream_stages held_by_checks waiting_for_approvals : Hold
  waiting_for_evidence recording_promotion : Hold

-- What `promote` returns, an empty text being `none`, with the status it leaves.
pub record Promoted : Type 0 where
  pub status : ServingStatus
  pub result : Result (Duration × Option Hold)

abbrev pub history_pass_interval : Duration
history_pass_interval = pos second

abbrev pub is_current : Step → Bool
is_current step_deployed = true
is_current _ = false

abbrev pub failed_with : String → ServingStatus → Promoted
failed_with e s = record { status = s; result = err e }

-- `hold`, the function of `promote`.
unfoldable pub hold : History → Duration → Hold → ServingStatus → Promoted
hold h wait message s = record { status = set_history (drop h) s; result = ok (wait, some message) }

-- `promote` behind the record of the promotion.
unfoldable pub start_promotion : History → ChecksVerdict → Result String → ServingStatus → Promoted
start_promotion h c (err e) s = failed_with e s
start_promotion h c (ok r) s = record {
  status = set_history (start r h) s;
  result = ok (c.recheck, none);
}

-- The `switch` of `promote`, on a Preparation that is not deployed and whose evidence verified.
unfoldable pub take_step :
    Inputs → Preparation → History → Upstreamed → ChecksVerdict → Step → ServingStatus → Promoted
unfolding start_promotion
take_step w p h u c step_deployed s = record {
  status = set_history (drop h) s;
  result = ok (c.recheck, none);
}
take_step w p h u c step_open s = record {
  status = set_history (open_entry (entry_of p) w.open_time h) s;
  result = ok (history_pass_interval, some recording_promotion);
}
take_step w p h u c step_record s = start_promotion h c (w.record_promotion h u c) s

-- `promote` behind `verify`.
unfoldable pub promote_verified :
    Inputs
    → Preparation
    → History
    → Step
    → Upstreamed
    → ChecksVerdict
    → Result Bool
    → ServingStatus
    → Promoted
unfolding take_step hold
promote_verified w p h step u c (err e) s = failed_with e s
promote_verified w p h step u c (ok verified) s =
    if is_current step || verified
    then take_step w p h u c step s
    else hold h (pos 0) waiting_for_evidence s

abbrev pub with_verified : Change → ServingStatus → ServingStatus
with_verified c s = record s { verified = apply_change c s.verified }

abbrev pub with_approved : Approved → ServingStatus → ServingStatus
with_approved a s = record s {
  target_preparation_name = a.target_name;
  approved = apply_change a.change s.approved;
}

-- `promote` behind `gate`.
unfoldable pub promote_gated :
    Inputs
    → Preparation
    → History
    → Step
    → Upstreamed
    → ChecksVerdict
    → Bool
    → Result Approved
    → ServingStatus
    → Promoted
unfolding promote_verified hold
promote_gated w p h step u c target (err e) s = failed_with e s
promote_gated w p h step u c false (ok a) s =
    let pending = with_verified (marked is_unknown "Pending") (with_approved a s) in
    if not (is_satisfied u.outcome)
    then hold h u.requeue_after waiting_for_upstream_stages pending
    else hold h c.recheck held_by_checks pending
promote_gated w p h step u c true (ok a) s =
    if not a.passes && not (is_current step)
    then hold h (pos 0) waiting_for_approvals (with_approved a s)
    else promote_verified w p h step u c (verify w).result
        (with_verified (verify w).change (with_approved a s))

-- The variable `target` of `promote`.
abbrev pub is_target : Step → Upstreamed → ChecksVerdict → Bool
is_target step u c = is_current step || (is_satisfied u.outcome && c.passed)

-- `promote` behind `checks`.
unfoldable pub promote_checked :
    Inputs
    → Preparation
    → History
    → Step
    → Upstreamed
    → Result ChecksVerdict
    → ServingStatus
    → Promoted
unfolding promote_gated
promote_checked w p h step u (err e) s = failed_with e s
promote_checked w p h step u (ok c) s =
    promote_gated w p h step u c (is_target step u c) (gate w p (is_target step u c)) s

-- `promote` behind `upstream`.
unfoldable pub promote_upstreamed :
    Inputs → Preparation → History → Step → Result Upstreamed → ServingStatus → Promoted
unfolding promote_checked
promote_upstreamed w p h step (err e) s = failed_with e s
promote_upstreamed w p h step (ok u) s =
    promote_checked w p h step u (checks w p).result
      (record s { checks_passed = apply_change (checks w p).change s.checks_passed })

unfoldable pub promote_with : Inputs → Preparation → History → Step → ServingStatus → Promoted
unfolding promote_upstreamed hold
promote_with w p h step s =
    if not (has_status_true p.ready)
    then hold h (pos 0) preparation_not_ready (record s { target_preparation_name = "" })
    else promote_upstreamed w p h step (upstream w p (drop h)).result (record s {
      upstream_deployed = apply_change (upstream w p (drop h)).change s.upstream_deployed;
    })

unfoldable pub promote : Inputs → Preparation → ServingStatus → Promoted
unfolding promote_with
promote w p s = promote_with w p (history_of s.history) (next p.name (history_of s.history)) s
