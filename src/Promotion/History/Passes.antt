-- ===== src/Promotion/History/Passes.antt =====
-- The two passes of a promotion, and what a report of Argo CD does to the deployed entry
-- (internal/promotion/history.go).
use mathlib.Core.Path.{subst}
use kokumi.Promotion.History.{
  EndReason, Observation, Health, observe, observe_split, apply_change, observe_entry,
  split_deployed, unrecorded, record_deployment, step_open, step_record, step_deployed, deployed,
  pending, drop, prepend, fresh, Entry, History, next, open_entry, start, fresh, prepend, deployed,
  drop, step_open, pending, step_record, step_deployed, promoted, is_unrecorded,
}
use kokumi.Clock.{Time, truncate_second, truncate_second_pos, second}
use kokumi.Promotion.History.Invariant.{IsWell, IsSettled, drop-IsSettled}
use mathlib.Core.List.{Memᴰ}
use mathlib.Core.List.Memᴰ
use kokumi.Prelude.{
  ◌≡◌, take, ◌∷◌, ◌≢◌, false, suc, arith, some, =?_refl, true, length, =?_iff, ◌<◌, ℕ, ◌≤◌, String,
  All, ◌++◌, List, refl, sym, ◌⊎◌, inl, inr, [], Bool-cases,
}

-- The promotion of a candidate under a record: it started, and nothing else happened to it yet.
abbrev pub started : Entry → Time → String → Entry
started candidate at r = record candidate {
  started = at;
  healthy = 0;
  ended = 0;
  end_reason = EndReason.ongoing;
  promotion_record = r;
  deployment_record = "";
}

pub open_entry-cons :
    (candidate : Entry) (now : Time) (h : History)
    → open_entry candidate now h ≡ fresh candidate (truncate_second now) ∷ take 15 (drop h)
unfolding open_entry prepend
open_entry-cons candidate now h = refl

pub deployed-take : (n : ℕ) (h : History) → IsSettled h → deployed (take (suc n) h) ≡ deployed h
unfolding deployed
deployed-take n [] s = refl
deployed-take n (x ∷ h) s = ground arith

pub deployed-drop : (h : History) → deployed (drop h) ≡ deployed h
unfolding deployed drop pending
deployed-drop [] = refl
deployed-drop (e ∷ h) = ground arith

-- On a well-formed history, a candidate that is neither deployed nor pending is deployed after two
-- passes, under a record that is not empty: opening it makes recording its promotion the next step,
-- and starting it leaves nothing to do. The deployed entry is then the candidate under that record,
-- started at the first pass, not healthy yet, without an end and without a deployment record.
pub two_passes :
    (candidate : Entry) (now : Time) (r : String) (h : History)
    → r ≢ ""
    → IsWell h
    → next candidate.preparation h ≡ step_open
    → (next candidate.preparation (open_entry candidate now h) ≡ step_record)
      × (next candidate.preparation (start r (open_entry candidate now h)) ≡ step_deployed)
      × (deployed (start r (open_entry candidate now h))
          ≡ some (started candidate (truncate_second now) r))
unfolding next start deployed pending
two_passes candidate now r h n w s = rw open_entry-cons (
    ground (
      arith,
      =?_refl "",
      =?_iff r "",
      =?_refl candidate.preparation,
      deployed-take 14 (drop h) (drop-IsSettled h w.orderly),
      deployed-drop h,
    ))

-- An observation that reports no change returns the history it was given.
pub observe_unchanged :
    (o : Observation) (now : Time) (h : History)
    → (observe o now h).1 ≡ false
    → (observe o now h).0 ≡ h
unfolding observe observe_split apply_change
observe_unchanged o now h u = ground arith

-- An entry that ended degraded, and the one that opens when it is healthy again.
abbrev pub ended_degraded : Entry → Time → Entry
ended_degraded d at = record d { ended = at; end_reason = EndReason.degraded }

abbrev pub recovered : Entry → Time → Entry
recovered d at = record d {
  started = at;
  healthy = at;
  ended = 0;
  end_reason = EndReason.ongoing;
  deployment_record = "";
}

abbrev pub reported : Entry → Health → Observation
reported d health = record { revision = d.digest; health = health }

split_deployed-append :
    (before : List Entry) (d : Entry) (h : History)
    → All (λ e. promoted e ≡ false) before
    → promoted d ≡ true
    → split_deployed (before ++ d ∷ h) ≡ some (before, d, h)
unfolding split_deployed
split_deployed-append [] d h a p = rw p refl
split_deployed-append (e ∷ before) d h a p = rw (a.0, split_deployed-append before d h a.1 p) refl

observe_degrades :
    (before : List Entry) (d : Entry) (h : History) (now : Time)
    → All (λ e. promoted e ≡ false) before
    → promoted d ≡ true
    → d.ended ≡ 0
    → observe (reported d Health.degraded) now (before ++ d ∷ h)
      ≡ (before ++ ended_degraded d (truncate_second now) ∷ h, true)
unfolding observe observe_split apply_change observe_entry
observe_degrades before d h now a p r =
    rw (split_deployed-append before d h a p) (ground (arith, =?_refl d.digest))

observe_degraded :
    (before : List Entry) (x : Entry) (h : History) (now : Time)
    → All (λ e. promoted e ≡ false) before
    → promoted x ≡ true
    → 0 < x.ended
    → x.end_reason ≡ EndReason.degraded
    → observe (reported x Health.healthy) now (before ++ x ∷ h)
      ≡ (take 16 (before ++ recovered x (truncate_second now) ∷ x ∷ h), true)
unfolding observe observe_split apply_change observe_entry
observe_degraded before x h now a p r e =
    rw (split_deployed-append before x h a p) (ground (arith, =?_refl x.digest))

-- When the deployed entry, which no promoted entry stands before, runs and is reported degraded, from
-- a second after the zero time on, and then healthy, both at its digest: its entry ends degraded at
-- the first report, and a new one is deployed, started and healthy at the second report, with the
-- promotion record of the old one, no end and no deployment record. The old entry stays behind it, the
-- entries before it stay before, and as many of those behind it stay as the history has room for.
pub observe_recovers :
    (before : List Entry) (d : Entry) (h : History) (now later : Time)
    → All (λ e. promoted e ≡ false) before
    → promoted d ≡ true
    → d.ended ≡ 0
    → second ≤ now
    → observe
        (reported d Health.healthy)
        later
        (observe (reported d Health.degraded) now (before ++ d ∷ h)).0
      ≡ (
        take 16 (
            before
            ++ recovered d (truncate_second later) ∷ ended_degraded d (truncate_second now) ∷ h),
        true,
      )
observe_recovers before d h now later a p r t = rw (observe_degrades before d h now a p r) (
    observe_degraded before (ended_degraded d (truncate_second now)) h later a p
      (truncate_second_pos now t) refl)

unrecorded_le :
    (digest : String) (at : Time) (r : String) (h : History)
    → r ≢ ""
    → length (unrecorded (record_deployment digest at r h)) ≤ length (unrecorded h)
unfolding unrecorded record_deployment
unrecorded_le digest at r [] n = omega arith
unrecorded_le digest at r (x ∷ h) n = ground (arith, =?_iff r "", unrecorded_le digest at r h n)

unrecorded-cons :
    (e x : Entry) (h : History)
    → Memᴰ e (unrecorded (x ∷ h))
    → (x ≡ e) × (is_unrecorded x ≡ true) ⊎ Memᴰ e (unrecorded h)
unfolding unrecorded
unrecorded-cons e x h m = elim (Bool-cases (is_unrecorded x)) [
  | inl u ↦ elim (Memᴰ.cases_cons (rw u at m)) [
    | inl same ↦ inl (sym same, u)
    | inr later ↦ inr later
  ]
  | inr n ↦ inr (rw n at m)
]

recorded_head :
    (x : Entry) (r : String) (h : History)
    → r ≢ ""
    → is_unrecorded x ≡ true
    → length (unrecorded (record_deployment x.digest x.healthy r (x ∷ h)))
      < length (unrecorded (x ∷ h))
unfolding unrecorded record_deployment
recorded_head x r h n u =
    ground (arith, =?_iff r "", =?_refl x.digest, unrecorded_le x.digest x.healthy r h n)

recorded_tail :
    (digest : String) (at : Time) (x : Entry) (r : String) (h : History)
    → r ≢ ""
    → length (unrecorded (record_deployment digest at r h)) < length (unrecorded h)
    → length (unrecorded (record_deployment digest at r (x ∷ h))) < length (unrecorded (x ∷ h))
unfolding unrecorded record_deployment
recorded_tail digest at x r h n l = ground (arith, =?_iff r "")

-- Recording the deployment of an unrecorded entry leaves fewer unrecorded entries.
pub record_deployment_progress :
    (e : Entry) (r : String) (h : History)
    → r ≢ ""
    → Memᴰ e (unrecorded h)
    → length (unrecorded (record_deployment e.digest e.healthy r h)) < length (unrecorded h)
record_deployment_progress e r [] n m =
    let none_left : Memᴰ e [] = unfold unrecorded in m in absurd (Memᴰ.not-nil none_left)
record_deployment_progress e r (x ∷ h) n m = elim (unrecorded-cons e x h m) [
  | inl (same, u) ↦
      subst
        (λ (y : Entry).
          length (unrecorded (record_deployment y.digest y.healthy r (x ∷ h)))
          < length (unrecorded (x ∷ h)))
        same (recorded_head x r h n u)
  | inr later ↦ recorded_tail e.digest e.healthy x r h n (record_deployment_progress e r h n later)
]
