-- ===== src/Promotion/History/Invariant.antt =====
-- What holds of a history (internal/promotion/history.go) between two of its operations.
use kokumi.Prelude.{
  ℕ, zero, suc, ◌≤◌, ◌<◌, String, ◌≡◌, refl, ◌≢◌, ◌⊎◌, inl, inr, true, false, [], ◌∷◌, arith,
  length, take, All, All-take, length-take, =?_iff, =?_refl, ap, Bool-cases, some, none, ◌=?◌,
  if◌then◌else◌, ◌&&◌, ◌==◌,
}
use kokumi.Clock.{Time, second, truncate_second_pos}
use kokumi.Promotion.History.{
  write, insert, keep, Change, apply_change, observe_entry, split_deployed, ongoing, Entry, History,
  running, promoted, max_entries, pending, drop, prepend, open_entry, supersede, start, Observation,
  Health, observe, record_deployment, observe_split, Change, observe_entry, apply_change, write,
  insert,
}

-- An entry behind the deployed one: recorded and over.
abbrev pub IsPast : Entry → Type 0
IsPast e = (promoted e ≡ true) × (running e ≡ false)

-- A promotion that is being recorded.
pub record IsPending (e : Entry) : Type 0 where
  pub unrecorded : promoted e ≡ false
  pub not_ended : e.ended ≡ 0
  pub not_healthy : e.healthy ≡ 0

-- The deployed entry first, and only past ones behind it.
abbrev pub IsSettled : History → Type 0
IsSettled [] = Unit
IsSettled (d ∷ h) = (promoted d ≡ true) × All IsPast h

-- At most the first entry is pending, and at most the deployed one of the others runs.
abbrev pub IsOrderly : History → Type 0
IsOrderly [] = Unit
IsOrderly (e ∷ h) = (promoted e ≡ true) × All IsPast h ⊎ IsPending e × IsSettled h

-- An entry has started, has an end reason exactly when it is over, and has a deployment record only
-- if it was healthy.
pub record IsCoherent (e : Entry) : Type 0 where
  pub has_started : 0 < e.started
  pub open_ended : e.ended ≡ 0 → e.end_reason ≡ ongoing
  pub closed_ended : 0 < e.ended → e.end_reason ≢ ongoing
  pub recorded_healthy : e.deployment_record ≢ "" → 0 < e.healthy

pub record IsWell (h : History) : Type 0 where
  pub fits : length h ≤ max_entries
  pub orderly : IsOrderly h
  pub coherent : All IsCoherent h

pub drop-IsSettled : (h : History) → IsOrderly h → IsSettled (drop h)
unfolding drop pending
drop-IsSettled [] o = tt
drop-IsSettled (e ∷ []) o = ground arith
drop-IsSettled (e ∷ d ∷ h) o = ground arith

drop-IsCoherent : (h : History) → All IsCoherent h → All IsCoherent (drop h)
unfolding drop pending
drop-IsCoherent [] c = tt
drop-IsCoherent (e ∷ h) c = ground arith

IsSettled-take : (n : ℕ) (h : History) → IsSettled h → IsSettled (take n h)
IsSettled-take zero h s = tt
IsSettled-take (suc n) [] s = tt
IsSettled-take (suc n) (d ∷ h) s = (s.0, All-take IsPast n h s.1)

-- Opening a promotion keeps the invariant.
pub open_entry-IsWell :
    (candidate : Entry) (now : Time) (h : History)
    → second ≤ now
    → IsWell h
    → IsWell (open_entry candidate now h)
unfolding open_entry prepend
open_entry-IsWell candidate now h t w = record {
  fits = omega (arith, length-take {0} 15 (drop h));
  orderly = inr (
    record { unrecorded = ground (arith, =?_refl ""); not_ended = refl; not_healthy = refl },
    IsSettled-take 15 (drop h) (drop-IsSettled h w.orderly),
  );
  coherent = (
    record {
      has_started = truncate_second_pos now t;
      open_ended = λ _. refl;
      closed_ended = λ p. elim p [ ];
      recorded_healthy = λ n. absurd (n refl);
    },
    All-take IsCoherent 15 (drop h) (drop-IsCoherent h w.coherent),
  );
}

-- Dropping the pending promotion keeps the invariant.
pub drop-IsWell : (h : History) → IsWell h → IsWell (drop h)
unfolding drop pending
drop-IsWell [] w = w
drop-IsWell (e ∷ []) w = ground arith
drop-IsWell (e ∷ d ∷ h) w = ground arith

-- The deployed entry is the only one that `Start` ends.
supersede_settled :
    (at : Time) (h : History)
    → 0 < at
    → IsSettled h
    → All IsCoherent h
    → (length (supersede at h) ≡ length h)
      × All IsPast (supersede at h)
      × All IsCoherent (supersede at h)
unfolding supersede
supersede_settled at [] p s c = (refl, tt, tt)
supersede_settled at (d ∷ h) p s c = ground arith

-- Starting the pending promotion under a record keeps the invariant.
pub start-IsWell : (r : String) (h : History) → r ≢ "" → IsWell h → IsWell (start r h)
unfolding start
start-IsWell r [] n w = w
start-IsWell r (p ∷ h) n w = ground (arith, =?_iff r "", supersede_settled p.started h)

-- What a change at the deployed entry keeps.
abbrev Fits : Entry → Change → Type 0
Fits d (write e) = (promoted e ≡ true) × IsCoherent e
Fits d (insert r) = (promoted r ≡ true) × IsCoherent r × (running d ≡ false)
Fits d keep = Unit

observe_entry-Fits :
    (health : Health) (now : Time) (d : Entry)
    → 0 < now
    → promoted d ≡ true
    → IsCoherent d
    → Fits d (observe_entry health now d)
unfolding observe_entry
observe_entry-Fits Health.progressing now d t p c = ground arith
observe_entry-Fits Health.healthy now d t p c = ground arith
observe_entry-Fits Health.degraded now d t p c = ground arith

-- A change of the deployed entry behind no other, and behind a pending one.
apply_change-IsWell :
    (c : Change) (d : Entry) (h : History)
    → Fits d c
    → promoted d ≡ true
    → IsWell (d ∷ h)
    → IsWell (apply_change c [] d h (d ∷ h)).0
unfolding apply_change
apply_change-IsWell (write e) d h f p w = ground arith
apply_change-IsWell (insert r) d h f p w =
    ground
      (arith, length-take {0} 14 h, All-take IsPast 14 h, All-take IsCoherent 14 h w.coherent.1)
apply_change-IsWell keep d h f p w = w

apply_change_behind-IsWell :
    (c : Change) (e d : Entry) (h : History)
    → Fits d c
    → promoted e ≡ false
    → IsWell (e ∷ d ∷ h)
    → IsWell (apply_change c (e ∷ []) d h (e ∷ d ∷ h)).0
unfolding apply_change
apply_change_behind-IsWell (write x) e d h f p w = ground arith
apply_change_behind-IsWell (insert r) e d h f p w =
    ground
      (arith, length-take {0} 13 h, All-take IsPast 13 h, All-take IsCoherent 13 h w.coherent.1.1)
apply_change_behind-IsWell keep e d h f p w = w

pub split_first :
    (e : Entry) (h : History) → promoted e ≡ true → split_deployed (e ∷ h) ≡ some ([], e, h)
unfolding split_deployed
split_first e h p = rw p

pub split_second :
    (e d : Entry) (h : History)
    → promoted e ≡ false
    → promoted d ≡ true
    → split_deployed (e ∷ d ∷ h) ≡ some (e ∷ [], d, h)
unfolding split_deployed
split_second e d h n p = rw n (rw p)

pub split_pending : (e : Entry) → promoted e ≡ false → split_deployed (e ∷ []) ≡ none
unfolding split_deployed
split_pending e n = rw n

observe_split-IsWell :
    (o : Observation) (at : Time) (before : History) (d : Entry) (after h : History)
    → IsWell h
    → IsWell (apply_change (observe_entry o.health at d) before d after h).0
    → IsWell (observe_split o at h (some (before, d, after))).0
unfolding observe_split
observe_split-IsWell o at before d after h w c = elim (Bool-cases (d.digest =? o.revision)) [
  | inl same ↦ rw same c
  | inr other ↦ rw other w
]

-- A report of Argo CD keeps the invariant.
pub observe-IsWell :
    (o : Observation) (now : Time) (h : History)
    → second ≤ now
    → IsWell h
    → IsWell (observe o now h).0
unfolding observe
observe-IsWell o now [] t w = unfold split_deployed observe_split in w
observe-IsWell o now (e ∷ []) t w = elim (Bool-cases (promoted e)) [
  | inl p ↦ rw (split_first e [] p) (
      observe_split-IsWell o _ [] e [] (e ∷ []) w (
        apply_change-IsWell _ e []
          (observe_entry-Fits o.health _ e (truncate_second_pos now t) p w.coherent.0) p w))
  | inr n ↦ rw (split_pending e n) (unfold observe_split in w)
]
observe-IsWell o now (e ∷ d ∷ h) t w = elim (Bool-cases (promoted e)) [
  | inl p ↦ rw (split_first e (d ∷ h) p) (
      observe_split-IsWell o _ [] e (d ∷ h) (e ∷ d ∷ h) w (
        apply_change-IsWell _ e (d ∷ h)
          (observe_entry-Fits o.health _ e (truncate_second_pos now t) p w.coherent.0) p w))
  | inr n ↦
      let p : promoted d ≡ true = ground arith in
      rw (split_second e d h n p) (
        observe_split-IsWell o _ (e ∷ []) d h (e ∷ d ∷ h) w (
          apply_change_behind-IsWell _ e d h
            (observe_entry-Fits o.health _ d (truncate_second_pos now t) p w.coherent.1.0) n w))
]

-- One entry, with the record if it is the deployment named.
abbrev recorded : String → Time → String → Entry → Entry
recorded digest at r e =
    if (e.digest =? digest) && e.healthy == at then record e { deployment_record = r } else e

module _ (digest : String) (at : Time) (r : String) where
  length-record_deployment : (h : History) → length (record_deployment digest at r h) ≡ length h
  unfolding record_deployment
  length-record_deployment [] = refl
  length-record_deployment (e ∷ h) = ap suc (length-record_deployment h)

  record_deployment-IsPast :
      (h : History) → All IsPast h → All IsPast (record_deployment digest at r h)
  unfolding record_deployment
  record_deployment-IsPast [] a = tt
  record_deployment-IsPast (e ∷ h) a = (ground arith, record_deployment-IsPast h a.1)

  record_deployment-IsSettled :
      (h : History) → IsSettled h → IsSettled (record_deployment digest at r h)
  unfolding record_deployment
  record_deployment-IsSettled [] s = tt
  record_deployment-IsSettled (e ∷ h) s = (ground arith, record_deployment-IsPast h s.1)

  record_deployment-IsCoherent :
      (h : History) → 0 < at → All IsCoherent h → All IsCoherent (record_deployment digest at r h)
  unfolding record_deployment
  record_deployment-IsCoherent [] p c = tt
  record_deployment-IsCoherent (e ∷ h) p c = (ground arith, record_deployment-IsCoherent h p c.1)

-- Recording a healthy deployment keeps the invariant.
pub record_deployment-IsWell :
    (digest : String) (at : Time) (r : String) (h : History)
    → 0 < at
    → IsWell h
    → IsWell (record_deployment digest at r h)
unfolding record_deployment
record_deployment-IsWell digest at r [] p w = w
record_deployment-IsWell digest at r (e ∷ h) p w = record {
  fits = omega (arith, w.fits, length-record_deployment digest at r h);
  orderly =
      ground
        (arith, record_deployment-IsPast digest at r h, record_deployment-IsSettled digest at r h);
  coherent = record_deployment-IsCoherent digest at r (e ∷ h) p w.coherent;
}
