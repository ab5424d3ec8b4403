-- ===== src/Promotion/History/Identity.antt =====
-- Which promotion is deployed (internal/promotion/history.go), and what leaves it in place.
use kokumi.Clock.{Time}
use kokumi.Promotion.History.{
  Entry, History, Observation, Health, Change, write, insert, keep, deployed, pending, drop,
  open_entry, start, observe, observe_entry, observe_split, apply_change, record_deployment,
  promoted, split_deployed, next, step_record,
}
use kokumi.Promotion.History.Invariant.{
  IsWell, drop-IsSettled, split_first, split_second, split_pending,
}
use kokumi.Promotion.History.Passes.{open_entry-cons, deployed-take, deployed-drop}
use kokumi.Promotion.History.Runs.{
  Move, open_for, start_under, drop_pending, observe_at, record_of, perform, perform-IsWell, run,
}
use kokumi.Prelude.{
  String, ◌≡◌, refl, ap, ◌∙◌, ◌≢◌, inl, inr, true, false, Option, none, some, List, [], ◌∷◌, arith,
  ◌=?◌, =?_iff, =?_refl, Bool-cases, All,
}

-- The Preparation of an entry and the record of its promotion.
abbrev pub identity_of : Option Entry → Option (String × String)
identity_of none = none
identity_of (some e) = some (e.preparation, e.promotion_record)

abbrev pub identity : History → Option (String × String)
identity h = identity_of (deployed h)

identity-drop : (h : History) → identity (drop h) ≡ identity h
identity-drop h = ap identity_of (deployed-drop h)

identity-open_entry :
    (candidate : Entry) (now : Time) (h : History)
    → IsWell h
    → identity (open_entry candidate now h) ≡ identity h
unfolding deployed
identity-open_entry candidate now h w = rw open_entry-cons (
    ground
      (arith, =?_refl "", deployed-take 14 (drop h) (drop-IsSettled h w.orderly), deployed-drop h))

abbrev Same : Entry → Change → Type 0
Same d (write e) = (e.preparation ≡ d.preparation) × (e.promotion_record ≡ d.promotion_record)
Same d (insert r) = (r.preparation ≡ d.preparation) × (r.promotion_record ≡ d.promotion_record)
Same d keep = Unit

observe_entry-Same :
    (health : Health) (now : Time) (d : Entry) → Same d (observe_entry health now d)
unfolding observe_entry
observe_entry-Same Health.progressing now d = ground arith
observe_entry-Same Health.healthy now d = ground arith
observe_entry-Same Health.degraded now d = ground arith

identity-apply_change :
    (c : Change) (d : Entry) (h : History)
    → Same d c
    → promoted d ≡ true
    → identity (apply_change c [] d h (d ∷ h)).0 ≡ identity (d ∷ h)
unfolding apply_change deployed
identity-apply_change (write e) d h s p = ground (arith, s, p)
identity-apply_change (insert r) d h s p = ground (arith, s, p)
identity-apply_change keep d h s p = refl

identity-apply_change_behind :
    (c : Change) (e d : Entry) (h : History)
    → Same d c
    → promoted e ≡ false
    → promoted d ≡ true
    → identity (apply_change c (e ∷ []) d h (e ∷ d ∷ h)).0 ≡ identity (e ∷ d ∷ h)
unfolding apply_change deployed
identity-apply_change_behind (write x) e d h s n p = ground (arith, s, p, n)
identity-apply_change_behind (insert r) e d h s n p = ground (arith, s, p, n)
identity-apply_change_behind keep e d h s n p = refl

identity-observe_split :
    (o : Observation) (at : Time) (before : History) (d : Entry) (after h : History)
    → identity (apply_change (observe_entry o.health at d) before d after h).0 ≡ identity h
    → identity (observe_split o at h (some (before, d, after))).0 ≡ identity h
unfolding observe_split
identity-observe_split o at before d after h c = elim (Bool-cases (d.digest =? o.revision)) [
  | inl same ↦ rw same c
  | inr other ↦ rw other refl
]

identity-observe :
    (o : Observation) (now : Time) (h : History)
    → IsWell h
    → identity (observe o now h).0 ≡ identity h
unfolding observe
identity-observe o now [] w = unfold split_deployed observe_split in refl
identity-observe o now (e ∷ []) w = elim (Bool-cases (promoted e)) [
  | inl p ↦ rw (split_first e [] p) (
      identity-observe_split o _ [] e [] (e ∷ [])
        (identity-apply_change _ e [] (observe_entry-Same o.health _ e) p))
  | inr n ↦ rw (split_pending e n) (unfold observe_split in refl)
]
identity-observe o now (e ∷ d ∷ h) w = elim (Bool-cases (promoted e)) [
  | inl p ↦ rw (split_first e (d ∷ h) p) (
      identity-observe_split o _ [] e (d ∷ h) (e ∷ d ∷ h)
        (identity-apply_change _ e (d ∷ h) (observe_entry-Same o.health _ e) p))
  | inr n ↦
      let p : promoted d ≡ true = ground (arith, w.orderly) in
      rw (split_second e d h n p) (
        identity-observe_split o _ (e ∷ []) d h (e ∷ d ∷ h)
          (identity-apply_change_behind _ e d h (observe_entry-Same o.health _ d) n p))
]

identity-record_deployment :
    (digest : String) (at : Time) (r : String) (h : History)
    → identity (record_deployment digest at r h) ≡ identity h
unfolding record_deployment deployed
identity-record_deployment digest at r [] = refl
identity-record_deployment digest at r (e ∷ h) =
    ground (arith, identity-record_deployment digest at r h)

-- Every move but the start of a promotion.
abbrev pub IsQuiet : Move → Type 0
IsQuiet (start_under r n) = ⊥
IsQuiet _ = Unit

identity-perform :
    (m : Move) (h : History) → IsQuiet m → IsWell h → identity (perform m h) ≡ identity h
unfolding perform
identity-perform (open_for candidate now t) h q w = identity-open_entry candidate now h w
identity-perform (start_under r n) h q w = ground (arith, q)
identity-perform drop_pending h q w = identity-drop h
identity-perform (observe_at o now t) h q w = identity-observe o now h w
identity-perform (record_of digest at r p) h q w = identity-record_deployment digest at r h

pub identity-run :
    (ms : List Move) (h : History) → All IsQuiet ms → IsWell h → identity (run ms h) ≡ identity h
unfolding run
identity-run [] h q w = refl
identity-run (m ∷ ms) h q w =
    identity-run ms (perform m h) q.1 (perform-IsWell m h w) ∙ identity-perform m h q.0 w

-- A pending promotion that starts is the one deployed.
pub identity-start :
    (name r : String) (h : History)
    → r ≢ ""
    → next name h ≡ step_record
    → identity (start r h) ≡ some (name, r)
unfolding next start deployed pending
identity-start name r [] n e = ground (arith, e)
identity-start name r (p ∷ h) n e = ground (arith, e, =?_iff r "", =?_iff p.preparation name)
