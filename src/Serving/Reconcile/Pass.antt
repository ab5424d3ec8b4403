-- ===== src/Serving/Reconcile/Pass.antt =====
-- What one pass over a Serving does to its history (internal/controller/serving_controller.go,
-- reconcileServing).
use kokumi.Prelude.Result.{Result, err, ok}
use mathlib.Core.Path.{subst}
use kokumi.Clock.{Duration, second}
use kokumi.Promotion.History.{History, drop, next, step_record, start}
use kokumi.Promotion.History.Invariant.{IsWell}
use kokumi.Promotion.History.Runs.{
  Move, open_for, start_under, drop_pending, perform, run, run_from-IsWell,
}
use kokumi.Serving.Engine.{Deploying}
use kokumi.Serving.Inputs.{Inputs, Upstreamed, ChecksVerdict}
use kokumi.Serving.Preparation.{Preparation, entry_of}
use kokumi.Serving.Promote.{Hold, promote}
use kokumi.Serving.Promote.Admitted.{
  IsAdmitted, Advance, stays, drops, opens, starts, promote-Advance,
}
use kokumi.Serving.Deploy.{deploy}
use kokumi.Serving.Deploy.Moves.{Reached, Reached-perform, Reached-trans, deploy-Reached}
use kokumi.Serving.Reconcile.{
  Choosing, Choice, choice_failed, nothing_to_promote, converges_to, target_preparation,
  after_promote, without_target, reconcile_with, reconcile_serving,
}
use kokumi.Serving.Status.{ServingStatus, history_of}
use kokumi.Serving.Status.RoundTrip.{history_of-set_history}
use kokumi.Prelude.{◌≤◌, String, ◌≡◌, refl, sym, ap, ◌∙◌, ◌≢◌, true, Option, none, some, List, ◌∷◌}

-- A pass starts no promotion, or it starts the pending one of an admitted Preparation.
pub data Pass (w : Inputs) (choice : Choice) (h : History) : History → Type 0 where
  quietly : {k : History} → Reached h k → Pass w choice h k
  promoting :
      {k : History} (p : Preparation) {u : Upstreamed} {c : ChecksVerdict}
      → choice ≡ converges_to p
      → IsAdmitted w p h u c
      → next p.name h ≡ step_record
      → (r : String) → w.record_promotion h u c ≡ ok r
      → Reached (start r h) k
      → Pass w choice h k

Advance-Pass :
    (w : Inputs) (p : Preparation) (h : History) {k l : History}
    → second ≤ w.open_time
    → Advance w p h k
    → Reached k l
    → Pass w (converges_to p) h l
unfolding perform
Advance-Pass w p h t stays a = quietly a
Advance-Pass w p h t drops a = quietly (Reached-trans (Reached-perform drop_pending tt refl) a)
Advance-Pass w p h t (opens m n) a =
    quietly (Reached-trans (Reached-perform (open_for (entry_of p) w.open_time t) tt refl) a)
Advance-Pass w p h t (starts m n r f) a = promoting p refl m n r f a

promote-Pass :
    (w : Inputs) (d : Deploying) (p : Preparation) (s : ServingStatus)
    → second ≤ w.open_time
    → second ≤ d.observe_time
    → Pass w (converges_to p) (history_of s.history) (
        history_of (after_promote w d (promote w p s).status (promote w p s).result).status.history)
unfolding after_promote
promote-Pass w d p s t t' = by_result (promote w p s).result
  where
    left : ServingStatus
    left = (promote w p s).status

    passed :
        (held : Option Hold)
        → Pass w
            (converges_to p)
            (history_of s.history)
            (history_of (deploy w d true held left).status.history)
    passed held =
        Advance-Pass w p (history_of s.history) t (promote-Advance w p s)
          (deploy-Reached w d true held left t')

    by_result :
        (r : Result (Duration × Option Hold))
        → Pass w
            (converges_to p)
            (history_of s.history)
            (history_of (after_promote w d left r).status.history)
    by_result (ok (wait, held)) = passed held
    by_result (err e) = passed none

without_target-Reached :
    (s : ServingStatus) → Reached (history_of s.history) (history_of (without_target s).history)
unfolding without_target perform
without_target-Reached s =
    Reached-perform drop_pending tt (sym (history_of-set_history (drop (history_of s.history)) s))

choice-Pass :
    (w : Inputs) (d : Deploying) (c : Choice) (s : ServingStatus)
    → second ≤ w.open_time
    → second ≤ d.observe_time
    → Pass w c (history_of s.history) (history_of (reconcile_with w d c s).status.history)
unfolding reconcile_with
choice-Pass w d (converges_to p) s t t' = promote-Pass w d p s t t'
choice-Pass w d (choice_failed has_order e) s t t' =
    quietly (deploy-Reached w d has_order none s t')
choice-Pass w d (nothing_to_promote has_order held) s t t' = quietly (
    Reached-trans (without_target-Reached s)
      (deploy-Reached w d has_order (some held) (without_target s) t'))

pub reconcile_serving-Pass :
    (w : Inputs) (d : Deploying) (c : Choosing) (s : ServingStatus)
    → second ≤ w.open_time
    → second ≤ d.observe_time
    → Pass w
        (target_preparation c)
        (history_of s.history)
        (history_of (reconcile_serving w d c s).status.history)
unfolding reconcile_serving
reconcile_serving-Pass w d c s t t' = choice-Pass w d (target_preparation c) s t t'

-- Moves lead from `h` to `k`.
pub record IsRun (h k : History) : Type 0 where
  pub moves : List Move
  pub runs : run moves h ≡ k

pub Pass-IsRun :
    {w : Inputs} {c : Choice} {h k : History}
    → ((h : History) (u : Upstreamed) (v : ChecksVerdict) → w.record_promotion h u v ≢ ok "")
    → Pass w c h k
    → IsRun h k
unfolding run perform
Pass-IsRun n (quietly a) = record { moves = a.moves; runs = a.reached }
Pass-IsRun {h} n (promoting p {u} {c = v} e m f r g a) = record {
  moves = start_under r (λ x. n h u v (g ∙ ap ok x)) ∷ a.moves;
  runs = a.reached;
}

-- When the clock is at least a second past the zero time and the registry never returns an empty
-- digest for a promotion record: a pass over a Serving does to the history in its status what some
-- sequence of the operations of a history does (opening, starting, dropping, observing, recording).
pub reconcile_serving-IsRun :
    (w : Inputs) (d : Deploying) (c : Choosing) (s : ServingStatus)
    → second ≤ w.open_time
    → second ≤ d.observe_time
    → ((h : History) (u : Upstreamed) (v : ChecksVerdict) → w.record_promotion h u v ≢ ok "")
    → IsRun (history_of s.history) (history_of (reconcile_serving w d c s).status.history)
reconcile_serving-IsRun w d c s t t' n = Pass-IsRun n (reconcile_serving-Pass w d c s t t')

-- Under the same conditions, a pass over a Serving keeps the invariant of its history: at most 16
-- entries, at most the first pending, the entries behind the deployed one over, and each entry's
-- times and records in agreement.
pub reconcile_serving-IsWell :
    (w : Inputs) (d : Deploying) (c : Choosing) (s : ServingStatus)
    → second ≤ w.open_time
    → second ≤ d.observe_time
    → ((h : History) (u : Upstreamed) (v : ChecksVerdict) → w.record_promotion h u v ≢ ok "")
    → IsWell (history_of s.history)
    → IsWell (history_of (reconcile_serving w d c s).status.history)
reconcile_serving-IsWell w d c s t t' n well = by_run (reconcile_serving-IsRun w d c s t t' n)
  where
    by_run : {k : History} → IsRun (history_of s.history) k → IsWell k
    by_run a = subst IsWell a.runs (run_from-IsWell a.moves (history_of s.history) well)
