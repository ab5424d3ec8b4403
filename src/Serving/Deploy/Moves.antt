-- ===== src/Serving/Deploy/Moves.antt =====
-- What `deploy` (internal/controller/serving_controller.go) does to the history of a Serving.
use kokumi.Prelude.Result.{Result, and_then, err, ok}
use kokumi.Clock.{second, is_zero}
use kokumi.Prelude.Int.{pos}
use kokumi.Promotion.History.{
  Entry, History, deployed, observe, record_deployment, unrecorded, is_unrecorded,
}
use kokumi.Promotion.History.Identity.{IsQuiet}
use kokumi.Promotion.History.Runs.{Move, observe_at, record_of, perform, run}
use kokumi.Serving.Engine.{Deploying, Selected, deploys_to, may_not_deploy, targets, apply_targets}
use kokumi.Serving.Inputs.{Inputs}
use kokumi.Serving.Preparation.{Preparation}
use kokumi.Serving.Checks.{product_of}
use kokumi.Serving.Promote.{Hold}
use kokumi.Serving.Deploy.{
  Deployed, record_one, record_each, recorded, record_vulnerabilities,
  record_deployed_vulnerabilities, record_deployments, after_observe, with_targets, after_apply,
  after_targets, deploy_entry, deploy_with, deploy, clear_summary, record_targets, Product, leaving,
  mark_pending, product_summary, with_ready, is_false,
}
use kokumi.Serving.Status.{
  Fetched, fetched, missing, unread, ServingStatus, history_of, set_history,
}
use kokumi.Serving.Status.RoundTrip.{history_of-set_history}
use kokumi.Serving.Targets.{Target, States}
use kokumi.Serving.Observation.{observation_of}
use kokumi.Serving.Standing.{set_targets}
use kokumi.Prelude.{
  ◌≤◌, ◌<◌, String, ◌≡◌, refl, sym, ap, ◌∙◌, Bool, true, false, Option, none, some, List, [], ◌∷◌,
  ◌++◌, arith, if◌then◌else◌, All,
}

-- Moves of the history, none of them a start, lead from `h` to `k`.
pub record Reached (h k : History) : Type 0 where
  pub moves : List Move
  pub quiet : All IsQuiet moves
  pub reached : run moves h ≡ k

pub Reached-refl : {h k : History} → k ≡ h → Reached h k
unfolding run
Reached-refl e = record { moves = []; quiet = tt; reached = sym e }

pub Reached-perform : (m : Move) {h k : History} → IsQuiet m → perform m h ≡ k → Reached h k
unfolding run
Reached-perform m q e = record { moves = m ∷ []; quiet = (q, tt); reached = e }

pub run-append : (ms ns : List Move) (h : History) → run (ms ++ ns) h ≡ run ns (run ms h)
unfolding run
run-append [] ns h = refl
run-append (m ∷ ms) ns h = run-append ms ns (perform m h)

IsQuiet-append : (ms ns : List Move) → All IsQuiet ms → All IsQuiet ns → All IsQuiet (ms ++ ns)
IsQuiet-append [] ns a b = b
IsQuiet-append (m ∷ ms) ns a b = (a.0, IsQuiet-append ms ns a.1 b)

pub Reached-trans : {h k l : History} → Reached h k → Reached k l → Reached h l
Reached-trans {h} a b = record {
  moves = a.moves ++ b.moves;
  quiet = IsQuiet-append a.moves b.moves a.quiet b.quiet;
  reached = run-append a.moves b.moves h ∙ ap (run b.moves) a.reached ∙ b.reached;
}

abbrev WasHealthy : Entry → Type 0
WasHealthy e = 0 < e.healthy

unrecorded-WasHealthy : (h : History) → All WasHealthy (unrecorded h)
unfolding unrecorded
unrecorded-WasHealthy [] = tt
unrecorded-WasHealthy (e ∷ h) = by_test (is_unrecorded e) refl (unrecorded-WasHealthy h)
  where
    by_test :
        (b : Bool)
        → is_unrecorded e ≡ b
        → All WasHealthy (unrecorded h)
        → All WasHealthy (if b then e ∷ unrecorded h else unrecorded h)
    by_test true f a = (ground (arith, f), a)
    by_test false f a = a

abbrev OkReached : History → Result History → Type 0
OkReached h (ok k) = Reached h k
OkReached h (err e) = Unit

record_one-Reached :
    (d : Deploying) (ts : List Target) (states : States) (e : Entry) (h : History)
    (p : Fetched Preparation)
    → 0 < e.healthy
    → OkReached h (record_one d ts states e h p)
unfolding record_one perform
record_one-Reached d ts states e h missing a = Reached-refl refl
record_one-Reached d ts states e h (unread m) a = tt
record_one-Reached d ts states e h (fetched p) a =
    by_push (d.push_deployment e (record_targets e p.target_namespace ts states))
  where
    by_push :
        (r : Result String)
        → OkReached h (and_then r (λ r. ok (record_deployment e.digest e.healthy r h)))
    by_push (ok r) = Reached-perform (record_of e.digest e.healthy r a) tt refl
    by_push (err m) = tt

record_each-Reached :
    (d : Deploying) (ts : List Target) (states : States) (es : List Entry) (h : History)
    → All WasHealthy es
    → OkReached h (record_each d ts states es h)
unfolding record_each
record_each-Reached d ts states [] h a = Reached-refl refl
record_each-Reached d ts states (e ∷ es) h a =
    by_one (record_one d ts states e h (d.preparation_named e.preparation))
      (record_one-Reached d ts states e h (d.preparation_named e.preparation) a.0)
      (λ k. record_each-Reached d ts states es k a.1)
  where
    by_one :
        (r : Result History)
        → OkReached h r
        → ((k : History) → OkReached k (record_each d ts states es k))
        → OkReached h (and_then r (λ k. record_each d ts states es k))
    by_one (err m) o rest = tt
    by_one (ok k) o rest = by_rest (record_each d ts states es k) (rest k)
      where
        by_rest : (r : Result History) → OkReached k r → OkReached h r
        by_rest (ok l) b = Reached-trans o b
        by_rest (err m) b = tt

abbrev KeepsReached : History → Result (Option History) → Type 0
KeepsReached h (ok none) = Unit
KeepsReached h (ok (some k)) = Reached h k
KeepsReached h (err e) = Unit

some_reached :
    (h : History) (r : Result History)
    → OkReached h r
    → KeepsReached h (and_then r (λ k. ok (some k)))
some_reached h (ok k) a = a
some_reached h (err m) a = tt

recorded-Reached :
    (d : Deploying) (h : History) (ts : List Target) (states : States)
    → KeepsReached h (recorded d h ts states (unrecorded h))
unfolding recorded
recorded-Reached d h ts states = by_list (unrecorded h) (unrecorded-WasHealthy h)
  where
    by_list : (es : List Entry) → All WasHealthy es → KeepsReached h (recorded d h ts states es)
    by_list [] a = tt
    by_list (e ∷ es) a = by_key d.signing_error
      where
        by_key :
            (key : Option String)
            → KeepsReached h (elim key [
              | some m ↦ err m
              | none ↦ and_then (record_each d ts states (e ∷ es) h) (λ k. ok (some k))
            ])
        by_key (some m) = tt
        by_key none =
            some_reached h (record_each d ts states (e ∷ es) h)
              (record_each-Reached d ts states (e ∷ es) h a)

-- The status holds a history that moves lead to.
abbrev LeavesReached : History → Deployed → Type 0
LeavesReached h o = Reached h (history_of o.status.history)

summary-Reached :
    (w : Inputs) (h : History) (p : Fetched Preparation) (s : ServingStatus)
    → Reached h (history_of s.history)
    → LeavesReached h (record_vulnerabilities w p s)
unfolding record_vulnerabilities
summary-Reached w h missing s a = a
summary-Reached w h (unread m) s a = a
summary-Reached w h (fetched p) s a = by_product (product_of w)
  where
    by_product :
        (r : Result (Option Product))
        → LeavesReached h (elim r [
          | err m ↦ leaving s (err m)
          | ok product ↦
              leaving
                (record s { deployed_vulnerabilities = product_summary p product })
                (ok (pos 0))
        ])
    by_product (ok product) = a
    by_product (err m) = a

vulnerabilities-Reached :
    (w : Inputs) (d : Deploying) (e : Entry) (h : History) (s : ServingStatus)
    → Reached h (history_of s.history)
    → LeavesReached h (record_deployed_vulnerabilities w d e s)
unfolding record_deployed_vulnerabilities
vulnerabilities-Reached w d e h s a = by_test (is_zero e.healthy)
  where
    by_test :
        (b : Bool)
        → LeavesReached h (
            if b
            then leaving s (ok (pos 0))
            else record_vulnerabilities w (d.preparation_named e.preparation) s)
    by_test true = a
    by_test false = summary-Reached w h (d.preparation_named e.preparation) s a

set-Reached :
    {h : History} (k : History) (s : ServingStatus)
    → Reached h k
    → Reached h (history_of (set_history k s).history)
set-Reached k s a = rw (history_of-set_history k s) a

deployments-Reached :
    (w : Inputs) (d : Deploying) (e : Entry) (h : History) (r : Result (Option History))
    (s : ServingStatus)
    → history_of s.history ≡ h
    → KeepsReached h r
    → LeavesReached h (record_deployments w d e r s)
unfolding record_deployments
deployments-Reached w d e h (err m) s f a = Reached-refl f
deployments-Reached w d e h (ok none) s f a = vulnerabilities-Reached w d e h s (Reached-refl f)
deployments-Reached w d e h (ok (some k)) s f a =
    vulnerabilities-Reached w d e h (set_history k s) (set-Reached k s a)

observe-Reached :
    (w : Inputs) (d : Deploying) (e : Entry) (h : History) (ts : List Target) (states : States)
    (s : ServingStatus)
    → second ≤ d.observe_time
    → history_of s.history ≡ h
    → LeavesReached h
        (after_observe w d e h ts states (observe (observation_of e ts states) d.observe_time h) s)
unfolding after_observe perform
observe-Reached w d e h ts states s t f =
    by_change (observe (observation_of e ts states) d.observe_time h) refl
  where
    by_change :
        (o : History × Bool)
        → observe (observation_of e ts states) d.observe_time h ≡ o
        → LeavesReached h (after_observe w d e h ts states o s)
    by_change (k, true) g = set-Reached k (clear_summary e k s) (
        Reached-perform (observe_at (observation_of e ts states) d.observe_time t) tt
          (ap (λ x. x.0) g))
    by_change (k, false) g =
        deployments-Reached w d e h (recorded d h ts states (unrecorded h)) s f
          (recorded-Reached d h ts states)

apply-Reached :
    (w : Inputs) (d : Deploying) (e : Entry) (h : History) (r : Result (List Target × States))
    (s : ServingStatus)
    → second ≤ d.observe_time
    → history_of s.history ≡ h
    → LeavesReached h (after_apply w d e h r s)
unfolding after_apply set_targets
apply-Reached w d e h (err m) s t f = Reached-refl f
apply-Reached w d e h (ok (ts, states)) s t f =
    observe-Reached w d e h ts states (with_targets e ts states s) t f

targets-Reached :
    (w : Inputs) (d : Deploying) (e : Entry) (h : History) (r : Result Selected) (s : ServingStatus)
    → second ≤ d.observe_time
    → history_of s.history ≡ h
    → LeavesReached h (after_targets w d e h r s)
unfolding after_targets set_targets
targets-Reached w d e h (err m) s t f = Reached-refl f
targets-Reached w d e h (ok (deploys_to ts)) s t f =
    apply-Reached w d e h (apply_targets d e ts) s t f
targets-Reached w d e h (ok (may_not_deploy reason)) s t f = by_remove (d.remove [])
  where
    by_remove :
        (r : Option String)
        → LeavesReached h (elim r [
          | some m ↦ leaving s (err m)
          | none ↦
              leaving
                (with_ready (record { status = is_false; reason = reason }) (set_targets e [] [] s))
                (ok (pos 0))
        ])
    by_remove none = Reached-refl f
    by_remove (some m) = Reached-refl f

entry-Reached :
    (w : Inputs) (d : Deploying) (e : Entry) (h : History) (p : Fetched Preparation)
    (s : ServingStatus)
    → second ≤ d.observe_time
    → history_of s.history ≡ h
    → LeavesReached h (deploy_entry w d e h p s)
unfolding deploy_entry
entry-Reached w d e h missing s t f = Reached-refl f
entry-Reached w d e h (unread m) s t f = Reached-refl f
entry-Reached w d e h (fetched p) s t f = targets-Reached w d e h (targets d p) s t f

pending-Reached :
    (held : Option Hold) (h : History) (s : ServingStatus)
    → history_of s.history ≡ h
    → Reached h (history_of (mark_pending held s).history)
pending-Reached none h s f = Reached-refl f
pending-Reached (some m) h s f = Reached-refl f

with-Reached :
    (w : Inputs) (d : Deploying) (has_order : Bool) (held : Option Hold) (h : History)
    (e : Option Entry) (s : ServingStatus)
    → second ≤ d.observe_time
    → history_of s.history ≡ h
    → LeavesReached h (deploy_with w d has_order held h e s)
unfolding deploy_with
with-Reached w d has_order held h none s t f = pending-Reached held h s f
with-Reached w d false held h (some e) s t f = pending-Reached held h s f
with-Reached w d true held h (some e) s t f =
    entry-Reached w d e h (d.preparation_named e.preparation) s t f

-- `deploy` changes the history of a Serving only by moves that start no promotion.
pub deploy-Reached :
    (w : Inputs) (d : Deploying) (has_order : Bool) (held : Option Hold) (s : ServingStatus)
    → second ≤ d.observe_time
    → Reached (history_of s.history) (history_of (deploy w d has_order held s).status.history)
unfolding deploy
deploy-Reached w d has_order held s t =
    with-Reached w d has_order held (history_of s.history) (deployed (history_of s.history)) s t
      refl
