-- ===== src/Serving/Reconcile.antt =====
-- `reconcileServing` and `targetPreparation` of internal/controller/serving_controller.go: one pass over a
-- Serving, the promotion of the Preparation that it converges to and the deployment of the promoted one.
pub mod Admission
pub mod Pass
use kokumi.Prelude.Result.{Result, err, ok}
use kokumi.Clock.{Duration, Time}
use kokumi.Prelude.Int.{pos}
use kokumi.Promotion.History.{drop}
use kokumi.Promotion.Release.{Release, newest_ready}
use kokumi.Serving.Deploy.{Deployed, deploy}
use kokumi.Serving.Engine.{Deploying}
use kokumi.Serving.Inputs.{Inputs}
use kokumi.Serving.Preparation.{Preparation}
use kokumi.Serving.Promote.{
  Hold, waiting_for_order, waiting_for_promotion, waiting_for_preparation, waiting_for_preparations,
  waiting_for_ready_preparation, Promoted, promote,
}
use kokumi.Serving.Status.{
  Fetched, fetched, missing, unread, ServingStatus, history_of, set_history, soonest,
}
use kokumi.Serving.Targets.{has_status_true}
use kokumi.Prelude.{
  ℕ, zero, suc, ◌+◌, ◌-◌, ◌*◌, ◌/◌, ◌%◌, ◌^◌, ◌≤◌, ◌<◌, min, String, ◌≡◌, refl, sym, ap, ◌∙◌, ◌≢◌,
  ◌↔◌, ◌⊎◌, inl, inr, Bool, true, false, not, ◌&&◌, ◌||◌, Option, none, some, List, [], ◌∷◌, ◌++◌,
  map, arith, ltb, leb, ◌==◌, ◌=?◌, =?_iff, =?_refl, if◌then◌else◌, ltb→lt, leb→le, le→leb, lt→leb,
  Bool-cases, Option-cases, length, take, tail, any, All, All-take, length-take, take_all,
}

-- A Preparation with the time of its creation.
pub record Created : Type 0 where
  pub preparation : Preparation
  pub created : Time

-- What is read to find the Preparation that a Serving converges to. An Order is fetched as whether
-- its effective promotion mode is Automatic.
pub record Choosing : Type 0 where
  pub order : Fetched Bool
  pub preparation_name : String
  pub preparation_named : String → Fetched Preparation
  pub preparations : Result (List Created)

-- What `targetPreparation` returns; the Boolean says whether there is an Order.
pub data Choice : Type 0 where
  choice_failed : (has_order : Bool) (error : String) → Choice
  nothing_to_promote : (has_order : Bool) → Hold → Choice
  converges_to : Preparation → Choice

abbrev pub releases_of : List Created → List Release
releases_of [] = []
releases_of (c ∷ l) =
    record {
      name = c.preparation.name;
      created = c.created;
      ready = has_status_true c.preparation.ready;
    }
    ∷ releases_of l

unfoldable pub preparation_of : String → List Created → Option Preparation
preparation_of name [] = none
preparation_of name (c ∷ l) =
    if c.preparation.name =? name then some c.preparation else preparation_of name l

-- `targetPreparation` in the Manual mode.
unfoldable pub choose_named : String → Fetched Preparation → Choice
choose_named name p = if name =? "" then nothing_to_promote true waiting_for_promotion else elim p [
  | fetched q ↦ converges_to q
  | missing ↦ nothing_to_promote true waiting_for_preparation
  | unread e ↦ choice_failed true e
]

-- `targetPreparation` behind `NewestReady`. Its name is always found: the source takes the item at
-- its index without a test.
unfoldable pub choose_newest : List Created → Option String → Choice
unfolding preparation_of
choose_newest l none =
    nothing_to_promote true
      (if length l == 0 then waiting_for_preparations else waiting_for_ready_preparation)
choose_newest l (some name) = elim (preparation_of name l) [
  | some p ↦ converges_to p
  | none ↦ choice_failed true "index out of range"
]

unfoldable pub choose_in : Choosing → Bool → Choice
unfolding choose_named choose_newest
choose_in c false = choose_named c.preparation_name (c.preparation_named c.preparation_name)
choose_in c true = elim c.preparations [
  | err e ↦ choice_failed true e
  | ok l ↦ choose_newest l (newest_ready (releases_of l))
]

unfoldable pub target_preparation : Choosing → Choice
unfolding choose_in
target_preparation c = elim c.order [
  | fetched automatic ↦ choose_in c automatic
  | missing ↦ nothing_to_promote false waiting_for_order
  | unread e ↦ choice_failed false e
]

-- The status that a pass leaves, how soon the next one follows, and the errors that it joins.
pub record Reconciled : Type 0 where
  pub status : ServingStatus
  pub requeue_after : Duration
  pub errors : List String

abbrev pub error_of {ℓ} : {A : Type ℓ} → Result A → List String
error_of (ok a) = []
error_of (err e) = e ∷ []

abbrev pub wait_of : Result Duration → Duration
wait_of (ok d) = d
wait_of (err e) = pos 0

-- The end of `reconcileServing`.
abbrev pub concluded : Duration → List String → Deployed → Reconciled
concluded wait errors o =
    let all = errors ++ error_of o.result in
    record {
      status = o.status;
      requeue_after = if length all == 0 then soonest (wait ∷ wait_of o.result ∷ []) else pos 0;
      errors = all;
    }

-- `reconcileServing` behind `promote`, on the status that it left and what it returned.
unfoldable pub after_promote :
    Inputs → Deploying → ServingStatus → Result (Duration × Option Hold) → Reconciled
after_promote w d s (ok (wait, held)) = concluded wait [] (deploy w d true held s)
after_promote w d s (err e) = concluded (pos 0) (e ∷ []) (deploy w d true none s)

-- The status with nothing to promote.
unfoldable pub without_target : ServingStatus → ServingStatus
without_target s = record (set_history (drop (history_of s.history)) s) {
  target_preparation_name = "";
}

unfoldable pub reconcile_with : Inputs → Deploying → Choice → ServingStatus → Reconciled
unfolding after_promote without_target
reconcile_with w d (converges_to p) s =
    after_promote w d (promote w p s).status (promote w p s).result
reconcile_with w d (choice_failed has_order e) s =
    concluded (pos 0) (e ∷ []) (deploy w d has_order none s)
reconcile_with w d (nothing_to_promote has_order held) s =
    concluded (pos 0) [] (deploy w d has_order (some held) (without_target s))

unfoldable pub reconcile_serving : Inputs → Deploying → Choosing → ServingStatus → Reconciled
unfolding reconcile_with target_preparation
reconcile_serving w d c s = reconcile_with w d (target_preparation c) s
