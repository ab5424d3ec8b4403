-- ===== src/Serving/Engine.antt =====
-- `targets` and `applyTargets` of internal/controller/serving_controller.go: where the deployed
-- Preparation goes, and what the engine reports there. Events are left out.
use kokumi.Prelude.Result.{Result, and_then, err, ok}
use kokumi.Clock.{Time}
use kokumi.Promotion.History.{Entry, deployed}
use kokumi.Serving.Preparation.{ReleaseImage, Preparation}
use kokumi.Serving.Status.{Fetched, fetched, missing, unread}
use kokumi.Serving.Targets.{Target, TargetState, States, Cluster, targets_of}
use kokumi.Prelude.{String, Bool, not, ◌&&◌, Option, none, some, List, [], ◌∷◌, ◌=?◌, if◌then◌else◌}

-- A target in a deployment record.
pub record RecordTarget : Type 0 where
  pub cluster : String
  pub server : String
  pub namespace : String

-- What the engine, the API server and the registry answer while the reconciler deploys. `selected`
-- is resolve.SelectedClusters of the Environment, `admission` the reason of the engine's Admit, ""
-- when it admits. `remove` is given the clusters to keep, and returns an error or `none`.
-- `push_deployment` connects to the registry of the entry and pushes its record.
pub record Deploying : Type 0 where
  pub observe_time : Time
  pub preparation_named : String → Fetched Preparation
  pub environment : Fetched String
  pub clusters : Result (List Cluster)
  pub selected : List Cluster → Result (List Cluster)
  pub admission : Result String
  pub bundled_host : String
  pub in_cluster_server : String
  pub trim_suffix : String → String → String
  pub is_bundled_pull : String → String → Bool
  pub apply : Entry → Target → Result TargetState
  pub remove : List String → Option String
  pub signing_error : Option String
  pub push_deployment : Entry → List RecordTarget → Result String

-- cmp.Or of texts.
abbrev pub or_text : String → String → String
or_text a b = if a =? "" then b else a

-- bundledPull; `is_bundled_pull host image` tells that the image is one of the host, by its prefix.
unfoldable pub bundled_pull : Deploying → List ReleaseImage → String
bundled_pull d [] = ""
bundled_pull d (i ∷ l) =
    let rest = bundled_pull d l in
    let pulled = or_text i.vendored (or_text i.name i.ref) in
    if not (d.bundled_host =? "") && d.is_bundled_pull d.bundled_host pulled then pulled else rest

-- What `targets` returns: the targets, or the reason why the Order may not deploy at all.
pub data Selected : Type 0 where
  deploys_to : List Target → Selected
  may_not_deploy : String → Selected

unfoldable pub admitted_targets :
    Deploying → Preparation → List Cluster → Result String → Result Selected
unfolding bundled_pull
admitted_targets d p cs (err e) = err e
admitted_targets d p cs (ok reason) =
    if not (reason =? "")
    then ok (may_not_deploy reason)
    else ok (
        deploys_to (
          targets_of d.in_cluster_server d.trim_suffix cs p.target_namespace
            (bundled_pull d p.images) []))

unfoldable pub select_targets : Deploying → Preparation → Result (List Cluster) → Result Selected
unfolding admitted_targets
select_targets d p (err e) = ok (may_not_deploy "InvalidSelector")
select_targets d p (ok []) = ok (may_not_deploy "NoClusters")
select_targets d p (ok (c ∷ cs)) = admitted_targets d p (c ∷ cs) d.admission

-- `targets`
unfoldable pub targets : Deploying → Preparation → Result Selected
unfolding select_targets
targets d p = elim d.environment [
  | missing ↦ ok (may_not_deploy "EnvironmentNotFound")
  | unread e ↦ err e
  | fetched _ ↦ and_then d.clusters (λ l. select_targets d p (d.selected l))
]

-- A round of the loop of `applyTargets`.
unfoldable pub apply_target : Deploying → Entry → Target → States → Result (Target × States)
apply_target d deployed t states =
    if not (t.hold_reason =? "") then ok (t, states) else elim (d.apply deployed t) [
      | err e ↦ err e
      | ok s ↦
          if s.held =? ""
          then ok (t, (t.cluster, s) ∷ states)
          else ok (record t { hold_reason = s.held }, states)
    ]

abbrev pub prepend_target : Target → Result (List Target × States) → Result (List Target × States)
prepend_target t (err e) = err e
prepend_target t (ok (ts, states)) = ok (t ∷ ts, states)

abbrev pub apply_rest :
    Result (Target × States)
    → (States → Result (List Target × States))
    → Result (List Target × States)
apply_rest (err e) rest = err e
apply_rest (ok (t, states)) rest = prepend_target t (rest states)

unfoldable pub apply_each : Deploying → Entry → List Target → States → Result (List Target × States)
unfolding apply_target
apply_each d deployed [] states = ok ([], states)
apply_each d deployed (t ∷ ts) states =
    apply_rest (apply_target d deployed t states) (λ st. apply_each d deployed ts st)

abbrev pub names_of : List Target → List String
names_of [] = []
names_of (t ∷ ts) = t.cluster ∷ names_of ts

-- The targets as `applyTargets` leaves them, and the states that it returns.
unfoldable pub apply_targets : Deploying → Entry → List Target → Result (List Target × States)
unfolding apply_each
apply_targets d deployed ts =
    and_then (apply_each d deployed ts [])
      (λ applied. elim (d.remove (names_of ts)) [ none ↦ ok applied | some e ↦ err e ])
