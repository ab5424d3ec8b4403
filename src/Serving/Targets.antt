-- ===== src/Serving/Targets.antt =====
-- The clusters that a Serving deploys to
-- (internal/controller/serving_controller.go). A map by cluster is an association list, read from its
-- front; the texts of messages are left out.
pub mod Apart
use kokumi.Prelude.Result.{Result, err, ok}
use kokumi.Prelude.Order.{Ordering, compare_ℕ}
use kokumi.Prelude.Sort.{sort}
use kokumi.Promotion.History.{Entry, Observation, Health}
use kokumi.Serving.Status.{
  ConditionStatus, is_true, is_false, is_unknown, Condition, DeploymentClusters, DeploymentTarget,
  ServingStatus,
}
use kokumi.Prelude.{
  ℕ, zero, suc, ◌+◌, ◌-◌, ◌*◌, ◌/◌, ◌%◌, ◌^◌, ◌≤◌, ◌<◌, min, String, ◌≡◌, refl, sym, ap, ◌∙◌, ◌≢◌,
  ◌↔◌, ◌⊎◌, inl, inr, Bool, true, false, not, ◌&&◌, ◌||◌, Option, none, some, List, [], ◌∷◌, ◌++◌,
  map, arith, ltb, leb, ◌==◌, ◌=?◌, =?_iff, =?_refl, if◌then◌else◌, ltb→lt, leb→le, le→leb, lt→leb,
  Bool-cases, Option-cases, length, take, tail, any, All, All-take, length-take, take_all,
}

-- deployTarget; a `hold_reason` of "" holds nothing.
pub record Target : Type 0 where
  pub cluster : String
  pub server : String
  pub namespace : String
  pub hold_reason : String

-- targetState
pub record TargetState : Type 0 where
  pub health : Health
  pub revision : String
  pub held : String

abbrev pub States : Type 0
States = List (String × TargetState)

unfoldable pub state_of : String → States → Option TargetState
state_of c [] = none
state_of c ((k, s) ∷ t) = if k =? c then some s else state_of c t

abbrev pub cluster_not_ready : String
cluster_not_ready = "ClusterNotReady"

abbrev pub cluster_conflict : String
cluster_conflict = "ClusterConflict"

abbrev pub registry_unreachable : String
registry_unreachable = "RegistryUnreachable"

abbrev pub degraded_reason : String
degraded_reason = "Degraded"

abbrev pub progressing_reason : String
progressing_reason = "Progressing"

abbrev pub deployment_failed : String
deployment_failed = "DeploymentFailed"

-- A Cluster, by what is read of it.
pub record Cluster : Type 0 where
  pub name : String
  pub in_cluster : Bool
  pub server : String
  pub ready : Option Condition

abbrev pub has_status_true : Option Condition → Bool
has_status_true none = false
has_status_true (some c) = elim c.status [ is_true ↦ true | is_false ↦ false | is_unknown ↦ false ]

unfoldable pub is_taken : String → List (String × String) → Bool
is_taken k [] = false
is_taken k ((j, name) ∷ t) = (j =? k) || is_taken k t

-- `in_cluster_server` is cluster.InClusterServer, and `trim_suffix` Go's strings.TrimSuffix.
module _ (in_cluster_server : String) (trim_suffix : String → String → String) where
  unfoldable pub server_key : String → String
  server_key server = trim_suffix server "/"

  abbrev pub server_of : Cluster → String
  server_of c = if c.in_cluster then in_cluster_server else c.server

  -- The reason of the `switch` of `targetOf`.
  unfoldable pub hold_of : Cluster → String → List (String × String) → String
  unfolding server_key is_taken
  hold_of c bundled servers =
      if not (has_status_true c.ready)
      then cluster_not_ready
      else if is_taken (server_key (server_of c)) servers
      then cluster_conflict
      else if not c.in_cluster && not (bundled =? "")
      then registry_unreachable
      else ""

  abbrev pub target_with : Cluster → String → String → Target
  target_with c namespace reason = record {
    cluster = c.name;
    server = server_of c;
    namespace = namespace;
    hold_reason = reason;
  }

  -- `targetOf`, and the map of servers behind it.
  unfoldable pub target_of :
      Cluster → String → String → List (String × String) → Target × List (String × String)
  unfolding hold_of
  target_of c namespace bundled servers =
      let target = target_with c namespace (hold_of c bundled servers) in
      if not (has_status_true c.ready) || is_taken (server_key (server_of c)) servers
      then (target, servers)
      else (target, (server_key (server_of c), c.name) ∷ servers)

  -- The last loop of `targets`.
  unfoldable pub targets_of : List Cluster → String → String → List (String × String) → List Target
  unfolding target_of
  targets_of [] namespace bundled servers = []
  targets_of (c ∷ cs) namespace bundled servers =
      let (target, taken) = target_of c namespace bundled servers in
      target ∷ targets_of cs namespace bundled taken
