-- ===== src/Tests/Clusters.antt =====
-- Two Clusters of one server, and the states that an engine reports
-- (internal/controller/serving_controller.go).
use kokumi.Promotion.History.{Health}
use kokumi.Serving.Observation.{observation_of}
use kokumi.Serving.Observation.Observed.{is_counted, Runs, observation_of-healthy_iff}
use kokumi.Serving.Status.{is_true}
use kokumi.Serving.Targets.{Target, States, Cluster, targets_of}
use kokumi.Serving.Targets.Apart.{Apart, targets_of-Apart}
use kokumi.Tests.Stages.{dev_entry}
use kokumi.Prelude.{String, ◌≡◌, ◌↔◌, true, false, some, List, [], ◌∷◌, any, All}

abbrev cluster_of : String → String → Cluster
cluster_of name server = record {
  name = name;
  in_cluster = false;
  server = server;
  ready = some (record { status = is_true; reason = "Ready" });
}

abbrev clusters : List Cluster
clusters =
    cluster_of "eu" "https://eu"
    ∷ cluster_of "eu-again" "https://eu"
    ∷ cluster_of "us" "https://us"
    ∷ []

abbrev as_is : String → String → String
as_is s suffix = s

targets_of-Apart_example :
    Apart "https://kubernetes.default.svc" as_is
      (targets_of "https://kubernetes.default.svc" as_is clusters "shop" "" [])
targets_of-Apart_example =
    targets_of-Apart "https://kubernetes.default.svc" as_is clusters "shop" ""

abbrev targets : List Target
targets =
    record { cluster = "eu"; server = "https://eu"; namespace = "shop"; hold_reason = "" }
    ∷ record {
      cluster = "us";
      server = "https://us";
      namespace = "shop";
      hold_reason = "ClusterNotReady";
    }
    ∷ []

abbrev states : States
states = ("eu", record { health = Health.healthy; revision = "sha256:aa"; held = "" }) ∷ []

observation_of-healthy_iff_example :
    ((observation_of dev_entry targets states).health ≡ Health.healthy)
    ↔ ((any is_counted targets ≡ true) × All (Runs dev_entry states) targets)
observation_of-healthy_iff_example = observation_of-healthy_iff dev_entry targets states
