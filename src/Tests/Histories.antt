-- ===== src/Tests/Histories.antt =====
-- A deployment history over a promotion, a degradation and a recovery
-- (internal/promotion/history.go).
use mathlib.Core.List.{Memᴰ}
use kokumi.Clock.{second, truncate_second}
use kokumi.Promotion.History.{
  EndReason, Entry, Health, Observation, next, step_open, step_record, step_deployed, open_entry,
  start, deployed, observe, unrecorded, record_deployment, promoted,
}
use kokumi.Promotion.History.Invariant.{IsWell}
use kokumi.Promotion.History.Runs.{
  Move, open_for, start_under, observe_at, run, run-IsWell, live, empty-IsWell, run_one_live,
}
use kokumi.Promotion.History.Passes.{
  started, two_passes, reported, recovered, ended_degraded, observe_recovers,
  record_deployment_progress,
}
use kokumi.Prelude.{
  ◌*◌, ◌≤◌, ◌<◌, String, ◌≡◌, refl, ◌≢◌, true, some, List, [], ◌∷◌, arith, ◌=?◌, length, =?_ne,
}

abbrev candidate : Entry
candidate = record {
  preparation = "shop-1";
  digest = "sha256:aa";
  oci_ref = "oci://registry/shop";
  registry = "";
  product_revision = "v1";
  started = 0;
  healthy = 0;
  ended = 0;
  end_reason = EndReason.ongoing;
  promotion_record = "";
  deployment_record = "";
}

abbrev healthy_now : Observation
healthy_now = record { revision = "sha256:aa"; health = Health.healthy }

abbrev recorded : String
recorded = "promotion-1"

recorded_named : recorded ≢ ""
unfolding ◌=?◌
recorded_named = =?_ne recorded "" refl

abbrev moves : List Move
moves =
    open_for candidate (100 * second) (omega arith)
    ∷ start_under recorded recorded_named
    ∷ observe_at healthy_now (160 * second) (omega arith)
    ∷ []

-- The deployed entry once it was healthy.
abbrev was_healthy : Entry
was_healthy = record candidate {
  started = 100 * second;
  healthy = 160 * second;
  promotion_record = recorded;
}

healthy_promoted : promoted was_healthy ≡ true
unfolding ◌=?◌
healthy_promoted = refl

run-IsWell_example : IsWell (run moves [])
run-IsWell_example = run-IsWell moves

run_one_live_example : live (run moves []) ≤ 1
run_one_live_example = run_one_live moves

nothing_deployed : next "shop-1" [] ≡ step_open
unfolding next deployed
nothing_deployed = refl

two_passes_example :
    (next "shop-1" (open_entry candidate (100 * second) []) ≡ step_record)
    × (next "shop-1" (start recorded (open_entry candidate (100 * second) [])) ≡ step_deployed)
    × (deployed (start recorded (open_entry candidate (100 * second) []))
        ≡ some (started candidate (truncate_second (100 * second)) recorded))
two_passes_example =
    two_passes candidate (100 * second) recorded [] recorded_named empty-IsWell nothing_deployed

observe_recovers_example :
    observe
      (reported was_healthy Health.healthy)
      (300 * second)
      (observe (reported was_healthy Health.degraded) (200 * second) (was_healthy ∷ [])).0
    ≡ (
      recovered was_healthy (truncate_second (300 * second))
          ∷ ended_degraded was_healthy (truncate_second (200 * second))
          ∷ [],
      true,
    )
observe_recovers_example =
    observe_recovers [] was_healthy [] (200 * second) (300 * second) tt healthy_promoted refl
      (omega arith)

abbrev deployment_record : String
deployment_record = "deployment-1"

deployment_named : deployment_record ≢ ""
unfolding ◌=?◌
deployment_named = =?_ne deployment_record "" refl

unrecorded_here : Memᴰ was_healthy (unrecorded (was_healthy ∷ []))
unfolding ◌=?◌ unrecorded
unrecorded_here = Memᴰ.head refl

record_deployment_progress_example :
    length (
      unrecorded
        (record_deployment "sha256:aa" (160 * second) deployment_record (was_healthy ∷ [])))
    < length (unrecorded (was_healthy ∷ []))
record_deployment_progress_example =
    record_deployment_progress was_healthy deployment_record (was_healthy ∷ []) deployment_named
      unrecorded_here
