-- ===== src/Tests/Stages.antt =====
-- A gate whose upstream stage `dev` qualifies the revision (internal/promotion/gate.go).
use mathlib.Core.List.{Memᴰ, ◌∷◌}
use kokumi.Prelude.Int.{pos}
use kokumi.Clock.{second}
use kokumi.Promotion.History.{EndReason, Entry, promoted_before}
use kokumi.Promotion.Gate.{
  satisfied, invalid_pipeline, severity, Stage, seconds, soak, Upstream, Request, evaluate_stage,
  evaluate,
}
use kokumi.Promotion.Gate.OneStage.{
  IsInt32, IsQualifying, IsStageQualified, evaluate_stage-satisfied_iff, evaluate_stage-invalid_iff,
}
use kokumi.Promotion.Gate.Decision.{severity_of, evaluate_most_severe, evaluate-satisfied_iff}
use kokumi.Prelude.{
  ◌*◌, ◌∷◌, ◌≡◌, ◌≢◌, [], arith, ◌=?◌, none, inr, All, some, if◌then◌else◌, ◌≤◌, refl, =?_ne,
}

abbrev pub dev_entry : Entry
dev_entry = record {
  preparation = "shop-1";
  digest = "sha256:aa";
  oci_ref = "oci://registry/shop";
  registry = "";
  product_revision = "v1";
  started = 1_000 * second;
  healthy = 1_100 * second;
  ended = 0;
  end_reason = EndReason.ongoing;
  promotion_record = "promotion-1";
  deployment_record = "deployment-1";
}

abbrev pub dev_stage : Stage
dev_stage = record { order = "dev"; soak_seconds = pos 60 }

abbrev dev : Upstream
dev = record { product = "shop"; history = dev_entry ∷ [] }

abbrev to_prod : Request
to_prod = record {
  preparation = "shop-prod-1";
  product = "shop";
  revision = "v1";
  stages = dev_stage ∷ [];
  self = [];
  upstreams = λ name. if name =? "dev" then some dev else none;
  now = 2_000 * second;
}

-- The same for a stage of another Product.
abbrev to_other : Request
to_other = record to_prod { product = "blog" }

dev-IsInt32 : IsInt32 dev_stage.soak_seconds
dev-IsInt32 = (omega arith, omega arith)

dev_qualifies : IsQualifying to_prod dev_stage dev_entry
unfolding soak seconds ◌=?◌
dev_qualifies = record {
  same_revision = refl;
  promotion_recorded = =?_ne "promotion-1" "" refl;
  was_healthy = omega arith;
  not_degraded = λ e. cc e;
  long_enough = omega arith;
  deployment_recorded = =?_ne "deployment-1" "" refl;
}

dev_qualified : IsStageQualified to_prod dev_stage
unfolding ◌=?◌
dev_qualified = record {
  upstream = dev;
  entry = dev_entry;
  exists = refl;
  same_product = refl;
  held = Memᴰ.head refl;
  qualifying = dev_qualifies;
}

never_promoted : promoted_before to_prod.preparation to_prod.self ≡ none
unfolding promoted_before
never_promoted = refl

stages_named : to_prod.stages ≢ []
stages_named e = cc e

dev_satisfied : (evaluate to_prod).outcome ≡ satisfied
dev_satisfied = (evaluate-satisfied_iff to_prod (dev-IsInt32, tt)).1 (inr (inr (dev_qualified, tt)))

dev_stage_satisfied : (evaluate_stage to_prod dev_stage).outcome ≡ satisfied
dev_stage_satisfied = (evaluate_stage-satisfied_iff to_prod dev_stage dev-IsInt32).1 dev_qualified

other_dev : to_other.upstreams dev_stage.order ≡ some dev
unfolding ◌=?◌
other_dev = refl

blog_shop : dev.product ≢ to_other.product
unfolding ◌=?◌
blog_shop = =?_ne "shop" "blog" refl

evaluate-satisfied_iff_example : (evaluate to_prod).outcome ≡ satisfied
evaluate-satisfied_iff_example =
    (evaluate-satisfied_iff to_prod (dev-IsInt32, tt)).1 (inr (inr (dev_qualified, tt)))

evaluate_most_severe_example :
    All (λ s. severity_of to_prod s ≤ severity (evaluate to_prod).outcome) to_prod.stages
    × ((s : Stage) × Memᴰ s to_prod.stages
        × (severity (evaluate to_prod).outcome ≡ severity_of to_prod s))
evaluate_most_severe_example = evaluate_most_severe to_prod stages_named never_promoted

evaluate_stage-satisfied_iff_example : (evaluate_stage to_prod dev_stage).outcome ≡ satisfied
evaluate_stage-satisfied_iff_example =
    (evaluate_stage-satisfied_iff to_prod dev_stage dev-IsInt32).1 dev_qualified

evaluate_stage-invalid_iff_example : (evaluate_stage to_other dev_stage).outcome ≡ invalid_pipeline
evaluate_stage-invalid_iff_example =
    (evaluate_stage-invalid_iff to_other dev_stage).1 (dev, other_dev, blog_shop)
