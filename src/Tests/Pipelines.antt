-- ===== src/Tests/Pipelines.antt =====
-- A pipeline of three stages, one with a cycle, and releases
-- (internal/promotion/pipeline.go, release.go, environment.go).
use mathlib.Core.List.{Memᴰ}
use kokumi.Prelude.Int.{pos}
use kokumi.Promotion.Gate.{Stage}
use kokumi.Promotion.Pipeline.{
  contains, drop_last, found_of, after_call, walk_loop, walk, Pipeline, PipelineOrder, lookup,
  no_problem, no_cycle, path_of, out_of_fuel, cycle, problem, upstreams_of,
}
use kokumi.Promotion.Pipeline.Fuel.{cycle-ne-out_of_fuel}
use kokumi.Promotion.Pipeline.Cycle.{
  RunsAfter, IsCycle, cycle_sound, cycle-no_cycle_iff, SameProduct, problem-no_problem_iff,
}
use kokumi.Promotion.Release.{Release, newest_ready, Requirement, required}
use kokumi.Promotion.Release.Newest.{IsNewest, newest_ready_lem}
use kokumi.Promotion.Release.Required.{IsMet, required-nil_iff}
use kokumi.Prelude.{
  String, ◌≡◌, refl, ◌≢◌, ◌↔◌, ◌⊎◌, true, false, none, some, List, [], ◌∷◌, arith, ◌=?◌,
  if◌then◌else◌, All,
}

abbrev dev_order : PipelineOrder
dev_order = record { product = "shop"; upstreams = [] }

abbrev prod_order : PipelineOrder
prod_order = record { product = "shop"; upstreams = "shop-dev" ∷ [] }

abbrev straight : Pipeline
straight = ("shop-dev", dev_order) ∷ ("shop-prod", prod_order) ∷ []

abbrev round : Pipeline
round =
    ("shop-dev", record dev_order { upstreams = "shop-prod" ∷ [] }) ∷ ("shop-prod", prod_order) ∷ []

prod_here : lookup "shop-prod" straight ≡ some prod_order
unfolding lookup ◌=?◌
prod_here = refl

round_path : cycle round "shop-dev" ≡ path_of ("shop-dev" ∷ "shop-prod" ∷ "shop-dev" ∷ [])
unfolding cycle lookup upstreams_of contains drop_last found_of after_call walk_loop walk ◌=?◌
round_path = refl

cycle-ne-out_of_fuel_example : cycle round "shop-dev" ≢ out_of_fuel
cycle-ne-out_of_fuel_example = cycle-ne-out_of_fuel round "shop-dev"

cycle_sound_example : IsCycle round "shop-dev" ("shop-dev" ∷ "shop-prod" ∷ "shop-dev" ∷ [])
cycle_sound_example =
    cycle_sound round "shop-dev" ("shop-dev" ∷ "shop-prod" ∷ "shop-dev" ∷ []) round_path

cycle-no_cycle_iff_example :
    (cycle straight "shop-prod" ≡ no_cycle) ↔ (¬ RunsAfter straight "shop-prod" "shop-prod")
cycle-no_cycle_iff_example = cycle-no_cycle_iff straight "shop-prod"

problem-no_problem_iff_example : (problem straight "shop-prod" ≡ no_problem) ↔ (
    SameProduct straight "shop" ("shop-dev" ∷ []) × (¬ RunsAfter straight "shop-prod" "shop-prod"))
problem-no_problem_iff_example = problem-no_problem_iff straight "shop-prod" prod_order prod_here

abbrev releases : List Release
releases =
    record { name = "r1"; created = 10; ready = true }
    ∷ record { name = "r2"; created = 20; ready = true }
    ∷ record { name = "r3"; created = 30; ready = false }
    ∷ []

newest_ready_lem_example :
    ((newest_ready releases ≡ none) × All (λ x. x.ready ≡ false) releases)
    ⊎ ((r : Release) × (newest_ready releases ≡ some r.name)
        × (r.ready ≡ true)
        × Memᴰ r releases
        × IsNewest r releases)
newest_ready_lem_example = newest_ready_lem releases

abbrev after_dev : List Stage
after_dev = record { order = "shop-dev"; soak_seconds = pos 600 } ∷ []

abbrev environment_of : String → String
environment_of order = if order =? "shop-dev" then "dev" else ""

abbrev needs_dev : List Requirement
needs_dev = record { environment = "dev"; min_soak_seconds = pos 300 } ∷ []

dev-IsMet :
    IsMet after_dev environment_of (record { environment = "dev"; min_soak_seconds = pos 300 })
unfolding ◌=?◌
dev-IsMet = record {
  stage = record { order = "shop-dev"; soak_seconds = pos 600 };
  named = Memᴰ.head refl;
  of_environment = refl;
  soaks = omega arith;
}

required-nil_iff_example : required after_dev environment_of needs_dev ≡ []
required-nil_iff_example = (required-nil_iff after_dev environment_of needs_dev).1 (dev-IsMet, tt)
