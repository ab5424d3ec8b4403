-- ===== src/Promotion/Release.antt =====
-- internal/promotion/release.go and internal/promotion/environment.go: the choice of a release, and
-- the Environments that a Preparation must run after.
pub mod Newest
pub mod Required
use kokumi.Prelude.Int.{ℤ, leb_ℤ}
use kokumi.Prelude.Order.{Ordering, is_lt, compare_ℕ, compare_string, descending, lexicographic}
use kokumi.Clock.{Time}
use kokumi.Promotion.Gate.{Stage}
use kokumi.Prelude.{
  ℕ, zero, suc, ◌+◌, ◌-◌, ◌*◌, ◌/◌, ◌%◌, ◌^◌, ◌≤◌, ◌<◌, min, String, ◌≡◌, refl, sym, ap, ◌∙◌, ◌≢◌,
  ◌↔◌, ◌⊎◌, inl, inr, Bool, true, false, not, ◌&&◌, ◌||◌, Option, none, some, List, [], ◌∷◌, ◌++◌,
  map, arith, ltb, leb, ◌==◌, ◌=?◌, =?_iff, =?_refl, if◌then◌else◌, ltb→lt, leb→le, le→leb, lt→leb,
  Bool-cases, Option-cases, length, take, tail, any, All, All-take, length-take, take_all,
}

pub record Release : Type 0 where
  pub name : String
  pub created : Time
  pub ready : Bool

-- The int result of the source below, at and above 0 is `lt`, `eq` and `gt`.
unfoldable pub newest_first : Release → Release → Ordering
newest_first =
    lexicographic (λ a b. compare_ℕ b.created a.created) (λ a b. compare_string b.name a.name)

abbrev pub beats : Release → Option Release → Bool
beats r none = true
beats r (some newest) = is_lt (newest_first r newest)

-- The loop of `NewestReady`, with its variable `newest`.
unfoldable pub newest_of : List Release → Option Release → Option Release
unfolding newest_first
newest_of [] newest = newest
newest_of (r ∷ rs) newest = newest_of rs (if r.ready && beats r newest then some r else newest)

abbrev pub name_of : Option Release → Option String
name_of none = none
name_of (some r) = some r.name

unfoldable pub newest_ready : List Release → Option String
unfolding newest_of
newest_ready rs = name_of (newest_of rs none)

pub record Requirement : Type 0 where
  pub environment : String
  pub min_soak_seconds : ℤ

-- The stage is of the required Environment, with at least its soak. A name that the map lacks gives
-- the empty string.
unfoldable pub meets : (String → String) → Requirement → Stage → Bool
meets environments q s =
    (environments s.order =? q.environment) && leb_ℤ q.min_soak_seconds s.soak_seconds

-- The requirements that no stage meets, in their order. The text that `Required` returns lists them,
-- and is empty exactly when this list is.
unfoldable pub required : List Stage → (String → String) → List Requirement → List Requirement
unfolding meets
required stages environments [] = []
required stages environments (q ∷ qs) =
    let rest = required stages environments qs in
    if any (meets environments q) stages then rest else q ∷ rest
