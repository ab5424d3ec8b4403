-- ===== src/Promotion/Pipeline.antt =====
-- internal/promotion/pipeline.go: whether the upstream stages of an Order form a valid pipeline. The
-- map of Orders is an association list; the depth-first search of `cycle` takes fuel, and the two
-- variables that its closure writes are its state.
pub mod Search
pub mod Fuel
pub mod Cycle
use kokumi.Prelude.{
  ℕ, zero, suc, ◌+◌, ◌-◌, ◌*◌, ◌/◌, ◌%◌, ◌^◌, ◌≤◌, ◌<◌, min, String, ◌≡◌, refl, sym, ap, ◌∙◌, ◌≢◌,
  ◌↔◌, ◌⊎◌, inl, inr, Bool, true, false, not, ◌&&◌, ◌||◌, Option, none, some, List, [], ◌∷◌, ◌++◌,
  map, arith, ltb, leb, ◌==◌, ◌=?◌, =?_iff, =?_refl, if◌then◌else◌, ltb→lt, leb→le, le→leb, lt→leb,
  Bool-cases, Option-cases, length, take, tail, any, All, All-take, length-take, take_all,
}

pub record PipelineOrder : Type 0 where
  pub product : String
  pub upstreams : List String

abbrev pub Pipeline : Type 0
Pipeline = List (String × PipelineOrder)

unfoldable pub lookup : String → Pipeline → Option PipelineOrder
lookup name [] = none
lookup name ((k, o) ∷ p) = if k =? name then some o else lookup name p

abbrev pub upstreams_of_entry : Option PipelineOrder → List String
upstreams_of_entry none = []
upstreams_of_entry (some o) = o.upstreams

-- p[name].Upstreams
unfoldable pub upstreams_of : Pipeline → String → List String
unfolding lookup
upstreams_of p name = upstreams_of_entry (lookup name p)

unfoldable pub contains : List String → String → Bool
contains [] name = false
contains (x ∷ xs) name = (x =? name) || contains xs name

-- xs[:len(xs)-1]
unfoldable pub drop_last {ℓ} : {A : Type ℓ} → List A → List A
drop_last [] = []
drop_last (x ∷ []) = []
drop_last (x ∷ y ∷ xs) = x ∷ drop_last (y ∷ xs)

-- The variables `visited` and `path`.
pub record State : Type 0 where
  pub visited : List String
  pub path : List String

-- `none` is the fuel run out.
abbrev pub Walked : Type 0
Walked = Option (Bool × State)

-- What the loop does with the answer of the call of `walk` on `upstream`.
unfoldable pub after_call : Walked → (State → Walked) → Walked
unfolding drop_last
after_call none rest = none
after_call (some (true, s)) rest = some (true, s)
after_call (some (false, s)) rest = rest (record s { path = drop_last s.path })

-- The loop of `walk` over the upstream Orders, with `call` for the recursive call.
unfoldable pub walk_loop : (String → State → Walked) → String → List String → State → Walked
unfolding after_call contains
walk_loop call order [] s = some (false, s)
walk_loop call order (u ∷ us) s =
    if u =? order
    then some (true, record s { path = s.path ++ u ∷ [] })
    else if contains s.visited u
    then walk_loop call order us s
    else after_call (call u (record { visited = u ∷ s.visited; path = s.path ++ u ∷ [] }))
        (walk_loop call order us)

unfoldable pub walk : Pipeline → String → ℕ → String → State → Walked
unfolding walk_loop upstreams_of
walk p order zero name s = none
walk p order (suc fuel) name s = walk_loop (walk p order fuel) order (upstreams_of p name) s

pub data Found : Type 0 where
  out_of_fuel no_cycle : Found
  path_of : List String → Found

unfoldable pub found_of : Walked → Found
found_of none = out_of_fuel
found_of (some (true, s)) = path_of s.path
found_of (some (false, s)) = no_cycle

-- Each nested call of `walk` visits an Order for the first time, and an Order that is no key of the
-- map has no upstream Orders, so that this fuel is enough.
unfoldable pub cycle : Pipeline → String → Found
unfolding found_of walk
cycle p order =
    found_of (walk p order (length p + 2) order (record { visited = []; path = order ∷ [] }))

pub data Problem : Type 0 where
  no_problem : Problem
  variant_of : (name product wanted : String) → Problem
  cyclic : List String → Problem
  fuel_ran_out : Problem

abbrev pub of_other_product : String → Option PipelineOrder → Option String
of_other_product product none = none
of_other_product product (some o) = if o.product =? product then none else some o.product

-- A round of the loop of `Problem`, with what the rounds behind it return.
abbrev pub first_other :
    String → Option String → Option (String × String) → Option (String × String)
first_other u none rest = rest
first_other u (some other) rest = some (u, other)

-- The loop of `Problem` over the upstream Orders; `none` if it ends.
unfoldable pub other_variant : Pipeline → String → List String → Option (String × String)
other_variant p product [] = none
other_variant p product (u ∷ us) =
    first_other u (of_other_product product (lookup u p)) (other_variant p product us)

unfoldable pub cycle_problem : Found → Problem
cycle_problem out_of_fuel = fuel_ran_out
cycle_problem no_cycle = no_problem
cycle_problem (path_of l) = cyclic l

unfoldable pub problem_of : Pipeline → String → String → Option (String × String) → Problem
problem_of p order product (some (u, other)) = variant_of u other product
problem_of p order product none = cycle_problem (cycle p order)

unfoldable pub problem_from : Pipeline → String → Option PipelineOrder → Problem
problem_from p order none = no_problem
problem_from p order (some self) =
    problem_of p order self.product (other_variant p self.product self.upstreams)

unfoldable pub problem : Pipeline → String → Problem
problem p order = problem_from p order (lookup order p)
