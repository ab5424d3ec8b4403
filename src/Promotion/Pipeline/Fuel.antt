-- ===== src/Promotion/Pipeline/Fuel.antt =====
-- The fuel of `cycle` is enough: each nested call visits one more of the Orders
-- (internal/promotion/pipeline.go).
use kokumi.Promotion.Pipeline.{
  Pipeline, PipelineOrder, lookup, upstreams_of, contains, drop_last, State, Walked, after_call,
  walk_loop, walk, out_of_fuel, found_of, cycle,
}
use kokumi.Prelude.{
  ℕ, zero, suc, ◌+◌, ◌≤◌, ◌<◌, String, ◌≡◌, refl, sym, ap, ◌∙◌, ◌≢◌, ◌⊎◌, inl, inr, Bool, true,
  false, none, some, List, [], ◌∷◌, ◌++◌, arith, ◌=?◌, =?_iff, if◌then◌else◌, Bool-cases,
  Option-cases, length,
}

-- How many Orders of the map the search has not visited.
abbrev unvisited : Pipeline → List String → ℕ
unvisited [] v = 0
unvisited ((k, o) ∷ p) v = if contains v k then unvisited p v else suc (unvisited p v)

unvisited_mono :
    (p : Pipeline) (v w : List String)
    → ((x : String) → contains v x ≡ true → contains w x ≡ true)
    → unvisited p w ≤ unvisited p v
unvisited_mono [] v w g = omega arith
unvisited_mono ((k, o) ∷ p) v w g = ground (arith, unvisited_mono p v w g, g k)

contains_later :
    (u : String) (v : List String) (x : String) → contains v x ≡ true → contains (u ∷ v) x ≡ true
unfolding contains
contains_later u v x h = ground arith

unvisited_new :
    (p : Pipeline) (v : List String) (u : String) (o : PipelineOrder)
    → lookup u p ≡ some o
    → contains v u ≡ false
    → unvisited p (u ∷ v) < unvisited p v
unfolding lookup contains
unvisited_new [] v u o l n = cc
unvisited_new ((k, x) ∷ p) v u o l n = ground (
  arith,
  =?_iff k u,
  =?_iff u k,
  unvisited_new p v u o,
  unvisited_mono p v (u ∷ v) (contains_later u v),
)

abbrev Ends : State → Walked → Type 0
Ends s none = ⊥
Ends s (some (b, t)) = (x : String) → contains s.visited x ≡ true → contains t.visited x ≡ true

Ends-trans :
    (s t : State)
    → ((x : String) → contains s.visited x ≡ true → contains t.visited x ≡ true)
    → (w : Walked) → Ends t w
    → Ends s w
Ends-trans s t g none e = e
Ends-trans s t g (some (b, u)) e = λ x h. e x (g x h)

abbrev entered : String → State → State
entered u s = record { visited = u ∷ s.visited; path = s.path ++ u ∷ [] }

module _ (p : Pipeline) (order : String) (f : ℕ) (call : String → State → Walked)
    (right : (u : String) (s : State)
      → contains s.visited u ≡ false
      → unvisited p s.visited ≤ f
      → Ends (entered u s) (call u (entered u s))) where
  after_call-Ends :
      (u : String) (us : List String) (s : State) (w : Walked)
      → unvisited p s.visited ≤ f
      → Ends (entered u s) w
      → ((t : State) → unvisited p t.visited ≤ f → Ends t (walk_loop call order us t))
      → Ends s (after_call w (walk_loop call order us))
  unfolding after_call
  after_call-Ends u us s none l e later = e
  after_call-Ends u us s (some (true, t)) l e later = λ x h. e x (contains_later u s.visited x h)
  after_call-Ends u us s (some (false, t)) l e later =
      let g : (x : String) → contains s.visited x ≡ true → contains t.visited x ≡ true =
        λ x h. e x (contains_later u s.visited x h) in
      let b = record t { path = drop_last t.path } in
      Ends-trans s b g _ (later b (omega (arith, unvisited_mono p s.visited t.visited g)))

  walk_loop-Ends :
      (us : List String) (s : State)
      → unvisited p s.visited ≤ f
      → Ends s (walk_loop call order us s)
  unfolding walk_loop
  walk_loop-Ends [] s l = λ x h. h
  walk_loop-Ends (u ∷ us) s l = elim (Bool-cases (u =? order)) [
    | inl same ↦ rw same (λ x h. h)
    | inr other ↦ rw other (elim (Bool-cases (contains s.visited u)) [
      | inl old ↦ rw old (walk_loop-Ends us s l)
      | inr new ↦ rw new (after_call-Ends u us s _ l (right u s new l) (walk_loop-Ends us))
    ])
  ]

walk_leaf :
    (p : Pipeline) (order : String) (f : ℕ) (u : String) (s : State)
    → lookup u p ≡ none
    → walk p order (suc f) u s ≡ some (false, s)
unfolding walk walk_loop upstreams_of
walk_leaf p order f u s e = rw (e, upstreams_of) (refl)

walk-Ends :
    (p : Pipeline) (order : String) (f : ℕ) (name : String) (s : State)
    → unvisited p s.visited ≤ f
    → Ends s (walk p order (suc (suc f)) name s)
unfolding walk
walk-Ends p order zero name s l =
    walk_loop-Ends p order zero (walk p order (suc zero))
      (λ u t n k. leaf u t n k (Option-cases (lookup u p))) (upstreams_of p name) s l
  where
    leaf :
        (u : String) (t : State)
        → contains t.visited u ≡ false
        → unvisited p t.visited ≤ zero
        → (lookup u p ≡ none) ⊎ ((o : PipelineOrder) × (lookup u p ≡ some o))
        → Ends (entered u t) (walk p order (suc zero) u (entered u t))
    leaf u t n k (inl e) = rw (walk_leaf p order zero u (entered u t) e) (λ x h. h)
    leaf u t n k (inr (o, e)) = absurd (omega (arith, unvisited_new p t.visited u o e n))
walk-Ends p order (suc f) name s l =
    walk_loop-Ends p order (suc f) (walk p order (suc (suc f)))
      (λ u t n k. step u t n k (walk-Ends p order f u (entered u t)) (Option-cases (lookup u p)))
      (upstreams_of p name) s l
  where
    step :
        (u : String) (t : State)
        → contains t.visited u ≡ false
        → unvisited p t.visited ≤ suc f
        → (unvisited p (u ∷ t.visited) ≤ f
            → Ends (entered u t) (walk p order (suc (suc f)) u (entered u t)))
        → (lookup u p ≡ none) ⊎ ((o : PipelineOrder) × (lookup u p ≡ some o))
        → Ends (entered u t) (walk p order (suc (suc f)) u (entered u t))
    step u t n k ih (inl e) = rw (walk_leaf p order (suc f) u (entered u t) e) (λ x h. h)
    step u t n k ih (inr (o, e)) = ih (omega (arith, unvisited_new p t.visited u o e n))

unvisited_all : (p : Pipeline) → unvisited p [] ≤ length p
unfolding contains
unvisited_all [] = omega arith
unvisited_all ((k, o) ∷ p) = omega (arith, unvisited_all p)

abbrev pub start : String → State
start order = record { visited = []; path = order ∷ [] }

Ends-some : (s : State) (w : Walked) → Ends s w → (b : Bool) × (t : State) × (w ≡ some (b, t))
Ends-some s none e = absurd e
Ends-some s (some (b, t)) e = (b, t, refl)

-- The walk that `cycle` makes comes back.
pub cycle_walks :
    (p : Pipeline) (order : String)
    → (b : Bool) × (t : State) × (walk p order (length p + 2) order (start order) ≡ some (b, t))
cycle_walks p order =
    let e : length p + 2 ≡ suc (suc (length p)) = omega arith in
    Ends-some (start order) _
      (rw e (walk-Ends p order (length p) order (start order) (unvisited_all p)))

found_of-ne : (b : Bool) (t : State) → found_of (some (b, t)) ≢ out_of_fuel
unfolding found_of
found_of-ne true t e = cc
found_of-ne false t e = cc

-- The search of `cycle` never runs out of its fuel.
pub cycle-ne-out_of_fuel : (p : Pipeline) (order : String) → cycle p order ≢ out_of_fuel
unfolding cycle
cycle-ne-out_of_fuel p order h =
    let (b, t, e) = cycle_walks p order in found_of-ne b t (ap found_of (sym e) ∙ h)
