-- ===== src/Promotion/Pipeline/Cycle.antt =====
-- What `cycle` and `Problem` report, against the relation "runs after"
-- (internal/promotion/pipeline.go).
use mathlib.Core.Path.{subst}
use mathlib.Core.List.{Memᴰ}
use mathlib.Core.List.Memᴰ
use kokumi.Promotion.Pipeline.{
  Pipeline, PipelineOrder, lookup, upstreams_of, contains, State, Found, out_of_fuel, no_cycle,
  path_of, found_of, cycle, no_problem, of_other_product, first_other, other_variant, cycle_problem,
  problem_of, problem_from, problem,
}
use kokumi.Promotion.Pipeline.Search.{IsChain, Seen, Closed, Missed, Arrived, Answers, walk-Answers}
use kokumi.Promotion.Pipeline.Fuel.{start, cycle_walks}
use kokumi.Prelude.{
  ◌+◌, String, ◌≡◌, refl, sym, ◌≢◌, ◌↔◌, inl, inr, Bool, true, false, Option, none, some, List, [],
  ◌∷◌, ◌++◌, arith, ◌=?◌, =?_iff, Bool-cases, length, All,
}

-- An Order runs after another: it names it as an upstream, or names one that runs after it.
pub data RunsAfter (p : Pipeline) : String → String → Type 0 where
  directly : {a c : String} → Memᴰ c (upstreams_of p a) → RunsAfter p a c
  through :
      {a c : String} (b : String) → Memᴰ b (upstreams_of p a) → RunsAfter p b c → RunsAfter p a c

-- A path from the Order back to it, each Order naming the next one as an upstream.
pub record IsCycle (p : Pipeline) (order : String) (l : List String) : Type 0 where
  pub middle : List String
  pub round : l ≡ order ∷ (middle ++ order ∷ [])
  pub chain : IsChain p l

chain-RunsAfter :
    (p : Pipeline) (a c : String) (middle : List String)
    → IsChain p (a ∷ (middle ++ c ∷ []))
    → RunsAfter p a c
chain-RunsAfter p a c [] h = directly h.0
chain-RunsAfter p a c (b ∷ l) h = through b h.0 (chain-RunsAfter p b c l h.1)

pub IsCycle-RunsAfter :
    (p : Pipeline) (order : String) (l : List String) → IsCycle p order l → RunsAfter p order order
IsCycle-RunsAfter p order l c =
    chain-RunsAfter p order order c.middle (subst (IsChain p) c.round c.chain)

Seen-mem :
    (p : Pipeline) (order : String) (v us : List String) (u : String)
    → Seen p order v us
    → Memᴰ u us
    → (u ≢ order) × (contains v u ≡ true)
Seen-mem p order v [] u s m = absurd (Memᴰ.not-nil m)
Seen-mem p order v (x ∷ us) u s m = elim (Memᴰ.cases_cons m) [
  | inl e ↦ rw e s.0
  | inr later ↦ Seen-mem p order v us u s.1 later
]

-- From what a search that missed has visited no path leads to the Order.
missed_unreachable :
    (p : Pipeline) (order : String) (t : State)
    → ((x : String) → contains t.visited x ≡ true → Closed p order t.visited x)
    → (a c : String) → c ≡ order
    → Closed p order t.visited a
    → ¬ RunsAfter p a c
missed_unreachable p order t closed a c e s (directly m) =
    (Seen-mem p order t.visited (upstreams_of p a) c s m).0 e
missed_unreachable p order t closed a c e s (through b m r) =
    missed_unreachable p order t closed b c e
      (closed b (Seen-mem p order t.visited (upstreams_of p a) b s m).1) r

module _ (p : Pipeline) (order : String) where
  Missed-none :
      (t : State)
      → Missed p order (start order) t
      → Closed p order t.visited order
      → ¬ RunsAfter p order order
  unfolding contains
  Missed-none t m s =
      missed_unreachable p order t (λ x h. elim (m.closes x h) [ inl none_before ↦ cc | inr c ↦ c ])
        order order refl s

  Arrived-IsCycle : (t : State) → Arrived p order (start order) t → IsCycle p order t.path
  Arrived-IsCycle t a = record { middle = a.middle; round = a.goes_on; chain = a.chain }

  -- What the search found is a cycle, and it finds none only if there is none.
  abbrev Decides : Found → Type 0
  Decides out_of_fuel = ⊥
  Decides no_cycle = ¬ RunsAfter p order order
  Decides (path_of l) = IsCycle p order l

  found_Decides :
      (b : Bool) (t : State)
      → Answers p order (start order) (upstreams_of p order) (some (b, t))
      → Decides (found_of (some (b, t)))
  unfolding found_of
  found_Decides true t a = Arrived-IsCycle t a
  found_Decides false t (m, s) = Missed-none t m s

  cycle-Decides : Decides (cycle p order)
  unfolding cycle
  cycle-Decides =
      let (b, t, e) = cycle_walks p order in
      let a =
        walk-Answers p order (length p + 2) order (start order)
          (record { before = []; ends = refl; chain = tt }) in
      subst (λ w. Decides (found_of w)) (sym e)
        (found_Decides b t (subst (Answers p order (start order) (upstreams_of p order)) e a))

-- The path that `cycle` returns leads from the Order along upstream Orders back to it.
pub cycle_sound :
    (p : Pipeline) (order : String) (l : List String)
    → cycle p order ≡ path_of l
    → IsCycle p order l
cycle_sound p order l e = subst (Decides p order) e (cycle-Decides p order)

-- `cycle` returns no path exactly when the Order does not run after itself.
pub cycle-no_cycle_iff :
    (p : Pipeline) (order : String) → (cycle p order ≡ no_cycle) ↔ (¬ RunsAfter p order order)
cycle-no_cycle_iff p order = (
  λ e. subst (Decides p order) e (cycle-Decides p order),
  λ n. back n (cycle p order) (cycle-Decides p order),
)
  where
    back : ¬ RunsAfter p order order → (f : Found) → Decides p order f → f ≡ no_cycle
    back n out_of_fuel d = absurd d
    back n no_cycle d = refl
    back n (path_of l) d = absurd (n (IsCycle-RunsAfter p order l d))

-- Every upstream Order that exists is a variant of the Product.
abbrev pub SameProduct : Pipeline → String → List String → Type 0
SameProduct p product us =
    All (λ u. (o : PipelineOrder) → lookup u p ≡ some o → o.product ≡ product) us

round-none_iff :
    (product u : String) (found : Option PipelineOrder) (rest : Option (String × String))
    → (first_other u (of_other_product product found) rest ≡ none)
      ↔ (((o : PipelineOrder) → found ≡ some o → o.product ≡ product) × (rest ≡ none))
round-none_iff product u none rest = (λ h. (λ o e. cc, h), λ h. h.1)
round-none_iff product u (some x) rest = elim (Bool-cases (x.product =? product)) [
  | inl same ↦ rw same (λ h. (λ o e. ground (arith, =?_iff x.product product), h), λ h. h.1)
  | inr other ↦ rw other (λ h. cc, λ h. ground (arith, =?_iff x.product product, h.0 x refl))
]

other_variant-none_iff :
    (p : Pipeline) (product : String) (us : List String)
    → (other_variant p product us ≡ none) ↔ SameProduct p product us
unfolding other_variant
other_variant-none_iff p product [] = (λ h. tt, λ h. refl)
other_variant-none_iff p product (u ∷ us) =
    let (f, g) = round-none_iff product u (lookup u p) (other_variant p product us) in
    let (f', g') = other_variant-none_iff p product us in
    (λ h. ((f h).0, f' (f h).1), λ h. g (h.0, g' h.1))

cycle_problem_iff : (f : Found) → (cycle_problem f ≡ no_problem) ↔ (f ≡ no_cycle)
unfolding cycle_problem
cycle_problem_iff out_of_fuel = (λ h. cc, λ h. cc)
cycle_problem_iff no_cycle = (λ h. refl, λ h. refl)
cycle_problem_iff (path_of l) = (λ h. cc, λ h. cc)

problem_of_iff :
    (p : Pipeline) (order product : String) (found : Option (String × String))
    → (problem_of p order product found ≡ no_problem)
      ↔ ((found ≡ none) × (cycle p order ≡ no_cycle))
unfolding problem_of
problem_of_iff p order product none =
    let (f, g) = cycle_problem_iff (cycle p order) in (λ h. (refl, f h), λ h. g h.1)
problem_of_iff p order product (some (u, other)) = (λ h. cc, λ h. cc)

-- An Order of the pipeline has no problem exactly when each of its upstream Orders that exists is a
-- variant of its Product and it does not run after itself.
pub problem-no_problem_iff :
    (p : Pipeline) (order : String) (self : PipelineOrder)
    → lookup order p ≡ some self
    → (problem p order ≡ no_problem)
      ↔ (SameProduct p self.product self.upstreams × (¬ RunsAfter p order order))
unfolding problem problem_from
problem-no_problem_iff p order self e =
    let (f, g) =
      problem_of_iff p order self.product (other_variant p self.product self.upstreams) in
    let (f', g') = other_variant-none_iff p self.product self.upstreams in
    let (f'', g'') = cycle-no_cycle_iff p order in
    rw e (λ h. (f' (f h).0, f'' (f h).1), λ h. g (g' h.0, g'' h.1))
