-- ===== src/Promotion/Pipeline/Search.antt =====
-- The depth-first search of `cycle` (internal/promotion/pipeline.go) decides whether an Order runs
-- after itself.
use mathlib.Core.Path.{subst}
use mathlib.Core.List.{Memᴰ, append_assoc}
use kokumi.Promotion.Pipeline.{
  Pipeline, upstreams_of, contains, drop_last, State, Walked, after_call, walk_loop, walk,
}
use kokumi.Prelude.{
  ℕ, zero, suc, String, ◌≡◌, refl, sym, ap, ◌∙◌, ◌≢◌, ◌⊎◌, inl, inr, true, false, none, some, List,
  [], ◌∷◌, ◌++◌, arith, ◌=?◌, =?_iff, =?_refl, Bool-cases, All,
}

-- Each Order of the list names the next one as an upstream Order.
abbrev pub IsChain : Pipeline → List String → Type 0
IsChain p [] = Unit
IsChain p (x ∷ []) = Unit
IsChain p (x ∷ y ∷ l) = Memᴰ y (upstreams_of p x) × IsChain p (y ∷ l)

IsChain-snoc :
    (p : Pipeline) (pre : List String) (a b : String)
    → IsChain p (pre ++ a ∷ [])
    → Memᴰ b (upstreams_of p a)
    → IsChain p ((pre ++ a ∷ []) ++ b ∷ [])
IsChain-snoc p [] a b c m = (m, tt)
IsChain-snoc p (x ∷ []) a b c m = (c.0, (m, tt))
IsChain-snoc p (x ∷ y ∷ pre) a b c m = (c.0, IsChain-snoc p (y ∷ pre) a b c.1 m)

drop_last-snoc {ℓ} : {A : Type ℓ} (xs : List A) (x : A) → drop_last (xs ++ x ∷ []) ≡ xs
unfolding drop_last
drop_last-snoc [] x = refl
drop_last-snoc (y ∷ []) x = refl
drop_last-snoc (y ∷ z ∷ xs) x = ap (λ t. y ∷ t) (drop_last-snoc (z ∷ xs) x)

abbrev pub IsIn : String → List String → Type 0
IsIn x xs = contains xs x ≡ true

contains-cons : (x u : String) (xs : List String) → IsIn x (u ∷ xs) → (u ≡ x) ⊎ IsIn x xs
unfolding contains
contains-cons x u xs h = ground (arith, =?_iff u x)

contains_later : (x u : String) (xs : List String) → IsIn x xs → IsIn x (u ∷ xs)
unfolding contains
contains_later x u xs h = ground arith

contains_first : (u : String) (xs : List String) → IsIn u (u ∷ xs)
unfolding contains
contains_first u xs = ground (arith, =?_refl u)

module _ (p : Pipeline) (order : String) where
  -- The search has been at the upstream Orders, and none of them is `order`.
  abbrev pub Seen : List String → List String → Type 0
  Seen visited us = All (λ u. (u ≢ order) × IsIn u visited) us

  abbrev pub Closed : List String → String → Type 0
  Closed visited x = Seen visited (upstreams_of p x)

  Seen-grows :
      (v w : List String)
      → ((x : String) → IsIn x v → IsIn x w)
      → (us : List String) → Seen v us
      → Seen w us
  Seen-grows v w g [] a = tt
  Seen-grows v w g (u ∷ us) a = ((a.0.0, g u a.0.1), Seen-grows v w g us a.1)

  -- The search came back: the path is as it was, and what it visited leads only to what it visited.
  pub record Missed (s t : State) : Type 0 where
    pub same_path : t.path ≡ s.path
    pub grows : (x : String) → IsIn x s.visited → IsIn x t.visited
    pub closes : (x : String) → IsIn x t.visited → IsIn x s.visited ⊎ Closed t.visited x

  -- The search arrived: the path goes on, along upstream Orders, to `order`.
  pub record Arrived (s t : State) : Type 0 where
    pub middle : List String
    pub goes_on : t.path ≡ s.path ++ (middle ++ order ∷ [])
    pub chain : IsChain p t.path

  abbrev pub Answers : State → List String → Walked → Type 0
  Answers s us none = Unit
  Answers s us (some (true, t)) = Arrived s t
  Answers s us (some (false, t)) = Missed s t × Seen t.visited us

  -- The path of a call of `walk` on `name` ends with it.
  pub record EndsWith (name : String) (s : State) : Type 0 where
    pub before : List String
    pub ends : s.path ≡ before ++ name ∷ []
    pub chain : IsChain p s.path

  Missed-refl : (s : State) → Missed s s
  Missed-refl s = record { same_path = refl; grows = λ x h. h; closes = λ x h. inl h }

  abbrev entered : String → State → State
  entered u s = record { visited = u ∷ s.visited; path = s.path ++ u ∷ [] }

  EndsWith-entered :
      (name u : String) (s : State)
      → EndsWith name s
      → Memᴰ u (upstreams_of p name)
      → EndsWith u (entered u s)
  EndsWith-entered name u s e m = record {
    before = s.path;
    ends = refl;
    chain =
        let c : IsChain p (e.before ++ name ∷ []) = subst (IsChain p) e.ends e.chain in
        subst (λ l. IsChain p (l ++ u ∷ [])) (sym e.ends) (IsChain-snoc p e.before name u c m);
  }

  -- Back from a call that missed, with its last step taken off the path.
  back : State → State
  back t = record t { path = drop_last t.path }

  Missed-back :
      (u : String) (s t : State) → Missed (entered u s) t → Closed t.visited u → Missed s (back t)
  unfolding back
  Missed-back u s t m c = record {
    same_path = ap drop_last m.same_path ∙ drop_last-snoc s.path u;
    grows = λ x h. m.grows x (contains_later x u s.visited h);
    closes = λ x h. elim (m.closes x h) [
      | inl old ↦ elim (contains-cons x u s.visited old) [
        | inl e ↦ inr (subst (Closed t.visited) e c)
        | inr before ↦ inl before
      ]
      | inr closed ↦ inr closed
    ];
  }

  Missed-trans : (s t w : State) → Missed s t → Missed t w → Missed s w
  Missed-trans s t w a b = record {
    same_path = b.same_path ∙ a.same_path;
    grows = λ x h. b.grows x (a.grows x h);
    closes = λ x h. elim (b.closes x h) [
      | inl mid ↦ elim (a.closes x mid) [
        | inl old ↦ inl old
        | inr c ↦ inr (Seen-grows t.visited w.visited b.grows (upstreams_of p x) c)
      ]
      | inr c ↦ inr c
    ];
  }

  Arrived-entered : (u : String) (s t : State) → Arrived (entered u s) t → Arrived s t
  Arrived-entered u s t a = record {
    middle = u ∷ a.middle;
    goes_on = a.goes_on ∙ append_assoc s.path (u ∷ []) (a.middle ++ order ∷ []);
    chain = a.chain;
  }

  -- An answer from a later state, with one more upstream Order that was seen before it.
  Answers-cons :
      (s t : State) (u : String) (us : List String)
      → Missed s t
      → u ≢ order
      → IsIn u t.visited
      → (w : Walked) → Answers t us w
      → Answers s (u ∷ us) w
  Answers-cons s t u us m n i none a = tt
  Answers-cons s t u us m n i (some (true, w)) a = record {
    middle = a.middle;
    goes_on = a.goes_on ∙ ap (λ l. l ++ (a.middle ++ order ∷ [])) m.same_path;
    chain = a.chain;
  }
  Answers-cons s t u us m n i (some (false, w)) (b, seen) =
      (Missed-trans s t w m b, ((n, b.grows u i), seen))

  EndsWith-same :
      (name : String) (s t : State) → t.path ≡ s.path → EndsWith name s → EndsWith name t
  EndsWith-same name s t e w = record {
    before = w.before;
    ends = e ∙ w.ends;
    chain = subst (IsChain p) (sym e) w.chain;
  }

  module _ (call : String → State → Walked)
      (right : (u : String) (s : State)
        → EndsWith u s
        → Answers s (upstreams_of p u) (call u s)) where
    after_call-Answers :
        (u : String) (us : List String) (s : State) (w : Walked)
        → u ≢ order
        → Answers (entered u s) (upstreams_of p u) w
        → ((t : State) → t.path ≡ s.path → Answers t us (walk_loop call order us t))
        → Answers s (u ∷ us) (after_call w (walk_loop call order us))
    unfolding after_call back
    after_call-Answers u us s none n a later = tt
    after_call-Answers u us s (some (true, t)) n a later = Arrived-entered u s t a
    after_call-Answers u us s (some (false, t)) n (m, c) later =
        let b = Missed-back u s t m c in
        Answers-cons s (back t) u us b n (m.grows u (contains_first u s.visited)) _
          (later (back t) b.same_path)

    walk_loop-Answers :
        (name : String) (us : List String) (s : State)
        → EndsWith name s
        → All (λ u. Memᴰ u (upstreams_of p name)) us
        → Answers s us (walk_loop call order us s)
    unfolding walk_loop
    walk_loop-Answers name [] s e a = (Missed-refl s, tt)
    walk_loop-Answers name (u ∷ us) s e a = elim (Bool-cases (u =? order)) [
      | inl same ↦ rw same (record {
        middle = [];
        goes_on = ap (λ x. s.path ++ x ∷ []) ((=?_iff u order).0 same);
        chain = (EndsWith-entered name u s e a.0).chain;
      })
      | inr other ↦ rw other (elim (Bool-cases (contains s.visited u)) [
        | inl old ↦ rw old (
            Answers-cons s s u us (Missed-refl s) (ground (arith, =?_iff u order)) old _
              (walk_loop-Answers name us s e a.1))
        | inr new ↦ rw new (
            after_call-Answers u us s _ (ground (arith, =?_iff u order))
              (right u (entered u s) (EndsWith-entered name u s e a.0))
              (λ t same. walk_loop-Answers name us t (EndsWith-same name s t same e) a.1))
      ])
    ]

  All-mem {ℓ} :
      {A : Type ℓ} (us ws : List A) → ((u : A) → Memᴰ u us → Memᴰ u ws) → All (λ u. Memᴰ u ws) us
  All-mem [] ws f = tt
  All-mem (u ∷ us) ws f = (f u (Memᴰ.head refl), All-mem us ws (λ x m. f x (Memᴰ.tail m)))

  pub walk-Answers :
      (fuel : ℕ) (name : String) (s : State)
      → EndsWith name s
      → Answers s (upstreams_of p name) (walk p order fuel name s)
  unfolding walk
  walk-Answers zero name s e = tt
  walk-Answers (suc fuel) name s e =
      walk_loop-Answers (walk p order fuel) (walk-Answers fuel) name (upstreams_of p name) s e
        (All-mem (upstreams_of p name) (upstreams_of p name) (λ u m. m))
