-- ===== src/Resolve/Allowed.antt =====
-- Which patches pass the overrides of a Product (internal/resolve/merge.go, validatePatches).
use mathlib.Core.List.{Memᴰ}
use mathlib.Core.List.Memᴰ
use mathlib.Core.Path.{subst}
use kokumi.Prelude.Order.{compare_string}
use kokumi.Prelude.Sort.{sort, mem-sort, sort-All}
use kokumi.Resolve.{
  PatchTarget, Patch, OverridePolicy, none_allowed, listed, all_allowed, AllowedTarget, Overrides,
  PatchError, covers, is_matched, paths_of, keys, first_refused, path_error, validate_patch_allowed,
  validate_each, validate_by, validate_patches,
}
use kokumi.Prelude.{
  All-mem, All-each, String, ◌≡◌, refl, sym, ◌↔◌, ◌⊎◌, inl, inr, true, Option, none, some, List, [],
  ◌∷◌, ◌++◌, arith, ◌=?◌, =?_iff, Bool-cases, any, All,
}

-- The allowed target names the resource, in its namespace or in any.
abbrev pub IsCovering : PatchTarget → AllowedTarget → Type 0
IsCovering t a =
    (a.target.kind ≡ t.kind)
    × (a.target.name ≡ t.name)
    × ((a.target.namespace ≡ "") ⊎ (a.target.namespace ≡ t.namespace))

-- Some allowed target covers the patch's, and each path that it sets is allowed by one that does.
pub record IsAllowed (allowed : List AllowedTarget) (p : Patch) : Type 0 where
  pub target_allowed : (a : AllowedTarget) × Memᴰ a allowed × IsCovering p.target a
  pub paths_allowed :
      (k : String)
      → Memᴰ k (keys p.set)
      → (a : AllowedTarget) × Memᴰ a allowed × IsCovering p.target a × Memᴰ k a.paths

covers_iff : (a : AllowedTarget) (t : PatchTarget) → (covers a t ≡ true) ↔ IsCovering t a
unfolding covers
covers_iff a t = ground (
  arith,
  =?_iff a.target.kind t.kind,
  =?_iff a.target.name t.name,
  =?_iff a.target.namespace "",
  =?_iff a.target.namespace t.namespace,
)

is_matched_iff :
    (l : List AllowedTarget) (t : PatchTarget)
    → (is_matched l t ≡ true) ↔ ((a : AllowedTarget) × Memᴰ a l × IsCovering t a)
unfolding is_matched
is_matched_iff [] t = (λ h. absurd (ground (arith, h)), λ (a, m, c). absurd (Memᴰ.not-nil m))
is_matched_iff (x ∷ l) t =
    let (there, back) = is_matched_iff l t in
    let here = covers_iff x t in
    elim (Bool-cases (covers x t)) [
      | inl c ↦ rw c (λ h. (x, Memᴰ.head refl, here.0 c), λ h. refl)
      | inr n ↦ rw n (
        λ h. let (a, m, c) = there h in (a, Memᴰ.tail m, c),
        λ (a, m, c). elim (Memᴰ.cases_cons m) [
          | inl e ↦ let no = here.1 (subst (IsCovering t) e c) in ground (arith, no, n)
          | inr later ↦ back (a, later, c)
        ],
      )
    ]

mem-append : (k : String) (xs ys : List String) → Memᴰ k (xs ++ ys) ↔ (Memᴰ k xs ⊎ Memᴰ k ys)
mem-append k [] ys = (λ m. inr m, λ m. elim m [ inl n ↦ absurd (Memᴰ.not-nil n) | inr n ↦ n ])
mem-append k (x ∷ xs) ys =
    let (there, back) = mem-append k xs ys in
    (
      λ m. elim (Memᴰ.cases_cons m) [
        | inl e ↦ inl (Memᴰ.head e)
        | inr later ↦ elim (there later) [ inl n ↦ inl (Memᴰ.tail n) | inr n ↦ inr n ]
      ],
      λ m. elim m [
        | inl n ↦ elim (Memᴰ.cases_cons n) [
          | inl e ↦ Memᴰ.head e
          | inr later ↦ Memᴰ.tail (back (inl later))
        ]
        | inr n ↦ Memᴰ.tail (back (inr n))
      ],
    )

mem-paths_of :
    (k : String) (l : List AllowedTarget) (t : PatchTarget)
    → Memᴰ k (paths_of l t) ↔ ((a : AllowedTarget) × Memᴰ a l × IsCovering t a × Memᴰ k a.paths)
unfolding paths_of
mem-paths_of k [] t = (λ m. absurd (Memᴰ.not-nil m), λ (a, m, c, q). absurd (Memᴰ.not-nil m))
mem-paths_of k (x ∷ l) t =
    let (there, back) = mem-paths_of k l t in
    let here = covers_iff x t in
    let (split, join) = mem-append k x.paths (paths_of l t) in
    elim (Bool-cases (covers x t)) [
      | inl c ↦ rw c (
        λ m. elim (split m) [
          | inl n ↦ (x, Memᴰ.head refl, here.0 c, n)
          | inr n ↦ let (a, o, d, q) = there n in (a, Memᴰ.tail o, d, q)
        ],
        λ (a, m, d, q). elim (Memᴰ.cases_cons m) [
          | inl e ↦ join (inl (subst (λ (y : AllowedTarget). Memᴰ k y.paths) e q))
          | inr later ↦ join (inr (back (a, later, d, q)))
        ],
      )
      | inr n ↦ rw n (
        λ m. let (a, o, d, q) = there m in (a, Memᴰ.tail o, d, q),
        λ (a, m, d, q). elim (Memᴰ.cases_cons m) [
          | inl e ↦ let no = here.1 (subst (IsCovering t) e d) in ground (arith, no, n)
          | inr later ↦ back (a, later, d, q)
        ],
      )
    ]

any_iff : (k : String) (l : List String) → (any (λ x. x =? k) l ≡ true) ↔ Memᴰ k l
any_iff k [] = (λ h. absurd (ground (arith, h)), λ m. absurd (Memᴰ.not-nil m))
any_iff k (x ∷ l) =
    let (there, back) = any_iff k l in
    elim (Bool-cases (x =? k)) [
      | inl e ↦ rw e (λ h. Memᴰ.head (sym ((=?_iff x k).0 e)), λ m. refl)
      | inr n ↦ rw n (
        λ h. Memᴰ.tail (there h),
        λ m. elim (Memᴰ.cases_cons m) [
          | inl e ↦ ground (arith, =?_iff x k, sym e, n)
          | inr later ↦ back later
        ],
      )
    ]

first_refused-none_iff :
    (allowed ps : List String)
    → (first_refused allowed ps ≡ none) ↔ ((k : String) → Memᴰ k ps → Memᴰ k allowed)
unfolding first_refused
first_refused-none_iff allowed [] = (λ h k m. absurd (Memᴰ.not-nil m), λ f. refl)
first_refused-none_iff allowed (p ∷ ps) =
    let (there, back) = first_refused-none_iff allowed ps in
    let here = any_iff p allowed in
    elim (Bool-cases (any (λ x. x =? p) allowed)) [
      | inl y ↦ rw y (
        λ h k m. elim (Memᴰ.cases_cons m) [
          | inl e ↦ subst (λ j. Memᴰ j allowed) (sym e) (here.0 y)
          | inr later ↦ there h k later
        ],
        λ f. back (λ k m. f k (Memᴰ.tail m)),
      )
      | inr n ↦ rw n (
        λ h. absurd (cc h),
        λ f. let yes_here = here.1 (f p (Memᴰ.head refl)) in ground (arith, yes_here, n),
      )
    ]

mem-sort_iff : (k : String) (l : List String) → Memᴰ k (sort compare_string l) ↔ Memᴰ k l
mem-sort_iff k l = (
  All-mem (λ j. Memᴰ j l) k (sort compare_string l)
      (sort-All compare_string (λ j. Memᴰ j l) l (All-each (λ j. Memᴰ j l) l (λ j m. m))),
  mem-sort compare_string k l,
)

path_error-none_iff : (t : PatchTarget) (o : Option String) → (path_error t o ≡ none) ↔ (o ≡ none)
path_error-none_iff t none = (λ h. refl, λ h. refl)
path_error-none_iff t (some p) = (λ h. absurd (cc h), λ h. absurd (cc h))

validate_patch_allowed-none_iff :
    (p : Patch) (allowed : List AllowedTarget)
    → (validate_patch_allowed p allowed ≡ none) ↔ IsAllowed allowed p
unfolding validate_patch_allowed
validate_patch_allowed-none_iff p allowed =
    let (sound, complete) = is_matched_iff allowed p.target in
    let sorted_keys = sort compare_string (keys p.set) in
    let error =
      path_error-none_iff p.target (first_refused (paths_of allowed p.target) sorted_keys) in
    let refused = first_refused-none_iff (paths_of allowed p.target) sorted_keys in
    elim (Bool-cases (is_matched allowed p.target)) [
      | inl y ↦ rw y (
        λ h. record {
          target_allowed = sound y;
          paths_allowed = λ k m.
              (mem-paths_of k allowed p.target).0
                (refused.0 (error.0 h) k ((mem-sort_iff k (keys p.set)).1 m));
        },
        λ a. error.1 (
            refused.1 (λ k m.
              (mem-paths_of k allowed p.target).1
                (a.paths_allowed k ((mem-sort_iff k (keys p.set)).0 m)))),
      )
      | inr n ↦ rw n (
        λ h. absurd (cc h),
        λ a. let yes_here = complete a.target_allowed in ground (arith, yes_here, n),
      )
    ]

validate_each-none_iff :
    (allowed : List AllowedTarget) (ps : List Patch)
    → (validate_each allowed ps ≡ none) ↔ All (IsAllowed allowed) ps
unfolding validate_each
validate_each-none_iff allowed [] = (λ h. tt, λ h. refl)
validate_each-none_iff allowed (p ∷ ps) =
    let (there, back) = validate_each-none_iff allowed ps in
    by_error (validate_patch_allowed p allowed) (validate_patch_allowed-none_iff p allowed) there
      back
  where
    by_error :
        (o : Option PatchError)
        → ((o ≡ none) ↔ IsAllowed allowed p)
        → (validate_each allowed ps ≡ none → All (IsAllowed allowed) ps)
        → (All (IsAllowed allowed) ps → validate_each allowed ps ≡ none)
        → (elim o [ some e ↦ some e | none ↦ validate_each allowed ps ] ≡ none)
          ↔ (IsAllowed allowed p × All (IsAllowed allowed) ps)
    by_error none here there back = (λ h. (here.0 refl, there h), λ h. back h.1)
    by_error (some e) here there back =
        (λ h. absurd (cc h), λ h. let no = here.1 h.0 in absurd (cc no))

-- The targets that the policy of the overrides lets be patched.
abbrev pub granted : OverridePolicy → List AllowedTarget → List AllowedTarget
granted listed targets = targets
granted _ targets = []

-- The patches pass the overrides exactly when the policy allows all patches, or for each patch some
-- target that the policy lists covers the patch's target, and each path that it sets is listed by
-- one that does. A policy that allows none lists no targets.
pub validate_patches-none_iff :
    (o : Overrides) (ps : List Patch)
    → (validate_patches o ps ≡ none)
      ↔ ((o.policy ≡ all_allowed) ⊎ All (IsAllowed (granted o.policy o.targets)) ps)
unfolding validate_patches validate_by
validate_patches-none_iff o ps = by_policy o.policy o.targets
  where
    by_policy :
        (q : OverridePolicy) (targets : List AllowedTarget)
        → (validate_by q targets ps ≡ none)
          ↔ ((q ≡ all_allowed) ⊎ All (IsAllowed (granted q targets)) ps)
    by_policy all_allowed targets = (λ h. inl refl, λ h. refl)
    by_policy listed targets =
        let (f, g) = validate_each-none_iff targets ps in
        (λ h. inr (f h), λ h. elim h [ inl e ↦ absurd (cc e) | inr a ↦ g a ])
    by_policy none_allowed targets =
        let (f, g) = validate_each-none_iff [] ps in
        (λ h. inr (f h), λ h. elim h [ inl e ↦ absurd (cc e) | inr a ↦ g a ])
