-- ===== src/Resolve/Values/Leaves.antt =====
-- Which values an Order sets (internal/resolve/merge.go, mergeRender).
use mathlib.Core.Path.{subst}
use kokumi.Resolve.{OverridePolicy, none_allowed, listed, all_allowed}
use kokumi.Resolve.Values.{
  Value, leaf, object, Fields, no_fields, field, get, put, merge_value, merge_maps, first_of,
  join_path, refused_value, refused_path, is_listed, validate_values, MergedValues, merged_values,
  value_refused, merged_unless, merge_values,
}
use kokumi.Prelude.{
  String, ◌≡◌, refl, ap, ◌∙◌, ◌≢◌, ◌⊎◌, inl, inr, Bool, true, false, Option, none, some, List, [],
  ◌∷◌, arith, ◌=?◌, =?_iff, if◌then◌else◌,
}

-- The leaf at the end of a path of keys.
unfoldable mutual
  unfolding get

  pub leaf_of : List String → Option Value → Option String
  leaf_of path none = none
  leaf_of [] (some (leaf s)) = some s
  leaf_of (k ∷ path) (some (leaf s)) = none
  leaf_of [] (some (object o)) = none
  leaf_of (k ∷ path) (some (object o)) = leaf_of path (get k o)

abbrev pub leaf_at : List String → Fields → Option String
leaf_at path o = leaf_of path (some (object o))

-- The path leads to a leaf.
mutual
  pub data LeafOf : List String → Value → Type 0 where
    here : {s : String} → LeafOf [] (leaf s)
    inside : {path : List String} {o : Fields} → LeafIn path o → LeafOf path (object o)

  pub data LeafIn : List String → Fields → Type 0 where
    first :
        {k : String} {path : List String} {v : Value} {rest : Fields}
        → LeafOf path v
        → LeafIn (k ∷ path) (field k v rest)
    later :
        {path : List String} {k : String} {v : Value} {rest : Fields}
        → LeafIn path rest
        → LeafIn path (field k v rest)

get-put :
    (j k : String) (v : Value) (o : Fields)
    → get j (put k v o) ≡ (if k =? j then some v else get j o)
unfolding get put
get-put j k v no_fields = refl
get-put j k v (field i w rest) =
    ground (arith, get-put j k v rest, =?_iff i k, =?_iff k j, =?_iff i j)

mutual
  unfolding leaf_of get

  leaf_of-LeafOf :
      (path : List String) (v : Value) (s : String) → leaf_of path (some v) ≡ some s → LeafOf path v
  leaf_of-LeafOf [] (leaf x) s e = here
  leaf_of-LeafOf (k ∷ path) (leaf x) s e = ground (arith, e)
  leaf_of-LeafOf [] (object o) s e = ground (arith, e)
  leaf_of-LeafOf (k ∷ path) (object o) s e = inside (leaf_at-LeafIn k path o s e)

  leaf_at-LeafIn :
      (k : String) (path : List String) (o : Fields) (s : String)
      → leaf_of path (get k o) ≡ some s
      → LeafIn (k ∷ path) o
  leaf_at-LeafIn k path no_fields s e = ground (arith, e)
  leaf_at-LeafIn k path (field j v rest) s e =
      by_test (j =? k) refl e (leaf_of-LeafOf path v s) (leaf_at-LeafIn k path rest s)
    where
      by_test :
          (same : Bool)
          → (j =? k) ≡ same
          → leaf_of path (if same then some v else get k rest) ≡ some s
          → (leaf_of path (some v) ≡ some s → LeafOf path v)
          → (leaf_of path (get k rest) ≡ some s → LeafIn (k ∷ path) rest)
          → LeafIn (k ∷ path) (field j v rest)
      by_test true q e f g =
          subst (λ x. LeafIn (x ∷ path) (field j v rest)) ((=?_iff j k).0 q) (first (f e))
      by_test false q e f g = later (g e)

mutual
  unfolding merge_value leaf_of

  merge_value-Leaf :
      (path : List String) (v : Value) (old : Option Value) (s : String)
      → leaf_of path (some (merge_value v old)) ≡ some s
      → (leaf_of path old ≡ some s) ⊎ LeafOf path v
  merge_value-Leaf path (leaf x) old s e = inr (leaf_of-LeafOf path (leaf x) s e)
  merge_value-Leaf path (object src) none s e = inr (leaf_of-LeafOf path (object src) s e)
  merge_value-Leaf path (object src) (some (leaf x)) s e =
      inr (leaf_of-LeafOf path (object src) s e)
  merge_value-Leaf path (object src) (some (object dst)) s e =
      elim (merge_maps-Leaf path src dst s e) [ inl a ↦ inl a | inr b ↦ inr (inside b) ]

  merge_maps-Leaf :
      (path : List String) (src dst : Fields) (s : String)
      → leaf_at path (merge_maps src dst) ≡ some s
      → (leaf_at path dst ≡ some s) ⊎ LeafIn path src
  merge_maps-Leaf path no_fields dst s e = inl e
  merge_maps-Leaf [] (field k v rest) dst s e = ground (arith, e)
  merge_maps-Leaf (j ∷ path) (field k v rest) dst s e =
      by_rest (merge_maps-Leaf (j ∷ path) rest (put k (merge_value v (get k dst)) dst) s e)
        (merge_value-Leaf path v (get k dst) s)
    where
      by_key :
          (same : Bool)
          → (k =? j) ≡ same
          → leaf_of path (if same then some (merge_value v (get k dst)) else get j dst) ≡ some s
          → (leaf_of path (some (merge_value v (get k dst))) ≡ some s
              → (leaf_of path (get k dst) ≡ some s) ⊎ LeafOf path v)
          → (leaf_of path (get j dst) ≡ some s) ⊎ LeafIn (j ∷ path) (field k v rest)
      by_key false q f g = inl f
      by_key true q f g = elim (g f) [
        | inl a ↦ inl (subst (λ x. leaf_of path (get x dst) ≡ some s) ((=?_iff k j).0 q) a)
        | inr b ↦ inr (subst (λ x. LeafIn (x ∷ path) (field k v rest)) ((=?_iff k j).0 q) (first b))
      ]

      by_rest :
          (leaf_at (j ∷ path) (put k (merge_value v (get k dst)) dst) ≡ some s)
            ⊎ LeafIn (j ∷ path) rest
          → (leaf_of path (some (merge_value v (get k dst))) ≡ some s
              → (leaf_of path (get k dst) ≡ some s) ⊎ LeafOf path v)
          → (leaf_at (j ∷ path) dst ≡ some s) ⊎ LeafIn (j ∷ path) (field k v rest)
      by_rest (inr b) g = inr (later b)
      by_rest (inl a) g =
          by_key (k =? j) refl
            (subst (λ x. leaf_of path x ≡ some s) (get-put j k (merge_value v (get k dst)) dst) a) g

-- The text of the path of keys inside an object, by the path of the object.
unfoldable pub extend_path : String → List String → String
extend_path prefix [] = prefix
extend_path prefix (k ∷ path) = extend_path (join_path prefix k) path

first_of-none : (a b : Option String) → first_of a b ≡ none → (a ≡ none) × (b ≡ none)
first_of-none none b e = (refl, e)
first_of-none (some p) b e = ground (arith, e)

refused-ne-merged : {path : String} {o : Fields} → value_refused path ≢ merged_values o
refused-ne-merged e = ground (arith, e)

-- Where nothing is refused, every leaf is allowed.
mutual
  unfolding refused_value extend_path

  refused_value-allowed :
      (allowed : String → Bool) (prefix : String) (path : List String) (v : Value)
      → refused_value allowed prefix v ≡ none
      → LeafOf path v
      → allowed (extend_path prefix path) ≡ true
  refused_value-allowed allowed prefix path (object o) e (inside l) =
      refused_path-allowed allowed prefix path o e l
  refused_value-allowed allowed prefix [] (leaf s) e here = ground (arith, e)
  refused_value-allowed allowed prefix (k ∷ path) (leaf s) e x = elim x [ ]

  refused_path-allowed :
      (allowed : String → Bool) (prefix : String) (path : List String) (o : Fields)
      → refused_path allowed prefix o ≡ none
      → LeafIn path o
      → allowed (extend_path prefix path) ≡ true
  refused_path-allowed allowed prefix path no_fields e l = elim l [ ]
  refused_path-allowed allowed prefix _ (field k v rest) e (first {path = path} l) =
      refused_value-allowed allowed (join_path prefix k) path v
        (first_of-none (refused_value allowed (join_path prefix k) v)
          (refused_path allowed prefix rest) e).0
        l
  refused_path-allowed allowed prefix path (field k v rest) e (later l) =
      refused_path-allowed allowed prefix path rest
        (first_of-none (refused_value allowed (join_path prefix k) v)
          (refused_path allowed prefix rest) e).1
        l

merged-same : {a b : Fields} → merged_values a ≡ merged_values b → a ≡ b
merged-same {a = a} {b = b} = ap read
  where
    read : MergedValues → Fields
    read (merged_values o) = o
    read (value_refused path) = b

validate_values-allowed :
    (policy : OverridePolicy) (paths : List String) (o : Fields)
    → validate_values policy paths o ≡ none
    → (path : List String) → LeafIn path o
    → (policy ≡ all_allowed) ⊎ ((policy ≡ listed) × (is_listed paths (extend_path "" path) ≡ true))
unfolding validate_values
validate_values-allowed all_allowed paths o e path l = inl refl
validate_values-allowed listed paths o e path l =
    inr (refl, refused_path-allowed (is_listed paths) "" path o e l)
validate_values-allowed none_allowed paths o e path l =
    absurd (ground (arith, refused_path-allowed (λ p. false) "" path o e l))

-- When the values of an Order are merged over those of its Product, every leaf of the result is the
-- Product's leaf of the same path, unless the Product allows all values, or allows the listed paths
-- and lists the path of the leaf.
pub merge_values-Leaf :
    (policy : OverridePolicy) (paths : List String) (product order out : Fields)
    → merge_values policy paths product order ≡ merged_values out
    → (path : List String) (s : String) → leaf_at path out ≡ some s
    → ((leaf_at path product ≡ some s) ⊎ (policy ≡ all_allowed))
      ⊎ ((policy ≡ listed) × (is_listed paths (extend_path "" path) ≡ true))
unfolding merge_values
merge_values-Leaf policy paths product order out e path s at =
    by_check (validate_values policy paths order) refl e
  where
    by_check :
        (o : Option String)
        → validate_values policy paths order ≡ o
        → merged_unless o (merge_maps order product) ≡ merged_values out
        → ((leaf_at path product ≡ some s) ⊎ (policy ≡ all_allowed))
          ⊎ ((policy ≡ listed) × (is_listed paths (extend_path "" path) ≡ true))
    by_check none v f =
        elim (merge_maps-Leaf path order product s (ap (leaf_at path) (merged-same f) ∙ at)) [
          | inl a ↦ inl (inl a)
          | inr b ↦ elim (validate_values-allowed policy paths order v path b) [
            | inl c ↦ inl (inr c)
            | inr d ↦ inr d
          ]
        ]
    by_check (some x) v f = absurd (refused-ne-merged f)
