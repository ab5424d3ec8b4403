-- ===== src/Resolve/Values.antt =====
-- mergeMaps and validateValues of internal/resolve/merge.go: the Helm values of an Order over those of its
-- Product. A value is an object or another JSON value, by its text; the fields of an object stand in an
-- order, which nothing depends on but which of several refused paths an error names.
pub mod Leaves
use Prim.Native.String.{◌++◌}
use kokumi.Resolve.{OverridePolicy, none_allowed, listed, all_allowed}
use kokumi.Prelude.{
  ℕ, zero, suc, ◌+◌, ◌-◌, ◌*◌, ◌/◌, ◌%◌, ◌^◌, ◌≤◌, ◌<◌, min, String, ◌≡◌, refl, sym, ap, ◌∙◌, ◌≢◌,
  ◌↔◌, ◌⊎◌, inl, inr, Bool, true, false, not, ◌&&◌, ◌||◌, Option, none, some, List, [], ◌∷◌, map,
  arith, ltb, leb, ◌==◌, ◌=?◌, =?_iff, =?_refl, if◌then◌else◌, ltb→lt, leb→le, le→leb, lt→leb,
  Bool-cases, Option-cases, length, take, tail, any, All, All-take, length-take, take_all,
}

mutual
  pub data Value : Type 0 where
    leaf : String → Value
    object : Fields → Value

  pub data Fields : Type 0 where
    no_fields : Fields
    field : String → Value → Fields → Fields

unfoldable pub get : String → Fields → Option Value
get k no_fields = none
get k (field j v rest) = if j =? k then some v else get k rest

unfoldable pub put : String → Value → Fields → Fields
put k v no_fields = field k v no_fields
put k v (field j w rest) =
    let more = field j w (put k v rest) in if j =? k then field k v rest else more

-- What the loop of mergeMaps writes for a field, by what `result` holds there.
unfoldable mutual
  unfolding put get

  pub merge_value : Value → Option Value → Value
  merge_value (leaf s) old = leaf s
  merge_value (object src) none = object src
  merge_value (object src) (some (leaf s)) = object src
  merge_value (object src) (some (object dst)) = object (merge_maps src dst)

  -- mergeMaps, with the source first.
  pub merge_maps : Fields → Fields → Fields
  merge_maps no_fields dst = dst
  merge_maps (field k v rest) dst = merge_maps rest (put k (merge_value v (get k dst)) dst)

-- The path of a key in an object, by the path of the object.
unfoldable pub join_path : String → String → String
join_path prefix k = if prefix =? "" then k else (prefix ++ ("." ++ k))

-- The loop of validateValuePaths: the first path refused.
abbrev pub first_of : Option String → Option String → Option String
first_of (some p) rest = some p
first_of none rest = rest

unfoldable mutual
  unfolding join_path

  pub refused_value : (String → Bool) → String → Value → Option String
  refused_value allowed path (leaf s) = if allowed path then none else some path
  refused_value allowed path (object o) = refused_path allowed path o

  -- validateValuePaths
  pub refused_path : (String → Bool) → String → Fields → Option String
  refused_path allowed prefix no_fields = none
  refused_path allowed prefix (field k v rest) =
      first_of (refused_value allowed (join_path prefix k) v) (refused_path allowed prefix rest)

abbrev pub is_listed : List String → String → Bool
is_listed paths path = any (λ p. p =? path) paths

unfoldable pub validate_values : OverridePolicy → List String → Fields → Option String
unfolding refused_path
validate_values all_allowed paths values = none
validate_values listed paths values = refused_path (is_listed paths) "" values
validate_values none_allowed paths values = refused_path (λ path. false) "" values

-- What mergeRender does with values that are decoded: the merged values, or the path refused.
pub data MergedValues : Type 0 where
  merged_values : Fields → MergedValues
  value_refused : String → MergedValues

abbrev pub merged_unless : Option String → Fields → MergedValues
merged_unless none values = merged_values values
merged_unless (some path) values = value_refused path

unfoldable pub merge_values : OverridePolicy → List String → Fields → Fields → MergedValues
unfolding validate_values merge_maps
merge_values policy paths product order =
    merged_unless (validate_values policy paths order) (merge_maps order product)
