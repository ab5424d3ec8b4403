-- ===== src/Resolve.antt =====
-- internal/resolve/merge.go: which patches of an Order its Product allows. The map of a patch is an
-- association list; an unset policy is `none_allowed`.
pub mod Allowed
pub mod Merge
pub mod Values
use kokumi.Prelude.Order.{compare_string}
use kokumi.Prelude.Sort.{sort}
use kokumi.Prelude.{
  ℕ, zero, suc, ◌+◌, ◌-◌, ◌*◌, ◌/◌, ◌%◌, ◌^◌, ◌≤◌, ◌<◌, min, String, ◌≡◌, refl, sym, ap, ◌∙◌, ◌≢◌,
  ◌↔◌, ◌⊎◌, inl, inr, Bool, true, false, not, ◌&&◌, ◌||◌, Option, none, some, List, [], ◌∷◌, ◌++◌,
  map, arith, ltb, leb, ◌==◌, ◌=?◌, =?_iff, =?_refl, if◌then◌else◌, ltb→lt, leb→le, le→leb, lt→leb,
  Bool-cases, Option-cases, length, take, tail, any, All, All-take, length-take, take_all,
}

pub record PatchTarget : Type 0 where
  pub kind : String
  pub name : String
  pub namespace : String

pub record Patch : Type 0 where
  pub target : PatchTarget
  pub set : List (String × String)

pub data OverridePolicy : Type 0 where
  none_allowed listed all_allowed : OverridePolicy

pub record AllowedTarget : Type 0 where
  pub target : PatchTarget
  pub paths : List String

pub record Overrides : Type 0 where
  pub policy : OverridePolicy
  pub targets : List AllowedTarget

pub data PatchError : Type 0 where
  target_refused : PatchTarget → PatchError
  path_refused : String → PatchTarget → PatchError

-- The two guards of the first loop of `validatePatchAllowed`.
unfoldable pub covers : AllowedTarget → PatchTarget → Bool
covers a t =
    ((a.target.kind =? t.kind) && (a.target.name =? t.name))
    && ((a.target.namespace =? "") || (a.target.namespace =? t.namespace))

-- The variable `matched`.
unfoldable pub is_matched : List AllowedTarget → PatchTarget → Bool
unfolding covers
is_matched [] t = false
is_matched (a ∷ l) t = covers a t || is_matched l t

-- The keys of the variable `paths`.
unfoldable pub paths_of : List AllowedTarget → PatchTarget → List String
unfolding covers
paths_of [] t = []
paths_of (a ∷ l) t = let rest = paths_of l t in if covers a t then a.paths ++ rest else rest

abbrev pub keys : List (String × String) → List String
keys [] = []
keys ((k, v) ∷ s) = k ∷ keys s

-- The second loop, over the sorted paths of the patch.
unfoldable pub first_refused : List String → List String → Option String
first_refused allowed [] = none
first_refused allowed (p ∷ ps) =
    let rest = first_refused allowed ps in if any (λ x. x =? p) allowed then rest else some p

abbrev pub path_error : PatchTarget → Option String → Option PatchError
path_error t none = none
path_error t (some p) = some (path_refused p t)

unfoldable pub validate_patch_allowed : Patch → List AllowedTarget → Option PatchError
unfolding is_matched paths_of first_refused
validate_patch_allowed p allowed =
    if not (is_matched allowed p.target)
    then some (target_refused p.target)
    else path_error p.target
        (first_refused (paths_of allowed p.target) (sort compare_string (keys p.set)))

-- The loop of `validatePatches`, which the first error ends.
unfoldable pub validate_each : List AllowedTarget → List Patch → Option PatchError
unfolding validate_patch_allowed
validate_each allowed [] = none
validate_each allowed (p ∷ ps) =
    let rest = validate_each allowed ps in
    elim (validate_patch_allowed p allowed) [ some e ↦ some e | none ↦ rest ]

unfoldable pub validate_by : OverridePolicy → List AllowedTarget → List Patch → Option PatchError
unfolding validate_each
validate_by all_allowed targets ps = none
validate_by listed targets ps = validate_each targets ps
validate_by none_allowed targets ps = validate_each [] ps

unfoldable pub validate_patches : Overrides → List Patch → Option PatchError
unfolding validate_by
validate_patches o ps = validate_by o.policy o.targets ps
