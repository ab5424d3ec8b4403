-- ===== src/Resolve/Merge.antt =====
-- mergePatches of internal/resolve/merge.go: the patches of an Order over those of its Product. A map is an
-- association list; the keys of `merged` stand in the order of `ordering`.
pub mod Wins
use kokumi.Resolve.{PatchTarget, Patch, PatchError, Overrides, validate_patches}
use kokumi.Prelude.{
  ℕ, zero, suc, ◌+◌, ◌-◌, ◌*◌, ◌/◌, ◌%◌, ◌^◌, ◌≤◌, ◌<◌, min, String, ◌≡◌, refl, sym, ap, ◌∙◌, ◌≢◌,
  ◌↔◌, ◌⊎◌, inl, inr, Bool, true, false, not, ◌&&◌, ◌||◌, Option, none, some, List, [], ◌∷◌, ◌++◌,
  map, arith, ltb, leb, ◌==◌, ◌=?◌, =?_iff, =?_refl, if◌then◌else◌, ltb→lt, leb→le, le→leb, lt→leb,
  Bool-cases, Option-cases, length, take, tail, any, All, All-take, length-take, take_all,
}

abbrev pub Settings : Type 0
Settings = List (String × String)

-- The maps `merged`, by their keys.
abbrev pub Table : Type 0
Table = List (PatchTarget × Settings)

abbrev pub same_target : PatchTarget → PatchTarget → Bool
same_target a b = ((a.kind =? b.kind) && (a.name =? b.name)) && (a.namespace =? b.namespace)

unfoldable pub put : String → String → Settings → Settings
put k v [] = (k, v) ∷ []
put k v ((j, w) ∷ m) = let rest = (j, w) ∷ put k v m in if j =? k then (k, v) ∷ m else rest

-- maps.Copy of the settings into a map.
unfoldable pub copy_into : Settings → Settings → Settings
unfolding put
copy_into [] m = m
copy_into ((k, v) ∷ set) m = copy_into set (put k v m)

-- A round of the loop over the patches.
unfoldable pub add_patch : Patch → Table → Table
unfolding copy_into
add_patch p [] = (p.target, copy_into p.set []) ∷ []
add_patch p ((u, m) ∷ l) =
    let rest = (u, m) ∷ add_patch p l in
    if same_target u p.target then (u, copy_into p.set m) ∷ l else rest

unfoldable pub add_patches : List Patch → Table → Table
unfolding add_patch
add_patches [] table = table
add_patches (p ∷ ps) table = add_patches ps (add_patch p table)

unfoldable pub patches_of : Table → List Patch
patches_of [] = []
patches_of ((u, m) ∷ l) = record { target = u; set = m } ∷ patches_of l

-- What mergePatches returns.
pub data Merged : Type 0 where
  refused : PatchError → Merged
  merged : List Patch → Merged

abbrev pub merged_unless : Option PatchError → List Patch → Merged
merged_unless none ps = merged ps
merged_unless (some e) ps = refused e

unfoldable pub merge_patches : Overrides → List Patch → List Patch → Merged
unfolding add_patches patches_of
merge_patches overrides product [] = merged product
merge_patches overrides product (p ∷ ps) =
    merged_unless (validate_patches overrides (p ∷ ps))
      (patches_of (add_patches (product ++ (p ∷ ps)) []))
