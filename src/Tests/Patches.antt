-- ===== src/Tests/Patches.antt =====
-- A Product that lists one path of one target (internal/resolve/merge.go).
use mathlib.Core.List.{Memᴰ}
use kokumi.Resolve.{PatchTarget, Patch, listed, AllowedTarget, Overrides, validate_patches}
use kokumi.Resolve.Merge.{merged, merged_unless, merge_patches}
use kokumi.Resolve.Merge.Wins.{setting, set_by, merge_patches-setting}
use kokumi.Resolve.Allowed.{IsAllowed, validate_patches-none_iff}
use kokumi.Prelude.{or_else, String, ◌≡◌, refl, ap, ◌=?◌, inl, inr, none, [], ◌∷◌, List}

abbrev web : PatchTarget
web = record { kind = "Deployment"; name = "web"; namespace = "" }

abbrev replicas : String
replicas = "spec.replicas"

abbrev listed_web : AllowedTarget
listed_web = record { target = web; paths = replicas ∷ [] }

abbrev overrides : Overrides
overrides = record { policy = listed; targets = listed_web ∷ [] }

abbrev scale : Patch
scale = record { target = record web { namespace = "shop" }; set = (replicas, "3") ∷ [] }

scale-IsAllowed : IsAllowed (listed_web ∷ []) scale
scale-IsAllowed = record {
  target_allowed = (listed_web, Memᴰ.head refl, (refl, refl, inl refl));
  paths_allowed = λ k m. (listed_web, Memᴰ.head refl, (refl, refl, inl refl), m);
}

validate_patches-none_iff_example : validate_patches overrides (scale ∷ []) ≡ none
validate_patches-none_iff_example =
    (validate_patches-none_iff overrides (scale ∷ [])).1 (inr (scale-IsAllowed, tt))

-- The Product's patches: of the replicas and the image of `web` in the namespace of the Order's patch.
abbrev product : List Patch
product =
    record {
      target = record web { namespace = "shop" };
      set = (replicas, "1") ∷ ("image", "web") ∷ [];
    }
    ∷ []

abbrev merged_web : List Patch
merged_web =
    record {
      target = record web { namespace = "shop" };
      set = (replicas, "3") ∷ ("image", "web") ∷ [];
    }
    ∷ []

scale_merged : merge_patches overrides product (scale ∷ []) ≡ merged merged_web
unfolding merge_patches ◌=?◌
scale_merged = ap (λ o. merged_unless o merged_web) validate_patches-none_iff_example

merge_patches-setting_example :
    (validate_patches overrides (scale ∷ []) ≡ none)
    × ((t : PatchTarget) (path : String)
        → setting t path merged_web ≡ or_else (set_by t path (scale ∷ [])) (set_by t path product))
merge_patches-setting_example =
    merge_patches-setting overrides product scale [] merged_web scale_merged
