-- ===== src/Resolve/Merge/Wins.antt =====
-- Which patch wins (internal/resolve/merge.go, mergePatches).
use kokumi.Resolve.{PatchError, PatchTarget, Patch, Overrides, validate_patches}
use kokumi.Resolve.Merge.{
  refused, merged_unless, Settings, Table, same_target, put, copy_into, add_patch, add_patches,
  patches_of, merged, merge_patches,
}
use kokumi.Prelude.{
  or_else, String, ◌≡◌, refl, sym, ap, ◌∙◌, ◌≢◌, ◌↔◌, Bool, true, false, Option, none, some, List,
  [], ◌∷◌, ◌++◌, arith, ◌=?◌, =?_iff, if◌then◌else◌,
}

-- The setting of a map.
unfoldable pub get : String → Settings → Option String
get path [] = none
get path ((k, v) ∷ m) = if k =? path then some v else get path m

-- What a path is set to by the last one that sets it.
unfoldable pub last_in : String → Settings → Option String
last_in path [] = none
last_in path ((k, v) ∷ m) = or_else (last_in path m) (if k =? path then some v else none)

-- The setting by the last patch of the target that sets the path.
unfoldable pub set_by : PatchTarget → String → List Patch → Option String
unfolding last_in
set_by t path [] = none
set_by t path (p ∷ ps) =
    or_else (set_by t path ps) (if same_target p.target t then last_in path p.set else none)

-- The setting in a list that names the target once.
unfoldable pub setting : PatchTarget → String → List Patch → Option String
unfolding get
setting t path [] = none
setting t path (p ∷ ps) = if same_target p.target t then get path p.set else setting t path ps

get-put :
    (path k v : String) (m : Settings)
    → get path (put k v m) ≡ or_else (if k =? path then some v else none) (get path m)
unfolding get put
get-put path k v [] = ground arith
get-put path k v ((j, w) ∷ m) =
    ground (arith, get-put path k v m, =?_iff j k, =?_iff k path, =?_iff j path)

or_else_assoc : (a b c : Option String) → or_else (or_else a b) c ≡ or_else a (or_else b c)
or_else_assoc none b c = refl
or_else_assoc (some v) b c = refl

get-copy_into :
    (path : String) (set m : Settings)
    → get path (copy_into set m) ≡ or_else (last_in path set) (get path m)
unfolding copy_into last_in
get-copy_into path [] m = refl
get-copy_into path ((k, v) ∷ set) m =
    get-copy_into path set (put k v m)
    ∙ ap (or_else (last_in path set)) (get-put path k v m)
    ∙ sym (or_else_assoc (last_in path set) (if k =? path then some v else none) (get path m))

-- The same target.
same_target_iff : (a b : PatchTarget) → (same_target a b ≡ true) ↔ (a ≡ b)
same_target_iff a b =
    ground (arith, =?_iff a.kind b.kind, =?_iff a.name b.name, =?_iff a.namespace b.namespace)

false-ne-true : false ≢ true
false-ne-true e = ground (arith, e)

same_by :
    (u p t : PatchTarget) → same_target u t ≡ true → same_target p t ≡ true → same_target u p ≡ true
same_by u p t a b =
    (same_target_iff u p).1 ((same_target_iff u t).0 a ∙ sym ((same_target_iff p t).0 b))

same_target-same :
    (u p t : PatchTarget) → same_target u p ≡ true → same_target u t ≡ same_target p t
same_target-same u p t e = ap (λ x. same_target x t) ((same_target_iff u p).0 e)

setting-add_patch :
    (t : PatchTarget) (path : String) (p : Patch) (l : Table)
    → setting t path (patches_of (add_patch p l))
      ≡ or_else
          (if same_target p.target t then last_in path p.set else none)
          (setting t path (patches_of l))
unfolding add_patch patches_of setting
setting-add_patch t path p [] = by_test (same_target p.target t)
  where
    by_test :
        (same : Bool)
        → (if same then get path (copy_into p.set []) else none)
          ≡ or_else (if same then last_in path p.set else none) none
    by_test true = get-copy_into path p.set []
    by_test false = refl
setting-add_patch t path p ((u, m) ∷ l) =
    by_tests (same_target u p.target) (same_target p.target t) (same_target u t) refl refl refl
      (setting-add_patch t path p l)
  where
    by_tests :
        (found wanted here : Bool)
        → same_target u p.target ≡ found
        → same_target p.target t ≡ wanted
        → same_target u t ≡ here
        → setting t path (patches_of (add_patch p l))
          ≡ or_else
              (if same_target p.target t then last_in path p.set else none)
              (setting t path (patches_of l))
        → setting t path
            (patches_of (if found then (u, copy_into p.set m) ∷ l else (u, m) ∷ add_patch p l))
          ≡ or_else
              (if wanted then last_in path p.set else none)
              (if here then get path m else setting t path (patches_of l))
    by_tests true true true f w h rest = rw h (get-copy_into path p.set m)
    by_tests true false false f w h rest = rw h refl
    by_tests true true false f w h rest =
        absurd (false-ne-true (sym h ∙ same_target-same u p.target t f ∙ w))
    by_tests true false true f w h rest =
        absurd (false-ne-true (sym w ∙ sym (same_target-same u p.target t f) ∙ h))
    by_tests false true true f w h rest = absurd (false-ne-true (sym f ∙ same_by u p.target t h w))
    by_tests false true false f w h rest = rw h (rest ∙ rw w refl)
    by_tests false false true f w h rest = rw h refl
    by_tests false false false f w h rest = rw h (rest ∙ rw w refl)

setting-add_patches :
    (t : PatchTarget) (path : String) (ps : List Patch) (l : Table)
    → setting t path (patches_of (add_patches ps l))
      ≡ or_else (set_by t path ps) (setting t path (patches_of l))
unfolding add_patches set_by
setting-add_patches t path [] l = refl
setting-add_patches t path (p ∷ ps) l =
    setting-add_patches t path ps (add_patch p l)
    ∙ ap (or_else (set_by t path ps)) (setting-add_patch t path p l)
    ∙ sym (
        or_else_assoc (set_by t path ps)
          (if same_target p.target t then last_in path p.set else none)
          (setting t path (patches_of l)))

or_else-none : (a : Option String) → or_else a none ≡ a
or_else-none none = refl
or_else-none (some v) = refl

set_by-append :
    (t : PatchTarget) (path : String) (ps qs : List Patch)
    → set_by t path (ps ++ qs) ≡ or_else (set_by t path qs) (set_by t path ps)
unfolding set_by
set_by-append t path [] qs = sym (or_else-none (set_by t path qs))
set_by-append t path (p ∷ ps) qs =
    ap (λ x. or_else x (if same_target p.target t then last_in path p.set else none))
      (set_by-append t path ps qs)
    ∙ or_else_assoc (set_by t path qs) (set_by t path ps)
        (if same_target p.target t then last_in path p.set else none)

setting-nothing :
    (t : PatchTarget) (path : String) (a : Option String)
    → or_else a (setting t path (patches_of [])) ≡ a
unfolding setting patches_of
setting-nothing t path a = or_else-none a

merged-same : {a b : List Patch} → merged a ≡ merged b → a ≡ b
merged-same e = ground (arith, e)

refused-ne-merged : {e : PatchError} {a : List Patch} → refused e ≢ merged a
refused-ne-merged f = ground (arith, f)

-- When an Order with patches is merged over its Product: its patches were all allowed, and in the
-- result the setting of every path of every target is that of the Order's last patch of the target
-- that sets the path, else that of the Product's last one, else there is none.
pub merge_patches-setting :
    (overrides : Overrides) (product : List Patch) (p : Patch) (ps out : List Patch)
    → merge_patches overrides product (p ∷ ps) ≡ merged out
    → (validate_patches overrides (p ∷ ps) ≡ none)
      × ((t : PatchTarget) (path : String)
          → setting t path out ≡ or_else (set_by t path (p ∷ ps)) (set_by t path product))
unfolding merge_patches
merge_patches-setting overrides product p ps out e =
    by_error (validate_patches overrides (p ∷ ps)) refl e
  where
    all : List Patch
    all = patches_of (add_patches (product ++ (p ∷ ps)) [])

    all_set :
        (t : PatchTarget) (path : String)
        → setting t path all ≡ or_else (set_by t path (p ∷ ps)) (set_by t path product)
    all_set t path =
        setting-add_patches t path (product ++ (p ∷ ps)) []
        ∙ setting-nothing t path (set_by t path (product ++ (p ∷ ps)))
        ∙ set_by-append t path product (p ∷ ps)

    by_error :
        (o : Option PatchError)
        → validate_patches overrides (p ∷ ps) ≡ o
        → merged_unless o all ≡ merged out
        → (validate_patches overrides (p ∷ ps) ≡ none)
          × ((t : PatchTarget) (path : String)
              → setting t path out ≡ or_else (set_by t path (p ∷ ps)) (set_by t path product))
    by_error none v f = (v, λ t path. ap (setting t path) (sym (merged-same f)) ∙ all_set t path)
    by_error (some x) v f = absurd (refused-ne-merged f)
