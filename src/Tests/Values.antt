-- ===== src/Tests/Values.antt =====
-- A Product that lists the tag of its image (internal/resolve/merge.go).
use kokumi.Resolve.{all_allowed, listed}
use kokumi.Resolve.Values.{
  leaf, object, Fields, no_fields, field, is_listed, merged_values, value_refused, merge_values,
}
use kokumi.Resolve.Values.Leaves.{leaf_at, leaf_of, extend_path, merge_values-Leaf}
use kokumi.Prelude.{String, ◌≡◌, refl, ◌=?◌, ◌⊎◌, true, some, List, [], ◌∷◌}

-- `replicas` and `image.tag`, by the tag.
abbrev values : String → Fields
values tag =
    field "replicas" (leaf "1")
      (field "image" (object (field "tag" (leaf tag) no_fields)) no_fields)

abbrev tagged : Fields
tagged = field "image" (object (field "tag" (leaf "v2") no_fields)) no_fields

abbrev paths : List String
paths = "image.tag" ∷ []

abbrev at_tag : List String
at_tag = "image" ∷ "tag" ∷ []

tag_merged : merge_values listed paths (values "v1") tagged ≡ merged_values (values "v2")
unfolding merge_values ◌=?◌
tag_merged = refl

replicas_refused :
    merge_values listed paths (values "v1") (field "replicas" (leaf "3") no_fields)
    ≡ value_refused "replicas"
unfolding merge_values ◌=?◌
replicas_refused = refl

-- An object without a field at a path that is not listed is not refused.
empty_object_merged :
    merge_values listed paths (values "v1") (field "replicas" (object no_fields) no_fields)
    ≡ merged_values (
        field "replicas"
          (object no_fields)
          (field "image" (object (field "tag" (leaf "v1") no_fields)) no_fields))
unfolding merge_values ◌=?◌
empty_object_merged = refl

tag_at : leaf_at at_tag (values "v2") ≡ some "v2"
unfolding leaf_of ◌=?◌
tag_at = refl

merge_values-Leaf_example :
    ((leaf_at at_tag (values "v1") ≡ some "v2") ⊎ (listed ≡ all_allowed))
    ⊎ ((listed ≡ listed) × (is_listed paths (extend_path "" at_tag) ≡ true))
merge_values-Leaf_example =
    merge_values-Leaf listed paths (values "v1") tagged (values "v2") tag_merged at_tag "v2" tag_at
