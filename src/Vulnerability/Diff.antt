-- ===== src/Vulnerability/Diff.antt =====
-- internal/vulnerability/diff.go, and Compare of internal/vulnerability/evaluate.go: the findings that
-- one release has and another lacks. The map `present` is the list of its keys, the last one first.
pub mod Missing
use kokumi.Prelude.Order.{Ordering, compare_ℕ, compare_string, descending, lexicographic}
use kokumi.Prelude.Sort.{sort}
use kokumi.Vulnerability.Severity.{Severity, rank, Finding}
use kokumi.Vulnerability.Evaluation.{Image, Scan, ReadError, Assessment}
use kokumi.Prelude.{
  ℕ, zero, suc, ◌+◌, ◌-◌, ◌*◌, ◌/◌, ◌%◌, ◌^◌, ◌≤◌, ◌<◌, min, String, ◌≡◌, refl, sym, ap, ◌∙◌, ◌≢◌,
  ◌↔◌, ◌⊎◌, inl, inr, Bool, true, false, not, ◌&&◌, ◌||◌, Option, none, some, List, [], ◌∷◌, ◌++◌,
  map, arith, ltb, leb, ◌==◌, ◌=?◌, =?_iff, =?_refl, if◌then◌else◌, ltb→lt, leb→le, le→leb, lt→leb,
  Bool-cases, Option-cases, length, take, tail, any, All, All-take, length-take, take_all,
}

abbrev pub FindingKey : Type 0
FindingKey = String × String

abbrev pub key_of : Finding → FindingKey
key_of f = (f.id, f.package_name)

abbrev pub same_key : FindingKey → FindingKey → Bool
same_key (i, p) (j, q) = (i =? j) && (p =? q)

unfoldable pub has_key : FindingKey → List FindingKey → Bool
has_key k [] = false
has_key k (j ∷ js) = same_key j k || has_key k js

abbrev pub keys_of : List Finding → List FindingKey
keys_of [] = []
keys_of (f ∷ fs) = key_of f ∷ keys_of fs

-- The second loop of `missing`.
unfoldable pub absent : List FindingKey → List Finding → List Finding
unfolding has_key
absent present [] = []
absent present (f ∷ fs) = elim (has_key (key_of f) present) [
  | true ↦ absent present fs
  | false ↦ f ∷ absent (key_of f ∷ present) fs
]

unfoldable pub most_severe_first : Finding → Finding → Ordering
unfolding rank
most_severe_first =
    lexicographic (λ a b. compare_ℕ (rank b.severity) (rank a.severity))
      (lexicographic (λ a b. compare_string a.id b.id)
        (λ a b. compare_string a.package_name b.package_name))

unfoldable pub missing : List Finding → List Finding → List Finding
unfolding absent
missing from other = sort most_severe_first (absent (keys_of other) from)

unfoldable pub diff : List Finding → List Finding → List Finding × List Finding
unfolding missing
diff current previous = (missing current previous, missing previous current)

pub record ImageFinding : Type 0 where
  pub finding : Finding
  pub image : String

pub record Comparison : Type 0 where
  pub added : List ImageFinding
  pub removed : List ImageFinding
  pub current_missing : List String
  pub baseline_missing : List String

-- images[key], "" when it is missing.
unfoldable pub image_of : FindingKey → List (FindingKey × String) → String
image_of k [] = ""
image_of k ((j, name) ∷ t) = if same_key j k then name else image_of k t

unfoldable pub is_seen : FindingKey → List (FindingKey × String) → Bool
is_seen k [] = false
is_seen k ((j, name) ∷ t) = same_key j k || is_seen k t

-- The inner loop of `collect`, with its variable `images`.
unfoldable pub note_images :
    String → List Finding → List (FindingKey × String) → List (FindingKey × String)
unfolding is_seen
note_images name [] images = images
note_images name (f ∷ fs) images =
    note_images name fs (if is_seen (key_of f) images then images else (key_of f, name) ∷ images)

-- The variables of `collect`.
pub record Collected : Type 0 where
  pub findings : List Finding
  pub images : List (FindingKey × String)
  pub missing : List String

abbrev pub has_findings : Assessment → Bool
has_findings a = a.image.vendored && (is_some a.image.scan && is_none a.error)
  where
    is_some : Option Scan → Bool
    is_some (some s) = true
    is_some none = false

    is_none : Option ReadError → Bool
    is_none none = true
    is_none (some e) = false

unfoldable pub collect_from : List Assessment → Collected → Collected
unfolding note_images
collect_from [] c = c
collect_from (a ∷ l) c = collect_from l (
    if has_findings a
    then record {
      findings = c.findings ++ a.findings;
      images = note_images a.image.name a.findings c.images;
      missing = c.missing;
    }
    else record c { missing = c.missing ++ a.image.name ∷ [] })

unfoldable pub collect : List Assessment → Collected
unfolding collect_from
collect l = collect_from l (record { findings = []; images = []; missing = [] })

unfoldable pub with_images : List (FindingKey × String) → List Finding → List ImageFinding
unfolding image_of
with_images images [] = []
with_images images (f ∷ fs) =
    record { finding = f; image = image_of (key_of f) images } ∷ with_images images fs

unfoldable pub compare : List Assessment → List Assessment → Comparison
unfolding collect with_images diff
compare current baseline =
    let c = collect current in
    let b = collect baseline in
    let (added, removed) = diff c.findings b.findings in
    record {
      added = with_images c.images added;
      removed = with_images b.images removed;
      current_missing = c.missing;
      baseline_missing = b.missing;
    }
