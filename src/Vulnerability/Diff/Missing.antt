-- ===== src/Vulnerability/Diff/Missing.antt =====
-- What `missing` returns (internal/vulnerability/diff.go).
use mathlib.Core.List.{Memᴰ}
use mathlib.Core.List.Memᴰ
use mathlib.Core.Path.{subst}
use kokumi.Prelude.Order.{
  is_le, IsComparison, compare_ℕ, compare_string, compare_ℕ-IsComparison,
  compare_string-IsComparison, descending-IsComparison, lexicographic-IsComparison, on-IsComparison,
}
use kokumi.Prelude.Sort.{sort, insert, insert-All, IsSorted, sort-All, sort-IsSorted, mem-sort}
use kokumi.Vulnerability.Severity.{rank, Finding}
use kokumi.Vulnerability.Diff.{
  FindingKey, key_of, same_key, has_key, keys_of, absent, most_severe_first, missing, diff,
}
use kokumi.Prelude.{
  All-map, ◌≡◌, refl, sym, ap, ◌∙◌, ◌≢◌, ◌↔◌, inl, inr, Bool, true, false, List, [], ◌∷◌, arith,
  =?_iff, Bool-cases, All,
}

most_severe_first-IsComparison : IsComparison most_severe_first
unfolding most_severe_first
most_severe_first-IsComparison =
    lexicographic-IsComparison _ _
      (descending-IsComparison _
        (on-IsComparison (λ (f : Finding). rank f.severity) compare_ℕ compare_ℕ-IsComparison))
      (lexicographic-IsComparison _ _
        (on-IsComparison (λ (f : Finding). f.id) compare_string compare_string-IsComparison)
        (on-IsComparison (λ (f : Finding). f.package_name) compare_string
          compare_string-IsComparison))

-- No finding of the list has the key.
abbrev pub Lacks : List Finding → FindingKey → Type 0
Lacks l k = (g : Finding) → Memᴰ g l → key_of g ≢ k

-- No key stands twice.
abbrev pub Once : List Finding → Type 0
Once [] = Unit
Once (f ∷ l) = All (λ g. key_of g ≢ key_of f) l × Once l

-- The findings of `from` that `other` lacks, once per key, the most severe first.
pub record IsMissing (from other l : List Finding) : Type 0 where
  pub sound : All (λ f. Memᴰ f from × Lacks other (key_of f)) l
  pub complete :
      (f : Finding)
      → Memᴰ f from
      → Lacks other (key_of f)
      → (g : Finding) × Memᴰ g l × (key_of g ≡ key_of f)
  pub once : Once l
  pub sorted : IsSorted most_severe_first l

same_key_iff : (j k : FindingKey) → (same_key j k ≡ true) ↔ (j ≡ k)
same_key_iff (i, p) (j, q) = (
  λ h. pair ((=?_iff i j).0 (ground (arith, h))) ((=?_iff p q).0 (ground (arith, h))),
  λ e. ground (
    arith,
    =?_iff i j,
    =?_iff p q,
    ap (λ (x : FindingKey). x.0) e,
    ap (λ (x : FindingKey). x.1) e,
  ),
)
  where
    pair : i ≡ j → p ≡ q → ◌≡◌ {A = FindingKey} (i, p) (j, q)
    pair e h = λ k. (e k, h k)

abbrev OutOf : List FindingKey → Finding → Type 0
OutOf ks f = has_key (key_of f) ks ≡ false

has_key-keys_of : (k : FindingKey) (l : List Finding) → (has_key k (keys_of l) ≡ false) ↔ Lacks l k
unfolding has_key
has_key-keys_of k [] = (λ h g m. absurd (Memᴰ.not-nil m), λ n. refl)
has_key-keys_of k (f ∷ l) =
    let (there, back) = has_key-keys_of k l in
    (
      λ h g m e. elim (Memᴰ.cases_cons m) [
        | inl same ↦ ground (arith, h, same_key_iff (key_of f) k, sym (ap key_of same) ∙ e)
        | inr later ↦ there (ground (arith, h)) g later e
      ],
      λ n.
          ground (
            arith,
            same_key_iff (key_of f) k,
            n f (Memᴰ.head refl),
            back (λ g m. n g (Memᴰ.tail m)),
          ),
    )

abbrev split : List FindingKey → Finding → List Finding → Bool → List Finding
split ks f l b = elim b [ true ↦ absent ks l | false ↦ f ∷ absent (key_of f ∷ ks) l ]

absent-seen :
    (ks : List FindingKey) (f : Finding) (l : List Finding)
    → has_key (key_of f) ks ≡ true
    → absent ks (f ∷ l) ≡ absent ks l
unfolding absent
absent-seen ks f l e = ap (split ks f l) e

absent-new :
    (ks : List FindingKey) (f : Finding) (l : List Finding)
    → has_key (key_of f) ks ≡ false
    → absent ks (f ∷ l) ≡ f ∷ absent (key_of f ∷ ks) l
unfolding absent
absent-new ks f l e = ap (split ks f l) e

outer : (ks : List FindingKey) (k : FindingKey) (f : Finding) → OutOf (k ∷ ks) f → OutOf ks f
outer ks k f h = unfold has_key in ground (arith, h)

other_key : (ks : List FindingKey) (k : FindingKey) (f : Finding) → OutOf (k ∷ ks) f → key_of f ≢ k
other_key ks k f h e = unfold has_key in ground (arith, h, same_key_iff k (key_of f), sym e)

absent-All :
    (ks : List FindingKey) (from l : List Finding)
    → ((f : Finding) → Memᴰ f l → Memᴰ f from)
    → All (λ f. Memᴰ f from × OutOf ks f) (absent ks l)
absent-All ks from [] m = unfold absent in tt
absent-All ks from (f ∷ l) m = elim (Bool-cases (has_key (key_of f) ks)) [
  | inl e ↦
      subst (All (λ g. Memᴰ g from × OutOf ks g)) (sym (absent-seen ks f l e))
        (absent-All ks from l (λ g n. m g (Memᴰ.tail n)))
  | inr e ↦ subst (All (λ g. Memᴰ g from × OutOf ks g)) (sym (absent-new ks f l e)) (
    (m f (Memᴰ.head refl), e),
    All-map _ _ (λ g h. (h.0, outer ks (key_of f) g h.1)) (absent (key_of f ∷ ks) l)
        (absent-All (key_of f ∷ ks) from l (λ g n. m g (Memᴰ.tail n))),
  )
]

abbrev Found : List Finding → Finding → Type 0
Found l f = (g : Finding) × Memᴰ g l × (key_of g ≡ key_of f)

absent-complete :
    (ks : List FindingKey) (l : List Finding) (f : Finding)
    → Memᴰ f l
    → OutOf ks f
    → Found (absent ks l) f
absent-complete ks [] f m o = absurd (Memᴰ.not-nil m)
absent-complete ks (x ∷ l) f m o = elim (Bool-cases (has_key (key_of x) ks)) [
  | inl e ↦
      subst (λ r. Found r f) (sym (absent-seen ks x l e))
        (elim (Memᴰ.cases_cons m) [
          | inl same ↦ let k = ap (λ y. has_key (key_of y) ks) same in ground (arith, k, o, e)
          | inr later ↦ absent-complete ks l f later o
        ])
  | inr e ↦
      subst (λ r. Found r f) (sym (absent-new ks x l e))
        (elim (Memᴰ.cases_cons m) [
          | inl same ↦ (x, Memᴰ.head refl, sym (ap key_of same))
          | inr later ↦ elim (Bool-cases (same_key (key_of x) (key_of f))) [
            | inl k ↦ (x, Memᴰ.head refl, (same_key_iff (key_of x) (key_of f)).0 k)
            | inr k ↦
                let (g, n, h) =
                  absent-complete (key_of x ∷ ks) l f later
                    (unfold has_key in ground (arith, k, o)) in
                (g, Memᴰ.tail n, h)
          ]
        ])
]

absent-Once : (ks : List FindingKey) (l : List Finding) → Once (absent ks l)
absent-Once ks [] = unfold absent in tt
absent-Once ks (f ∷ l) = elim (Bool-cases (has_key (key_of f) ks)) [
  | inl e ↦ subst Once (sym (absent-seen ks f l e)) (absent-Once ks l)
  | inr e ↦ subst Once (sym (absent-new ks f l e)) (
    All-map _ _ (λ g h. other_key ks (key_of f) g h.1) (absent (key_of f ∷ ks) l)
        (absent-All (key_of f ∷ ks) l l (λ g n. n)),
    absent-Once (key_of f ∷ ks) l,
  )
]

insert-Once :
    (f : Finding) (l : List Finding)
    → All (λ g. key_of g ≢ key_of f) l
    → Once l
    → Once (insert most_severe_first f l)
unfolding insert
insert-Once f [] h o = (tt, tt)
insert-Once f (g ∷ l) h o = elim (Bool-cases (is_le (most_severe_first f g))) [
  | inl le ↦ rw le (h, o)
  | inr gt ↦ rw gt (
    insert-All most_severe_first (λ x. key_of x ≢ key_of g) f l (λ e. h.0 (sym e)) o.0,
    insert-Once f l h.1 o.1,
  )
]

sort-Once : (l : List Finding) → Once l → Once (sort most_severe_first l)
unfolding sort
sort-Once [] o = tt
sort-Once (f ∷ l) o =
    insert-Once f (sort most_severe_first l)
      (sort-All most_severe_first (λ g. key_of g ≢ key_of f) l o.0) (sort-Once l o.1)

missing-IsMissing : (from other : List Finding) → IsMissing from other (missing from other)
unfolding missing
missing-IsMissing from other = record {
  sound =
      sort-All most_severe_first (λ f. Memᴰ f from × Lacks other (key_of f))
        (absent (keys_of other) from)
        (All-map _ _ (λ f h. (h.0, (has_key-keys_of (key_of f) other).0 h.1))
          (absent (keys_of other) from) (absent-All (keys_of other) from from (λ f m. m)));
  complete = λ f m n.
      let (g, h, e) =
        absent-complete (keys_of other) from f m ((has_key-keys_of (key_of f) other).1 n) in
      (g, mem-sort most_severe_first g (absent (keys_of other) from) h, e);
  once = sort-Once (absent (keys_of other) from) (absent-Once (keys_of other) from);
  sorted =
      sort-IsSorted most_severe_first most_severe_first-IsComparison (absent (keys_of other) from);
}

-- `Diff` returns what the current findings have and the previous ones lack, and the reverse: each
-- result has only findings whose id and package no finding of the other release has, one for every
-- such id and package of its own release and no second one, and the more severe ones come first.
pub diff-IsMissing :
    (current previous : List Finding)
    → IsMissing current previous (diff current previous).0
      × IsMissing previous current (diff current previous).1
unfolding diff
diff-IsMissing current previous =
    (missing-IsMissing current previous, missing-IsMissing previous current)
