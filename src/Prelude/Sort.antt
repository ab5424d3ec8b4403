-- ===== src/Prelude/Sort.antt =====
-- slices.SortFunc and slices.SortStableFunc: a stable insertion sort by a three-way comparison.
use mathlib.Core.Path.{◌≡◌}
use mathlib.Core.Logic.{◌⊎◌, inl, inr}
use mathlib.Core.Bool.{true}
use mathlib.Core.List.{List, [], ◌∷◌, Memᴰ}
use mathlib.Core.List.Memᴰ
use native.Mathlib.Omega.{arith}
use kokumi.Prelude.Tests.{if◌then◌else◌, Bool-cases}
use kokumi.Prelude.Lists.{All}
use kokumi.Prelude.Order.{Ordering, is_le, IsComparison}

module _ {ℓ} {A : Type ℓ} (c : A → A → Ordering) where
  unfoldable pub insert : A → List A → List A
  insert x [] = x ∷ []
  insert x (y ∷ ys) = let rest = y ∷ insert x ys in if is_le (c x y) then x ∷ y ∷ ys else rest

  unfoldable pub sort : List A → List A
  unfolding insert
  sort [] = []
  sort (x ∷ xs) = insert x (sort xs)

  abbrev pub IsSorted : List A → Type ℓ
  IsSorted [] = Unit
  IsSorted (x ∷ xs) = All (λ y. is_le (c x y) ≡ true) xs × IsSorted xs

  pub insert-All {κ} : (P : A → Type κ) (x : A) (xs : List A) → P x → All P xs → All P (insert x xs)
  unfolding insert
  insert-All P x [] p a = (p, tt)
  insert-All P x (y ∷ ys) p a = elim (Bool-cases (is_le (c x y))) [
    | inl le ↦ rw le (p, a)
    | inr gt ↦ rw gt (a.0, insert-All P x ys p a.1)
  ]

  pub sort-All {κ} : (P : A → Type κ) (xs : List A) → All P xs → All P (sort xs)
  unfolding sort
  sort-All P [] a = tt
  sort-All P (x ∷ xs) a = insert-All P x (sort xs) a.0 (sort-All P xs a.1)

  mem-insert : (a x : A) (xs : List A) → (a ≡ x) ⊎ Memᴰ a xs → Memᴰ a (insert x xs)
  unfolding insert
  mem-insert a x [] (inl e) = Memᴰ.head e
  mem-insert a x [] (inr m) = absurd (Memᴰ.not-nil m)
  mem-insert a x (y ∷ ys) m = elim (Bool-cases (is_le (c x y))) [
    | inl le ↦ rw le (elim m [ inl e ↦ Memᴰ.head e | inr n ↦ Memᴰ.tail n ])
    | inr gt ↦ rw gt (elim m [
      | inl e ↦ Memᴰ.tail (mem-insert a x ys (inl e))
      | inr n ↦ elim (Memᴰ.cases_cons n) [
        | inl e ↦ Memᴰ.head e
        | inr later ↦ Memᴰ.tail (mem-insert a x ys (inr later))
      ]
    ])
  ]

  -- Nothing is lost by sorting.
  pub mem-sort : (a : A) (xs : List A) → Memᴰ a xs → Memᴰ a (sort xs)
  unfolding sort
  mem-sort a [] m = m
  mem-sort a (x ∷ xs) m =
      mem-insert a x (sort xs)
        (elim (Memᴰ.cases_cons m) [ inl e ↦ inl e | inr later ↦ inr (mem-sort a xs later) ])

  module _ (i : IsComparison c) where
    All-le :
        (x y : A) (ys : List A)
        → is_le (c x y) ≡ true
        → All (λ z. is_le (c y z) ≡ true) ys
        → All (λ z. is_le (c x z) ≡ true) ys
    All-le x y [] h a = tt
    All-le x y (z ∷ zs) h a = (i.trans x y z h a.0, All-le x y zs h a.1)

    insert-IsSorted : (x : A) (xs : List A) → IsSorted xs → IsSorted (insert x xs)
    unfolding insert
    insert-IsSorted x [] s = (tt, tt)
    insert-IsSorted x (y ∷ ys) s = elim (Bool-cases (is_le (c x y))) [
      | inl le ↦ rw le ((le, All-le x y ys le s.0), s)
      | inr gt ↦ rw gt (
        insert-All (λ z. is_le (c y z) ≡ true) x ys (ground (arith, i.swap x y)) s.0,
        insert-IsSorted x ys s.1,
      )
    ]

    pub sort-IsSorted : (xs : List A) → IsSorted (sort xs)
    unfolding sort
    sort-IsSorted [] = tt
    sort-IsSorted (x ∷ xs) = insert-IsSorted x (sort xs) (sort-IsSorted xs)
