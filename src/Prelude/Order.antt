-- ===== src/Prelude/Order.antt =====
-- Go's three-way comparisons (cmp.Compare, strings.Compare, time.Time.Compare, cmp.Or), whose int
-- result below, at and above 0 is `lt`, `eq` and `gt` here.
use Prim.Native.Nat.{ℕ, compare, Ordering}
use Prim.Native.Char.{Char, code}
use Prim.Native.String.compare as clause
use Prim.Native.String.{String, then, compare as compare_text}
use text.Mathlib.TextEquality.{path_by_compare}
use mathlib.Core.Path.{◌≡◌, refl, sym, ◌∙◌}
use mathlib.Core.Bool.{Bool, true, false}
use native.Mathlib.Omega.{arith}
pub use Prim.Native.Nat.{Ordering}

abbrev pub opposite : Ordering → Ordering
opposite Ordering.lt = Ordering.gt
opposite Ordering.eq = Ordering.eq
opposite Ordering.gt = Ordering.lt

-- cmp.Or
abbrev pub or_else : Ordering → Ordering → Ordering
or_else Ordering.lt o = Ordering.lt
or_else Ordering.eq o = o
or_else Ordering.gt o = Ordering.gt

abbrev pub is_lt : Ordering → Bool
is_lt Ordering.lt = true
is_lt _ = false

abbrev pub is_le : Ordering → Bool
is_le Ordering.gt = false
is_le _ = true

-- cmp.Compare and time.Time.Compare on numbers.
unfoldable pub compare_ℕ : ℕ → ℕ → Ordering
compare_ℕ a b = compare a b

-- strings.Compare
unfoldable pub compare_string : String → String → Ordering
compare_string s t = compare_text s t

-- A total preorder, given by a three-way comparison.
pub record IsComparison {ℓ} {A : Type ℓ} (c : A → A → Ordering) : Type ℓ where
  pub swap : (x y : A) → c y x ≡ opposite (c x y)
  pub trans : (x y z : A) → is_le (c x y) ≡ true → is_le (c y z) ≡ true → is_le (c x z) ≡ true

pub compare_ℕ-IsComparison : IsComparison compare_ℕ
unfolding compare_ℕ
compare_ℕ-IsComparison = record { swap = λ x y. ground arith; trans = λ x y z h k. ground arith }

numbers_swap : (m n : ℕ) → compare n m ≡ opposite (compare m n)
numbers_swap m n = ground arith

or_else-opposite : (a b : Ordering) → opposite (or_else a b) ≡ or_else (opposite a) (opposite b)
or_else-opposite Ordering.lt b = refl
or_else-opposite Ordering.eq b = refl
or_else-opposite Ordering.gt b = refl

then-or_else : (a b : Ordering) → then a b ≡ or_else a b
then-or_else Ordering.lt b = refl
then-or_else Ordering.eq b = refl
then-or_else Ordering.gt b = refl

text_cons :
    (c d : Char) (s t : String)
    → compare_text (String.◌∷◌ c s) (String.◌∷◌ d t)
      ≡ or_else (compare (code c) (code d)) (compare_text s t)
text_cons c d s t =
    (λ i. clause.cons-cons c d s t i) ∙ then-or_else (compare (code c) (code d)) (compare_text s t)

text_swap : (s t : String) → compare_text t s ≡ opposite (compare_text s t)
text_swap String.[] String.[] = rw (clause.nil-nil)
text_swap String.[] (String.◌∷◌ d t) = rw (clause.nil-cons, clause.cons-nil)
text_swap (String.◌∷◌ c s) String.[] = rw (clause.nil-cons, clause.cons-nil)
text_swap (String.◌∷◌ c s) (String.◌∷◌ d t) =
    rw (text_cons d c t s, text_cons c d s t, numbers_swap (code c) (code d), text_swap s t)
      (sym (or_else-opposite _ _))

or_trans :
    (m n k : ℕ) (p q r : Ordering)
    → (is_le p ≡ true → is_le q ≡ true → is_le r ≡ true)
    → is_le (or_else (compare m n) p) ≡ true
    → is_le (or_else (compare n k) q) ≡ true
    → is_le (or_else (compare m k) r) ≡ true
or_trans m n k p q r f h g = ground arith

text_trans :
    (s t u : String)
    → is_le (compare_text s t) ≡ true
    → is_le (compare_text t u) ≡ true
    → is_le (compare_text s u) ≡ true
text_trans String.[] t String.[] h k = refl
text_trans String.[] t (String.◌∷◌ e u) h k = rw clause.nil-cons
text_trans (String.◌∷◌ c s) String.[] u h k = absurd (let x = rw clause.cons-nil at h in cc x)
text_trans (String.◌∷◌ c s) (String.◌∷◌ d t) String.[] h k =
    absurd (let x = rw clause.cons-nil at k in cc x)
text_trans (String.◌∷◌ c s) (String.◌∷◌ d t) (String.◌∷◌ e u) h k = rw text_cons (
    or_trans (code c) (code d) (code e) _ _ _ (text_trans s t u) (rw text_cons at h)
      (rw text_cons at k))

pub compare_string-IsComparison : IsComparison compare_string
unfolding compare_string
compare_string-IsComparison = record { swap = text_swap; trans = text_trans }

pub compare_string-eq : (s t : String) → compare_string s t ≡ Ordering.eq → s ≡ t
unfolding compare_string
compare_string-eq s t h = path_by_compare s t h

module _ {ℓ} {A : Type ℓ} where
  -- The reverse order: c(y, x).
  abbrev pub descending : (A → A → Ordering) → A → A → Ordering
  descending c x y = c y x

  pub descending-IsComparison :
      (c : A → A → Ordering) → IsComparison c → IsComparison (descending c)
  descending-IsComparison c i = record {
    swap = λ x y. i.swap y x;
    trans = λ x y z h k. i.trans z y x k h;
  }

  -- cmp.Or(c(x, y), d(x, y))
  abbrev pub lexicographic : (A → A → Ordering) → (A → A → Ordering) → A → A → Ordering
  lexicographic c d x y = or_else (c x y) (d x y)

  pub lexicographic-IsComparison :
      (c d : A → A → Ordering) → IsComparison c → IsComparison d → IsComparison (lexicographic c d)
  lexicographic-IsComparison c d i j = record {
    swap = λ x y. ground (arith, i.swap x y, j.swap x y);
    trans = λ x y z h k. ground (
      arith,
      i.trans x y z,
      j.trans x y z,
      i.trans y z x,
      i.trans z x y,
      i.swap x y,
      i.swap y z,
      i.swap x z,
    );
  }

  -- A comparison of a part.
  pub on-IsComparison {κ} :
      {B : Type κ} (f : A → B) (c : B → B → Ordering)
      → IsComparison c
      → IsComparison (λ x y. c (f x) (f y))
  on-IsComparison f c i = record {
    swap = λ x y. i.swap (f x) (f y);
    trans = λ x y z. i.trans (f x) (f y) (f z);
  }
