-- ===== src/Promotion/Release/Newest.antt =====
-- `NewestReady` picks the first release of `NewestFirst` among the Ready ones
-- (internal/promotion/release.go).
use mathlib.Core.List.{Memᴰ}
use kokumi.Prelude.Order.{
  is_lt, is_le, IsComparison, compare_ℕ-IsComparison, compare_string-IsComparison,
  descending-IsComparison, lexicographic-IsComparison, on-IsComparison, compare_ℕ, compare_string,
}
use kokumi.Promotion.Release.{Release, newest_first, beats, newest_of, newest_ready, name_of}
use kokumi.Prelude.{
  ◌≡◌, refl, ap, ◌∙◌, ◌⊎◌, inl, inr, true, false, ◌&&◌, none, some, List, [], ◌∷◌, arith,
  if◌then◌else◌, Bool-cases, All,
}

pub newest_first-IsComparison : IsComparison newest_first
unfolding newest_first
newest_first-IsComparison =
    lexicographic-IsComparison _ _
      (descending-IsComparison _
        (on-IsComparison (λ (r : Release). r.created) compare_ℕ compare_ℕ-IsComparison))
      (descending-IsComparison _
        (on-IsComparison (λ (r : Release). r.name) compare_string compare_string-IsComparison))

-- No Ready release of the list comes before `r`.
abbrev pub IsNewest : Release → List Release → Type 0
IsNewest r rs = All (λ x. x.ready ≡ true → is_le (newest_first r x) ≡ true) rs

pub record Picked (start : Release) (rs : List Release) (r : Release) : Type 0 where
  pub is_ready : r.ready ≡ true
  pub first : is_le (newest_first r start) ≡ true
  pub newest : IsNewest r rs
  pub member : (r ≡ start) ⊎ Memᴰ r rs

before_trans :
    (x y z : Release)
    → is_le (newest_first x y) ≡ true
    → is_le (newest_first y z) ≡ true
    → is_le (newest_first x z) ≡ true
before_trans = newest_first-IsComparison.trans

before_refl : (x : Release) → is_le (newest_first x x) ≡ true
before_refl x = ground (arith, newest_first-IsComparison.swap x x)

newest_of-Picked :
    (rs : List Release) (start : Release)
    → start.ready ≡ true
    → (r : Release) × (newest_of rs (some start) ≡ some r) × Picked start rs r
unfolding newest_of
newest_of-Picked [] start h = (
  start,
  refl,
  record { is_ready = h; first = before_refl start; newest = tt; member = inl refl },
)
newest_of-Picked (x ∷ rs) start h = elim (Bool-cases (x.ready && is_lt (newest_first x start))) [
  | inl better ↦
      let xr : x.ready ≡ true = ground arith in
      let (r, e, k) = newest_of-Picked rs x xr in
      (
        r,
        rw better e,
        record {
          is_ready = k.is_ready;
          first = before_trans r x start k.first (ground arith);
          newest = (λ _. k.first, k.newest);
          member = inr (elim k.member [ inl same ↦ Memᴰ.head same | inr m ↦ Memᴰ.tail m ]);
        },
      )
  | inr worse ↦
      let (r, e, k) = newest_of-Picked rs start h in
      (
        r,
        rw worse e,
        record {
          is_ready = k.is_ready;
          first = k.first;
          newest = (
            λ xr.
                before_trans r start x k.first
                  (ground (arith, newest_first-IsComparison.swap x start)),
            k.newest,
          );
          member = elim k.member [ inl same ↦ inl same | inr m ↦ inr (Memᴰ.tail m) ];
        },
      )
]

-- `NewestReady` names nothing exactly when no release is Ready, and otherwise a Ready release of the
-- list that `NewestFirst` puts behind no other Ready one.
pub newest_ready_lem :
    (rs : List Release)
    → ((newest_ready rs ≡ none) × All (λ x. x.ready ≡ false) rs)
      ⊎ ((r : Release) × (newest_ready rs ≡ some r.name)
          × (r.ready ≡ true)
          × Memᴰ r rs
          × IsNewest r rs)
unfolding newest_ready newest_of
newest_ready_lem [] = inl (refl, tt)
newest_ready_lem (x ∷ rs) = elim (Bool-cases x.ready) [
  | inl xr ↦
      let (r, e, k) = newest_of-Picked rs x xr in
      inr (
        r,
        ap (λ b. name_of (newest_of rs (if b && beats x none then some x else none))) xr
            ∙ ap name_of e,
        k.is_ready,
        elim k.member [ inl same ↦ Memᴰ.head same | inr m ↦ Memᴰ.tail m ],
        ((λ _. k.first), k.newest),
      )
  | inr n ↦ elim (newest_ready_lem rs) [
    | inl (e, a) ↦ inl (skipped n ∙ e, (n, a))
    | inr (r, e, h, m, a) ↦ inr (r, skipped n ∙ e, h, Memᴰ.tail m, ((λ xr. cc (xr, n)), a))
  ]
]
  where
    skipped : x.ready ≡ false → newest_ready (x ∷ rs) ≡ newest_ready rs
    skipped n = ap (λ b. name_of (newest_of rs (if b && beats x none then some x else none))) n
