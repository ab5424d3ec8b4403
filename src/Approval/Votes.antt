-- ===== src/Approval/Votes.antt =====
-- Which votes count while the approvals are open (internal/approval/evaluate.go, evaluateOpen).
use mathlib.Core.Path.{subst}
use mathlib.Core.List.{Memᴰ}
use mathlib.Core.List.Memᴰ
use kokumi.Prelude.Order.{
  is_le, IsComparison, compare_ℕ, compare_string, compare_ℕ-IsComparison,
  compare_string-IsComparison, lexicographic-IsComparison, on-IsComparison,
}
use kokumi.Prelude.Sort.{IsSorted, sort-All, sort-IsSorted, mem-sort}
use kokumi.Approval.{
  Approval, Preparation, Verdicts, approver_key, compare_approvals, matches, matching,
  sorted_matching, Latest, put, previous, pick_latest, supersede,
}
use kokumi.Prelude.{
  All-mem, All-each, String, ◌≡◌, refl, sym, ap, ◌∙◌, ◌⊎◌, inl, inr, true, none, some, List, [],
  ◌∷◌, arith, ◌=?◌, =?_iff, =?_refl, if◌then◌else◌, Bool-cases, All,
}

-- An Approval of the list that was cast for the Preparation, and that no other such Approval of the
-- same approver comes behind.
pub record IsLatest (prep : Preparation) (l : List Approval) (a : Approval) : Type 0 where
  pub submitted_here : Memᴰ a l
  pub for_preparation : matches prep a ≡ true
  pub no_later :
      (b : Approval)
      → Memᴰ b l
      → matches prep b ≡ true
      → approver_key b ≡ approver_key a
      → is_le (compare_approvals b a) ≡ true

pub compare_approvals-IsComparison : IsComparison compare_approvals
unfolding compare_approvals
compare_approvals-IsComparison =
    lexicographic-IsComparison _ _
      (on-IsComparison (λ (a : Approval). a.creation) compare_ℕ compare_ℕ-IsComparison)
      (lexicographic-IsComparison _ _
        (on-IsComparison (λ (a : Approval). a.submitted) compare_ℕ compare_ℕ-IsComparison)
        (on-IsComparison (λ (a : Approval). a.name) compare_string compare_string-IsComparison))

abbrev pub Table : Type 0
Table = List (String × Approval)

previous-put :
    (k j : String) (a : Approval) (t : Table)
    → previous j (put k a t) ≡ (if k =? j then some a else previous j t)
unfolding previous put
previous-put k j a [] = refl
previous-put k j a ((i, b) ∷ t) =
    ground (arith, =?_iff i k, =?_iff i j, =?_iff k j, previous-put k j a t)

-- No key stands twice.
abbrev pub Distinct : Table → Type 0
Distinct [] = Unit
Distinct ((k, a) ∷ t) = (previous k t ≡ none) × Distinct t

put-Distinct : (k : String) (a : Approval) (t : Table) → Distinct t → Distinct (put k a t)
unfolding put
put-Distinct k a [] d = (unfold previous in refl, tt)
put-Distinct k a ((j, b) ∷ t) d = elim (Bool-cases (j =? k)) [
  | inl same ↦ rw same d
  | inr other ↦
      rw other
        (previous-put k j a t ∙ ground (arith, =?_iff j k, =?_iff k j), put-Distinct k a t d.1)
]

abbrev pub OfKey : (Approval → Type 0) → String × Approval → Type 0
OfKey P (k, a) = (k ≡ approver_key a) × P a

put-OfKey :
    (P : Approval → Type 0) (a : Approval) (t : Table)
    → P a
    → All (OfKey P) t
    → All (OfKey P) (put (approver_key a) a t)
unfolding put
put-OfKey P a [] p h = ((refl, p), tt)
put-OfKey P a ((j, b) ∷ t) p h = elim (Bool-cases (j =? approver_key a)) [
  | inl same ↦ rw same (((=?_iff j (approver_key a)).0 same, p), h.1)
  | inr other ↦ rw other (h.0, put-OfKey P a t p h.1)
]

-- The table holds, for each Approval seen, the approver's entry, which is no earlier.
abbrev pub Covers : Table → Approval → Type 0
Covers t b =
    (a : Approval) × (previous (approver_key b) t ≡ some a) × (is_le (compare_approvals b a) ≡ true)

pub record IsPicked (P : Approval → Type 0) (seen : List Approval) (t : Table) : Type 0 where
  pub distinct : Distinct t
  pub keyed : All (OfKey P) t
  pub covers : (b : Approval) → Memᴰ b seen → Covers t b

le_self : (a : Approval) → is_le (compare_approvals a a) ≡ true
le_self a = ground (arith, compare_approvals-IsComparison.swap a a)

Covers-put :
    (a b : Approval) (t : Table)
    → is_le (compare_approvals b a) ≡ true
    → Covers t b
    → Covers (put (approver_key a) a t) b
Covers-put a b t le (x, e, h) = elim (Bool-cases (approver_key a =? approver_key b)) [
  | inl same ↦ (
    a,
    previous-put (approver_key a) (approver_key b) a t
        ∙ ap (λ c. if c then some a else previous (approver_key b) t) same,
    le,
  )
  | inr other ↦ (
    x,
    previous-put (approver_key a) (approver_key b) a t
        ∙ ap (λ c. if c then some a else previous (approver_key b) t) other
        ∙ e,
    h,
  )
]

Covers-own : (a : Approval) (t : Table) → Covers (put (approver_key a) a t) a
Covers-own a t = (
  a,
  previous-put (approver_key a) (approver_key a) a t
      ∙ ap (λ c. if c then some a else previous (approver_key a) t) (=?_refl (approver_key a)),
  le_self a,
)

All-le-mem :
    (a b : Approval) (l : List Approval)
    → All (λ x. is_le (compare_approvals x a) ≡ true) l
    → Memᴰ b l
    → is_le (compare_approvals b a) ≡ true
All-le-mem a b [] h m = absurd (Memᴰ.not-nil m)
All-le-mem a b (x ∷ l) h m = elim (Memᴰ.cases_cons m) [
  | inl e ↦ rw e h.0
  | inr later ↦ All-le-mem a b l h.1 later
]

-- The loop over the rest of the sorted Approvals, each of which comes behind all that were seen.
pub pick_latest-IsPicked :
    (P : Approval → Type 0) (rest seen : List Approval) (s : Latest)
    → All P rest
    → IsSorted compare_approvals rest
    → ((a : Approval) → Memᴰ a rest → All (λ x. is_le (compare_approvals x a) ≡ true) seen)
    → IsPicked P seen s.table
    → (t : Table) × ((pick_latest rest s).table ≡ t)
      × Distinct t
      × All (OfKey P) t
      × ((b : Approval) → Memᴰ b seen ⊎ Memᴰ b rest → Covers t b)
unfolding pick_latest
pick_latest-IsPicked P [] seen s p o h k = (
  s.table,
  refl,
  k.distinct,
  k.keyed,
  λ b m. elim m [ inl old ↦ k.covers b old | inr new ↦ absurd (Memᴰ.not-nil new) ],
)
pick_latest-IsPicked P (a ∷ rest) seen s p o h k =
    let below = h a (Memᴰ.head refl) in
    let s' : Latest = record {
      table = put (approver_key a) a s.table;
      verdicts = supersede (previous (approver_key a) s.table) s.verdicts;
    } in
    let (t, e, d, q, c) =
      pick_latest-IsPicked P rest (a ∷ seen) s' p.1 o.1
        (λ b m. (All-mem b rest o.0 m, h b (Memᴰ.tail m)))
        (record {
          distinct = put-Distinct (approver_key a) a s.table k.distinct;
          keyed = put-OfKey P a s.table p.0 k.keyed;
          covers = λ b m. elim (Memᴰ.cases_cons m) [
            | inl same ↦
                subst (Covers (put (approver_key a) a s.table)) (sym same) (Covers-own a s.table)
            | inr old ↦ Covers-put a b s.table (All-le-mem a b seen below old) (k.covers b old)
          ];
        }) in
    (
      t,
      e,
      d,
      q,
      λ b m. c b (elim m [
        | inl old ↦ inl (Memᴰ.tail old)
        | inr new ↦ elim (Memᴰ.cases_cons new) [
          | inl same ↦ inl (Memᴰ.head same)
          | inr later ↦ inr later
        ]
      ]),
    )
  where
    All-mem :
        (b : Approval) (l : List Approval)
        → All (λ y. is_le (compare_approvals a y) ≡ true) l
        → Memᴰ b l
        → is_le (compare_approvals a b) ≡ true
    All-mem b [] x m = absurd (Memᴰ.not-nil m)
    All-mem b (y ∷ l) x m = elim (Memᴰ.cases_cons m) [
      | inl e ↦ rw e x.0
      | inr later ↦ All-mem b l x.1 later
    ]

-- The table that `evaluateOpen` reads the votes from.
abbrev pub table_of : Preparation → List Approval → Verdicts → Table
table_of prep l v =
    (pick_latest (sorted_matching prep l) (record { table = []; verdicts = v })).table

matching-All :
    (prep : Preparation) (l m : List Approval)
    → ((a : Approval) → Memᴰ a l → Memᴰ a m)
    → All (λ a. Memᴰ a m × (matches prep a ≡ true)) (matching prep l)
unfolding matching
matching-All prep [] m f = tt
matching-All prep (a ∷ l) m f = elim (Bool-cases (matches prep a)) [
  | inl yes_here ↦
      rw yes_here
        ((f a (Memᴰ.head refl), yes_here), matching-All prep l m (λ x n. f x (Memᴰ.tail n)))
  | inr other ↦ rw other (matching-All prep l m (λ x n. f x (Memᴰ.tail n)))
]

mem-matching :
    (prep : Preparation) (b : Approval) (l : List Approval)
    → Memᴰ b l
    → matches prep b ≡ true
    → Memᴰ b (matching prep l)
unfolding matching
mem-matching prep b [] m h = m
mem-matching prep b (a ∷ l) m h = elim (Bool-cases (matches prep a)) [
  | inl here ↦ rw here (elim (Memᴰ.cases_cons m) [
    | inl e ↦ Memᴰ.head e
    | inr later ↦ Memᴰ.tail (mem-matching prep b l later h)
  ])
  | inr other ↦ rw other (elim (Memᴰ.cases_cons m) [
    | inl e ↦ absurd (cc (ap (matches prep) e, h, other))
    | inr later ↦ mem-matching prep b l later h
  ])
]

previous-mem :
    (k : String) (a : Approval) (t : Table) → Distinct t → Memᴰ (k, a) t → previous k t ≡ some a
unfolding previous
previous-mem k a [] d m = absurd (Memᴰ.not-nil m)
previous-mem k a ((j, b) ∷ t) d m = elim (Memᴰ.cases_cons m) [
  | inl e ↦
      let ek = ap (λ (x : String × Approval). x.0) e in
      let ea = ap (λ (x : String × Approval). x.1) e in ground (arith, =?_iff j k, ek, ea)
  | inr later ↦ ground (arith, =?_iff j k, previous-mem k a t d.1 later)
]

some-inj : {A : Type 0} {x y : A} → some x ≡ some y → x ≡ y
some-inj e = cc e

entry-IsLatest :
    (prep : Preparation) (l : List Approval) (t : Table)
    → Distinct t
    → All (OfKey (λ a. Memᴰ a l × (matches prep a ≡ true))) t
    → ((b : Approval) → Memᴰ b (sorted_matching prep l) → Covers t b)
    → (x : String × Approval) → Memᴰ x t
    → OfKey (IsLatest prep l) x
unfolding sorted_matching
entry-IsLatest prep l t d q c (k, a) m =
    let (ek, ours) = All-mem (OfKey (λ a. Memᴰ a l × (matches prep a ≡ true))) (k, a) t q m in
    (
      ek,
      record {
        submitted_here = ours.0;
        for_preparation = ours.1;
        no_later = λ b n h e.
            let (a', e', le) =
              c b (mem-sort compare_approvals b (matching prep l) (mem-matching prep b l n h)) in
            let own = ap (λ j. previous j t) (e ∙ sym ek) ∙ previous-mem k a t d m in
            subst (λ x. is_le (compare_approvals b x) ≡ true) (some-inj (sym e' ∙ own)) le;
      },
    )

-- The table holds the latest Approval of each approver.
pub table_of-Latest :
    (prep : Preparation) (l : List Approval) (v : Verdicts)
    → (t : Table) × (table_of prep l v ≡ t)
      × Distinct t
      × All (OfKey (IsLatest prep l)) t
      × ((b : Approval) → Memᴰ b l → matches prep b ≡ true → Covers t b)
unfolding sorted_matching
table_of-Latest prep l v =
    let P : Approval → Type 0 = λ a. Memᴰ a l × (matches prep a ≡ true) in
    let (t, e, d, q, c) =
      pick_latest-IsPicked P (sorted_matching prep l) [] (record { table = []; verdicts = v })
        (sort-All compare_approvals P (matching prep l) (matching-All prep l l (λ a m. m)))
        (sort-IsSorted compare_approvals compare_approvals-IsComparison (matching prep l))
        (λ a m. tt)
        (record { distinct = tt; keyed = tt; covers = λ b m. absurd (Memᴰ.not-nil m) }) in
    (
      t,
      e,
      d,
      All-each (OfKey (IsLatest prep l)) t (entry-IsLatest prep l t d q (λ b m. c b (inr m))),
      λ b m h.
          c b (inr (mem-sort compare_approvals b (matching prep l) (mem-matching prep b l m h))),
    )
