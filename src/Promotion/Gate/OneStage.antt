-- ===== src/Promotion/Gate/OneStage.antt =====
-- When one upstream stage qualifies a revision (internal/promotion/gate.go, evaluateStage).
use kokumi.Prelude.Int.{ℤ, pos, negsuc, pos_part, neg_part}
use kokumi.Clock.{sub_reaches}
use kokumi.Promotion.History.{EndReason, Entry, History}
use kokumi.Promotion.Gate.{
  invalid_pipeline, soaking, satisfied, Stage, seconds, soak, Upstream, Request, Verdict, until,
  qualifies, qualified_by, note_soaking, returned, finished, scan_history, conclude,
  evaluate_upstream, evaluate_stage,
}
use mathlib.Core.List.{Memᴰ}
use mathlib.Core.List.Memᴰ
use kokumi.Prelude.{
  ◌+◌, ◌≤◌, ◌<◌, ◌≡◌, refl, ap, ◌∙◌, ◌≢◌, ◌↔◌, ◌⊎◌, inl, inr, Bool, true, false, Option, none, some,
  List, [], ◌∷◌, arith, ◌=?◌, =?_iff, Bool-cases, All,
}

-- `SoakSeconds` is an int32.
abbrev pub IsInt32 : ℤ → Type 0
IsInt32 n = (pos_part n ≤ 2_147_483_647) × (neg_part n ≤ 2_147_483_648)

-- What an upstream deployment needs, in exact arithmetic.
pub record IsQualifying (req : Request) (stage : Stage) (e : Entry) : Type 0 where
  pub same_revision : e.product_revision ≡ req.revision
  pub promotion_recorded : e.promotion_record ≢ ""
  pub was_healthy : 0 < e.healthy
  pub not_degraded : e.end_reason ≢ EndReason.degraded
  pub long_enough : e.healthy + pos_part (soak stage) ≤ until req stage e + neg_part (soak stage)
  pub deployment_recorded : e.deployment_record ≢ ""

soak_parts :
    (n : ℤ)
    → IsInt32 n
    → (pos_part (seconds n) ≤ 9_223_372_036_854_775_807)
      × (neg_part (seconds n) ≤ 9_223_372_036_854_775_807)
unfolding seconds
soak_parts (pos n) r = omega arith
soak_parts (negsuc n) r = omega arith

soak_range :
    (stage : Stage)
    → IsInt32 stage.soak_seconds
    → (pos_part (soak stage) ≤ 9_223_372_036_854_775_807)
      × (neg_part (soak stage) ≤ 9_223_372_036_854_775_807)
unfolding soak
soak_range stage r = soak_parts stage.soak_seconds r

qualifies_iff :
    (req : Request) (stage : Stage) (e : Entry)
    → IsInt32 stage.soak_seconds
    → (qualifies req stage e ≡ true) ↔ IsQualifying req stage e
unfolding qualifies
qualifies_iff req stage e r = ground (
  arith,
  soak_range stage r,
  =?_iff e.product_revision req.revision,
  =?_iff e.promotion_record "",
  =?_iff e.deployment_record "",
  sub_reaches (soak stage) (until req stage e) e.healthy,
)

-- What `soaking` holds is no satisfied verdict.
abbrev Soaks : Option Verdict → Type 0
Soaks none = Unit
Soaks (some v) = v.outcome ≡ soaking

note_soaking-Soaks :
    (req : Request) (stage : Stage) (e : Entry) (found : Option Verdict)
    → Soaks found
    → Soaks (note_soaking req stage e found)
unfolding note_soaking
note_soaking-Soaks req stage e none s = ground arith
note_soaking-Soaks req stage e (some v) s = ground arith

scan_cases :
    (req : Request) (stage : Stage) (h : History) (found : Option Verdict)
    → Soaks found
    → ((e : Entry) × Memᴰ e h
        × (qualifies req stage e ≡ true)
        × (scan_history req stage h found ≡ returned (qualified_by req stage e)))
      ⊎ ((last : Option Verdict) × Soaks last
          × All (λ e. qualifies req stage e ≡ false) h
          × (scan_history req stage h found ≡ finished last))
unfolding scan_history
scan_cases req stage [] found s = inr (found, s, tt, refl)
scan_cases req stage (e ∷ h) found s = elim (Bool-cases (qualifies req stage e)) [
  | inl q ↦ inl (e, Memᴰ.head refl, q, rw q)
  | inr n ↦
      elim (scan_cases req stage h (note_soaking req stage e found)
        (note_soaking-Soaks req stage e found s)) [
          | inl (x, m, q, eq) ↦ inl (x, Memᴰ.tail m, q, rw n eq)
          | inr (last, l, all, eq) ↦ inr (last, l, (n, all), rw n eq)
        ]
]

conclude-ne-satisfied :
    (req : Request) (stage : Stage) (h : History) (last : Option Verdict)
    → Soaks last
    → (conclude req stage h (finished last)).outcome ≢ satisfied
unfolding conclude
conclude-ne-satisfied req stage h none s e = cc
conclude-ne-satisfied req stage h (some v) s e = cc

-- The upstream Order exists, is a variant of the same Product, and its history holds an entry that
-- qualifies.
pub record IsStageQualified (req : Request) (stage : Stage) : Type 0 where
  pub upstream : Upstream
  pub entry : Entry
  pub exists : req.upstreams stage.order ≡ some upstream
  pub same_product : upstream.product ≡ req.product
  pub held : Memᴰ entry upstream.history
  pub qualifying : IsQualifying req stage entry

not-All {ℓ} :
    {A : Type ℓ} (p : A → Bool) (x : A) (xs : List A)
    → All (λ a. p a ≡ false) xs
    → Memᴰ x xs
    → p x ≡ false
not-All p x (y ∷ xs) a m = elim (Memᴰ.cases_cons m) [
  | inl e ↦ rw e a.0
  | inr later ↦ not-All p x xs a.1 later
]
not-All p x [] a m = absurd (Memᴰ.not-nil m)

module _ (req : Request) (stage : Stage) (r : IsInt32 stage.soak_seconds) where
  pub upstream_sound :
      (found : Option Upstream)
      → req.upstreams stage.order ≡ found
      → (evaluate_upstream req stage found).outcome ≡ satisfied
      → IsStageQualified req stage
  unfolding evaluate_upstream
  upstream_sound none u s = cc
  upstream_sound (some up) u s = elim (Bool-cases (up.product =? req.product)) [
    | inr other ↦ absurd (ground arith)
    | inl same ↦ elim (scan_cases req stage up.history none tt) [
      | inl (e, m, q, eq) ↦ record {
        upstream = up;
        entry = e;
        exists = u;
        same_product = (=?_iff up.product req.product).0 same;
        held = m;
        qualifying = (qualifies_iff req stage e r).0 q;
      }
      | inr (last, soaks, all, eq) ↦
          absurd (conclude-ne-satisfied req stage up.history last soaks (rw (same, eq) at s))
    ]
  ]

  upstream_complete :
      (q : IsStageQualified req stage)
      → ((e : Entry) × (qualifies req stage e ≡ true)
          × (evaluate_upstream req stage (some q.upstream) ≡ qualified_by req stage e))
  unfolding evaluate_upstream conclude
  upstream_complete q = elim (scan_cases req stage q.upstream.history none tt) [
    | inl (e, m, ok, eq) ↦ (e, ok, rw ((=?_iff _ _).1 q.same_product) (rw eq))
    | inr (last, soaks, all, eq) ↦ absurd (
        cc (
          (qualifies_iff req stage q.entry r).1 q.qualifying,
          not-All (qualifies req stage) q.entry q.upstream.history all q.held,
        ))
  ]

-- A stage's verdict is `Satisfied` exactly when the upstream Order exists, is a variant of the same
-- Product, and has deployed the revision: by a recorded promotion, healthy for the whole soak time,
-- not degraded, and with a deployment record. The soak is an int32 of seconds.
pub evaluate_stage-satisfied_iff :
    (req : Request) (stage : Stage)
    → IsInt32 stage.soak_seconds
    → ((evaluate_stage req stage).outcome ≡ satisfied) ↔ IsStageQualified req stage
unfolding evaluate_stage
evaluate_stage-satisfied_iff req stage r = (
  upstream_sound req stage r (req.upstreams stage.order) refl,
  λ q. let (e, ok, eq) = upstream_complete req stage r q in rw q.exists (rw eq),
)

-- A satisfied verdict names an entry of the upstream history that qualifies.
pub qualified-IsQualifying :
    (req : Request) (stage : Stage)
    → IsInt32 stage.soak_seconds
    → (evaluate_stage req stage).outcome ≡ satisfied
    → (e : Entry) × ((evaluate_stage req stage).qualified ≡ some e) × IsQualifying req stage e
unfolding evaluate_stage
qualified-IsQualifying req stage r s =
    let q = upstream_sound req stage r (req.upstreams stage.order) refl s in
    let (e, ok, eq) = upstream_complete req stage r q in
    let named : evaluate_upstream req stage (req.upstreams stage.order) ≡ qualified_by req stage e =
      ap (evaluate_upstream req stage) q.exists ∙ eq in
    (e, ap (λ (v : Verdict). v.qualified) named, (qualifies_iff req stage e r).0 ok)

conclude-ne-invalid :
    (req : Request) (stage : Stage) (h : History) (last : Option Verdict)
    → Soaks last
    → (conclude req stage h (finished last)).outcome ≢ invalid_pipeline
unfolding conclude
conclude-ne-invalid req stage h none s e = cc
conclude-ne-invalid req stage h (some v) s e = cc

scan-ne-invalid :
    (req : Request) (stage : Stage) (h : History)
    → (conclude req stage h (scan_history req stage h none)).outcome ≢ invalid_pipeline
scan-ne-invalid req stage h = elim (scan_cases req stage h none tt) [
  | inl (e, m, ok, eq) ↦ rw eq (unfold conclude in λ x. cc)
  | inr (last, soaks, all, eq) ↦ rw eq (conclude-ne-invalid req stage h last soaks)
]

upstream_invalid :
    (req : Request) (stage : Stage) (found : Option Upstream)
    → ((evaluate_upstream req stage found).outcome ≡ invalid_pipeline)
      ↔ ((up : Upstream) × (found ≡ some up) × (up.product ≢ req.product))
unfolding evaluate_upstream
upstream_invalid req stage none = (λ h. cc, λ (up, e, _). cc)
upstream_invalid req stage (some up) = elim (Bool-cases (up.product =? req.product)) [
  | inl same ↦ rw same (
    λ h. absurd (scan-ne-invalid req stage up.history h),
    λ (x, e, n). absurd (ground (arith, =?_iff up.product req.product)),
  )
  | inr other ↦ rw other (λ _. (up, refl, ground (arith, =?_iff up.product req.product)), λ _. refl)
]

-- A stage's verdict is `InvalidPipeline` exactly when the upstream Order exists and is a variant of
-- another Product.
pub evaluate_stage-invalid_iff :
    (req : Request) (stage : Stage)
    → ((evaluate_stage req stage).outcome ≡ invalid_pipeline)
      ↔ ((up : Upstream) × (req.upstreams stage.order ≡ some up) × (up.product ≢ req.product))
unfolding evaluate_stage
evaluate_stage-invalid_iff req stage = upstream_invalid req stage (req.upstreams stage.order)
