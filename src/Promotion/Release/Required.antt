-- ===== src/Promotion/Release/Required.antt =====
-- What `Required` checks (internal/promotion/environment.go).
use kokumi.Prelude.Int.{◌≤ℤ◌}
use kokumi.Promotion.Gate.{Stage}
use kokumi.Promotion.Release.{Requirement, meets, required}
use mathlib.Core.List.{Memᴰ}
use mathlib.Core.List.Memᴰ
use kokumi.Prelude.{
  String, ◌≡◌, refl, ap, ◌↔◌, inl, inr, true, ◌||◌, List, [], ◌∷◌, arith, =?_iff, Bool-cases, any,
  All,
}

-- A stage of the required Environment with at least the required soak.
pub record IsMet (stages : List Stage) (environments : String → String) (q : Requirement)
    : Type 0 where
  pub stage : Stage
  pub named : Memᴰ stage stages
  pub of_environment : environments stage.order ≡ q.environment
  pub soaks : q.min_soak_seconds ≤ℤ stage.soak_seconds

meets_iff :
    (environments : String → String) (q : Requirement) (s : Stage)
    → (meets environments q s ≡ true)
      ↔ ((environments s.order ≡ q.environment) × (q.min_soak_seconds ≤ℤ s.soak_seconds))
unfolding meets
meets_iff environments q s = ground (arith, =?_iff (environments s.order) q.environment)

IsMet-cons :
    (s : Stage) (ss : List Stage) (environments : String → String) (q : Requirement)
    → IsMet ss environments q
    → IsMet (s ∷ ss) environments q
IsMet-cons s ss environments q m = record {
  stage = m.stage;
  named = Memᴰ.tail m.named;
  of_environment = m.of_environment;
  soaks = m.soaks;
}

any-IsMet :
    (stages : List Stage) (environments : String → String) (q : Requirement)
    → (any (meets environments q) stages ≡ true) ↔ IsMet stages environments q
any-IsMet [] environments q = (λ h. cc, λ m. absurd (Memᴰ.not-nil m.named))
any-IsMet (s ∷ ss) environments q =
    let (f, g) = any-IsMet ss environments q in
    elim (Bool-cases (meets environments q s)) [
      | inl met ↦
          let (e, l) = (meets_iff environments q s).0 met in
          (
            λ _. record { stage = s; named = Memᴰ.head refl; of_environment = e; soaks = l },
            λ _. ap (λ b. b || any (meets environments q) ss) met,
          )
      | inr unmet ↦ (
        λ h. IsMet-cons s ss environments q (f (rw unmet at h)),
        λ m. elim (Memᴰ.cases_cons m.named) [
          | inl same ↦
              cc (unmet, (meets_iff environments q s).1 (rw (← same) (m.of_environment, m.soaks)))
          | inr later ↦ rw unmet (
              g (record {
                stage = m.stage;
                named = later;
                of_environment = m.of_environment;
                soaks = m.soaks;
              }))
        ],
      )
    ]

-- Nothing is missing exactly when, for every requirement, a stage is of its Environment and has at
-- least its soak.
pub required-nil_iff :
    (stages : List Stage) (environments : String → String) (qs : List Requirement)
    → (required stages environments qs ≡ []) ↔ All (IsMet stages environments) qs
unfolding required
required-nil_iff stages environments [] = (λ _. tt, λ _. refl)
required-nil_iff stages environments (q ∷ qs) =
    let (f, g) = any-IsMet stages environments q in
    let (f', g') = required-nil_iff stages environments qs in
    elim (Bool-cases (any (meets environments q) stages)) [
      | inl met ↦ rw met (λ h. (f met, f' h), λ h. g' h.1)
      | inr unmet ↦ rw unmet (λ h. cc, λ h. cc (g h.0, unmet))
    ]
