-- ===== src/Promotion/Gate/Decision.antt =====
-- What `Evaluate` decides over all upstream stages (internal/promotion/gate.go).
use kokumi.Clock.{Time}
use kokumi.Promotion.History.{Entry, promoted_before}
use kokumi.Promotion.Gate.{
  Outcome, satisfied, severity, Stage, Request, Verdict, evaluate_stage, Progress, tally, tally_all,
  blank, report, evaluate_stages, evaluate_from, evaluate,
}
use kokumi.Promotion.Gate.OneStage.{
  IsInt32, IsQualifying, IsStageQualified, evaluate_stage-satisfied_iff,
}
use mathlib.Core.Path.{subst}
use mathlib.Core.List.{Memᴰ}
use mathlib.Core.List.Memᴰ
use kokumi.Prelude.{
  ℕ, ◌≤◌, ◌≡◌, refl, sym, ◌∙◌, ◌≢◌, ◌↔◌, ◌⊎◌, inl, inr, Option, none, some, List, [], ◌∷◌, arith,
  All,
}

-- The stage's own severity.
abbrev pub severity_of : Request → Stage → ℕ
severity_of req s = severity (evaluate_stage req s).outcome

tally-severity :
    (stage : Stage) (p : Progress) (v : Verdict)
    → (severity p.outcome ≤ severity (tally stage p v).outcome)
      × (severity v.outcome ≤ severity (tally stage p v).outcome)
      × ((severity (tally stage p v).outcome ≡ severity p.outcome)
          ⊎ (severity (tally stage p v).outcome ≡ severity v.outcome))
unfolding tally
tally-severity stage p v = ground arith

-- The loop's outcome is at least as severe as the one it starts from and as every stage's, and is one
-- of these.
tally_all-severity :
    (req : Request) (ss : List Stage) (p : Progress)
    → (severity p.outcome ≤ severity (tally_all req ss p).outcome)
      × All (λ s. severity_of req s ≤ severity (tally_all req ss p).outcome) ss
      × ((severity (tally_all req ss p).outcome ≡ severity p.outcome)
          ⊎ ((s : Stage) × Memᴰ s ss × (severity (tally_all req ss p).outcome ≡ severity_of req s)))
unfolding tally_all
tally_all-severity req [] p = (omega arith, tt, inl refl)
tally_all-severity req (s ∷ ss) p =
    let v = evaluate_stage req s in
    let (a, b, c) = tally-severity s p v in
    let (a', b', c') = tally_all-severity req ss (tally s p v) in
    (
      omega arith,
      (omega arith, b'),
      elim c' [
        | inl e ↦ elim c [ inl e' ↦ inl (e ∙ e') | inr e' ↦ inr (s, Memᴰ.head refl, e ∙ e') ]
        | inr (x, m, e) ↦ inr (x, Memᴰ.tail m, e)
      ],
    )

severity-zero : (o : Outcome) → severity o ≤ 0 → o ≡ satisfied
unfolding severity
severity-zero satisfied h = refl
severity-zero o h = ground arith

report-outcome : (ss : List Stage) (p : Progress) → (report ss p).outcome ≡ p.outcome
unfolding report
report-outcome ss p = ground arith

none_severe : {o : Outcome} → o ≡ satisfied → severity o ≤ 0
unfolding severity
none_severe e = rw e (omega arith)

abbrev Promoted : Option Entry → Type 0
Promoted earlier = earlier ≢ none

module _ (req : Request) where
  severe_from :
      (s : Stage) (ss : List Stage)
      → let o = (tally_all req (s ∷ ss) blank).outcome in
        All (λ x. severity_of req x ≤ severity o) (s ∷ ss)
        × ((x : Stage) × Memᴰ x (s ∷ ss) × (severity o ≡ severity_of req x))
  severe_from s ss =
      let (_, b, c) = tally_all-severity req (s ∷ ss) blank in
      (
        b,
        elim c [ inl e ↦ (s, Memᴰ.head refl, unfold severity in omega arith) | inr found ↦ found ],
      )

  satisfied-All :
      (ss : List Stage) (k : ℕ)
      → All (λ s. IsInt32 s.soak_seconds) ss
      → k ≤ 0
      → All (λ s. severity_of req s ≤ k) ss
      → All (IsStageQualified req) ss
  satisfied-All [] k r z a = tt
  satisfied-All (s ∷ ss) k r z a = (
    (evaluate_stage-satisfied_iff req s r.0).0 (severity-zero _ (omega arith)),
    satisfied-All ss k r.1 z a.1,
  )

  qualified_none :
      (ss : List Stage)
      → All (λ s. IsInt32 s.soak_seconds) ss
      → All (IsStageQualified req) ss
      → (s : Stage) → Memᴰ s ss
      → severity_of req s ≡ 0
  qualified_none [] r q s m = absurd (Memᴰ.not-nil m)
  qualified_none (x ∷ ss) r q s m = elim (Memᴰ.cases_cons m) [
    | inl e ↦ rw e (rw ((evaluate_stage-satisfied_iff req x r.0).1 q.0) (unfold severity in refl))
    | inr later ↦ qualified_none ss r.1 q.1 s later
  ]

  decide_from :
      (ss : List Stage) (earlier : Option Entry)
      → ss ≢ []
      → All (λ s. IsInt32 s.soak_seconds) ss
      → ((evaluate_stages req ss earlier).outcome ≡ satisfied)
        ↔ (Promoted earlier ⊎ All (IsStageQualified req) ss)
  unfolding evaluate_stages
  decide_from ss (some e) n r = (λ _. inl (λ x. cc), λ _. refl)
  decide_from [] none n r = absurd (n refl)
  decide_from (s ∷ ss) none n r = rw report-outcome (
    λ h. inr (satisfied-All (s ∷ ss) _ r (none_severe h) (severe_from s ss).0),
    λ h. elim h [
      | inl x ↦ absurd (x refl)
      | inr q ↦
          let (x, m, e) = (severe_from s ss).1 in
          severity-zero _ (omega (arith, e, qualified_none (s ∷ ss) r q x m))
    ],
  )

outcome_from :
    (req : Request) (s : Stage) (ss : List Stage)
    → promoted_before req.preparation req.self ≡ none
    → (evaluate_from req (s ∷ ss)).outcome ≡ (tally_all req (s ∷ ss) blank).outcome
unfolding evaluate_from
outcome_from req s ss p = rw p (report-outcome (s ∷ ss) (tally_all req (s ∷ ss) blank))

-- When stages are named that the stage has not passed before, the gate's outcome is as severe as that
-- of its most severe stage.
pub evaluate_most_severe :
    (req : Request)
    → req.stages ≢ []
    → promoted_before req.preparation req.self ≡ none
    → All (λ s. severity_of req s ≤ severity (evaluate req).outcome) req.stages
      × ((s : Stage) × Memᴰ s req.stages × (severity (evaluate req).outcome ≡ severity_of req s))
unfolding evaluate
evaluate_most_severe req n p = from req.stages n
  where
    from :
        (ss : List Stage)
        → ss ≢ []
        → All (λ s. severity_of req s ≤ severity (evaluate_from req ss).outcome) ss
          × ((s : Stage) × Memᴰ s ss
              × (severity (evaluate_from req ss).outcome ≡ severity_of req s))
    from [] e = absurd (e refl)
    from (s ∷ ss) e =
        subst
          (λ o.
            All (λ x. severity_of req x ≤ severity o) (s ∷ ss)
            × ((x : Stage) × Memᴰ x (s ∷ ss) × (severity o ≡ severity_of req x)))
          (sym (outcome_from req s ss p)) (severe_from req s ss)

-- The gate lets a Preparation be deployed exactly when it names no upstream stages, or the stage
-- promoted it before, or every upstream stage qualifies its revision. The soaks are int32 seconds.
pub evaluate-satisfied_iff :
    (req : Request)
    → All (λ s. IsInt32 s.soak_seconds) req.stages
    → ((evaluate req).outcome ≡ satisfied) ↔ (
        (req.stages ≡ [])
        ⊎ (promoted_before req.preparation req.self ≢ none)
        ⊎ All (IsStageQualified req) req.stages)
unfolding evaluate
evaluate-satisfied_iff req r = from req.stages r
  where
    from :
        (ss : List Stage)
        → All (λ s. IsInt32 s.soak_seconds) ss
        → ((evaluate_from req ss).outcome ≡ satisfied) ↔ (
            (ss ≡ [])
            ⊎ (promoted_before req.preparation req.self ≢ none)
            ⊎ All (IsStageQualified req) ss)
    from [] e = (λ _. inl refl, λ _. refl)
    from (s ∷ ss) e =
        let (f, g) =
          decide_from req (s ∷ ss) (promoted_before req.preparation req.self) (λ x. cc) e in
        (λ h. inr (f h), λ h. elim h [ inl x ↦ absurd (cc x) | inr y ↦ g y ])

later_qualifies :
    (req : Request) (now : Time) (stage : Stage) (e : Entry)
    → req.now ≤ now
    → IsQualifying req stage e
    → IsQualifying (record req { now = now }) stage e
later_qualifies req now stage e l q = record {
  same_revision = q.same_revision;
  promotion_recorded = q.promotion_recorded;
  was_healthy = q.was_healthy;
  not_degraded = q.not_degraded;
  long_enough = let enough = q.long_enough in ground arith;
  deployment_recorded = q.deployment_recorded;
}

later-All :
    (req : Request) (now : Time) (ss : List Stage)
    → req.now ≤ now
    → All (IsStageQualified req) ss
    → All (IsStageQualified (record req { now = now })) ss
later-All req now [] l a = tt
later-All req now (s ∷ ss) l (q, a) = (
  record {
    upstream = q.upstream;
    entry = q.entry;
    exists = q.exists;
    same_product = q.same_product;
    held = q.held;
    qualifying = later_qualifies req now s q.entry l q.qualifying;
  },
  later-All req now ss l a,
)

-- A gate that lets a Preparation be deployed still does at any later time, while the histories stay
-- as they are. The soaks are int32 seconds.
evaluate_stays :
    (req : Request) (now : Time)
    → All (λ s. IsInt32 s.soak_seconds) req.stages
    → req.now ≤ now
    → (evaluate req).outcome ≡ satisfied
    → (evaluate (record req { now = now })).outcome ≡ satisfied
evaluate_stays req now r l s =
    (evaluate-satisfied_iff (record req { now = now }) r).1
      (elim ((evaluate-satisfied_iff req r).0 s) [
        | inl none_named ↦ inl none_named
        | inr (inl before) ↦ inr (inl before)
        | inr (inr all) ↦ inr (inr (later-All req now req.stages l all))
      ])
