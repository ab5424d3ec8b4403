-- ===== src/Serving/Observation/Observed.antt =====
-- What `observationOf` reports of the targets (internal/controller/serving_controller.go).
use kokumi.Promotion.History.{Entry, Observation, Health, is_healthy}
use kokumi.Serving.Targets.{Target, TargetState, States, state_of, cluster_not_ready}
use kokumi.Serving.Observation.{
  Observing, counting, found_degraded, is_at, health_of, count_health, observe_target,
  continue_with, observe_targets, observation_from, observation_of,
}
use kokumi.Prelude.{
  ℕ, suc, ◌≤◌, ◌<◌, ◌≡◌, refl, sym, ap, ◌∙◌, ◌≢◌, ◌↔◌, ◌⊎◌, Bool, true, false, not, ◌&&◌, ◌||◌,
  Option, none, some, List, [], ◌∷◌, arith, ltb, ◌==◌, ◌=?◌, =?_iff, if◌then◌else◌, any, All,
}

-- The target is not held, and the engine reports the entry healthy there.
pub record RunsHealthily (deployed : Entry) (states : States) (t : Target) : Type 0 where
  pub not_held : t.hold_reason ≡ ""
  pub state : TargetState
  pub reported : state_of t.cluster states ≡ some state
  pub at_digest : state.revision ≡ deployed.digest
  pub healthy : state.health ≡ Health.healthy

abbrev pub is_counted : Target → Bool
is_counted t = not (t.hold_reason =? cluster_not_ready)

abbrev is_running : Entry → States → Target → Bool
is_running d states t =
    is_at d t (state_of t.cluster states) && is_healthy (health_of (state_of t.cluster states))

-- A target that counts runs the entry healthily.
abbrev Fine : Entry → States → Target → Type 0
Fine d states t = is_counted t ≡ true → is_running d states t ≡ true

abbrev IsFull : Observing → Type 0
IsFull found_degraded = ⊥
IsFull (counting c h) = (0 < c) × (h ≡ c)

-- What a round does to the counts.
pub data Round (d : Entry) (states : States) (t : Target) (c h : ℕ) : Observing → Type 0 where
  skipped : is_counted t ≡ false → Round d states t c h (counting c h)
  counted_up :
      is_counted t ≡ true
      → is_running d states t ≡ true
      → Round d states t c h (counting (suc c) (suc h))
  counted_short :
      is_counted t ≡ true
      → is_running d states t ≡ false
      → Round d states t c h (counting (suc c) h)
  stopped :
      is_counted t ≡ true → is_running d states t ≡ false → Round d states t c h found_degraded

observe_target-Round :
    (d : Entry) (states : States) (t : Target) (c h : ℕ)
    → Round d states t c h (observe_target d t states c h)
unfolding observe_target
observe_target-Round d states t c h =
    by_tests (t.hold_reason =? cluster_not_ready) (is_at d t (state_of t.cluster states))
      (health_of (state_of t.cluster states)) refl refl refl
  where
    by_tests :
        (unready at : Bool) (reported : Health)
        → (t.hold_reason =? cluster_not_ready) ≡ unready
        → is_at d t (state_of t.cluster states) ≡ at
        → health_of (state_of t.cluster states) ≡ reported
        → Round d states t c h (
            if unready
            then counting c h
            else if at
            then count_health reported (suc c) h
            else counting (suc c) h)
    by_tests true at reported u a e = skipped (ground (arith, u))
    by_tests false true Health.healthy u a e = counted_up (ground (arith, u)) (ground (arith, a, e))
    by_tests false true Health.degraded u a e = stopped (ground (arith, u)) (ground (arith, a, e))
    by_tests false true Health.progressing u a e =
        counted_short (ground (arith, u)) (ground (arith, a, e))
    by_tests false false reported u a e = counted_short (ground (arith, u)) (ground (arith, a))

observe_targets-IsFull :
    (d : Entry) (states : States) (ts : List Target) (c h : ℕ)
    → h ≤ c
    → IsFull (observe_targets d ts states c h)
      ↔ ((h ≡ c) × All (Fine d states) ts × ((0 < c) ⊎ (any is_counted ts ≡ true)))
unfolding observe_targets
observe_targets-IsFull d states [] c h le = ground arith
observe_targets-IsFull d states (t ∷ ts) c h le =
    by_round (observe_target d t states c h) (observe_target-Round d states t c h)
      (λ c h. observe_targets-IsFull d states ts c h)
  where
    by_round :
        (o : Observing)
        → Round d states t c h o
        → ((c h : ℕ)
            → h ≤ c
            → IsFull (observe_targets d ts states c h)
              ↔ ((h ≡ c) × All (Fine d states) ts × ((0 < c) ⊎ (any is_counted ts ≡ true))))
        → IsFull (continue_with o (λ c h. observe_targets d ts states c h)) ↔ (
            (h ≡ c)
            × (Fine d states t × All (Fine d states) ts)
            × ((0 < c) ⊎ ((is_counted t || any is_counted ts) ≡ true)))
    by_round found_degraded (stopped n r) rest = ground arith
    by_round (counting c' h') (skipped n) rest = ground (arith, n, rest c h le)
    by_round (counting c' h') (counted_up n r) rest =
        ground (arith, n, r, rest (suc c) (suc h) (omega arith))
    by_round (counting c' h') (counted_short n r) rest =
        ground (arith, n, r, rest (suc c) h (omega arith))

abbrev healthy_at : Entry → Observation
healthy_at d = record { revision = d.digest; health = Health.healthy }

abbrev still_progressing : Observation
still_progressing = record { revision = ""; health = Health.progressing }

observation_from-healthy :
    (d : Entry) (o : Observing) → ((observation_from d o).health ≡ Health.healthy) ↔ IsFull o
observation_from-healthy d found_degraded = ground arith
observation_from-healthy d (counting c h) = by_tests (ltb 0 c) (h == c) refl refl
  where
    by_tests :
        (some_counted all_healthy : Bool)
        → ltb 0 c ≡ some_counted
        → (h == c) ≡ all_healthy
        → ((if some_counted && all_healthy then healthy_at d else still_progressing).health
            ≡ Health.healthy)
          ↔ ((0 < c) × (h ≡ c))
    by_tests true true s a = ground (arith, s, a)
    by_tests true false s a = ground (arith, s, a)
    by_tests false all_healthy s a = ground (arith, s)

-- A target that counts runs the entry healthily.
abbrev pub Runs : Entry → States → Target → Type 0
Runs d states t = t.hold_reason ≢ cluster_not_ready → RunsHealthily d states t

is_healthy-healthy : (reported : Health) → is_healthy reported ≡ true → reported ≡ Health.healthy
is_healthy-healthy Health.healthy h = refl
is_healthy-healthy Health.degraded h = ground (arith, h)
is_healthy-healthy Health.progressing h = ground (arith, h)

all_hold : (a b c : Bool) → a ≡ true → b ≡ true → c ≡ true → ((a && b) && c) ≡ true
all_hold a b c p q r = ground (arith, p, q, r)

state_found :
    {d : Entry} {states : States} {t : Target} {s : TargetState}
    → (r : RunsHealthily d states t) → state_of t.cluster states ≡ some s
    → r.state ≡ s
state_found r e = ground (arith, e, r.reported)

is_running-RunsHealthily :
    (d : Entry) (states : States) (t : Target)
    → (is_running d states t ≡ true) ↔ RunsHealthily d states t
is_running-RunsHealthily d states t = by_state (state_of t.cluster states) refl
  where
    by_state :
        (s : Option TargetState)
        → state_of t.cluster states ≡ s
        → ((is_at d t s && is_healthy (health_of s)) ≡ true) ↔ RunsHealthily d states t
    by_state none e = (λ h. ground (arith, h), λ r. ground (arith, e, r.reported))
    by_state (some s) e = (
      λ h. record {
        not_held = ground (arith, h, =?_iff t.hold_reason "");
        state = s;
        reported = e;
        at_digest = ground (arith, h, =?_iff s.revision d.digest);
        healthy = is_healthy-healthy s.health (ground (arith, h));
      },
      λ r.
          all_hold (t.hold_reason =? "") (s.revision =? d.digest) (is_healthy s.health)
            ((=?_iff t.hold_reason "").1 r.not_held)
            ((=?_iff s.revision d.digest).1
              (sym (ap (λ x. x.revision) (state_found r e)) ∙ r.at_digest))
            (ap is_healthy (sym (ap (λ x. x.health) (state_found r e)) ∙ r.healthy)),
    )

Fine-iff : (d : Entry) (states : States) (t : Target) → Fine d states t ↔ Runs d states t
Fine-iff d states t =
    ground (arith, =?_iff t.hold_reason cluster_not_ready, is_running-RunsHealthily d states t)

All-Fine_iff :
    (d : Entry) (states : States) (ts : List Target)
    → All (Fine d states) ts ↔ All (Runs d states) ts
All-Fine_iff d states [] = ground arith
All-Fine_iff d states (t ∷ ts) = ground (arith, Fine-iff d states t, All-Fine_iff d states ts)

-- For the entry that a Serving deploys, its targets and the states that the engine reports:
-- `observationOf` observes it healthy exactly when at least one target's cluster is ready and, on
-- every target whose cluster is ready, nothing holds the deployment and the state that the engine
-- reports is healthy at the digest of the entry.
pub observation_of-healthy_iff :
    (d : Entry) (ts : List Target) (states : States)
    → ((observation_of d ts states).health ≡ Health.healthy)
      ↔ ((any is_counted ts ≡ true) × All (Runs d states) ts)
unfolding observation_of
observation_of-healthy_iff d ts states = ground (
  arith,
  observation_from-healthy d (observe_targets d ts states 0 0),
  observe_targets-IsFull d states ts 0 0 (omega arith),
  All-Fine_iff d states ts,
)
