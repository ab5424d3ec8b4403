-- ===== src/Promotion/Gate.antt =====
-- internal/promotion/gate.go: the gate that holds a stage until its upstream stages deployed the
-- same Product revision healthily for their soak time. A message is the data that its text is made
-- of; `upstreams[name]` is a partial function, and `none` is an Order that does not exist.
pub mod OneStage
pub mod Decision
use kokumi.Prelude.{
  ℕ, ◌+◌, ◌-◌, ◌*◌, String, Bool, true, false, not, ◌&&◌, ◌||◌, Option, none, some, List, [], ◌∷◌,
  ◌++◌, map, ltb, ◌==◌, ◌=?◌, if◌then◌else◌, zero, suc, ◌/◌, ◌%◌, ◌^◌, ◌≤◌, ◌<◌, min, ◌≡◌, refl,
  sym, ap, ◌∙◌, ◌≢◌, ◌↔◌, ◌⊎◌, inl, inr, arith, leb, =?_iff, =?_refl, ltb→lt, leb→le, le→leb,
  lt→leb, Bool-cases, Option-cases, length, take, tail, any, All, All-take, length-take, take_all,
}
use kokumi.Prelude.Int.{ℤ, pos, negsuc, ◌-ℤ◌, ltb_ℤ, leb_ℤ}
use kokumi.Clock.{add, Time, Duration, second, is_zero, sub, wrap64}
use kokumi.Promotion.History.{
  Entry, History, running, promoted, is_degraded, deployed, promoted_before,
}

-- From the most to the least severe.
pub data Outcome : Type 0 where
  invalid_pipeline not_deployed_upstream soaking satisfied : Outcome

unfoldable pub severity : Outcome → ℕ
severity satisfied = 0
severity soaking = 1
severity not_deployed_upstream = 2
severity invalid_pipeline = 3

-- `soak_seconds` is an int32.
pub record Stage : Type 0 where
  pub order : String
  pub soak_seconds : ℤ

-- time.Duration(n) * time.Second: of an int32, so that the product fits an int64.
unfoldable pub seconds : ℤ → Duration
seconds (pos n) = pos (n * second)
seconds (negsuc n) = negsuc (n * second + (second - 1))

unfoldable pub soak : Stage → Duration
unfolding seconds
soak s = seconds s.soak_seconds

pub record Upstream : Type 0 where
  pub product : String
  pub history : History

pub record Request : Type 0 where
  pub preparation : String
  pub product : String
  pub revision : String
  pub stages : List Stage
  pub self : History
  pub upstreams : String → Option Upstream
  pub now : Time

-- The texts of a stage's verdict, by the values that they show.
pub data StageMessage : Type 0 where
  no_message : StageMessage
  order_does_not_exist : (order : String) → StageMessage
  variant_of : (order product wanted : String) → StageMessage
  recording_deployment : (order preparation : String) → StageMessage
  soak_ends : (order preparation : String) → Duration → Time → StageMessage
  not_deployed_healthily : (order revision : String) → Option Entry → StageMessage

-- The texts of the gate.
pub data Message : Type 0 where
  no_upstream_stages : Message
  promoted_here_at : Time → Message
  joined : List StageMessage → Message
  deployed_upstream_by : List String → Message

pub record Qualified : Type 0 where
  pub stage : Stage
  pub entry : Entry

pub record Result : Type 0 where
  pub outcome : Outcome
  pub message : Message
  pub requeue_after : Duration
  pub qualified : List Qualified
  pub promotion : String

-- `qualified` is `none` for the zero entry of the source.
pub record Verdict : Type 0 where
  pub outcome : Outcome
  pub message : StageMessage
  pub remaining : Duration
  pub qualified : Option Entry

-- The loop over the history returned a verdict, or it ended with what `soaking` holds.
pub data Scan : Type 0 where
  returned : Verdict → Scan
  finished : Option Verdict → Scan

abbrev is_none {ℓ} : {A : Type ℓ} → Option A → Bool
is_none none = true
is_none (some _) = false

module _ (req : Request) (stage : Stage) where
  -- The entries that the loop does not pass over by its `continue`.
  unfoldable pub relevant : Entry → Bool
  relevant e =
      (e.product_revision =? req.revision)
      && (promoted e && (not (is_zero e.healthy) && not (is_degraded e.end_reason)))

  abbrev pub until : Entry → Time
  until e = if running e then req.now else e.ended

  abbrev pub healthy_for : Entry → Duration
  healthy_for e = sub (until e) e.healthy

  unfoldable pub soaked : Entry → Bool
  soaked e = leb_ℤ (soak stage) (healthy_for e)

  unfoldable pub qualifies : Entry → Bool
  unfolding relevant soaked
  qualifies e = relevant e && (soaked e && not (e.deployment_record =? ""))

  abbrev pub waiting_record : Entry → Verdict
  waiting_record e = record {
    outcome = soaking;
    message = recording_deployment stage.order e.preparation;
    remaining = pos 0;
    qualified = none;
  }

  abbrev pub waiting_soak : Entry → Verdict
  waiting_soak e = record {
    outcome = soaking;
    message = soak_ends stage.order e.preparation (soak stage) (add e.healthy (soak stage));
    remaining = wrap64 (soak stage -ℤ healthy_for e);
    qualified = none;
  }

  abbrev pub qualified_by : Entry → Verdict
  qualified_by e = record {
    outcome = satisfied;
    message = no_message;
    remaining = pos 0;
    qualified = some e;
  }

  -- The variable `soaking` of the loop after an entry that does not qualify.
  unfoldable pub note_soaking : Entry → Option Verdict → Option Verdict
  unfolding relevant soaked
  note_soaking e found =
      if relevant e && is_none found
      then (if soaked e
          then some (waiting_record e)
          else if running e
          then some (waiting_soak e)
          else found)
      else found

  unfoldable pub scan_history : History → Option Verdict → Scan
  unfolding qualifies note_soaking
  scan_history [] found = finished found
  scan_history (e ∷ h) found =
      let rest = scan_history h (note_soaking e found) in
      if qualifies e then returned (qualified_by e) else rest

  -- What the message says of another revision that the upstream stage runs.
  abbrev pub other_revision : Option Entry → Option Entry
  other_revision none = none
  other_revision (some d) = if d.product_revision =? req.revision then none else some d

  unfoldable pub conclude : History → Scan → Verdict
  unfolding deployed
  conclude h (returned v) = v
  conclude h (finished (some v)) = v
  conclude h (finished none) = record {
    outcome = not_deployed_upstream;
    message = not_deployed_healthily stage.order req.revision (other_revision (deployed h));
    remaining = pos 0;
    qualified = none;
  }

  unfoldable pub evaluate_upstream : Option Upstream → Verdict
  unfolding conclude scan_history
  evaluate_upstream none = record {
    outcome = not_deployed_upstream;
    message = order_does_not_exist stage.order;
    remaining = pos 0;
    qualified = none;
  }
  evaluate_upstream (some up) =
      if up.product =? req.product
      then conclude up.history (scan_history up.history none)
      else record {
        outcome = invalid_pipeline;
        message = variant_of stage.order up.product req.product;
        remaining = pos 0;
        qualified = none;
      }

  unfoldable pub evaluate_stage : Verdict
  unfolding evaluate_upstream
  evaluate_stage = evaluate_upstream (req.upstreams stage.order)

-- The variables of the loop of `Evaluate`.
pub record Progress : Type 0 where
  pub outcome : Outcome
  pub messages : List StageMessage
  pub qualified : List Qualified
  pub requeue_after : Duration

abbrev is_satisfied : Outcome → Bool
is_satisfied satisfied = true
is_satisfied _ = false

abbrev qualified_entry : Stage → Option Entry → List Qualified
qualified_entry stage none = []
qualified_entry stage (some e) = record { stage = stage; entry = e } ∷ []

-- One round of the loop, at the stage's verdict.
unfoldable pub tally : Stage → Progress → Verdict → Progress
unfolding severity
tally stage p v = record {
  outcome = if ltb (severity p.outcome) (severity v.outcome) then v.outcome else p.outcome;
  messages =
      if ltb (severity p.outcome) (severity v.outcome)
      then v.message ∷ []
      else if (severity v.outcome == severity p.outcome) && not (is_satisfied v.outcome)
      then p.messages ++ v.message ∷ []
      else p.messages;
  qualified =
      if is_satisfied v.outcome
      then p.qualified ++ qualified_entry stage v.qualified
      else p.qualified;
  requeue_after =
      if ltb_ℤ (pos 0) v.remaining
        && (leb_ℤ p.requeue_after (pos 0) && leb_ℤ (pos 0) p.requeue_after
            || ltb_ℤ v.remaining p.requeue_after)
      then v.remaining
      else p.requeue_after;
}

unfoldable pub tally_all : Request → List Stage → Progress → Progress
unfolding tally evaluate_stage
tally_all req [] p = p
tally_all req (s ∷ ss) p = tally_all req ss (tally s p (evaluate_stage req s))

abbrev pub blank : Progress
blank = record { outcome = satisfied; messages = []; qualified = []; requeue_after = pos 0 }

-- The end of `Evaluate`, behind its loop.
unfoldable pub report : List Stage → Progress → Result
report stages p =
    if is_satisfied p.outcome
    then record {
      outcome = satisfied;
      message = deployed_upstream_by (map (λ (s : Stage). s.order) stages);
      requeue_after = p.requeue_after;
      qualified = p.qualified;
      promotion = "";
    }
    else record {
      outcome = p.outcome;
      message = joined p.messages;
      requeue_after = p.requeue_after;
      qualified = [];
      promotion = "";
    }

abbrev pub passed : Message → String → Result
passed message promotion = record {
  outcome = satisfied;
  message = message;
  requeue_after = pos 0;
  qualified = [];
  promotion = promotion;
}

-- Behind the first guard: `earlier` is the newest promotion of the Preparation by the stage itself.
unfoldable pub evaluate_stages : Request → List Stage → Option Entry → Result
evaluate_stages req stages (some earlier) =
    passed (promoted_here_at earlier.started) earlier.promotion_record
evaluate_stages req stages none = report stages (tally_all req stages blank)

unfoldable pub evaluate_from : Request → List Stage → Result
unfolding evaluate_stages
evaluate_from req [] = passed no_upstream_stages ""
evaluate_from req (s ∷ ss) = evaluate_stages req (s ∷ ss) (promoted_before req.preparation req.self)

unfoldable pub evaluate : Request → Result
unfolding evaluate_from
evaluate req = evaluate_from req req.stages
