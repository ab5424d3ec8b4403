-- ===== src/Serving/Upstream/Satisfied.antt =====
-- What the upstream gate of a Serving asks for (internal/controller/serving_controller.go, upstream).
use kokumi.Prelude.Result.{Result, err, ok}
use mathlib.Core.Path.{subst}
use kokumi.Promotion.Gate
use kokumi.Promotion.Gate.{
  Stage, Qualified, Outcome, satisfied, soaking, not_deployed_upstream, invalid_pipeline,
}
use kokumi.Promotion.Gate.Decision.{evaluate-satisfied_iff}
use kokumi.Promotion.Gate.OneStage.{IsInt32, IsStageQualified}
use kokumi.Promotion.History.{Entry, History, promoted_before}
use kokumi.Promotion.Release.{Requirement, required}
use kokumi.Promotion.Release.Required.{IsMet, required-nil_iff}
use kokumi.Serving.Inputs.{
  Inputs, Upstreamed, Gated, RecordCheck, record_verified, record_unverified,
}
use kokumi.Serving.Preparation.{Preparation}
use kokumi.Serving.Status.{marked, is_false, is_true, removed}
use kokumi.Serving.Upstream.{
  is_satisfied, Collected, environment_of, requirements, collect, held_upstream, check_records,
  upstreamed_of, unless_held, judge_upstream, request_of, evaluate_upstreams, require_upstreams,
  upstream, upstream_reasons,
}
use kokumi.Prelude.{
  String, ◌≡◌, refl, sym, ap, ◌∙◌, inl, inr, Bool, true, false, not, ◌&&◌, Option, none, some, List,
  [], ◌∷◌, arith, ◌==◌, ◌=?◌, if◌then◌else◌, length, All,
}

abbrev pub none_read : Collected
none_read = record { environments = []; upstreams = [] }

abbrev IsVerified : Inputs → Qualified → Type 0
IsVerified w q = w.verify_deployment q ≡ record_verified

-- The upstream stages let a Preparation pass that the Serving never promoted.
pub record IsCleared (w : Inputs) (p : Preparation) (h : History) (u : Upstreamed) : Type 0 where
  pub required_environments : List Requirement
  pub required_ok : requirements w ≡ ok required_environments
  pub collected : Collected
  pub read_ok : collect w p.stages none_read ≡ ok collected
  pub met : All (IsMet p.stages (environment_of collected.environments)) required_environments
  pub stages_qualified : All (IsStageQualified (request_of w p h collected)) p.stages
  pub records_verified : All (IsVerified w) u.qualified

satisfied_outcome : (o : Outcome) → is_satisfied o ≡ true → o ≡ satisfied
satisfied_outcome satisfied e = refl
satisfied_outcome soaking e = ground (arith, e)
satisfied_outcome not_deployed_upstream e = ground (arith, e)
satisfied_outcome invalid_pipeline e = ground (arith, e)

-- What the loop over the records returns.
abbrev Checked : Inputs → List Qualified → Option (Gated Upstreamed) → Type 0
Checked w qs none = All (IsVerified w) qs
Checked w qs (some g) = (u : Upstreamed) → g.result ≡ ok u → is_satisfied u.outcome ≡ false

check_records-Checked : (w : Inputs) (qs : List Qualified) → Checked w qs (check_records w qs)
unfolding check_records
check_records-Checked w [] = tt
check_records-Checked w (q ∷ qs) =
    by_check (w.verify_deployment q) refl (check_records-Checked w qs)
  where
    by_rest :
        (r : Option (Gated Upstreamed))
        → w.verify_deployment q ≡ record_verified
        → Checked w qs r
        → Checked w (q ∷ qs) r
    by_rest none v c = (v, c)
    by_rest (some g) v c = c

    by_reason :
        (b : Bool) (reason e : String)
        → Checked w (q ∷ qs) (
            if b
            then some (record { change = marked is_false "SignatureMissing"; result = err e })
            else some (record {
              change = marked is_false reason;
              result = ok (held_upstream not_deployed_upstream);
            }))
    by_reason true reason e = λ u f. ground (arith, f)
    by_reason false reason e = λ u f. ground (arith, f)

    by_check :
        (c : RecordCheck)
        → w.verify_deployment q ≡ c
        → Checked w qs (check_records w qs)
        → Checked w (q ∷ qs) (elim c [
          | record_verified ↦ check_records w qs
          | record_unverified reason e ↦
              if reason =? ""
              then some (record { change = marked is_false "SignatureMissing"; result = err e })
              else some (record {
                change = marked is_false reason;
                result = ok (held_upstream not_deployed_upstream);
              })
        ])
    by_check record_verified v c = by_rest (check_records w qs) v c
    by_check (record_unverified reason e) v c = by_reason (reason =? "") reason e

-- A judgement that lets the candidate pass.
record IsJudged (w : Inputs) (r : Gate.Result) (u : Upstreamed) : Type 0 where
  pub outcome_satisfied : r.outcome ≡ satisfied
  pub all_verified : All (IsVerified w) u.qualified

judge_upstream-IsJudged :
    (w : Inputs) (r : Gate.Result) (u : Upstreamed)
    → (judge_upstream w r).result ≡ ok u
    → is_satisfied u.outcome ≡ true
    → IsJudged w r u
unfolding judge_upstream
judge_upstream-IsJudged w r u e s =
    by_outcome (is_satisfied r.outcome) refl (check_records w r.qualified)
      (check_records-Checked w r.qualified) e
  where
    by_held :
        (o : Option (Gated Upstreamed))
        → r.outcome ≡ satisfied
        → Checked w r.qualified o
        → (unless_held o
            (record { change = marked is_true "Satisfied"; result = ok (upstreamed_of r) })).result
          ≡ ok u
        → IsJudged w r u
    by_held none o c f = record { outcome_satisfied = o; all_verified = ground (arith, f, c) }
    by_held (some g) o c f = ground (arith, c u f, s)

    by_outcome :
        (b : Bool)
        → is_satisfied r.outcome ≡ b
        → (o : Option (Gated Upstreamed)) → Checked w r.qualified o
        → (if not b
            then record {
              change = marked is_false (upstream_reasons r.outcome);
              result = ok (upstreamed_of r);
            }
            else unless_held o (record {
              change = marked is_true "Satisfied";
              result = ok (upstreamed_of r);
            })).result
          ≡ ok u
        → IsJudged w r u
    by_outcome true o h c f = by_held h (satisfied_outcome r.outcome o) c f
    by_outcome false o h c f = ground (arith, f, s, o)

-- Stages that are all qualified, from the gate's outcome.
stages_qualified_by :
    (w : Inputs) (p : Preparation) (h : History) (c : Collected)
    → All (λ s. IsInt32 s.soak_seconds) p.stages
    → promoted_before p.name h ≡ none
    → (Gate.evaluate (request_of w p h c)).outcome ≡ satisfied
    → All (IsStageQualified (request_of w p h c)) p.stages
stages_qualified_by w p h c i n o = elim ((evaluate-satisfied_iff (request_of w p h c) i).0 o) [
  | inl none_named ↦ subst (All (IsStageQualified (request_of w p h c))) (sym none_named) tt
  | inr (inl before) ↦ absurd (before n)
  | inr (inr all) ↦ all
]

evaluate_upstreams-IsCleared :
    (w : Inputs) (p : Preparation) (h : History) (u : Upstreamed) (reqs : List Requirement)
    (r : Result Collected)
    → All (λ s. IsInt32 s.soak_seconds) p.stages
    → promoted_before p.name h ≡ none
    → requirements w ≡ ok reqs
    → collect w p.stages none_read ≡ r
    → (evaluate_upstreams w p h reqs r).result ≡ ok u
    → is_satisfied u.outcome ≡ true
    → IsCleared w p h u
unfolding evaluate_upstreams
evaluate_upstreams-IsCleared w p h u reqs (err e) i n q k f s = ground (arith, f)
evaluate_upstreams-IsCleared w p h u reqs (ok c) i n q k f s =
    by_missing (required p.stages (environment_of c.environments) reqs) refl f
  where
    by_missing :
        (l : List Requirement)
        → required p.stages (environment_of c.environments) reqs ≡ l
        → (elim l as (λ _. Gated Upstreamed) [
          | [] ↦ judge_upstream w (Gate.evaluate (request_of w p h c))
          | _ ∷ _ ↦ record {
            change = marked is_false "PipelineRequired";
            result = ok (held_upstream invalid_pipeline);
          }
        ]).result
          ≡ ok u
        → IsCleared w p h u
    by_missing (m ∷ l) e g = ground (arith, g, s)
    by_missing [] e g =
        let judged = judge_upstream-IsJudged w (Gate.evaluate (request_of w p h c)) u g s in
        record {
          required_environments = reqs;
          required_ok = q;
          collected = c;
          read_ok = k;
          met = (required-nil_iff p.stages (environment_of c.environments) reqs).0 e;
          stages_qualified = stages_qualified_by w p h c i n judged.outcome_satisfied;
          records_verified = judged.all_verified;
        }

is_empty : {A : Type 0} (l : List A) → (length l == 0) ≡ true → l ≡ []
is_empty [] e = refl
is_empty (x ∷ l) e = ground (arith, e)

nothing_required :
    (w : Inputs) (p : Preparation) (h : History) (u : Upstreamed)
    → p.stages ≡ []
    → requirements w ≡ ok []
    → ok (held_upstream satisfied) ≡ ok u
    → IsCleared w p h u
unfolding collect
nothing_required w p h u e q f = record {
  required_environments = [];
  required_ok = q;
  collected = none_read;
  read_ok = rw e refl;
  met = tt;
  stages_qualified = subst (All (IsStageQualified (request_of w p h none_read))) (sym e) tt;
  records_verified = ground (arith, f);
}

require_upstreams-IsCleared :
    (w : Inputs) (p : Preparation) (h : History) (u : Upstreamed) (r : Result (List Requirement))
    → All (λ s. IsInt32 s.soak_seconds) p.stages
    → promoted_before p.name h ≡ none
    → requirements w ≡ r
    → (require_upstreams w p h r).result ≡ ok u
    → is_satisfied u.outcome ≡ true
    → IsCleared w p h u
unfolding require_upstreams
require_upstreams-IsCleared w p h u (err e) i n q f s = ground (arith, f)
require_upstreams-IsCleared w p h u (ok reqs) i n q f s =
    by_test (length p.stages == 0) (length reqs == 0) refl refl f
  where
    by_test :
        (a b : Bool)
        → (length p.stages == 0) ≡ a
        → (length reqs == 0) ≡ b
        → (if a && b
            then record { change = removed; result = ok (held_upstream satisfied) }
            else evaluate_upstreams w p h reqs (collect w p.stages none_read)).result
          ≡ ok u
        → IsCleared w p h u
    by_test true true d e g =
        nothing_required w p h u (is_empty p.stages d) (q ∙ ap ok (is_empty reqs e)) g
    by_test true false d e g =
        evaluate_upstreams-IsCleared w p h u reqs (collect w p.stages none_read) i n q refl g s
    by_test false b d e g =
        evaluate_upstreams-IsCleared w p h u reqs (collect w p.stages none_read) i n q refl g s

-- A Preparation that the Serving never promoted, with soaks of int32 seconds, passes the upstream
-- gate only when the Environment and the upstream Orders and Servings could be read, a stage meets
-- each Environment required, with at least its soak, every upstream stage is of the same Product and
-- deployed the same revision healthily for its soak time, and each deployment record that the gate
-- names verified in the registry.
pub upstream-IsCleared :
    (w : Inputs) (p : Preparation) (h : History) (u : Upstreamed)
    → All (λ s. IsInt32 s.soak_seconds) p.stages
    → promoted_before p.name h ≡ none
    → (upstream w p h).result ≡ ok u
    → is_satisfied u.outcome ≡ true
    → IsCleared w p h u
unfolding upstream
upstream-IsCleared w p h u i n f s = by_history (promoted_before p.name h) n f
  where
    by_history :
        (o : Option Entry)
        → o ≡ none
        → (elim o as (λ _. Gated Upstreamed) [
          | none ↦ require_upstreams w p h (requirements w)
          | some _ ↦ require_upstreams w p h (ok [])
        ]).result
          ≡ ok u
        → IsCleared w p h u
    by_history none e g = require_upstreams-IsCleared w p h u (requirements w) i n refl g s
    by_history (some x) e g = ground (arith, e)
