-- ===== src/Tests/Servings.antt =====
-- A Serving behind one upstream stage (internal/controller/serving_controller.go).
use kokumi.Prelude.Result.{ok}
use kokumi.Approval
use kokumi.Clock.{second, truncate_second, Time}
use kokumi.Prelude.Int.{pos}
use kokumi.Promotion.Gate
use kokumi.Promotion.Gate.{satisfied, Stage, Qualified, seconds, soak}
use kokumi.Promotion.History.{
  History, Health, deployed, pending, drop, next, step_open, step_record, open_entry, prepend,
  promoted_before,
}
use kokumi.Promotion.History.Identity.{identity}
use kokumi.Promotion.History.Invariant.{IsWell, open_entry-IsWell}
use kokumi.Promotion.History.Passes.{started}
use kokumi.Promotion.History.Runs.{empty-IsWell}
use kokumi.Promotion.Release.{required, meets}
use kokumi.Serving.Checks.{checks}
use kokumi.Serving.Engine.{Deploying}
use kokumi.Serving.Inputs.{Inputs, Upstreamed, ChecksVerdict, record_verified, evidence_verified}
use kokumi.Serving.Preparation.{Preparation, entry_of}
use kokumi.Serving.Promote.{promote}
use kokumi.Serving.Promote.Admitted.{IsAdmitted, Advance, promote-Advance}
use kokumi.Serving.Promote.Twice.{promote-twice}
use kokumi.Serving.Reconcile.{Choosing, target_preparation, reconcile_serving}
use kokumi.Serving.Reconcile.Admission.{Deploys, reconcile_serving-Deploys}
use kokumi.Serving.Reconcile.Pass.{IsRun, reconcile_serving-IsRun, reconcile_serving-IsWell}
use kokumi.Serving.Status.{
  Fetched, fetched, missing, unread, is_true, Condition, DeploymentEntry, ServingStatus, entry_to,
  history_of, set_history,
}
use kokumi.Serving.Status.RoundTrip.{history_of-set_history}
use kokumi.Serving.Upstream.{
  upstream, require_upstreams, requirements, collect, collect_stage, collect_serving,
  evaluate_upstreams, judge_upstream, environment_of, upstream_of, check_records,
}
use kokumi.Promotion.Gate.OneStage.{IsInt32}
use kokumi.Serving.Upstream.Satisfied.{IsCleared, upstream-IsCleared}
use kokumi.Tests.Stages.{dev_entry, dev_stage}
use kokumi.Prelude.{
  ◌*◌, String, ◌≡◌, refl, ◌≢◌, ◌⊎◌, true, false, none, some, [], ◌∷◌, arith, ◌=?◌, All, =?_ne,
}

abbrev ready_true : Condition
ready_true = record { status = is_true; reason = "Ready" }

abbrev candidate : Preparation
candidate = record {
  name = "shop-prod-1";
  ready = some ready_true;
  digest = "sha256:aa";
  oci_ref = "oci://registry/shop";
  registry_ref = none;
  product_revision = "v1";
  target_namespace = "shop";
  stages = dev_stage ∷ [];
  check = none;
  images = [];
  approval = record {
    name = "shop-prod-1";
    uid = "1";
    digest = "sha256:aa";
    policy = none;
    status = none;
    approvals_sealed = false;
  };
}

abbrev recorded : String
recorded = "promotion-2"

abbrev world : Inputs
world = record {
  upstream_time = 2_000 * second;
  checks_time = 2_000 * second;
  open_time = 2_000 * second;
  product_ref = "shop";
  environment =
      fetched (some (record { environment = "development"; min_soak_seconds = pos 30 } ∷ []));
  upstream_order = λ name. fetched (record { environment = "development"; product = "shop" });
  upstream_serving = λ name. fetched (entry_to dev_entry ∷ []);
  verify_deployment = λ q. record_verified;
  own_order = fetched "shop";
  product_named = λ name. missing;
  scan_interval = ok (pos 0);
  read_report = λ s. record { findings = []; error = none };
  approvals = ok [];
  verify_evidence = evidence_verified;
  record_promotion = λ h u c. ok recorded;
}

abbrev passed_upstream : Upstreamed
passed_upstream = record {
  outcome = satisfied;
  requeue_after = pos 0;
  qualified = record { stage = dev_stage; entry = dev_entry } ∷ [];
  promotion = "";
}

abbrev passed_checks : ChecksVerdict
passed_checks = record { passed = true; recheck = pos 0; evidence = none }

upstream_passes : (upstream world candidate []).result ≡ ok passed_upstream
unfolding upstream require_upstreams requirements collect collect_stage collect_serving
    evaluate_upstreams judge_upstream environment_of upstream_of check_records required meets
    promoted_before kokumi.Serving.Status.history_of kokumi.Serving.Status.entry_from
    kokumi.Serving.Status.entry_to kokumi.Serving.Status.registry_ref
    kokumi.Serving.Status.optional_time ◌=?◌ kokumi.Promotion.Gate.evaluate
    kokumi.Promotion.Gate.evaluate_from kokumi.Promotion.Gate.evaluate_stages
    kokumi.Promotion.Gate.tally_all kokumi.Promotion.Gate.tally kokumi.Promotion.Gate.report
    kokumi.Promotion.Gate.evaluate_stage kokumi.Promotion.Gate.evaluate_upstream
    kokumi.Promotion.Gate.conclude kokumi.Promotion.Gate.scan_history
    kokumi.Promotion.Gate.qualifies kokumi.Promotion.Gate.relevant kokumi.Promotion.Gate.soaked
    kokumi.Promotion.Gate.soak kokumi.Promotion.Gate.seconds kokumi.Promotion.Gate.note_soaking
    kokumi.Promotion.Gate.severity kokumi.Clock.sub
upstream_passes = refl

checks_pass : (checks world candidate).result ≡ ok passed_checks
unfolding checks
checks_pass = refl

not_blocked : (Approval.gate candidate.approval []).blocked ≡ false
unfolding kokumi.Approval.gate kokumi.Approval.gate_of kokumi.Approval.evaluate
    kokumi.Approval.evaluate_for
not_blocked = refl

candidate-IsAdmitted :
    (h : History) → drop h ≡ [] → IsAdmitted world candidate h passed_upstream passed_checks
candidate-IsAdmitted h e = record {
  ready = refl;
  upstream_ok = rw e upstream_passes;
  upstream_satisfied = refl;
  checks_ok = checks_pass;
  checks_passed = refl;
  approvals = [];
  approvals_ok = refl;
  not_blocked = not_blocked;
  evidence_ok = refl;
}

abbrev blank : ServingStatus
blank = record {
  history = [];
  target_preparation_name = "";
  upstream_deployed = none;
  checks_passed = none;
  approved = none;
  verified = none;
  ready = none;
  clusters = none;
  targets = [];
  deployed_vulnerabilities = none;
}

abbrev opened : History
opened = open_entry (entry_of candidate) (2_000 * second) []

opens_next : next "shop-prod-1" (history_of []) ≡ step_open
unfolding next deployed history_of
opens_next = refl

recorded_named : recorded ≢ ""
unfolding ◌=?◌
recorded_named = =?_ne recorded "" refl

blank-IsWell : IsWell (history_of blank.history)
unfolding history_of
blank-IsWell = empty-IsWell

-- `historyOf` of the empty status.
abbrev nothing : History
nothing = history_of blank.history

drop-nothing : drop nothing ≡ []
unfolding drop pending history_of
drop-nothing = refl

drop-opened_on_nothing : drop (open_entry (entry_of candidate) world.open_time nothing) ≡ []
unfolding open_entry prepend drop pending entry_of history_of ◌=?◌
drop-opened_on_nothing = refl

promote-twice_example :
    (next "shop-prod-1" (history_of (promote world candidate blank).status.history) ≡ step_record)
    × (deployed (
          history_of
            (promote world candidate (promote world candidate blank).status).status.history)
        ≡ some (started (entry_of candidate) (truncate_second (2_000 * second)) recorded))
promote-twice_example =
    promote-twice world world candidate blank recorded blank-IsWell opens_next
      (candidate-IsAdmitted nothing drop-nothing)
      (candidate-IsAdmitted (open_entry (entry_of candidate) world.open_time nothing)
        drop-opened_on_nothing)
      refl recorded_named

promote-Advance_example :
    Advance world candidate nothing (history_of (promote world candidate blank).status.history)
promote-Advance_example = promote-Advance world candidate blank

history_of-set_history_example :
    history_of (set_history (dev_entry ∷ opened) blank).history ≡ dev_entry ∷ opened
history_of-set_history_example = history_of-set_history (dev_entry ∷ opened) blank

abbrev engine : Deploying
engine = record {
  observe_time = 2_000 * second;
  preparation_named = λ name. fetched candidate;
  environment = fetched "production";
  clusters = ok (
      record { name = "eu"; in_cluster = false; server = "https://eu"; ready = some ready_true }
      ∷ []);
  selected = λ l. ok l;
  admission = ok "";
  bundled_host = "";
  in_cluster_server = "https://kubernetes.default.svc";
  trim_suffix = λ s suffix. s;
  is_bundled_pull = λ host image. false;
  apply = λ e t. ok (record { health = Health.healthy; revision = e.digest; held = "" });
  remove = λ keep. none;
  signing_error = none;
  push_deployment = λ e targets. ok "deployment-2";
}

abbrev choosing : Choosing
choosing = record {
  order = fetched true;
  preparation_name = "";
  preparation_named = λ name. missing;
  preparations = ok (record { preparation = candidate; created = 1_900 * second } ∷ []);
}

-- The status behind the first pass.
abbrev pending_status : ServingStatus
pending_status = set_history opened blank

pending-IsWell : IsWell (history_of pending_status.history)
pending-IsWell =
    rw (history_of-set_history opened blank)
      (open_entry-IsWell (entry_of candidate) (2_000 * second) [] (omega arith) empty-IsWell)

never_empty :
    (h : History) (u : Upstreamed) (c : ChecksVerdict) → world.record_promotion h u c ≢ ok ""
never_empty h u c e = recorded_named (ground (arith, e))

reconcile_serving-Deploys_example :
    (identity (history_of (reconcile_serving world engine choosing pending_status).status.history)
      ≡ identity (history_of pending_status.history))
    ⊎ Deploys world
        (target_preparation choosing)
        (history_of pending_status.history)
        (history_of (reconcile_serving world engine choosing pending_status).status.history)
reconcile_serving-Deploys_example =
    reconcile_serving-Deploys world engine choosing pending_status (omega arith) (omega arith)
      never_empty pending-IsWell

reconcile_serving-IsRun_example :
    IsRun
      (history_of pending_status.history)
      (history_of (reconcile_serving world engine choosing pending_status).status.history)
reconcile_serving-IsRun_example =
    reconcile_serving-IsRun world engine choosing pending_status (omega arith) (omega arith)
      never_empty

reconcile_serving-IsWell_example :
    IsWell (history_of (reconcile_serving world engine choosing pending_status).status.history)
reconcile_serving-IsWell_example =
    reconcile_serving-IsWell world engine choosing pending_status (omega arith) (omega arith)
      never_empty pending-IsWell

stages-IsInt32 : All (λ s. IsInt32 s.soak_seconds) candidate.stages
stages-IsInt32 = ((omega arith, omega arith), tt)

never_promoted : promoted_before "shop-prod-1" [] ≡ none
unfolding promoted_before
never_promoted = refl

upstream-IsCleared_example : IsCleared world candidate [] passed_upstream
upstream-IsCleared_example =
    upstream-IsCleared world candidate [] passed_upstream stages-IsInt32 never_promoted
      upstream_passes refl
