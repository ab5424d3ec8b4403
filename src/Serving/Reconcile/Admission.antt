-- ===== src/Serving/Reconcile/Admission.antt =====
-- What a pass over a Serving deploys (internal/controller/serving_controller.go, reconcileServing).
use kokumi.Prelude.Result.{ok}
use kokumi.Clock.{second}
use kokumi.Promotion.History.{History, next, step_record}
use kokumi.Promotion.History.Identity.{identity, identity-run, identity-start}
use kokumi.Promotion.History.Invariant.{IsWell, start-IsWell}
use kokumi.Serving.Deploy.Moves.{Reached}
use kokumi.Serving.Engine.{Deploying}
use kokumi.Serving.Inputs.{Inputs, Upstreamed, ChecksVerdict}
use kokumi.Serving.Preparation.{Preparation}
use kokumi.Serving.Promote.Admitted.{IsAdmitted}
use kokumi.Serving.Reconcile.{Choosing, Choice, converges_to, target_preparation, reconcile_serving}
use kokumi.Serving.Reconcile.Pass.{Pass, quietly, promoting, reconcile_serving-Pass}
use kokumi.Serving.Status.{ServingStatus, history_of}
use kokumi.Prelude.{◌≤◌, String, ◌≡◌, sym, ap, ◌∙◌, ◌≢◌, ◌⊎◌, inl, inr, some}

-- The Preparation that the Serving converges to is admitted, its promotion is recorded, and it is
-- what the history `k` has deployed.
pub record Deploys (w : Inputs) (choice : Choice) (h k : History) : Type 0 where
  pub candidate : Preparation
  pub upstreamed : Upstreamed
  pub checked : ChecksVerdict
  pub digest : String
  pub chosen : choice ≡ converges_to candidate
  pub admitted : IsAdmitted w candidate h upstreamed checked
  pub pending : next candidate.name h ≡ step_record
  pub recorded : w.record_promotion h upstreamed checked ≡ ok digest
  pub deployed : identity k ≡ some (candidate.name, digest)

identity-Reached : {h k : History} → IsWell h → Reached h k → identity k ≡ identity h
identity-Reached {h} w a = ap identity (sym a.reached) ∙ identity-run a.moves h a.quiet w

Pass-Deploys :
    {w : Inputs} {c : Choice} {h k : History}
    → ((h : History) (u : Upstreamed) (v : ChecksVerdict) → w.record_promotion h u v ≢ ok "")
    → IsWell h
    → Pass w c h k
    → (identity k ≡ identity h) ⊎ Deploys w c h k
Pass-Deploys n well (quietly a) = inl (identity-Reached well a)
Pass-Deploys {h} n well (promoting p {u} {c = v} e m f r g a) =
    let full : r ≢ "" = λ x. n h u v (g ∙ ap ok x) in
    inr (record {
      candidate = p;
      upstreamed = u;
      checked = v;
      digest = r;
      chosen = e;
      admitted = m;
      pending = f;
      recorded = g;
      deployed = identity-Reached (start-IsWell r h full well) a ∙ identity-start p.name r h full f;
    })

-- On a well-formed history, with the clock at least a second past the zero time and a registry that
-- never returns an empty digest for a promotion record: a pass over a Serving leaves deployed the
-- promotion that was deployed before it, the same Preparation under the same promotion record; or it
-- deploys the Preparation that the Serving converges to, and then that Preparation is Ready, its
-- upstream gate is satisfied, its checks pass, its approval gate does not block, its evidence
-- verifies, it was pending in the history, and the registry returned the record of its promotion.
pub reconcile_serving-Deploys :
    (w : Inputs) (d : Deploying) (c : Choosing) (s : ServingStatus)
    → second ≤ w.open_time
    → second ≤ d.observe_time
    → ((h : History) (u : Upstreamed) (v : ChecksVerdict) → w.record_promotion h u v ≢ ok "")
    → IsWell (history_of s.history)
    → (identity (history_of (reconcile_serving w d c s).status.history)
        ≡ identity (history_of s.history))
      ⊎ Deploys w
          (target_preparation c)
          (history_of s.history)
          (history_of (reconcile_serving w d c s).status.history)
reconcile_serving-Deploys w d c s t t' n well =
    Pass-Deploys n well (reconcile_serving-Pass w d c s t t')
