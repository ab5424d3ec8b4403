-- ===== src/Serving/Targets/Apart.antt =====
-- One cluster is one target (internal/controller/serving_controller.go, targetOf).
use kokumi.Serving.Targets.{
  Target, Cluster, has_status_true, is_taken, server_key, server_of, hold_of, target_with,
  target_of, targets_of, cluster_not_ready, cluster_conflict, registry_unreachable,
}
use kokumi.Prelude.{
  String, ◌≡◌, refl, ◌≢◌, Bool, true, false, not, ◌&&◌, ◌||◌, List, [], ◌∷◌, arith, ◌=?◌, =?_iff,
  if◌then◌else◌, All, =?_ne,
}

not_ready_named : cluster_not_ready ≢ ""
unfolding ◌=?◌
not_ready_named = =?_ne cluster_not_ready "" refl

conflict_named : cluster_conflict ≢ ""
unfolding ◌=?◌
conflict_named = =?_ne cluster_conflict "" refl

module _ (in_cluster_server : String) (trim_suffix : String → String → String) where
  abbrev key : String → String
  key = server_key in_cluster_server trim_suffix

  -- A target to which something is deployed.
  abbrev pub IsFree : Target → Type 0
  IsFree t = t.hold_reason ≡ ""

  -- No two of the targets that are deployed to have a server in common, nor one with the servers.
  abbrev Avoids : List (String × String) → Target → Type 0
  Avoids taken t = IsFree t → is_taken (key t.server) taken ≡ false

  abbrev pub Apart : List Target → Type 0
  Apart [] = Unit
  Apart (t ∷ ts) = (IsFree t → All (λ x. IsFree x → key x.server ≢ key t.server) ts) × Apart ts

  abbrev made : Cluster → String → String → List (String × String) → Target
  made c namespace bundled taken =
      target_with in_cluster_server trim_suffix c namespace
        (hold_of in_cluster_server trim_suffix c bundled taken)

  hold_of-free :
      (c : Cluster) (bundled : String) (taken : List (String × String))
      → hold_of in_cluster_server trim_suffix c bundled taken ≡ ""
      → (has_status_true c.ready ≡ true)
        × (is_taken (key (server_of in_cluster_server trim_suffix c)) taken ≡ false)
  unfolding hold_of
  hold_of-free c bundled taken e =
      by_tests (has_status_true c.ready)
        (is_taken (key (server_of in_cluster_server trim_suffix c)) taken) refl refl e
    where
      by_tests :
          (ready is_used : Bool)
          → has_status_true c.ready ≡ ready
          → is_taken (key (server_of in_cluster_server trim_suffix c)) taken ≡ is_used
          → (if not ready
              then cluster_not_ready
              else if is_used
              then cluster_conflict
              else if not c.in_cluster && not (bundled =? "")
              then registry_unreachable
              else "")
            ≡ ""
          → (has_status_true c.ready ≡ true)
            × (is_taken (key (server_of in_cluster_server trim_suffix c)) taken ≡ false)
      by_tests false is_used r u f = absurd (not_ready_named f)
      by_tests true true r u f = absurd (conflict_named f)
      by_tests true false r u f = (r, u)

  Avoids-cons :
      (k name : String) (taken : List (String × String)) (ts : List Target)
      → All (Avoids ((k, name) ∷ taken)) ts
      → All (Avoids taken) ts × All (λ x. IsFree x → key x.server ≢ k) ts
  unfolding is_taken
  Avoids-cons k name taken [] a = (tt, tt)
  Avoids-cons k name taken (t ∷ ts) a =
      let rest = Avoids-cons k name taken ts a.1 in
      (
        (λ d. ground (arith, a.0 d), rest.0),
        (λ d e. ground (arith, a.0 d, =?_iff k (key t.server), e), rest.1),
      )

  -- What holds of the targets, with the servers that were taken before them.
  abbrev Fits : List (String × String) → List Target → Type 0
  Fits taken ts = All (Avoids taken) ts × Apart ts

  abbrev after : List Cluster → String → String → Target × List (String × String) → List Target
  after cs namespace bundled r =
      r.0 ∷ targets_of in_cluster_server trim_suffix cs namespace bundled r.1

  targets_of-Fits :
      (cs : List Cluster) (namespace bundled : String) (taken : List (String × String))
      → Fits taken (targets_of in_cluster_server trim_suffix cs namespace bundled taken)
  unfolding targets_of target_of
  targets_of-Fits [] namespace bundled taken = (tt, tt)
  targets_of-Fits (c ∷ cs) namespace bundled taken =
      by_test
        (not (has_status_true c.ready)
          || is_taken (key (server_of in_cluster_server trim_suffix c)) taken)
        refl (λ l. targets_of-Fits cs namespace bundled l)
    where
      by_test :
          (skips : Bool)
          → (not (has_status_true c.ready)
              || is_taken (key (server_of in_cluster_server trim_suffix c)) taken)
            ≡ skips
          → ((l : List (String × String))
              → Fits l (targets_of in_cluster_server trim_suffix cs namespace bundled l))
          → Fits taken (
              after cs namespace bundled (
                if skips then (made c namespace bundled taken, taken) else (
                  made c namespace bundled taken,
                  (key (server_of in_cluster_server trim_suffix c), c.name) ∷ taken,
                )))
      by_test true e rest =
          ((λ d. absurd (held d), (rest taken).0), (λ d. absurd (held d), (rest taken).1))
        where
          held : IsFree (made c namespace bundled taken) → ⊥
          held d = ground (arith, e, hold_of-free c bundled taken d)
      by_test false e rest =
          let k : String = key (server_of in_cluster_server trim_suffix c) in
          let later =
            Avoids-cons k c.name taken
              (targets_of in_cluster_server trim_suffix cs namespace bundled ((k, c.name) ∷ taken))
              (rest ((k, c.name) ∷ taken)).0 in
          ((λ d. ground (arith, e), later.0), ((λ d. later.1), (rest ((k, c.name) ∷ taken)).1))

  -- Of the targets of a Serving, no two that nothing holds have API servers with the same key: each
  -- cluster is deployed to once, however many Clusters name it.
  pub targets_of-Apart :
      (cs : List Cluster) (namespace bundled : String)
      → Apart (targets_of in_cluster_server trim_suffix cs namespace bundled [])
  targets_of-Apart cs namespace bundled = (targets_of-Fits cs namespace bundled []).1
