-- ===== src/ControlPlane/Routed.antt =====
-- control_plane/service.py: the list that `build_candidates` returns, what it leaves of the statistics,
-- and the candidate that is taken from it.
use nimbus_mesh_x.Base.{
  ℕ, ◌<◌, ◌≡◌, ◌≢◌, refl, sym, ap, subst, ◌∙◌, arith, String, string_eq, inl, inr, List, [], ◌∷◌,
  ◌++◌, map, length, get_elem?, All, Elem, ok, ◌>>=◌, >>=-eq-ok, or_raise, or_raise-eq-ok,
  index_error, Option-cases, some,
}
use nimbus_mesh_x.Base.Dict.{Dict}
use nimbus_mesh_x.Float.{Float}
use nimbus_mesh_x.Types.{
  InferenceRequest, PoolRuntime, ClusterRuntime, CandidatePlacement, queue_full,
}
use nimbus_mesh_x.Policies.{PoolKey, pool_key, Policy}
use nimbus_mesh_x.Policies.Members.{choose-Elem, get_elem?-Elem}
use nimbus_mesh_x.ControlPlane.{
  ControlPlane, Scratch, is_none, pool_candidates, cluster_candidates, enrich, build_candidates,
  Routers, grpc_choose, cpp_choose, choose_candidate,
}
use nimbus_mesh_x.ControlPlane.Rejecting.{
  build_candidate-eq-ok, cluster_candidates-All, rejection-queue_full,
}

module _ {F : Type 0} ⦃f : Float F⦄ where
  pub All-enrich :
      (P : CandidatePlacement F → Type 0) (cs : List (CandidatePlacement F))
      → All (λ c. P (enrich c)) cs
      → All P (map enrich cs)
  All-enrich P [] h = tt
  All-enrich P (c ∷ cs) h = (h.0, All-enrich P cs h.1)

  pub build_candidates-eq-ok :
      (request : InferenceRequest F) (now : F) (cp after : ControlPlane F)
      (cs : List (CandidatePlacement F))
      → build_candidates request now cp ≡ ok (cs, after)
      → (raw : List (CandidatePlacement F)) × (scratch : Scratch F) × (cluster_candidates cp request
            now cp.clusters
            (record { directory = cp.directory; tenant_stats = cp.tenant_stats })
          ≡ ok (raw, scratch))
        × (map enrich raw ≡ cs)
        × (record cp { directory = scratch.directory; tenant_stats = scratch.tenant_stats } ≡ after)
  unfolding build_candidates
  build_candidates-eq-ok request now cp after cs h =
      let (built, made, e) = >>=-eq-ok _ _ h in (built.0, built.1, made, cc, cc)

  -- A candidate is available just if it has no reason of rejection.
  pub build_candidates_reasons :
      (request : InferenceRequest F) (now : F) (cp after : ControlPlane F)
      (cs : List (CandidatePlacement F))
      → build_candidates request now cp ≡ ok (cs, after)
      → All (λ c. c.available ≡ is_none c.rejection_reason) cs
  unfolding enrich
  build_candidates_reasons request now cp after cs h =
      let (raw, scratch, made, e, _) = build_candidates-eq-ok request now cp after cs h in
      subst (All (λ c. c.available ≡ is_none c.rejection_reason)) e (
        All-enrich _ raw (
          cluster_candidates-All cp request now (λ p. Unit {0}) _
            (λ cluster pool before left c _ one.
              let (_, _, _, _, _, _, a, r) =
                build_candidate-eq-ok cp request now cluster pool before left c one in
              a ∙ ap is_none (sym r))
            cp.clusters _ scratch raw (everywhere cp.clusters) made))
    where
      everywhere_pool : (pools : Dict String (PoolRuntime F)) → All (λ p. Unit {0}) pools
      everywhere_pool [] = tt
      everywhere_pool (p ∷ ps) = (tt, everywhere_pool ps)

      everywhere :
          (clusters : Dict String (ClusterRuntime F))
          → All (λ q. All (λ p. Unit {0}) q.1.pools) clusters
      everywhere [] = tt
      everywhere (q ∷ qs) = (everywhere_pool q.1.pools, everywhere qs)

  -- If every pool has fewer slots than its queue limit, then no candidate that build_candidates
  -- returns is rejected for the queue limit.
  pub queue_limit_never :
      (request : InferenceRequest F) (now : F) (cp after : ControlPlane F)
      (cs : List (CandidatePlacement F))
      → All (λ q. All (λ p. length p.1.slot_available_at < p.1.queue_limit) q.1.pools) cp.clusters
      → build_candidates request now cp ≡ ok (cs, after)
      → All (λ c. c.rejection_reason ≢ some queue_full) cs
  unfolding enrich
  queue_limit_never request now cp after cs roomy h =
      let (raw, scratch, made, e, _) = build_candidates-eq-ok request now cp after cs h in
      subst (All (λ c. c.rejection_reason ≢ some queue_full)) e (
        All-enrich _ raw (
          cluster_candidates-All cp request now (λ p. length p.slot_available_at < p.queue_limit) _
            (λ cluster pool before left c small one full.
              let (scored, _, _, _, _, _, _, r) =
                build_candidate-eq-ok cp request now cluster pool before left c one in
              rejection-queue_full request now cluster pool scored.0.1 small (sym r ∙ full))
            cp.clusters _ scratch raw roomy made))

  -- The pools in the order of the dictionaries.
  abbrev pub pool_ids : ClusterRuntime F → Dict String (PoolRuntime F) → List PoolKey
  pool_ids cluster [] = []
  pool_ids cluster (p ∷ pools) = (cluster.cluster_id, p.1.pool_id) ∷ pool_ids cluster pools

  abbrev pub all_pool_ids : Dict String (ClusterRuntime F) → List PoolKey
  all_pool_ids [] = []
  all_pool_ids (q ∷ clusters) = pool_ids q.1 q.1.pools ++ all_pool_ids clusters

  map-append :
      (xs ys : List (CandidatePlacement F))
      → map pool_key (xs ++ ys) ≡ map pool_key xs ++ map pool_key ys
  map-append [] ys = refl
  map-append (x ∷ xs) ys = ap (λ zs. pool_key x ∷ zs) (map-append xs ys)

  pool_candidates-ids :
      (cp : ControlPlane F) (request : InferenceRequest F) (now : F) (cluster : ClusterRuntime F)
      (pools : Dict String (PoolRuntime F)) (scratch after : Scratch F)
      (cs : List (CandidatePlacement F))
      → pool_candidates cp request now cluster pools scratch ≡ ok (cs, after)
      → map pool_key cs ≡ pool_ids cluster pools
  unfolding pool_candidates
  pool_candidates-ids cp request now cluster [] scratch after cs h =
      let none_made : [] ≡ cs = cc in ap (map pool_key) (sym none_made)
  pool_candidates-ids cp request now cluster ((pool_id, pool) ∷ pools) scratch after cs h =
      let (first, made, h1) = >>=-eq-ok _ _ h in
      let (others, rest, h2) = >>=-eq-ok _ _ h1 in
      let joined : first.0 ∷ others.0 ≡ cs = cc in
      let (_, _, _, c, p, _, _, _) =
        build_candidate-eq-ok cp request now cluster pool scratch first.1 first.0 made in
      let later = pool_candidates-ids cp request now cluster pools first.1 others.1 others.0 rest in
      ap (map pool_key) (sym joined) ∙ ground (arith, later)

  cluster_candidates-ids :
      (cp : ControlPlane F) (request : InferenceRequest F) (now : F)
      (clusters : Dict String (ClusterRuntime F)) (scratch after : Scratch F)
      (cs : List (CandidatePlacement F))
      → cluster_candidates cp request now clusters scratch ≡ ok (cs, after)
      → map pool_key cs ≡ all_pool_ids clusters
  unfolding cluster_candidates
  cluster_candidates-ids cp request now [] scratch after cs h =
      let none_made : [] ≡ cs = cc in ap (map pool_key) (sym none_made)
  cluster_candidates-ids cp request now ((cluster_id, cluster) ∷ clusters) scratch after cs h =
      let (first, made, h1) = >>=-eq-ok _ _ h in
      let (others, rest, h2) = >>=-eq-ok _ _ h1 in
      let joined : first.0 ++ others.0 ≡ cs = cc in
      let here =
        pool_candidates-ids cp request now cluster cluster.pools scratch first.1 first.0 made in
      let later = cluster_candidates-ids cp request now clusters first.1 others.1 others.0 rest in
      ap (map pool_key) (sym joined)
      ∙ map-append first.0 others.0
      ∙ ap (λ xs. xs ++ map pool_key others.0) here
      ∙ ap (λ ys. pool_ids cluster cluster.pools ++ ys) later

  map-enrich : (cs : List (CandidatePlacement F)) → map pool_key (map enrich cs) ≡ map pool_key cs
  unfolding enrich
  map-enrich [] = refl
  map-enrich (c ∷ cs) = ap (λ zs. pool_key c ∷ zs) (map-enrich cs)

  -- `build_candidates` makes one candidate for each pool of each cluster, in the order of the
  -- clusters, if it does not raise.
  pub build_candidates-ids :
      (request : InferenceRequest F) (now : F) (cp after : ControlPlane F)
      (cs : List (CandidatePlacement F))
      → build_candidates request now cp ≡ ok (cs, after)
      → map pool_key cs ≡ all_pool_ids cp.clusters
  build_candidates-ids request now cp after cs h =
      let (raw, scratch, made, e, _) = build_candidates-eq-ok request now cp after cs h in
      ap (map pool_key) (sym e)
      ∙ map-enrich raw
      ∙ cluster_candidates-ids cp request now cp.clusters _ scratch raw made

  at_index :
      (policy : Policy F) (cs : List (CandidatePlacement F)) (i : ℕ) (choice : CandidatePlacement F)
      (after : Policy F)
      → ◌>>=◌ {W = CandidatePlacement F × Policy F}
          (or_raise (get_elem? cs i) index_error)
          (λ c. ok (c, policy))
        ≡ ok (choice, after)
      → Elem choice cs
  at_index policy cs i choice after h =
      let (c, found, e) = >>=-eq-ok (or_raise (get_elem? cs i) index_error) _ h in
      get_elem?-Elem cs i choice (or_raise-eq-ok _ _ found ∙ cc)

  -- Whatever the schedulers outside answer, the choice is one of the candidates.
  pub choose_candidate-Elem :
      (routers : Routers F) (policy after : Policy F) (request : InferenceRequest F)
      (cs : List (CandidatePlacement F)) (choice : CandidatePlacement F)
      → choose_candidate routers policy request cs ≡ ok (choice, after)
      → Elem choice cs
  unfolding choose_candidate
  choose_candidate-Elem routers policy after request cs choice h =
      let (grpc_index, _, h1) = >>=-eq-ok (grpc_choose routers request cs) _ h in
      elim (Option-cases grpc_index) [
        | inr (i, e) ↦ at_index policy cs i choice after (rw e at h1)
        | inl e ↦
            let (cpp_index, _, h2) = >>=-eq-ok (cpp_choose routers request cs) _ (rw e at h1) in
            elim (Option-cases cpp_index) [
              | inr (i, d) ↦ at_index policy cs i choice after (rw d at h2)
              | inl d ↦ choose-Elem policy after request cs choice (rw d at h2)
            ]
      ]
