-- ===== src/ControlPlane/Executed.antt =====
-- control_plane/service.py: what `execute` does to the clusters, to the statistics and to the policy.
use nimbus_mesh_x.Base.{
  ◌+◌, ◌≡◌, refl, sym, ap, subst, ◌∙◌, arith, String, ◌==◌, string_eq, eq_of_beq, true, false,
  Bool-cases, inl, inr, ◌⊎◌, if_true, if_false, List, [], ◌∷◌, All_of_Elem, ok, >>=-eq-ok, nat_beq,
}
use nimbus_mesh_x.Base.Dict.{Dict, insert, get_or, get_or-cons, get_or-insert}
use nimbus_mesh_x.Float.{Float}
use nimbus_mesh_x.Types.{
  InferenceRequest, PoolRuntime, ClusterRuntime, CandidatePlacement, RoutingDecision, TenantStats,
  no_stats,
}
use nimbus_mesh_x.Policies.{Policy}
use nimbus_mesh_x.ControlPlane.{
  ControlPlane, Scratch, stats_of, total_completed, fairness_penalty, is_none, build_candidate,
  pool_candidates, cluster_candidates, build_candidates, Routers, choose_candidate, route,
}
use nimbus_mesh_x.ControlPlane.Routed.{
  build_candidates-eq-ok, build_candidates_reasons, choose_candidate-Elem,
}

module _ {F : Type 0} ⦃f : Float F⦄ where
  pub total_completed-insert :
      (tenant_id : String) (v : TenantStats F) (stats : Dict String (TenantStats F))
      → total_completed (insert tenant_id v stats) + (stats_of tenant_id stats).completed
        ≡ total_completed stats + v.completed
  unfolding total_completed insert
  total_completed-insert tenant_id v [] = unfold get_or in omega arith
  total_completed-insert tenant_id v ((j, w) ∷ stats) =
      ground
        (arith, total_completed-insert tenant_id v stats, get_or-cons tenant_id j no_stats w stats)

  -- The statistics read the same for every tenant.
  abbrev pub SameStats : Dict String (TenantStats F) → Dict String (TenantStats F) → Type 0
  SameStats before after =
      ((t : String) → stats_of t after ≡ stats_of t before)
      × (total_completed after ≡ total_completed before)

  fairness_penalty-SameStats :
      (tenant_id : String) (cp : ControlPlane F) (stats : Dict String (TenantStats F))
      → SameStats stats (fairness_penalty tenant_id cp stats).1
  unfolding fairness_penalty
  fairness_penalty-SameStats tenant_id cp stats =
      let own = stats_of tenant_id stats in
      elim (Bool-cases (nat_beq (total_completed stats) 0)) [
        | inl empty ↦ rw empty ((λ t. refl), refl)
        | inr some_completed ↦ rw some_completed (
          (λ t. read t (Bool-cases (t == tenant_id))),
          omega (arith, total_completed-insert tenant_id own stats),
        )
      ]
    where
      read :
          (t : String)
          → ((t == tenant_id) ≡ true) ⊎ ((t == tenant_id) ≡ false)
          → stats_of t (insert tenant_id (stats_of tenant_id stats) stats) ≡ stats_of t stats
      read t (inl same) =
          get_or-insert t tenant_id _ no_stats stats
          ∙ if_true _ _ _ same
          ∙ ap (λ u. stats_of u stats) (sym (eq_of_beq t tenant_id same))
      read t (inr other) = get_or-insert t tenant_id _ no_stats stats ∙ if_false _ _ _ other

  SameStats-trans :
      (a b c : Dict String (TenantStats F)) → SameStats a b → SameStats b c → SameStats a c
  SameStats-trans a b c p q = ((λ t. q.0 t ∙ p.0 t), q.1 ∙ p.1)

  module _ (cp : ControlPlane F) (request : InferenceRequest F) (now : F) where
    build_candidate-stats :
        (cluster : ClusterRuntime F) (pool : PoolRuntime F) (scratch after : Scratch F)
        (c : CandidatePlacement F)
        → build_candidate cp request now cluster pool scratch ≡ ok (c, after)
        → after.tenant_stats ≡ (fairness_penalty request.tenant_id cp scratch.tenant_stats).1
    unfolding build_candidate
    build_candidate-stats cluster pool scratch after c h = ground arith

    pool_candidates-SameStats :
        (cluster : ClusterRuntime F) (pools : Dict String (PoolRuntime F))
        (scratch after : Scratch F) (cs : List (CandidatePlacement F))
        → pool_candidates cp request now cluster pools scratch ≡ ok (cs, after)
        → SameStats scratch.tenant_stats after.tenant_stats
    unfolding pool_candidates
    pool_candidates-SameStats cluster [] scratch after cs h =
        let same : scratch ≡ after = cc in
        subst (λ s. SameStats scratch.tenant_stats s.tenant_stats) same ((λ t. refl), refl)
    pool_candidates-SameStats cluster ((pool_id, pool) ∷ pools) scratch after cs h =
        let (first, made, h1) = >>=-eq-ok _ _ h in
        let (others, rest, h2) = >>=-eq-ok _ _ h1 in
        let same : others.1 ≡ after = cc in
        let one = build_candidate-stats cluster pool scratch first.1 first.0 made in
        subst (λ s. SameStats scratch.tenant_stats s.tenant_stats) same
          (SameStats-trans _ first.1.tenant_stats _
            (subst (SameStats scratch.tenant_stats) (sym one)
              (fairness_penalty-SameStats request.tenant_id cp scratch.tenant_stats))
            (pool_candidates-SameStats cluster pools first.1 others.1 others.0 rest))

    cluster_candidates-SameStats :
        (clusters : Dict String (ClusterRuntime F)) (scratch after : Scratch F)
        (cs : List (CandidatePlacement F))
        → cluster_candidates cp request now clusters scratch ≡ ok (cs, after)
        → SameStats scratch.tenant_stats after.tenant_stats
    unfolding cluster_candidates
    cluster_candidates-SameStats [] scratch after cs h =
        let same : scratch ≡ after = cc in
        subst (λ s. SameStats scratch.tenant_stats s.tenant_stats) same ((λ t. refl), refl)
    cluster_candidates-SameStats ((cluster_id, cluster) ∷ clusters) scratch after cs h =
        let (first, made, h1) = >>=-eq-ok _ _ h in
        let (others, rest, h2) = >>=-eq-ok _ _ h1 in
        let same : others.1 ≡ after = cc in
        subst (λ s. SameStats scratch.tenant_stats s.tenant_stats) same
          (SameStats-trans _ first.1.tenant_stats _
            (pool_candidates-SameStats cluster cluster.pools scratch first.1 first.0 made)
            (cluster_candidates-SameStats clusters first.1 others.1 others.0 rest))

  build_candidates-same :
      (request : InferenceRequest F) (now : F) (cp after : ControlPlane F)
      (cs : List (CandidatePlacement F))
      → build_candidates request now cp ≡ ok (cs, after)
      → SameStats cp.tenant_stats after.tenant_stats
        × (after.clusters ≡ cp.clusters)
        × (after.policy ≡ cp.policy)
  build_candidates-same request now cp after cs h =
      let (raw, scratch, made, _, e) = build_candidates-eq-ok request now cp after cs h in
      subst
        (λ s.
          SameStats cp.tenant_stats s.tenant_stats
          × (s.clusters ≡ cp.clusters)
          × (s.policy ≡ cp.policy))
        e (cluster_candidates-SameStats cp request now cp.clusters _ scratch raw made, refl, refl)

  -- What a routing that does not raise consists of.
  pub route-eq-ok :
      (routers : Routers F) (request : InferenceRequest F) (now : F) (cp after : ControlPlane F)
      (choice : CandidatePlacement F) (decision : RoutingDecision F)
      → route routers request now cp ≡ ok ((choice, decision), after)
      → (cs : List (CandidatePlacement F)) × (built : ControlPlane F) × (policy : Policy F)
        × (build_candidates request now cp ≡ ok (cs, built))
        × (choose_candidate routers built.policy request cs ≡ ok (choice, policy))
        × (record built { policy = policy } ≡ after)
  unfolding route
  route-eq-ok routers request now cp after choice decision h =
      let (built, made, h1) = >>=-eq-ok _ _ h in
      let (chosen, picked, e) = >>=-eq-ok _ _ h1 in
      (built.0, built.1, chosen.1, made, picked ∙ cc, cc)

  -- Routing leaves the clusters alone, and every tenant's statistics read as before.
  pub route_keeps :
      (routers : Routers F) (request : InferenceRequest F) (now : F) (cp after : ControlPlane F)
      (choice : CandidatePlacement F) (decision : RoutingDecision F)
      → route routers request now cp ≡ ok ((choice, decision), after)
      → SameStats cp.tenant_stats after.tenant_stats
        × (after.clusters ≡ cp.clusters)
        × (choice.available ≡ is_none choice.rejection_reason)
  route_keeps routers request now cp after choice decision h =
      let (cs, built, policy, made, picked, e) =
        route-eq-ok routers request now cp after choice decision h in
      let (stats, clusters, _) = build_candidates-same request now cp built cs made in
      let reason =
        All_of_Elem (λ c. c.available ≡ is_none c.rejection_reason) choice cs
          (build_candidates_reasons request now cp built cs made)
          (choose_candidate-Elem routers built.policy policy request cs choice picked) in
      subst
        (λ s.
          SameStats cp.tenant_stats s.tenant_stats
          × (s.clusters ≡ cp.clusters)
          × (choice.available ≡ is_none choice.rejection_reason))
        e (stats, clusters, reason)
