-- ===== src/ControlPlane/Accounts.antt =====
-- control_plane/service.py: `execute` as a whole, admitted or not.
use nimbus_mesh_x.Base.{
  ◌+◌, ◌≡◌, refl, sym, ap, subst, ◌∙◌, arith, of_Bool, String, ◌==◌, string_eq, true, false,
  true_ne_false, ◌&&◌, Bool-cases, inl, inr, ◌⊎◌, if_true, if_false, List, Elem, ok, ok-injective,
  or_raise, key_error, >>=-eq-ok, none,
}
use nimbus_mesh_x.Base.Dict.{Dict, get_or-insert}
use nimbus_mesh_x.Float.{Float}
use nimbus_mesh_x.Types.{
  InferenceRequest, PoolRuntime, ClusterRuntime, CandidatePlacement, RoutingDecision, RequestResult,
  TenantStats, no_stats,
}
use nimbus_mesh_x.Backends.{Backend, find_backend}
use nimbus_mesh_x.Scheduler.{Placed, place_request}
use nimbus_mesh_x.Scheduler.Returning.{place_request_admitted}
use nimbus_mesh_x.Policies.{Policy, choose}
use nimbus_mesh_x.Policies.Members.{choose_available}
use nimbus_mesh_x.ControlPlane.{
  ControlPlane, stats_of, total_completed, is_none, build_candidates, Routers, grpc_choose,
  cpp_choose, choose_candidate, route, admit, find_pool, completed_stats, settle, rejected_result,
  execute,
}
use nimbus_mesh_x.ControlPlane.Executed.{total_completed-insert, route-eq-ok, route_keeps}

module _ {F : Type 0} ⦃f : Float F⦄ where
  -- How `execute` ends: with a placement that is settled, or with a rejection that changes nothing.
  abbrev Ends :
      InferenceRequest F
      → CandidatePlacement F
      → ControlPlane F
      → RequestResult F
      → ControlPlane F
      → Type 0
  Ends request c mid result after =
      (c.available ≡ true)
        × (result.admitted ≡ true)
        × (result.rejection_reason ≡ none)
        × ((cluster : ClusterRuntime F) × (placed : Placed F) × (settle request c cluster placed mid
              ≡ after))
      ⊎ (c.available ≡ false)
        × (result.admitted ≡ false)
        × (result.rejection_reason ≡ c.rejection_reason)
        × (mid ≡ after)

  admit-Ends :
      (request : InferenceRequest F) (c : CandidatePlacement F) (d : RoutingDecision F)
      (found : ClusterRuntime F × PoolRuntime F) (backend : Backend) (now : F)
      (mid after : ControlPlane F) (result : RequestResult F)
      → admit request c d found backend now mid ≡ ok (result, after)
      → Ends request c mid result after
  unfolding admit
  admit-Ends request c d (cluster, pool) backend now mid after result h =
      elim (Bool-cases c.available) [
        | inl up ↦
            let (placed, put, e) =
              >>=-eq-ok (place_request request c d pool backend now mid.directory) _
                (sym (if_true c.available _ _ up) ∙ h) in
            let (admitted, reason) =
              place_request_admitted request c d pool backend now mid.directory placed put in
            let same : placed.result ≡ result = cc in
            inl (
              up,
              ap (λ r. r.admitted) (sym same) ∙ admitted,
              ap (λ r. r.rejection_reason) (sym same) ∙ reason,
              (cluster, placed, cc),
            )
        | inr down ↦
            let e = ok-injective _ _ (sym (if_false c.available _ _ down) ∙ h) in
            let same : rejected_result request c d now ≡ result = ap (λ p. p.0) e in
            inr (
              down,
              subst (λ r. r.admitted ≡ false) same (unfold rejected_result in refl),
              subst (λ r. r.rejection_reason ≡ c.rejection_reason) same
                  (unfold rejected_result in refl),
              ap (λ p. p.1) e,
            )
      ]

  execute-Ends :
      (routers : Routers F) (request : InferenceRequest F) (now : F) (cp after : ControlPlane F)
      (result : RequestResult F)
      → execute routers request now cp ≡ ok (result, after)
      → (c : CandidatePlacement F) × (d : RoutingDecision F) × (mid : ControlPlane F) × (route
            routers request now cp
          ≡ ok ((c, d), mid))
        × Ends request c mid result after
  unfolding execute
  execute-Ends routers request now cp after result h =
      let (routed, r, h1) = >>=-eq-ok _ _ h in
      let (found, _, h2) =
        >>=-eq-ok (find_pool routed.0.0.cluster_id routed.0.0.pool_id routed.1.clusters) _ h1 in
      let (backend, _, h3) =
        >>=-eq-ok (or_raise (find_backend routed.0.0.backend_name) key_error) _ h2 in
      (
        routed.0.0,
        routed.0.1,
        routed.1,
        r,
        admit-Ends request routed.0.0 routed.0.1 found backend now routed.1 after result h3,
      )

  -- A request that is executed and not admitted leaves every cluster as it was, and its result has
  -- a reason of rejection.
  pub execute_rejected :
      (routers : Routers F) (request : InferenceRequest F) (now : F) (cp after : ControlPlane F)
      (result : RequestResult F)
      → execute routers request now cp ≡ ok (result, after)
      → result.admitted ≡ false
      → (after.clusters ≡ cp.clusters) × (is_none result.rejection_reason ≡ false)
  execute_rejected routers request now cp after result h refused =
      let (c, d, mid, routed, ends) = execute-Ends routers request now cp after result h in
      let (_, clusters, reason) = route_keeps routers request now cp mid c d routed in
      elim ends [
        | inl (_, admitted, _, _) ↦ absurd (true_ne_false (sym admitted ∙ refused))
        | inr (down, _, r, same) ↦
            (ap (λ s. s.clusters) (sym same) ∙ clusters, ap is_none r ∙ sym reason ∙ down)
      ]

  settle-stats :
      (request : InferenceRequest F) (c : CandidatePlacement F) (cluster : ClusterRuntime F)
      (placed : Placed F) (mid : ControlPlane F) (t : String)
      → let after = settle request c cluster placed mid in
        ((stats_of t after.tenant_stats).submitted ≡ (stats_of t mid.tenant_stats).submitted)
        × ((stats_of t after.tenant_stats).completed
            ≡ (stats_of t mid.tenant_stats).completed + of_Bool (t == request.tenant_id))
        × (total_completed after.tenant_stats ≡ total_completed mid.tenant_stats + 1)
  unfolding settle
  settle-stats request c cluster placed mid t =
      let new = completed_stats placed.result (stats_of request.tenant_id mid.tenant_stats) in
      ground (
        arith,
        get_or-insert t request.tenant_id new no_stats mid.tenant_stats,
        string_eq.beq_iff t request.tenant_id,
        total_completed-insert request.tenant_id new mid.tenant_stats,
      )

  -- Reading the statistics after the routing is reading them before.
  abbrev Accounts :
      InferenceRequest F
      → String
      → RequestResult F
      → Dict String (TenantStats F)
      → Dict String (TenantStats F)
      → Type 0
  Accounts request t result before after =
      ((stats_of t after).submitted ≡ (stats_of t before).submitted)
      × ((stats_of t after).completed
          ≡ (stats_of t before).completed + of_Bool (result.admitted && t == request.tenant_id))
      × (total_completed after ≡ total_completed before + of_Bool result.admitted)

  -- An execution that does not raise counts one completion more, for the request's tenant and in
  -- total, if its result is admitted, and none if it is not; no tenant's submissions are touched.
  pub execute_accounts :
      (routers : Routers F) (request : InferenceRequest F) (now : F) (cp after : ControlPlane F)
      (result : RequestResult F) (t : String)
      → execute routers request now cp ≡ ok (result, after)
      → ((stats_of t after.tenant_stats).submitted ≡ (stats_of t cp.tenant_stats).submitted)
        × ((stats_of t after.tenant_stats).completed
            ≡ (stats_of t cp.tenant_stats).completed
              + of_Bool (result.admitted && t == request.tenant_id))
        × (total_completed after.tenant_stats
            ≡ total_completed cp.tenant_stats + of_Bool result.admitted)
  execute_accounts routers request now cp after result t h =
      let (c, d, mid, routed, ends) = execute-Ends routers request now cp after result h in
      let (stats, _, _) = route_keeps routers request now cp mid c d routed in
      let old : stats_of t mid.tenant_stats ≡ stats_of t cp.tenant_stats = stats.0 t in
      let submitted = ap (λ x. x.submitted) old in
      let completed = ap (λ x. x.completed) old in
      let total = stats.1 in
      elim ends [
        | inl (_, admitted, _, (cluster, placed, same)) ↦
            subst (λ s. Accounts request t result cp.tenant_stats s.tenant_stats) same
              (ground (
                arith,
                settle-stats request c cluster placed mid t,
                submitted,
                completed,
                total,
                admitted,
              ))
        | inr (_, refused, _, same) ↦
            subst (λ s. Accounts request t result cp.tenant_stats s.tenant_stats) same
              (ground (arith, submitted, completed, total, refused))
      ]

  module _ (request : InferenceRequest F) (now : F) (cp built : ControlPlane F)
      (cs : List (CandidatePlacement F)) (up : CandidatePlacement F) where
    alone : Routers F
    alone = record { grpc_client = none; cpp_core = none }

    choose_candidate-alone :
        (policy : Policy F) → choose_candidate alone policy request cs ≡ choose policy request cs
    unfolding choose_candidate grpc_choose cpp_choose alone
    choose_candidate-alone policy = refl

    -- With no scheduler outside, a request for which build_candidates makes some available
    -- candidate is admitted by every execution that does not raise, whatever the policy is.
    pub execute_admits :
        (after : ControlPlane F) (result : RequestResult F)
        → build_candidates request now cp ≡ ok (cs, built)
        → Elem up cs
        → up.available ≡ true
        → execute (record { grpc_client = none; cpp_core = none }) request now cp
          ≡ ok (result, after)
        → result.admitted ≡ true
    unfolding alone
    execute_admits after result made m available h =
        let (c, d, mid, routed, ends) = execute-Ends alone request now cp after result h in
        let (cs', built', policy, made', picked, _) =
          route-eq-ok alone request now cp mid c d routed in
        let same = ok-injective _ _ (sym made' ∙ made) in
        let listed : cs' ≡ cs = ap (λ p. p.0) same in
        let chosen : choose built'.policy request cs ≡ ok (c, policy) =
          sym (choose_candidate-alone built'.policy)
          ∙ ap (choose_candidate alone built'.policy request) (sym listed)
          ∙ picked in
        elim ends [
          | inl (_, admitted, _, _) ↦ admitted
          | inr (down, _, _, _) ↦ absurd (
              true_ne_false (
                sym (choose_available built'.policy policy request cs c up m available chosen)
                ∙ down))
        ]
