-- ===== src/ControlPlane/Served.antt =====
-- control_plane/service.py: `execute` of a control plane that is ready.
use nimbus_mesh_x.Base.{
  ℕ, ◌+◌, ◌≡◌, refl, sym, ap, subst, ◌∙◌, String, string_eq, List, [], ◌∷◌, map, All, All_of_map,
  All_of_Elem, is_nonempty, true, ok, >>=_total, >>=-eq_of_ok, or_raise, key_error, none,
}
use nimbus_mesh_x.Base.Dict.{Dict}
use nimbus_mesh_x.Float.{Float}
use nimbus_mesh_x.Topology.{Topology}
use nimbus_mesh_x.Cache.{Directory}
use nimbus_mesh_x.Types.{
  InferenceRequest, ClusterRuntime, CandidatePlacement, RoutingDecision, RequestResult,
}
use nimbus_mesh_x.Backends.{find_backend}
use nimbus_mesh_x.Cache.Total.{HasRoom}
use nimbus_mesh_x.Policies.{Policy, pool_key, choose}
use nimbus_mesh_x.Policies.Members.{choose_total}
use nimbus_mesh_x.ControlPlane.{
  ControlPlane, build_candidates, Routers, grpc_choose, cpp_choose, choose_candidate, route,
  find_pool, execute,
}
use nimbus_mesh_x.ControlPlane.Routed.{
  build_candidates-eq-ok, build_candidates-ids, choose_candidate-Elem,
}
use nimbus_mesh_x.ControlPlane.Executed.{route-eq-ok, route_keeps}
use nimbus_mesh_x.ControlPlane.Total.{build_candidates_total}
use nimbus_mesh_x.ControlPlane.Kept.{admit_total}
use nimbus_mesh_x.ControlPlane.Ready.{
  IsReady, HasBackend, Found, build_candidates-HasRoom, build_candidates-HasBackend,
  clusters-IsServed, all_pool_ids-Found_of_ready,
}

module _ {F : Type 0} ⦃f : Float F⦄ where
  -- The configuration without a scheduler outside.
  abbrev no_routers : Routers F
  no_routers = record { grpc_client = none; cpp_core = none }

  module _ (request : InferenceRequest F) (now : F) (n : ℕ) (cp : ControlPlane F)
      (ready : IsReady (n + 1) cp.topology cp.clusters cp.directory) where
    some_candidate :
        (built : List (CandidatePlacement F) × ControlPlane F)
        → build_candidates request now cp ≡ ok built
        → is_nonempty built.0 ≡ true
    some_candidate (cs, after) made =
        nonempty_of_map cs
          (ap is_nonempty (build_candidates-ids request now cp after cs made) ∙ ready.some_pool)
      where
        nonempty_of_map :
            (xs : List (CandidatePlacement F))
            → is_nonempty (map pool_key xs) ≡ true
            → is_nonempty xs ≡ true
        nonempty_of_map [] h = h
        nonempty_of_map (x ∷ xs) h = refl

    route_total :
        (r : (CandidatePlacement F × RoutingDecision F) × ControlPlane F) × (route no_routers
            request now cp
          ≡ ok r)
    unfolding route choose_candidate grpc_choose cpp_choose
    route_total =
        >>=_total (build_candidates request now cp) _
          (build_candidates_total cp request now ready.has_room.divides
            (clusters-IsServed cp.topology cp.clusters ready.ready))
          (λ built made.
            >>=_total (choose built.1.policy request built.0) _
              (chosen_total built.1.policy built.0 (some_candidate built made))
              (λ chosen _. (_, refl)))
      where
        chosen_total :
            (policy : Policy F) (cs : List (CandidatePlacement F))
            → is_nonempty cs ≡ true
            → (r : CandidatePlacement F × Policy F) × (choose policy request cs ≡ ok r)
        chosen_total policy cs h =
            let (c, after, e) = choose_total policy request cs h in ((c, after), e)

    -- What the routing hands on: a candidate whose pool and backend are found, and a control plane
    -- that is as ready.
    route-IsReady :
        (c : CandidatePlacement F) (d : RoutingDecision F) (mid : ControlPlane F)
        → route no_routers request now cp ≡ ok ((c, d), mid)
        → Found mid.clusters (pool_key c)
          × HasBackend c.backend_name
          × IsReady (n + 1) mid.topology mid.clusters mid.directory
    route-IsReady c d mid routed =
        let (cs, built, policy, made, picked, e) =
          route-eq-ok no_routers request now cp mid c d routed in
        let (_, clusters, _) = route_keeps no_routers request now cp mid c d routed in
        let chosen = choose_candidate-Elem no_routers built.policy policy request cs c picked in
        let served = clusters-IsServed cp.topology cp.clusters ready.ready in
        let keys =
          subst (All (Found cp.clusters)) (sym (build_candidates-ids request now cp built cs made))
            (all_pool_ids-Found_of_ready cp.topology cp.clusters ready.distinct ready.ready) in
        let room =
          subst (λ s. HasRoom (n + 1) s.directory) e
            (build_candidates-HasRoom (n + 1) request now cp built cs ready.has_room made) in
        (
          subst (λ all. Found all (pool_key c)) (sym clusters)
              (All_of_Elem _ c cs (All_of_map (Found cp.clusters) pool_key cs keys) chosen),
          All_of_Elem _ c cs (build_candidates-HasBackend request now cp built cs served made)
              chosen,
          IsReady-subst cp.topology mid.topology cp.clusters mid.clusters mid.directory
              (topology_kept mid cs built policy made e) clusters ready room,
        )
      where
        topology_kept :
            (mid : ControlPlane F) (cs : List (CandidatePlacement F)) (built : ControlPlane F)
            (policy : Policy F)
            → build_candidates request now cp ≡ ok (cs, built)
            → record built { policy = policy } ≡ mid
            → mid.topology ≡ cp.topology
        topology_kept mid cs built policy made e =
            let (_, _, _, _, same) = build_candidates-eq-ok request now cp built cs made in
            ap (λ s. s.topology) (sym e) ∙ ap (λ s. s.topology) (sym same)

        IsReady-subst :
            (t t' : Topology F) (all all' : Dict String (ClusterRuntime F)) (d : Directory F)
            → t' ≡ t
            → all' ≡ all
            → IsReady (n + 1) t all cp.directory
            → HasRoom (n + 1) d
            → IsReady (n + 1) t' all' d
        IsReady-subst t t' all all' d p q h room =
            subst (λ x. IsReady (n + 1) x all' d) (sym p)
              (subst (λ x. IsReady (n + 1) t x d) (sym q)
                (record {
                  distinct = h.distinct;
                  ready = h.ready;
                  some_pool = h.some_pool;
                  has_room = room;
                }))

  -- With no scheduler outside, an execution does not raise if every pool of every cluster is
  -- served (as in `build_candidates_total`), every cluster and every pool stands once and under
  -- its own id, there is a pool, no Redis server is used, the directory's `ttl_s` is not zero, and
  -- the cache directory has room for an entry more. All this is so again afterwards, with room for
  -- one entry less.
  pub execute_total :
      (request : InferenceRequest F) (now : F) (n : ℕ) (cp : ControlPlane F)
      → IsReady (n + 1) cp.topology cp.clusters cp.directory
      → (r : RequestResult F × ControlPlane F) × (execute
            (record { grpc_client = none; cpp_core = none })
            request
            now
            cp
          ≡ ok r)
        × IsReady n r.1.topology r.1.clusters r.1.directory
  unfolding execute
  execute_total request now n cp ready =
      let (((c, d), mid), routed) = route_total request now n cp ready in
      let ((pair, found), (backend, known), mid_ready) =
        route-IsReady request now n cp ready c d mid routed in
      let (r, done, after) = admit_total request c d pair backend now n mid mid_ready found in
      (
        r,
        >>=-eq_of_ok (route no_routers request now cp) _ routed
            ∙ >>=-eq_of_ok (find_pool c.cluster_id c.pool_id mid.clusters) _ found
            ∙ >>=-eq_of_ok (or_raise (find_backend c.backend_name) key_error) _
                (ap (λ o. or_raise o key_error) known)
            ∙ done,
        after,
      )
