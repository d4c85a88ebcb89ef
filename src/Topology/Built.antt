-- ===== src/Topology/Built.antt =====
-- topology_service/graph.py: the edges of a graph that `build_topology` makes.
use nimbus_mesh_x.Base.{
  ◌≡◌, ◌∙◌, sym, subst, String, ◌==◌, string_eq, Bool-cases, inl, inr, if_true, if_false, List, [],
  ◌∷◌, All, All-append, some, none, Result, ok, key_error, or_raise, ◌>>=◌, if◌then◌else◌,
  >>=-eq-ok, ok-injective,
}
use nimbus_mesh_x.Base.Dict.{Dict, lookup, get_or-All, insert-All}
use nimbus_mesh_x.Float.{Float, ◌⊖◌, ◌≼◌, of_ℕ, decimal, max}
use nimbus_mesh_x.Float.Laws.{IsFloat, le-max, decimal_nonneg}
use nimbus_mesh_x.Config.{PoolSpec, ClusterSpec}
use nimbus_mesh_x.Gpu.{GpuTopologySnapshot}
use nimbus_mesh_x.Topology.{
  Topology, empty_topology, tier_score, add_edge, add_pool, add_pools, add_gateway, probed,
  add_probe, add_clusters, route_edge, add_routes, add_network, build_topology, edges_of,
}

module _ {F : Type 0} ⦃f : Float F⦄ where
  -- No edge has a negative cost.
  abbrev pub HasCosts : Topology F → Type 0
  HasCosts t = All (λ row. All (λ e. of_ℕ 0 ≼ e.cost) row.1) t.adjacency

  -- The cluster's network costs are not negative.
  abbrev pub IsReachable : ClusterSpec F → Type 0
  IsReachable cluster = All (λ row. of_ℕ 0 ≼ row.1) cluster.network_costs

  pub edges_of-All :
      (t : Topology F)
      → HasCosts t
      → (node_id : String) → All (λ e. of_ℕ 0 ≼ e.cost) (edges_of node_id t.adjacency)
  edges_of-All t h node_id =
      get_or-All (λ k edges. All (λ e. of_ℕ 0 ≼ e.cost) edges) node_id [] t.adjacency h tt

  add_edge-HasCosts :
      (source target : String) (bandwidth latency cost : F) (t : Topology F)
      → of_ℕ 0 ≼ cost
      → HasCosts t
      → HasCosts (add_edge source target bandwidth latency cost t)
  unfolding add_edge
  add_edge-HasCosts source target bandwidth latency cost t nonneg h =
      insert-All (λ k edges. All (λ e. of_ℕ 0 ≼ e.cost) edges) source _ t.adjacency h
        (All-append _ (edges_of source t.adjacency) _ (edges_of-All t h source) (nonneg, tt))

  add_gateway-HasCosts :
      (cluster : ClusterSpec F) (t : Topology F) → HasCosts t → HasCosts (add_gateway cluster t)
  unfolding add_gateway
  add_gateway-HasCosts cluster t h = h

  add_routes-HasCosts :
      (gateway : String) (costs : Dict String F) (t : Topology F)
      → All (λ row. of_ℕ 0 ≼ row.1) costs
      → HasCosts t
      → HasCosts (add_routes gateway costs t)
  unfolding add_routes
  add_routes-HasCosts gateway [] t nonneg h = h
  add_routes-HasCosts gateway ((cluster_id, cost) ∷ costs) t nonneg h =
      add_routes-HasCosts gateway costs _ nonneg.1 (elim (Bool-cases (cluster_id == "ingress")) [
        | inl ingress ↦ subst HasCosts (sym (if_true _ t _ ingress)) h
        | inr other ↦
            subst HasCosts (sym (if_false _ t _ other))
              (elim (lookup cluster_id t.cluster_gateways)
                as (λ o. HasCosts (elim o [
                  | some target_gateway ↦ route_edge gateway cost target_gateway t
                  | none ↦ t
                ])) [
                  | some target_gateway ↦
                      add_edge-HasCosts gateway target_gateway _ _ cost t nonneg.0 h
                  | none ↦ h
                ])
      ])

  add_network-HasCosts :
      (clusters : List (ClusterSpec F)) (t u : Topology F)
      → All IsReachable clusters
      → HasCosts t
      → add_network clusters t ≡ ok u
      → HasCosts u
  unfolding add_network
  add_network-HasCosts [] t u reachable h e = subst HasCosts (ok-injective t u e) h
  add_network-HasCosts (cluster ∷ clusters) t u reachable h e =
      let (gateway, found, rest) =
        >>=-eq-ok (or_raise (lookup cluster.cluster_id t.cluster_gateways) key_error) _ e in
      add_network-HasCosts clusters _ u reachable.1
        (add_routes-HasCosts gateway cluster.network_costs t reachable.0 h) rest

  add_probe-HasCosts :
      (read_snapshot : String → Result (GpuTopologySnapshot F)) (cluster : ClusterSpec F)
      (t u : Topology F)
      → HasCosts t
      → add_probe read_snapshot cluster t ≡ ok u
      → HasCosts u
  unfolding add_probe
  add_probe-HasCosts read_snapshot cluster t u h e =
      elim cluster.gpu_topology_file
          as (λ file.
            (elim file [
              | none ↦ ok t
              | some name ↦
                  if name == ""
                  then ok t
                  else (read_snapshot name >>= λ parsed. ok (probed cluster parsed t))
            ])
              ≡ ok u
            → HasCosts u) [
              | none ↦ λ r. subst HasCosts (ok-injective t u r) h
              | some name ↦ λ r. elim (Bool-cases (name == "")) [
                | inl empty ↦
                    subst HasCosts (ok-injective t u (sym (if_true _ (ok t) _ empty) ∙ r)) h
                | inr given ↦
                    let (parsed, read, made) =
                      >>=-eq-ok (read_snapshot name) _ (sym (if_false _ (ok t) _ given) ∙ r) in
                    subst HasCosts (ok-injective (probed cluster parsed t) u made) h
              ]
            ]
        e

module _ {F : Type 0} ⦃f : Float F⦄ (laws : IsFloat F) where
  add_pool-HasCosts :
      (cluster : ClusterSpec F) (pool : PoolSpec F) (t : Topology F)
      → HasCosts t
      → HasCosts (add_pool cluster pool t)
  unfolding add_pool
  add_pool-HasCosts cluster pool t h =
      let score : F = tier_score pool.topology_tier in
      let internal : of_ℕ {F = F} 0 ≼ max (decimal 5 2) (decimal 12 1 ⊖ score) =
        laws.le_trans _ (decimal 5 2) _ (decimal_nonneg laws 5 2)
          (le-max laws (decimal 5 2) (decimal 12 1 ⊖ score)).0 in
      add_edge-HasCosts _ _ _ _ _ _ internal (add_edge-HasCosts _ _ _ _ _ _ internal h)

  add_pools-HasCosts :
      (cluster : ClusterSpec F) (pools : List (PoolSpec F)) (t : Topology F)
      → HasCosts t
      → HasCosts (add_pools cluster pools t)
  unfolding add_pools
  add_pools-HasCosts cluster [] t h = h
  add_pools-HasCosts cluster (pool ∷ pools) t h =
      add_pools-HasCosts cluster pools (add_pool cluster pool t)
        (add_pool-HasCosts cluster pool t h)

  module _ (read_snapshot : String → Result (GpuTopologySnapshot F)) where
    add_clusters-HasCosts :
        (clusters : List (ClusterSpec F)) (t u : Topology F)
        → HasCosts t
        → add_clusters read_snapshot clusters t ≡ ok u
        → HasCosts u
    unfolding add_clusters
    add_clusters-HasCosts [] t u h e = subst HasCosts (ok-injective t u e) h
    add_clusters-HasCosts (cluster ∷ clusters) t u h e =
        let (probed, first, rest) = >>=-eq-ok (add_probe read_snapshot cluster _) _ e in
        add_clusters-HasCosts clusters probed u
          (add_probe-HasCosts read_snapshot cluster _ probed
            (add_pools-HasCosts cluster cluster.pools (add_gateway cluster t)
              (add_gateway-HasCosts cluster t h))
            first)
          rest

    -- No edge of the graph that is built has a negative cost, if no network cost of the
    -- configuration is negative.
    pub build_topology-HasCosts :
        (clusters : List (ClusterSpec F)) (t : Topology F)
        → All IsReachable clusters
        → build_topology read_snapshot clusters ≡ ok t
        → HasCosts t
    unfolding build_topology
    build_topology-HasCosts clusters t reachable e =
        let (u, first, rest) = >>=-eq-ok (add_clusters read_snapshot clusters empty_topology) _ e in
        add_network-HasCosts clusters u t reachable
          (add_clusters-HasCosts clusters empty_topology u tt first) rest
