-- ===== src/Topology/Reached.antt =====
-- topology_service/graph.py: the gateways and the pools' nodes of a graph that `build_topology` makes.
use Prim.Native.String.{◌++◌ as ◌<>◌, slice}
use text.Mathlib.TextPositions.{slice-append_left}
use text.Mathlib.TextLemmas.{append_assoc}
use nimbus_mesh_x.Base.{
  ◌≡◌, ◌≢◌, refl, sym, ap, subst, ◌∙◌, arith, String, ◌==◌, string_eq, true_ne_false, Bool-cases,
  inl, inr, if_true, if_false, List, [], ◌∷◌, All, All_of_imp, some, none, Result, ok, key_error,
  or_raise, >>=-eq-ok, ok-injective,
}
use nimbus_mesh_x.Base.Dict.{
  Dict, lookup, insert, lookup-insert, lookup-insert_ne, lookup-insert_self,
}
use nimbus_mesh_x.Float.{Float}
use nimbus_mesh_x.Config.{PoolSpec, ClusterSpec}
use nimbus_mesh_x.Gpu.{GpuTopologySnapshot}
use nimbus_mesh_x.Topology.{
  Topology, TopologyNode, NodeMetadata, gateway_node_id, pool_node_id, empty_topology, add_edge,
  add_pool, add_pools, add_gateway, probed, add_probe, add_clusters, route_edge, add_routes,
  add_network, build_topology,
}

letters_differ : ◌≢◌ {A = String} "g" "p"
letters_differ h = absurd (true_ne_false (sym ((string_eq.beq_iff "g" "p").1 h)))

gateway-ne : (a b c : String) → gateway_node_id a ≢ pool_node_id b c
unfolding pool_node_id
gateway-ne a b c e = letters_differ (
    sym (slice-append_left "g" ("ateway:" <> a))
    ∙ ap (λ s. slice s 0 1) (sym (append_assoc "g" "ateway:" a) ∙ e ∙ append_assoc "p" "ool:" _)
    ∙ slice-append_left "p" ("ool:" <> (b <> (":" <> c))))

-- The cluster has a gateway, and the pool a node with metadata.
pub record Reaches {F : Type 0} (cluster_id pool_id : String) (t : Topology F) : Type 0 where
  pub gateway : (g : String) × (lookup cluster_id t.cluster_gateways ≡ some g)
  pub node :
      (n : TopologyNode) × (m : NodeMetadata) × (lookup (pool_node_id cluster_id pool_id) t.nodes
        ≡ some n)
      × (n.metadata ≡ some m)

gateway-insert :
    (cluster_id k g : String) (d : Dict String String)
    → (v : String) × (lookup cluster_id d ≡ some v)
    → (v : String) × (lookup cluster_id (insert k g d) ≡ some v)
gateway-insert cluster_id k g d (v, h) = elim (Bool-cases (cluster_id == k)) [
  | inl same ↦ (g, lookup-insert cluster_id k g d ∙ if_true _ _ _ same)
  | inr other ↦ (v, lookup-insert cluster_id k g d ∙ if_false _ _ _ other ∙ h)
]

module _ {F : Type 0} ⦃f : Float F⦄ where
  module _ (cluster_id pool_id : String) where
    add_edge-Reaches :
        (source target : String) (bandwidth latency cost : F) (t : Topology F)
        → Reaches cluster_id pool_id t
        → Reaches cluster_id pool_id (add_edge source target bandwidth latency cost t)
    unfolding add_edge
    add_edge-Reaches source target bandwidth latency cost t h = record {
      gateway = h.gateway;
      node = h.node;
    }

    add_gateway-Reaches :
        (cluster : ClusterSpec F) (t : Topology F)
        → Reaches cluster_id pool_id t
        → Reaches cluster_id pool_id (add_gateway cluster t)
    unfolding add_gateway
    add_gateway-Reaches cluster t h =
        let (n, m, found, has) = h.node in
        record {
          gateway = gateway-insert cluster_id cluster.cluster_id _ t.cluster_gateways h.gateway;
          node = (
            n,
            m,
            lookup-insert_ne (pool_node_id cluster_id pool_id) (gateway_node_id cluster.cluster_id)
                  _ t.nodes (λ e. gateway-ne cluster.cluster_id cluster_id pool_id (sym e))
                ∙ found,
            has,
          );
        }

    -- A node of a pool is replaced by nodes of pools alone.
    add_pool-Reaches :
        (cluster : ClusterSpec F) (pool : PoolSpec F) (t : Topology F)
        → Reaches cluster_id pool_id t
        → Reaches cluster_id pool_id (add_pool cluster pool t)
    unfolding add_pool
    add_pool-Reaches cluster pool t h =
        let at = pool_node_id cluster_id pool_id in
        let key = pool_node_id cluster.cluster_id pool.pool_id in
        let (n, m, found, has) = h.node in
        add_edge-Reaches _ _ _ _ _ _ (
          add_edge-Reaches _ _ _ _ _ _ (record {
            gateway = h.gateway;
            node = elim (Bool-cases (at == key)) [
              | inl same ↦ (_, _, lookup-insert at key _ t.nodes ∙ if_true _ _ _ same, refl)
              | inr other ↦
                  (n, m, lookup-insert at key _ t.nodes ∙ if_false _ _ _ other ∙ found, has)
            ];
          }))

    add_pools-Reaches :
        (cluster : ClusterSpec F) (pools : List (PoolSpec F)) (t : Topology F)
        → Reaches cluster_id pool_id t
        → Reaches cluster_id pool_id (add_pools cluster pools t)
    unfolding add_pools
    add_pools-Reaches cluster [] t h = h
    add_pools-Reaches cluster (pool ∷ pools) t h =
        add_pools-Reaches cluster pools _ (add_pool-Reaches cluster pool t h)

    add_routes-Reaches :
        (gateway : String) (costs : Dict String F) (t : Topology F)
        → Reaches cluster_id pool_id t
        → Reaches cluster_id pool_id (add_routes gateway costs t)
    unfolding add_routes
    add_routes-Reaches gateway [] t h = h
    add_routes-Reaches gateway ((target, cost) ∷ costs) t h =
        add_routes-Reaches gateway costs _ (elim (Bool-cases (target == "ingress")) [
          | inl ingress ↦ subst (Reaches cluster_id pool_id) (sym (if_true _ t _ ingress)) h
          | inr other ↦
              subst (Reaches cluster_id pool_id) (sym (if_false _ t _ other))
                (elim (lookup target t.cluster_gateways)
                  as (λ o. Reaches {F = F} cluster_id pool_id (elim o [
                    | some target_gateway ↦ route_edge gateway cost target_gateway t
                    | none ↦ t
                  ])) [
                    | some target_gateway ↦ add_edge-Reaches gateway target_gateway _ _ cost t h
                    | none ↦ h
                  ])
        ])

    add_network-Reaches :
        (clusters : List (ClusterSpec F)) (t u : Topology F)
        → Reaches cluster_id pool_id t
        → add_network clusters t ≡ ok u
        → Reaches cluster_id pool_id u
    unfolding add_network
    add_network-Reaches [] t u h e = subst (Reaches cluster_id pool_id) (ok-injective t u e) h
    add_network-Reaches (cluster ∷ clusters) t u h e =
        let (gateway, _, rest) =
          >>=-eq-ok (or_raise (lookup cluster.cluster_id t.cluster_gateways) key_error) _ e in
        add_network-Reaches clusters _ u (add_routes-Reaches gateway cluster.network_costs t h) rest

  -- A pool that is added is reached.
  add_pool-Reaches_self :
      (cluster : ClusterSpec F) (pool : PoolSpec F) (t : Topology F)
      → (g : String) × (lookup cluster.cluster_id t.cluster_gateways ≡ some g)
      → Reaches cluster.cluster_id pool.pool_id (add_pool cluster pool t)
  unfolding add_pool add_edge
  add_pool-Reaches_self cluster pool t gateway = record {
    gateway = gateway;
    node =
        (_, _, lookup-insert_self (pool_node_id cluster.cluster_id pool.pool_id) _ t.nodes, refl);
  }

  add_pools-Reaches_all :
      (cluster : ClusterSpec F) (pools : List (PoolSpec F)) (t : Topology F)
      → (g : String) × (lookup cluster.cluster_id t.cluster_gateways ≡ some g)
      → All (λ p. Reaches cluster.cluster_id p.pool_id (add_pools cluster pools t)) pools
  unfolding add_pools
  add_pools-Reaches_all cluster [] t gateway = tt
  add_pools-Reaches_all cluster (pool ∷ pools) t gateway =
      let here = add_pool-Reaches_self cluster pool t gateway in
      (
        add_pools-Reaches cluster.cluster_id pool.pool_id cluster pools _ here,
        add_pools-Reaches_all cluster pools _ here.gateway,
      )

  module _ (read_snapshot : String → Result (GpuTopologySnapshot F)) where
    add_probe-Reaches :
        (cluster_id pool_id : String) (cluster : ClusterSpec F) (t u : Topology F)
        → Reaches cluster_id pool_id t
        → add_probe read_snapshot cluster t ≡ ok u
        → Reaches cluster_id pool_id u
    add_probe-Reaches cluster_id pool_id cluster t u h e =
        let (gateways, nodes) = add_probe-same cluster t u e in
        record {
          gateway =
              subst (λ d. (g : String) × (lookup cluster_id d ≡ some g)) (sym gateways) h.gateway;
          node =
              subst
                (λ d.
                  (n : TopologyNode) × (m : NodeMetadata) × (lookup
                      (pool_node_id cluster_id pool_id) d
                    ≡ some n)
                  × (n.metadata ≡ some m))
                (sym nodes) h.node;
        }
      where
        add_probe-same :
            (cluster : ClusterSpec F) (t u : Topology F)
            → add_probe read_snapshot cluster t ≡ ok u
            → (u.cluster_gateways ≡ t.cluster_gateways) × (u.nodes ≡ t.nodes)
        add_probe-same cluster t u e = unfold add_probe in ground arith

    add_clusters-Reaches :
        (cluster_id pool_id : String) (clusters : List (ClusterSpec F)) (t u : Topology F)
        → Reaches cluster_id pool_id t
        → add_clusters read_snapshot clusters t ≡ ok u
        → Reaches cluster_id pool_id u
    unfolding add_clusters
    add_clusters-Reaches cluster_id pool_id [] t u h e =
        subst (Reaches cluster_id pool_id) (ok-injective t u e) h
    add_clusters-Reaches cluster_id pool_id (cluster ∷ clusters) t u h e =
        let pooled = add_pools cluster cluster.pools (add_gateway cluster t) in
        let (probed, one, rest) = >>=-eq-ok (add_probe read_snapshot cluster pooled) _ e in
        add_clusters-Reaches cluster_id pool_id clusters probed u
          (add_probe-Reaches cluster_id pool_id cluster pooled probed
            (add_pools-Reaches cluster_id pool_id cluster cluster.pools _
              (add_gateway-Reaches cluster_id pool_id cluster t h))
            one)
          rest

    add_clusters-Reaches_all :
        (clusters : List (ClusterSpec F)) (t u : Topology F)
        → add_clusters read_snapshot clusters t ≡ ok u
        → All (λ s. All (λ p. Reaches s.cluster_id p.pool_id u) s.pools) clusters
    unfolding add_clusters add_gateway
    add_clusters-Reaches_all [] t u e = tt
    add_clusters-Reaches_all (cluster ∷ clusters) t u e =
        let started = add_gateway cluster t in
        let pooled = add_pools cluster cluster.pools started in
        let (probed, one, rest) = >>=-eq-ok (add_probe read_snapshot cluster pooled) _ e in
        let gateway = lookup-insert_self cluster.cluster_id _ t.cluster_gateways in
        (
          All_of_imp _ _ cluster.pools
              (λ p h.
                add_clusters-Reaches cluster.cluster_id p.pool_id clusters probed u
                  (add_probe-Reaches cluster.cluster_id p.pool_id cluster pooled probed h one) rest)
              (add_pools-Reaches_all cluster cluster.pools started (_, gateway)),
          add_clusters-Reaches_all clusters probed u rest,
        )

    -- Every pool of the configuration is reached in the graph that is built.
    pub build_topology-Reaches :
        (clusters : List (ClusterSpec F)) (t : Topology F)
        → build_topology read_snapshot clusters ≡ ok t
        → All (λ s. All (λ p. Reaches s.cluster_id p.pool_id t) s.pools) clusters
    unfolding build_topology
    build_topology-Reaches clusters t e =
        let (u, built, rest) = >>=-eq-ok (add_clusters read_snapshot clusters empty_topology) _ e in
        All_of_imp _ _ clusters
          (λ s h.
            All_of_imp _ _ s.pools
              (λ p r. add_network-Reaches s.cluster_id p.pool_id clusters u t r rest) h)
          (add_clusters-Reaches_all clusters empty_topology u built)
