-- ===== src/ControlPlane/Made.antt =====
-- control_plane/service.py: the control plane that is made of a configuration.
use nimbus_mesh_x.Base.{
  ℕ, ◌<◌, ◌≡◌, refl, sym, subst, String, string_eq, true, List, [], ◌∷◌, length-replicate, All,
  is_nonempty, Result, ok, ok-injective, >>=-eq-ok,
}
use nimbus_mesh_x.Base.Dict.{Dict, Distinct, insert-Distinct, insert-All}
use nimbus_mesh_x.Float.{Float, of_ℕ}
use nimbus_mesh_x.Types.{PoolRuntime, ClusterRuntime, init_slots}
use nimbus_mesh_x.Config.{PoolSpec, ClusterSpec, ExperimentConfig}
use nimbus_mesh_x.Gpu.{GpuTopologySnapshot}
use nimbus_mesh_x.Cache.{Directory}
use nimbus_mesh_x.Cache.Total.{HasRoom}
use nimbus_mesh_x.Topology.{Topology, build_topology}
use nimbus_mesh_x.Topology.Reached.{Reaches, build_topology-Reaches}
use nimbus_mesh_x.ControlPlane.{
  ControlPlane, build_policy, runtime_pool, runtime_pools, runtime_clusters, make_control_plane,
}
use nimbus_mesh_x.ControlPlane.Routed.{all_pool_ids}
use nimbus_mesh_x.ControlPlane.Ready.{HasBackend, PoolReady, ClusterReady, IsReady}
use nimbus_mesh_x.ControlPlane.Kept.{some_pool-insert, insert_nonempty}

module _ {F : Type 0} where
  -- The pool has a slot and its backend is known.
  abbrev pub IsUsable : PoolSpec F → Type 0
  IsUsable pool = (0 < pool.parallel_slots) × HasBackend pool.backend_name

  -- The cluster has a pool, and its pools are usable.
  abbrev pub IsStaffed : ClusterSpec F → Type 0
  IsStaffed cluster = (is_nonempty cluster.pools ≡ true) × All IsUsable cluster.pools

  abbrev cluster_of : ClusterSpec F → Dict String (PoolRuntime F) → ClusterRuntime F
  cluster_of s pools = record {
    cluster_id = s.cluster_id;
    zone = s.zone;
    ingress_cost = s.ingress_cost;
    network_costs = s.network_costs;
    base_congestion = s.base_congestion;
    failure_windows = s.failure_windows;
    congestion_windows = s.congestion_windows;
    pools = pools;
  }

module _ {F : Type 0} ⦃f : Float F⦄ where
  module _ (t : Topology F) (s : ClusterSpec F) where
    runtime_pool-PoolReady :
        (pools : Dict String (PoolRuntime F)) (pool : PoolSpec F)
        → IsUsable pool
        → Reaches s.cluster_id pool.pool_id t
        → PoolReady t (cluster_of s pools) pool.pool_id (runtime_pool s pool)
    unfolding runtime_pool init_slots
    runtime_pool-PoolReady pools pool (slots, backend) reached = (
      refl,
      record {
        gateway = reached.gateway;
        node = reached.node;
        backend = backend;
        slots =
            subst (λ n. 0 < n) (sym (length-replicate pool.parallel_slots (of_ℕ {F = F} 0))) slots;
      },
    )

    runtime_pools-PoolReady :
        (all : Dict String (PoolRuntime F)) (specs : List (PoolSpec F))
        (pools : Dict String (PoolRuntime F))
        → All IsUsable specs
        → All (λ p. Reaches s.cluster_id p.pool_id t) specs
        → All (λ p. PoolReady t (cluster_of s all) p.0 p.1) pools
        → All (λ p. PoolReady t (cluster_of s all) p.0 p.1) (runtime_pools s specs pools)
    unfolding runtime_pools
    runtime_pools-PoolReady all [] pools usable reached h = h
    runtime_pools-PoolReady all (spec ∷ specs) pools usable reached h =
        runtime_pools-PoolReady all specs _ usable.1 reached.1 (
          insert-All (λ k v. PoolReady t (cluster_of s all) k v) spec.pool_id (runtime_pool s spec)
            pools h (runtime_pool-PoolReady all spec usable.0 reached.0))

    runtime_pools-Distinct :
        (specs : List (PoolSpec F)) (pools : Dict String (PoolRuntime F))
        → Distinct pools
        → Distinct (runtime_pools s specs pools)
    unfolding runtime_pools
    runtime_pools-Distinct [] pools h = h
    runtime_pools-Distinct (spec ∷ specs) pools h =
        runtime_pools-Distinct specs _ (insert-Distinct spec.pool_id _ pools h)

    runtime_pools_stay :
        (specs : List (PoolSpec F)) (pools : Dict String (PoolRuntime F))
        → is_nonempty pools ≡ true
        → is_nonempty (runtime_pools s specs pools) ≡ true
    unfolding runtime_pools
    runtime_pools_stay [] pools h = h
    runtime_pools_stay (spec ∷ specs) pools h =
        runtime_pools_stay specs _ (insert_nonempty spec.pool_id _ pools)

    runtime_pools_nonempty :
        (specs : List (PoolSpec F))
        → is_nonempty specs ≡ true
        → is_nonempty (runtime_pools s specs []) ≡ true
    unfolding runtime_pools
    runtime_pools_nonempty [] h = h
    runtime_pools_nonempty (spec ∷ specs) h =
        runtime_pools_stay specs _ (insert_nonempty spec.pool_id _ [])

  module _ (t : Topology F) where
    runtime_clusters-ClusterReady :
        (specs : List (ClusterSpec F)) (clusters : Dict String (ClusterRuntime F))
        → All IsStaffed specs
        → All (λ s. All (λ p. Reaches s.cluster_id p.pool_id t) s.pools) specs
        → All (λ q. ClusterReady t q.0 q.1) clusters
        → All (λ q. ClusterReady t q.0 q.1) (runtime_clusters specs clusters)
    unfolding runtime_clusters
    runtime_clusters-ClusterReady [] clusters staffed reached h = h
    runtime_clusters-ClusterReady (s ∷ specs) clusters staffed reached h =
        let pools = runtime_pools s s.pools [] in
        runtime_clusters-ClusterReady specs _ staffed.1 reached.1 (
          insert-All (λ k v. ClusterReady t k v) s.cluster_id (cluster_of s pools) clusters h
            (
              refl,
              runtime_pools-Distinct t s s.pools [] tt,
              runtime_pools-PoolReady t s pools s.pools [] staffed.0.1 reached.0 tt,
            ))

    runtime_clusters-Distinct :
        (specs : List (ClusterSpec F)) (clusters : Dict String (ClusterRuntime F))
        → Distinct clusters
        → Distinct (runtime_clusters specs clusters)
    unfolding runtime_clusters
    runtime_clusters-Distinct [] clusters h = h
    runtime_clusters-Distinct (s ∷ specs) clusters h =
        runtime_clusters-Distinct specs _ (insert-Distinct s.cluster_id _ clusters h)

    runtime_clusters_stay :
        (specs : List (ClusterSpec F)) (clusters : Dict String (ClusterRuntime F))
        → All IsStaffed specs
        → is_nonempty (all_pool_ids clusters) ≡ true
        → is_nonempty (all_pool_ids (runtime_clusters specs clusters)) ≡ true
    unfolding runtime_clusters
    runtime_clusters_stay [] clusters staffed h = h
    runtime_clusters_stay (s ∷ specs) clusters staffed h = runtime_clusters_stay specs _ staffed.1 (
        some_pool-insert s.cluster_id (cluster_of s (runtime_pools s s.pools [])) clusters
          (runtime_pools_nonempty t s s.pools staffed.0.0))

    runtime_clusters_nonempty :
        (specs : List (ClusterSpec F))
        → All IsStaffed specs
        → is_nonempty specs ≡ true
        → is_nonempty (all_pool_ids (runtime_clusters specs [])) ≡ true
    unfolding runtime_clusters
    runtime_clusters_nonempty [] staffed h = h
    runtime_clusters_nonempty (s ∷ specs) staffed h = runtime_clusters_stay specs _ staffed.1 (
        some_pool-insert s.cluster_id (cluster_of s (runtime_pools s s.pools [])) []
          (runtime_pools_nonempty t s s.pools staffed.0.0))

  -- A control plane that is made of a configuration is ready, which is what `execute_total` asks
  -- for, if the configuration has a cluster, each cluster a pool, each pool a slot and a known
  -- backend, and the directory it is given has the room, no Redis server and a `ttl_s` that is not
  -- zero.
  pub make_control_plane-IsReady :
      (read_snapshot : String → Result (GpuTopologySnapshot F)) (directory : Directory F)
      (config : ExperimentConfig F) (cp : ControlPlane F) (n : ℕ)
      → is_nonempty config.clusters ≡ true
      → All IsStaffed config.clusters
      → HasRoom n directory
      → make_control_plane read_snapshot directory config ≡ ok cp
      → IsReady n cp.topology cp.clusters cp.directory
  unfolding make_control_plane
  make_control_plane-IsReady read_snapshot directory config cp n some staffed room h =
      let (t, built, h1) = >>=-eq-ok (build_topology read_snapshot config.clusters) _ h in
      let (policy, _, h2) = >>=-eq-ok (build_policy config.policy) _ h1 in
      subst (λ (c : ControlPlane F). IsReady n c.topology c.clusters c.directory)
        (ok-injective _ cp h2)
        (record {
          distinct = runtime_clusters-Distinct t config.clusters [] tt;
          ready =
              runtime_clusters-ClusterReady t config.clusters [] staffed
                (build_topology-Reaches read_snapshot config.clusters t built) tt;
          some_pool = runtime_clusters_nonempty t config.clusters staffed some;
          has_room = room;
        })
