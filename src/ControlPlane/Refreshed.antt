-- ===== src/ControlPlane/Refreshed.antt =====
-- control_plane/service.py: a control plane that is ready is so after `refresh`.
use nimbus_mesh_x.Base.{
  ℕ, ◌≡◌, ◌≢◌, refl, ap, ◌∙◌, String, string_eq, [], ◌∷◌, ◌++◌, All, is_nonempty,
}
use nimbus_mesh_x.Base.Dict.{Dict, Distinct}
use nimbus_mesh_x.Float.{Float}
use nimbus_mesh_x.Types.{PoolRuntime, ClusterRuntime, refresh, effective_congestion}
use nimbus_mesh_x.Topology.{Topology}
use nimbus_mesh_x.Cache.{Directory, reserved_gb}
use nimbus_mesh_x.Cache.Total.{HasRoom, evict_stale-HasRoom}
use nimbus_mesh_x.ControlPlane.{ControlPlane, refresh_pools, refresh_clusters, refresh_plane}
use nimbus_mesh_x.ControlPlane.Routed.{pool_ids, all_pool_ids}
use nimbus_mesh_x.ControlPlane.Ready.{PoolReady, ClusterReady, IsReady}
use nimbus_mesh_x.ControlPlane.Kept.{IsServed-alike, recluster}

module _ {F : Type 0} ⦃f : Float F⦄ (now : F) where
  module _ (cluster_id : String) (congestion : F) where
    refresh_pools-absent :
        (k : String) (pools : Dict String (PoolRuntime F)) (d : Directory F)
        → All (λ q. q.0 ≢ k) pools
        → All (λ q. q.0 ≢ k) (refresh_pools cluster_id congestion now pools d).0
    unfolding refresh_pools
    refresh_pools-absent k [] d h = tt
    refresh_pools-absent k ((j, pool) ∷ pools) d h = (h.0, refresh_pools-absent k pools _ h.1)

    refresh_pools-Distinct :
        (pools : Dict String (PoolRuntime F)) (d : Directory F)
        → Distinct pools
        → Distinct (refresh_pools cluster_id congestion now pools d).0
    unfolding refresh_pools
    refresh_pools-Distinct [] d h = tt
    refresh_pools-Distinct ((j, pool) ∷ pools) d h =
        (refresh_pools-absent j pools _ h.0, refresh_pools-Distinct pools _ h.1)

    refresh_pools-PoolReady :
        (t : Topology F) (c : ClusterRuntime F) (pools : Dict String (PoolRuntime F))
        (d : Directory F)
        → All (λ p. PoolReady t c p.0 p.1) pools
        → All (λ p. PoolReady t c p.0 p.1) (refresh_pools cluster_id congestion now pools d).0
    unfolding refresh_pools refresh
    refresh_pools-PoolReady t c [] d h = tt
    refresh_pools-PoolReady t c ((j, pool) ∷ pools) d h = (
      (h.0.0, IsServed-alike t c pool _ refl refl refl h.0.1),
      refresh_pools-PoolReady t c pools _ h.1,
    )

    refresh_pools-ids :
        (c : ClusterRuntime F) (pools : Dict String (PoolRuntime F)) (d : Directory F)
        → pool_ids c (refresh_pools cluster_id congestion now pools d).0 ≡ pool_ids c pools
    unfolding refresh_pools refresh
    refresh_pools-ids c [] d = refl
    refresh_pools-ids c ((j, pool) ∷ pools) d =
        ap (λ ks. (c.cluster_id, pool.pool_id) ∷ ks) (refresh_pools-ids c pools _)

    refresh_pools-HasRoom :
        (n : ℕ) (pools : Dict String (PoolRuntime F)) (d : Directory F)
        → HasRoom n d
        → HasRoom n (refresh_pools cluster_id congestion now pools d).1
    unfolding refresh_pools reserved_gb
    refresh_pools-HasRoom n [] d h = h
    refresh_pools-HasRoom n ((j, pool) ∷ pools) d h =
        refresh_pools-HasRoom n pools _ (evict_stale-HasRoom n now d h)

  refresh_clusters-absent :
      (k : String) (clusters : Dict String (ClusterRuntime F)) (d : Directory F)
      → All (λ q. q.0 ≢ k) clusters
      → All (λ q. q.0 ≢ k) (refresh_clusters now clusters d).0
  unfolding refresh_clusters
  refresh_clusters-absent k [] d h = tt
  refresh_clusters-absent k ((j, c) ∷ clusters) d h =
      (h.0, refresh_clusters-absent k clusters _ h.1)

  refresh_clusters-Distinct :
      (clusters : Dict String (ClusterRuntime F)) (d : Directory F)
      → Distinct clusters
      → Distinct (refresh_clusters now clusters d).0
  unfolding refresh_clusters
  refresh_clusters-Distinct [] d h = tt
  refresh_clusters-Distinct ((j, c) ∷ clusters) d h =
      (refresh_clusters-absent j clusters _ h.0, refresh_clusters-Distinct clusters _ h.1)

  refresh_clusters-ClusterReady :
      (t : Topology F) (clusters : Dict String (ClusterRuntime F)) (d : Directory F)
      → All (λ q. ClusterReady t q.0 q.1) clusters
      → All (λ q. ClusterReady t q.0 q.1) (refresh_clusters now clusters d).0
  unfolding refresh_clusters
  refresh_clusters-ClusterReady t [] d h = tt
  refresh_clusters-ClusterReady t ((j, c) ∷ clusters) d h =
      let congestion = effective_congestion now c in
      let (id, distinct, pools) = h.0 in
      let fresh = (refresh_pools c.cluster_id congestion now c.pools d).0 in
      (
        (
          id,
          refresh_pools-Distinct c.cluster_id congestion c.pools d distinct,
          recluster t c fresh fresh
              (refresh_pools-PoolReady c.cluster_id congestion t c c.pools d pools),
        ),
        refresh_clusters-ClusterReady t clusters _ h.1,
      )

  same_ids :
      (c : ClusterRuntime F) (pools xs : Dict String (PoolRuntime F))
      → pool_ids (record c { pools = pools }) xs ≡ pool_ids c xs
  same_ids c pools [] = refl
  same_ids c pools (x ∷ xs) = ap (λ ks. (c.cluster_id, x.1.pool_id) ∷ ks) (same_ids c pools xs)

  refresh_clusters-ids :
      (clusters : Dict String (ClusterRuntime F)) (d : Directory F)
      → all_pool_ids (refresh_clusters now clusters d).0 ≡ all_pool_ids clusters
  unfolding refresh_clusters
  refresh_clusters-ids [] d = refl
  refresh_clusters-ids ((j, c) ∷ clusters) d =
      let congestion = effective_congestion now c in
      let fresh = refresh_pools c.cluster_id congestion now c.pools d in
      ap (λ ks. ks ++ all_pool_ids (refresh_clusters now clusters fresh.1).0)
        (refresh_pools-ids c.cluster_id congestion (record c { pools = fresh.0 }) c.pools d
          ∙ same_ids c fresh.0 c.pools)
      ∙ ap (λ ks. pool_ids c c.pools ++ ks) (refresh_clusters-ids clusters fresh.1)

  refresh_clusters-HasRoom :
      (n : ℕ) (clusters : Dict String (ClusterRuntime F)) (d : Directory F)
      → HasRoom n d
      → HasRoom n (refresh_clusters now clusters d).1
  unfolding refresh_clusters
  refresh_clusters-HasRoom n [] d h = h
  refresh_clusters-HasRoom n ((j, c) ∷ clusters) d h =
      refresh_clusters-HasRoom n clusters _
        (refresh_pools-HasRoom c.cluster_id (effective_congestion now c) n c.pools d h)

  pub refresh_plane-IsReady :
      (n : ℕ) (cp : ControlPlane F)
      → IsReady n cp.topology cp.clusters cp.directory
      → let after = refresh_plane now cp in IsReady n after.topology after.clusters after.directory
  unfolding refresh_plane
  refresh_plane-IsReady n cp h = record {
    distinct = refresh_clusters-Distinct cp.clusters cp.directory h.distinct;
    ready = refresh_clusters-ClusterReady cp.topology cp.clusters cp.directory h.ready;
    some_pool = ap is_nonempty (refresh_clusters-ids cp.clusters cp.directory) ∙ h.some_pool;
    has_room = refresh_clusters-HasRoom n cp.clusters cp.directory h.has_room;
  }
