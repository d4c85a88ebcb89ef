-- ===== src/ControlPlane/State.antt =====
-- control_plane/service.py: the state of the control plane, how it is built, `refresh` and
-- `note_submission`. The graph of TopologyService is a field, and is never written after it is built.
use nimbus_mesh_x.Base.{
  ◌+◌, String, string_eq, List, [], ◌∷◌, Result, ok, value_error, or_raise, ◌>>=◌,
}
use nimbus_mesh_x.Base.Dict.{Dict, lookup, insert, get_or}
use nimbus_mesh_x.Float.{Float, of_ℕ, decimal}
use nimbus_mesh_x.Types.{
  InferenceRequest, PoolRuntime, init_slots, refresh, ClusterRuntime, effective_congestion,
  TenantStats, no_stats,
}
use nimbus_mesh_x.Config.{PoolSpec, ClusterSpec, ExperimentConfig}
use nimbus_mesh_x.Gpu.{GpuTopologySnapshot}
use nimbus_mesh_x.Cache.{Directory, reserved_gb}
use nimbus_mesh_x.Policies.{
  Policy, round_robin, least_queue, topology_greedy, cache_aware, multi_objective, spread,
  contextual_bandit, sb3_placeholder, gnn_placeholder, pyg_placeholder,
}
use nimbus_mesh_x.Topology.{Topology, build_topology}

pub record ControlPlane (F : Type 0) : Type 0 where
  pub topology : Topology F
  pub directory : Directory F
  pub clusters : Dict String (ClusterRuntime F)
  pub tenant_stats : Dict String (TenantStats F)
  pub tenant_weights : Dict String F
  pub policy : Policy F
  pub fairness_strength : F

module _ {F : Type 0} ⦃f : Float F⦄ where
  -- `_build_policy`; the bandit's `exploration_bonus` is 18.0 by default.
  abbrev pub registry : Dict String (Policy F)
  registry =
      ("round_robin", round_robin 0)
      ∷ ("least_queue", least_queue)
      ∷ ("topology_greedy", topology_greedy)
      ∷ ("cache_aware", cache_aware)
      ∷ ("multi_objective", multi_objective)
      ∷ ("contextual_bandit", contextual_bandit (decimal 180 1) [] [])
      ∷ ("sb3_placeholder", sb3_placeholder)
      ∷ ("spread", spread [])
      ∷ ("gnn_placeholder", gnn_placeholder)
      ∷ ("pyg_placeholder", pyg_placeholder)
      ∷ []

  unfoldable pub build_policy : String → Result (Policy F)
  build_policy name = or_raise (lookup name registry) value_error

  -- PoolRuntime(…) with its `__post_init__`
  unfoldable pub runtime_pool : ClusterSpec F → PoolSpec F → PoolRuntime F
  runtime_pool cluster s = init_slots (record {
    cluster_id = cluster.cluster_id;
    zone = cluster.zone;
    pool_id = s.pool_id;
    backend_name = s.backend_name;
    accelerator_type = s.accelerator_type;
    supported_models = s.supported_models;
    prefill_tps = s.prefill_tps;
    decode_tps = s.decode_tps;
    memory_gb = s.memory_gb;
    gpu_count = s.gpu_count;
    parallel_slots = s.parallel_slots;
    cost_per_1m_tokens = s.cost_per_1m_tokens;
    energy_proxy = s.energy_proxy;
    topology_tier = s.topology_tier;
    premium = s.premium;
    queue_limit = s.queue_limit;
    congestion_score = of_ℕ 0;
    slot_available_at = [];
    active_memory_gb = of_ℕ 0;
    cache_reserved_gb = of_ℕ 0;
    decision_count = 0;
    completed_count = 0;
    inflight_memory = [];
  })

  unfoldable pub runtime_pools :
      ClusterSpec F → List (PoolSpec F) → Dict String (PoolRuntime F) → Dict String (PoolRuntime F)
  runtime_pools cluster [] pools = pools
  runtime_pools cluster (s ∷ specs) pools =
      runtime_pools cluster specs (insert s.pool_id (runtime_pool cluster s) pools)

  unfoldable pub runtime_clusters :
      List (ClusterSpec F) → Dict String (ClusterRuntime F) → Dict String (ClusterRuntime F)
  runtime_clusters [] clusters = clusters
  runtime_clusters (s ∷ specs) clusters =
      let cluster : ClusterRuntime F = record {
        cluster_id = s.cluster_id;
        zone = s.zone;
        ingress_cost = s.ingress_cost;
        network_costs = s.network_costs;
        base_congestion = s.base_congestion;
        failure_windows = s.failure_windows;
        congestion_windows = s.congestion_windows;
        pools = runtime_pools s s.pools [];
      } in
      runtime_clusters specs (insert s.cluster_id cluster clusters)

  -- `__init__`, with the directory and the reader of snapshots as arguments
  unfoldable pub make_control_plane :
      (String → Result (GpuTopologySnapshot F))
      → Directory F
      → ExperimentConfig F
      → Result (ControlPlane F)
  make_control_plane read_snapshot directory config = do
    topology ← build_topology read_snapshot config.clusters
    policy ← build_policy config.policy
    ok (record {
      topology = topology;
      directory = directory;
      clusters = runtime_clusters config.clusters [];
      tenant_stats = [];
      tenant_weights = config.workload.tenant_weights;
      policy = policy;
      fairness_strength = config.fairness_strength;
    })

  unfoldable pub refresh_pools :
      String
      → F
      → F
      → Dict String (PoolRuntime F)
      → Directory F
      → Dict String (PoolRuntime F) × Directory F
  refresh_pools cluster_id congestion now [] d = ([], d)
  refresh_pools cluster_id congestion now ((pool_id, pool) ∷ pools) d =
      let (reserved, purged) = reserved_gb cluster_id pool.pool_id now d in
      let fresh = refresh now (record pool { congestion_score = congestion }) in
      let (others, left) = refresh_pools cluster_id congestion now pools purged in
      ((pool_id, record fresh { cache_reserved_gb = reserved }) ∷ others, left)

  unfoldable pub refresh_clusters :
      F
      → Dict String (ClusterRuntime F)
      → Directory F
      → Dict String (ClusterRuntime F) × Directory F
  refresh_clusters now [] d = ([], d)
  refresh_clusters now ((cluster_id, cluster) ∷ clusters) d =
      let (pools, purged) =
        refresh_pools cluster.cluster_id (effective_congestion now cluster) now cluster.pools d in
      let (others, left) = refresh_clusters now clusters purged in
      ((cluster_id, record cluster { pools = pools }) ∷ others, left)

  -- `refresh`
  unfoldable pub refresh_plane : F → ControlPlane F → ControlPlane F
  refresh_plane now cp =
      let (clusters, directory) = refresh_clusters now cp.clusters cp.directory in
      record cp { clusters = clusters; directory = directory }

  abbrev pub stats_of : String → Dict String (TenantStats F) → TenantStats F
  stats_of tenant_id stats = get_or tenant_id no_stats stats

  unfoldable pub note_submission : InferenceRequest F → ControlPlane F → ControlPlane F
  note_submission request cp =
      let old = stats_of request.tenant_id cp.tenant_stats in
      record cp {
        tenant_stats =
            insert request.tenant_id (record old { submitted = old.submitted + 1 }) cp.tenant_stats;
      }
