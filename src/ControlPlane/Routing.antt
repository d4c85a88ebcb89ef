-- ===== src/ControlPlane/Routing.antt =====
-- control_plane/service.py: `route`, `_choose_candidate` and `execute`. The scheduler behind gRPC and
-- the compiled scheduler core (grpc_layer/client.py and scheduler_core/cpp_bridge.py) are arguments:
-- the index that each answers, where it is enabled.
use nimbus_mesh_x.Base.{
  ℕ, ◌+◌, ltb, of_Bool, not, String, string_eq, false, if◌then◌else◌, List, length, get_elem?,
  is_nonempty, Result, ok, key_error, index_error, or_raise, ◌>>=◌, Option, some, none,
}
use nimbus_mesh_x.Base.Int.{ℤ, pos, negsuc}
use nimbus_mesh_x.Base.Dict.{Dict, lookup, insert}
use nimbus_mesh_x.Float.{Float, ◌⊕◌, decimal, round}
use nimbus_mesh_x.Types.{
  InferenceRequest, PoolRuntime, ClusterRuntime, TenantStats, CandidatePlacement, RoutingDecision,
  RequestResult, estimated_total_latency_ms,
}
use nimbus_mesh_x.Backends.{Backend, find_backend}
use nimbus_mesh_x.Scheduler.{Placed, place_request}
use nimbus_mesh_x.Policies.{Policy, choose, observe_result, policy_name}
use nimbus_mesh_x.ControlPlane.State.{ControlPlane, stats_of}
use nimbus_mesh_x.ControlPlane.Candidates.{build_candidates}

-- A scheduler outside of the process. A call may raise, and may answer any number.
abbrev pub Router : Type 0 → Type 0
Router F = InferenceRequest F → List (CandidatePlacement F) → Result ℤ

pub record Routers (F : Type 0) : Type 0 where
  pub grpc_client : Option (Router F)
  pub cpp_core : Option (Router F)

-- `None` where the index is out of range
unfoldable pub in_range : ℕ → ℤ → Option ℕ
in_range count (pos i) = if ltb i count then some i else none
in_range count (negsuc i) = none

module _ {F : Type 0} ⦃f : Float F⦄ where
  -- GrpcSchedulerClient.choose
  unfoldable pub grpc_choose :
      Routers F → InferenceRequest F → List (CandidatePlacement F) → Result (Option ℕ)
  grpc_choose routers request candidates = elim routers.grpc_client [
    | none ↦ ok none
    | some ask ↦ ask request candidates >>= λ i. ok (in_range (length candidates) i)
  ]

  -- CppSchedulerCore.choose
  unfoldable pub cpp_choose :
      Routers F → InferenceRequest F → List (CandidatePlacement F) → Result (Option ℕ)
  cpp_choose routers request candidates = elim routers.cpp_core [
    | none ↦ ok none
    | some ask ↦
        if is_nonempty candidates
        then (ask request candidates >>= λ i. ok (in_range (length candidates) i))
        else ok none
  ]

  unfoldable pub choose_candidate :
      Routers F
      → Policy F
      → InferenceRequest F
      → List (CandidatePlacement F)
      → Result (CandidatePlacement F × Policy F)
  choose_candidate routers policy request candidates =
      grpc_choose routers request candidates >>= λ grpc_index. elim grpc_index [
        | some i ↦ or_raise (get_elem? candidates i) index_error >>= λ c. ok (c, policy)
        | none ↦ cpp_choose routers request candidates >>= λ cpp_index. elim cpp_index [
          | some i ↦ or_raise (get_elem? candidates i) index_error >>= λ c. ok (c, policy)
          | none ↦ choose policy request candidates
        ]
      ]

  unfoldable pub decision_of :
      InferenceRequest F → CandidatePlacement F → Policy F → RoutingDecision F
  decision_of request choice policy = record {
    request_id = request.request_id;
    policy_name = policy_name policy;
    cluster_id = choice.cluster_id;
    pool_id = choice.pool_id;
    backend_name = choice.backend_name;
    estimated_latency_ms = round (estimated_total_latency_ms choice) 4;
    estimated_queue_delay_ms = round choice.queue_delay_ms 4;
    estimated_cache_hit_ratio = choice.expected_cache_hit_ratio;
    topology_affinity = choice.topology_affinity;
    network_cost = choice.network_cost;
    accelerator_cost_per_1m_tokens = choice.accelerator_cost_per_1m_tokens;
    fairness_penalty = choice.fairness_penalty;
    score_breakdown = choice.score_breakdown;
  }

  unfoldable pub route :
      Routers F
      → InferenceRequest F
      → F
      → ControlPlane F
      → Result ((CandidatePlacement F × RoutingDecision F) × ControlPlane F)
  route routers request now cp = do
    built ← build_candidates request now cp
    chosen ← choose_candidate routers built.1.policy request built.0
    ok ((chosen.0, decision_of request chosen.0 chosen.1), record built.1 { policy = chosen.1 })

  -- `self.clusters[cluster_id].pools[pool_id]`
  unfoldable pub find_pool :
      String → String → Dict String (ClusterRuntime F) → Result (ClusterRuntime F × PoolRuntime F)
  find_pool cluster_id pool_id clusters = do
    cluster ← or_raise (lookup cluster_id clusters) key_error
    pool ← or_raise (lookup pool_id cluster.pools) key_error
    ok (cluster, pool)

  -- The clusters when the pool object has become `pool`.
  unfoldable pub put_pool :
      String
      → String
      → ClusterRuntime F
      → PoolRuntime F
      → Dict String (ClusterRuntime F)
      → Dict String (ClusterRuntime F)
  put_pool cluster_id pool_id cluster pool clusters =
      insert cluster_id (record cluster { pools = insert pool_id pool cluster.pools }) clusters

  unfoldable pub rejected_result :
      InferenceRequest F → CandidatePlacement F → RoutingDecision F → F → RequestResult F
  rejected_result request candidate decision now = record {
    request = request;
    decision = decision;
    admitted = false;
    actual_start_ts = now;
    completion_ts = now;
    queue_delay_ms = decimal 0 1;
    prefill_latency_ms = decimal 0 1;
    decode_latency_ms = decimal 0 1;
    total_latency_ms = decimal 0 1;
    cache_hit_ratio = decimal 0 1;
    cache_saved_tokens = 0;
    memory_gb = decimal 0 1;
    cost_usd = decimal 0 1;
    energy_proxy = decimal 0 1;
    network_cost = candidate.network_cost;
    sla_met = false;
    rejection_reason = candidate.rejection_reason;
  }

  abbrev pub completed_stats : RequestResult F → TenantStats F → TenantStats F
  completed_stats result old = record old {
    completed = old.completed + 1;
    total_latency_ms = old.total_latency_ms ⊕ result.total_latency_ms;
    sla_misses = old.sla_misses + of_Bool (not result.sla_met);
  }

  -- What `execute` writes once the request is placed.
  unfoldable pub settle :
      InferenceRequest F
      → CandidatePlacement F
      → ClusterRuntime F
      → Placed F
      → ControlPlane F
      → ControlPlane F
  settle request candidate cluster placed cp =
      let result = placed.result in
      let pool = placed.pool in
      record cp {
        directory = placed.directory;
        clusters =
            put_pool candidate.cluster_id candidate.pool_id cluster
              (record pool { completed_count = pool.completed_count + 1 }) cp.clusters;
        tenant_stats =
            insert request.tenant_id
              (completed_stats result (stats_of request.tenant_id cp.tenant_stats)) cp.tenant_stats;
        policy = observe_result result cp.policy;
      }

  -- `execute` after the routing
  unfoldable pub admit :
      InferenceRequest F
      → CandidatePlacement F
      → RoutingDecision F
      → ClusterRuntime F × PoolRuntime F
      → Backend
      → F
      → ControlPlane F
      → Result (RequestResult F × ControlPlane F)
  admit request candidate decision (cluster, pool) backend now cp =
      if candidate.available
      then (place_request request candidate decision pool backend now cp.directory >>= λ placed.
          ok (placed.result, settle request candidate cluster placed cp))
      else ok (rejected_result request candidate decision now, cp)

  unfoldable pub execute :
      Routers F
      → InferenceRequest F
      → F
      → ControlPlane F
      → Result (RequestResult F × ControlPlane F)
  execute routers request now cp = do
    routed ← route routers request now cp
    let candidate = routed.0.0
    found ← find_pool candidate.cluster_id candidate.pool_id routed.1.clusters
    backend ← or_raise (find_backend candidate.backend_name) key_error
    admit request candidate routed.0.1 found backend now routed.1
