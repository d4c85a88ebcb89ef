-- ===== src/ControlPlane/Candidates.antt =====
-- control_plane/service.py: `build_candidates` and `_fairness_penalty`, and the processor's branch of
-- `enrich_candidates` (cuda_kernels/runtime.py). What they read and write of the state is passed on:
-- the directory, whose stale entries a score drops, and the statistics, where reading a tenant's makes
-- an entry.
use nimbus_mesh_x.Base.{
  ℕ, ◌+◌, leb, nat_beq, String, ◌==◌, string_eq, Bool, true, false, not, ◌||◌, if◌then◌else◌, List,
  [], ◌∷◌, ◌++◌, map, any, is_nonempty, Result, ok, key_error, or_raise, ◌>>=◌, Option, some, none,
}
use nimbus_mesh_x.Base.Dict.{Dict, insert, get_or, values}
use nimbus_mesh_x.Float.{Float, ◌⊕◌, ◌⊖◌, ◌⊗◌, ◌⊘◌, ◌<?◌, of_ℕ, decimal, round, max, sum}
use nimbus_mesh_x.Types.{
  InferenceRequest, PoolRuntime, inflight_count, queue_delay_ms, memory_headroom_gb, ClusterRuntime,
  unavailable, TenantStats, CandidatePlacement, Rejection, cluster_unavailable, unsupported_model,
  queue_full, memory_pressure, estimate_request_memory_gb,
}
use nimbus_mesh_x.Cache.{Directory, score}
use nimbus_mesh_x.Backends.{find_backend, estimate_latency_ms}
use nimbus_mesh_x.Topology.{pool_affinity, route_cost}
use nimbus_mesh_x.ControlPlane.State.{ControlPlane, stats_of}

abbrev pub is_none : Option Rejection → Bool
is_none none = true
is_none (some r) = false

-- What `build_candidates` may write.
pub record Scratch (F : Type 0) : Type 0 where
  pub directory : Directory F
  pub tenant_stats : Dict String (TenantStats F)

module _ {F : Type 0} where
  -- `sum(item.completed for item in stats.values())`
  unfoldable pub total_completed : Dict String (TenantStats F) → ℕ
  total_completed [] = 0
  total_completed ((tenant_id, stats) ∷ rest) = stats.completed + total_completed rest

  unfoldable pub model_supported : String → PoolRuntime F → Bool
  model_supported model_id pool =
      not (is_nonempty pool.supported_models) || any (λ m. model_id == m) pool.supported_models

module _ {F : Type 0} ⦃f : Float F⦄ where
  -- `_fairness_penalty`
  unfoldable pub fairness_penalty :
      String → ControlPlane F → Dict String (TenantStats F) → F × Dict String (TenantStats F)
  fairness_penalty tenant_id cp stats =
      let total = total_completed stats in
      let own = stats_of tenant_id stats in
      let actual_share = of_ℕ own.completed ⊘ of_ℕ total in
      let expected_share =
        get_or tenant_id (decimal 10 1) cp.tenant_weights
        ⊘ max (decimal 1 9) (sum (values cp.tenant_weights)) in
      if nat_beq total 0 then (decimal 0 1, stats) else (
        max (decimal 0 1) (actual_share ⊖ expected_share) ⊗ cp.fairness_strength,
        insert tenant_id own stats,
      )

  -- The chain of tests that rejects a candidate.
  unfoldable pub rejection_of :
      (down supported : Bool) (inflight queue_limit : ℕ) (headroom needed : F) → Option Rejection
  rejection_of down supported inflight queue_limit headroom needed =
      if down
      then some cluster_unavailable
      else if not supported
      then some unsupported_model
      else if leb queue_limit inflight
      then some queue_full
      else if headroom <? needed
      then some memory_pressure
      else none

  -- the body of the inner loop
  unfoldable pub build_candidate :
      ControlPlane F
      → InferenceRequest F
      → F
      → ClusterRuntime F
      → PoolRuntime F
      → Scratch F
      → Result (CandidatePlacement F × Scratch F)
  build_candidate cp request now cluster pool scratch = do
    let headroom = memory_headroom_gb pool
    scored ← score request cluster.cluster_id pool.pool_id now scratch.directory
    let hit_ratio = scored.0.0
    let saved_tokens = scored.0.1
    let needed =
        estimate_request_memory_gb request.prompt_tokens request.generation_tokens request.model_id
          saved_tokens
    let rejection =
        rejection_of (unavailable now cluster) (model_supported request.model_id pool)
          (inflight_count now pool) pool.queue_limit headroom needed
    affinity ← pool_affinity cluster.cluster_id pool.pool_id request.prompt_tokens cp.topology
    route ← route_cost cluster.cluster_id pool.pool_id cp.topology
    let network_cost = cluster.ingress_cost ⊕ route
    backend ← or_raise (find_backend pool.backend_name) key_error
    let latency =
        estimate_latency_ms backend request pool hit_ratio affinity network_cost
          pool.congestion_score
    let penalty = fairness_penalty request.tenant_id cp scratch.tenant_stats
    delay ← queue_delay_ms now pool
    ok (
      record {
        cluster_id = cluster.cluster_id;
        pool_id = pool.pool_id;
        backend_name = pool.backend_name;
        accelerator_type = pool.accelerator_type;
        queue_delay_ms = round delay 4;
        projected_prefill_ms = latency.0;
        projected_decode_ms = latency.1;
        expected_cache_hit_ratio = hit_ratio;
        expected_cache_saved_tokens = saved_tokens;
        topology_affinity = affinity;
        network_cost = round network_cost 4;
        congestion_score = round pool.congestion_score 4;
        memory_headroom_gb = round headroom 4;
        accelerator_cost_per_1m_tokens = pool.cost_per_1m_tokens;
        fairness_penalty = penalty.0;
        premium = pool.premium;
        available = is_none rejection;
        rejection_reason = rejection;
        score_breakdown =
            ("queue_delay_ms", round delay 4)
            ∷ ("cache_hit_ratio", hit_ratio)
            ∷ ("topology_affinity", affinity)
            ∷ ("network_cost", round network_cost 4)
            ∷ ("congestion_score", round pool.congestion_score 4)
            ∷ ("memory_headroom_gb", round headroom 4)
            ∷ ("fairness_penalty", round penalty.0 4)
            ∷ [];
      },
      record { directory = scored.1; tenant_stats = penalty.1 },
    )

  -- the inner loop
  unfoldable pub pool_candidates :
      ControlPlane F
      → InferenceRequest F
      → F
      → ClusterRuntime F
      → Dict String (PoolRuntime F)
      → Scratch F
      → Result (List (CandidatePlacement F) × Scratch F)
  pool_candidates cp request now cluster [] scratch = ok ([], scratch)
  pool_candidates cp request now cluster ((pool_id, pool) ∷ pools) scratch = do
    first ← build_candidate cp request now cluster pool scratch
    others ← pool_candidates cp request now cluster pools first.1
    ok (first.0 ∷ others.0, others.1)

  -- the outer loop
  unfoldable pub cluster_candidates :
      ControlPlane F
      → InferenceRequest F
      → F
      → Dict String (ClusterRuntime F)
      → Scratch F
      → Result (List (CandidatePlacement F) × Scratch F)
  cluster_candidates cp request now [] scratch = ok ([], scratch)
  cluster_candidates cp request now ((cluster_id, cluster) ∷ clusters) scratch = do
    first ← pool_candidates cp request now cluster cluster.pools scratch
    others ← cluster_candidates cp request now clusters first.1
    ok (first.0 ++ others.0, others.1)

  -- `enrich_candidates` of one candidate, where no GPU scores
  unfoldable pub enrich : CandidatePlacement F → CandidatePlacement F
  enrich c =
      let cache_bonus =
        round
          (c.expected_cache_hit_ratio
            ⊗ (decimal 10 1 ⊕ of_ℕ c.expected_cache_saved_tokens ⊘ decimal 81920 1))
          4 in
      let topology_penalty = round (max (decimal 0 1) (c.network_cost ⊖ c.topology_affinity)) 4 in
      let load_penalty =
        round
          (c.queue_delay_ms ⊘ decimal 10000 1
            ⊕ c.congestion_score
            ⊕ max (decimal 0 1) (decimal 10 1 ⊖ c.memory_headroom_gb ⊘ decimal 640 1))
          4 in
      record c {
        score_breakdown = insert "cuda_load_penalty" load_penalty (
            insert "cuda_topology_penalty" topology_penalty
              (insert "cuda_cache_bonus" cache_bonus c.score_breakdown));
      }

  unfoldable pub build_candidates :
      InferenceRequest F
      → F
      → ControlPlane F
      → Result (List (CandidatePlacement F) × ControlPlane F)
  build_candidates request now cp = do
    let before : Scratch F = record { directory = cp.directory; tenant_stats = cp.tenant_stats }
    built ← cluster_candidates cp request now cp.clusters before
    ok (
      map enrich built.0,
      record cp { directory = built.1.directory; tenant_stats = built.1.tenant_stats },
    )
