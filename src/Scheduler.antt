-- ===== src/Scheduler.antt =====
-- cluster_scheduler/local_scheduler.py, `LocalClusterScheduler.place_request`. The pool and the cache
-- directory are returned as the method leaves them.
pub mod Placing
pub mod Returning
use nimbus_mesh_x.Base.{
  ℕ, zero, suc, ◌+◌, Bool, true, false, List, [], ◌∷◌, ◌++◌, get_or, set, Result, ok, err,
  value_error, ◌>>=◌, none, if◌then◌else◌,
}
use nimbus_mesh_x.Float.{Float, ◌⊕◌, ◌⊖◌, ◌⊗◌, ◌⊘◌, ◌≤?◌, ◌<?◌, of_ℕ, decimal, round, max}
use nimbus_mesh_x.Types.{
  InferenceRequest, total_tokens, PoolRuntime, CandidatePlacement, RoutingDecision, RequestResult,
  estimate_request_memory_gb,
}
use nimbus_mesh_x.Cache.{Directory, observe}
use nimbus_mesh_x.Backends.{Backend, estimate_latency_ms}

-- What a placement leaves behind.
pub record Placed (F : Type 0) : Type 0 where
  pub result : RequestResult F
  pub pool : PoolRuntime F
  pub directory : Directory F

module _ {F : Type 0} ⦃f : Float F⦄ where
  -- The index of the least of `x`, at `best`, and of the list, whose head is at `next`.
  unfoldable pub argmin : F → ℕ → ℕ → List F → ℕ
  argmin x best next [] = best
  argmin x best next (y ∷ ys) =
      argmin (if y <? x then y else x) (if y <? x then next else best) (suc next) ys

  -- `min(range(len(slots)), key=slots.__getitem__)`
  unfoldable pub earliest_index : List F → Result ℕ
  unfolding argmin
  earliest_index [] = err value_error
  earliest_index (x ∷ xs) = ok (argmin x 0 1 xs)

  -- When a request starts in a slot that is free at `free`.
  unfoldable pub start_ts : F → F → F
  start_ts now free = max now free

  -- The pool with the request in the slot.
  unfoldable pub occupy : ℕ → F → F → PoolRuntime F → PoolRuntime F
  occupy slot completion_ts memory_gb p = record p {
    slot_available_at = set p.slot_available_at slot completion_ts;
    inflight_memory = p.inflight_memory ++ (completion_ts, memory_gb) ∷ [];
    active_memory_gb = p.active_memory_gb ⊕ memory_gb;
    decision_count = p.decision_count + 1;
  }

  unfoldable pub latency_of :
      Backend → InferenceRequest F → CandidatePlacement F → PoolRuntime F → F × F
  latency_of backend request candidate pool =
      estimate_latency_ms backend request pool candidate.expected_cache_hit_ratio
        candidate.topology_affinity candidate.network_cost candidate.congestion_score

  unfoldable pub memory_of : InferenceRequest F → CandidatePlacement F → F
  memory_of request candidate =
      estimate_request_memory_gb request.prompt_tokens request.generation_tokens request.model_id
        candidate.expected_cache_saved_tokens

  unfoldable pub completion_of : F → F × F → F
  completion_of start latency = start ⊕ (latency.0 ⊕ latency.1) ⊘ of_ℕ 1000

  -- The result of a request that starts at `start` with these latencies.
  unfoldable pub placed_result :
      InferenceRequest F
      → CandidatePlacement F
      → RoutingDecision F
      → PoolRuntime F
      → (now start : F) → F × F
      → RequestResult F
  placed_result request candidate decision pool now start latency =
      let queue_delay_ms = max (of_ℕ 0) (start ⊖ now) ⊗ of_ℕ 1000 in
      let total_latency_ms = queue_delay_ms ⊕ latency.0 ⊕ latency.1 in
      record {
        request = request;
        decision = decision;
        admitted = true;
        actual_start_ts = start;
        completion_ts = completion_of start latency;
        queue_delay_ms = round queue_delay_ms 4;
        prefill_latency_ms = round latency.0 4;
        decode_latency_ms = round latency.1 4;
        total_latency_ms = round total_latency_ms 4;
        cache_hit_ratio = candidate.expected_cache_hit_ratio;
        cache_saved_tokens = candidate.expected_cache_saved_tokens;
        memory_gb = round (memory_of request candidate) 4;
        cost_usd =
            round (pool.cost_per_1m_tokens ⊗ (of_ℕ (total_tokens request) ⊘ of_ℕ 1_000_000)) 6;
        energy_proxy = round (pool.energy_proxy ⊗ (of_ℕ (total_tokens request) ⊘ of_ℕ 1000)) 4;
        network_cost = round candidate.network_cost 4;
        sla_met = total_latency_ms ≤? request.max_latency_ms;
        rejection_reason = none;
      }

  unfoldable pub place_request :
      InferenceRequest F
      → CandidatePlacement F
      → RoutingDecision F
      → PoolRuntime F
      → Backend
      → F
      → Directory F
      → Result (Placed F)
  place_request request candidate decision pool backend now directory = do
    slot ← earliest_index pool.slot_available_at
    let start = start_ts now (get_or pool.slot_available_at slot now)
    let latency = latency_of backend request candidate pool
    let result = placed_result request candidate decision pool now start latency
    let occupied = occupy slot result.completion_ts (memory_of request candidate) pool
    observed ← observe result directory
    ok (record { result = result; pool = occupied; directory = observed })
