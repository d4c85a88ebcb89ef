-- ===== src/Tests/Runs.antt =====
-- The graph, the generator, the quantiles, the snapshot of GPUs, and a run of the engine.
use nimbus_mesh_x.Base.Dict.{lookup, get_or, insert, delete}
use nimbus_mesh_x.Base.Sort.{insert_sorted, sort}
use nimbus_mesh_x.Base.Text.{show, show_padded}
use nimbus_mesh_x.Float.{max, min, sum, minimum, of_ℕ, decimal, ◌≼◌}
use nimbus_mesh_x.Types.{
  sla_priority, sla_text, normalize_sla_class, model_scale, estimate_request_memory_gb,
  session_or_anon, stable_prefix_signature, positive, both, token_counts, derived_signature,
  make_request, total_tokens, init_slots, refresh, inflight_count, earliest_slot, queue_delay_ms,
  memory_headroom_gb, effective_congestion, unavailable, estimated_total_latency_ms,
  InferenceRequest,
}
use nimbus_mesh_x.Cache.{
  key_of, evict_buckets, evict_stale, hydrated, payload_entries, hydrate_from_redis, bucket_of,
  location_bonus, freshness, hit_ratio, better, best_entry, prepare, score, reserved_gb,
  offload_recommendation, snapshot, touch_bucket, cap_bucket, total_entries, items, has_tie,
  sort_items, remove_entry, drop_victim, trim_loop, trim, persist_to_redis, store_bucket, observe,
}
use nimbus_mesh_x.Storage.{write_decision, write_cache_affinity, fetch_cache_affinity}
use nimbus_mesh_x.Backends.{
  backend_text, find_backend, mock_latency_ms, vllm_latency_ms, triton_latency_ms,
  estimate_latency_ms,
}
use nimbus_mesh_x.Scheduler.{
  argmin, earliest_index, start_ts, occupy, latency_of, memory_of, completion_of, placed_result,
  place_request,
}
use nimbus_mesh_x.Policies.{
  available_candidates, least, min_by, tuple_lt, least_queue_key, topology_greedy_key,
  cache_aware_key, latency_weight, cost_weight, premium_penalty, multi_objective_key, sb3_key,
  gnn_key, pyg_key, spread_lt, bandit_score, prefers, note_choice, choose_in_turn, choose_best,
  choose, reward, observe_result, policy_name,
}
use nimbus_mesh_x.Gpu.{link_of, row_of, snapshot_of, positives, overall_affinity, average_cost}
use nimbus_mesh_x.Topology.{
  pool_node_id, add_edge, tier_score, add_pool, add_pools, add_gateway, add_probe, add_clusters,
  add_routes, add_network, build_topology, pop_least, push_edge, relax, search, edge_count,
  shortest_path_cost, pool_affinity, route_cost, TopologyLink, Topology,
}
use nimbus_mesh_x.ControlPlane.{
  total_completed, model_supported, fairness_penalty, rejection_of, build_candidate,
  pool_candidates, cluster_candidates, enrich, build_candidates, in_range, grpc_choose, cpp_choose,
  choose_candidate, decision_of, route, find_pool, put_pool, rejected_result, settle, admit,
  execute, refresh_plane, refresh_clusters, refresh_pools, note_submission as note_request,
}
use nimbus_mesh_x.Metrics.{
  interpolate, quantile, jains_index, admitted_results, empty_metrics, record_result,
  note_submission,
}
use nimbus_mesh_x.Workload.{
  draw, weighted_choice, even_arrivals, bursty_arrival, bursty_arrivals, poisson_arrivals,
  generate_arrivals, token_value, sample_tokens, new_session, pick_session, token_salt,
  generate_request, requests_at, drawn_requests, generate_requests, Random, GeneratorState,
  TraceRow,
}
use nimbus_mesh_x.Base.{
  ◌==◌, Result, err, key_error, some, ℕ, suc, string_eq, pair_eq, ◌≡◌, ◌≤◌, ◌+◌, ◌⊎◌, refl, arith,
  String, List, [], ◌∷◌, length, true, false, inl, is_ok, value_of, ok, none,
}
use nimbus_mesh_x.Base.Int.{ℤ, ◌+ℤ◌, ◌-ℤ◌}
use nimbus_mesh_x.Float.Fixed.{fixed_float, Fixed-IsFloat}
use nimbus_mesh_x.Topology.Walks.{Walk, start, along, shortest_path_cost-Walk}
use nimbus_mesh_x.Topology.Shortest.{shortest_path_cost-le}
use nimbus_mesh_x.Topology.Built.{HasCosts, edges_of-All, build_topology-HasCosts}
use nimbus_mesh_x.Topology.Fuel.{shortest_path_cost_total}
use nimbus_mesh_x.Metrics.Quantiles.{quantile_total}
use nimbus_mesh_x.Azure.{record_result as record_azure, note_submission as note_batch}
use nimbus_mesh_x.Engine.{EngineState, step, run_requests, store_decision, write_outputs}
use nimbus_mesh_x.Engine.Runs.{Agree, run_requests-Agree}
use nimbus_mesh_x.Engine.Written.{IsLogged, run_requests-IsLogged}
use nimbus_mesh_x.Workload.Arrivals.{sample_tokens_bounds}
use nimbus_mesh_x.Workload.Counted.{IsUntraced, at_most, capped, generate_requests-length}
use nimbus_mesh_x.Tests.Data.{
  cluster_spec, no_snapshot, request, plane, alone, topology, workload, tokens,
}

cost_ok : is_ok (shortest_path_cost "gateway:east" "pool:east:pool-a" topology.adjacency) ≡ true
unfolding ◌+ℤ◌ ◌-ℤ◌ lookup get_or insert delete insert_sorted sort show show_padded max min sum
    minimum sla_priority sla_text normalize_sla_class model_scale estimate_request_memory_gb
    session_or_anon stable_prefix_signature positive both token_counts derived_signature
    make_request total_tokens init_slots refresh inflight_count earliest_slot queue_delay_ms
    memory_headroom_gb effective_congestion unavailable estimated_total_latency_ms key_of
    evict_buckets evict_stale hydrated payload_entries hydrate_from_redis bucket_of location_bonus
    freshness hit_ratio better best_entry prepare score reserved_gb offload_recommendation snapshot
    touch_bucket cap_bucket total_entries items has_tie sort_items remove_entry drop_victim
    trim_loop trim persist_to_redis store_bucket observe write_decision write_cache_affinity
    fetch_cache_affinity backend_text find_backend mock_latency_ms vllm_latency_ms triton_latency_ms
    estimate_latency_ms argmin earliest_index start_ts occupy latency_of memory_of completion_of
    placed_result place_request available_candidates least min_by tuple_lt least_queue_key
    topology_greedy_key cache_aware_key latency_weight cost_weight premium_penalty
    multi_objective_key sb3_key gnn_key pyg_key spread_lt bandit_score prefers note_choice
    choose_in_turn choose_best choose reward observe_result policy_name link_of row_of snapshot_of
    positives overall_affinity average_cost pool_node_id add_edge tier_score add_pool add_pools
    add_gateway add_probe add_clusters add_routes add_network build_topology pop_least push_edge
    relax search edge_count shortest_path_cost pool_affinity route_cost total_completed
    model_supported fairness_penalty rejection_of build_candidate pool_candidates cluster_candidates
    enrich build_candidates in_range grpc_choose cpp_choose choose_candidate decision_of route
    find_pool put_pool rejected_result settle admit execute interpolate quantile jains_index draw
    weighted_choice even_arrivals bursty_arrival bursty_arrivals poisson_arrivals generate_arrivals
    token_value sample_tokens new_session pick_session token_salt generate_request requests_at
    drawn_requests generate_requests
cost_ok = refl

abbrev cost : ℤ
cost =
    (value_of (shortest_path_cost "gateway:east" "pool:east:pool-a" topology.adjacency) cost_ok).0

shortest_path_cost-Walk_example :
    (cost ≡ fixed_float.infinity) ⊎ Walk topology.adjacency "gateway:east" "pool:east:pool-a" cost
shortest_path_cost-Walk_example =
    shortest_path_cost-Walk topology.adjacency "gateway:east" "pool:east:pool-a" cost
      (value_of (shortest_path_cost "gateway:east" "pool:east:pool-a" topology.adjacency) cost_ok).1

shortest_path_cost_total_example :
    (c : ℤ) × (shortest_path_cost "gateway:east" "pool:east:pool-a" topology.adjacency ≡ ok c)
shortest_path_cost_total_example =
    shortest_path_cost_total topology.adjacency "pool:east:pool-a" "gateway:east"

abbrev hop : String → String → ℤ → TopologyLink ℤ
hop source target cost = record {
  source = source;
  target = target;
  bandwidth_gbps = of_ℕ 800;
  latency_us = of_ℕ 8;
  cost = cost;
}

-- Two ways from "a" to "b", of which the longer one is cheaper.
abbrev two_ways : Topology ℤ
two_ways = record {
  nodes = [];
  adjacency =
      ("a", hop "a" "b" (decimal 5 1) ∷ hop "a" "c" (decimal 1 1) ∷ [])
      ∷ ("c", hop "c" "b" (decimal 2 1) ∷ [])
      ∷ [];
  cluster_gateways = [];
  cluster_probe_affinity = [];
  cluster_probe_cost_factor = [];
}

two_ways-HasCosts : HasCosts two_ways
two_ways-HasCosts = ((refl, (refl, tt)), ((refl, tt), tt))

two_hops : shortest_path_cost "a" "b" two_ways.adjacency ≡ ok (decimal 3 1)
unfolding ◌+ℤ◌ ◌-ℤ◌ lookup get_or insert delete insert_sorted sort show show_padded max min sum
    minimum sla_priority sla_text normalize_sla_class model_scale estimate_request_memory_gb
    session_or_anon stable_prefix_signature positive both token_counts derived_signature
    make_request total_tokens init_slots refresh inflight_count earliest_slot queue_delay_ms
    memory_headroom_gb effective_congestion unavailable estimated_total_latency_ms key_of
    evict_buckets evict_stale hydrated payload_entries hydrate_from_redis bucket_of location_bonus
    freshness hit_ratio better best_entry prepare score reserved_gb offload_recommendation snapshot
    touch_bucket cap_bucket total_entries items has_tie sort_items remove_entry drop_victim
    trim_loop trim persist_to_redis store_bucket observe write_decision write_cache_affinity
    fetch_cache_affinity backend_text find_backend mock_latency_ms vllm_latency_ms triton_latency_ms
    estimate_latency_ms argmin earliest_index start_ts occupy latency_of memory_of completion_of
    placed_result place_request available_candidates least min_by tuple_lt least_queue_key
    topology_greedy_key cache_aware_key latency_weight cost_weight premium_penalty
    multi_objective_key sb3_key gnn_key pyg_key spread_lt bandit_score prefers note_choice
    choose_in_turn choose_best choose reward observe_result policy_name link_of row_of snapshot_of
    positives overall_affinity average_cost pool_node_id add_edge tier_score add_pool add_pools
    add_gateway add_probe add_clusters add_routes add_network build_topology pop_least push_edge
    relax search edge_count shortest_path_cost pool_affinity route_cost total_completed
    model_supported fairness_penalty rejection_of build_candidate pool_candidates cluster_candidates
    enrich build_candidates in_range grpc_choose cpp_choose choose_candidate decision_of route
    find_pool put_pool rejected_result settle admit execute interpolate quantile jains_index draw
    weighted_choice even_arrivals bursty_arrival bursty_arrivals poisson_arrivals generate_arrivals
    token_value sample_tokens new_session pick_session token_salt generate_request requests_at
    drawn_requests generate_requests
two_hops = refl

direct : Walk two_ways.adjacency "a" "b" (decimal 5 1)
unfolding ◌+ℤ◌ ◌-ℤ◌ lookup get_or insert delete insert_sorted sort show show_padded max min sum
    minimum sla_priority sla_text normalize_sla_class model_scale estimate_request_memory_gb
    session_or_anon stable_prefix_signature positive both token_counts derived_signature
    make_request total_tokens init_slots refresh inflight_count earliest_slot queue_delay_ms
    memory_headroom_gb effective_congestion unavailable estimated_total_latency_ms key_of
    evict_buckets evict_stale hydrated payload_entries hydrate_from_redis bucket_of location_bonus
    freshness hit_ratio better best_entry prepare score reserved_gb offload_recommendation snapshot
    touch_bucket cap_bucket total_entries items has_tie sort_items remove_entry drop_victim
    trim_loop trim persist_to_redis store_bucket observe write_decision write_cache_affinity
    fetch_cache_affinity backend_text find_backend mock_latency_ms vllm_latency_ms triton_latency_ms
    estimate_latency_ms argmin earliest_index start_ts occupy latency_of memory_of completion_of
    placed_result place_request available_candidates least min_by tuple_lt least_queue_key
    topology_greedy_key cache_aware_key latency_weight cost_weight premium_penalty
    multi_objective_key sb3_key gnn_key pyg_key spread_lt bandit_score prefers note_choice
    choose_in_turn choose_best choose reward observe_result policy_name link_of row_of snapshot_of
    positives overall_affinity average_cost pool_node_id add_edge tier_score add_pool add_pools
    add_gateway add_probe add_clusters add_routes add_network build_topology pop_least push_edge
    relax search edge_count shortest_path_cost pool_affinity route_cost total_completed
    model_supported fairness_penalty rejection_of build_candidate pool_candidates cluster_candidates
    enrich build_candidates in_range grpc_choose cpp_choose choose_candidate decision_of route
    find_pool put_pool rejected_result settle admit execute interpolate quantile jains_index draw
    weighted_choice even_arrivals bursty_arrival bursty_arrivals poisson_arrivals generate_arrivals
    token_value sample_tokens new_session pick_session token_salt generate_request requests_at
    drawn_requests generate_requests
direct = along start (hop "a" "b" (decimal 5 1)) (inl refl)

shortest_path_cost-le_example : decimal 3 1 ≼ decimal {F = ℤ} 5 1
shortest_path_cost-le_example =
    shortest_path_cost-le Fixed-IsFloat two_ways.adjacency "a" "b"
      (edges_of-All two_ways two_ways-HasCosts) (decimal 3 1) (decimal 5 1) two_hops direct refl

built_ok : is_ok (build_topology no_snapshot (cluster_spec ∷ [])) ≡ true
unfolding ◌+ℤ◌ ◌-ℤ◌ lookup get_or insert delete insert_sorted sort show show_padded max min sum
    minimum sla_priority sla_text normalize_sla_class model_scale estimate_request_memory_gb
    session_or_anon stable_prefix_signature positive both token_counts derived_signature
    make_request total_tokens init_slots refresh inflight_count earliest_slot queue_delay_ms
    memory_headroom_gb effective_congestion unavailable estimated_total_latency_ms key_of
    evict_buckets evict_stale hydrated payload_entries hydrate_from_redis bucket_of location_bonus
    freshness hit_ratio better best_entry prepare score reserved_gb offload_recommendation snapshot
    touch_bucket cap_bucket total_entries items has_tie sort_items remove_entry drop_victim
    trim_loop trim persist_to_redis store_bucket observe write_decision write_cache_affinity
    fetch_cache_affinity backend_text find_backend mock_latency_ms vllm_latency_ms triton_latency_ms
    estimate_latency_ms argmin earliest_index start_ts occupy latency_of memory_of completion_of
    placed_result place_request available_candidates least min_by tuple_lt least_queue_key
    topology_greedy_key cache_aware_key latency_weight cost_weight premium_penalty
    multi_objective_key sb3_key gnn_key pyg_key spread_lt bandit_score prefers note_choice
    choose_in_turn choose_best choose reward observe_result policy_name link_of row_of snapshot_of
    positives overall_affinity average_cost pool_node_id add_edge tier_score add_pool add_pools
    add_gateway add_probe add_clusters add_routes add_network build_topology pop_least push_edge
    relax search edge_count shortest_path_cost pool_affinity route_cost total_completed
    model_supported fairness_penalty rejection_of build_candidate pool_candidates cluster_candidates
    enrich build_candidates in_range grpc_choose cpp_choose choose_candidate decision_of route
    find_pool put_pool rejected_result settle admit execute interpolate quantile jains_index draw
    weighted_choice even_arrivals bursty_arrival bursty_arrivals poisson_arrivals generate_arrivals
    token_value sample_tokens new_session pick_session token_salt generate_request requests_at
    drawn_requests generate_requests
built_ok = refl

abbrev built : Topology ℤ
built = (value_of (build_topology no_snapshot (cluster_spec ∷ [])) built_ok).0

build_topology-HasCosts_example : HasCosts built
build_topology-HasCosts_example =
    build_topology-HasCosts Fixed-IsFloat no_snapshot (cluster_spec ∷ []) built (tt, tt)
      (value_of (build_topology no_snapshot (cluster_spec ∷ [])) built_ok).1

quantile_total_example : (v : ℤ) × (quantile (of_ℕ 3 ∷ of_ℕ 1 ∷ of_ℕ 2 ∷ []) (decimal 95 2) ≡ ok v)
quantile_total_example =
    quantile_total Fixed-IsFloat (of_ℕ 3 ∷ of_ℕ 1 ∷ of_ℕ 2 ∷ []) (decimal 95 2) refl refl
      (omega arith)

-- Draws that are always the same.
abbrev rng : Random ℤ ℕ
rng = record {
  random = λ r. (decimal 5 1, suc r);
  uniform = λ a b r. (a, suc r);
  gauss = λ m s r. (m, suc r);
  lognormvariate = λ m s r. (m, suc r);
  expovariate = λ rate r. (of_ℕ 1, suc r);
  choices = λ weights r. (0, suc r);
  choice = λ n r. (0, suc r);
  log = λ x. x;
}

abbrev seeded : GeneratorState ℕ
seeded = record { sessions = []; random = 7 }

abbrev digest : String → String
digest text = text

-- No file can be read.
abbrev no_trace : String → Result (List (TraceRow ℤ))
no_trace path = err key_error

generated_ok : is_ok (generate_requests rng digest no_trace workload seeded) ≡ true
unfolding ◌+ℤ◌ ◌-ℤ◌ lookup get_or insert delete insert_sorted sort show show_padded max min sum
    minimum sla_priority sla_text normalize_sla_class model_scale estimate_request_memory_gb
    session_or_anon stable_prefix_signature positive both token_counts derived_signature
    make_request total_tokens init_slots refresh inflight_count earliest_slot queue_delay_ms
    memory_headroom_gb effective_congestion unavailable estimated_total_latency_ms key_of
    evict_buckets evict_stale hydrated payload_entries hydrate_from_redis bucket_of location_bonus
    freshness hit_ratio better best_entry prepare score reserved_gb offload_recommendation snapshot
    touch_bucket cap_bucket total_entries items has_tie sort_items remove_entry drop_victim
    trim_loop trim persist_to_redis store_bucket observe write_decision write_cache_affinity
    fetch_cache_affinity backend_text find_backend mock_latency_ms vllm_latency_ms triton_latency_ms
    estimate_latency_ms argmin earliest_index start_ts occupy latency_of memory_of completion_of
    placed_result place_request available_candidates least min_by tuple_lt least_queue_key
    topology_greedy_key cache_aware_key latency_weight cost_weight premium_penalty
    multi_objective_key sb3_key gnn_key pyg_key spread_lt bandit_score prefers note_choice
    choose_in_turn choose_best choose reward observe_result policy_name link_of row_of snapshot_of
    positives overall_affinity average_cost pool_node_id add_edge tier_score add_pool add_pools
    add_gateway add_probe add_clusters add_routes add_network build_topology pop_least push_edge
    relax search edge_count shortest_path_cost pool_affinity route_cost total_completed
    model_supported fairness_penalty rejection_of build_candidate pool_candidates cluster_candidates
    enrich build_candidates in_range grpc_choose cpp_choose choose_candidate decision_of route
    find_pool put_pool rejected_result settle admit execute interpolate quantile jains_index draw
    weighted_choice even_arrivals bursty_arrival bursty_arrivals poisson_arrivals generate_arrivals
    token_value sample_tokens new_session pick_session token_salt generate_request requests_at
    drawn_requests generate_requests
generated_ok = refl

abbrev generated : List (InferenceRequest ℤ) × GeneratorState ℕ
generated = (value_of (generate_requests rng digest no_trace workload seeded) generated_ok).0

generate_requests-length_example :
    IsUntraced workload.trace_path × (length generated.0 ≡ 2)
    ⊎ ((path : String) × (rows : List (TraceRow ℤ)) × (workload.trace_path ≡ some path)
        × ((path == "") ≡ false)
        × (no_trace path ≡ ok rows)
        × (length generated.0 ≡ capped 2 (at_most workload.trace_limit (length rows))))
generate_requests-length_example =
    generate_requests-length rng digest workload no_trace seeded generated
      (value_of (generate_requests rng digest no_trace workload seeded) generated_ok).1

sample_tokens_bounds_example :
    (10 ≤ (sample_tokens rng tokens 7).0) × ((sample_tokens rng tokens 7).0 ≤ 200)
sample_tokens_bounds_example =
    sample_tokens_bounds rng Fixed-IsFloat tokens 7 (omega arith) (omega arith)

abbrev pub engine : EngineState ℤ
engine = record {
  control_plane = plane;
  metrics = empty_metrics;
  azure = record {
    available = true;
    ray_queue_enabled = false;
    submitted = 0;
    completed = 0;
    cluster_costs = [];
    batch_log = [];
    monitor_log = [];
    cost_log = [];
  };
  outputs = record {
    config_name = "test";
    decision_log_path = none;
    files = [];
    store = record { enabled = true; experiment_results = []; experiment_summaries = [] };
  };
}

ran_ok : is_ok (run_requests alone (request ∷ request ∷ []) engine) ≡ true
unfolding ◌+ℤ◌ ◌-ℤ◌ lookup get_or insert delete insert_sorted sort show show_padded max min sum
    minimum sla_priority sla_text normalize_sla_class model_scale estimate_request_memory_gb
    session_or_anon stable_prefix_signature positive both token_counts derived_signature
    make_request total_tokens init_slots refresh inflight_count earliest_slot queue_delay_ms
    memory_headroom_gb effective_congestion unavailable estimated_total_latency_ms key_of
    evict_buckets evict_stale hydrated payload_entries hydrate_from_redis bucket_of location_bonus
    freshness hit_ratio better best_entry prepare score reserved_gb offload_recommendation snapshot
    touch_bucket cap_bucket total_entries items has_tie sort_items remove_entry drop_victim
    trim_loop trim persist_to_redis store_bucket observe write_decision write_cache_affinity
    fetch_cache_affinity backend_text find_backend mock_latency_ms vllm_latency_ms triton_latency_ms
    estimate_latency_ms argmin earliest_index start_ts occupy latency_of memory_of completion_of
    placed_result place_request available_candidates least min_by tuple_lt least_queue_key
    topology_greedy_key cache_aware_key latency_weight cost_weight premium_penalty
    multi_objective_key sb3_key gnn_key pyg_key spread_lt bandit_score prefers note_choice
    choose_in_turn choose_best choose reward observe_result policy_name link_of row_of snapshot_of
    positives overall_affinity average_cost pool_node_id add_edge tier_score add_pool add_pools
    add_gateway add_probe add_clusters add_routes add_network build_topology pop_least push_edge
    relax search edge_count shortest_path_cost pool_affinity route_cost total_completed
    model_supported fairness_penalty rejection_of build_candidate pool_candidates cluster_candidates
    enrich build_candidates in_range grpc_choose cpp_choose choose_candidate decision_of route
    find_pool put_pool rejected_result settle admit execute interpolate quantile jains_index draw
    weighted_choice even_arrivals bursty_arrival bursty_arrivals poisson_arrivals generate_arrivals
    token_value sample_tokens new_session pick_session token_salt generate_request requests_at
    drawn_requests generate_requests refresh_plane refresh_clusters refresh_pools note_request
    store_decision step run_requests record_result note_submission record_azure note_batch
    write_outputs
ran_ok = refl

abbrev ran : EngineState ℤ
ran = (value_of (run_requests alone (request ∷ request ∷ []) engine) ran_ok).0

engine-Agree : Agree engine
unfolding total_completed admitted_results
engine-Agree = record {
  completions = refl;
  submissions = refl;
  batch_completions = refl;
  simulated = refl;
}

run_requests-Agree_example :
    Agree ran × (length ran.metrics.results ≡ length engine.metrics.results + 2)
run_requests-Agree_example =
    run_requests-Agree alone (request ∷ request ∷ []) engine ran engine-Agree
      (value_of (run_requests alone (request ∷ request ∷ []) engine) ran_ok).1

engine-IsLogged : IsLogged engine
unfolding ◌+ℤ◌ ◌-ℤ◌ lookup get_or insert delete insert_sorted sort show show_padded max min sum
    minimum sla_priority sla_text normalize_sla_class model_scale estimate_request_memory_gb
    session_or_anon stable_prefix_signature positive both token_counts derived_signature
    make_request total_tokens init_slots refresh inflight_count earliest_slot queue_delay_ms
    memory_headroom_gb effective_congestion unavailable estimated_total_latency_ms key_of
    evict_buckets evict_stale hydrated payload_entries hydrate_from_redis bucket_of location_bonus
    freshness hit_ratio better best_entry prepare score reserved_gb offload_recommendation snapshot
    touch_bucket cap_bucket total_entries items has_tie sort_items remove_entry drop_victim
    trim_loop trim persist_to_redis store_bucket observe write_decision write_cache_affinity
    fetch_cache_affinity backend_text find_backend mock_latency_ms vllm_latency_ms triton_latency_ms
    estimate_latency_ms argmin earliest_index start_ts occupy latency_of memory_of completion_of
    placed_result place_request available_candidates least min_by tuple_lt least_queue_key
    topology_greedy_key cache_aware_key latency_weight cost_weight premium_penalty
    multi_objective_key sb3_key gnn_key pyg_key spread_lt bandit_score prefers note_choice
    choose_in_turn choose_best choose reward observe_result policy_name link_of row_of snapshot_of
    positives overall_affinity average_cost pool_node_id add_edge tier_score add_pool add_pools
    add_gateway add_probe add_clusters add_routes add_network build_topology pop_least push_edge
    relax search edge_count shortest_path_cost pool_affinity route_cost total_completed
    model_supported fairness_penalty rejection_of build_candidate pool_candidates cluster_candidates
    enrich build_candidates in_range grpc_choose cpp_choose choose_candidate decision_of route
    find_pool put_pool rejected_result settle admit execute interpolate quantile jains_index draw
    weighted_choice even_arrivals bursty_arrival bursty_arrivals poisson_arrivals generate_arrivals
    token_value sample_tokens new_session pick_session token_salt generate_request requests_at
    drawn_requests generate_requests
engine-IsLogged = record {
  apart = tt;
  mirrored = record { scheduler = refl; topology = refl; latency = refl; cache = refl };
  scheduled = refl;
  hits = refl;
  stored = refl;
}

run_requests-IsLogged_example : IsLogged ran
run_requests-IsLogged_example =
    run_requests-IsLogged alone (request ∷ request ∷ []) engine ran engine-IsLogged
      (value_of (run_requests alone (request ∷ request ∷ []) engine) ran_ok).1
