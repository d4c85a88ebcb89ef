-- ===== src/Tests/Plane.antt =====
-- Requests that the control plane routes and executes.
use nimbus_mesh_x.Base.Dict.{lookup, get_or, insert, delete}
use nimbus_mesh_x.Base.Sort.{insert_sorted, sort}
use nimbus_mesh_x.Float.{max, min, sum, minimum, of_ℕ, ◌≼◌}
use nimbus_mesh_x.Types.{
  sla_priority, sla_text, normalize_sla_class, model_scale, estimate_request_memory_gb, init_slots,
  refresh, inflight_count, earliest_slot, queue_delay_ms, memory_headroom_gb, effective_congestion,
  unavailable, estimated_total_latency_ms, RequestResult, CandidatePlacement, queue_full,
}
use nimbus_mesh_x.Cache.{
  Directory, key_of, evict_buckets, evict_stale, hydrated, payload_entries, hydrate_from_redis,
  bucket_of, location_bonus, freshness, hit_ratio, better, best_entry, prepare, score, reserved_gb,
  offload_recommendation, snapshot, touch_bucket, cap_bucket, total_entries, items, has_tie,
  sort_items, remove_entry, drop_victim, trim_loop, trim, persist_to_redis, store_bucket, observe,
}
use nimbus_mesh_x.Storage.{write_decision, write_cache_affinity, fetch_cache_affinity}
use nimbus_mesh_x.Backends.{
  backend_text, find_backend, mock_latency_ms, vllm_latency_ms, triton_latency_ms,
  estimate_latency_ms, mock,
}
use nimbus_mesh_x.Scheduler.{
  argmin, earliest_index, start_ts, occupy, latency_of, memory_of, completion_of, placed_result,
  place_request,
}
use nimbus_mesh_x.Policies.{
  available_candidates, least, min_by, tuple_lt, least_queue_key, topology_greedy_key,
  cache_aware_key, latency_weight, cost_weight, premium_penalty, multi_objective_key, sb3_key,
  gnn_key, pyg_key, spread_lt, bandit_score, prefers, note_choice, choose_in_turn, choose_best,
  choose, reward, observe_result, policy_name, pool_key, least_queue, Policy,
}
use nimbus_mesh_x.Topology.{
  pool_node_id, add_edge, tier_score, add_pool, add_pools, add_gateway, add_probe, add_clusters,
  add_routes, add_network, build_topology, pop_least, push_edge, relax, search, edge_count,
  shortest_path_cost, pool_affinity, route_cost,
}
use nimbus_mesh_x.ControlPlane.{
  total_completed, model_supported, fairness_penalty, rejection_of, build_candidate,
  pool_candidates, cluster_candidates, enrich, build_candidates, in_range, grpc_choose, cpp_choose,
  choose_candidate, decision_of, route, find_pool, put_pool, rejected_result, settle, admit,
  execute, ControlPlane, Routers, Router, Scratch, stats_of, is_none,
}
use nimbus_mesh_x.Base.{
  subst, ℕ, false, ◌≡◌, ◌<◌, ◌≢◌, ◌↔◌, refl, arith, List, [], ◌∷◌, map, All, Elem, inl, true, false,
  ◌==◌, ◌&&◌, string_eq, of_Bool, ◌+◌, is_ok, value_of, ok, some, get_or as get_at,
}
use nimbus_mesh_x.Base.Int.{ℤ, pos, negsuc, ◌+ℤ◌, ◌-ℤ◌}
use nimbus_mesh_x.Float.Fixed.{fixed_float}
use nimbus_mesh_x.ControlPlane.Rejecting.{candidate_available, needed_memory}
use nimbus_mesh_x.ControlPlane.Routed.{queue_limit_never, build_candidates-ids, all_pool_ids}
use nimbus_mesh_x.ControlPlane.Answered.{Answers, choose_candidate_total}
use mathlib.Core.Option.{some-injective}
use nimbus_mesh_x.ControlPlane.Total.{IsServed, build_candidates_total}
use nimbus_mesh_x.ControlPlane.Accounts.{execute_rejected, execute_accounts, execute_admits}
use nimbus_mesh_x.Tests.Data.{request, plane, alone, cluster, pool, candidate, directory, topology}

built_ok : is_ok (build_candidates request (of_ℕ 5) plane) ≡ true
unfolding ◌+ℤ◌ ◌-ℤ◌ lookup get_or insert delete insert_sorted sort max min sum minimum sla_priority
    sla_text normalize_sla_class model_scale estimate_request_memory_gb init_slots refresh
    inflight_count earliest_slot queue_delay_ms memory_headroom_gb effective_congestion unavailable
    estimated_total_latency_ms key_of evict_buckets evict_stale hydrated payload_entries
    hydrate_from_redis bucket_of location_bonus freshness hit_ratio better best_entry prepare score
    reserved_gb offload_recommendation snapshot touch_bucket cap_bucket total_entries items has_tie
    sort_items remove_entry drop_victim trim_loop trim persist_to_redis store_bucket observe
    write_decision write_cache_affinity fetch_cache_affinity backend_text find_backend
    mock_latency_ms vllm_latency_ms triton_latency_ms estimate_latency_ms argmin earliest_index
    start_ts occupy latency_of memory_of completion_of placed_result place_request
    available_candidates least min_by tuple_lt least_queue_key topology_greedy_key cache_aware_key
    latency_weight cost_weight premium_penalty multi_objective_key sb3_key gnn_key pyg_key spread_lt
    bandit_score prefers note_choice choose_in_turn choose_best choose reward observe_result
    policy_name pool_node_id add_edge tier_score add_pool add_pools add_gateway add_probe
    add_clusters add_routes add_network build_topology pop_least push_edge relax search edge_count
    shortest_path_cost pool_affinity route_cost total_completed model_supported fairness_penalty
    rejection_of build_candidate pool_candidates cluster_candidates enrich build_candidates in_range
    grpc_choose cpp_choose choose_candidate decision_of route find_pool put_pool rejected_result
    settle admit execute
built_ok = refl

abbrev built : List (CandidatePlacement ℤ) × ControlPlane ℤ
built = (value_of (build_candidates request (of_ℕ 5) plane) built_ok).0

built_is : build_candidates request (of_ℕ 5) plane ≡ ok built
built_is = (value_of (build_candidates request (of_ℕ 5) plane) built_ok).1

abbrev first : CandidatePlacement ℤ
first = get_at built.0 0 candidate

first-Elem : Elem first built.0
unfolding ◌+ℤ◌ ◌-ℤ◌ lookup get_or insert delete insert_sorted sort max min sum minimum sla_priority
    sla_text normalize_sla_class model_scale estimate_request_memory_gb init_slots refresh
    inflight_count earliest_slot queue_delay_ms memory_headroom_gb effective_congestion unavailable
    estimated_total_latency_ms key_of evict_buckets evict_stale hydrated payload_entries
    hydrate_from_redis bucket_of location_bonus freshness hit_ratio better best_entry prepare score
    reserved_gb offload_recommendation snapshot touch_bucket cap_bucket total_entries items has_tie
    sort_items remove_entry drop_victim trim_loop trim persist_to_redis store_bucket observe
    write_decision write_cache_affinity fetch_cache_affinity backend_text find_backend
    mock_latency_ms vllm_latency_ms triton_latency_ms estimate_latency_ms argmin earliest_index
    start_ts occupy latency_of memory_of completion_of placed_result place_request
    available_candidates least min_by tuple_lt least_queue_key topology_greedy_key cache_aware_key
    latency_weight cost_weight premium_penalty multi_objective_key sb3_key gnn_key pyg_key spread_lt
    bandit_score prefers note_choice choose_in_turn choose_best choose reward observe_result
    policy_name pool_node_id add_edge tier_score add_pool add_pools add_gateway add_probe
    add_clusters add_routes add_network build_topology pop_least push_edge relax search edge_count
    shortest_path_cost pool_affinity route_cost total_completed model_supported fairness_penalty
    rejection_of build_candidate pool_candidates cluster_candidates enrich build_candidates in_range
    grpc_choose cpp_choose choose_candidate decision_of route find_pool put_pool rejected_result
    settle admit execute
first-Elem = inl refl

first_available : first.available ≡ true
unfolding ◌+ℤ◌ ◌-ℤ◌ lookup get_or insert delete insert_sorted sort max min sum minimum sla_priority
    sla_text normalize_sla_class model_scale estimate_request_memory_gb init_slots refresh
    inflight_count earliest_slot queue_delay_ms memory_headroom_gb effective_congestion unavailable
    estimated_total_latency_ms key_of evict_buckets evict_stale hydrated payload_entries
    hydrate_from_redis bucket_of location_bonus freshness hit_ratio better best_entry prepare score
    reserved_gb offload_recommendation snapshot touch_bucket cap_bucket total_entries items has_tie
    sort_items remove_entry drop_victim trim_loop trim persist_to_redis store_bucket observe
    write_decision write_cache_affinity fetch_cache_affinity backend_text find_backend
    mock_latency_ms vllm_latency_ms triton_latency_ms estimate_latency_ms argmin earliest_index
    start_ts occupy latency_of memory_of completion_of placed_result place_request
    available_candidates least min_by tuple_lt least_queue_key topology_greedy_key cache_aware_key
    latency_weight cost_weight premium_penalty multi_objective_key sb3_key gnn_key pyg_key spread_lt
    bandit_score prefers note_choice choose_in_turn choose_best choose reward observe_result
    policy_name pool_node_id add_edge tier_score add_pool add_pools add_gateway add_probe
    add_clusters add_routes add_network build_topology pop_least push_edge relax search edge_count
    shortest_path_cost pool_affinity route_cost total_completed model_supported fairness_penalty
    rejection_of build_candidate pool_candidates cluster_candidates enrich build_candidates in_range
    grpc_choose cpp_choose choose_candidate decision_of route find_pool put_pool rejected_result
    settle admit execute
first_available = refl

executed_ok : is_ok (execute alone request (of_ℕ 5) plane) ≡ true
unfolding ◌+ℤ◌ ◌-ℤ◌ lookup get_or insert delete insert_sorted sort max min sum minimum sla_priority
    sla_text normalize_sla_class model_scale estimate_request_memory_gb init_slots refresh
    inflight_count earliest_slot queue_delay_ms memory_headroom_gb effective_congestion unavailable
    estimated_total_latency_ms key_of evict_buckets evict_stale hydrated payload_entries
    hydrate_from_redis bucket_of location_bonus freshness hit_ratio better best_entry prepare score
    reserved_gb offload_recommendation snapshot touch_bucket cap_bucket total_entries items has_tie
    sort_items remove_entry drop_victim trim_loop trim persist_to_redis store_bucket observe
    write_decision write_cache_affinity fetch_cache_affinity backend_text find_backend
    mock_latency_ms vllm_latency_ms triton_latency_ms estimate_latency_ms argmin earliest_index
    start_ts occupy latency_of memory_of completion_of placed_result place_request
    available_candidates least min_by tuple_lt least_queue_key topology_greedy_key cache_aware_key
    latency_weight cost_weight premium_penalty multi_objective_key sb3_key gnn_key pyg_key spread_lt
    bandit_score prefers note_choice choose_in_turn choose_best choose reward observe_result
    policy_name pool_node_id add_edge tier_score add_pool add_pools add_gateway add_probe
    add_clusters add_routes add_network build_topology pop_least push_edge relax search edge_count
    shortest_path_cost pool_affinity route_cost total_completed model_supported fairness_penalty
    rejection_of build_candidate pool_candidates cluster_candidates enrich build_candidates in_range
    grpc_choose cpp_choose choose_candidate decision_of route find_pool put_pool rejected_result
    settle admit execute
executed_ok = refl

abbrev executed : RequestResult ℤ × ControlPlane ℤ
executed = (value_of (execute alone request (of_ℕ 5) plane) executed_ok).0

executed_is : execute alone request (of_ℕ 5) plane ≡ ok executed
executed_is = (value_of (execute alone request (of_ℕ 5) plane) executed_ok).1

execute_admits_example : executed.0.admitted ≡ true
execute_admits_example =
    execute_admits request (of_ℕ 5) plane built.1 built.0 first executed.1 executed.0 built_is
      first-Elem first_available executed_is

execute_accounts_example :
    ((stats_of "tenant-a" executed.1.tenant_stats).submitted
      ≡ (stats_of "tenant-a" plane.tenant_stats).submitted)
    × ((stats_of "tenant-a" executed.1.tenant_stats).completed
        ≡ (stats_of "tenant-a" plane.tenant_stats).completed
          + of_Bool (executed.0.admitted && "tenant-a" == request.tenant_id))
    × (total_completed executed.1.tenant_stats
        ≡ total_completed plane.tenant_stats + of_Bool executed.0.admitted)
execute_accounts_example =
    execute_accounts alone request (of_ℕ 5) plane executed.1 executed.0 "tenant-a" executed_is

-- The same with the cluster in a failure window.
abbrev failed : ControlPlane ℤ
failed = record plane {
  clusters = ("east", record cluster { failure_windows = (of_ℕ 0, of_ℕ 10) ∷ [] }) ∷ [];
}

refused_ok : is_ok (execute alone request (of_ℕ 5) failed) ≡ true
unfolding ◌+ℤ◌ ◌-ℤ◌ lookup get_or insert delete insert_sorted sort max min sum minimum sla_priority
    sla_text normalize_sla_class model_scale estimate_request_memory_gb init_slots refresh
    inflight_count earliest_slot queue_delay_ms memory_headroom_gb effective_congestion unavailable
    estimated_total_latency_ms key_of evict_buckets evict_stale hydrated payload_entries
    hydrate_from_redis bucket_of location_bonus freshness hit_ratio better best_entry prepare score
    reserved_gb offload_recommendation snapshot touch_bucket cap_bucket total_entries items has_tie
    sort_items remove_entry drop_victim trim_loop trim persist_to_redis store_bucket observe
    write_decision write_cache_affinity fetch_cache_affinity backend_text find_backend
    mock_latency_ms vllm_latency_ms triton_latency_ms estimate_latency_ms argmin earliest_index
    start_ts occupy latency_of memory_of completion_of placed_result place_request
    available_candidates least min_by tuple_lt least_queue_key topology_greedy_key cache_aware_key
    latency_weight cost_weight premium_penalty multi_objective_key sb3_key gnn_key pyg_key spread_lt
    bandit_score prefers note_choice choose_in_turn choose_best choose reward observe_result
    policy_name pool_node_id add_edge tier_score add_pool add_pools add_gateway add_probe
    add_clusters add_routes add_network build_topology pop_least push_edge relax search edge_count
    shortest_path_cost pool_affinity route_cost total_completed model_supported fairness_penalty
    rejection_of build_candidate pool_candidates cluster_candidates enrich build_candidates in_range
    grpc_choose cpp_choose choose_candidate decision_of route find_pool put_pool rejected_result
    settle admit execute
refused_ok = refl

abbrev refused : RequestResult ℤ × ControlPlane ℤ
refused = (value_of (execute alone request (of_ℕ 5) failed) refused_ok).0

refused_is : execute alone request (of_ℕ 5) failed ≡ ok refused
refused_is = (value_of (execute alone request (of_ℕ 5) failed) refused_ok).1

not_admitted : refused.0.admitted ≡ false
unfolding ◌+ℤ◌ ◌-ℤ◌ lookup get_or insert delete insert_sorted sort max min sum minimum sla_priority
    sla_text normalize_sla_class model_scale estimate_request_memory_gb init_slots refresh
    inflight_count earliest_slot queue_delay_ms memory_headroom_gb effective_congestion unavailable
    estimated_total_latency_ms key_of evict_buckets evict_stale hydrated payload_entries
    hydrate_from_redis bucket_of location_bonus freshness hit_ratio better best_entry prepare score
    reserved_gb offload_recommendation snapshot touch_bucket cap_bucket total_entries items has_tie
    sort_items remove_entry drop_victim trim_loop trim persist_to_redis store_bucket observe
    write_decision write_cache_affinity fetch_cache_affinity backend_text find_backend
    mock_latency_ms vllm_latency_ms triton_latency_ms estimate_latency_ms argmin earliest_index
    start_ts occupy latency_of memory_of completion_of placed_result place_request
    available_candidates least min_by tuple_lt least_queue_key topology_greedy_key cache_aware_key
    latency_weight cost_weight premium_penalty multi_objective_key sb3_key gnn_key pyg_key spread_lt
    bandit_score prefers note_choice choose_in_turn choose_best choose reward observe_result
    policy_name pool_node_id add_edge tier_score add_pool add_pools add_gateway add_probe
    add_clusters add_routes add_network build_topology pop_least push_edge relax search edge_count
    shortest_path_cost pool_affinity route_cost total_completed model_supported fairness_penalty
    rejection_of build_candidate pool_candidates cluster_candidates enrich build_candidates in_range
    grpc_choose cpp_choose choose_candidate decision_of route find_pool put_pool rejected_result
    settle admit execute
not_admitted = refl

execute_rejected_example :
    (refused.1.clusters ≡ failed.clusters) × (is_none refused.0.rejection_reason ≡ false)
execute_rejected_example =
    execute_rejected alone request (of_ℕ 5) failed refused.1 refused.0 refused_is not_admitted

queue_limit_never_example : All (λ c. c.rejection_reason ≢ some queue_full) built.0
queue_limit_never_example =
    queue_limit_never request (of_ℕ 5) plane built.1 built.0 ((omega arith, tt), tt) built_is

build_candidates-ids_example : map pool_key built.0 ≡ all_pool_ids plane.clusters
build_candidates-ids_example = build_candidates-ids request (of_ℕ 5) plane built.1 built.0 built_is

answered :
    (known ask : Router ℤ) (i : ℤ)
    → known request (candidate ∷ []) ≡ ok i
    → some known ≡ some ask
    → ask request (candidate ∷ []) ≡ ok i
answered known ask i h e =
    subst (λ (r : Router ℤ). r request (candidate ∷ []) ≡ ok i) (some-injective known ask e) h

-- Schedulers that answer with numbers that are no index.
abbrev strange : Routers ℤ
strange = record {
  grpc_client = some (λ r cs. ok (pos 7));
  cpp_core = some (λ r cs. ok (negsuc 0));
}

grpc-Answers : Answers request (candidate ∷ []) strange.grpc_client
grpc-Answers ask e = (pos 7, answered (λ r cs. ok (pos 7)) ask (pos 7) refl e)

cpp-Answers : Answers request (candidate ∷ []) strange.cpp_core
cpp-Answers ask e = (negsuc 0, answered (λ r cs. ok (negsuc 0)) ask (negsuc 0) refl e)

choose_candidate_total_example :
    (choice : CandidatePlacement ℤ) × (after : Policy ℤ) × (choose_candidate strange least_queue
        request
        (candidate ∷ [])
      ≡ ok (choice, after))
    × Elem choice (candidate ∷ [])
choose_candidate_total_example =
    choose_candidate_total request (candidate ∷ []) strange least_queue grpc-Answers cpp-Answers
      refl

abbrev scratch : Scratch ℤ
scratch = record { directory = directory; tenant_stats = [] }

scored_ok : is_ok (score request "east" "pool-a" (of_ℕ 5) directory) ≡ true
unfolding ◌+ℤ◌ ◌-ℤ◌ lookup get_or insert delete insert_sorted sort max min sum minimum sla_priority
    sla_text normalize_sla_class model_scale estimate_request_memory_gb init_slots refresh
    inflight_count earliest_slot queue_delay_ms memory_headroom_gb effective_congestion unavailable
    estimated_total_latency_ms key_of evict_buckets evict_stale hydrated payload_entries
    hydrate_from_redis bucket_of location_bonus freshness hit_ratio better best_entry prepare score
    reserved_gb offload_recommendation snapshot touch_bucket cap_bucket total_entries items has_tie
    sort_items remove_entry drop_victim trim_loop trim persist_to_redis store_bucket observe
    write_decision write_cache_affinity fetch_cache_affinity backend_text find_backend
    mock_latency_ms vllm_latency_ms triton_latency_ms estimate_latency_ms argmin earliest_index
    start_ts occupy latency_of memory_of completion_of placed_result place_request
    available_candidates least min_by tuple_lt least_queue_key topology_greedy_key cache_aware_key
    latency_weight cost_weight premium_penalty multi_objective_key sb3_key gnn_key pyg_key spread_lt
    bandit_score prefers note_choice choose_in_turn choose_best choose reward observe_result
    policy_name pool_node_id add_edge tier_score add_pool add_pools add_gateway add_probe
    add_clusters add_routes add_network build_topology pop_least push_edge relax search edge_count
    shortest_path_cost pool_affinity route_cost total_completed model_supported fairness_penalty
    rejection_of build_candidate pool_candidates cluster_candidates enrich build_candidates in_range
    grpc_choose cpp_choose choose_candidate decision_of route find_pool put_pool rejected_result
    settle admit execute
scored_ok = refl

abbrev scored : (ℤ × ℕ) × Directory ℤ
scored = (value_of (score request "east" "pool-a" (of_ℕ 5) directory) scored_ok).0

made_ok : is_ok (build_candidate plane request (of_ℕ 5) cluster pool scratch) ≡ true
unfolding ◌+ℤ◌ ◌-ℤ◌ lookup get_or insert delete insert_sorted sort max min sum minimum sla_priority
    sla_text normalize_sla_class model_scale estimate_request_memory_gb init_slots refresh
    inflight_count earliest_slot queue_delay_ms memory_headroom_gb effective_congestion unavailable
    estimated_total_latency_ms key_of evict_buckets evict_stale hydrated payload_entries
    hydrate_from_redis bucket_of location_bonus freshness hit_ratio better best_entry prepare score
    reserved_gb offload_recommendation snapshot touch_bucket cap_bucket total_entries items has_tie
    sort_items remove_entry drop_victim trim_loop trim persist_to_redis store_bucket observe
    write_decision write_cache_affinity fetch_cache_affinity backend_text find_backend
    mock_latency_ms vllm_latency_ms triton_latency_ms estimate_latency_ms argmin earliest_index
    start_ts occupy latency_of memory_of completion_of placed_result place_request
    available_candidates least min_by tuple_lt least_queue_key topology_greedy_key cache_aware_key
    latency_weight cost_weight premium_penalty multi_objective_key sb3_key gnn_key pyg_key spread_lt
    bandit_score prefers note_choice choose_in_turn choose_best choose reward observe_result
    policy_name pool_node_id add_edge tier_score add_pool add_pools add_gateway add_probe
    add_clusters add_routes add_network build_topology pop_least push_edge relax search edge_count
    shortest_path_cost pool_affinity route_cost total_completed model_supported fairness_penalty
    rejection_of build_candidate pool_candidates cluster_candidates enrich build_candidates in_range
    grpc_choose cpp_choose choose_candidate decision_of route find_pool put_pool rejected_result
    settle admit execute
made_ok = refl

abbrev made : CandidatePlacement ℤ × Scratch ℤ
made = (value_of (build_candidate plane request (of_ℕ 5) cluster pool scratch) made_ok).0

candidate_available_example :
    (made.0.available ≡ true)
    ↔ (unavailable (of_ℕ 5) cluster ≡ false)
      × (model_supported "llama-3-8b" pool ≡ true)
      × (inflight_count (of_ℕ 5) pool < 64)
      × (needed_memory request scored.0.1 ≼ memory_headroom_gb pool)
candidate_available_example =
    candidate_available plane request (of_ℕ 5) cluster pool scratch made.1 made.0 scored
      (value_of (score request "east" "pool-a" (of_ℕ 5) directory) scored_ok).1
      (value_of (build_candidate plane request (of_ℕ 5) cluster pool scratch) made_ok).1

pub served : IsServed topology cluster pool
unfolding ◌+ℤ◌ ◌-ℤ◌ lookup get_or insert delete insert_sorted sort max min sum minimum sla_priority
    sla_text normalize_sla_class model_scale estimate_request_memory_gb init_slots refresh
    inflight_count earliest_slot queue_delay_ms memory_headroom_gb effective_congestion unavailable
    estimated_total_latency_ms key_of evict_buckets evict_stale hydrated payload_entries
    hydrate_from_redis bucket_of location_bonus freshness hit_ratio better best_entry prepare score
    reserved_gb offload_recommendation snapshot touch_bucket cap_bucket total_entries items has_tie
    sort_items remove_entry drop_victim trim_loop trim persist_to_redis store_bucket observe
    write_decision write_cache_affinity fetch_cache_affinity backend_text find_backend
    mock_latency_ms vllm_latency_ms triton_latency_ms estimate_latency_ms argmin earliest_index
    start_ts occupy latency_of memory_of completion_of placed_result place_request
    available_candidates least min_by tuple_lt least_queue_key topology_greedy_key cache_aware_key
    latency_weight cost_weight premium_penalty multi_objective_key sb3_key gnn_key pyg_key spread_lt
    bandit_score prefers note_choice choose_in_turn choose_best choose reward observe_result
    policy_name pool_node_id add_edge tier_score add_pool add_pools add_gateway add_probe
    add_clusters add_routes add_network build_topology pop_least push_edge relax search edge_count
    shortest_path_cost pool_affinity route_cost total_completed model_supported fairness_penalty
    rejection_of build_candidate pool_candidates cluster_candidates enrich build_candidates in_range
    grpc_choose cpp_choose choose_candidate decision_of route find_pool put_pool rejected_result
    settle admit execute
served = record {
  gateway = ("gateway:east", refl);
  node = (_, _, refl, refl);
  backend = (mock, refl);
  slots = omega arith;
}

build_candidates_total_example :
    (r : List (CandidatePlacement ℤ) × ControlPlane ℤ) × (build_candidates request (of_ℕ 5) plane
      ≡ ok r)
build_candidates_total_example =
    build_candidates_total plane request (of_ℕ 5) refl ((served, tt), tt)
