-- ===== src/Tests/Pools.antt =====
-- Requests that are made, and placed on a pool.
use nimbus_mesh_x.Base.Dict.{lookup, get_or, insert, delete}
use nimbus_mesh_x.Base.Sort.{insert_sorted, sort}
use nimbus_mesh_x.Float.{max, min, sum, minimum, of_ℕ, decimal, ◌≼◌}
use nimbus_mesh_x.Types.{
  sla_priority, sla_text, normalize_sla_class, model_scale, estimate_request_memory_gb,
  session_or_anon, stable_prefix_signature, positive, both, token_counts, derived_signature,
  make_request, total_tokens, init_slots, refresh, inflight_count, earliest_slot, queue_delay_ms,
  memory_headroom_gb, estimated_total_latency_ms, InferenceRequest, RequestArgs,
}
use nimbus_mesh_x.Cache.{
  key_of, evict_buckets, evict_stale, hydrated, payload_entries, hydrate_from_redis, bucket_of,
  location_bonus, freshness, hit_ratio, better, best_entry, prepare, score, reserved_gb,
  offload_recommendation, snapshot, touch_bucket, cap_bucket, total_entries, items, has_tie,
  sort_items, remove_entry, drop_victim, trim_loop, trim, persist_to_redis, store_bucket, observe,
}
use nimbus_mesh_x.Storage.{write_decision, write_cache_affinity, fetch_cache_affinity}
use nimbus_mesh_x.Backends.{
  backend_text, find_backend, mock_latency_ms, vllm_latency_ms, triton_latency_ms,
  estimate_latency_ms, vllm, mock,
}
use nimbus_mesh_x.Scheduler.{
  argmin, earliest_index, start_ts, occupy, latency_of, memory_of, completion_of, placed_result,
  place_request, Placed,
}
use nimbus_mesh_x.Base.{
  ◌≡◌, ◌+◌, refl, String, [], ◌∷◌, length, All, get_or as get_at, true, is_ok, value_of, ok, none,
}
use nimbus_mesh_x.Base.Int.{ℤ, pos, ◌+ℤ◌, ◌-ℤ◌}
use nimbus_mesh_x.Float.Fixed.{fixed_float, Fixed-IsFloat}
use nimbus_mesh_x.Types.RequestFacts.{IsAccepted, make_request-IsAccepted}
use nimbus_mesh_x.Backends.Bounds.{estimate_latency_nonneg}
use nimbus_mesh_x.Scheduler.Placing.{place_request_starts, place_request_pool}
use nimbus_mesh_x.Tests.Data.{request, pool, candidate, decision, directory}

placed_ok : is_ok (place_request request candidate decision pool mock (of_ℕ 5) directory) ≡ true
unfolding ◌+ℤ◌ ◌-ℤ◌ lookup get_or insert delete insert_sorted sort max min sum minimum sla_priority
    sla_text normalize_sla_class model_scale estimate_request_memory_gb session_or_anon
    stable_prefix_signature positive both token_counts derived_signature make_request total_tokens
    init_slots refresh inflight_count earliest_slot queue_delay_ms memory_headroom_gb
    estimated_total_latency_ms key_of evict_buckets evict_stale hydrated payload_entries
    hydrate_from_redis bucket_of location_bonus freshness hit_ratio better best_entry prepare score
    reserved_gb offload_recommendation snapshot touch_bucket cap_bucket total_entries items has_tie
    sort_items remove_entry drop_victim trim_loop trim persist_to_redis store_bucket observe
    write_decision write_cache_affinity fetch_cache_affinity backend_text find_backend
    mock_latency_ms vllm_latency_ms triton_latency_ms estimate_latency_ms argmin earliest_index
    start_ts occupy latency_of memory_of completion_of placed_result place_request
placed_ok = refl

abbrev placed : Placed ℤ
placed =
    (value_of (place_request request candidate decision pool mock (of_ℕ 5) directory) placed_ok).0

placed_is : place_request request candidate decision pool mock (of_ℕ 5) directory ≡ ok placed
placed_is =
    (value_of (place_request request candidate decision pool mock (of_ℕ 5) directory) placed_ok).1

place_request_starts_example :
    (placed.result.admitted ≡ true)
    × (of_ℕ 5 ≼ placed.result.actual_start_ts)
    × All (λ s. placed.result.actual_start_ts ≼ max (of_ℕ 5) s) pool.slot_available_at
    × (placed.result.actual_start_ts ≼ placed.result.completion_ts)
place_request_starts_example =
    place_request_starts Fixed-IsFloat request candidate decision pool mock (of_ℕ 5) directory
      placed refl refl placed_is

place_request_pool_example :
    (length placed.pool.slot_available_at ≡ 2)
    × (of_ℕ 6 ≼ get_at placed.pool.slot_available_at 1 (of_ℕ 5))
    × (placed.pool.inflight_memory
        ≡ (of_ℕ 7, of_ℕ 1) ∷ (placed.result.completion_ts, memory_of request candidate) ∷ [])
    × (placed.pool.decision_count ≡ 0 + 1)
place_request_pool_example =
    place_request_pool Fixed-IsFloat request candidate decision pool mock (of_ℕ 5) directory placed
      1 refl refl placed_is

estimate_latency_nonneg_example :
    (of_ℕ 0
      ≼ (estimate_latency_ms vllm request pool (decimal 5 1) (of_ℕ 1) (of_ℕ 2) (decimal 1 1)).0)
    × (of_ℕ 0
        ≼ (estimate_latency_ms vllm request pool (decimal 5 1) (of_ℕ 1) (of_ℕ 2) (decimal 1 1)).1)
estimate_latency_nonneg_example =
    estimate_latency_nonneg Fixed-IsFloat vllm request pool (decimal 5 1) (of_ℕ 1) (of_ℕ 2)
      (decimal 1 1) refl refl

abbrev args : RequestArgs ℤ
args = record {
  request_id = "req-000001";
  tenant_id = "tenant-a";
  model_id = "llama-3-8b";
  prompt_tokens = pos 1000;
  generation_tokens = pos 100;
  arrival_ts = of_ℕ 5;
  sla_class = "interactive";
  session_id = none;
  prefix_signature = none;
  max_latency_ms = of_ℕ 1800;
  metadata = [];
}

abbrev digest : String → String
digest text = text

made_ok : is_ok (make_request digest args) ≡ true
unfolding ◌+ℤ◌ ◌-ℤ◌ lookup get_or insert delete insert_sorted sort max min sum minimum sla_priority
    sla_text normalize_sla_class model_scale estimate_request_memory_gb session_or_anon
    stable_prefix_signature positive both token_counts derived_signature make_request total_tokens
    init_slots refresh inflight_count earliest_slot queue_delay_ms memory_headroom_gb
    estimated_total_latency_ms key_of evict_buckets evict_stale hydrated payload_entries
    hydrate_from_redis bucket_of location_bonus freshness hit_ratio better best_entry prepare score
    reserved_gb offload_recommendation snapshot touch_bucket cap_bucket total_entries items has_tie
    sort_items remove_entry drop_victim trim_loop trim persist_to_redis store_bucket observe
    write_decision write_cache_affinity fetch_cache_affinity backend_text find_backend
    mock_latency_ms vllm_latency_ms triton_latency_ms estimate_latency_ms argmin earliest_index
    start_ts occupy latency_of memory_of completion_of placed_result place_request
made_ok = refl

abbrev made : InferenceRequest ℤ
made = (value_of (make_request digest args) made_ok).0

make_request-IsAccepted_example :
    IsAccepted args made.sla_class made.prompt_tokens made.generation_tokens
    × (made.arrival_ts ≡ of_ℕ 5)
    × (made.max_latency_ms ≡ of_ℕ 1800)
    × (made.tenant_id ≡ "tenant-a")
    × (made.model_id ≡ "llama-3-8b")
make_request-IsAccepted_example =
    make_request-IsAccepted digest args made (value_of (make_request digest args) made_ok).1
