-- ===== src/Tests/Caches.antt =====
-- A directory that holds an entry, and what it is told.
use nimbus_mesh_x.Base.Dict.{lookup, get_or, insert, delete}
use nimbus_mesh_x.Base.Sort.{insert_sorted, sort}
use nimbus_mesh_x.Float.{max, min, sum, minimum, of_ℕ, decimal, round, ◌≼◌, ◌≺◌}
use nimbus_mesh_x.Cache.{
  key_of, evict_buckets, evict_stale, hydrated, payload_entries, hydrate_from_redis, bucket_of,
  location_bonus, freshness, hit_ratio, better, best_entry, prepare, score, reserved_gb,
  offload_recommendation, snapshot, touch_bucket, cap_bucket, total_entries, items, has_tie,
  sort_items, remove_entry, drop_victim, trim_loop, trim, persist_to_redis, store_bucket, observe,
  Directory, CacheEntry, is_fresh,
}
use nimbus_mesh_x.Storage.{write_decision, write_cache_affinity, fetch_cache_affinity}
use nimbus_mesh_x.Base.{
  ℕ, false, ◌∷◌, string_eq, ◌≡◌, ◌<◌, ◌≤◌, ◌+◌, refl, arith, [], filter, All, Elem, inl, true,
  is_ok, value_of, ok, is_nonempty,
}
use nimbus_mesh_x.Base.Int.{ℤ, ◌+ℤ◌, ◌-ℤ◌}
use nimbus_mesh_x.Float.Fixed.{fixed_float, Fixed-IsFloat}
use nimbus_mesh_x.Cache.Bounded.{IsBounded, observe-IsBounded}
use nimbus_mesh_x.Cache.Score.{score_bounds, score-ge, score_pending, hit_ratio_local}
use nimbus_mesh_x.Cache.Redis.{hydrate-persist, IsKeyed}
use nimbus_mesh_x.Cache.Total.{observe_total}
use nimbus_mesh_x.Cache.Facts.{bucket-evict_stale, evict_stale-evict_stale}
use nimbus_mesh_x.Tests.Data.{request, warm, result, entry, directory}

observed_ok : is_ok (observe result warm) ≡ true
unfolding ◌+ℤ◌ ◌-ℤ◌ lookup get_or insert delete insert_sorted sort max min sum minimum key_of
    evict_buckets evict_stale hydrated payload_entries hydrate_from_redis bucket_of location_bonus
    freshness hit_ratio better best_entry prepare score reserved_gb offload_recommendation snapshot
    touch_bucket cap_bucket total_entries items has_tie sort_items remove_entry drop_victim
    trim_loop trim persist_to_redis store_bucket observe write_decision write_cache_affinity
    fetch_cache_affinity
observed_ok = refl

abbrev observed : Directory ℤ
observed = (value_of (observe result warm) observed_ok).0

warm-IsBounded : IsBounded warm
warm-IsBounded = record { small = (omega arith, tt); stored_small = tt; distinct = (tt, tt) }

observe-IsBounded_example : IsBounded observed
observe-IsBounded_example =
    observe-IsBounded result warm observed warm-IsBounded
      (value_of (observe result warm) observed_ok).1

scored_ok : is_ok (score request "east" "pool-a" (of_ℕ 5) warm) ≡ true
unfolding ◌+ℤ◌ ◌-ℤ◌ lookup get_or insert delete insert_sorted sort max min sum minimum key_of
    evict_buckets evict_stale hydrated payload_entries hydrate_from_redis bucket_of location_bonus
    freshness hit_ratio better best_entry prepare score reserved_gb offload_recommendation snapshot
    touch_bucket cap_bucket total_entries items has_tie sort_items remove_entry drop_victim
    trim_loop trim persist_to_redis store_bucket observe write_decision write_cache_affinity
    fetch_cache_affinity
scored_ok = refl

abbrev scored : (ℤ × ℕ) × Directory ℤ
scored = (value_of (score request "east" "pool-a" (of_ℕ 5) warm) scored_ok).0

scored_is : score request "east" "pool-a" (of_ℕ 5) warm ≡ ok scored
scored_is = (value_of (score request "east" "pool-a" (of_ℕ 5) warm) scored_ok).1

-- With `ttl_s` zero an entry that was completed just now makes the division raise.
score_raises :
    is_ok (
      score request "east" "pool-a" entry.available_ts (record warm {
        ttl_s = of_ℕ 0;
        entries = (key_of request, record entry { last_touched = entry.available_ts } ∷ []) ∷ [];
      }))
    ≡ false
unfolding ◌+ℤ◌ ◌-ℤ◌ lookup get_or insert delete insert_sorted sort max min sum minimum key_of
    evict_buckets evict_stale hydrated payload_entries hydrate_from_redis bucket_of location_bonus
    freshness hit_ratio better best_entry prepare score reserved_gb offload_recommendation snapshot
    touch_bucket cap_bucket total_entries items has_tie sort_items remove_entry drop_victim
    trim_loop trim persist_to_redis store_bucket observe write_decision write_cache_affinity
    fetch_cache_affinity
score_raises = refl

score_bounds_example : (of_ℕ 0 ≼ scored.0.0) × (scored.0.0 ≼ decimal 95 2) × (scored.0.1 ≤ 1000)
score_bounds_example =
    score_bounds Fixed-IsFloat (of_ℕ 5) request "east" "pool-a" warm scored (omega arith) scored_is

held_at_five : Elem entry (bucket_of request (prepare request (of_ℕ 5) warm))
unfolding ◌+ℤ◌ ◌-ℤ◌ lookup get_or insert delete insert_sorted sort max min sum minimum key_of
    evict_buckets evict_stale hydrated payload_entries hydrate_from_redis bucket_of location_bonus
    freshness hit_ratio better best_entry prepare score reserved_gb offload_recommendation snapshot
    touch_bucket cap_bucket total_entries items has_tie sort_items remove_entry drop_victim
    trim_loop trim persist_to_redis store_bucket observe write_decision write_cache_affinity
    fetch_cache_affinity
held_at_five = inl refl

score-ge_example :
    round (hit_ratio (prepare request (of_ℕ 5) warm).ttl_s "east" "pool-a" (of_ℕ 5) entry) 4
    ≼ scored.0.0
score-ge_example =
    score-ge Fixed-IsFloat (of_ℕ 5) request "east" "pool-a" warm entry scored held_at_five refl
      scored_is

pending : All (λ e. (of_ℕ 3) ≺ e.available_ts) (bucket_of request (prepare request (of_ℕ 3) warm))
unfolding ◌+ℤ◌ ◌-ℤ◌ lookup get_or insert delete insert_sorted sort max min sum minimum key_of
    evict_buckets evict_stale hydrated payload_entries hydrate_from_redis bucket_of location_bonus
    freshness hit_ratio better best_entry prepare score reserved_gb offload_recommendation snapshot
    touch_bucket cap_bucket total_entries items has_tie sort_items remove_entry drop_victim
    trim_loop trim persist_to_redis store_bucket observe write_decision write_cache_affinity
    fetch_cache_affinity
pending = (refl, tt)

score_pending_example :
    score request "east" "pool-a" (of_ℕ 3) warm ≡ ok ((of_ℕ 0, 0), prepare request (of_ℕ 3) warm)
score_pending_example = score_pending Fixed-IsFloat (of_ℕ 3) request "east" "pool-a" warm pending

abbrev remote : CacheEntry ℤ
remote = record entry { cluster_id = "west" }

hit_ratio_local_example :
    hit_ratio (of_ℕ 300) "east" "pool-a" (of_ℕ 5) remote
    ≼ hit_ratio (of_ℕ 300) "east" "pool-a" (of_ℕ 5) entry
hit_ratio_local_example =
    hit_ratio_local Fixed-IsFloat (of_ℕ 300) (of_ℕ 5) "east" "pool-a" entry remote refl (inl refl)

keyed : IsKeyed (key_of request) (bucket_of request warm)
unfolding ◌+ℤ◌ ◌-ℤ◌ lookup get_or insert delete insert_sorted sort max min sum minimum key_of
    evict_buckets evict_stale hydrated payload_entries hydrate_from_redis bucket_of location_bonus
    freshness hit_ratio better best_entry prepare score reserved_gb offload_recommendation snapshot
    touch_bucket cap_bucket total_entries items has_tie sort_items remove_entry drop_victim
    trim_loop trim persist_to_redis store_bucket observe write_decision write_cache_affinity
    fetch_cache_affinity
keyed = (refl, tt)

held : is_nonempty (bucket_of request warm) ≡ true
unfolding ◌+ℤ◌ ◌-ℤ◌ lookup get_or insert delete insert_sorted sort max min sum minimum key_of
    evict_buckets evict_stale hydrated payload_entries hydrate_from_redis bucket_of location_bonus
    freshness hit_ratio better best_entry prepare score reserved_gb offload_recommendation snapshot
    touch_bucket cap_bucket total_entries items has_tie sort_items remove_entry drop_victim
    trim_loop trim persist_to_redis store_bucket observe write_decision write_cache_affinity
    fetch_cache_affinity
held = refl

hydrate-persist_example :
    bucket_of request (
      hydrate_from_redis request
        (record directory { redis_store = (persist_to_redis (key_of request) warm).redis_store }))
    ≡ bucket_of request warm
hydrate-persist_example = hydrate-persist request warm directory refl keyed held

room : total_entries warm.entries < 50
unfolding total_entries
room = omega arith

observe_total_example :
    (after : Directory ℤ) × (observe result warm ≡ ok after)
    × (total_entries after.entries ≤ total_entries warm.entries + 1)
observe_total_example = observe_total result warm room

bucket-evict_stale_example :
    get_or "llama-3-8b:tenant-a:p" [] (evict_stale (of_ℕ 5) warm).entries
    ≡ filter (is_fresh (of_ℕ 300) (of_ℕ 5)) (get_or "llama-3-8b:tenant-a:p" [] warm.entries)
bucket-evict_stale_example = bucket-evict_stale (of_ℕ 5) warm "llama-3-8b:tenant-a:p" (tt, tt)

evict_stale-evict_stale_example :
    evict_stale (of_ℕ 400) (evict_stale (of_ℕ 5) warm) ≡ evict_stale (of_ℕ 400) warm
evict_stale-evict_stale_example =
    evict_stale-evict_stale Fixed-IsFloat (of_ℕ 5) (of_ℕ 400) warm refl
