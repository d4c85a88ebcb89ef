-- ===== src/Cache/Lookups.antt =====
-- cache_directory/directory.py: `evict_stale`, `score` with `_hydrate_from_redis`, `reserved_gb`,
-- `offload_recommendation` and `snapshot`.
use Prim.Native.Nat.{min as least}
use nimbus_mesh_x.Base.{
  ℕ, String, Bool, ◌&&◌, ◌==◌, string_eq, if◌then◌else◌, List, [], ◌∷◌, map, foldl, filter, Option,
  none, some, is_nonempty, Result, ok, err, zero_division_error, ◌>>=◌,
}
use nimbus_mesh_x.Base.Dict.{Dict, insert, get_or}
use nimbus_mesh_x.Float.{
  Float, ◌⊕◌, ◌⊖◌, ◌⊗◌, ◌⊘◌, ◌≤?◌, ◌<?◌, of_ℕ, decimal, round, trunc, max, min,
}
use nimbus_mesh_x.Storage.{StoredEntry, Payload, listed, fetch_cache_affinity}
use nimbus_mesh_x.Types.{InferenceRequest}
use nimbus_mesh_x.Cache.Entry.{CacheEntry, Directory, key_of, stands_at, is_zero}

-- `item.get(name, d)`
abbrev default : {A : Type 0} → A → Option A → A
default d none = d
default d (some a) = a

module _ {F : Type 0} ⦃f : Float F⦄ where
  abbrev pub is_fresh : F → F → CacheEntry F → Bool
  is_fresh ttl_s now e = now ⊖ e.last_touched ≤? ttl_s

  -- The loop over a copy of the items: what is stale goes, and a bucket that is left empty.
  unfoldable pub evict_buckets :
      F → F → Dict String (List (CacheEntry F)) → Dict String (List (CacheEntry F))
  evict_buckets ttl_s now [] = []
  evict_buckets ttl_s now ((key, bucket) ∷ rest) =
      let survivors = filter (is_fresh ttl_s now) bucket in
      let others = evict_buckets ttl_s now rest in
      if is_nonempty survivors then (key, survivors) ∷ others else others

  unfoldable pub evict_stale : F → Directory F → Directory F
  evict_stale now d = record d { entries = evict_buckets d.ttl_s now d.entries }

  -- the entries of a payload; what is no dictionary is skipped
  unfoldable pub hydrated : String → List (Option (StoredEntry F)) → List (CacheEntry F)
  hydrated key [] = []
  hydrated key (none ∷ items) = hydrated key items
  hydrated key (some item ∷ items) =
      record {
        key = key;
        cluster_id = default "" item.cluster_id;
        pool_id = default "" item.pool_id;
        size_tokens = default 0 item.size_tokens;
        size_gb = default (of_ℕ 0) item.size_gb;
        available_ts = default (of_ℕ 0) item.available_ts;
        last_touched = default (of_ℕ 0) item.last_touched;
        hit_count = default 0 item.hit_count;
      }
      ∷ hydrated key items

  unfoldable pub payload_entries : String → Option (Payload F) → List (CacheEntry F)
  unfolding hydrated
  payload_entries key (some (listed items)) = hydrated key items
  payload_entries key (some _) = []
  payload_entries key none = []

  unfoldable pub hydrate_from_redis : InferenceRequest F → Directory F → Directory F
  hydrate_from_redis request d =
      let key = key_of request in
      let found = payload_entries key (fetch_cache_affinity key d.redis_store) in
      if d.redis_store.enabled && is_nonempty found
      then record d { entries = insert key found d.entries }
      else d

  unfoldable pub bucket_of : InferenceRequest F → Directory F → List (CacheEntry F)
  bucket_of request d = get_or (key_of request) [] d.entries

  unfoldable pub location_bonus : String → String → CacheEntry F → F
  location_bonus cluster_id pool_id e =
      if stands_at cluster_id pool_id e
      then decimal 10 1
      else if e.cluster_id == cluster_id
      then decimal 7 1
      else decimal 35 2

  -- the value of `freshness` where `ttl_s` is not zero, which `better` tests
  unfoldable pub freshness : F → F → CacheEntry F → F
  unfolding max
  freshness ttl_s now e = max (decimal 1 1) (decimal 10 1 ⊖ (now ⊖ e.last_touched) ⊘ ttl_s)

  unfoldable pub hit_ratio : F → String → String → F → CacheEntry F → F
  unfolding min
  hit_ratio ttl_s cluster_id pool_id now e =
      min (decimal 95 2) (freshness ttl_s now e ⊗ location_bonus cluster_id pool_id e)

  -- The body of the loop over the bucket: the best ratio so far with what it saves. The division by
  -- `ttl_s` in the freshness of a complete entry raises if that is zero.
  unfoldable pub better :
      F → InferenceRequest F → String → String → F → F × ℕ → CacheEntry F → Result (F × ℕ)
  better ttl_s request cluster_id pool_id now best e =
      let ratio = hit_ratio ttl_s cluster_id pool_id now e in
      let saved = trunc (of_ℕ (least e.size_tokens request.prompt_tokens) ⊗ ratio) in
      if now <? e.available_ts
      then ok best
      else if is_zero ttl_s
      then err zero_division_error
      else ok (if best.0 <? ratio then (ratio, saved) else best)

  -- The loop, from the best so far.
  unfoldable pub best_entry :
      F → InferenceRequest F → String → String → F → F × ℕ → List (CacheEntry F) → Result (F × ℕ)
  best_entry ttl_s request cluster_id pool_id now best [] = ok best
  best_entry ttl_s request cluster_id pool_id now best (e ∷ bucket) =
      better ttl_s request cluster_id pool_id now best e >>= λ next.
      best_entry ttl_s request cluster_id pool_id now next bucket

  -- The directory as `score` leaves it: purged, and with the bucket read from Redis if it has none.
  unfoldable pub prepare : InferenceRequest F → F → Directory F → Directory F
  prepare request now d =
      let purged = evict_stale now d in
      if is_nonempty (bucket_of request purged) then purged else hydrate_from_redis request purged

  unfoldable pub score :
      InferenceRequest F → String → String → F → Directory F → Result ((F × ℕ) × Directory F)
  score request cluster_id pool_id now d = do
    let ready = prepare request now d
    best ←
        best_entry ready.ttl_s request cluster_id pool_id now (of_ℕ 0, 0) (bucket_of request ready)
    ok ((round best.0 4, best.1), ready)

  -- the sum over one bucket, and over all
  abbrev reserve_bucket : String → String → F → List (CacheEntry F) → F
  reserve_bucket cluster_id pool_id total bucket =
      foldl (λ acc e. if stands_at cluster_id pool_id e then acc ⊕ e.size_gb else acc) total bucket

  unfoldable pub reserved_gb : String → String → F → Directory F → F × Directory F
  reserved_gb cluster_id pool_id now d =
      let purged = evict_stale now d in
      (foldl (λ acc b. reserve_bucket cluster_id pool_id acc b.1) (of_ℕ 0) purged.entries, purged)

  unfoldable pub offload_recommendation :
      String → String → F → F → Directory F → String × Directory F
  offload_recommendation cluster_id pool_id memory_pressure now d =
      let (reserved, purged) = reserved_gb cluster_id pool_id now d in
      if decimal 85 2 <? memory_pressure && decimal 80 1 <? reserved
      then ("offload-cold-cache", purged)
      else if decimal 7 1 <? memory_pressure
      then ("replicate-hot-prefix-only", purged)
      else ("retain", purged)

  abbrev pub rounded_entry : CacheEntry F → CacheEntry F
  rounded_entry e = record e { size_gb = round e.size_gb 4 }

  -- A snapshot shows the purged entries, with their size rounded.
  unfoldable pub snapshot : F → Directory F → Dict String (List (CacheEntry F)) × Directory F
  snapshot now d =
      let purged = evict_stale now d in
      (map (λ b. (b.0, map rounded_entry b.1)) purged.entries, purged)
