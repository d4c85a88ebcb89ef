-- ===== src/Cache/Redis.antt =====
-- cache_directory/directory.py with storage/redis_store.py: what goes to Redis comes back.
use nimbus_mesh_x.Base.{
  String, string_eq, true, ◌&&◌, ◌≡◌, refl, ap, ap₂, sym, ◌∙◌, arith, List, [], ◌∷◌, map, All,
  is_nonempty, some, beq_refl, if_true,
}
use nimbus_mesh_x.Base.Dict.{insert, get_or-insert, lookup-insert_self}
use nimbus_mesh_x.Float.{Float}
use nimbus_mesh_x.Storage.{RedisStore, Payload, listed, write_cache_affinity, fetch_cache_affinity}
use nimbus_mesh_x.Types.{InferenceRequest}
use nimbus_mesh_x.Cache.{
  CacheEntry, Directory, key_of, stored, hydrated, payload_entries, hydrate_from_redis, bucket_of,
  persist_to_redis,
}

module _ {F : Type 0} ⦃f : Float F⦄ where
  -- The entries of a bucket carry its key.
  abbrev pub IsKeyed : String → List (CacheEntry F) → Type 0
  IsKeyed key = All λ e. e.key ≡ key

  hydrated-stored :
      (key : String) (bucket : List (CacheEntry F))
      → IsKeyed key bucket
      → hydrated key (map stored bucket) ≡ bucket
  unfolding hydrated
  hydrated-stored key [] h = refl
  hydrated-stored key (e ∷ bucket) h =
      ap₂ ◌∷◌ (ap (λ k. record e { key = k }) (sym h.0)) (hydrated-stored key bucket h.1)

  fetch-write :
      (key : String) (p : Payload F) (s : RedisStore F)
      → s.enabled ≡ true
      → fetch_cache_affinity key (write_cache_affinity key p s) ≡ some p
  unfolding fetch_cache_affinity write_cache_affinity
  fetch-write key p s on = ground (arith, lookup-insert_self key p s.cache_affinity)

  enabled-write :
      (key : String) (p : Payload F) (s : RedisStore F)
      → (write_cache_affinity key p s).enabled ≡ s.enabled
  unfolding write_cache_affinity
  enabled-write key p s = ground arith

  -- What a reader does that finds a bucket in Redis.
  hydrate_found :
      (request : InferenceRequest F) (d : Directory F) (bucket : List (CacheEntry F))
      → d.redis_store.enabled ≡ true
      → payload_entries (key_of request) (fetch_cache_affinity (key_of request) d.redis_store)
        ≡ bucket
      → is_nonempty bucket ≡ true
      → bucket_of request (hydrate_from_redis request d) ≡ bucket
  unfolding bucket_of hydrate_from_redis
  hydrate_found request d bucket on found there =
      let key = key_of request in
      let both : (d.redis_store.enabled
            && is_nonempty (payload_entries key (fetch_cache_affinity key d.redis_store)))
          ≡ true =
        ap₂ ◌&&◌ on (ap is_nonempty found ∙ there) in
      rw
        (if_true _
          (record d {
            entries =
                insert key (payload_entries key (fetch_cache_affinity key d.redis_store)) d.entries;
          })
          d both)
        (rw (get_or-insert, beq_refl) found)

  -- With Redis on, a bucket that is not empty, all of whose entries carry its key, and that one
  -- directory persists is what any other directory on the same server reads back.
  pub hydrate-persist :
      (request : InferenceRequest F) (writer reader : Directory F)
      → writer.redis_store.enabled ≡ true
      → IsKeyed (key_of request) (bucket_of request writer)
      → is_nonempty (bucket_of request writer) ≡ true
      → let server = (persist_to_redis (key_of request) writer).redis_store in
        bucket_of request (hydrate_from_redis request (record reader { redis_store = server }))
        ≡ bucket_of request writer
  unfolding persist_to_redis
  hydrate-persist request writer reader on keyed there =
      let key = key_of request in
      let bucket = bucket_of request writer in
      let payload = listed (map stored bucket) in
      let server = write_cache_affinity key payload writer.redis_store in
      let found : payload_entries key (fetch_cache_affinity key server) ≡ bucket =
        ap (payload_entries key) (fetch-write key payload writer.redis_store on)
        ∙ read_back key bucket keyed in
      unfold bucket_of in
      hydrate_found request (record reader { redis_store = server }) bucket
        (enabled-write key payload writer.redis_store ∙ on) found there
    where
      read_back :
          (key : String) (bucket : List (CacheEntry F))
          → IsKeyed key bucket
          → payload_entries key (some (listed (map stored bucket))) ≡ bucket
      read_back key bucket h = unfold payload_entries in hydrated-stored key bucket h
