-- ===== src/Cache/Bounded.antt =====
-- cache_directory/directory.py: the invariant of the directory.
use nimbus_mesh_x.Base.{
  ℕ, ◌≤◌, String, string_eq, ◌≡◌, refl, arith, List, [], ◌∷◌, map, filter, length, length-map,
  length-filter-le, length-take-le, All, Bool-cases, inl, inr, if◌then◌else◌, Option, some, none,
  ok, err, Result, leb, any, is_nonempty, ◌&&◌, subst, sym, ◌∙◌, if_true, if_false, ok-injective,
  >>=-eq-ok,
}
use nimbus_mesh_x.Base.Dict.{
  Dict, Distinct, get_or, get_or-All, lookup-All, insert-All, insert-Distinct, delete-All,
  delete-Distinct,
}
use nimbus_mesh_x.Base.Sort.{sort}
use nimbus_mesh_x.Float.{Float, of_ℕ}
use nimbus_mesh_x.Storage.{
  RedisStore, StoredEntry, Payload, blank, not_a_list, listed, write_cache_affinity,
  fetch_cache_affinity,
}
use nimbus_mesh_x.Types.{InferenceRequest, RequestResult}
use nimbus_mesh_x.Cache.{
  CacheEntry, Directory, key_of, stored, is_fresh, evict_buckets, evict_stale, hydrated,
  payload_entries, hydrate_from_redis, bucket_of, prepare, score, best_entry, touch_bucket,
  cap_bucket, hotter_first, entry_eq, remove_entry, drop_victim, trim_loop, total_entries,
  sort_items, items, trim, persist_to_redis, store_bucket, observe,
}
use nimbus_mesh_x.Cache.Facts.{evict_buckets-Distinct}

module _ {F : Type 0} where
  abbrev payload_size : Payload F → ℕ
  payload_size (listed xs) = length xs
  payload_size _ = 0

-- No bucket has more than four entries, here or in Redis, and no key stands twice.
pub record IsBounded {F : Type 0} (d : Directory F) : Type 0 where
  pub small : All (λ q. length q.1 ≤ 4) d.entries
  pub stored_small : All (λ q. payload_size q.1 ≤ 4) d.redis_store.cache_affinity
  pub distinct : Distinct d.entries

module _ {F : Type 0} ⦃f : Float F⦄ where
  evict_buckets-small :
      (ttl now : F) (es : Dict String (List (CacheEntry F)))
      → All (λ q. length q.1 ≤ 4) es
      → All (λ q. length q.1 ≤ 4) (evict_buckets ttl now es)
  unfolding evict_buckets
  evict_buckets-small ttl now [] h = tt
  evict_buckets-small ttl now ((k, b) ∷ es) h =
      elim (Bool-cases (is_nonempty (filter (is_fresh ttl now) b))) [
        | inl kept ↦ rw kept (
          omega (arith, h.0, length-filter-le (is_fresh ttl now) b),
          evict_buckets-small ttl now es h.1,
        )
        | inr gone ↦ rw gone (evict_buckets-small ttl now es h.1)
      ]

  pub evict_stale-IsBounded :
      (now : F) (d : Directory F) → IsBounded d → IsBounded (evict_stale now d)
  unfolding evict_stale
  evict_stale-IsBounded now d v = record {
    small = evict_buckets-small d.ttl_s now d.entries v.small;
    stored_small = v.stored_small;
    distinct = evict_buckets-Distinct d.ttl_s now d.entries v.distinct;
  }

  length-hydrated-le :
      (key : String) (xs : List (Option (StoredEntry F))) → length (hydrated key xs) ≤ length xs
  unfolding hydrated
  length-hydrated-le key [] = omega arith
  length-hydrated-le key (none ∷ xs) = omega (arith, length-hydrated-le key xs)
  length-hydrated-le key (some x ∷ xs) = omega (arith, length-hydrated-le key xs)

  payload_entries-small :
      (key : String) (o : Option (Payload F))
      → ((p : Payload F) → o ≡ some p → payload_size p ≤ 4)
      → length (payload_entries key o) ≤ 4
  unfolding payload_entries
  payload_entries-small key none h = omega arith
  payload_entries-small key (some blank) h = omega arith
  payload_entries-small key (some not_a_list) h = omega arith
  payload_entries-small key (some (listed xs)) h =
      omega (arith, h (listed xs) refl, length-hydrated-le key xs)

  fetched-small :
      (key : String) (s : RedisStore F) (p : Payload F)
      → All (λ q. payload_size q.1 ≤ 4) s.cache_affinity
      → fetch_cache_affinity key s ≡ some p
      → payload_size p ≤ 4
  unfolding fetch_cache_affinity
  fetched-small key s p h e = elim (Bool-cases s.enabled) [
    | inl on ↦ lookup-All (λ _ p. payload_size p ≤ 4) key s.cache_affinity h (rw on at e)
    | inr off ↦ absurd (ground arith)
  ]

  hydrate-IsBounded :
      (request : InferenceRequest F) (d : Directory F)
      → IsBounded d
      → IsBounded (hydrate_from_redis request d)
  unfolding hydrate_from_redis
  hydrate-IsBounded request d v =
      let key = key_of request in
      let found = payload_entries key (fetch_cache_affinity key d.redis_store) in
      elim (Bool-cases (d.redis_store.enabled && is_nonempty found)) [
        | inl yes_found ↦ rw yes_found (record {
          small =
              insert-All (λ _ b. length b ≤ 4) key found d.entries v.small
                (payload_entries-small key (fetch_cache_affinity key d.redis_store)
                  (λ p. fetched-small key d.redis_store p v.stored_small));
          stored_small = v.stored_small;
          distinct = insert-Distinct key found d.entries v.distinct;
        })
        | inr nothing ↦ rw nothing v
      ]

  prepare-IsBounded :
      (request : InferenceRequest F) (now : F) (d : Directory F)
      → IsBounded d
      → IsBounded (prepare request now d)
  unfolding prepare
  prepare-IsBounded request now d v =
      elim (Bool-cases (is_nonempty (bucket_of request (evict_stale now d)))) [
        | inl there ↦ rw there (evict_stale-IsBounded now d v)
        | inr missing ↦
            rw missing
              (hydrate-IsBounded request (evict_stale now d) (evict_stale-IsBounded now d v))
      ]

  length-cap_bucket-le : (b : List (CacheEntry F)) → length (cap_bucket b) ≤ 4
  unfolding cap_bucket
  length-cap_bucket-le b = ground (arith, length-take-le 4 (sort hotter_first b))

  length-remove_entry-le :
      (v : CacheEntry F) (b : List (CacheEntry F)) → length (remove_entry v b) ≤ length b
  unfolding remove_entry
  length-remove_entry-le v [] = omega arith
  length-remove_entry-le v (e ∷ b) = ground (arith, length-remove_entry-le v b)

  abbrev IsSmall : Dict String (List (CacheEntry F)) → Type 0
  IsSmall es = All (λ q. length q.1 ≤ 4) es × Distinct es

  drop_victim-IsSmall :
      (v : String × CacheEntry F) (s : Dict String (List (CacheEntry F)) × ℕ)
      → IsSmall s.0
      → IsSmall (drop_victim v s).0
  unfolding drop_victim
  drop_victim-IsSmall (key, victim) (es, total) h =
      let bucket = get_or key [] es in
      let bucket_small : length bucket ≤ 4 =
        get_or-All (λ _ b. length b ≤ 4) key [] es h.0 (omega arith) in
      let found = any (entry_eq victim) bucket in
      let left = if found then remove_entry victim bucket else bucket in
      let left_small : length left ≤ 4 = ground (arith, length-remove_entry-le victim bucket) in
      elim (Bool-cases (is_nonempty left)) [
        | inl some_left ↦ rw some_left (
          insert-All (λ _ b. length b ≤ 4) key left es h.0 left_small,
          insert-Distinct key left es h.1,
        )
        | inr none_left ↦
            rw none_left (delete-All (λ q. length q.1 ≤ 4) key es h.0, delete-Distinct key es h.1)
      ]

  trim_loop-IsSmall :
      (limit : ℕ) (vs : List (String × CacheEntry F)) (s : Dict String (List (CacheEntry F)) × ℕ)
      → IsSmall s.0
      → IsSmall (trim_loop limit vs s)
  unfolding trim_loop
  trim_loop-IsSmall limit [] s h = h
  trim_loop-IsSmall limit (v ∷ vs) s h = elim (Bool-cases (leb s.1 limit)) [
    | inl done ↦ rw done h
    | inr more ↦ rw more (trim_loop-IsSmall limit vs (drop_victim v s) (drop_victim-IsSmall v s h))
  ]

  trim-IsBounded : (d after : Directory F) → IsBounded d → trim d ≡ ok after → IsBounded after
  unfolding trim
  trim-IsBounded d after v e = elim (Bool-cases (leb (total_entries d.entries) d.max_entries)) [
    | inl fits ↦
        let same : ok d ≡ ok after = rw fits at e in subst IsBounded (ok-injective d after same) v
    | inr over ↦ trimmed (sort_items (items d.entries)) (rw over at e)
  ]
    where
      trimmed :
          (r : Result (List (String × CacheEntry F)))
          → elim r [
            | ok sorted ↦ ok (record d {
              entries = trim_loop d.max_entries sorted (d.entries, total_entries d.entries);
            })
            | err x ↦ err x
          ]
            ≡ ok after
          → IsBounded after
      trimmed (ok sorted) h =
          let small =
            trim_loop-IsSmall d.max_entries sorted (d.entries, total_entries d.entries)
              (v.small, v.distinct) in
          subst IsBounded (ok-injective _ after h)
            (record { small = small.0; stored_small = v.stored_small; distinct = small.1 })
      trimmed (err x) h = cc

  persist-IsBounded :
      (key : String) (d : Directory F) → IsBounded d → IsBounded (persist_to_redis key d)
  unfolding persist_to_redis write_cache_affinity
  persist-IsBounded key d v =
      let bucket = get_or key [] d.entries in
      let payload = listed (map stored bucket) in
      let few : payload_size payload ≤ 4 =
        rw length-map (get_or-All (λ _ b. length b ≤ 4) key [] d.entries v.small (omega arith)) in
      elim (Bool-cases d.redis_store.enabled) [
        | inl on ↦ rw on (record {
          small = v.small;
          stored_small =
              insert-All (λ _ p. payload_size p ≤ 4) key payload d.redis_store.cache_affinity
                v.stored_small few;
          distinct = v.distinct;
        })
        | inr off ↦
            rw off
              (record { small = v.small; stored_small = v.stored_small; distinct = v.distinct })
      ]

  store_bucket-IsBounded :
      (result : RequestResult F) (d : Directory F) → IsBounded d → IsBounded (store_bucket result d)
  unfolding store_bucket
  store_bucket-IsBounded result d v =
      let key = key_of result.request in
      let bucket = cap_bucket (touch_bucket result (get_or key [] d.entries)) in
      record {
        small =
            insert-All (λ _ b. length b ≤ 4) key bucket d.entries v.small
              (length-cap_bucket-le (touch_bucket result (get_or key [] d.entries)));
        stored_small = v.stored_small;
        distinct = insert-Distinct key bucket d.entries v.distinct;
      }

  -- If `observe` does not raise, then afterwards no key holds more than four entries, in the
  -- directory and in Redis, and no key stands twice, if that was so before.
  pub observe-IsBounded :
      (result : RequestResult F) (d after : Directory F)
      → IsBounded d
      → observe result d ≡ ok after
      → IsBounded after
  unfolding observe
  observe-IsBounded result d after v e = elim (Bool-cases result.admitted) [
    | inl admitted ↦
        trim-IsBounded _ after
          (persist-IsBounded (key_of result.request) _ (store_bucket-IsBounded result d v))
          (sym (if_true result.admitted _ (ok d) admitted) ∙ e)
    | inr refused ↦
        let same : ok d ≡ ok after = sym (if_false result.admitted _ (ok d) refused) ∙ e in
        subst IsBounded (ok-injective d after same) v
  ]

  -- `score` keeps the invariant, also where it reads a bucket back from Redis.
  pub score-IsBounded :
      (now : F) (request : InferenceRequest F) (c p : String) (d : Directory F)
      (result : (F × ℕ) × Directory F)
      → IsBounded d
      → score request c p now d ≡ ok result
      → IsBounded result.1
  unfolding score
  score-IsBounded now request c p d result v h =
      let ready = prepare request now d in
      let (best, _, e) =
        >>=-eq-ok (best_entry ready.ttl_s request c p now (of_ℕ 0, 0) (bucket_of request ready)) _
          h in
      subst (λ (r : (F × ℕ) × Directory F). IsBounded r.1) (ok-injective _ result e)
        (prepare-IsBounded request now d v)
