-- ===== src/Cache/Total.antt =====
-- cache_directory/directory.py: how many entries there are, and when `observe` does not raise.
use nimbus_mesh_x.Base.{
  ap, >>=_total, >>=-eq-ok, ◌+◌, ◌≤◌, ◌<◌, String, string_eq, ◌≡◌, refl, ◌∙◌, arith, List, [], ◌∷◌,
  length, length-take-le, ℕ, sym, subst, ok, ok-injective, length-filter-le, Bool-cases, false, inl,
  inr, if_true, if_false, is_nonempty,
}
use nimbus_mesh_x.Base.Dict.{Dict, insert, get_or}
use nimbus_mesh_x.Base.Sort.{sort}
use nimbus_mesh_x.Float.{Float, ◌<?◌, of_ℕ}
use nimbus_mesh_x.Storage.{write_cache_affinity}
use nimbus_mesh_x.Types.{InferenceRequest, RequestResult}
use nimbus_mesh_x.Cache.{
  is_zero, better, best_entry, score, CacheEntry, Directory, key_of, hotter_first, touch_bucket,
  cap_bucket, total_entries, trim, persist_to_redis, store_bucket, observe, is_fresh, evict_buckets,
  evict_stale, hydrate_from_redis, bucket_of, prepare,
}

module _ {F : Type 0} ⦃f : Float F⦄ where
  total_entries-insert :
      (k : String) (b : List (CacheEntry F)) (es : Dict String (List (CacheEntry F)))
      → total_entries (insert k b es) + length (get_or k [] es) ≡ total_entries es + length b
  unfolding total_entries insert get_or
  total_entries-insert k b [] = omega arith
  total_entries-insert k b ((j, w) ∷ es) = ground (arith, total_entries-insert k b es)

  length-touch_bucket-le :
      (result : RequestResult F) (b : List (CacheEntry F))
      → length (touch_bucket result b) ≤ length b + 1
  unfolding touch_bucket
  length-touch_bucket-le result [] = omega arith
  length-touch_bucket-le result (e ∷ b) = ground (arith, length-touch_bucket-le result b)

  length-cap_bucket-le_self : (b : List (CacheEntry F)) → length (cap_bucket b) ≤ length b
  unfolding cap_bucket
  length-cap_bucket-le_self b = ground (arith, length-take-le 4 (sort hotter_first b))

  total_entries-store-le :
      (result : RequestResult F) (d : Directory F)
      → total_entries (store_bucket result d).entries ≤ total_entries d.entries + 1
  unfolding store_bucket
  total_entries-store-le result d =
      let key = key_of result.request in
      let old = get_or key [] d.entries in
      omega (
        arith,
        total_entries-insert key (cap_bucket (touch_bucket result old)) d.entries,
        length-cap_bucket-le_self (touch_bucket result old),
        length-touch_bucket-le result old,
      )

  trim_fits : (d : Directory F) → total_entries d.entries ≤ d.max_entries → trim d ≡ ok d
  unfolding trim
  trim_fits d h = ground arith

  -- While fewer entries than `max_entries` are held, `observe` does not raise, and it adds at most
  -- one entry.
  pub observe_total :
      (result : RequestResult F) (d : Directory F)
      → total_entries d.entries < d.max_entries
      → (after : Directory F) × (observe result d ≡ ok after)
        × (total_entries after.entries ≤ total_entries d.entries + 1)
  unfolding observe
  observe_total result d room = elim (Bool-cases result.admitted) [
    | inl admitted ↦
        let stored = persist_to_redis (key_of result.request) (store_bucket result d) in
        (stored, if_true result.admitted _ (ok d) admitted ∙ kept, total)
    | inr refused ↦ (d, if_false result.admitted _ (ok d) refused, omega arith)
  ]
    where
      total :
          total_entries (persist_to_redis (key_of result.request) (store_bucket result d)).entries
          ≤ total_entries d.entries + 1
      total = unfold persist_to_redis in total_entries-store-le result d

      limit :
          (persist_to_redis (key_of result.request) (store_bucket result d)).max_entries
          ≡ d.max_entries
      limit = unfold persist_to_redis store_bucket in refl

      kept :
          trim (persist_to_redis (key_of result.request) (store_bucket result d))
          ≡ ok (persist_to_redis (key_of result.request) (store_bucket result d))
      kept = trim_fits _ (omega (arith, total, limit))

  total_entries-evict-le :
      (ttl now : F) (es : Dict String (List (CacheEntry F)))
      → total_entries (evict_buckets ttl now es) ≤ total_entries es
  unfolding total_entries evict_buckets
  total_entries-evict-le ttl now [] = omega arith
  total_entries-evict-le ttl now ((k, b) ∷ es) =
      ground (arith, total_entries-evict-le ttl now es, length-filter-le (is_fresh ttl now) b)

  -- So many entries more fit, no Redis server may add others, and `ttl_s` can be divided by.
  pub record HasRoom (n : ℕ) (d : Directory F) : Type 0 where
    pub room : total_entries d.entries + n ≤ d.max_entries
    pub offline : d.redis_store.enabled ≡ false
    pub divides : is_zero d.ttl_s ≡ false

  pub HasRoom-le : (n : ℕ) (d : Directory F) → HasRoom (n + 1) d → HasRoom n d
  HasRoom-le n d h = record {
    room = omega (arith, h.room);
    offline = h.offline;
    divides = h.divides;
  }

  pub evict_stale-HasRoom :
      (n : ℕ) (now : F) (d : Directory F) → HasRoom n d → HasRoom n (evict_stale now d)
  unfolding evict_stale
  evict_stale-HasRoom n now d h = record {
    room = omega (arith, h.room, total_entries-evict-le d.ttl_s now d.entries);
    offline = h.offline;
    divides = h.divides;
  }

  hydrate_offline :
      (request : InferenceRequest F) (d : Directory F)
      → d.redis_store.enabled ≡ false
      → hydrate_from_redis request d ≡ d
  unfolding hydrate_from_redis
  hydrate_offline request d h = ground arith

  pub prepare-HasRoom :
      (n : ℕ) (request : InferenceRequest F) (now : F) (d : Directory F)
      → HasRoom n d
      → HasRoom n (prepare request now d)
  unfolding prepare
  prepare-HasRoom n request now d h =
      let purged = evict_stale-HasRoom n now d h in
      elim (Bool-cases (is_nonempty (bucket_of request (evict_stale now d)))) [
        | inl there ↦ rw there purged
        | inr missing ↦
            rw (missing, hydrate_offline request (evict_stale now d) purged.offline) purged
      ]

  persisted-HasRoom :
      (n : ℕ) (result : RequestResult F) (d : Directory F)
      → HasRoom (n + 1) d
      → HasRoom n (persist_to_redis (key_of result.request) (store_bucket result d))
  unfolding persist_to_redis store_bucket write_cache_affinity
  persisted-HasRoom n result d h = record {
    room = omega (arith, h.room, total_entries-store-le result d);
    offline = ground (arith, h.offline);
    divides = h.divides;
  }

  -- What `observe` leaves has room for one entry less.
  pub observe-HasRoom :
      (n : ℕ) (result : RequestResult F) (d after : Directory F)
      → HasRoom (n + 1) d
      → observe result d ≡ ok after
      → HasRoom n after
  unfolding observe
  observe-HasRoom n result d after h e = elim (Bool-cases result.admitted) [
    | inl admitted ↦
        let stored = persisted-HasRoom n result d h in
        let kept = trim_fits _ (omega (arith, stored.room)) in
        subst (HasRoom n)
          (ok-injective _ after (sym kept ∙ sym (if_true result.admitted _ (ok d) admitted) ∙ e))
          stored
    | inr refused ↦
        subst (HasRoom n)
          (ok-injective d after (sym (if_false result.admitted _ (ok d) refused) ∙ e))
          (HasRoom-le n d h)
  ]

  -- `score` leaves `ttl_s` as it is.
  pub prepare-ttl_s :
      (request : InferenceRequest F) (now : F) (d : Directory F)
      → (prepare request now d).ttl_s ≡ d.ttl_s
  unfolding prepare evict_stale hydrate_from_redis
  prepare-ttl_s request now d = ground arith

  best_entry_total :
      (ttl_s now : F) (request : InferenceRequest F) (c p : String) (bucket : List (CacheEntry F))
      (best : F × ℕ)
      → is_zero ttl_s ≡ false
      → (last : F × ℕ) × (best_entry ttl_s request c p now best bucket ≡ ok last)
  unfolding best_entry
  best_entry_total ttl_s now request c p [] best h = (best, refl)
  best_entry_total ttl_s now request c p (e ∷ bucket) best h =
      >>=_total (better ttl_s request c p now best e) _ one
        (λ next _. best_entry_total ttl_s now request c p bucket next h)
    where
      one : (next : F × ℕ) × (better ttl_s request c p now best e ≡ ok next)
      one =
          unfold better in
          elim (Bool-cases (now <? e.available_ts)) [
            | inl pending ↦ rw pending (_, refl)
            | inr complete ↦ rw (complete, h) (_, refl)
          ]

  -- `score` does not raise where `ttl_s` is not zero.
  pub score_total :
      (request : InferenceRequest F) (c p : String) (now : F) (d : Directory F)
      → is_zero d.ttl_s ≡ false
      → (result : (F × ℕ) × Directory F) × (score request c p now d ≡ ok result)
  unfolding score
  score_total request c p now d h =
      let ready = prepare request now d in
      >>=_total (best_entry ready.ttl_s request c p now (of_ℕ 0, 0) (bucket_of request ready)) _
        (best_entry_total ready.ttl_s now request c p (bucket_of request ready) (of_ℕ 0, 0)
          (ap is_zero (prepare-ttl_s request now d) ∙ h))
        (λ best _. (_, refl))

  -- The directory that a score leaves.
  pub score-prepare :
      (request : InferenceRequest F) (c p : String) (now : F) (d : Directory F)
      (result : (F × ℕ) × Directory F)
      → score request c p now d ≡ ok result
      → prepare request now d ≡ result.1
  unfolding score
  score-prepare request c p now d result h =
      let ready = prepare request now d in
      let (best, _, e) =
        >>=-eq-ok (best_entry ready.ttl_s request c p now (of_ℕ 0, 0) (bucket_of request ready)) _
          h in
      ap (λ r. r.1) (ok-injective _ result e)
