-- ===== src/Cache/Observe.antt =====
-- cache_directory/directory.py: `observe`, `_persist_to_redis` and `_trim`.
use Prim.Native.String.{compare}
use Prim.Native.Nat.{Ordering, max as greatest}
use nimbus_mesh_x.Base.{
  ℕ, ◌+◌, ◌-◌, leb, ltb, of_Bool, String, Bool, true, false, not, ◌&&◌, ◌||◌, ◌==◌, string_eq,
  nat_eq, if◌then◌else◌, List, [], ◌∷◌, ◌++◌, map, length, take, any, Result, ok, err, type_error,
  is_nonempty,
}
use nimbus_mesh_x.Base.Dict.{Dict, insert, delete, get_or}
use nimbus_mesh_x.Base.Sort.{sort}
use nimbus_mesh_x.Float.{Float, ◌⊗◌, ◌<?◌, of_ℕ, decimal, max}
use nimbus_mesh_x.Storage.{listed, write_cache_affinity}
use nimbus_mesh_x.Types.{RequestResult}
use nimbus_mesh_x.Cache.Entry.{
  CacheEntry, Directory, key_of, stands_at, stored, hotter_first, entry_eq, float_eq,
}

-- `<` of texts, by code points
abbrev pub text_lt : String → String → Bool
text_lt s t = elim (compare s t) [ Ordering.lt ↦ true | _ ↦ false ]

module _ {F : Type 0} ⦃f : Float F⦄ where
  abbrev pub new_entry : RequestResult F → CacheEntry F
  new_entry result = record {
    key = key_of result.request;
    cluster_id = result.decision.cluster_id;
    pool_id = result.decision.pool_id;
    size_tokens = result.request.prompt_tokens;
    size_gb = result.memory_gb ⊗ decimal 55 2;
    available_ts = result.completion_ts;
    last_touched = result.completion_ts;
    hit_count = of_Bool (of_ℕ 0 <? result.cache_hit_ratio);
  }

  abbrev pub touched_entry : RequestResult F → CacheEntry F → CacheEntry F
  touched_entry result e = record e {
    size_tokens = greatest e.size_tokens result.request.prompt_tokens;
    size_gb = max e.size_gb (result.memory_gb ⊗ decimal 55 2);
    available_ts = result.completion_ts;
    last_touched = result.completion_ts;
    hit_count = e.hit_count + of_Bool (of_ℕ 0 <? result.cache_hit_ratio);
  }

  -- The first entry of the result's pool is brought up to date, or a new entry goes to the end.
  unfoldable pub touch_bucket : RequestResult F → List (CacheEntry F) → List (CacheEntry F)
  touch_bucket result [] = new_entry result ∷ []
  touch_bucket result (e ∷ bucket) =
      if stands_at result.decision.cluster_id result.decision.pool_id e
      then touched_entry result e ∷ bucket
      else e ∷ touch_bucket result bucket

  -- `if len(bucket) > 4`: the four hottest stay.
  unfoldable pub cap_bucket : List (CacheEntry F) → List (CacheEntry F)
  cap_bucket bucket = if ltb 4 (length bucket) then take 4 (sort hotter_first bucket) else bucket

  unfoldable pub total_entries : Dict String (List (CacheEntry F)) → ℕ
  total_entries [] = 0
  total_entries ((key, bucket) ∷ rest) = length bucket + total_entries rest

  unfoldable pub items : Dict String (List (CacheEntry F)) → List (String × CacheEntry F)
  items [] = []
  items ((key, bucket) ∷ rest) = map (λ e. (key, e)) bucket ++ items rest

  -- `(hit_count, last_touched, key)` of `x` is below that of `y`.
  abbrev pub item_lt : String × CacheEntry F → String × CacheEntry F → Bool
  item_lt x y =
      ltb x.1.hit_count y.1.hit_count
      || x.1.hit_count == y.1.hit_count
        && (x.1.last_touched <? y.1.last_touched
            || float_eq x.1.last_touched y.1.last_touched && text_lt x.0 y.0)

  -- Two tuples that tie up to the entries, which are different: `items.sort()` then compares the
  -- entries by `<`, which the dataclass does not have.
  abbrev pub is_tie : String × CacheEntry F → String × CacheEntry F → Bool
  is_tie x y =
      x.1.hit_count == y.1.hit_count
      && float_eq x.1.last_touched y.1.last_touched
      && x.0 == y.0
      && not (entry_eq x.1 y.1)

  unfoldable pub has_tie : List (String × CacheEntry F) → Bool
  has_tie [] = false
  has_tie (x ∷ xs) = any (is_tie x) xs || has_tie xs

  unfoldable pub sort_items : List (String × CacheEntry F) → Result (List (String × CacheEntry F))
  sort_items xs = if has_tie xs then err type_error else ok (sort (λ x y. not (item_lt y x)) xs)

  -- `bucket.remove(victim)`
  unfoldable pub remove_entry : CacheEntry F → List (CacheEntry F) → List (CacheEntry F)
  remove_entry victim [] = []
  remove_entry victim (e ∷ bucket) =
      if entry_eq victim e then bucket else e ∷ remove_entry victim bucket

  -- One round of the loop: the entries and their number after the victim was looked for.
  unfoldable pub drop_victim :
      String × CacheEntry F
      → Dict String (List (CacheEntry F)) × ℕ
      → Dict String (List (CacheEntry F)) × ℕ
  drop_victim (key, victim) (entries, total) =
      let bucket = get_or key [] entries in
      let found = any (entry_eq victim) bucket in
      let left = if found then remove_entry victim bucket else bucket in
      let count = if found then total - 1 else total in
      (if is_nonempty left then insert key left entries else delete key entries, count)

  unfoldable pub trim_loop :
      ℕ
      → List (String × CacheEntry F)
      → Dict String (List (CacheEntry F)) × ℕ
      → Dict String (List (CacheEntry F))
  trim_loop limit [] state = state.0
  trim_loop limit (victim ∷ rest) state =
      let after = trim_loop limit rest (drop_victim victim state) in
      if leb state.1 limit then state.0 else after

  unfoldable pub trim : Directory F → Result (Directory F)
  trim d =
      let total = total_entries d.entries in
      if leb total d.max_entries then ok d else elim (sort_items (items d.entries)) [
        | ok sorted ↦ ok (record d { entries = trim_loop d.max_entries sorted (d.entries, total) })
        | err e ↦ err e
      ]

  unfoldable pub persist_to_redis : String → Directory F → Directory F
  persist_to_redis key d = record d {
    redis_store =
        write_cache_affinity key (listed (map stored (get_or key [] d.entries))) d.redis_store;
  }

  unfoldable pub store_bucket : RequestResult F → Directory F → Directory F
  store_bucket result d =
      let key = key_of result.request in
      record d {
        entries = insert key (cap_bucket (touch_bucket result (get_or key [] d.entries))) d.entries;
      }

  unfoldable pub observe : RequestResult F → Directory F → Result (Directory F)
  observe result d =
      if result.admitted
      then trim (persist_to_redis (key_of result.request) (store_bucket result d))
      else ok d
