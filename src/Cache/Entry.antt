-- ===== src/Cache/Entry.antt =====
-- cache_directory/directory.py: the entries, their order, and the state of the directory.
use Prim.Native.String.{◌++◌}
use nimbus_mesh_x.Base.{
  ℕ, String, Bool, not, ◌&&◌, ◌||◌, ltb, ◌==◌, string_eq, nat_eq, List, Option, some,
}
use nimbus_mesh_x.Base.Dict.{Dict}
use nimbus_mesh_x.Float.{Float, ◌≤?◌, ◌<?◌, of_ℕ}
use nimbus_mesh_x.Storage.{RedisStore, StoredEntry}
use nimbus_mesh_x.Types.{InferenceRequest}

pub record CacheEntry (F : Type 0) : Type 0 where
  pub key : String
  pub cluster_id : String
  pub pool_id : String
  pub size_tokens : ℕ
  pub size_gb : F
  pub available_ts : F
  pub last_touched : F
  pub hit_count : ℕ

pub record Directory (F : Type 0) : Type 0 where
  pub ttl_s : F
  pub max_entries : ℕ
  pub entries : Dict String (List (CacheEntry F))
  pub redis_store : RedisStore F

module _ {F : Type 0} where
  -- `_key`
  unfoldable pub key_of : InferenceRequest F → String
  key_of r = r.model_id ++ ":" ++ r.tenant_id ++ ":" ++ r.prefix_signature

  abbrev pub stands_at : String → String → CacheEntry F → Bool
  stands_at cluster_id pool_id e = e.cluster_id == cluster_id && e.pool_id == pool_id

  abbrev pub stored : CacheEntry F → Option (StoredEntry F)
  stored e = some (record {
    cluster_id = some e.cluster_id;
    pool_id = some e.pool_id;
    size_tokens = some e.size_tokens;
    size_gb = some e.size_gb;
    available_ts = some e.available_ts;
    last_touched = some e.last_touched;
    hit_count = some e.hit_count;
  })

module _ {F : Type 0} ⦃f : Float F⦄ where
  -- `x == y` of floats
  abbrev pub float_eq : F → F → Bool
  float_eq x y = x ≤? y && y ≤? x

  -- `x == 0.0`, where a division by `x` raises
  abbrev pub is_zero : F → Bool
  is_zero x = x ≤? of_ℕ 0 && of_ℕ 0 ≤? x

  -- `(hit_count, last_touched)` of `x` is below that of `y`.
  abbrev pub colder : CacheEntry F → CacheEntry F → Bool
  colder x y =
      ltb x.hit_count y.hit_count || x.hit_count == y.hit_count && x.last_touched <? y.last_touched

  -- the order of `bucket.sort(key=…, reverse=True)`, which leaves equals as they stood
  abbrev pub hotter_first : CacheEntry F → CacheEntry F → Bool
  hotter_first x y = not (colder x y)

  -- `==` of the dataclass
  abbrev pub entry_eq : CacheEntry F → CacheEntry F → Bool
  entry_eq x y =
      x.key == y.key
      && x.cluster_id == y.cluster_id
      && x.pool_id == y.pool_id
      && x.size_tokens == y.size_tokens
      && float_eq x.size_gb y.size_gb
      && float_eq x.available_ts y.available_ts
      && float_eq x.last_touched y.last_touched
      && x.hit_count == y.hit_count
