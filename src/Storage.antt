-- ===== src/Storage.antt =====
-- storage/redis_store.py. The server is two hashes; JSON text is not modelled: a field of a hash holds
-- the value that was dumped to it. A payload of cache affinity is what the code that reads it can
-- tell apart. Its numbers are taken to be of the types that the code writes, and not negative.
use nimbus_mesh_x.Base.{ℕ, String, string_eq, Bool, Option, none, List, if◌then◌else◌}
use nimbus_mesh_x.Base.Dict.{Dict, lookup, insert}
use nimbus_mesh_x.Types.{RequestResult}

-- An item of "entries"; a field is `none` where the key is missing.
pub record StoredEntry (F : Type 0) : Type 0 where
  pub cluster_id : Option String
  pub pool_id : Option String
  pub size_tokens : Option ℕ
  pub size_gb : Option F
  pub available_ts : Option F
  pub last_touched : Option F
  pub hit_count : Option ℕ

-- `blank` is `{}`, and `not_a_list` has something else than a list under "entries". An item that is
-- no dictionary is `none`.
pub data Payload (F : Type 0) : Type 0 where
  blank : Payload F
  not_a_list : Payload F
  listed : List (Option (StoredEntry F)) → Payload F

pub record RedisStore (F : Type 0) : Type 0 where
  pub enabled : Bool
  -- the hash nimbusmesh:decisions
  pub decisions : Dict String (RequestResult F)
  -- the hash nimbusmesh:cache_affinity
  pub cache_affinity : Dict String (Payload F)

module _ {F : Type 0} where
  unfoldable pub write_decision : RequestResult F → RedisStore F → RedisStore F
  write_decision result s =
      if s.enabled
      then record s { decisions = insert result.request.request_id result s.decisions }
      else s

  unfoldable pub write_cache_affinity : String → Payload F → RedisStore F → RedisStore F
  write_cache_affinity key payload s =
      if s.enabled then record s { cache_affinity = insert key payload s.cache_affinity } else s

  unfoldable pub fetch_cache_affinity : String → RedisStore F → Option (Payload F)
  fetch_cache_affinity key s = if s.enabled then lookup key s.cache_affinity else none
