-- ===== src/Types/Pool.antt =====
-- nimbusmesh_x/types.py, `PoolRuntime`. `min` of no slots raises.
use nimbus_mesh_x.Base.{
  ℕ, String, Bool, Result, ok, err, value_error, ◌>>=◌, List, [], ◌∷◌, foldl, filter, length,
  replicate, is_nonempty, if◌then◌else◌,
}
use nimbus_mesh_x.Float.{Float, ◌⊕◌, ◌⊖◌, ◌⊗◌, ◌<?◌, of_ℕ, max, minimum}

pub record PoolRuntime (F : Type 0) : Type 0 where
  pub cluster_id : String
  pub zone : String
  pub pool_id : String
  pub backend_name : String
  pub accelerator_type : String
  pub supported_models : List String
  pub prefill_tps : F
  pub decode_tps : F
  pub memory_gb : F
  pub gpu_count : ℕ
  pub parallel_slots : ℕ
  pub cost_per_1m_tokens : F
  pub energy_proxy : F
  pub topology_tier : String
  pub premium : Bool
  pub queue_limit : ℕ
  pub congestion_score : F
  pub slot_available_at : List F
  pub active_memory_gb : F
  pub cache_reserved_gb : F
  pub decision_count : ℕ
  pub completed_count : ℕ
  -- when a request ends, and its memory
  pub inflight_memory : List (F × F)

module _ {F : Type 0} ⦃f : Float F⦄ where
  -- `__post_init__`
  unfoldable pub init_slots : PoolRuntime F → PoolRuntime F
  init_slots p =
      if is_nonempty p.slot_available_at
      then p
      else record p { slot_available_at = replicate p.parallel_slots (of_ℕ 0) }

  abbrev pub still_inflight : F → List (F × F) → List (F × F)
  still_inflight now = filter (λ m. now <? m.0)

  -- The loop keeps what ends later than `now` and adds up its memory from 0.
  unfoldable pub refresh : F → PoolRuntime F → PoolRuntime F
  refresh now p =
      let kept = still_inflight now p.inflight_memory in
      record p {
        inflight_memory = kept;
        active_memory_gb = foldl (λ total m. total ⊕ m.1) (of_ℕ 0) kept;
      }

  unfoldable pub inflight_count : F → PoolRuntime F → ℕ
  inflight_count now p = length (filter (λ ts. now <? ts) p.slot_available_at)

  unfoldable pub earliest_slot : List F → Result F
  unfolding minimum
  earliest_slot [] = err value_error
  earliest_slot (x ∷ xs) = ok (minimum x xs)

  unfoldable pub queue_delay_ms : F → PoolRuntime F → Result F
  unfolding earliest_slot max
  queue_delay_ms now p = do
    earliest ← earliest_slot p.slot_available_at
    ok (max (of_ℕ 0) (earliest ⊖ now) ⊗ of_ℕ 1000)

  unfoldable pub memory_headroom_gb : PoolRuntime F → F
  unfolding max
  memory_headroom_gb p = max (of_ℕ 0) (p.memory_gb ⊖ p.active_memory_gb ⊖ p.cache_reserved_gb)
