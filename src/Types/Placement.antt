-- ===== src/Types/Placement.antt =====
-- nimbusmesh_x/types.py, `CandidatePlacement`, `RoutingDecision`, `RequestResult`, `TenantStats`. The
-- texts of `rejection_reason` are a data type.
use nimbus_mesh_x.Base.{ℕ, String, Bool, Option}
use nimbus_mesh_x.Base.Dict.{Dict}
use nimbus_mesh_x.Float.{Float, ◌⊕◌, of_ℕ}
use nimbus_mesh_x.Types.Request.{InferenceRequest}

pub data Rejection : Type 0 where
  cluster_unavailable unsupported_model queue_full memory_pressure : Rejection

pub record CandidatePlacement (F : Type 0) : Type 0 where
  pub cluster_id : String
  pub pool_id : String
  pub backend_name : String
  pub accelerator_type : String
  pub queue_delay_ms : F
  pub projected_prefill_ms : F
  pub projected_decode_ms : F
  pub expected_cache_hit_ratio : F
  pub expected_cache_saved_tokens : ℕ
  pub topology_affinity : F
  pub network_cost : F
  pub congestion_score : F
  pub memory_headroom_gb : F
  pub accelerator_cost_per_1m_tokens : F
  pub fairness_penalty : F
  pub premium : Bool
  pub available : Bool
  pub rejection_reason : Option Rejection
  pub score_breakdown : Dict String F

pub record RoutingDecision (F : Type 0) : Type 0 where
  pub request_id : String
  pub policy_name : String
  pub cluster_id : String
  pub pool_id : String
  pub backend_name : String
  pub estimated_latency_ms : F
  pub estimated_queue_delay_ms : F
  pub estimated_cache_hit_ratio : F
  pub topology_affinity : F
  pub network_cost : F
  pub accelerator_cost_per_1m_tokens : F
  pub fairness_penalty : F
  pub score_breakdown : Dict String F

pub record RequestResult (F : Type 0) : Type 0 where
  pub request : InferenceRequest F
  pub decision : RoutingDecision F
  pub admitted : Bool
  pub actual_start_ts : F
  pub completion_ts : F
  pub queue_delay_ms : F
  pub prefill_latency_ms : F
  pub decode_latency_ms : F
  pub total_latency_ms : F
  pub cache_hit_ratio : F
  pub cache_saved_tokens : ℕ
  pub memory_gb : F
  pub cost_usd : F
  pub energy_proxy : F
  pub network_cost : F
  pub sla_met : Bool
  pub rejection_reason : Option Rejection

pub record TenantStats (F : Type 0) : Type 0 where
  pub submitted : ℕ
  pub completed : ℕ
  pub total_latency_ms : F
  pub sla_misses : ℕ

module _ {F : Type 0} ⦃f : Float F⦄ where
  unfoldable pub estimated_total_latency_ms : CandidatePlacement F → F
  estimated_total_latency_ms c = c.queue_delay_ms ⊕ c.projected_prefill_ms ⊕ c.projected_decode_ms

  -- `TenantStats()`
  abbrev pub no_stats : TenantStats F
  no_stats = record { submitted = 0; completed = 0; total_latency_ms = of_ℕ 0; sla_misses = 0 }
