-- ===== src/Config.antt =====
-- nimbusmesh_x/config.py: the configuration, as `load_config` returns it.
pub mod Parsing
pub mod RoundTrip
use nimbus_mesh_x.Base.{ℕ, String, Bool, List, Option}
use nimbus_mesh_x.Base.Dict.{Dict}

pub record DistributionConfig (F : Type 0) : Type 0 where
  pub distribution : String
  pub mean : F
  pub sigma : F
  pub min : ℕ
  pub max : ℕ

pub record WorkloadConfig (F : Type 0) : Type 0 where
  pub request_count : ℕ
  pub duration_s : F
  pub arrival_pattern : String
  pub prompt_tokens : DistributionConfig F
  pub generation_tokens : DistributionConfig F
  pub tenant_weights : Dict String F
  pub model_mix : Dict String F
  pub sla_mix : Dict String F
  pub trace_path : Option String
  pub trace_replay_speed : F
  pub trace_default_model : String
  pub trace_default_sla : String
  pub trace_limit : Option ℕ
  pub session_reuse_probability : F
  pub burst_factor : F
  pub cache_hostility : F

pub record PoolSpec (F : Type 0) : Type 0 where
  pub pool_id : String
  pub backend_name : String
  pub accelerator_type : String
  pub supported_models : List String
  pub prefill_tps : F
  pub decode_tps : F
  pub memory_gb : F
  pub gpu_count : ℕ
  pub parallel_slots : ℕ
  pub cost_per_1m_tokens : F
  pub energy_proxy : F
  pub topology_tier : String
  pub premium : Bool
  pub queue_limit : ℕ

pub record ClusterSpec (F : Type 0) : Type 0 where
  pub cluster_id : String
  pub zone : String
  pub ingress_cost : F
  pub network_costs : Dict String F
  pub base_congestion : F
  pub pools : List (PoolSpec F)
  pub gpu_topology_file : Option String
  pub failure_windows : List (F × F)
  pub congestion_windows : List (F × F × F)

pub record ExperimentConfig (F : Type 0) : Type 0 where
  pub name : String
  pub seed : ℕ
  pub policy : String
  pub workload : WorkloadConfig F
  pub clusters : List (ClusterSpec F)
  pub decision_log_path : Option String
  pub metrics_output_path : Option String
  pub fairness_strength : F
  pub target_fairness : F
