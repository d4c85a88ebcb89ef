-- ===== src/Tests/Data.antt =====
-- The values that the tests share.
use nimbus_mesh_x.Base.{String, true, false, [], ◌∷◌, some, none, Result, err, value_error}
use nimbus_mesh_x.Base.Int.{ℤ}
use nimbus_mesh_x.Float.{of_ℕ, decimal}
use nimbus_mesh_x.Float.Fixed.{fixed_float}
use nimbus_mesh_x.Types.{
  interactive, InferenceRequest, PoolRuntime, ClusterRuntime, CandidatePlacement,
  cluster_unavailable, RoutingDecision, RequestResult,
}
use nimbus_mesh_x.Config.{
  PoolSpec, ClusterSpec, DistributionConfig, WorkloadConfig, ExperimentConfig,
}
use nimbus_mesh_x.Cache.{CacheEntry, Directory}
use nimbus_mesh_x.Gpu.{GpuTopologySnapshot}
use nimbus_mesh_x.Storage.{RedisStore}
use nimbus_mesh_x.Topology.{TopologyLink, Topology}
use nimbus_mesh_x.Policies.{least_queue}
use nimbus_mesh_x.ControlPlane.{ControlPlane, Routers}

abbrev pub request : InferenceRequest ℤ
request = record {
  request_id = "req-000000";
  tenant_id = "tenant-a";
  model_id = "llama-3-8b";
  prompt_tokens = 1000;
  generation_tokens = 100;
  arrival_ts = of_ℕ 5;
  sla_class = interactive;
  session_id = some "s";
  prefix_signature = "p";
  max_latency_ms = of_ℕ 1800;
  metadata = [];
}

abbrev pub redis : RedisStore ℤ
redis = record { enabled = true; decisions = []; cache_affinity = [] }

abbrev pub directory : Directory ℤ
directory = record { ttl_s = of_ℕ 300; max_entries = 50; entries = []; redis_store = redis }

abbrev pub pool_spec : PoolSpec ℤ
pool_spec = record {
  pool_id = "pool-a";
  backend_name = "mock";
  accelerator_type = "h100";
  supported_models = [];
  prefill_tps = of_ℕ 10_000;
  decode_tps = of_ℕ 1000;
  memory_gb = of_ℕ 80;
  gpu_count = 2;
  parallel_slots = 2;
  cost_per_1m_tokens = of_ℕ 3;
  energy_proxy = of_ℕ 1;
  topology_tier = "nvlink-mesh";
  premium = true;
  queue_limit = 64;
}

abbrev pub cluster_spec : ClusterSpec ℤ
cluster_spec = record {
  cluster_id = "east";
  zone = "z1";
  ingress_cost = of_ℕ 1;
  network_costs = [];
  base_congestion = decimal 1 1;
  pools = pool_spec ∷ [];
  gpu_topology_file = none;
  failure_windows = [];
  congestion_windows = [];
}

abbrev pub tokens : DistributionConfig ℤ
tokens = record { distribution = "uniform"; mean = of_ℕ 100; sigma = of_ℕ 1; min = 10; max = 200 }

abbrev pub workload : WorkloadConfig ℤ
workload = record {
  request_count = 2;
  duration_s = of_ℕ 60;
  arrival_pattern = "uniform";
  prompt_tokens = tokens;
  generation_tokens = tokens;
  tenant_weights = ("tenant-a", of_ℕ 1) ∷ [];
  model_mix = ("llama-3-8b", of_ℕ 1) ∷ [];
  sla_mix = ("interactive", of_ℕ 1) ∷ [];
  trace_path = none;
  trace_replay_speed = of_ℕ 1;
  trace_default_model = "llama-3-8b";
  trace_default_sla = "interactive";
  trace_limit = none;
  session_reuse_probability = decimal 4 1;
  burst_factor = of_ℕ 1;
  cache_hostility = of_ℕ 0;
}

abbrev pub config : ExperimentConfig ℤ
config = record {
  name = "test";
  seed = 7;
  policy = "least_queue";
  workload = workload;
  clusters = cluster_spec ∷ [];
  decision_log_path = none;
  metrics_output_path = none;
  fairness_strength = decimal 25 2;
  target_fairness = decimal 95 2;
}

abbrev pub no_snapshot : String → Result (GpuTopologySnapshot ℤ)
no_snapshot name = err value_error

abbrev pub pool : PoolRuntime ℤ
pool = record {
  cluster_id = "east";
  zone = "z1";
  pool_id = "pool-a";
  backend_name = "mock";
  accelerator_type = "h100";
  supported_models = [];
  prefill_tps = of_ℕ 10_000;
  decode_tps = of_ℕ 1000;
  memory_gb = of_ℕ 80;
  gpu_count = 2;
  parallel_slots = 2;
  cost_per_1m_tokens = of_ℕ 3;
  energy_proxy = of_ℕ 1;
  topology_tier = "nvlink-mesh";
  premium = true;
  queue_limit = 64;
  congestion_score = decimal 1 1;
  slot_available_at = of_ℕ 7 ∷ of_ℕ 6 ∷ [];
  active_memory_gb = of_ℕ 1;
  cache_reserved_gb = of_ℕ 0;
  decision_count = 0;
  completed_count = 0;
  inflight_memory = (of_ℕ 7, of_ℕ 1) ∷ [];
}

abbrev pub cluster : ClusterRuntime ℤ
cluster = record {
  cluster_id = "east";
  zone = "z1";
  ingress_cost = of_ℕ 1;
  network_costs = [];
  base_congestion = decimal 1 1;
  failure_windows = [];
  congestion_windows = [];
  pools = ("pool-a", pool) ∷ [];
}

abbrev pub edge : String → String → TopologyLink ℤ
edge source target = record {
  source = source;
  target = target;
  bandwidth_gbps = of_ℕ 800;
  latency_us = of_ℕ 8;
  cost = decimal 2 1;
}

abbrev pub topology : Topology ℤ
topology = record {
  nodes =
      (
        "pool:east:pool-a",
        record {
          node_id = "pool:east:pool-a";
          kind = "pool";
          cluster_id = "east";
          zone = "z1";
          metadata =
              some (record {
                accelerator_type = "h100";
                topology_tier = "nvlink-mesh";
                gpu_count = 2;
              });
        },
      )
      ∷ [];
  adjacency = ("gateway:east", edge "gateway:east" "pool:east:pool-a" ∷ []) ∷ [];
  cluster_gateways = ("east", "gateway:east") ∷ [];
  cluster_probe_affinity = [];
  cluster_probe_cost_factor = [];
}

abbrev pub plane : ControlPlane ℤ
plane = record {
  topology = topology;
  directory = directory;
  clusters = ("east", cluster) ∷ [];
  tenant_stats = [];
  tenant_weights = ("tenant-a", of_ℕ 1) ∷ [];
  policy = least_queue;
  fairness_strength = decimal 25 2;
}

abbrev pub alone : Routers ℤ
alone = record { grpc_client = none; cpp_core = none }

abbrev pub candidate : CandidatePlacement ℤ
candidate = record {
  cluster_id = "east";
  pool_id = "pool-a";
  backend_name = "mock";
  accelerator_type = "h100";
  queue_delay_ms = of_ℕ 1000;
  projected_prefill_ms = of_ℕ 100;
  projected_decode_ms = of_ℕ 100;
  expected_cache_hit_ratio = of_ℕ 0;
  expected_cache_saved_tokens = 0;
  topology_affinity = of_ℕ 1;
  network_cost = of_ℕ 1;
  congestion_score = decimal 1 1;
  memory_headroom_gb = of_ℕ 79;
  accelerator_cost_per_1m_tokens = of_ℕ 3;
  fairness_penalty = of_ℕ 0;
  premium = true;
  available = true;
  rejection_reason = none;
  score_breakdown = [];
}

-- a pool that is down
abbrev pub down : CandidatePlacement ℤ
down = record candidate {
  pool_id = "pool-b";
  queue_delay_ms = of_ℕ 0;
  available = false;
  rejection_reason = some cluster_unavailable;
}

abbrev pub decision : RoutingDecision ℤ
decision = record {
  request_id = "req-000000";
  policy_name = "least_queue";
  cluster_id = "east";
  pool_id = "pool-a";
  backend_name = "mock";
  estimated_latency_ms = of_ℕ 1200;
  estimated_queue_delay_ms = of_ℕ 1000;
  estimated_cache_hit_ratio = of_ℕ 0;
  topology_affinity = of_ℕ 1;
  network_cost = of_ℕ 1;
  accelerator_cost_per_1m_tokens = of_ℕ 3;
  fairness_penalty = of_ℕ 0;
  score_breakdown = [];
}

abbrev pub result : RequestResult ℤ
result = record {
  request = request;
  decision = decision;
  admitted = true;
  actual_start_ts = of_ℕ 6;
  completion_ts = of_ℕ 7;
  queue_delay_ms = of_ℕ 1000;
  prefill_latency_ms = of_ℕ 500;
  decode_latency_ms = of_ℕ 500;
  total_latency_ms = of_ℕ 2000;
  cache_hit_ratio = of_ℕ 0;
  cache_saved_tokens = 0;
  memory_gb = of_ℕ 1;
  cost_usd = decimal 33 4;
  energy_proxy = of_ℕ 1;
  network_cost = of_ℕ 1;
  sla_met = false;
  rejection_reason = none;
}

abbrev pub entry : CacheEntry ℤ
entry = record {
  key = "llama-3-8b:tenant-a:p";
  cluster_id = "east";
  pool_id = "pool-a";
  size_tokens = 800;
  size_gb = of_ℕ 1;
  available_ts = of_ℕ 4;
  last_touched = of_ℕ 4;
  hit_count = 0;
}

abbrev pub warm : Directory ℤ
warm = record directory { entries = ("llama-3-8b:tenant-a:p", entry ∷ []) ∷ [] }
