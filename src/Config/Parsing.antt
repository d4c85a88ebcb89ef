-- ===== src/Config/Parsing.antt =====
-- nimbusmesh_x/config.py: the `from_dict` of each record, from the value that `json.loads` returns, in
-- the order in which the code reads the keys.
use nimbus_mesh_x.Base.{
  ℕ, String, string_eq, false, List, [], ◌∷◌, map, Option, some, none, Result, ok, err, value_error,
  ◌>>=◌, traverse,
}
use nimbus_mesh_x.Base.Int.{pos}
use nimbus_mesh_x.Base.Dict.{get_or}
use nimbus_mesh_x.Float.{Float, decimal}
use nimbus_mesh_x.Config.{
  DistributionConfig, WorkloadConfig, PoolSpec, ClusterSpec, ExperimentConfig,
}
use nimbus_mesh_x.Json.{
  Value, null, boolean, integer, number, text, array, object, no_values, no_members, member,
  Formats, methods, subscript, iterate, text_of, text_or_none, natural, truth, to_float, to_int,
  to_text, float_items,
}

module _ {F : Type 0} ⦃f : Float F⦄ (formats : Formats F) where
  -- `int(value)`, as a natural number
  unfoldable pub to_natural : Value F → Result ℕ
  to_natural value = to_int formats value >>= λ n. natural n

  -- `DistributionConfig.from_dict`
  unfoldable pub distribution_from_dict : Value F → Result (DistributionConfig F)
  distribution_from_dict payload = do
    d ← methods payload
    distribution ← text_of (get_or "distribution" (text "lognormal") d)
    mean ← to_float formats (get_or "mean" (number (decimal 10240 1)) d)
    sigma ← to_float formats (get_or "sigma" (number (decimal 7 1)) d)
    least ← to_natural (get_or "min" (integer (pos 32)) d)
    greatest ← to_natural (get_or "max" (integer (pos 32768)) d)
    ok (record {
      distribution = distribution;
      mean = mean;
      sigma = sigma;
      min = least;
      max = greatest;
    })

  -- A dictionary with one key, at 1.0.
  abbrev only : String → Value F
  only key = object (member key (number (decimal 10 1)) no_members)

  -- `int(payload["trace_limit"]) if payload.get("trace_limit") is not None else None`
  unfoldable pub optional_natural : Value F → Result (Option ℕ)
  optional_natural null = ok none
  optional_natural value = to_natural value >>= λ n. ok (some n)

  -- `WorkloadConfig.from_dict`
  unfoldable pub workload_from_dict : Value F → Result (WorkloadConfig F)
  workload_from_dict payload = do
    count ← subscript payload "request_count"
    request_count ← to_natural count
    d ← methods payload
    duration_s ← to_float formats (get_or "duration_s" (number (decimal 600 1)) d)
    arrival_pattern ← text_of (get_or "arrival_pattern" (text "poisson") d)
    prompt_tokens ← distribution_from_dict (get_or "prompt_tokens" (object no_members) d)
    generation_tokens ← distribution_from_dict (get_or "generation_tokens" (object no_members) d)
    tenant_weights ← float_items formats (get_or "tenant_weights" (only "tenant-a") d)
    model_mix ← float_items formats (get_or "model_mix" (only "llama-3-8b") d)
    sla_mix ← float_items formats (get_or "sla_mix" (only "interactive") d)
    trace_path ← text_or_none (get_or "trace_path" null d)
    trace_replay_speed ← to_float formats (get_or "trace_replay_speed" (number (decimal 10 1)) d)
    trace_default_model ← text_of (get_or "trace_default_model" (text "llama-3-8b") d)
    trace_default_sla ← text_of (get_or "trace_default_sla" (text "interactive") d)
    trace_limit ← optional_natural (get_or "trace_limit" null d)
    session_reuse_probability ←
        to_float formats (get_or "session_reuse_probability" (number (decimal 4 1)) d)
    burst_factor ← to_float formats (get_or "burst_factor" (number (decimal 10 1)) d)
    cache_hostility ← to_float formats (get_or "cache_hostility" (number (decimal 0 1)) d)
    ok (record {
      request_count = request_count;
      duration_s = duration_s;
      arrival_pattern = arrival_pattern;
      prompt_tokens = prompt_tokens;
      generation_tokens = generation_tokens;
      tenant_weights = tenant_weights;
      model_mix = model_mix;
      sla_mix = sla_mix;
      trace_path = trace_path;
      trace_replay_speed = trace_replay_speed;
      trace_default_model = trace_default_model;
      trace_default_sla = trace_default_sla;
      trace_limit = trace_limit;
      session_reuse_probability = session_reuse_probability;
      burst_factor = burst_factor;
      cache_hostility = cache_hostility;
    })

  -- `tuple()` of None, or the texts of the items
  unfoldable pub model_names : Value F → Result (List String)
  model_names null = ok []
  model_names models = iterate models >>= λ vs. ok (map (to_text formats) vs)

  -- `PoolSpec.from_dict`
  unfoldable pub pool_from_dict : Value F → Result (PoolSpec F)
  pool_from_dict payload = do
    d ← methods payload
    supported_models ← model_names (get_or "supported_models" null d)
    pool_id ← subscript payload "pool_id" >>= text_of
    backend_name ← text_of (get_or "backend_name" (text "mock") d)
    accelerator_type ← subscript payload "accelerator_type" >>= text_of
    prefill_tps ← subscript payload "prefill_tps" >>= to_float formats
    decode_tps ← subscript payload "decode_tps" >>= to_float formats
    memory_gb ← subscript payload "memory_gb" >>= to_float formats
    gpus ← subscript payload "gpu_count"
    gpu_count ← to_natural gpus
    parallel_slots ← to_natural (get_or "parallel_slots" gpus d)
    cost_per_1m_tokens ← subscript payload "cost_per_1m_tokens" >>= to_float formats
    energy_proxy ← to_float formats (get_or "energy_proxy" (number (decimal 10 1)) d)
    topology_tier ← text_of (get_or "topology_tier" (text "pcie-fabric") d)
    queue_limit ← to_natural (get_or "queue_limit" (integer (pos 1024)) d)
    ok (record {
      pool_id = pool_id;
      backend_name = backend_name;
      accelerator_type = accelerator_type;
      supported_models = supported_models;
      prefill_tps = prefill_tps;
      decode_tps = decode_tps;
      memory_gb = memory_gb;
      gpu_count = gpu_count;
      parallel_slots = parallel_slots;
      cost_per_1m_tokens = cost_per_1m_tokens;
      energy_proxy = energy_proxy;
      topology_tier = topology_tier;
      premium = truth (get_or "premium" (boolean false) d);
      queue_limit = queue_limit;
    })

  -- `(float(s), float(e))` of an item that is unpacked into two
  unfoldable pub float_pair : Value F → Result (F × F)
  float_pair item = iterate item >>= λ parts. elim parts [
    | s ∷ e ∷ [] ↦ to_float formats s >>= λ x. to_float formats e >>= λ y. ok (x, y)
    | _ ↦ err value_error
  ]

  unfoldable pub float_triple : Value F → Result (F × F × F)
  float_triple item = iterate item >>= λ parts. elim parts [
    | s ∷ e ∷ m ∷ [] ↦ to_float formats s >>= λ x.
        to_float formats e >>= λ y. to_float formats m >>= λ z. ok (x, y, z)
    | _ ↦ err value_error
  ]

  -- `ClusterSpec.from_dict`
  unfoldable pub cluster_from_dict : Value F → Result (ClusterSpec F)
  cluster_from_dict payload = do
    cluster_id ← subscript payload "cluster_id" >>= text_of
    zone ← subscript payload "zone" >>= text_of
    d ← methods payload
    ingress_cost ← to_float formats (get_or "ingress_cost" (number (decimal 10 1)) d)
    network_costs ← float_items formats (get_or "network_costs" (object no_members) d)
    base_congestion ← to_float formats (get_or "base_congestion" (number (decimal 0 1)) d)
    pool_values ← subscript payload "pools" >>= iterate
    pools ← traverse pool_from_dict pool_values
    gpu_topology_file ← text_or_none (get_or "gpu_topology_file" null d)
    failures ← iterate (get_or "failure_windows" (array no_values) d)
    failure_windows ← traverse float_pair failures
    congestions ← iterate (get_or "congestion_windows" (array no_values) d)
    congestion_windows ← traverse float_triple congestions
    ok (record {
      cluster_id = cluster_id;
      zone = zone;
      ingress_cost = ingress_cost;
      network_costs = network_costs;
      base_congestion = base_congestion;
      pools = pools;
      gpu_topology_file = gpu_topology_file;
      failure_windows = failure_windows;
      congestion_windows = congestion_windows;
    })

  -- `ExperimentConfig.from_dict`
  unfoldable pub experiment_from_dict : Value F → Result (ExperimentConfig F)
  experiment_from_dict payload = do
    d ← methods payload
    name ← text_of (get_or "name" (text "nimbusmesh-x-experiment") d)
    seed ← to_natural (get_or "seed" (integer (pos 7)) d)
    policy ← text_of (get_or "policy" (text "multi_objective") d)
    workload ← subscript payload "workload" >>= workload_from_dict
    cluster_values ← subscript payload "clusters" >>= iterate
    clusters ← traverse cluster_from_dict cluster_values
    decision_log_path ← text_or_none (get_or "decision_log_path" null d)
    metrics_output_path ← text_or_none (get_or "metrics_output_path" null d)
    fairness_strength ← to_float formats (get_or "fairness_strength" (number (decimal 25 2)) d)
    target_fairness ← to_float formats (get_or "target_fairness" (number (decimal 95 2)) d)
    ok (record {
      name = name;
      seed = seed;
      policy = policy;
      workload = workload;
      clusters = clusters;
      decision_log_path = decision_log_path;
      metrics_output_path = metrics_output_path;
      fairness_strength = fairness_strength;
      target_fairness = target_fairness;
    })

module _ {F : Type 0} where
  unfoldable pub with_policy : String → ExperimentConfig F → ExperimentConfig F
  with_policy policy config = record config { policy = policy }

  unfoldable pub with_seed : ℕ → ExperimentConfig F → ExperimentConfig F
  with_seed seed config = record config { seed = seed }
