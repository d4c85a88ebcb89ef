-- ===== src/Config/RoundTrip.antt =====
-- nimbusmesh_x/config.py: the documents that describe a configuration, key by key, and what `from_dict`
-- makes of them. The code has no printer; `experiment_document` says which document a configuration
-- stands for.
use nimbus_mesh_x.Base.{
  ℕ, ◌≡◌, refl, ap, String, string_eq, List, [], ◌∷◌, map, Option, some, none, Result, ok, traverse,
}
use nimbus_mesh_x.Base.Int.{pos}
use nimbus_mesh_x.Base.Dict.{Dict, lookup, get_or}
use nimbus_mesh_x.Float.{Float}
use nimbus_mesh_x.Config.{
  DistributionConfig, WorkloadConfig, PoolSpec, ClusterSpec, ExperimentConfig,
}
use nimbus_mesh_x.Config.Parsing.{
  to_natural, distribution_from_dict, optional_natural, workload_from_dict, model_names,
  pool_from_dict, float_pair, float_triple, cluster_from_dict, experiment_from_dict,
}
use nimbus_mesh_x.Json.{
  Value, null, boolean, integer, number, text, array, object, Formats, elements, entries, of_list,
  of_dict, methods, subscript, iterate, text_of, text_or_none, natural, truth, to_float, to_int,
  to_text, float_items,
}

module _ {F : Type 0} where
  abbrev document : Dict String (Value F) → Value F
  document d = object (of_dict d)

  abbrev list_of : List (Value F) → Value F
  list_of vs = array (of_list vs)

  abbrev numbers : Dict String F → Value F
  numbers d = document (map (λ p. (p.0, number p.1)) d)

  abbrev count : ℕ → Value F
  count n = integer (pos n)

  optional_text : Option String → Value F
  optional_text none = null
  optional_text (some s) = text s

  optional_count : Option ℕ → Value F
  optional_count none = null
  optional_count (some n) = count n

  distribution_document : DistributionConfig F → Value F
  distribution_document c = document (
      ("distribution", text c.distribution)
      ∷ ("mean", number c.mean)
      ∷ ("sigma", number c.sigma)
      ∷ ("min", count c.min)
      ∷ ("max", count c.max)
      ∷ [])

  unfoldable pub workload_document : WorkloadConfig F → Value F
  unfolding distribution_document optional_text optional_count
  workload_document c = document (
      ("request_count", count c.request_count)
      ∷ ("duration_s", number c.duration_s)
      ∷ ("arrival_pattern", text c.arrival_pattern)
      ∷ ("prompt_tokens", distribution_document c.prompt_tokens)
      ∷ ("generation_tokens", distribution_document c.generation_tokens)
      ∷ ("tenant_weights", numbers c.tenant_weights)
      ∷ ("model_mix", numbers c.model_mix)
      ∷ ("sla_mix", numbers c.sla_mix)
      ∷ ("trace_path", optional_text c.trace_path)
      ∷ ("trace_replay_speed", number c.trace_replay_speed)
      ∷ ("trace_default_model", text c.trace_default_model)
      ∷ ("trace_default_sla", text c.trace_default_sla)
      ∷ ("trace_limit", optional_count c.trace_limit)
      ∷ ("session_reuse_probability", number c.session_reuse_probability)
      ∷ ("burst_factor", number c.burst_factor)
      ∷ ("cache_hostility", number c.cache_hostility)
      ∷ [])

  unfoldable pub pool_document : PoolSpec F → Value F
  pool_document p = document (
      ("pool_id", text p.pool_id)
      ∷ ("backend_name", text p.backend_name)
      ∷ ("accelerator_type", text p.accelerator_type)
      ∷ ("supported_models", list_of (map (λ s. text s) p.supported_models))
      ∷ ("prefill_tps", number p.prefill_tps)
      ∷ ("decode_tps", number p.decode_tps)
      ∷ ("memory_gb", number p.memory_gb)
      ∷ ("gpu_count", count p.gpu_count)
      ∷ ("parallel_slots", count p.parallel_slots)
      ∷ ("cost_per_1m_tokens", number p.cost_per_1m_tokens)
      ∷ ("energy_proxy", number p.energy_proxy)
      ∷ ("topology_tier", text p.topology_tier)
      ∷ ("premium", boolean p.premium)
      ∷ ("queue_limit", count p.queue_limit)
      ∷ [])

  pair_document : F × F → Value F
  pair_document (s, e) = list_of (number s ∷ number e ∷ [])

  triple_document : F × F × F → Value F
  triple_document (s, e, m) = list_of (number s ∷ number e ∷ number m ∷ [])

  unfoldable pub cluster_document : ClusterSpec F → Value F
  unfolding optional_text pair_document triple_document pool_document
  cluster_document c = document (
      ("cluster_id", text c.cluster_id)
      ∷ ("zone", text c.zone)
      ∷ ("ingress_cost", number c.ingress_cost)
      ∷ ("network_costs", numbers c.network_costs)
      ∷ ("base_congestion", number c.base_congestion)
      ∷ ("pools", list_of (map pool_document c.pools))
      ∷ ("gpu_topology_file", optional_text c.gpu_topology_file)
      ∷ ("failure_windows", list_of (map pair_document c.failure_windows))
      ∷ ("congestion_windows", list_of (map triple_document c.congestion_windows))
      ∷ [])

  unfoldable pub experiment_document : ExperimentConfig F → Value F
  unfolding optional_text workload_document cluster_document
  experiment_document c = document (
      ("name", text c.name)
      ∷ ("seed", count c.seed)
      ∷ ("policy", text c.policy)
      ∷ ("workload", workload_document c.workload)
      ∷ ("clusters", list_of (map cluster_document c.clusters))
      ∷ ("decision_log_path", optional_text c.decision_log_path)
      ∷ ("metrics_output_path", optional_text c.metrics_output_path)
      ∷ ("fairness_strength", number c.fairness_strength)
      ∷ ("target_fairness", number c.target_fairness)
      ∷ [])

  elements-of_list : (vs : List (Value F)) → elements (of_list vs) ≡ vs
  unfolding elements of_list
  elements-of_list [] = refl
  elements-of_list (v ∷ vs) = ap (λ xs. v ∷ xs) (elements-of_list vs)

  iterate-list_of : (vs : List (Value F)) → iterate (list_of vs) ≡ ok vs
  unfolding iterate
  iterate-list_of vs = ap (λ xs. ok xs) (elements-of_list vs)

  entries-of_dict : (d : Dict String (Value F)) → entries (of_dict d) ≡ d
  unfolding entries of_dict
  entries-of_dict [] = refl
  entries-of_dict ((k, v) ∷ d) = ap (λ ps. (k, v) ∷ ps) (entries-of_dict d)

text_or_none-optional_text :
    (F : Type 0) (o : Option String) → text_or_none {F = F} (optional_text o) ≡ ok o
unfolding text_or_none optional_text
text_or_none-optional_text F none = refl
text_or_none-optional_text F (some s) = refl

-- A list of documents, each of which is read back, is read back.
traverse-map :
    {A B : Type 0} (read : B → Result A) (write : A → B) (xs : List A)
    → ((x : A) → read (write x) ≡ ok x)
    → traverse read (map write xs) ≡ ok xs
traverse-map read write [] back = refl
traverse-map read write (x ∷ xs) back = rw (back x, traverse-map read write xs back) refl

module _ {F : Type 0} ⦃f : Float F⦄ (formats : Formats F) where
  optional_natural-optional_count :
      (o : Option ℕ) → optional_natural formats (optional_count o) ≡ ok o
  unfolding optional_natural optional_count to_natural to_int natural
  optional_natural-optional_count none = refl
  optional_natural-optional_count (some n) = refl

  float_items-numbers : (d : Dict String F) → float_items formats (numbers d) ≡ ok d
  unfolding float_items methods to_float
  float_items-numbers d =
      rw (entries-of_dict) (traverse-map _ (λ p. (p.0, number p.1)) d (λ p. refl))

  map-to_text : (xs : List String) → map (to_text formats) (map (λ s. text s) xs) ≡ xs
  unfolding to_text
  map-to_text [] = refl
  map-to_text (x ∷ xs) = ap (λ ys. x ∷ ys) (map-to_text xs)

  pool_from_dict-pool_document : (p : PoolSpec F) → pool_from_dict formats (pool_document p) ≡ ok p
  unfolding pool_from_dict pool_document model_names methods entries of_dict get_or lookup subscript
      iterate text_of to_natural to_int natural to_float truth
  pool_from_dict-pool_document p = rw (elements-of_list, map-to_text) refl

  workload_from_dict-workload_document :
      (c : WorkloadConfig F) → workload_from_dict formats (workload_document c) ≡ ok c
  unfolding workload_from_dict workload_document distribution_from_dict distribution_document
      methods entries of_dict get_or lookup subscript text_of to_natural to_int natural to_float
  workload_from_dict-workload_document c =
      rw
        (
          float_items-numbers c.tenant_weights,
          float_items-numbers c.model_mix,
          float_items-numbers c.sla_mix,
          text_or_none-optional_text,
          optional_natural-optional_count,
        )
        refl

  float_pair-pair_document : (w : F × F) → float_pair formats (pair_document w) ≡ ok w
  unfolding float_pair pair_document iterate elements of_list to_float
  float_pair-pair_document w = refl

  float_triple-triple_document : (w : F × F × F) → float_triple formats (triple_document w) ≡ ok w
  unfolding float_triple triple_document iterate elements of_list to_float
  float_triple-triple_document w = refl

  cluster_from_dict-cluster_document :
      (c : ClusterSpec F) → cluster_from_dict formats (cluster_document c) ≡ ok c
  unfolding cluster_from_dict cluster_document methods entries of_dict get_or lookup subscript
      text_of to_float
  cluster_from_dict-cluster_document c =
      rw
        (
          float_items-numbers,
          iterate-list_of,
          traverse-map (pool_from_dict formats) pool_document c.pools pool_from_dict-pool_document,
          text_or_none-optional_text,
          iterate-list_of,
          traverse-map (float_pair formats) pair_document c.failure_windows
              float_pair-pair_document,
          iterate-list_of,
          traverse-map (float_triple formats) triple_document c.congestion_windows
              float_triple-triple_document,
        )
        refl

  -- The document that gives every field of a configuration under its key is read back by
  -- `from_dict` as that configuration, whatever the configuration is.
  pub experiment_from_dict-experiment_document :
      (c : ExperimentConfig F) → experiment_from_dict formats (experiment_document c) ≡ ok c
  unfolding experiment_from_dict experiment_document methods entries of_dict get_or lookup subscript
      text_of to_natural to_int natural to_float
  experiment_from_dict-experiment_document c =
      rw
        (
          workload_from_dict-workload_document,
          iterate-list_of,
          traverse-map (cluster_from_dict formats) cluster_document c.clusters
              cluster_from_dict-cluster_document,
          text_or_none-optional_text F c.decision_log_path,
          text_or_none-optional_text F c.metrics_output_path,
        )
        refl
