-- ===== src/Reports/Payloads.antt =====
-- nimbusmesh_x/types.py: `RequestResult.to_dict`.
use nimbus_mesh_x.Base.{String, Option, some, none, [], ◌∷◌, map}
use nimbus_mesh_x.Base.Int.{pos}
use nimbus_mesh_x.Types.{
  sla_text, InferenceRequest, RoutingDecision, RequestResult, Rejection, cluster_unavailable,
  unsupported_model, queue_full, memory_pressure,
}
use nimbus_mesh_x.Json.{Value, null, boolean, integer, number, text, object, of_dict}

unfoldable pub rejection_text : Rejection → String
rejection_text cluster_unavailable = "cluster-unavailable"
rejection_text unsupported_model = "unsupported-model"
rejection_text queue_full = "queue-limit"
rejection_text memory_pressure = "memory-pressure"

module _ {F : Type 0} where
  unfoldable pub text_value : Option String → Value F
  text_value none = null
  text_value (some s) = text s

  unfoldable pub rejection_value : Option Rejection → Value F
  rejection_value none = null
  rejection_value (some reason) = text (rejection_text reason)

  unfoldable pub request_value : InferenceRequest F → Value F
  request_value r = object (
      of_dict (
        ("request_id", text r.request_id)
        ∷ ("tenant_id", text r.tenant_id)
        ∷ ("model_id", text r.model_id)
        ∷ ("prompt_tokens", integer (pos r.prompt_tokens))
        ∷ ("generation_tokens", integer (pos r.generation_tokens))
        ∷ ("arrival_ts", number r.arrival_ts)
        ∷ ("sla_class", text (sla_text r.sla_class))
        ∷ ("session_id", text_value r.session_id)
        ∷ ("prefix_signature", text r.prefix_signature)
        ∷ ("max_latency_ms", number r.max_latency_ms)
        ∷ ("metadata", object (of_dict (map (λ p. (p.0, text p.1)) r.metadata)))
        ∷ []))

  unfoldable pub decision_value : RoutingDecision F → Value F
  decision_value d = object (
      of_dict (
        ("request_id", text d.request_id)
        ∷ ("policy_name", text d.policy_name)
        ∷ ("cluster_id", text d.cluster_id)
        ∷ ("pool_id", text d.pool_id)
        ∷ ("backend_name", text d.backend_name)
        ∷ ("estimated_latency_ms", number d.estimated_latency_ms)
        ∷ ("estimated_queue_delay_ms", number d.estimated_queue_delay_ms)
        ∷ ("estimated_cache_hit_ratio", number d.estimated_cache_hit_ratio)
        ∷ ("topology_affinity", number d.topology_affinity)
        ∷ ("network_cost", number d.network_cost)
        ∷ ("accelerator_cost_per_1m_tokens", number d.accelerator_cost_per_1m_tokens)
        ∷ ("fairness_penalty", number d.fairness_penalty)
        ∷ ("score_breakdown", object (of_dict (map (λ p. (p.0, number p.1)) d.score_breakdown)))
        ∷ []))

  unfoldable pub to_dict : RequestResult F → Value F
  to_dict r = object (
      of_dict (
        ("request", request_value r.request)
        ∷ ("decision", decision_value r.decision)
        ∷ ("admitted", boolean r.admitted)
        ∷ ("actual_start_ts", number r.actual_start_ts)
        ∷ ("completion_ts", number r.completion_ts)
        ∷ ("queue_delay_ms", number r.queue_delay_ms)
        ∷ ("prefill_latency_ms", number r.prefill_latency_ms)
        ∷ ("decode_latency_ms", number r.decode_latency_ms)
        ∷ ("total_latency_ms", number r.total_latency_ms)
        ∷ ("cache_hit_ratio", number r.cache_hit_ratio)
        ∷ ("cache_saved_tokens", integer (pos r.cache_saved_tokens))
        ∷ ("memory_gb", number r.memory_gb)
        ∷ ("cost_usd", number r.cost_usd)
        ∷ ("energy_proxy", number r.energy_proxy)
        ∷ ("network_cost", number r.network_cost)
        ∷ ("sla_met", boolean r.sla_met)
        ∷ ("rejection_reason", rejection_value r.rejection_reason)
        ∷ []))
