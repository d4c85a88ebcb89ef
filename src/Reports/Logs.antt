-- ===== src/Reports/Logs.antt =====
-- nimbusmesh_x/structured_logs.py, `StructuredLogFanout`, and nimbusmesh_x/logging_utils.py,
-- `StructuredDecisionLogger`. `sort_keys=True` orders the text of a line only.
use Prim.Native.String.{◌++◌ as ◌<>◌}
use nimbus_mesh_x.Base.{
  String, string_eq, ◌==◌, Bool, if◌then◌else◌, Option, some, none, List, [], ◌∷◌,
}
use nimbus_mesh_x.Base.Int.{pos}
use nimbus_mesh_x.Base.Dict.{Dict, insert}
use nimbus_mesh_x.Float.{Float, ◌<?◌, of_ℕ}
use nimbus_mesh_x.Types.{RequestResult}
use nimbus_mesh_x.Json.{Value, boolean, integer, number, text, object, of_dict}
use nimbus_mesh_x.Reports.Lines.{Files, exists, append_line}

-- The attributes of the fan-out that hold a path.
pub data LogName : Type 0 where
  scheduler_log cache_log topology_log latency_log failure_log : LogName
  scheduler_log_v2 cache_log_v2 topology_log_v2 latency_log_v2 : LogName

unfoldable pub file_name : LogName → String
file_name scheduler_log_v2 = "scheduler.log"
file_name cache_log_v2 = "cache.log"
file_name topology_log_v2 = "topology.log"
file_name latency_log_v2 = "latency.log"
file_name scheduler_log = "scheduler_decisions.log"
file_name cache_log = "cache_hits.log"
file_name topology_log = "topology_scores.log"
file_name latency_log = "latency_metrics.log"
file_name failure_log = "failure_events.log"

-- `self.base_dir / name`
abbrev pub log_path : String → LogName → String
log_path base_dir log = base_dir <> ("/" <> file_name log)

module _ {F : Type 0} where
  -- `if not path.exists(): path.write_text("")`
  unfoldable pub create : String → Files F → Files F
  create path files = if exists path files then files else insert path [] files

  unfoldable pub create_logs : String → List LogName → Files F → Files F
  create_logs base_dir [] files = files
  create_logs base_dir (log ∷ logs) files =
      create_logs base_dir logs (create (log_path base_dir log) files)

  -- `StructuredLogFanout.__init__`
  unfoldable pub open_logs : String → Files F → Files F
  open_logs base_dir files =
      create_logs base_dir
        (scheduler_log ∷ cache_log ∷ topology_log ∷ latency_log ∷ failure_log ∷ scheduler_log_v2
          ∷ cache_log_v2 ∷ topology_log_v2 ∷ latency_log_v2 ∷ [])
        files

  -- `base | extra`
  unfoldable pub merge : Dict String (Value F) → Dict String (Value F) → Dict String (Value F)
  merge base [] = base
  merge base ((k, v) ∷ extra) = merge (insert k v base) extra

  -- `_append`
  unfoldable pub append_log : String → LogName → Dict String (Value F) → Files F → Files F
  append_log base_dir log payload files =
      append_line (log_path base_dir log) (object (of_dict payload)) files

  unfoldable pub write_logs : String → List (LogName × Dict String (Value F)) → Files F → Files F
  write_logs base_dir [] files = files
  write_logs base_dir ((log, payload) ∷ writes) files =
      write_logs base_dir writes (append_log base_dir log payload files)

  unfoldable pub emit_failure_event : String → Dict String (Value F) → Files F → Files F
  emit_failure_event base_dir payload files = append_log base_dir failure_log payload files

  -- `StructuredDecisionLogger`: a path that is None or empty writes nothing.
  unfoldable pub open_decisions : Option String → Files F → Files F
  open_decisions none files = files
  open_decisions (some path) files = if path == "" then files else insert path [] files

  unfoldable pub emit_decision : Option String → Value F → Files F → Files F
  emit_decision none payload files = files
  emit_decision (some path) payload files =
      if path == "" then files else append_line path payload files

module _ {F : Type 0} ⦃f : Float F⦄ where
  -- `result.cache_hit_ratio > 0.0`
  abbrev pub is_hit : RequestResult F → Bool
  is_hit result = of_ℕ 0 <? result.cache_hit_ratio

  unfoldable pub base_payload : RequestResult F → Dict String (Value F)
  base_payload result =
      ("timestamp", number result.request.arrival_ts)
      ∷ ("request_id", text result.request.request_id)
      ∷ ("tenant_id", text result.request.tenant_id)
      ∷ ("model_id", text result.request.model_id)
      ∷ ("chosen_cluster", text result.decision.cluster_id)
      ∷ ("gpu_id", text result.decision.pool_id)
      ∷ ("backend", text result.decision.backend_name)
      ∷ ("latency_estimate_ms", number result.decision.estimated_latency_ms)
      ∷ ("actual_latency_ms", number result.total_latency_ms)
      ∷ ("cache_hit", boolean (is_hit result))
      ∷ ("cache_hit_ratio", number result.cache_hit_ratio)
      ∷ ("cost_usd", number result.cost_usd)
      ∷ []

  unfoldable pub scheduler_payload : RequestResult F → Dict String (Value F)
  scheduler_payload result = merge (base_payload result) (("type", text "scheduler_decision") ∷ [])

  unfoldable pub topology_payload : RequestResult F → Dict String (Value F)
  topology_payload result = merge (base_payload result) (
      ("type", text "topology_score")
      ∷ ("topology_affinity", number result.decision.topology_affinity)
      ∷ ("network_cost", number result.network_cost)
      ∷ [])

  unfoldable pub latency_payload : RequestResult F → Dict String (Value F)
  latency_payload result = merge (base_payload result) (
      ("type", text "latency_metric")
      ∷ ("queue_delay_ms", number result.queue_delay_ms)
      ∷ ("prefill_latency_ms", number result.prefill_latency_ms)
      ∷ ("decode_latency_ms", number result.decode_latency_ms)
      ∷ ("sla_met", boolean result.sla_met)
      ∷ [])

  unfoldable pub cache_payload : RequestResult F → Dict String (Value F)
  cache_payload result = merge (base_payload result) (
      ("type", text "cache_hit")
      ∷ ("cache_saved_tokens", integer (pos result.cache_saved_tokens))
      ∷ [])

  -- The lines that `emit_result` writes, in order, with the attribute of the file.
  unfoldable pub log_writes : RequestResult F → List (LogName × Dict String (Value F))
  log_writes result =
      (scheduler_log, scheduler_payload result)
      ∷ (scheduler_log_v2, scheduler_payload result)
      ∷ (topology_log, topology_payload result)
      ∷ (topology_log_v2, topology_payload result)
      ∷ (latency_log, latency_payload result)
      ∷ (latency_log_v2, latency_payload result)
      ∷ (if is_hit result
          then (cache_log, cache_payload result) ∷ (cache_log_v2, cache_payload result) ∷ []
          else [])

  unfoldable pub emit_result : String → RequestResult F → Files F → Files F
  emit_result base_dir result files = write_logs base_dir (log_writes result) files
