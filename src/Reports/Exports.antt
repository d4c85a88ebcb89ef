-- ===== src/Reports/Exports.antt =====
-- nimbusmesh_x/exporters.py, `ResultCSVExporter`, and nimbusmesh_x/metrics.py: the dictionary that
-- `summary` returns, and `write_summary`. A line of a CSV file is the array of its cells.
use Prim.Native.String.{◌++◌ as ◌<>◌}
use nimbus_mesh_x.Base.{
  String, string_eq, ◌==◌, if◌then◌else◌, Option, some, none, List, [], ◌∷◌, map, Result, ok, err,
  key_error, or_raise, traverse,
}
use nimbus_mesh_x.Base.Int.{pos}
use nimbus_mesh_x.Base.Dict.{Dict, lookup, insert}
use nimbus_mesh_x.Metrics.{Summary}
use nimbus_mesh_x.Json.{Value, integer, number, text, array, object, of_list, of_dict}
use nimbus_mesh_x.Reports.Lines.{Files, exists, append_line}

-- The file names with their columns, in the order in which they are written.
abbrev pub exports : List (String × List String)
exports =
    (
      "latency.csv",
      "config_name" ∷ "policy_name" ∷ "p50_latency_ms" ∷ "p95_latency_ms" ∷ "p99_latency_ms"
          ∷ "mean_absolute_latency_error_ms" ∷ [],
    )
    ∷ (
      "throughput.csv",
      "config_name" ∷ "policy_name" ∷ "throughput_tokens_per_s" ∷ "throughput_requests_per_s" ∷ [],
    )
    ∷ (
      "gpu_utilization.csv",
      "config_name" ∷ "policy_name" ∷ "gpu_utilization_proxy" ∷ "memory_utilization_proxy"
          ∷ "energy_proxy_total" ∷ [],
    )
    ∷ (
      "cost_analysis.csv",
      "config_name" ∷ "policy_name" ∷ "cost_per_1m_tokens_usd" ∷ "network_cost_total"
          ∷ "fairness_index" ∷ [],
    )
    ∷ (
      "cache_hit_ratio.csv",
      "config_name" ∷ "policy_name" ∷ "cache_hit_ratio" ∷ "cache_saved_tokens_total"
          ∷ "sla_miss_rate" ∷ [],
    )
    ∷ []

module _ {F : Type 0} where
  -- The dictionary of a summary.
  unfoldable pub report_of : Summary F → Dict String (Value F)
  report_of s =
      ("config_name", text s.config_name)
      ∷ ("policy_name", text s.policy_name)
      ∷ ("requests_total", integer (pos s.requests_total))
      ∷ ("requests_admitted", integer (pos s.requests_admitted))
      ∷ ("p50_latency_ms", number s.p50_latency_ms)
      ∷ ("p95_latency_ms", number s.p95_latency_ms)
      ∷ ("p99_latency_ms", number s.p99_latency_ms)
      ∷ ("p50_prefill_ms", number s.p50_prefill_ms)
      ∷ ("p95_prefill_ms", number s.p95_prefill_ms)
      ∷ ("p50_decode_ms", number s.p50_decode_ms)
      ∷ ("throughput_tokens_per_s", number s.throughput_tokens_per_s)
      ∷ ("throughput_requests_per_s", number s.throughput_requests_per_s)
      ∷ ("cache_hit_ratio", number s.cache_hit_ratio)
      ∷ ("cache_saved_tokens_total", integer (pos s.cache_saved_tokens_total))
      ∷ ("sla_miss_rate", number s.sla_miss_rate)
      ∷ ("cost_per_1m_tokens_usd", number s.cost_per_1m_tokens_usd)
      ∷ ("energy_proxy_total", number s.energy_proxy_total)
      ∷ ("network_cost_total", number s.network_cost_total)
      ∷ ("gpu_utilization_proxy", number s.gpu_utilization_proxy)
      ∷ ("memory_utilization_proxy", number s.memory_utilization_proxy)
      ∷ ("mean_absolute_latency_error_ms", number s.mean_absolute_latency_error_ms)
      ∷ ("fairness_index", number s.fairness_index)
      ∷ []

  -- `if not path: return`, and the file is written anew.
  unfoldable pub write_summary : Option String → Dict String (Value F) → Files F → Files F
  write_summary none report files = files
  write_summary (some path) report files =
      if path == "" then files else insert path (object (of_dict report) ∷ []) files

  -- The cells of a row, in the order of the columns: `report[…]` of each.
  unfoldable pub csv_row : List String → Dict String (Value F) → Result (List (Value F))
  csv_row columns report = traverse (λ column. or_raise (lookup column report) key_error) columns

  -- `_append`: a file that is new gets its header first.
  unfoldable pub append_row : String → List String → List (Value F) → Files F → Files F
  append_row path columns row files =
      let line : Value F = array (of_list row) in
      let header : Value F = array (of_list (map (λ c. text c) columns)) in
      if exists path files
      then append_line path line files
      else append_line path line (append_line path header files)

  -- The files as they are left, and whether a key was missing.
  unfoldable pub export_rows :
      String
      → Dict String (Value F)
      → List (String × List String)
      → Files F
      → Files F × Result (Unit {0})
  export_rows base_dir report [] files = (files, ok tt)
  export_rows base_dir report ((name, columns) ∷ rest) files = elim (csv_row columns report) [
    | err exception ↦ (files, err exception)
    | ok row ↦
        export_rows base_dir report rest (append_row (base_dir <> ("/" <> name)) columns row files)
  ]

  unfoldable pub export_summary :
      String → Dict String (Value F) → Files F → Files F × Result (Unit {0})
  export_summary base_dir report files = export_rows base_dir report exports files
