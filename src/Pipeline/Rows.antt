-- ===== src/Pipeline/Rows.antt =====
-- data_pipeline/schema.py and data_pipeline/utils.py: the normalized row, how it is written, and what
-- the normalizers make of texts.
use Prim.Native.Nat.{max as greatest}
use nimbus_mesh_x.Base.{
  ℕ, String, string_eq, ◌==◌, ◌||◌, if◌then◌else◌, List, length, map, some, Result, ok, err,
  attribute_error, ◌>>=◌,
}
use nimbus_mesh_x.Base.Words.{strip, lower, split}
use nimbus_mesh_x.Float.{Float, ◌⊗◌, decimal, of_ℕ, round, trunc}
use nimbus_mesh_x.Json.{Value, text, ◌or◌}
use nimbus_mesh_x.Workload.{TraceRow}

pub record NormalizedWorkloadRow (F : Type 0) : Type 0 where
  pub timestamp : F
  pub request_id : String
  pub prompt_length : ℕ
  pub expected_output_length : ℕ
  pub tenant_id : String
  pub priority_class : String
  pub model_id : String
  pub session_id : String

-- The tests of `clamp_priority` on the text without white space around it, in lower case.
unfoldable pub clamp_value : String → String
clamp_value value =
    if value == "realtime" || value == "interactive" || value == "best_effort"
    then value
    else if value == "high" || value == "p0" || value == "critical"
    then "realtime"
    else if value == "low" || value == "p2" || value == "batch"
    then "best_effort"
    else "interactive"

module _ {F : Type 0} ⦃f : Float F⦄ where
  -- `.strip()` of a value that may be no text
  unfoldable pub stripped : Value F → Result String
  stripped (text s) = ok (strip s)
  stripped _ = err attribute_error

  unfoldable pub clamp_priority : Value F → Result String
  clamp_priority raw = stripped (raw or text "") >>= λ value. ok (clamp_value (lower value))

  unfoldable pub approx_token_length : Value F → Result ℕ
  approx_token_length value = stripped (value or text "") >>= λ s.
      ok (
        if s == "" then 1 else greatest 1 (trunc (of_ℕ {F = F} (length (split s)) ⊗ decimal 133 2)))

  -- A row as `write_normalized_rows` writes it and the reader of traces finds it: a CSV file keeps every
  -- text, and a float as what `str` shows of it.
  unfoldable pub written : NormalizedWorkloadRow F → TraceRow F
  written row = record {
    timestamp = round row.timestamp 6;
    request_id = row.request_id;
    prompt_length = of_ℕ row.prompt_length;
    expected_output_length = of_ℕ row.expected_output_length;
    tenant_id = row.tenant_id;
    priority_class = row.priority_class;
    model_id = some row.model_id;
    session_id = some row.session_id;
  }

  unfoldable pub write_normalized_rows : List (NormalizedWorkloadRow F) → List (TraceRow F)
  write_normalized_rows rows = map written rows
