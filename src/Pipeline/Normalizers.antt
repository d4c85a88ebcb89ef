-- ===== src/Pipeline/Normalizers.antt =====
-- data_pipeline/normalizers.py: one normalizer for each form of dataset. A record is what the reader of
-- JSON or of CSV returns; `hash` is the interpreter's hash of a value, which differs from run to run.
use Prim.Native.Nat.{max as greatest}
use Prim.Native.String.{◌++◌ as ◌<>◌}
use nimbus_mesh_x.Base.{
  ℕ, suc, ◌-◌, ◌/◌, ◌%◌, leb, String, string_eq, Bool, false, if◌then◌else◌, List, [], ◌∷◌, Option,
  some, none, Result, ok, ◌>>=◌,
}
use nimbus_mesh_x.Base.Int.{ℤ, pos, negsuc, pos_part}
use nimbus_mesh_x.Base.Text.{show, show_padded}
use nimbus_mesh_x.Base.Dict.{Dict, get_or}
use nimbus_mesh_x.Float.{Float, ◌⊕◌, ◌⊗◌, decimal}
use nimbus_mesh_x.Json.{
  Value, integer, number, text, array, no_values, Formats, elements, methods, iterate, text_of,
  truncate, to_float, to_text,
}
use nimbus_mesh_x.Pipeline.Rows.{NormalizedWorkloadRow, clamp_priority}

-- `limit is not None and len(rows) >= limit`
unfoldable pub is_full : Option ℕ → ℕ → Bool
is_full none kept = false
is_full (some limit) kept = leb limit kept

-- `n % m` of an integer, for a positive `m`
unfoldable pub mod_ℤ : ℤ → ℕ → ℕ
mod_ℤ (pos n) m = n % m
mod_ℤ (negsuc n) m = m - 1 - n % m

module _ {F : Type 0} where
  -- The loop of every normalizer: `body` makes the row of a record, or none where it goes on.
  unfoldable pub collect :
      (ℕ → Value F → Result (Option (NormalizedWorkloadRow F)))
      → Option ℕ
      → ℕ
      → ℕ
      → List (Value F)
      → Result (List (NormalizedWorkloadRow F))
  collect body limit index kept [] = ok []
  collect body limit index kept (record_value ∷ records) =
      let skipped = collect body limit (suc index) kept records in
      let added = collect body limit (suc index) (suc kept) records in
      if is_full limit kept
      then ok []
      else (body index record_value >>= λ made. elim made [
        | none ↦ skipped
        | some row ↦ added >>= λ rows. ok (row ∷ rows)
      ])

  -- `payload if isinstance(payload, list) else payload.get("data", [])`
  unfoldable pub records_of : Value F → Result (List (Value F))
  records_of (array vs) = ok (elements vs)
  records_of payload = methods payload >>= λ d. iterate (get_or "data" (array no_values) d)

module _ {F : Type 0} ⦃f : Float F⦄ where
  -- `max(least, int(x))`
  unfoldable pub at_least : ℕ → F → Result ℕ
  at_least least x = truncate x >>= λ n. ok (greatest least (pos_part n))

module _ {F : Type 0} ⦃f : Float F⦄ (formats : Formats F) where
  -- `row.get(first, row.get(second, 1.0))` as a float
  unfoldable pub usage : String → String → Dict String (Value F) → Result F
  usage first second d = to_float formats (get_or first (get_or second (number (decimal 10 1)) d) d)

  unfoldable pub alibaba_row : String → ℕ → Value F → Result (Option (NormalizedWorkloadRow F))
  alibaba_row default_model index row = do
    d ← methods row
    start_time ← to_float formats (get_or "start_time" (integer (pos index)) d)
    duration ← usage "task_duration" "duration" d
    cpu ← usage "cpu_usage" "plan_cpu" d
    memory ← usage "memory_usage" "plan_mem" d
    prompt_length ← at_least 32 (cpu ⊗ decimal 2200 1 ⊕ memory ⊗ decimal 1000 1)
    expected_output_length ← at_least 16 (duration ⊗ decimal 400 1)
    let tenant_id = "tenant-" <> to_text formats (get_or "machine_id" (text "machine-unknown") d)
    request_id ← text_of (get_or "task_id" (text ("alibaba-" <> show_padded 7 index)) d)
    priority_class ← clamp_priority (get_or "priority" (text "interactive") d)
    ok (
        some (record {
          timestamp = start_time;
          request_id = request_id;
          prompt_length = prompt_length;
          expected_output_length = expected_output_length;
          tenant_id = tenant_id;
          priority_class = priority_class;
          model_id = default_model;
          session_id = tenant_id <> "-session-" <> show (index / 4);
        }))

  -- `max(1, int(float(row.get("prompt_length", 1))))`, and so for the output
  unfoldable pub generic_lengths : Dict String (Value F) → Result (ℕ × ℕ)
  generic_lengths d = do
    prompt ← to_float formats (get_or "prompt_length" (integer (pos 1)) d)
    prompt_length ← at_least 1 prompt
    output ← to_float formats (get_or "expected_output_length" (integer (pos 1)) d)
    expected_output_length ← at_least 1 output
    ok (prompt_length, expected_output_length)

  unfoldable pub generic_row : String → ℕ → Value F → Result (Option (NormalizedWorkloadRow F))
  generic_row default_model index row = do
    d ← methods row
    timestamp ← to_float formats (get_or "timestamp" (integer (pos index)) d)
    request_id ← text_of (get_or "request_id" (text ("generic-" <> show_padded 7 index)) d)
    lengths ← generic_lengths d
    tenant_id ← text_of (get_or "tenant_id" (text ("tenant-" <> show (index % 16))) d)
    priority_class ← clamp_priority (get_or "priority_class" (text "interactive") d)
    model_id ← text_of (get_or "model_id" (text default_model) d)
    session_id ← text_of (get_or "session_id" (text ("session-" <> show (index / 4))) d)
    ok (
        some (record {
          timestamp = timestamp;
          request_id = request_id;
          prompt_length = lengths.0;
          expected_output_length = lengths.1;
          tenant_id = tenant_id;
          priority_class = priority_class;
          model_id = model_id;
          session_id = session_id;
        }))
