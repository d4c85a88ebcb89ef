-- ===== src/Tests/Documents.antt =====
-- A configuration that is read, and a dataset that is normalized and replayed.
use nimbus_mesh_x.Base.Dict.{lookup, get_or, insert, delete}
use nimbus_mesh_x.Base.Text.{show, show_padded}
use nimbus_mesh_x.Float.{max, min, sum, minimum, of_ℕ, decimal}
use nimbus_mesh_x.Json.{
  natural, elements, entries, of_list, of_dict, characters, methods, subscript, iterate, text_of,
  text_or_none, truth, of_ℤ, truncate, to_float, to_int, to_text, float_items, Value, Formats, text,
  object,
}
use nimbus_mesh_x.Base.Words.{is_space, strip, lower, split}
use nimbus_mesh_x.Pipeline.{
  clamp_value, stripped, clamp_priority, approx_token_length, written, write_normalized_rows,
  is_full, mod_ℤ, collect, records_of, at_least, usage, alibaba_row, generic_lengths, generic_row,
  asks, answers, lowered, hear, listen, sharegpt_row, lmsys_row, instruction_row, records_in,
  normalizer_row, normalize, NormalizedWorkloadRow, csv, generic_workload_csv,
}
use nimbus_mesh_x.Config.RoundTrip.{
  workload_document, pool_document, cluster_document, experiment_document,
  experiment_from_dict-experiment_document,
}
use nimbus_mesh_x.Config.Parsing.{
  to_natural, distribution_from_dict, optional_natural, workload_from_dict, model_names,
  pool_from_dict, float_pair, float_triple, cluster_from_dict, experiment_from_dict, with_policy,
  with_seed,
}
use nimbus_mesh_x.Base.{
  ℕ, string_eq, ◌≡◌, refl, inl, arith, String, ◌==◌, List, [], ◌∷◌, All, true, if◌then◌else◌, is_ok,
  value_of, Result, ok, some, none,
}
use nimbus_mesh_x.Base.Int.{ℤ, pos, ◌+ℤ◌, ◌-ℤ◌}
use nimbus_mesh_x.Float.Fixed.{fixed_float, Fixed-IsFloat}
use nimbus_mesh_x.Types.{InferenceRequest}
use nimbus_mesh_x.Config.{WorkloadConfig}
use nimbus_mesh_x.Workload.{Random, GeneratorState, TraceRow, generate_requests}
use nimbus_mesh_x.Pipeline.Normalized.{IsNormalized, normalize-IsNormalized}
use nimbus_mesh_x.Pipeline.Replayed.{
  IsReplayable, AreReplays, cut, limited, generate_requests-write_normalized_rows,
}
use nimbus_mesh_x.Tests.Data.{config, workload}

-- Texts that are no numbers.
abbrev formats : Formats ℤ
formats = record {
  read_float = λ s. if s == "3.5" then some (decimal 35 1) else none;
  read_int = λ s. none;
  show_value = λ v. "None";
}

experiment_from_dict-experiment_document_example :
    experiment_from_dict formats (experiment_document config) ≡ ok config
experiment_from_dict-experiment_document_example =
    experiment_from_dict-experiment_document formats config

abbrev hash : Value ℤ → Result ℤ
hash v = ok (pos 7)

-- Two rows of a CSV file with one column.
abbrev rows_read : List (Value ℤ)
rows_read =
    object (of_dict (("prompt_length", text "3.5") ∷ ("priority_class", text " P0 ") ∷ []))
    ∷ object (of_dict (("prompt_length", text "3.5") ∷ []))
    ∷ []

normalized_ok :
    is_ok (normalize formats hash generic_workload_csv (csv rows_read) (some 1) "m") ≡ true
unfolding ◌+ℤ◌ ◌-ℤ◌ lookup get_or insert delete show show_padded max min sum minimum natural
    elements entries of_list of_dict characters methods subscript iterate text_of text_or_none truth
    of_ℤ truncate to_float to_int to_text float_items is_space strip lower split clamp_value
    stripped clamp_priority approx_token_length written write_normalized_rows is_full mod_ℤ collect
    records_of at_least usage alibaba_row generic_lengths generic_row asks answers lowered hear
    listen sharegpt_row lmsys_row instruction_row records_in normalizer_row normalize
    workload_document pool_document cluster_document experiment_document to_natural
    distribution_from_dict optional_natural workload_from_dict model_names pool_from_dict float_pair
    float_triple cluster_from_dict experiment_from_dict with_policy with_seed
normalized_ok = refl

abbrev normalized : List (NormalizedWorkloadRow ℤ)
normalized =
    (value_of (normalize formats hash generic_workload_csv (csv rows_read) (some 1) "m")
      normalized_ok).0

normalized_is :
    normalize formats hash generic_workload_csv (csv rows_read) (some 1) "m" ≡ ok normalized
normalized_is =
    (value_of (normalize formats hash generic_workload_csv (csv rows_read) (some 1) "m")
      normalized_ok).1

normalize-IsNormalized_example : All IsNormalized normalized
normalize-IsNormalized_example =
    normalize-IsNormalized formats hash generic_workload_csv (csv rows_read) (some 1) "m" normalized
      normalized_is

abbrev row : NormalizedWorkloadRow ℤ
row = record {
  timestamp = of_ℕ 3;
  request_id = "generic-0000000";
  prompt_length = 120;
  expected_output_length = 40;
  tenant_id = "tenant-0";
  priority_class = "realtime";
  model_id = "m";
  session_id = "session-0";
}

row-IsReplayable : IsReplayable row
row-IsReplayable = record {
  normalized = record { prompt = omega arith; output = omega arith; priority = inl refl };
  named = refl;
  prompt_exact = omega arith;
  output_exact = omega arith;
}

-- Draws that are always the same.
abbrev rng : Random ℤ ℕ
rng = record {
  random = λ r. (decimal 5 1, r);
  uniform = λ a b r. (a, r);
  gauss = λ m s r. (m, r);
  lognormvariate = λ m s r. (m, r);
  expovariate = λ rate r. (of_ℕ 1, r);
  choices = λ weights r. (0, r);
  choice = λ n r. (0, r);
  log = λ x. x;
}

abbrev digest : String → String
digest content = content

abbrev seeded : GeneratorState ℕ
seeded = record { sessions = []; random = 7 }

-- The file holds the row twice; the configuration asks for one request.
abbrev replayed : WorkloadConfig ℤ
replayed = record workload { trace_path = some "trace.csv"; request_count = 1 }

abbrev read_trace : String → Result (List (TraceRow ℤ))
read_trace path = ok (write_normalized_rows (row ∷ row ∷ []))

generate_requests-write_normalized_rows_example :
    (rs : List (InferenceRequest ℤ)) × (generate_requests rng digest read_trace replayed seeded
      ≡ ok (rs, seeded))
    × AreReplays (cut 1 (limited replayed.trace_limit (row ∷ row ∷ []))) rs
generate_requests-write_normalized_rows_example =
    generate_requests-write_normalized_rows Fixed-IsFloat rng digest replayed read_trace "trace.csv"
      (row ∷ row ∷ []) seeded refl refl refl (row-IsReplayable, (row-IsReplayable, tt))
