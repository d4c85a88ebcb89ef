-- ===== src/Workload/Traces.antt =====
-- workload_gen/generator.py: `_generate_requests_from_trace` and `generate_requests`. `read_trace` stands
-- for the reading of the file, which raises where there is none or a required column is missing; it
-- returns the rows of the CSV reader, whose three numbers are read as floats. Columns that the code
-- ignores and the metadata are left out.
use Prim.Native.Nat.{max as greatest}
use nimbus_mesh_x.Base.{
  ℕ, ltb, ◌&&◌, ◌||◌, String, string_eq, ◌==◌, if◌then◌else◌, List, [], ◌∷◌, length, take, Option,
  some, none, Result, ok, ◌>>=◌,
}
use nimbus_mesh_x.Base.Int.{pos, pos_part}
use nimbus_mesh_x.Base.Dict.{get_or}
use nimbus_mesh_x.Float.{Float, ◌⊖◌, ◌⊘◌, decimal, round, max}
use nimbus_mesh_x.Json.{truncate}
use nimbus_mesh_x.Config.{WorkloadConfig}
use nimbus_mesh_x.Types.{InferenceRequest, make_request, stable_prefix_signature}
use nimbus_mesh_x.Workload.Draws.{Random}
use nimbus_mesh_x.Workload.Sampling.{GeneratorState, pick_session}
use nimbus_mesh_x.Workload.Requests.{token_salt, latency_limits, drawn_requests}

-- A row. The required columns are there; the others may be missing.
pub record TraceRow (F : Type 0) : Type 0 where
  pub timestamp : F
  pub request_id : String
  pub prompt_length : F
  pub expected_output_length : F
  pub tenant_id : String
  pub priority_class : String
  pub model_id : Option String
  pub session_id : Option String

-- `text or d`
unfoldable pub text_or : String → String → String
text_or text d = if text == "" then d else text

unfoldable pub column_or : Option String → String → String
unfolding text_or
column_or none d = d
column_or (some text) d = text_or text d

-- the classes that the code knows, and "interactive" for any other
unfoldable pub known_class : String → String
known_class sla_class =
    if sla_class == "realtime" || sla_class == "interactive" || sla_class == "best_effort"
    then sla_class
    else "interactive"

module _ {F : Type 0} ⦃f : Float F⦄ where
  -- `max(1, int(x))`
  unfoldable pub at_least_one : F → Result ℕ
  at_least_one x = truncate x >>= λ n. ok (greatest 1 (pos_part n))

  unfoldable pub trace_arrival : WorkloadConfig F → F → F → F
  trace_arrival config first_ts raw_ts =
      max (decimal 0 1) ((raw_ts ⊖ first_ts) ⊘ max (decimal 1 9) config.trace_replay_speed)

  abbrev pub first_timestamp : List (TraceRow F) → F
  first_timestamp [] = decimal 0 1
  first_timestamp (row ∷ rows) = row.timestamp

  unfoldable pub limited_rows : WorkloadConfig F → List (TraceRow F) → List (TraceRow F)
  limited_rows config rows = elim config.trace_limit [ none ↦ rows | some limit ↦ take limit rows ]

module _ {F R : Type 0} ⦃f : Float F⦄ (rng : Random F R) (digest : String → String) where
  -- `row.get("session_id") or self._pick_session(…)`
  unfoldable pub trace_session :
      WorkloadConfig F
      → Option String
      → String
      → String
      → GeneratorState R
      → Result (String × GeneratorState R)
  trace_session config column tenant_id model_id s =
      let given = column_or column "" in
      if given == "" then pick_session rng config tenant_id model_id s else ok (given, s)

  -- the body of the loop
  unfoldable pub trace_request :
      WorkloadConfig F
      → F
      → TraceRow F
      → GeneratorState R
      → Result (InferenceRequest F × GeneratorState R)
  trace_request config first_ts row s = do
    prompt ← at_least_one row.prompt_length
    generation ← at_least_one row.expected_output_length
    let tenant_id = text_or row.tenant_id "tenant-unknown"
    let sla_class = text_or row.priority_class config.trace_default_sla
    let model_id = column_or row.model_id config.trace_default_model
    session ← trace_session config row.session_id tenant_id model_id s
    request ← make_request digest (record {
      request_id = row.request_id;
      tenant_id = tenant_id;
      model_id = model_id;
      prompt_tokens = pos prompt;
      generation_tokens = pos generation;
      arrival_ts = round (trace_arrival config first_ts row.timestamp) 4;
      sla_class = known_class sla_class;
      session_id = some session.0;
      prefix_signature = some (
          stable_prefix_signature digest tenant_id model_id (some session.0)
            (token_salt prompt generation));
      max_latency_ms = get_or sla_class (decimal 18000 1) latency_limits;
      metadata = [];
    })
    ok (request, session.1)

  unfoldable pub trace_requests :
      WorkloadConfig F
      → F
      → List (TraceRow F)
      → GeneratorState R
      → Result (List (InferenceRequest F) × GeneratorState R)
  trace_requests config first_ts [] s = ok ([], s)
  trace_requests config first_ts (row ∷ rows) s = do
    first ← trace_request config first_ts row s
    others ← trace_requests config first_ts rows first.1
    ok (first.0 ∷ others.0, others.1)

  unfoldable pub generate_from_trace :
      WorkloadConfig F
      → List (TraceRow F)
      → GeneratorState R
      → Result (List (InferenceRequest F) × GeneratorState R)
  generate_from_trace config all_rows s = do
    let rows = limited_rows config all_rows
    made ← trace_requests config (first_timestamp rows) rows s
    let kept =
        if ltb 0 config.request_count && ltb config.request_count (length made.0)
        then take config.request_count made.0
        else made.0
    ok (kept, made.1)

  -- `if self.config.trace_path:` the empty path is false too
  unfoldable pub generate_requests :
      (String → Result (List (TraceRow F)))
      → WorkloadConfig F
      → GeneratorState R
      → Result (List (InferenceRequest F) × GeneratorState R)
  generate_requests read_trace config s = elim config.trace_path [
    | none ↦ drawn_requests rng digest config s
    | some path ↦
        if path == ""
        then drawn_requests rng digest config s
        else (read_trace path >>= λ rows. generate_from_trace config rows s)
  ]
