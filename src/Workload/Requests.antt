-- ===== src/Workload/Requests.antt =====
-- workload_gen/generator.py: the requests that `generate_requests` draws where no trace is set. The metadata, the seed, is left out.
use Prim.Native.String.{◌++◌ as ◌<>◌}
use nimbus_mesh_x.Base.{
  ℕ, suc, ◌/◌, String, string_eq, if◌then◌else◌, List, [], ◌∷◌, some, none, Result, ok, key_error,
  or_raise, ◌>>=◌,
}
use nimbus_mesh_x.Base.Int.{pos}
use nimbus_mesh_x.Base.Dict.{Dict, lookup}
use nimbus_mesh_x.Base.Text.{show, show_padded}
use nimbus_mesh_x.Float.{Float, ◌<?◌, decimal, round}
use nimbus_mesh_x.Config.{WorkloadConfig}
use nimbus_mesh_x.Types.{InferenceRequest, make_request, stable_prefix_signature}
use nimbus_mesh_x.Workload.Draws.{Random, weighted_choice}
use nimbus_mesh_x.Workload.Sampling.{GeneratorState, generate_arrivals, sample_tokens, pick_session}

-- The salt of a prefix signature.
unfoldable pub token_salt : ℕ → ℕ → String
token_salt prompt generation = show (prompt / 256) <> ":" <> show (generation / 128)

module _ {F : Type 0} ⦃f : Float F⦄ where
  abbrev pub latency_limits : Dict String F
  latency_limits =
      ("realtime", decimal 9000 1)
      ∷ ("interactive", decimal 18000 1)
      ∷ ("best_effort", decimal 42000 1)
      ∷ []

module _ {F R : Type 0} ⦃f : Float F⦄ (rng : Random F R) (digest : String → String) where
  -- The body of the loop.
  unfoldable pub generate_request :
      WorkloadConfig F → ℕ → F → GeneratorState R → Result (InferenceRequest F × GeneratorState R)
  generate_request config index arrival_ts s = do
    tenant ← weighted_choice rng config.tenant_weights s.random
    model ← weighted_choice rng config.model_mix tenant.1
    sla ← weighted_choice rng config.sla_mix model.1
    session ← pick_session rng config tenant.0 model.0 (record s { random = sla.1 })
    let prompt = sample_tokens rng config.prompt_tokens session.1.random
    let generation = sample_tokens rng config.generation_tokens prompt.1
    let hostile = rng.random generation.1
    let signature =
        if hostile.0 <? config.cache_hostility
        then stable_prefix_signature digest tenant.0 model.0 none ("hostile-" <> show index)
        else stable_prefix_signature digest tenant.0 model.0 (some session.0)
            (token_salt prompt.0 generation.0)
    max_latency_ms ← or_raise (lookup sla.0 latency_limits) key_error
    request ← make_request digest (record {
      request_id = "req-" <> show_padded 6 index;
      tenant_id = tenant.0;
      model_id = model.0;
      prompt_tokens = pos prompt.0;
      generation_tokens = pos generation.0;
      arrival_ts = round arrival_ts 4;
      sla_class = sla.0;
      session_id = some session.0;
      prefix_signature = some signature;
      max_latency_ms = max_latency_ms;
      metadata = [];
    })
    let after = session.1
    ok (request, record after { random = hostile.1 })

  unfoldable pub requests_at :
      WorkloadConfig F
      → ℕ
      → List F
      → GeneratorState R
      → Result (List (InferenceRequest F) × GeneratorState R)
  requests_at config index [] s = ok ([], s)
  requests_at config index (arrival_ts ∷ arrivals) s = do
    first ← generate_request config index arrival_ts s
    others ← requests_at config (suc index) arrivals first.1
    ok (first.0 ∷ others.0, others.1)

  -- `generate_requests` after the test of `trace_path`
  unfoldable pub drawn_requests :
      WorkloadConfig F → GeneratorState R → Result (List (InferenceRequest F) × GeneratorState R)
  drawn_requests config s = do
    arrivals ← generate_arrivals rng config s.random
    requests_at config 0 arrivals.0 (record s { random = arrivals.1 })
