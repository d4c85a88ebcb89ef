-- ===== src/Backends.antt =====
-- serving_backends/: the adapters and their latency estimates, over the arguments that the estimates
-- read. `invoke` of the mock answers with its arguments; the other two post over HTTP (not modelled).
pub mod Bounds
use nimbus_mesh_x.Base.{ℕ, String, string_eq, ◌==◌, Option, some, none, if◌then◌else◌}
use nimbus_mesh_x.Float.{Float, ◌⊕◌, ◌⊖◌, ◌⊗◌, ◌⊘◌, of_ℕ, decimal, round, max}
use nimbus_mesh_x.Types.{InferenceRequest, PoolRuntime}

pub data Backend : Type 0 where
  mock vllm triton : Backend

unfoldable pub backend_text : Backend → String
backend_text mock = "mock"
backend_text vllm = "vllm"
backend_text triton = "triton"

-- `self.backends.get(name)` of the control plane
unfoldable pub find_backend : String → Option Backend
find_backend name =
    if name == "mock"
    then some mock
    else if name == "vllm"
    then some vllm
    else if name == "triton"
    then some triton
    else none

module _ {F : Type 0} ⦃f : Float F⦄ where
  unfoldable pub mock_latency_ms :
      InferenceRequest F → PoolRuntime F → (ratio affinity network congestion : F) → F × F
  mock_latency_ms request pool ratio affinity network congestion =
      let effective_prompt =
        max (of_ℕ 1) (of_ℕ request.prompt_tokens ⊗ (decimal 10 1 ⊖ ratio ⊗ decimal 8 1)) in
      let prefill_ms = effective_prompt ⊘ max pool.prefill_tps (of_ℕ 1) ⊗ of_ℕ 1000 in
      let decode_ms = of_ℕ request.generation_tokens ⊘ max pool.decode_tps (of_ℕ 1) ⊗ of_ℕ 1000 in
      let topology_multiplier = max (decimal 72 2) (decimal 110 2 ⊖ affinity ⊗ decimal 22 2) in
      let congestion_multiplier = of_ℕ 1 ⊕ congestion ⊗ decimal 35 2 in
      let network_penalty_ms = network ⊗ (of_ℕ 5 ⊕ of_ℕ request.prompt_tokens ⊘ of_ℕ 4096) in
      (
        round (prefill_ms ⊗ topology_multiplier ⊗ congestion_multiplier ⊕ network_penalty_ms) 4,
        round (decode_ms ⊗ congestion_multiplier) 4,
      )

  unfoldable pub vllm_latency_ms :
      InferenceRequest F → PoolRuntime F → (ratio affinity network congestion : F) → F × F
  vllm_latency_ms request pool ratio affinity network congestion =
      let prompt =
        max (of_ℕ 1) (of_ℕ request.prompt_tokens ⊗ (decimal 10 1 ⊖ ratio ⊗ decimal 82 2)) in
      let prefill_ms = prompt ⊘ max (pool.prefill_tps ⊗ decimal 108 2) (of_ℕ 1) ⊗ of_ℕ 1000 in
      let decode_ms =
        of_ℕ request.generation_tokens
        ⊘ max (pool.decode_tps ⊗ decimal 106 2) (of_ℕ 1)
        ⊗ of_ℕ 1000 in
      let multiplier =
        (of_ℕ 1 ⊕ congestion ⊗ decimal 28 2)
        ⊗ max (decimal 74 2) (decimal 108 2 ⊖ affinity ⊗ decimal 18 2) in
      (round (prefill_ms ⊗ multiplier ⊕ network ⊗ of_ℕ 4) 4, round (decode_ms ⊗ multiplier) 4)

  unfoldable pub triton_latency_ms :
      InferenceRequest F → PoolRuntime F → (ratio affinity network congestion : F) → F × F
  triton_latency_ms request pool ratio affinity network congestion =
      let prompt =
        max (of_ℕ 1) (of_ℕ request.prompt_tokens ⊗ (decimal 10 1 ⊖ ratio ⊗ decimal 75 2)) in
      let prefill_ms = prompt ⊘ max (pool.prefill_tps ⊗ decimal 112 2) (of_ℕ 1) ⊗ of_ℕ 1000 in
      let decode_ms =
        of_ℕ request.generation_tokens
        ⊘ max (pool.decode_tps ⊗ decimal 103 2) (of_ℕ 1)
        ⊗ of_ℕ 1000 in
      let multiplier =
        (of_ℕ 1 ⊕ congestion ⊗ decimal 24 2)
        ⊗ max (decimal 70 2) (decimal 105 2 ⊖ affinity ⊗ decimal 2 1) in
      (round (prefill_ms ⊗ multiplier ⊕ network ⊗ decimal 35 1) 4, round (decode_ms ⊗ multiplier) 4)

  -- `backend.estimate_latency_ms(…)`
  unfoldable pub estimate_latency_ms :
      Backend → InferenceRequest F → PoolRuntime F → (ratio affinity network congestion : F) → F × F
  estimate_latency_ms mock = mock_latency_ms
  estimate_latency_ms vllm = vllm_latency_ms
  estimate_latency_ms triton = triton_latency_ms
