-- ===== src/Backends/Bounds.antt =====
-- serving_backends/: no estimate is negative.
use nimbus_mesh_x.Base.{ℕ, arith}
use nimbus_mesh_x.Float.{Float, ◌≼◌, ◌⊕◌, ◌⊖◌, ◌⊗◌, ◌⊘◌, of_ℕ, decimal, max}
use nimbus_mesh_x.Float.Laws.{
  IsFloat, le-max, plus_nonneg, decimal_nonneg, nonneg_of_ℕ, round_nonneg, lt_of_lt_of_le,
}
use nimbus_mesh_x.Types.{InferenceRequest, PoolRuntime}
use nimbus_mesh_x.Backends.{
  Backend, mock, vllm, triton, mock_latency_ms, vllm_latency_ms, triton_latency_ms,
  estimate_latency_ms,
}

module _ {F : Type 0} ⦃f : Float F⦄ (laws : IsFloat F) where
  open laws use {le_trans, times_nonneg, over_nonneg, decimal_pos}

  max_nonneg : (m d : ℕ) (x : F) → of_ℕ 0 ≼ max (decimal m d) x
  max_nonneg m d x = le_trans _ _ _ (decimal_nonneg laws m d) (le-max laws (decimal m d) x).0

  rate_nonneg : (x rate : F) → of_ℕ 0 ≼ x → of_ℕ 0 ≼ x ⊘ max rate (of_ℕ 1) ⊗ of_ℕ 1000
  rate_nonneg x rate h =
      times_nonneg _ _
        (over_nonneg _ _ h (
          lt_of_lt_of_le laws _ (of_ℕ 1) _ (decimal_pos 1 0 (omega arith) (omega arith))
            (le-max laws rate (of_ℕ 1)).1))
        (nonneg_of_ℕ laws 1000)

  factor_nonneg : (c : F) (m d : ℕ) → of_ℕ 0 ≼ c → of_ℕ 0 ≼ of_ℕ 1 ⊕ c ⊗ decimal m d
  factor_nonneg c m d h =
      plus_nonneg laws _ _ (nonneg_of_ℕ laws 1) (times_nonneg _ _ h (decimal_nonneg laws m d))

  module _ (request : InferenceRequest F) (pool : PoolRuntime F) (r a n c : F) where
    abbrev Nonneg : F × F → Type 0
    Nonneg l = (of_ℕ 0 ≼ l.0) × (of_ℕ 0 ≼ l.1)

    module _ (network : of_ℕ 0 ≼ n) (congestion : of_ℕ 0 ≼ c) where
      mock-Nonneg : Nonneg (mock_latency_ms request pool r a n c)
      unfolding mock_latency_ms
      mock-Nonneg = (
        round_nonneg laws _ (
            plus_nonneg laws _ _
              (times_nonneg _ _
                (times_nonneg _ _ (rate_nonneg _ _ (max_nonneg 1 0 _)) (max_nonneg 72 2 _))
                (factor_nonneg c 35 2 congestion))
              (times_nonneg _ _ network (
                plus_nonneg laws _ _ (nonneg_of_ℕ laws 5) (
                  over_nonneg _ _ (nonneg_of_ℕ laws request.prompt_tokens)
                    (decimal_pos 4096 0 (omega arith) (omega arith)))))),
        round_nonneg laws _ (
            times_nonneg _ _ (rate_nonneg _ _ (nonneg_of_ℕ laws request.generation_tokens))
              (factor_nonneg c 35 2 congestion)),
      )

      vllm-Nonneg : Nonneg (vllm_latency_ms request pool r a n c)
      unfolding vllm_latency_ms
      vllm-Nonneg =
          let multiplier =
            times_nonneg _ _ (factor_nonneg c 28 2 congestion)
              (max_nonneg 74 2 (decimal 108 2 ⊖ a ⊗ decimal 18 2)) in
          (
            round_nonneg laws _ (
                plus_nonneg laws _ _
                  (times_nonneg _ _ (rate_nonneg _ _ (max_nonneg 1 0 _)) multiplier)
                  (times_nonneg _ _ network (nonneg_of_ℕ laws 4))),
            round_nonneg laws _ (
                times_nonneg _ _ (rate_nonneg _ _ (nonneg_of_ℕ laws request.generation_tokens))
                  multiplier),
          )

      triton-Nonneg : Nonneg (triton_latency_ms request pool r a n c)
      unfolding triton_latency_ms
      triton-Nonneg =
          let multiplier =
            times_nonneg _ _ (factor_nonneg c 24 2 congestion)
              (max_nonneg 70 2 (decimal 105 2 ⊖ a ⊗ decimal 2 1)) in
          (
            round_nonneg laws _ (
                plus_nonneg laws _ _
                  (times_nonneg _ _ (rate_nonneg _ _ (max_nonneg 1 0 _)) multiplier)
                  (times_nonneg _ _ network (decimal_nonneg laws 35 1))),
            round_nonneg laws _ (
                times_nonneg _ _ (rate_nonneg _ _ (nonneg_of_ℕ laws request.generation_tokens))
                  multiplier),
          )

  -- Where network cost and congestion are not negative, neither estimate of any backend is,
  -- whatever the hit ratio, the affinity and the rates of the pool are.
  pub estimate_latency_nonneg :
      (backend : Backend) (request : InferenceRequest F) (pool : PoolRuntime F) (r a n c : F)
      → of_ℕ 0 ≼ n
      → of_ℕ 0 ≼ c
      → let latency = estimate_latency_ms backend request pool r a n c in
        (of_ℕ 0 ≼ latency.0) × (of_ℕ 0 ≼ latency.1)
  unfolding estimate_latency_ms
  estimate_latency_nonneg mock request pool r a n c = mock-Nonneg request pool r a n c
  estimate_latency_nonneg vllm request pool r a n c = vllm-Nonneg request pool r a n c
  estimate_latency_nonneg triton request pool r a n c = triton-Nonneg request pool r a n c
