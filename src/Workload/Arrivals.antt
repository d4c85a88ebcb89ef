-- ===== src/Workload/Arrivals.antt =====
-- workload_gen/generator.py: how many requests are generated, and when they arrive; the bounds of the
-- token counts.
use nimbus_mesh_x.Base.{
  ℕ, zero, suc, ◌^◌, ◌≤◌, ◌≡◌, refl, sym, ap, ◌∙◌, arith, String, ◌==◌, string_eq, Bool-cases, inl,
  inr, if_true, if_false, List, [], ◌∷◌, length, ok, >>=-eq-ok, ok-injective,
}
use nimbus_mesh_x.Base.Sort.{length-sort}
use nimbus_mesh_x.Float.{Float, ◌≼◌, ◌⊕◌, ◌≤?◌, of_ℕ, decimal, max, min}
use nimbus_mesh_x.Float.Laws.{IsFloat, le-max, max-le, min-le}
use nimbus_mesh_x.Config.{DistributionConfig, WorkloadConfig}
use nimbus_mesh_x.Types.{InferenceRequest}
use nimbus_mesh_x.Workload.{
  Random, GeneratorState, even_arrivals, bursty_arrival, bursty_arrivals, poisson_arrivals,
  generate_arrivals, token_value, sample_tokens, generate_request, requests_at, drawn_requests,
}

module _ {F R : Type 0} ⦃f : Float F⦄ (rng : Random F R) where
  length-even_arrivals : (gap : F) (i n : ℕ) → length (even_arrivals rng gap i n) ≡ n
  unfolding even_arrivals
  length-even_arrivals gap i zero = refl
  length-even_arrivals gap i (suc n) = ap suc (length-even_arrivals gap (suc i) n)

  length-bursty_arrivals :
      (config : WorkloadConfig F) (n : ℕ) (r : R) (drawn : List F × R)
      → bursty_arrivals rng config n r ≡ ok drawn
      → length drawn.0 ≡ n
  unfolding bursty_arrivals
  length-bursty_arrivals config zero r drawn h = ap (λ d. length d.0) (sym (ok-injective _ drawn h))
  length-bursty_arrivals config (suc n) r drawn h =
      let (first, _, h1) = >>=-eq-ok (bursty_arrival rng config r) _ h in
      let (others, rest, e) = >>=-eq-ok (bursty_arrivals rng config n first.1) _ h1 in
      ap (λ d. length d.0) (sym (ok-injective _ drawn e))
      ∙ ap suc (length-bursty_arrivals config n first.1 others rest)

  length-poisson_arrivals :
      (rate duration now : F) (n : ℕ) (r : R)
      → length (poisson_arrivals rng rate duration now n r).0 ≡ n
  unfolding poisson_arrivals
  length-poisson_arrivals rate duration now zero r = refl
  length-poisson_arrivals rate duration now (suc n) r =
      let drawn = rng.expovariate rate r in
      ap suc (length-poisson_arrivals rate duration (now ⊕ drawn.0) n drawn.1)

  generate_arrivals-length :
      (config : WorkloadConfig F) (r : R) (drawn : List F × R)
      → generate_arrivals rng config r ≡ ok drawn
      → length drawn.0 ≡ config.request_count
  unfolding generate_arrivals
  generate_arrivals-length config r drawn h =
      elim (Bool-cases (config.arrival_pattern == "uniform")) [
        | inl even ↦
            ap (λ d. length d.0) (sym (ok-injective _ drawn (sym (if_true _ _ _ even) ∙ h)))
            ∙ length-even_arrivals _ 0 config.request_count
        | inr other ↦ elim (Bool-cases (config.arrival_pattern == "bursty")) [
          | inl bursty ↦
              let (raw, made, e) =
                >>=-eq-ok (bursty_arrivals rng config config.request_count r) _
                  (sym (if_true _ _ _ bursty) ∙ sym (if_false _ _ _ other) ∙ h) in
              ap (λ d. length d.0) (sym (ok-injective _ drawn e))
              ∙ length-sort (λ x y. x ≤? y) raw.0
              ∙ length-bursty_arrivals config config.request_count r raw made
          | inr poisson ↦
              ap (λ d. length d.0)
                (sym (
                  ok-injective _ drawn
                    (sym (if_false _ _ _ poisson) ∙ sym (if_false _ _ _ other) ∙ h)))
              ∙ length-poisson_arrivals _ config.duration_s (decimal 0 1) config.request_count r
        ]
      ]

  length-requests_at :
      (digest : String → String) (config : WorkloadConfig F) (index : ℕ) (arrivals : List F)
      (s : GeneratorState R) (made : List (InferenceRequest F) × GeneratorState R)
      → requests_at rng digest config index arrivals s ≡ ok made
      → length made.0 ≡ length arrivals
  unfolding requests_at
  length-requests_at digest config index [] s made h =
      ap (λ d. length d.0) (sym (ok-injective _ made h))
  length-requests_at digest config index (arrival_ts ∷ arrivals) s made h =
      let (first, _, h1) = >>=-eq-ok (generate_request rng digest config index arrival_ts s) _ h in
      let (others, rest, e) =
        >>=-eq-ok (requests_at rng digest config (suc index) arrivals first.1) _ h1 in
      ap (λ d. length d.0) (sym (ok-injective _ made e))
      ∙ ap suc (length-requests_at digest config (suc index) arrivals first.1 others rest)

  pub length-drawn_requests :
      (digest : String → String) (config : WorkloadConfig F) (s : GeneratorState R)
      (made : List (InferenceRequest F) × GeneratorState R)
      → drawn_requests rng digest config s ≡ ok made
      → length made.0 ≡ config.request_count
  unfolding drawn_requests
  length-drawn_requests digest config s made h =
      let (arrivals, drawn, rest) = >>=-eq-ok _ _ h in
      length-requests_at digest config 0 arrivals.0 _ made rest
      ∙ generate_arrivals-length config s.random arrivals drawn

  module _ (laws : IsFloat F) where
    open laws use {le_trans, trunc_mono, trunc_of_ℕ, decimal_mono}

    -- A token count is within the bounds of its distribution, whatever is drawn, if the bounds are
    -- in order and at most 2 ^ 53.
    pub sample_tokens_bounds :
        (d : DistributionConfig F) (r : R)
        → d.min ≤ d.max
        → d.max ≤ 2 ^ 53
        → (d.min ≤ (sample_tokens rng d r).0) × ((sample_tokens rng d r).0 ≤ d.max)
    unfolding sample_tokens
    sample_tokens_bounds d r ordered exact =
        let value = (token_value rng d r).0 in
        let cut = min (of_ℕ d.max) value in
        let low : of_ℕ d.min ≼ max (of_ℕ d.min) cut = (le-max laws (of_ℕ d.min) cut).0 in
        let high : max (of_ℕ d.min) cut ≼ of_ℕ d.max =
          max-le laws (of_ℕ d.min) cut (of_ℕ d.max) (decimal_mono d.min 0 d.max 0 (ground arith))
            (min-le laws (of_ℕ d.max) value).0 in
        let below = trunc_mono _ _ low in
        let above = trunc_mono _ _ high in
        let bottom = trunc_of_ℕ d.min (omega arith) in
        let top = trunc_of_ℕ d.max exact in
        (omega (arith, below, bottom), omega (arith, above, top))
