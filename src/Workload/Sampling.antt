-- ===== src/Workload/Sampling.antt =====
-- workload_gen/generator.py: `_generate_arrivals`, `_sample_tokens` and `_pick_session`.
use Prim.Native.String.{◌++◌ as ◌<>◌}
use Prim.Native.Nat.{max as greatest}
use nimbus_mesh_x.Base.{
  ℕ, zero, suc, String, string_eq, pair_eq, ◌==◌, if◌then◌else◌, List, [], ◌∷◌, ◌++◌, length,
  is_nonempty, Result, ok, ◌>>=◌,
}
use nimbus_mesh_x.Base.Dict.{Dict, insert, get_or}
use nimbus_mesh_x.Base.Sort.{sort}
use nimbus_mesh_x.Base.Text.{show_padded}
use nimbus_mesh_x.Float.{Float, ◌⊕◌, ◌⊗◌, ◌⊘◌, ◌≤?◌, ◌<?◌, of_ℕ, decimal, max, min, trunc}
use nimbus_mesh_x.Config.{DistributionConfig, WorkloadConfig}
use nimbus_mesh_x.Workload.Draws.{Random, draw}

-- `sessions`, by (tenant_id, model_id)
abbrev pub Sessions : Type 0
Sessions = Dict (String × String) (List String)

-- `self.sessions` and `self.random`
pub record GeneratorState (R : Type 0) : Type 0 where
  pub sessions : Sessions
  pub random : R

module _ {F R : Type 0} ⦃f : Float F⦄ (rng : Random F R) where
  -- the pattern "uniform"
  unfoldable pub even_arrivals : F → ℕ → ℕ → List F
  even_arrivals gap i zero = []
  even_arrivals gap i (suc n) = of_ℕ i ⊗ gap ∷ even_arrivals gap (suc i) n

  abbrev pub burst_windows : F → List (F × F)
  burst_windows duration =
      (duration ⊗ decimal 2 1, duration ⊗ decimal 3 1)
      ∷ (duration ⊗ decimal 55 2, duration ⊗ decimal 65 2)
      ∷ (duration ⊗ decimal 8 1, duration ⊗ decimal 9 1)
      ∷ []

  -- One arrival of the pattern "bursty".
  unfoldable pub bursty_arrival : WorkloadConfig F → R → Result (F × R)
  bursty_arrival config r =
      let (u, after) = rng.random r in
      if u <? min (decimal 75 2) (decimal 35 2 ⊗ config.burst_factor)
      then (draw rng (burst_windows config.duration_s) after >>= λ drawn.
          ok (rng.uniform drawn.0.0 drawn.0.1 drawn.1))
      else ok (rng.uniform (decimal 0 1) config.duration_s after)

  unfoldable pub bursty_arrivals : WorkloadConfig F → ℕ → R → Result (List F × R)
  bursty_arrivals config zero r = ok ([], r)
  bursty_arrivals config (suc n) r = do
    first ← bursty_arrival config r
    others ← bursty_arrivals config n first.1
    ok (first.0 ∷ others.0, others.1)

  -- any other pattern
  unfoldable pub poisson_arrivals : (rate duration now : F) → ℕ → R → List F × R
  poisson_arrivals rate duration now zero r = ([], r)
  poisson_arrivals rate duration now (suc n) r =
      let (gap, after) = rng.expovariate rate r in
      let (others, last) = poisson_arrivals rate duration (now ⊕ gap) n after in
      (min duration (now ⊕ gap) ∷ others, last)

  unfoldable pub generate_arrivals : WorkloadConfig F → R → Result (List F × R)
  generate_arrivals config r =
      let n = config.request_count in
      if config.arrival_pattern == "uniform"
      then ok (even_arrivals (config.duration_s ⊘ of_ℕ (greatest 1 n)) 0 n, r)
      else if config.arrival_pattern == "bursty"
      then (bursty_arrivals config n r >>= λ drawn. ok (sort (λ x y. x ≤? y) drawn.0, drawn.1))
      else ok (
          poisson_arrivals (of_ℕ n ⊘ max config.duration_s (decimal 1 9)) config.duration_s
            (decimal 0 1) n r)

  unfoldable pub token_value : DistributionConfig F → R → F × R
  token_value d r =
      if d.distribution == "uniform"
      then rng.uniform (of_ℕ d.min) (of_ℕ d.max) r
      else if d.distribution == "normal"
      then rng.gauss d.mean (d.sigma ⊗ d.mean) r
      else rng.lognormvariate (rng.log (max (decimal 10 1) d.mean)) d.sigma r

  unfoldable pub sample_tokens : DistributionConfig F → R → ℕ × R
  sample_tokens d r =
      let (value, after) = token_value d r in
      (trunc (max (of_ℕ d.min) (min (of_ℕ d.max) value)), after)

  -- A new session of the tenant and the model; reading `self.sessions[key]` makes the entry.
  unfoldable pub new_session :
      String → String → List String → GeneratorState R → String × GeneratorState R
  new_session tenant_id model_id known s =
      let session_id = tenant_id <> "-" <> model_id <> "-" <> show_padded 4 (length known) in
      (
        session_id,
        record s { sessions = insert (tenant_id, model_id) (known ++ session_id ∷ []) s.sessions },
      )

  -- `_pick_session`
  unfoldable pub pick_session :
      WorkloadConfig F → String → String → GeneratorState R → Result (String × GeneratorState R)
  pick_session config tenant_id model_id s =
      let known = get_or (tenant_id, model_id) [] s.sessions in
      let (u, after) = rng.random s.random in
      if is_nonempty known
      then (if u <? config.session_reuse_probability
          then (draw rng known after >>= λ drawn. ok (drawn.0, record s { random = drawn.1 }))
          else ok (new_session tenant_id model_id known (record s { random = after })))
      else ok (new_session tenant_id model_id known s)
