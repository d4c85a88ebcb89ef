-- ===== src/Metrics/Collector.antt =====
-- nimbusmesh_x/metrics.py: the collector's state, `note_submission`, `record` and `summary`. Reading
-- `tenant_completed` makes an entry of 0 for a tenant that has none; no reading tells that entry from
-- a missing one, and the model leaves it out.
use Prim.Native.Nat.{max as greatest}
use nimbus_mesh_x.Base.{
  ℕ, ◌+◌, of_Bool, String, string_eq, if◌then◌else◌, List, [], ◌∷◌, ◌++◌, map, filter, length,
  Result, ok, ◌>>=◌,
}
use nimbus_mesh_x.Base.Dict.{Dict, insert, get_or}
use nimbus_mesh_x.Float.{
  Float, ◌⊕◌, ◌⊖◌, ◌⊗◌, ◌⊘◌, ◌<?◌, negate, of_ℕ, decimal, round, max, min, sum,
}
use nimbus_mesh_x.Types.{RequestResult, total_tokens}
use nimbus_mesh_x.Metrics.Statistics.{quantile, jains_index}

pub record MetricsCollector (F : Type 0) : Type 0 where
  pub results : List (RequestResult F)
  pub tenant_completed : Dict String ℕ
  pub tenant_submitted : Dict String ℕ

pub record Summary (F : Type 0) : Type 0 where
  pub config_name : String
  pub policy_name : String
  pub requests_total : ℕ
  pub requests_admitted : ℕ
  pub p50_latency_ms : F
  pub p95_latency_ms : F
  pub p99_latency_ms : F
  pub p50_prefill_ms : F
  pub p95_prefill_ms : F
  pub p50_decode_ms : F
  pub throughput_tokens_per_s : F
  pub throughput_requests_per_s : F
  pub cache_hit_ratio : F
  pub cache_saved_tokens_total : ℕ
  pub sla_miss_rate : F
  pub cost_per_1m_tokens_usd : F
  pub energy_proxy_total : F
  pub network_cost_total : F
  pub gpu_utilization_proxy : F
  pub memory_utilization_proxy : F
  pub mean_absolute_latency_error_ms : F
  pub fairness_index : F

unfoldable pub count_sum : List ℕ → ℕ
count_sum [] = 0
count_sum (n ∷ ns) = n + count_sum ns

module _ {F : Type 0} where
  abbrev pub empty_metrics : MetricsCollector F
  empty_metrics = record { results = []; tenant_completed = []; tenant_submitted = [] }

  unfoldable pub note_submission : String → MetricsCollector F → MetricsCollector F
  note_submission tenant_id m = record m {
    tenant_submitted =
        insert tenant_id (get_or tenant_id 0 m.tenant_submitted + 1) m.tenant_submitted;
  }

  unfoldable pub record_result : RequestResult F → MetricsCollector F → MetricsCollector F
  record_result result m =
      let tenant_id = result.request.tenant_id in
      record m {
        results = m.results ++ result ∷ [];
        tenant_completed =
            insert tenant_id (get_or tenant_id 0 m.tenant_completed + of_Bool result.admitted)
              m.tenant_completed;
      }

  unfoldable pub admitted_results : MetricsCollector F → List (RequestResult F)
  admitted_results m = filter (λ r. r.admitted) m.results

module _ {F : Type 0} ⦃f : Float F⦄ where
  unfoldable pub abs : F → F
  abs x = if x <? of_ℕ 0 then negate x else x

  -- `sum(…) / max(1, len(…))`
  abbrev pub mean : List F → F
  mean xs = sum xs ⊘ of_ℕ (greatest 1 (length xs))

  unfoldable pub fairness_values : Dict String ℕ → Dict String ℕ → List F
  fairness_values completed [] = []
  fairness_values completed ((tenant_id, submitted) ∷ rest) =
      of_ℕ (get_or tenant_id 0 completed) ⊘ of_ℕ (greatest 1 submitted)
      ∷ fairness_values completed rest

  unfoldable pub summary :
      (duration_s : F)
      → (policy_name config_name : String) → (total_slots : ℕ) → (total_memory_gb : F)
      → MetricsCollector F
      → Result (Summary F)
  summary duration_s policy_name config_name total_slots total_memory_gb m = do
    let done = admitted_results m
    let latencies = map (λ r. r.total_latency_ms) done
    let prefill = map (λ r. r.prefill_latency_ms) done
    let decode = map (λ r. r.decode_latency_ms) done
    let tokens = count_sum (map (λ r. total_tokens r.request) done)
    let total_cost = sum (map (λ r. r.cost_usd) done)
    let total_busy_s =
        sum (map (λ r. (r.prefill_latency_ms ⊕ r.decode_latency_ms) ⊘ decimal 10000 1) done)
    let mean_memory_gb = mean (map (λ r. r.memory_gb) done)
    let estimation_error =
        map (λ r. abs (r.decision.estimated_latency_ms ⊖ r.total_latency_ms)) done
    let cache_hit_ratio = mean (map (λ r. r.cache_hit_ratio) done)
    let met = length (filter (λ r. r.sla_met) done)
    let sla_miss_rate = decimal 10 1 ⊖ of_ℕ met ⊘ of_ℕ (greatest 1 (length latencies))
    let seconds = max duration_s (decimal 1 9)
    p50_latency ← quantile latencies (decimal 5 1)
    p95_latency ← quantile latencies (decimal 95 2)
    p99_latency ← quantile latencies (decimal 99 2)
    p50_prefill ← quantile prefill (decimal 5 1)
    p95_prefill ← quantile prefill (decimal 95 2)
    p50_decode ← quantile decode (decimal 5 1)
    ok (record {
      config_name = config_name;
      policy_name = policy_name;
      requests_total = length m.results;
      requests_admitted = length latencies;
      p50_latency_ms = round p50_latency 2;
      p95_latency_ms = round p95_latency 2;
      p99_latency_ms = round p99_latency 2;
      p50_prefill_ms = round p50_prefill 2;
      p95_prefill_ms = round p95_prefill 2;
      p50_decode_ms = round p50_decode 2;
      throughput_tokens_per_s = round (of_ℕ tokens ⊘ seconds) 2;
      throughput_requests_per_s = round (of_ℕ (length latencies) ⊘ seconds) 2;
      cache_hit_ratio = round cache_hit_ratio 4;
      cache_saved_tokens_total = count_sum (map (λ r. r.cache_saved_tokens) done);
      sla_miss_rate = round sla_miss_rate 4;
      cost_per_1m_tokens_usd = round (total_cost ⊘ of_ℕ (greatest tokens 1) ⊗ of_ℕ 1_000_000) 4;
      energy_proxy_total = round (sum (map (λ r. r.energy_proxy) done)) 4;
      network_cost_total = round (sum (map (λ r. r.network_cost) done)) 4;
      gpu_utilization_proxy =
          round
            (min (decimal 10 1)
              (total_busy_s ⊘ max (duration_s ⊗ of_ℕ (greatest 1 total_slots)) (decimal 1 9)))
            4;
      memory_utilization_proxy =
          round (min (decimal 10 1) (mean_memory_gb ⊘ max total_memory_gb (decimal 1 9))) 4;
      mean_absolute_latency_error_ms = round (mean estimation_error) 4;
      fairness_index =
          round (jains_index (fairness_values m.tenant_completed m.tenant_submitted)) 4;
    })
