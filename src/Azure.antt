-- ===== src/Azure.antt =====
-- azure_sim/environment.py, `AzureInfraSimulator`: its counters and the lines of its three logs. The
-- configuration that is loaded and the queue in Ray are not modelled; `ray_queue_enabled` tells
-- whether there is one.
pub mod Loading
use nimbus_mesh_x.Base.{
  ℕ, ◌+◌, of_Bool, String, string_eq, Bool, if◌then◌else◌, List, [], ◌∷◌, ◌++◌,
}
use nimbus_mesh_x.Base.Dict.{Dict, insert, get_or}
use nimbus_mesh_x.Float.{Float, ◌⊕◌, decimal, round}
use nimbus_mesh_x.Types.{InferenceRequest, RequestResult}

-- A line of a log.
pub data Event (F : Type 0) : Type 0 where
  -- request_id, tenant_id, submitted_total, ray_queue_enabled
  batch_submission : String → String → ℕ → Bool → Event F
  -- request_id, cluster, latency_ms, cache_hit_ratio, gpu_pool
  monitor_metric : String → String → F → F → String → Event F
  -- request_id, cluster, request_cost_usd, cluster_cost_usd
  cost_metric : String → String → F → F → Event F

pub record AzureSimulator (F : Type 0) : Type 0 where
  pub available : Bool
  pub ray_queue_enabled : Bool
  pub submitted : ℕ
  pub completed : ℕ
  pub cluster_costs : Dict String F
  pub batch_log : List (Event F)
  pub monitor_log : List (Event F)
  pub cost_log : List (Event F)

module _ {F : Type 0} ⦃f : Float F⦄ where
  unfoldable pub note_submission : InferenceRequest F → AzureSimulator F → AzureSimulator F
  note_submission request a =
      let event =
        batch_submission request.request_id request.tenant_id (a.submitted + 1)
          a.ray_queue_enabled in
      if a.available
      then record a { submitted = a.submitted + 1; batch_log = a.batch_log ++ event ∷ [] }
      else a

  unfoldable pub record_result : RequestResult F → AzureSimulator F → AzureSimulator F
  record_result result a =
      let cluster_id = result.decision.cluster_id in
      let cluster_cost = get_or cluster_id (decimal 0 1) a.cluster_costs ⊕ result.cost_usd in
      let metric =
        monitor_metric result.request.request_id cluster_id result.total_latency_ms
          result.cache_hit_ratio result.decision.pool_id in
      let cost =
        cost_metric result.request.request_id cluster_id result.cost_usd (round cluster_cost 6) in
      if a.available
      then record a {
        completed = a.completed + of_Bool result.admitted;
        cluster_costs = insert cluster_id cluster_cost a.cluster_costs;
        monitor_log = a.monitor_log ++ metric ∷ [];
        cost_log = a.cost_log ++ cost ∷ [];
      }
      else a
