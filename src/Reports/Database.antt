-- ===== src/Reports/Database.antt =====
-- storage/postgres_store.py, `PostgresExperimentStore`: the rows of its two tables. The statements and
-- the connection belong to psycopg; `json.dumps` of a payload is the payload.
use nimbus_mesh_x.Base.{
  String, string_eq, ◌==◌, Bool, not, ◌&&◌, if◌then◌else◌, List, [], ◌∷◌, ◌++◌,
}
use nimbus_mesh_x.Base.Dict.{Dict}
use nimbus_mesh_x.Types.{RequestResult}
use nimbus_mesh_x.Json.{Value, object, of_dict}
use nimbus_mesh_x.Reports.Payloads.{to_dict}

-- A row of experiment_results.
pub record ResultRow (F : Type 0) : Type 0 where
  pub request_id : String
  pub config_name : String
  pub policy_name : String
  pub tenant_id : String
  pub model_id : String
  pub cluster_id : String
  pub pool_id : String
  pub total_latency_ms : F
  pub cache_hit_ratio : F
  pub cost_usd : F
  pub payload : Value F

-- A row of experiment_summaries.
pub record SummaryRow (F : Type 0) : Type 0 where
  pub config_name : String
  pub policy_name : String
  pub summary : Value F

pub record ExperimentStore (F : Type 0) : Type 0 where
  pub enabled : Bool
  pub experiment_results : List (ResultRow F)
  pub experiment_summaries : List (SummaryRow F)

module _ {F : Type 0} where
  -- `bool(self.dsn and self.psycopg is not None)`, with the tables that are there or are created
  unfoldable pub open_store :
      String → Bool → List (ResultRow F) → List (SummaryRow F) → ExperimentStore F
  open_store dsn has_psycopg results summaries = record {
    enabled = not (dsn == "") && has_psycopg;
    experiment_results = results;
    experiment_summaries = summaries;
  }

  unfoldable pub result_row : String → RequestResult F → ResultRow F
  result_row config_name result = record {
    request_id = result.request.request_id;
    config_name = config_name;
    policy_name = result.decision.policy_name;
    tenant_id = result.request.tenant_id;
    model_id = result.request.model_id;
    cluster_id = result.decision.cluster_id;
    pool_id = result.decision.pool_id;
    total_latency_ms = result.total_latency_ms;
    cache_hit_ratio = result.cache_hit_ratio;
    cost_usd = result.cost_usd;
    payload = to_dict result;
  }

  unfoldable pub write_result : String → RequestResult F → ExperimentStore F → ExperimentStore F
  write_result config_name result store =
      if store.enabled
      then record store {
        experiment_results = store.experiment_results ++ result_row config_name result ∷ [];
      }
      else store

  unfoldable pub store_summary :
      String → String → Dict String (Value F) → ExperimentStore F → ExperimentStore F
  store_summary config_name policy_name summary store =
      let row : SummaryRow F = record {
        config_name = config_name;
        policy_name = policy_name;
        summary = object (of_dict summary);
      } in
      if store.enabled
      then record store { experiment_summaries = store.experiment_summaries ++ row ∷ [] }
      else store
