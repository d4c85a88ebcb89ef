-- ===== src/Engine.antt =====
-- simulators/engine.py, `SimulationEngine.run`: the loop over the requests, and the summary, with the
-- files and the database rows that they write. The engine and the cache directory use one Redis
-- server, whose state the directory holds.
pub mod Runs
pub mod Written
pub mod Served
use nimbus_mesh_x.Base.{
  ℕ, ◌+◌, String, Option, if◌then◌else◌, List, [], ◌∷◌, Result, ok, is_ok, ◌>>=◌,
}
use nimbus_mesh_x.Base.Dict.{Dict}
use nimbus_mesh_x.Float.{Float, ◌⊕◌, of_ℕ}
use nimbus_mesh_x.Types.{InferenceRequest, PoolRuntime, ClusterRuntime, RequestResult}
use nimbus_mesh_x.Config.{ExperimentConfig}
use nimbus_mesh_x.Storage.{write_decision}
use nimbus_mesh_x.Policies.{policy_name}
use nimbus_mesh_x.ControlPlane.{
  ControlPlane, refresh_plane, Routers, execute, note_submission as note_request,
}
use nimbus_mesh_x.Metrics.{MetricsCollector, Summary, note_submission, record_result, summary}
use nimbus_mesh_x.Azure.{
  AzureSimulator, note_submission as note_batch, record_result as record_azure,
}
use nimbus_mesh_x.Reports.{
  Files, open_logs, open_decisions, emit_decision, emit_result, to_dict, ExperimentStore,
  write_result, store_summary, report_of, write_summary, export_summary,
}

-- The logs, the CSV files and the database; `config_name` and `decision_log_path` are the
-- configuration's.
pub record Outputs (F : Type 0) : Type 0 where
  pub config_name : String
  pub decision_log_path : Option String
  pub files : Files F
  pub store : ExperimentStore F

pub record EngineState (F : Type 0) : Type 0 where
  pub control_plane : ControlPlane F
  pub metrics : MetricsCollector F
  pub azure : AzureSimulator F
  pub outputs : Outputs F

-- The default directories of the fan-out and of the exporter.
abbrev pub log_dir : String
log_dir = "logs"

abbrev pub result_dir : String
result_dir = "results"

module _ {F : Type 0} where
  -- The files that the engine opens before the run.
  unfoldable pub open_outputs : ExperimentConfig F → Files F → ExperimentStore F → Outputs F
  open_outputs config files store = record {
    config_name = config.name;
    decision_log_path = config.decision_log_path;
    files = open_logs log_dir (open_decisions config.decision_log_path files);
    store = store;
  }

module _ {F : Type 0} ⦃f : Float F⦄ where
  -- `self.redis_store.write_decision(…)`
  unfoldable pub store_decision : RequestResult F → ControlPlane F → ControlPlane F
  store_decision result cp =
      let directory = cp.directory in
      record cp {
        directory = record directory { redis_store = write_decision result directory.redis_store };
      }

  -- What the loop writes of a result: the decision log, the fan-out, the row of the database.
  unfoldable pub write_outputs : RequestResult F → Outputs F → Outputs F
  write_outputs result outputs = record outputs {
    files =
        emit_result log_dir result
          (emit_decision outputs.decision_log_path (to_dict result) outputs.files);
    store = write_result outputs.config_name result outputs.store;
  }

  -- the body of the loop
  unfoldable pub step : Routers F → InferenceRequest F → EngineState F → Result (EngineState F)
  step routers request s = do
    let now = request.arrival_ts
    let noted = note_request request (refresh_plane now s.control_plane)
    executed ← execute routers request now noted
    let result = executed.0
    ok (record {
      control_plane = store_decision result executed.1;
      metrics = record_result result (note_submission request.tenant_id s.metrics);
      azure = record_azure result (note_batch request s.azure);
      outputs = write_outputs result s.outputs;
    })

  unfoldable pub run_requests :
      Routers F → List (InferenceRequest F) → EngineState F → Result (EngineState F)
  run_requests routers [] s = ok s
  run_requests routers (request ∷ requests) s =
      step routers request s >>= λ after. run_requests routers requests after

  unfoldable pub slots_of : Dict String (PoolRuntime F) → ℕ
  slots_of [] = 0
  slots_of ((pool_id, pool) ∷ pools) = pool.parallel_slots + slots_of pools

  unfoldable pub total_slots : Dict String (ClusterRuntime F) → ℕ
  total_slots [] = 0
  total_slots ((cluster_id, cluster) ∷ clusters) = slots_of cluster.pools + total_slots clusters

  unfoldable pub memory_of_pools : F → Dict String (PoolRuntime F) → F
  memory_of_pools total [] = total
  memory_of_pools total ((pool_id, pool) ∷ pools) = memory_of_pools (total ⊕ pool.memory_gb) pools

  unfoldable pub total_memory_gb : F → Dict String (ClusterRuntime F) → F
  total_memory_gb total [] = total
  total_memory_gb total ((cluster_id, cluster) ∷ clusters) =
      total_memory_gb (memory_of_pools total cluster.pools) clusters

  -- The summary's file, the CSV files, and the row of the database unless a column was missing. The
  -- summary of the Azure simulator, which is added to the dictionary, is left out.
  unfoldable pub write_report :
      Option String → String → Summary F → Outputs F → Result (Unit {0}) × Outputs F
  write_report path policy report outputs =
      let items = report_of report in
      let exported = export_summary result_dir items (write_summary path items outputs.files) in
      let exporting = record outputs { files = exported.0 } in
      let stored = store_summary outputs.config_name policy items outputs.store in
      (exported.1, (if is_ok exported.1 then record exporting { store = stored } else exporting))

  unfoldable pub run :
      Routers F
      → ExperimentConfig F
      → List (InferenceRequest F)
      → EngineState F
      → Result (Summary F × EngineState F)
  run routers config requests s = do
    after ← run_requests routers requests s
    let clusters = after.control_plane.clusters
    let policy = policy_name after.control_plane.policy
    report ←
        summary config.workload.duration_s policy config.name (total_slots clusters)
          (total_memory_gb (of_ℕ 0) clusters) after.metrics
    let written = write_report config.metrics_output_path policy report after.outputs
    outcome ← written.0
    ok (report, record after { outputs = written.1 })
