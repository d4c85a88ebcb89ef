-- ===== src/Engine/Runs.antt =====
-- simulators/engine.py: the three ledgers of a run, which are the control plane's statistics, the
-- collector's results and the counters of the Azure simulator.
use nimbus_mesh_x.Base.{
  ◌+◌, ◌≡◌, refl, subst, arith, of_Bool, true, List, [], ◌∷◌, ◌++◌, filter, length, length-append,
  ok, >>=-eq-ok, ok-injective,
}
use nimbus_mesh_x.Float.{Float}
use nimbus_mesh_x.Types.{InferenceRequest, RequestResult}
use nimbus_mesh_x.ControlPlane.{
  ControlPlane, stats_of, total_completed, refresh_plane, Routers, execute,
  note_submission as note_request,
}
use nimbus_mesh_x.ControlPlane.Executed.{total_completed-insert}
use nimbus_mesh_x.ControlPlane.Accounts.{execute_accounts}
use nimbus_mesh_x.Metrics.{note_submission, record_result, admitted_results}
use nimbus_mesh_x.Azure.{
  AzureSimulator, note_submission as note_batch, record_result as record_azure,
}
use nimbus_mesh_x.Engine.{EngineState, store_decision, write_outputs, step, run_requests}

module _ {F : Type 0} ⦃f : Float F⦄ where
  -- The ledgers agree: the statistics count the admitted results, and the simulator counts the results
  -- and the admitted ones.
  pub record Agree (s : EngineState F) : Type 0 where
    pub completions :
        total_completed s.control_plane.tenant_stats ≡ length (admitted_results s.metrics)
    pub submissions : s.azure.submitted ≡ length s.metrics.results
    pub batch_completions : s.azure.completed ≡ length (admitted_results s.metrics)
    pub simulated : s.azure.available ≡ true

  note_request-total :
      (request : InferenceRequest F) (cp : ControlPlane F)
      → total_completed (note_request request cp).tenant_stats ≡ total_completed cp.tenant_stats
  unfolding note_request
  note_request-total request cp =
      let old = stats_of request.tenant_id cp.tenant_stats in
      omega (
        arith,
        total_completed-insert request.tenant_id (record old { submitted = old.submitted + 1 })
            cp.tenant_stats,
      )

  length-filter-snoc :
      (r : RequestResult F) (rs : List (RequestResult F))
      → length (filter (λ x. x.admitted) (rs ++ r ∷ []))
        ≡ length (filter (λ x. x.admitted) rs) + of_Bool r.admitted
  length-filter-snoc r [] = ground arith
  length-filter-snoc r (x ∷ rs) = ground (arith, length-filter-snoc r rs)

  azure-counts :
      (request : InferenceRequest F) (result : RequestResult F) (a : AzureSimulator F)
      → a.available ≡ true
      → let after = record_azure result (note_batch request a) in
        (after.submitted ≡ a.submitted + 1)
        × (after.completed ≡ a.completed + of_Bool result.admitted)
        × (after.available ≡ true)
  unfolding record_azure note_batch
  azure-counts request result a up = rw up (refl, refl, refl)

  -- What a step that does not raise consists of.
  pub step-eq-ok :
      (routers : Routers F) (request : InferenceRequest F) (s after : EngineState F)
      → step routers request s ≡ ok after
      → (result : RequestResult F) × (executed : ControlPlane F) × (execute routers request
            request.arrival_ts
            (note_request request (refresh_plane request.arrival_ts s.control_plane))
          ≡ ok (result, executed))
        × (record {
          control_plane = store_decision result executed;
          metrics = record_result result (note_submission request.tenant_id s.metrics);
          azure = record_azure result (note_batch request s.azure);
          outputs = write_outputs result s.outputs;
        }
            ≡ after)
  unfolding step
  step-eq-ok routers request s after h =
      let (executed, done, e) = >>=-eq-ok _ _ h in
      (executed.0, executed.1, done, ok-injective _ after e)

  step-Agree :
      (routers : Routers F) (request : InferenceRequest F) (s after : EngineState F)
      → Agree s
      → step routers request s ≡ ok after
      → Agree after × (length after.metrics.results ≡ length s.metrics.results + 1)
  unfolding record_result note_submission admitted_results store_decision refresh_plane
  step-Agree routers request s after agree h =
      let (result, executed, done, e) = step-eq-ok routers request s after h in
      let start = refresh_plane request.arrival_ts s.control_plane in
      let (_, _, total) =
        execute_accounts routers request request.arrival_ts (note_request request start) executed
          result request.tenant_id done in
      let noted = note_request-total request start in
      let admitted = length-filter-snoc result s.metrics.results in
      let (submitted, completed, up) = azure-counts request result s.azure agree.simulated in
      let longer = length-append s.metrics.results (result ∷ []) in
      subst (λ t. Agree t × (length t.metrics.results ≡ length s.metrics.results + 1)) e
        (
          record {
            completions = omega (arith, total, noted, admitted, agree.completions);
            submissions = omega (arith, submitted, longer, agree.submissions);
            batch_completions = omega (arith, completed, admitted, agree.batch_completions);
            simulated = up;
          },
          omega (arith, longer),
        )

  -- A run that does not raise keeps in agreement the completions in the control plane's
  -- statistics, the admitted results of the collector and the counters of the available Azure
  -- simulator, and it records one result for each request.
  pub run_requests-Agree :
      (routers : Routers F) (requests : List (InferenceRequest F)) (s after : EngineState F)
      → Agree s
      → run_requests routers requests s ≡ ok after
      → Agree after × (length after.metrics.results ≡ length s.metrics.results + length requests)
  unfolding run_requests
  run_requests-Agree routers [] s after agree h =
      subst (λ t. Agree t × (length t.metrics.results ≡ length s.metrics.results + 0))
        (ok-injective s after h) (agree, omega arith)
  run_requests-Agree routers (request ∷ requests) s after agree h =
      let (mid, first, rest) = >>=-eq-ok (step routers request s) _ h in
      let (kept, one) = step-Agree routers request s mid agree first in
      let (last, many) = run_requests-Agree routers requests mid after kept rest in
      (last, omega (arith, one, many))
