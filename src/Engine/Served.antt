-- ===== src/Engine/Served.antt =====
-- simulators/engine.py: the runs that end.
use nimbus_mesh_x.Base.{
  ℕ, ◌+◌, ◌≡◌, refl, subst, ◌∙◌, arith, string_eq, List, [], ◌∷◌, length, length-append, ok,
  >>=-eq_of_ok, none,
}
use nimbus_mesh_x.Float.{Float}
use nimbus_mesh_x.Storage.{write_decision}
use nimbus_mesh_x.Types.{InferenceRequest, RequestResult}
use nimbus_mesh_x.ControlPlane.{
  ControlPlane, Routers, refresh_plane, execute, note_submission as note_request,
}
use nimbus_mesh_x.ControlPlane.Ready.{IsReady}
use nimbus_mesh_x.ControlPlane.Refreshed.{refresh_plane-IsReady}
use nimbus_mesh_x.ControlPlane.Served.{execute_total}
use nimbus_mesh_x.Metrics.{note_submission, record_result}
use nimbus_mesh_x.Engine.{EngineState, store_decision, step, run_requests}

module _ {F : Type 0} ⦃f : Float F⦄ where
  abbrev alone : Routers F
  alone = record { grpc_client = none; cpp_core = none }

  store_decision-IsReady :
      (n : ℕ) (result : RequestResult F) (cp : ControlPlane F)
      → IsReady n cp.topology cp.clusters cp.directory
      → let after = store_decision result cp in
        IsReady n after.topology after.clusters after.directory
  unfolding store_decision write_decision
  store_decision-IsReady n result cp h = record {
    distinct = h.distinct;
    ready = h.ready;
    some_pool = h.some_pool;
    has_room = record {
      room = h.has_room.room;
      offline = ground (arith, h.has_room.offline);
      divides = h.has_room.divides;
    };
  }

  note_request-IsReady :
      (n : ℕ) (request : InferenceRequest F) (cp : ControlPlane F)
      → IsReady n cp.topology cp.clusters cp.directory
      → let after = note_request request cp in
        IsReady n after.topology after.clusters after.directory
  unfolding note_request
  note_request-IsReady n request cp h = h

  step_total :
      (request : InferenceRequest F) (n : ℕ) (s : EngineState F)
      → let cp = s.control_plane in
        IsReady (n + 1) cp.topology cp.clusters cp.directory
        → (after : EngineState F) × (step alone request s ≡ ok after)
          × (length after.metrics.results ≡ length s.metrics.results + 1)
          × (let left = after.control_plane in IsReady n left.topology left.clusters left.directory)
  unfolding step record_result note_submission
  step_total request n s ready =
      let now = request.arrival_ts in
      let fresh = refresh_plane now s.control_plane in
      let noted = note_request request fresh in
      let (r, done, after) = execute_total request now n noted (
        note_request-IsReady (n + 1) request fresh
          (refresh_plane-IsReady now (n + 1) s.control_plane ready)) in
      (
        _,
        >>=-eq_of_ok (execute alone request now noted) _ done,
        length-append s.metrics.results (r.0 ∷ []),
        store_decision-IsReady n r.0 r.1 after,
      )

  -- With no scheduler outside, the loop of `run` over the requests ends without an exception and
  -- records one result for each request, if the control plane is ready (as in `execute_total`) and
  -- the cache directory has room for as many entries as there are requests. What `run` does before
  -- and after the loop is not in it.
  pub run_requests_total :
      (requests : List (InferenceRequest F)) (s : EngineState F)
      → (let cp = s.control_plane in IsReady (length requests) cp.topology cp.clusters cp.directory)
      → (after : EngineState F) × (run_requests
            (record { grpc_client = none; cpp_core = none })
            requests
            s
          ≡ ok after)
        × (length after.metrics.results ≡ length s.metrics.results + length requests)
  unfolding run_requests
  run_requests_total [] s ready = (s, refl, omega arith)
  run_requests_total (request ∷ requests) s ready =
      let (mid, first, one, left) = step_total request (length requests) s (
        subst (λ n. let cp = s.control_plane in IsReady n cp.topology cp.clusters cp.directory)
          (omega arith) ready) in
      let (after, rest, many) = run_requests_total requests mid left in
      (after, >>=-eq_of_ok (step alone request s) _ first ∙ rest, omega (arith, one, many))
