-- ===== src/Scheduler/Returning.antt =====
-- cluster_scheduler/local_scheduler.py: when `place_request` returns, and what it leaves as it was.
use nimbus_mesh_x.Base.{
  ℕ, ◌<◌, ◌≡◌, refl, subst, arith, List, [], ◌∷◌, get_or, length, length-set, true, none, ok,
  ok-injective, >>=-eq-ok, >>=_total,
}
use nimbus_mesh_x.Float.{Float}
use nimbus_mesh_x.Types.{InferenceRequest, PoolRuntime, CandidatePlacement, RoutingDecision}
use nimbus_mesh_x.Cache.{Directory, observe, total_entries}
use nimbus_mesh_x.Cache.Total.{observe_total}
use nimbus_mesh_x.Backends.{Backend}
use nimbus_mesh_x.Scheduler.{
  Placed, argmin, earliest_index, start_ts, occupy, latency_of, placed_result, place_request,
}

module _ {F : Type 0} ⦃f : Float F⦄ where
  earliest_index_total :
      (slots : List F) → 0 < length slots → (i : ℕ) × (earliest_index slots ≡ ok i)
  unfolding earliest_index
  earliest_index_total [] h = absurd (omega arith)
  earliest_index_total (x ∷ xs) h = (argmin x 0 1 xs, refl)

  -- A placed request is admitted, with no reason of rejection.
  pub place_request_admitted :
      (request : InferenceRequest F) (candidate : CandidatePlacement F)
      (decision : RoutingDecision F) (pool : PoolRuntime F) (backend : Backend) (now : F)
      (directory : Directory F) (placed : Placed F)
      → place_request request candidate decision pool backend now directory ≡ ok placed
      → (placed.result.admitted ≡ true) × (placed.result.rejection_reason ≡ none)
  unfolding place_request placed_result
  place_request_admitted request candidate decision pool backend now directory placed h =
      ground arith

  -- With a slot in the pool and room in the cache directory a placement does not raise.
  pub place_request_total :
      (request : InferenceRequest F) (candidate : CandidatePlacement F)
      (decision : RoutingDecision F) (pool : PoolRuntime F) (backend : Backend) (now : F)
      (directory : Directory F)
      → 0 < length pool.slot_available_at
      → total_entries directory.entries < directory.max_entries
      → (placed : Placed F) × (place_request request candidate decision pool backend now directory
          ≡ ok placed)
  unfolding place_request
  place_request_total request candidate decision pool backend now directory slots room =
      >>=_total (earliest_index pool.slot_available_at) _
        (earliest_index_total pool.slot_available_at slots)
        (λ slot _.
          let start = start_ts now (get_or pool.slot_available_at slot now) in
          let latency = latency_of backend request candidate pool in
          let result = placed_result request candidate decision pool now start latency in
          let (after, observed, _) = observe_total result directory room in
          >>=_total (observe result directory) _ (after, observed) (λ d _. (_, refl)))

  -- What a placement leaves of the pool's description, and where the directory comes from.
  pub place_request_keeps :
      (request : InferenceRequest F) (candidate : CandidatePlacement F)
      (decision : RoutingDecision F) (pool : PoolRuntime F) (backend : Backend) (now : F)
      (directory : Directory F) (placed : Placed F)
      → place_request request candidate decision pool backend now directory ≡ ok placed
      → (placed.pool.pool_id ≡ pool.pool_id)
        × (placed.pool.backend_name ≡ pool.backend_name)
        × (length placed.pool.slot_available_at ≡ length pool.slot_available_at)
        × (observe placed.result directory ≡ ok placed.directory)
  unfolding place_request occupy
  place_request_keeps request candidate decision pool backend now directory placed h =
      let (slot, found, h1) = >>=-eq-ok (earliest_index pool.slot_available_at) _ h in
      let start = start_ts now (get_or pool.slot_available_at slot now) in
      let latency = latency_of backend request candidate pool in
      let result = placed_result request candidate decision pool now start latency in
      let (d, observed, h2) = >>=-eq-ok (observe result directory) _ h1 in
      subst
        (λ (p : Placed F).
          (p.pool.pool_id ≡ pool.pool_id)
          × (p.pool.backend_name ≡ pool.backend_name)
          × (length p.pool.slot_available_at ≡ length pool.slot_available_at)
          × (observe p.result directory ≡ ok p.directory))
        (ok-injective _ placed h2)
        (refl, refl, length-set pool.slot_available_at slot result.completion_ts, observed)
