-- ===== src/ControlPlane/Rejecting.antt =====
-- control_plane/service.py: which candidates `build_candidates` makes, and which it rejects.
use nimbus_mesh_x.Base.{
  ℕ, ◌<◌, ◌≡◌, ◌≢◌, ◌∙◌, sym, ok-injective, subst, arith, String, true, false, List, [], ◌∷◌, ◌++◌,
  length, All, All-append, ok, >>=-eq-ok, ◌↔◌, Option, some,
}
use nimbus_mesh_x.Base.Dict.{Dict}
use nimbus_mesh_x.Float.{Float, ◌≼◌}
use nimbus_mesh_x.Types.{
  InferenceRequest, PoolRuntime, inflight_count, memory_headroom_gb, ClusterRuntime, unavailable,
  CandidatePlacement, Rejection, queue_full, estimate_request_memory_gb,
}
use nimbus_mesh_x.Types.PoolFacts.{inflight_count-le}
use nimbus_mesh_x.Cache.{Directory, score}
use nimbus_mesh_x.ControlPlane.{
  ControlPlane, Scratch, model_supported, rejection_of, is_none, build_candidate, pool_candidates,
  cluster_candidates,
}

module _ {F : Type 0} ⦃f : Float F⦄ where
  -- The memory that the request needs when the cache of the pool saves so many tokens.
  abbrev pub needed_memory : InferenceRequest F → ℕ → F
  needed_memory request saved_tokens =
      estimate_request_memory_gb request.prompt_tokens request.generation_tokens request.model_id
        saved_tokens

  -- What the code tests before it rejects.
  abbrev pub rejection_for :
      InferenceRequest F → F → ClusterRuntime F → PoolRuntime F → ℕ → Option Rejection
  rejection_for request now cluster pool saved_tokens =
      rejection_of (unavailable now cluster) (model_supported request.model_id pool)
        (inflight_count now pool) pool.queue_limit (memory_headroom_gb pool)
        (needed_memory request saved_tokens)

  module _ (cp : ControlPlane F) (request : InferenceRequest F) (now : F) where
    pub build_candidate-eq-ok :
        (cluster : ClusterRuntime F) (pool : PoolRuntime F) (scratch after : Scratch F)
        (c : CandidatePlacement F)
        → build_candidate cp request now cluster pool scratch ≡ ok (c, after)
        → (scored : (F × ℕ) × Directory F) × (score request cluster.cluster_id pool.pool_id now
              scratch.directory
            ≡ ok scored)
          × (after.directory ≡ scored.1)
          × (c.cluster_id ≡ cluster.cluster_id)
          × (c.pool_id ≡ pool.pool_id)
          × (c.backend_name ≡ pool.backend_name)
          × (c.available ≡ is_none (rejection_for request now cluster pool scored.0.1))
          × (c.rejection_reason ≡ rejection_for request now cluster pool scored.0.1)
    unfolding build_candidate
    build_candidate-eq-ok cluster pool scratch after c h =
        let (scored, found, rest) =
          >>=-eq-ok (score request cluster.cluster_id pool.pool_id now scratch.directory) _ h in
        (
          scored,
          found,
          ground arith,
          ground arith,
          ground arith,
          ground arith,
          ground arith,
          ground arith,
        )

    -- What is true of every pool's candidate is true of all of them.
    module _ (Q : PoolRuntime F → Type 0) (P : CandidatePlacement F → Type 0)
        (each : (cluster : ClusterRuntime F) (pool : PoolRuntime F) (scratch after : Scratch F)
            (c : CandidatePlacement F)
          → Q pool
          → build_candidate cp request now cluster pool scratch ≡ ok (c, after)
          → P c) where
      pool_candidates-All :
          (cluster : ClusterRuntime F) (pools : Dict String (PoolRuntime F))
          (scratch after : Scratch F) (cs : List (CandidatePlacement F))
          → All (λ q. Q q.1) pools
          → pool_candidates cp request now cluster pools scratch ≡ ok (cs, after)
          → All P cs
      unfolding pool_candidates
      pool_candidates-All cluster [] scratch after cs qs h =
          let none_made : [] ≡ cs = cc in subst (All P) none_made tt
      pool_candidates-All cluster ((pool_id, pool) ∷ pools) scratch after cs qs h =
          let (first, made, h1) = >>=-eq-ok _ _ h in
          let (others, rest, h2) = >>=-eq-ok _ _ h1 in
          let joined : first.0 ∷ others.0 ≡ cs = cc in
          subst (All P) joined (
            each cluster pool scratch first.1 first.0 qs.0 made,
            pool_candidates-All cluster pools first.1 others.1 others.0 qs.1 rest,
          )

      pub cluster_candidates-All :
          (clusters : Dict String (ClusterRuntime F)) (scratch after : Scratch F)
          (cs : List (CandidatePlacement F))
          → All (λ q. All (λ p. Q p.1) q.1.pools) clusters
          → cluster_candidates cp request now clusters scratch ≡ ok (cs, after)
          → All P cs
      unfolding cluster_candidates
      cluster_candidates-All [] scratch after cs qs h =
          let none_made : [] ≡ cs = cc in subst (All P) none_made tt
      cluster_candidates-All ((cluster_id, cluster) ∷ clusters) scratch after cs qs h =
          let (first, made, h1) = >>=-eq-ok _ _ h in
          let (others, rest, h2) = >>=-eq-ok _ _ h1 in
          let joined : first.0 ++ others.0 ≡ cs = cc in
          subst (All P) joined (
            All-append P first.0 others.0
              (pool_candidates-All cluster cluster.pools scratch first.1 first.0 qs.0 made)
              (cluster_candidates-All clusters first.1 others.1 others.0 qs.1 rest))

  -- The test for the queue limit rejects no request while the pool has fewer slots than the limit.
  pub rejection-queue_full :
      (request : InferenceRequest F) (now : F) (cluster : ClusterRuntime F) (pool : PoolRuntime F)
      (saved_tokens : ℕ)
      → length pool.slot_available_at < pool.queue_limit
      → rejection_for request now cluster pool saved_tokens ≢ some queue_full
  unfolding rejection_of
  rejection-queue_full request now cluster pool saved_tokens small e =
      ground (arith, inflight_count-le now pool)

  -- The candidate of a pool, if none of its parts raises, is available just if the cluster is not
  -- in a failure window, the pool supports the model, fewer of its slots are busy than the queue
  -- limit, and the memory that the request needs with the tokens that `score` saves fits the
  -- headroom.
  pub candidate_available :
      (cp : ControlPlane F) (request : InferenceRequest F) (now : F) (cluster : ClusterRuntime F)
      (pool : PoolRuntime F) (scratch after : Scratch F) (c : CandidatePlacement F)
      (scored : (F × ℕ) × Directory F)
      → score request cluster.cluster_id pool.pool_id now scratch.directory ≡ ok scored
      → build_candidate cp request now cluster pool scratch ≡ ok (c, after)
      → (c.available ≡ true)
        ↔ (unavailable now cluster ≡ false)
          × (model_supported request.model_id pool ≡ true)
          × (inflight_count now pool < pool.queue_limit)
          × (needed_memory request scored.0.1 ≼ memory_headroom_gb pool)
  candidate_available cp request now cluster pool scratch after c scored found h =
      let (others, other_found, _, _, _, _, e, _) =
        build_candidate-eq-ok cp request now cluster pool scratch after c h in
      let same = ok-injective others scored (sym other_found ∙ found) in
      rw e (rw same (unfold rejection_of in ground arith))
