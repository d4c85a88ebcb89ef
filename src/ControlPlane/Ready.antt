-- ===== src/ControlPlane/Ready.antt =====
-- control_plane/service.py: a control plane whose pools can all be reached, and what a routing leaves
-- of it.
use nimbus_mesh_x.Base.{
  ◌∙◌, ℕ, ◌≡◌, refl, sym, subst, String, string_eq, List, [], ◌∷◌, All, All-append, is_nonempty,
  true, ok, ok-injective, >>=-eq-ok, or_raise, or_raise-eq-ok, key_error, some,
}
use nimbus_mesh_x.Base.Dict.{Dict, lookup, Distinct, lookup_of_Distinct, lookup-All}
use nimbus_mesh_x.Float.{Float}
use nimbus_mesh_x.Types.{InferenceRequest, PoolRuntime, ClusterRuntime, CandidatePlacement}
use nimbus_mesh_x.Backends.{Backend, find_backend}
use nimbus_mesh_x.Topology.{Topology}
use nimbus_mesh_x.Cache.{Directory}
use nimbus_mesh_x.Cache.Total.{HasRoom, prepare-HasRoom, score-prepare}
use nimbus_mesh_x.Policies.{PoolKey}
use nimbus_mesh_x.ControlPlane.{
  ControlPlane, Scratch, build_candidate, pool_candidates, cluster_candidates, enrich,
  build_candidates, find_pool,
}
use nimbus_mesh_x.ControlPlane.Rejecting.{build_candidate-eq-ok, cluster_candidates-All}
use nimbus_mesh_x.ControlPlane.Routed.{All-enrich, build_candidates-eq-ok, pool_ids, all_pool_ids}
use nimbus_mesh_x.ControlPlane.Total.{IsServed}

-- The backend of that name is known.
abbrev pub HasBackend : String → Type 0
HasBackend name = (b : Backend) × (find_backend name ≡ some b)

module _ {F : Type 0} ⦃f : Float F⦄ where
  -- The pool stands under its own id, and is served.
  abbrev pub PoolReady : Topology F → ClusterRuntime F → String → PoolRuntime F → Type 0
  PoolReady t cluster key pool = (key ≡ pool.pool_id) × IsServed t cluster pool

  -- The cluster stands under its own id, its pools are ready, and none stands twice.
  abbrev pub ClusterReady : Topology F → String → ClusterRuntime F → Type 0
  ClusterReady t key cluster =
      (key ≡ cluster.cluster_id)
      × Distinct cluster.pools
      × All (λ p. PoolReady t cluster p.0 p.1) cluster.pools

  -- The clusters are ready, there is a pool, and the directory has room for `n` entries.
  pub record IsReady (n : ℕ) (t : Topology F) (clusters : Dict String (ClusterRuntime F))
      (directory : Directory F) : Type 0 where
    pub distinct : Distinct clusters
    pub ready : All (λ q. ClusterReady t q.0 q.1) clusters
    pub some_pool : is_nonempty (all_pool_ids clusters) ≡ true
    pub has_room : HasRoom n directory

  module _ (t : Topology F) where
    pools-IsServed :
        (cluster : ClusterRuntime F) (pools : Dict String (PoolRuntime F))
        → All (λ p. PoolReady t cluster p.0 p.1) pools
        → All (λ p. IsServed t cluster p.1) pools
    pools-IsServed cluster [] h = tt
    pools-IsServed cluster (p ∷ ps) h = (h.0.1, pools-IsServed cluster ps h.1)

    pub clusters-IsServed :
        (clusters : Dict String (ClusterRuntime F))
        → All (λ q. ClusterReady t q.0 q.1) clusters
        → All (λ q. All (λ p. IsServed t q.1 p.1) q.1.pools) clusters
    clusters-IsServed [] h = tt
    clusters-IsServed (q ∷ qs) h = (pools-IsServed q.1 q.1.pools h.0.2, clusters-IsServed qs h.1)

  module _ (cp : ControlPlane F) (request : InferenceRequest F) (now : F) where
    build_candidate-HasRoom :
        (n : ℕ) (cluster : ClusterRuntime F) (pool : PoolRuntime F) (scratch after : Scratch F)
        (c : CandidatePlacement F)
        → HasRoom n scratch.directory
        → build_candidate cp request now cluster pool scratch ≡ ok (c, after)
        → HasRoom n after.directory
    build_candidate-HasRoom n cluster pool scratch after c room h =
        let (scored, found, left, _, _, _, _, _) =
          build_candidate-eq-ok cp request now cluster pool scratch after c h in
        subst (HasRoom n)
          (score-prepare request cluster.cluster_id pool.pool_id now scratch.directory scored found
            ∙ sym left)
          (prepare-HasRoom n request now scratch.directory room)

    pool_candidates-HasRoom :
        (n : ℕ) (cluster : ClusterRuntime F) (pools : Dict String (PoolRuntime F))
        (scratch after : Scratch F) (cs : List (CandidatePlacement F))
        → HasRoom n scratch.directory
        → pool_candidates cp request now cluster pools scratch ≡ ok (cs, after)
        → HasRoom n after.directory
    unfolding pool_candidates
    pool_candidates-HasRoom n cluster [] scratch after cs room h =
        let same : scratch ≡ after = cc in subst (λ s. HasRoom n s.directory) same room
    pool_candidates-HasRoom n cluster ((pool_id, pool) ∷ pools) scratch after cs room h =
        let (first, made, h1) = >>=-eq-ok _ _ h in
        let (others, rest, h2) = >>=-eq-ok _ _ h1 in
        let same : others.1 ≡ after = cc in
        subst (λ s. HasRoom n s.directory) same
          (pool_candidates-HasRoom n cluster pools first.1 others.1 others.0
            (build_candidate-HasRoom n cluster pool scratch first.1 first.0 room made) rest)

    cluster_candidates-HasRoom :
        (n : ℕ) (clusters : Dict String (ClusterRuntime F)) (scratch after : Scratch F)
        (cs : List (CandidatePlacement F))
        → HasRoom n scratch.directory
        → cluster_candidates cp request now clusters scratch ≡ ok (cs, after)
        → HasRoom n after.directory
    unfolding cluster_candidates
    cluster_candidates-HasRoom n [] scratch after cs room h =
        let same : scratch ≡ after = cc in subst (λ s. HasRoom n s.directory) same room
    cluster_candidates-HasRoom n ((cluster_id, cluster) ∷ clusters) scratch after cs room h =
        let (first, made, h1) = >>=-eq-ok _ _ h in
        let (others, rest, h2) = >>=-eq-ok _ _ h1 in
        let same : others.1 ≡ after = cc in
        subst (λ s. HasRoom n s.directory) same
          (cluster_candidates-HasRoom n clusters first.1 others.1 others.0
            (pool_candidates-HasRoom n cluster cluster.pools scratch first.1 first.0 room made)
            rest)

  pub build_candidates-HasRoom :
      (n : ℕ) (request : InferenceRequest F) (now : F) (cp after : ControlPlane F)
      (cs : List (CandidatePlacement F))
      → HasRoom n cp.directory
      → build_candidates request now cp ≡ ok (cs, after)
      → HasRoom n after.directory
  build_candidates-HasRoom n request now cp after cs room h =
      let (raw, scratch, made, _, e) = build_candidates-eq-ok request now cp after cs h in
      subst (λ s. HasRoom n s.directory) e
        (cluster_candidates-HasRoom cp request now n cp.clusters _ scratch raw room made)

  pub build_candidates-HasBackend :
      (request : InferenceRequest F) (now : F) (cp after : ControlPlane F)
      (cs : List (CandidatePlacement F))
      → All (λ q. All (λ p. IsServed cp.topology q.1 p.1) q.1.pools) cp.clusters
      → build_candidates request now cp ≡ ok (cs, after)
      → All (λ c. HasBackend c.backend_name) cs
  unfolding enrich
  build_candidates-HasBackend request now cp after cs served h =
      let (raw, scratch, made, e, _) = build_candidates-eq-ok request now cp after cs h in
      subst (All (λ c. HasBackend c.backend_name)) e (
        All-enrich _ raw (
          cluster_candidates-All cp request now (λ p. HasBackend p.backend_name) _
            (λ cluster pool before left c known one.
              let (_, _, _, _, _, name, _, _) =
                build_candidate-eq-ok cp request now cluster pool before left c one in
              subst HasBackend (sym name) known)
            cp.clusters _ scratch raw (known_clusters cp.clusters served) made))
    where
      known_pools :
          (cluster : ClusterRuntime F) (pools : Dict String (PoolRuntime F))
          → All (λ p. IsServed cp.topology cluster p.1) pools
          → All (λ p. HasBackend p.1.backend_name) pools
      known_pools cluster [] h = tt
      known_pools cluster (p ∷ ps) h = (h.0.backend, known_pools cluster ps h.1)

      known_clusters :
          (clusters : Dict String (ClusterRuntime F))
          → All (λ q. All (λ p. IsServed cp.topology q.1 p.1) q.1.pools) clusters
          → All (λ q. All (λ p. HasBackend p.1.backend_name) q.1.pools) clusters
      known_clusters [] h = tt
      known_clusters (q ∷ qs) h = (known_pools q.1 q.1.pools h.0, known_clusters qs h.1)

  -- What the key leads to.
  abbrev pub Found : Dict String (ClusterRuntime F) → PoolKey → Type 0
  Found clusters key =
      (found : ClusterRuntime F × PoolRuntime F) × (find_pool key.0 key.1 clusters ≡ ok found)

  module _ (t : Topology F) (all : Dict String (ClusterRuntime F)) where
    pool_ids-Found :
        (cluster : ClusterRuntime F) (pools : Dict String (PoolRuntime F))
        → lookup cluster.cluster_id all ≡ some cluster
        → All (λ p. lookup p.0 cluster.pools ≡ some p.1) pools
        → All (λ p. PoolReady t cluster p.0 p.1) pools
        → All (Found all) (pool_ids cluster pools)
    unfolding find_pool
    pool_ids-Found cluster [] here there ready = tt
    pool_ids-Found cluster ((key, pool) ∷ pools) here there ready = (
      (
        (cluster, pool),
        rw here (rw (subst (λ k. lookup k cluster.pools ≡ some pool) ready.0.0 there.0) refl),
      ),
      pool_ids-Found cluster pools here there.1 ready.1,
    )

    all_pool_ids-Found :
        (clusters : Dict String (ClusterRuntime F))
        → All (λ q. lookup q.0 all ≡ some q.1) clusters
        → All (λ q. ClusterReady t q.0 q.1) clusters
        → All (Found all) (all_pool_ids clusters)
    all_pool_ids-Found [] there ready = tt
    all_pool_ids-Found ((key, cluster) ∷ clusters) there ready =
        let (id, distinct, pools) = ready.0 in
        All-append (Found all) (pool_ids cluster cluster.pools) (all_pool_ids clusters)
          (pool_ids-Found cluster cluster.pools
            (subst (λ k. lookup k all ≡ some cluster) id there.0)
            (lookup_of_Distinct cluster.pools distinct) pools)
          (all_pool_ids-Found clusters there.1 ready.1)

    -- Every key of a candidate leads to a pool.
    pub all_pool_ids-Found_of_ready :
        Distinct all → All (λ q. ClusterReady t q.0 q.1) all → All (Found all) (all_pool_ids all)
    all_pool_ids-Found_of_ready distinct ready =
        all_pool_ids-Found all (lookup_of_Distinct all distinct) ready

    pub find_pool-PoolReady :
        (cluster_id pool_id : String) (found : ClusterRuntime F × PoolRuntime F)
        → All (λ q. ClusterReady t q.0 q.1) all
        → find_pool cluster_id pool_id all ≡ ok found
        → ClusterReady t cluster_id found.0 × PoolReady t found.0 pool_id found.1
    unfolding find_pool
    find_pool-PoolReady cluster_id pool_id (cluster, pool) ready h =
        let (c, e, h1) = >>=-eq-ok (or_raise (lookup cluster_id all) key_error) _ h in
        let (p, d, h2) = >>=-eq-ok (or_raise (lookup pool_id c.pools) key_error) _ h1 in
        let at =
          lookup-All (λ k v. ClusterReady t k v) cluster_id all ready (or_raise-eq-ok _ _ e) in
        let one =
          lookup-All (λ k v. PoolReady t c k v) pool_id c.pools at.2 (or_raise-eq-ok _ _ d) in
        subst
          (λ (r : ClusterRuntime F × PoolRuntime F).
            ClusterReady t cluster_id r.0 × PoolReady t r.0 pool_id r.1)
          (ok-injective (c, p) (cluster, pool) h2) (at, one)
