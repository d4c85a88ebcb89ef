-- ===== src/ControlPlane/Total.antt =====
-- control_plane/service.py: when `build_candidates` does not raise.
use nimbus_mesh_x.Base.{
  subst, false, ◌++◌, >>=-eq_of_ok, ℕ, ◌<◌, ◌≡◌, refl, sym, ap, ◌∙◌, arith, String, string_eq, List,
  [], ◌∷◌, length, All, ok, ok-injective, >>=_total, or_raise, key_error, Option, some,
}
use nimbus_mesh_x.Base.Dict.{Dict, lookup}
use nimbus_mesh_x.Float.{Float}
use nimbus_mesh_x.Types.{
  InferenceRequest, PoolRuntime, ClusterRuntime, CandidatePlacement, earliest_slot, queue_delay_ms,
}
use nimbus_mesh_x.Cache.{Directory, is_zero, score}
use nimbus_mesh_x.Cache.Total.{score_total, score-prepare, prepare-ttl_s}
use nimbus_mesh_x.ControlPlane.Rejecting.{build_candidate-eq-ok}
use nimbus_mesh_x.Backends.{Backend, find_backend}
use nimbus_mesh_x.Topology.{
  Topology, TopologyNode, NodeMetadata, pool_node_id, pool_affinity, route_cost, shortest_path_cost,
}
use nimbus_mesh_x.Topology.Fuel.{shortest_path_cost_total}
use nimbus_mesh_x.ControlPlane.{
  ControlPlane, Scratch, build_candidate, pool_candidates, cluster_candidates, build_candidates,
}

module _ {A : Type 0} where
  pub or_raise_total :
      (o : Option A) → (a : A) × (o ≡ some a) → (a : A) × (or_raise o key_error ≡ ok a)
  or_raise_total o (a, e) = (a, ap (λ x. or_raise x key_error) e)

module _ {F : Type 0} ⦃f : Float F⦄ where
  -- The pool is in the graph, its backend is known, and it has a slot.
  pub record IsServed (t : Topology F) (c : ClusterRuntime F) (p : PoolRuntime F) : Type 0 where
    pub gateway : (g : String) × (lookup c.cluster_id t.cluster_gateways ≡ some g)
    pub node :
        (n : TopologyNode) × (m : NodeMetadata) × (lookup
            (pool_node_id c.cluster_id p.pool_id)
            t.nodes
          ≡ some n)
        × (n.metadata ≡ some m)
    pub backend : (b : Backend) × (find_backend p.backend_name ≡ some b)
    pub slots : 0 < length p.slot_available_at

  queue_delay_total :
      (now : F) (p : PoolRuntime F)
      → 0 < length p.slot_available_at
      → (d : F) × (queue_delay_ms now p ≡ ok d)
  unfolding queue_delay_ms
  queue_delay_total now p h =
      >>=_total (earliest_slot p.slot_available_at) _ (some_slot p.slot_available_at h)
        (λ d _. (_, refl))
    where
      some_slot : (xs : List F) → 0 < length xs → (d : F) × (earliest_slot xs ≡ ok d)
      some_slot [] small = absurd (omega arith)
      some_slot (x ∷ xs) small = (_, unfold earliest_slot in refl)

  pool_affinity_total :
      (t : Topology F) (c : ClusterRuntime F) (p : PoolRuntime F) (prompt : ℕ)
      → IsServed t c p
      → (a : F) × (pool_affinity c.cluster_id p.pool_id prompt t ≡ ok a)
  unfolding pool_affinity
  pool_affinity_total t c p prompt served =
      let (n, m, found, has) = served.node in
      let at = pool_node_id c.cluster_id p.pool_id in
      >>=_total (or_raise (lookup at t.nodes) key_error) _ (or_raise_total _ (n, found)) (λ node e.
        let same : n ≡ node =
          ok-injective n node (sym (ap (λ o. or_raise o key_error) found) ∙ e) in
        >>=_total (or_raise node.metadata key_error) _
          (
            m,
            ap (λ x. or_raise x.metadata key_error) (sym same) ∙ ap (λ o. or_raise o key_error) has,
          )
          (λ metadata _. (_, refl)))

  route_cost_total :
      (t : Topology F) (c : ClusterRuntime F) (p : PoolRuntime F)
      → IsServed t c p
      → (a : F) × (route_cost c.cluster_id p.pool_id t ≡ ok a)
  unfolding route_cost
  route_cost_total t c p served =
      >>=_total (or_raise (lookup c.cluster_id t.cluster_gateways) key_error) _
        (or_raise_total _ served.gateway)
        (λ g _.
          >>=_total (shortest_path_cost g (pool_node_id c.cluster_id p.pool_id) t.adjacency) _
            (shortest_path_cost_total t.adjacency (pool_node_id c.cluster_id p.pool_id) g)
            (λ cost _. (_, refl)))

  module _ (cp : ControlPlane F) (request : InferenceRequest F) (now : F) where
    -- The cache can be asked for hits: the division by its `ttl_s` does not raise.
    abbrev Divides : Scratch F → Type 0
    Divides scratch = is_zero scratch.directory.ttl_s ≡ false

    build_candidate_total :
        (c : ClusterRuntime F) (p : PoolRuntime F) (scratch : Scratch F)
        → IsServed cp.topology c p
        → Divides scratch
        → (r : CandidatePlacement F × Scratch F) × (build_candidate cp request now c p scratch
            ≡ ok r)
    unfolding build_candidate
    build_candidate_total c p scratch served divides =
        >>=_total (score request c.cluster_id p.pool_id now scratch.directory) _
          (score_total request c.cluster_id p.pool_id now scratch.directory divides)
          (λ scored _.
            >>=_total (pool_affinity c.cluster_id p.pool_id request.prompt_tokens cp.topology) _
              (pool_affinity_total cp.topology c p request.prompt_tokens served)
              (λ affinity _.
                >>=_total (route_cost c.cluster_id p.pool_id cp.topology) _
                  (route_cost_total cp.topology c p served)
                  (λ route _.
                    >>=_total (or_raise (find_backend p.backend_name) key_error) _
                      (or_raise_total _ served.backend)
                      (λ backend _.
                        >>=_total (queue_delay_ms now p) _ (queue_delay_total now p served.slots)
                          (λ delay _. (_, refl))))))

    build_candidate-Divides :
        (c : ClusterRuntime F) (p : PoolRuntime F) (scratch : Scratch F)
        (r : CandidatePlacement F × Scratch F)
        → Divides scratch
        → build_candidate cp request now c p scratch ≡ ok r
        → Divides r.1
    build_candidate-Divides c p scratch r divides h =
        let (scored, found, left, _, _, _, _, _) =
          build_candidate-eq-ok cp request now c p scratch r.1 r.0 h in
        let kept = prepare-ttl_s request now scratch.directory in
        subst (λ (d : Directory F). is_zero d.ttl_s ≡ false)
          (score-prepare request c.cluster_id p.pool_id now scratch.directory scored found
            ∙ sym left)
          (ap is_zero kept ∙ divides)

    pool_candidates_total :
        (c : ClusterRuntime F) (pools : Dict String (PoolRuntime F)) (scratch : Scratch F)
        → All (λ q. IsServed cp.topology c q.1) pools
        → Divides scratch
        → (r : List (CandidatePlacement F) × Scratch F) × (pool_candidates cp request now c pools
              scratch
            ≡ ok r)
          × Divides r.1
    unfolding pool_candidates
    pool_candidates_total c [] scratch served divides = (([], scratch), refl, divides)
    pool_candidates_total c ((pool_id, p) ∷ pools) scratch served divides =
        let (first, made) = build_candidate_total c p scratch served.0 divides in
        let (others, rest, left) =
          pool_candidates_total c pools first.1 served.1
            (build_candidate-Divides c p scratch first divides made) in
        (
          (first.0 ∷ others.0, others.1),
          >>=-eq_of_ok (build_candidate cp request now c p scratch) _ made
              ∙ >>=-eq_of_ok (pool_candidates cp request now c pools first.1) _ rest,
          left,
        )

    cluster_candidates_total :
        (clusters : Dict String (ClusterRuntime F)) (scratch : Scratch F)
        → All (λ q. All (λ p. IsServed cp.topology q.1 p.1) q.1.pools) clusters
        → Divides scratch
        → (r : List (CandidatePlacement F) × Scratch F) × (cluster_candidates cp request now
              clusters scratch
            ≡ ok r)
    unfolding cluster_candidates
    cluster_candidates_total [] scratch served divides = (([], scratch), refl)
    cluster_candidates_total ((cluster_id, c) ∷ clusters) scratch served divides =
        let (first, made, left) = pool_candidates_total c c.pools scratch served.0 divides in
        let (others, rest) = cluster_candidates_total clusters first.1 served.1 left in
        (
          (first.0 ++ others.0, others.1),
          >>=-eq_of_ok (pool_candidates cp request now c c.pools scratch) _ made
              ∙ >>=-eq_of_ok (cluster_candidates cp request now clusters first.1) _ rest,
        )

    -- If the directory's `ttl_s` is not zero, and every pool of every cluster is in the graph with
    -- its metadata and its cluster's gateway, has a known backend and has a slot, then
    -- `build_candidates` does not raise.
    pub build_candidates_total :
        is_zero cp.directory.ttl_s ≡ false
        → All (λ q. All (λ p. IsServed cp.topology q.1 p.1) q.1.pools) cp.clusters
        → (r : List (CandidatePlacement F) × ControlPlane F) × (build_candidates request now cp
            ≡ ok r)
    unfolding build_candidates
    build_candidates_total divides served =
        >>=_total
          (cluster_candidates cp request now cp.clusters
            (record { directory = cp.directory; tenant_stats = cp.tenant_stats }))
          _ (cluster_candidates_total cp.clusters _ served divides) (λ built _. (_, refl))
