-- ===== src/ControlPlane/Kept.antt =====
-- control_plane/service.py: a control plane that is ready is so after an admission.
use nimbus_mesh_x.Base.{
  ℕ, ◌+◌, ◌<◌, ◌≡◌, refl, sym, subst, ◌∙◌, arith, String, ◌==◌, string_eq, List, [], ◌∷◌, ◌++◌,
  length, All, is_nonempty, true, Bool-cases, inl, inr, if_true, if_false, ok, some,
}
use nimbus_mesh_x.Base.Dict.{Dict, lookup, insert, insert-Distinct, insert-All}
use nimbus_mesh_x.Float.{Float}
use nimbus_mesh_x.Types.{
  InferenceRequest, PoolRuntime, ClusterRuntime, CandidatePlacement, RoutingDecision, RequestResult,
}
use nimbus_mesh_x.Backends.{Backend}
use nimbus_mesh_x.Topology.{Topology, TopologyNode, NodeMetadata, pool_node_id}
use nimbus_mesh_x.Cache.Total.{HasRoom-le, observe-HasRoom}
use nimbus_mesh_x.Scheduler.Returning.{place_request_total, place_request_keeps}
use nimbus_mesh_x.Policies.{PoolKey}
use nimbus_mesh_x.ControlPlane.{ControlPlane, find_pool, put_pool, settle, admit}
use nimbus_mesh_x.ControlPlane.Routed.{pool_ids, all_pool_ids}
use nimbus_mesh_x.ControlPlane.Total.{IsServed}
use nimbus_mesh_x.ControlPlane.Ready.{
  HasBackend, PoolReady, ClusterReady, IsReady, find_pool-PoolReady,
}

module _ {F : Type 0} ⦃f : Float F⦄ where
  -- A pool of another count of completions, and so on, is served as well.
  pub IsServed-alike :
      (t : Topology F) (c : ClusterRuntime F) (p q : PoolRuntime F)
      → q.pool_id ≡ p.pool_id
      → q.backend_name ≡ p.backend_name
      → length q.slot_available_at ≡ length p.slot_available_at
      → IsServed t c p
      → IsServed t c q
  IsServed-alike t c p q id backend slots h = record {
    gateway = h.gateway;
    node =
        subst
          (λ k.
            (n : TopologyNode) × (m : NodeMetadata) × (lookup (pool_node_id c.cluster_id k) t.nodes
              ≡ some n)
            × (n.metadata ≡ some m))
          (sym id) h.node;
    backend = subst HasBackend (sym backend) h.backend;
    slots = subst (λ n. 0 < n) (sym slots) h.slots;
  }

  pub recluster :
      (t : Topology F) (c : ClusterRuntime F) (pools xs : Dict String (PoolRuntime F))
      → All (λ p. PoolReady t c p.0 p.1) xs
      → All (λ p. PoolReady t (record c { pools = pools }) p.0 p.1) xs
  recluster t c pools [] h = tt
  recluster t c pools (x ∷ xs) h = (
    (
      h.0.0,
      record {
        gateway = h.0.1.gateway;
        node = h.0.1.node;
        backend = h.0.1.backend;
        slots = h.0.1.slots;
      },
    ),
    recluster t c pools xs h.1,
  )

  put-ClusterReady :
      (t : Topology F) (cluster_id pool_id : String) (c : ClusterRuntime F) (p q : PoolRuntime F)
      → ClusterReady t cluster_id c
      → PoolReady t c pool_id p
      → q.pool_id ≡ p.pool_id
      → q.backend_name ≡ p.backend_name
      → length q.slot_available_at ≡ length p.slot_available_at
      → ClusterReady t cluster_id (record c { pools = insert pool_id q c.pools })
  put-ClusterReady t cluster_id pool_id c p q at here id backend slots =
      let pools = insert pool_id q c.pools in
      (
        at.0,
        insert-Distinct pool_id q c.pools at.1,
        recluster t c pools pools (
            insert-All (λ k v. PoolReady t c k v) pool_id q c.pools at.2
              (here.0 ∙ sym id, IsServed-alike t c p q id backend slots here.1)),
      )

  some_pool :
      (c : ClusterRuntime F) (pools : Dict String (PoolRuntime F)) (others : List PoolKey)
      → is_nonempty pools ≡ true
      → is_nonempty (pool_ids c pools ++ others) ≡ true
  some_pool c [] others h = cc
  some_pool c (p ∷ pools) others h = refl

  second_nonempty :
      (c : ClusterRuntime F) (pools : Dict String (PoolRuntime F)) (others : List PoolKey)
      → is_nonempty others ≡ true
      → is_nonempty (pool_ids c pools ++ others) ≡ true
  second_nonempty c [] others h = h
  second_nonempty c (p ∷ pools) others h = refl

  pub insert_nonempty :
      (k : String) (v : PoolRuntime F) (d : Dict String (PoolRuntime F))
      → is_nonempty (insert k v d) ≡ true
  unfolding insert
  insert_nonempty k v [] = refl
  insert_nonempty k v ((j, w) ∷ d) = ground arith

  IsReady-le :
      (n : ℕ) (cp : ControlPlane F)
      → IsReady (n + 1) cp.topology cp.clusters cp.directory
      → IsReady n cp.topology cp.clusters cp.directory
  IsReady-le n cp h = record {
    distinct = h.distinct;
    ready = h.ready;
    some_pool = h.some_pool;
    has_room = HasRoom-le n cp.directory h.has_room;
  }

  pub some_pool-insert :
      (k : String) (c : ClusterRuntime F) (clusters : Dict String (ClusterRuntime F))
      → is_nonempty c.pools ≡ true
      → is_nonempty (all_pool_ids (insert k c clusters)) ≡ true
  unfolding insert
  some_pool-insert k c [] h = some_pool c c.pools [] h
  some_pool-insert k c ((j, w) ∷ clusters) h = elim (Bool-cases (k == j)) [
    | inl same ↦ rw same (some_pool c c.pools (all_pool_ids clusters) h)
    | inr other ↦ rw other (
        second_nonempty w w.pools (all_pool_ids (insert k c clusters))
          (some_pool-insert k c clusters h))
  ]

  pub admit_total :
      (request : InferenceRequest F) (c : CandidatePlacement F) (d : RoutingDecision F)
      (found : ClusterRuntime F × PoolRuntime F) (backend : Backend) (now : F) (n : ℕ)
      (mid : ControlPlane F)
      → IsReady (n + 1) mid.topology mid.clusters mid.directory
      → find_pool c.cluster_id c.pool_id mid.clusters ≡ ok found
      → (r : RequestResult F × ControlPlane F) × (admit request c d found backend now mid ≡ ok r)
        × IsReady n r.1.topology r.1.clusters r.1.directory
  unfolding admit settle put_pool
  admit_total request c d (cluster, pool) backend now n mid ready found =
      let t = mid.topology in
      let (at, here) =
        find_pool-PoolReady t mid.clusters c.cluster_id c.pool_id (cluster, pool) ready.ready
          found in
      elim (Bool-cases c.available) [
        | inl up ↦
            let (placed, put) =
              place_request_total request c d pool backend now mid.directory here.1.slots
                (omega (arith, ready.has_room.room)) in
            let (id, backend_name, slots, observed) =
              place_request_keeps request c d pool backend now mid.directory placed put in
            let q = record placed.pool { completed_count = placed.pool.completed_count + 1 } in
            let after = record cluster { pools = insert c.pool_id q cluster.pools } in
            (
              (placed.result, settle request c cluster placed mid),
              if_true c.available _ _ up ∙ rw put refl,
              record {
                distinct = insert-Distinct c.cluster_id after mid.clusters ready.distinct;
                ready =
                    insert-All (λ k v. ClusterReady t k v) c.cluster_id after mid.clusters
                      ready.ready
                      (put-ClusterReady t c.cluster_id c.pool_id cluster pool q at here id
                        backend_name slots);
                some_pool =
                    some_pool-insert c.cluster_id after mid.clusters
                      (insert_nonempty c.pool_id q cluster.pools);
                has_room =
                    observe-HasRoom n placed.result mid.directory placed.directory ready.has_room
                      observed;
              },
            )
        | inr down ↦ (_, if_false c.available _ _ down, IsReady-le n mid ready)
      ]
