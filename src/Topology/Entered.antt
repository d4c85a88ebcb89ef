-- ===== src/Topology/Entered.antt =====
-- topology_service/graph.py: the invariant of the loop of `shortest_path_cost` after a node is visited
-- and its edges are relaxed.
use nimbus_mesh_x.Base.{
  ◌≡◌, sym, ap, subst, ◌∙◌, arith, String, ◌==◌, string_eq, eq_of_beq, beq_refl, true, false,
  Bool-cases, inl, inr, List, ◌∷◌, All, Elem, All_of_Elem, All-intro,
}
use nimbus_mesh_x.Base.Dict.{Dict}
use nimbus_mesh_x.Float.{Float, ◌⊕◌, ◌≼◌, ◌≺◌, of_ℕ}
use nimbus_mesh_x.Float.Laws.{IsFloat, le_refl, le-plus}
use nimbus_mesh_x.Topology.{TopologyLink, Adjacency, pop_least, Reach, relax, is_visited, edges_of}
use nimbus_mesh_x.Topology.Walks.{pop_least-All, relax-All}
use nimbus_mesh_x.Topology.Relaxed.{
  known, IsCovered, Elem-pop_least, pop_least-le, relax-known-le, le-relax-known, relax_settles,
  relax-IsCovered, relax-IsHonest,
}
use nimbus_mesh_x.Topology.Settled.{Invariant, lt_of_le_of_lt}

module _ {F : Type 0} ⦃f : Float F⦄ (laws : IsFloat F) (adjacency : Adjacency F)
    (source target : String) where
  open laws use {le_trans, plus_mono}

  module _ (visited : List String) (distances : Dict String F) (x : F × String)
      (xs : List (F × String)) (inv : Invariant adjacency source target visited distances (x ∷ xs))
      (nonneg : (u : String) → All (λ e. of_ℕ 0 ≼ e.cost) (edges_of u adjacency)) where
    abbrev cost : F
    cost = (pop_least x xs).0.0

    abbrev node_id : String
    node_id = (pop_least x xs).0.1

    abbrev others : List (F × String)
    others = (pop_least x xs).1

    abbrev edges : List (TopologyLink F)
    edges = edges_of node_id adjacency

    abbrev relaxed : Reach F
    relaxed = relax cost edges (distances, others)

    popped_honest : known node_id distances ≼ cost
    popped_honest = (pop_least-All _ x xs inv.honest.0 inv.honest.1).0

    -- The distance of the node that is popped is at least the cost it is popped at.
    popped_least :
        is_visited node_id visited ≡ false
        → known node_id distances ≺ f.infinity
        → cost ≼ known node_id distances
    popped_least new finite = elim (inv.covered node_id) [
      | inl seen ↦ absurd (cc)
      | inr (inl far) ↦ absurd (ground arith)
      | inr (inr (z, m, at, le)) ↦ elim (Elem-pop_least z x xs m) [
        | inl popped ↦ subst (λ p. p.0 ≼ known node_id distances) popped le
        | inr stays ↦
            le_trans _ _ _ (All_of_Elem (λ y. cost ≼ y.0) z others (pop_least-le laws x xs).1 stays)
              le
      ]
    ]

    -- Nothing that is visited, the node itself included, is further than the cost.
    visited_near : (u : String) → is_visited u (node_id ∷ visited) ≡ true → known u distances ≼ cost
    visited_near u seen = elim (Bool-cases (u == node_id)) [
      | inl same ↦
          subst (λ n. known n distances ≼ cost) (sym (eq_of_beq u node_id same)) popped_honest
      | inr other ↦
          let old : is_visited u visited ≡ true = ground arith in
          (pop_least-All (λ y. known u distances ≼ y.0) x xs (inv.near u old).0
            (inv.near u old).1).0
    ]

    self_visited : is_visited node_id (node_id ∷ visited) ≡ true
    self_visited = let e = beq_refl node_id in ground arith

    entered-IsCovered : (n : String) → IsCovered (node_id ∷ visited) relaxed n
    entered-IsCovered n =
        relax-IsCovered laws cost edges (distances, others) (node_id ∷ visited) n
          (elim (inv.covered n) [
            | inl here ↦ inl (ground arith)
            | inr (inl far) ↦ inr (inl far)
            | inr (inr (z, m, at, le)) ↦ elim (Elem-pop_least z x xs m) [
              | inl popped ↦ inl (
                  subst (λ v. is_visited v (node_id ∷ visited) ≡ true)
                    (sym (ap (λ p. p.1) popped) ∙ at) self_visited)
              | inr stays ↦ inr (inr (z, stays, at, le))
            ]
          ])

    relaxed-le : (n : String) → known n relaxed.0 ≼ known n distances
    relaxed-le = relax-known-le laws cost edges (distances, others)

    -- The distance of a node that is visited is final.
    le-relaxed :
        (u : String)
        → is_visited u (node_id ∷ visited) ≡ true
        → known u distances ≼ known u relaxed.0
    le-relaxed u seen =
        le-relax-known laws cost edges (distances, others) (nonneg node_id) u (visited_near u seen)

    node_settled :
        is_visited node_id visited ≡ false
        → (e : TopologyLink F) → Elem e edges
        → known node_id relaxed.0 ⊕ e.cost ≺ f.infinity
        → known e.target relaxed.0 ≼ known node_id relaxed.0 ⊕ e.cost
    node_settled new e m finite =
        let final = le-relaxed node_id self_visited in
        let near : known node_id relaxed.0 ≼ known node_id relaxed.0 ⊕ e.cost =
          le-plus laws _ e.cost (All_of_Elem _ e edges (nonneg node_id) m) in
        let least : cost ≼ known node_id relaxed.0 =
          le_trans _ _ _
            (popped_least new
              (lt_of_le_of_lt laws adjacency source target _ _ (le_trans _ _ _ final near) finite))
            final in
        le_trans _ (cost ⊕ e.cost) _
          (All_of_Elem (λ x. known x.target relaxed.0 ≼ cost ⊕ x.cost) e edges
            (relax_settles laws cost edges (distances, others)) m)
          (plus_mono _ _ _ _ least (le_refl laws e.cost))

    entered_settled :
        is_visited node_id visited ≡ false
        → (u : String) → is_visited u (node_id ∷ visited) ≡ true
        → (e : TopologyLink F) → Elem e (edges_of u adjacency)
        → known u relaxed.0 ⊕ e.cost ≺ f.infinity
        → known e.target relaxed.0 ≼ known u relaxed.0 ⊕ e.cost
    entered_settled new u seen e m finite = elim (Bool-cases (u == node_id)) [
      | inl same ↦
          let at = eq_of_beq u node_id same in
          subst (λ v. known e.target relaxed.0 ≼ known v relaxed.0 ⊕ e.cost) (sym at)
            (node_settled new e (subst (λ v. Elem e (edges_of v adjacency)) at m)
              (subst (λ v. known v relaxed.0 ⊕ e.cost ≺ f.infinity) at finite))
      | inr other ↦
          let old : is_visited u visited ≡ true = ground arith in
          let up : known u distances ⊕ e.cost ≼ known u relaxed.0 ⊕ e.cost =
            plus_mono _ _ _ _ (le-relaxed u seen) (le_refl laws e.cost) in
          le_trans _ _ _ (relaxed-le e.target) (
            le_trans _ _ _
              (inv.settled u old e m (lt_of_le_of_lt laws adjacency source target _ _ up finite))
              up)
    ]

    entered_near :
        (u : String)
        → is_visited u (node_id ∷ visited) ≡ true
        → All (λ y. known u relaxed.0 ≼ y.0) relaxed.1
    entered_near u seen =
        let below : known u relaxed.0 ≼ cost =
          le_trans _ _ _ (relaxed-le u) (visited_near u seen) in
        relax-All (λ y. known u relaxed.0 ≼ y.0) cost edges (distances, others)
          (All-intro _ edges (λ e m.
            le_trans _ _ _ below
              (le-plus laws cost e.cost (All_of_Elem _ e edges (nonneg node_id) m))))
          (All-intro _ others
            (λ y m. le_trans _ _ _ below (All_of_Elem _ y others (pop_least-le laws x xs).1 m)))

    pub Invariant-enter :
        is_visited node_id visited ≡ false
        → (node_id == target) ≡ false
        → Invariant adjacency source target (node_id ∷ visited) relaxed.0 relaxed.1
    Invariant-enter new other = record {
      origin = le_trans _ _ _ (relaxed-le source) inv.origin;
      covered = entered-IsCovered;
      settled = entered_settled new;
      near = entered_near;
      honest =
          relax-IsHonest laws cost edges (distances, others)
            (pop_least-All _ x xs inv.honest.0 inv.honest.1).1;
      ahead =
          let unseen = inv.ahead in
          ground (arith, string_eq.beq_iff node_id target, string_eq.beq_iff target node_id);
    }
