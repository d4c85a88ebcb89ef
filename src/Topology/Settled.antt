-- ===== src/Topology/Settled.antt =====
-- topology_service/graph.py: the invariant of the loop of `shortest_path_cost`, and what it says of the
-- walks along the edges.
use nimbus_mesh_x.Base.{
  ◌≡◌, sym, ap, subst, ◌∙◌, arith, String, string_eq, true, false, inl, inr, ◌⊎◌, List, ◌∷◌, All,
  Elem, All_of_Elem,
}
use nimbus_mesh_x.Base.Dict.{Dict}
use nimbus_mesh_x.Float.{Float, ◌⊕◌, ◌≼◌, ◌≺◌, of_ℕ}
use nimbus_mesh_x.Float.Laws.{IsFloat, le_refl, le-plus}
use nimbus_mesh_x.Topology.{TopologyLink, Adjacency, pop_least, Reach, is_visited, edges_of}
use nimbus_mesh_x.Topology.Walks.{Walk, start, along, pop_least-All}
use nimbus_mesh_x.Topology.Relaxed.{known, IsCovered, Elem-pop_least, IsHonest}

module _ {F : Type 0} ⦃f : Float F⦄ where
  -- A node that is reached at `cost`: visited at no more, or some entry of the frontier is no more.
  abbrev pub IsWithin : List String → Reach F → String → F → Type 0
  IsWithin visited (distances, frontier) n cost =
      (is_visited n visited ≡ true) × (known n distances ≼ cost)
      ⊎ ((x : F × String) × Elem x frontier × (x.0 ≼ cost))

module _ {F : Type 0} ⦃f : Float F⦄ (adjacency : Adjacency F) (source target : String) where
  -- What holds each time the loop begins: `settled` of the nodes that are visited, and every other
  -- node with a distance waits in the frontier.
  pub record Invariant (visited : List String) (distances : Dict String F)
      (frontier : List (F × String)) : Type 0 where
    pub origin : known source distances ≼ of_ℕ 0
    pub covered : (n : String) → IsCovered visited (distances, frontier) n
    pub settled :
        (u : String)
        → is_visited u visited ≡ true
        → (e : TopologyLink F) → Elem e (edges_of u adjacency)
        → known u distances ⊕ e.cost ≺ f.infinity
        → known e.target distances ≼ known u distances ⊕ e.cost
    pub near :
        (u : String) → is_visited u visited ≡ true → All (λ x. known u distances ≼ x.0) frontier
    pub honest : IsHonest (distances, frontier)
    pub ahead : is_visited target visited ≡ false

module _ {F : Type 0} ⦃f : Float F⦄ (laws : IsFloat F) (adjacency : Adjacency F)
    (source target : String) where
  open laws use {le_trans, plus_mono}

  IsWithin-of_IsCovered :
      (visited : List String) (distances : Dict String F) (frontier : List (F × String))
      → (n : String) (cost : F) → IsCovered visited (distances, frontier) n
      → known n distances ≼ cost
      → cost ≺ f.infinity
      → IsWithin visited (distances, frontier) n cost
  IsWithin-of_IsCovered visited distances frontier n cost (inl seen) le finite = inl (seen, le)
  IsWithin-of_IsCovered visited distances frontier n cost (inr (inl far)) le finite =
      absurd (ground (arith, le_trans f.infinity (known n distances) cost))
  IsWithin-of_IsCovered visited distances frontier n cost (inr (inr (x, m, at, k))) le finite =
      inr (x, m, le_trans _ _ _ k le)

  pub lt_of_le_of_lt : (x y : F) → x ≼ y → y ≺ f.infinity → x ≺ f.infinity
  lt_of_le_of_lt x y h k = ground (arith, le_trans f.infinity x y)

  pub Walk-IsWithin :
      {visited : List String} {distances : Dict String F} {frontier : List (F × String)}
      → Invariant adjacency source target visited distances frontier
      → ((u : String) → All (λ e. of_ℕ 0 ≼ e.cost) (edges_of u adjacency))
      → {n : String} {cost : F} → Walk adjacency source n cost
      → cost ≺ f.infinity
      → IsWithin visited (distances, frontier) n cost
  Walk-IsWithin inv nonneg start finite =
      IsWithin-of_IsCovered _ _ _ source (of_ℕ 0) (inv.covered source) inv.origin finite
  Walk-IsWithin {distances} inv nonneg (along {node_id} {cost} w e m) finite =
      let longer : cost ≼ cost ⊕ e.cost =
        le-plus laws cost e.cost
          (All_of_Elem _ e (edges_of node_id adjacency) (nonneg node_id) m) in
      elim (Walk-IsWithin inv nonneg w (lt_of_le_of_lt cost _ longer finite)) [
        | inr (x, there, le) ↦ inr (x, there, le_trans _ _ _ le longer)
        | inl (seen, le) ↦
            let step : known node_id distances ⊕ e.cost ≼ cost ⊕ e.cost =
              plus_mono _ _ _ _ le (le_refl laws e.cost) in
            IsWithin-of_IsCovered _ _ _ e.target (cost ⊕ e.cost) (inv.covered e.target)
              (le_trans _ _ _ (inv.settled node_id seen e m (lt_of_le_of_lt _ _ step finite)) step)
              finite
      ]

  pub Invariant-skip :
      (visited : List String) (distances : Dict String F) (x : F × String) (xs : List (F × String))
      → is_visited (pop_least x xs).0.1 visited ≡ true
      → Invariant adjacency source target visited distances (x ∷ xs)
      → Invariant adjacency source target visited distances (pop_least x xs).1
  Invariant-skip visited distances x xs seen inv = record {
    origin = inv.origin;
    covered = λ n. elim (inv.covered n) [
      | inl here ↦ inl here
      | inr (inl far) ↦ inr (inl far)
      | inr (inr (z, m, at, le)) ↦ elim (Elem-pop_least z x xs m) [
        | inl popped ↦
            inl (subst (λ v. is_visited v visited ≡ true) (sym (ap (λ p. p.1) popped) ∙ at) seen)
        | inr stays ↦ inr (inr (z, stays, at, le))
      ]
    ];
    settled = inv.settled;
    near = λ u here. (pop_least-All _ x xs (inv.near u here).0 (inv.near u here).1).1;
    honest = (pop_least-All _ x xs inv.honest.0 inv.honest.1).1;
    ahead = inv.ahead;
  }
