-- ===== src/Topology/Walks.antt =====
-- topology_service/graph.py: what a cost that `shortest_path_cost` returns is the cost of.
use nimbus_mesh_x.Base.{
  ℕ, zero, suc, ◌≡◌, sym, subst, ◌∙◌, String, ◌==◌, string_eq, eq_of_beq, Bool, true, false,
  Bool-cases, inl, inr, ◌⊎◌, if◌then◌else◌, if_true, if_false, List, [], ◌∷◌, All, Elem, All-intro,
  ok, ok-injective,
}
use nimbus_mesh_x.Base.Dict.{Dict, get_or}
use nimbus_mesh_x.Float.{Float, ◌⊕◌, ◌<?◌, of_ℕ}
use nimbus_mesh_x.Topology.{
  TopologyLink, Adjacency, earlier, pop_least, Reach, push_edge, relax, is_visited, edges_of,
  search, shortest_path_cost,
}

-- A walk along edges from `source` to a node, with the cost that the code adds up.
pub data Walk {F : Type 0} ⦃f : Float F⦄ (adjacency : Adjacency F) (source : String)
    : String → F → Type 0 where
  start : Walk adjacency source source (of_ℕ 0)
  along :
      {node_id : String} {cost : F}
      → Walk adjacency source node_id cost
      → (edge : TopologyLink F) → Elem edge (edges_of node_id adjacency)
      → Walk adjacency source edge.target (cost ⊕ edge.cost)

module _ {F : Type 0} ⦃f : Float F⦄ where
  pub pop_least-All :
      (P : F × String → Type 0) (x : F × String) (xs : List (F × String))
      → P x
      → All P xs
      → P (pop_least x xs).0 × All P (pop_least x xs).1
  unfolding pop_least
  pop_least-All P x [] p ps = (p, tt)
  pop_least-All P x (y ∷ ys) p ps =
      let next = if earlier y x then y else x in
      let other = if earlier y x then x else y in
      let (least, rest) = pop_least-All P next ys (pick (earlier y x) ps.0 p) ps.1 in
      (least, (pick (earlier y x) p ps.0, rest))
    where
      pick : {a b : F × String} (t : Bool) → P a → P b → P (if t then a else b)
      pick true q r = q
      pick false q r = r

  push_edge-All :
      (P : F × String → Type 0) (cost : F) (e : TopologyLink F) (state : Reach F)
      → P (cost ⊕ e.cost, e.target)
      → All P state.1
      → All P (push_edge cost e state).1
  unfolding push_edge
  push_edge-All P cost e (distances, frontier) new ps =
      elim (Bool-cases (cost ⊕ e.cost <? get_or e.target f.infinity distances)) [
        | inl closer ↦ rw closer (new, ps)
        | inr other ↦ rw other ps
      ]

  pub relax-All :
      (P : F × String → Type 0) (cost : F) (edges : List (TopologyLink F)) (state : Reach F)
      → All (λ e. P (cost ⊕ e.cost, e.target)) edges
      → All P state.1
      → All P (relax cost edges state).1
  unfolding relax
  relax-All P cost [] state new ps = ps
  relax-All P cost (e ∷ edges) state new ps =
      relax-All P cost edges (push_edge cost e state) new.1 (push_edge-All P cost e state new.0 ps)

  module _ (adjacency : Adjacency F) (source target : String) where
    abbrev Reached : F × String → Type 0
    Reached x = Walk adjacency source x.1 x.0

    search-Walk :
        (fuel : ℕ) (visited : List String) (distances : Dict String F)
        (frontier : List (F × String)) (cost : F)
        → All Reached frontier
        → search adjacency target fuel visited distances frontier ≡ ok cost
        → (cost ≡ f.infinity) ⊎ Walk adjacency source target cost
    unfolding search
    search-Walk zero visited distances frontier cost reached h = cc
    search-Walk (suc fuel) visited distances [] cost reached h = inl (sym (ok-injective _ cost h))
    search-Walk (suc fuel) visited distances (x ∷ xs) cost reached h =
        let popped = pop_least x xs in
        let node = popped.0.1 in
        let (here, others) = pop_least-All Reached x xs reached.0 reached.1 in
        elim (Bool-cases (is_visited node visited)) [
          | inl seen ↦
              search-Walk fuel visited distances popped.1 cost others (sym (if_true _ _ _ seen) ∙ h)
          | inr new ↦ elim (Bool-cases (node == target)) [
            | inl found ↦
                let same : popped.0.0 ≡ cost =
                  ok-injective _ cost
                    (sym (if_true _ (ok popped.0.0) _ found) ∙ sym (if_false _ _ _ new) ∙ h) in
                inr (
                  subst (λ n. Walk adjacency source n cost) (eq_of_beq node target found)
                    (subst (Walk adjacency source node) same here))
            | inr other ↦
                search-Walk fuel (node ∷ visited) _ _ cost
                  (relax-All Reached popped.0.0 (edges_of node adjacency) (distances, popped.1)
                    (All-intro (λ e. Reached (popped.0.0 ⊕ e.cost, e.target))
                      (edges_of node adjacency) (λ e m. along here e m))
                    others)
                  (sym (if_false _ (ok popped.0.0) _ other) ∙ sym (if_false _ _ _ new) ∙ h)
          ]
        ]

    -- What the search returns is infinity or the cost of a walk along the edges from the source to
    -- the target.
    pub shortest_path_cost-Walk :
        (cost : F)
        → shortest_path_cost source target adjacency ≡ ok cost
        → (cost ≡ f.infinity) ⊎ Walk adjacency source target cost
    unfolding shortest_path_cost
    shortest_path_cost-Walk cost h = search-Walk _ [] _ _ cost (start, tt) h
