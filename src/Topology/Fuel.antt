-- ===== src/Topology/Fuel.antt =====
-- topology_service/graph.py: the `while` loop of `shortest_path_cost` ends.
use nimbus_mesh_x.Base.{
  ℕ, zero, suc, ◌+◌, ◌≤◌, ◌<◌, ◌≡◌, refl, sym, subst, ◌∙◌, arith, String, ◌==◌, string_eq,
  eq_of_beq, beq_refl, true, false, Bool-cases, inl, inr, if◌then◌else◌, if_true, if_false, List,
  [], ◌∷◌, length, ok,
}
use nimbus_mesh_x.Base.Dict.{Dict, get_or, get_or-cons}
use nimbus_mesh_x.Float.{Float, of_ℕ}
use nimbus_mesh_x.Topology.{
  TopologyLink, Adjacency, earlier, pop_least, Reach, push_edge, relax, is_visited, edges_of,
  search, edge_count, shortest_path_cost,
}

module _ {F : Type 0} ⦃f : Float F⦄ where
  length-pop_least :
      (x : F × String) (xs : List (F × String)) → length (pop_least x xs).1 ≡ length xs
  unfolding pop_least
  length-pop_least x [] = refl
  length-pop_least x (y ∷ ys) =
      let next = if earlier y x then y else x in omega (arith, length-pop_least next ys)

  length-push_edge-le :
      (cost : F) (e : TopologyLink F) (state : Reach F)
      → length (push_edge cost e state).1 ≤ suc (length state.1)
  unfolding push_edge
  length-push_edge-le cost e (distances, frontier) = ground arith

  length-relax-le :
      (cost : F) (edges : List (TopologyLink F)) (state : Reach F)
      → length (relax cost edges state).1 ≤ length state.1 + length edges
  unfolding relax
  length-relax-le cost [] state = omega arith
  length-relax-le cost (e ∷ edges) state =
      omega (
        arith,
        length-relax-le cost edges (push_edge cost e state),
        length-push_edge-le cost e state,
      )

module _ {F : Type 0} ⦃f : Float F⦄ where
  -- The edges of the nodes that are not visited.
  abbrev pending : List String → Adjacency F → ℕ
  pending visited [] = 0
  pending visited ((node_id, edges) ∷ rest) =
      (if is_visited node_id visited then 0 else length edges) + pending visited rest

  pending_mono :
      (node : String) (visited : List String) (adjacency : Adjacency F)
      → pending (node ∷ visited) adjacency ≤ pending visited adjacency
  pending_mono node visited [] = omega arith
  pending_mono node visited ((k, edges) ∷ rest) = ground (arith, pending_mono node visited rest)

  pending_entered :
      (node : String) (visited : List String) (adjacency : Adjacency F)
      → is_visited node visited ≡ false
      → length (edges_of node adjacency) + pending (node ∷ visited) adjacency
        ≤ pending visited adjacency
  pending_entered node visited [] new = unfold get_or in omega arith
  pending_entered node visited ((k, edges) ∷ rest) new = elim (Bool-cases (node == k)) [
    | inl same ↦
        let e : node ≡ k = eq_of_beq node k same in
        let unseen : is_visited k visited ≡ false =
          subst (λ n. is_visited n visited ≡ false) e new in
        let back : (k == node) ≡ true = subst (λ n. (k == n) ≡ true) (sym e) (beq_refl k) in
        let own : edges_of node ((k, edges) ∷ rest) ≡ edges =
          get_or-cons node k [] edges rest ∙ if_true _ edges _ same in
        rw own (ground (arith, pending_mono node visited rest))
    | inr other ↦
        let others : edges_of node ((k, edges) ∷ rest) ≡ edges_of node rest =
          get_or-cons node k [] edges rest ∙ if_false _ edges _ other in
        rw others (ground (arith, pending_entered node visited rest new))
  ]

  pending_nothing : (adjacency : Adjacency F) → pending [] adjacency ≡ edge_count adjacency
  unfolding edge_count
  pending_nothing [] = refl
  pending_nothing ((k, edges) ∷ rest) = omega (arith, pending_nothing rest)

module _ {F : Type 0} ⦃f : Float F⦄ (adjacency : Adjacency F) (target : String) where
  search_total :
      (fuel : ℕ) (visited : List String) (distances : Dict String F) (frontier : List (F × String))
      → length frontier + pending visited adjacency < fuel
      → (cost : F) × (search adjacency target fuel visited distances frontier ≡ ok cost)
  unfolding search
  search_total zero visited distances frontier h = absurd (omega arith)
  search_total (suc fuel) visited distances [] h = (f.infinity, refl)
  search_total (suc fuel) visited distances (x ∷ xs) h =
      let popped = pop_least x xs in
      let node = popped.0.1 in
      let shorter = length-pop_least x xs in
      elim (Bool-cases (is_visited node visited)) [
        | inl seen ↦
            let (cost, e) = search_total fuel visited distances popped.1 (omega (arith, shorter)) in
            (cost, if_true _ _ _ seen ∙ e)
        | inr new ↦ elim (Bool-cases (node == target)) [
          | inl found ↦ (popped.0.0, if_false _ _ _ new ∙ if_true _ (ok popped.0.0) _ found)
          | inr other ↦
              let (cost, e) = search_total fuel (node ∷ visited) _ _ (
                omega (
                  arith,
                  shorter,
                  pending_entered node visited adjacency new,
                  length-relax-le popped.0.0 (edges_of node adjacency) (distances, popped.1),
                )) in
              (cost, if_false _ _ _ new ∙ if_false _ (ok popped.0.0) _ other ∙ e)
        ]
      ]

  -- The loop of the search ends and returns a cost, whatever the graph and its costs are.
  pub shortest_path_cost_total :
      (source : String) → (cost : F) × (shortest_path_cost source target adjacency ≡ ok cost)
  unfolding shortest_path_cost
  shortest_path_cost_total source =
      search_total (suc (suc (edge_count adjacency))) [] ((source, of_ℕ 0) ∷ [])
        ((of_ℕ 0, source) ∷ []) (omega (arith, pending_nothing adjacency))
