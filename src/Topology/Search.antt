-- ===== src/Topology/Search.antt =====
-- topology_service/graph.py: `shortest_path_cost`, `pool_affinity` and `route_cost`. The heap is a list
-- from which the least pair is taken; the fuel is two more than the number of edges.
use Prim.Native.String.{compare}
use Prim.Native.Nat.{Ordering}
use nimbus_mesh_x.Base.{
  ℕ, zero, suc, ◌+◌, String, ◌==◌, string_eq, Bool, true, false, ◌&&◌, ◌||◌, if◌then◌else◌, List,
  [], ◌∷◌, any, length, Result, ok, err, key_error, out_of_fuel, or_raise, ◌>>=◌,
}
use nimbus_mesh_x.Base.Dict.{Dict, lookup, insert, get_or}
use nimbus_mesh_x.Float.{Float, ◌⊕◌, ◌⊗◌, ◌⊘◌, ◌≤?◌, ◌<?◌, decimal, of_ℕ, round, min}
use nimbus_mesh_x.Topology.Graph.{TopologyLink, Topology, Adjacency, pool_node_id, tier_score}

abbrev pub is_visited : String → List String → Bool
is_visited node_id = any (λ v. node_id == v)

-- What the loop over edges writes: `distances` and `frontier`.
abbrev pub Reach : Type 0 → Type 0
Reach F = Dict String F × List (F × String)

module _ {F : Type 0} ⦃f : Float F⦄ where
  -- `<` of the pairs (cost, node_id)
  abbrev pub earlier : F × String → F × String → Bool
  earlier x y =
      x.0 <? y.0
      || x.0 ≤? y.0 && y.0 ≤? x.0 && elim (compare x.1 y.1) [ Ordering.lt ↦ true | _ ↦ false ]

  -- `heapq.heappop`: the least pair, and the others
  unfoldable pub pop_least : F × String → List (F × String) → (F × String) × List (F × String)
  pop_least x [] = (x, [])
  pop_least x (y ∷ ys) =
      let rest = pop_least (if earlier y x then y else x) ys in
      (rest.0, (if earlier y x then x else y) ∷ rest.1)

  -- One edge of a node that is reached at `cost`.
  unfoldable pub push_edge : F → TopologyLink F → Reach F → Reach F
  push_edge cost edge (distances, frontier) =
      let new_cost = cost ⊕ edge.cost in
      if new_cost <? get_or edge.target f.infinity distances
      then (insert edge.target new_cost distances, (new_cost, edge.target) ∷ frontier)
      else (distances, frontier)

  unfoldable pub relax : F → List (TopologyLink F) → Reach F → Reach F
  relax cost [] state = state
  relax cost (edge ∷ edges) state = relax cost edges (push_edge cost edge state)

  abbrev pub edges_of : String → Adjacency F → List (TopologyLink F)
  edges_of node_id adjacency = get_or node_id [] adjacency

  -- The `while` loop.
  unfoldable pub search :
      Adjacency F → String → ℕ → List String → Dict String F → List (F × String) → Result F
  search adjacency target zero visited distances frontier = err out_of_fuel
  search adjacency target (suc fuel) visited distances [] = ok f.infinity
  search adjacency target (suc fuel) visited distances (x ∷ xs) =
      let popped = pop_least x xs in
      let cost = popped.0.0 in
      let node_id = popped.0.1 in
      let relaxed = relax cost (edges_of node_id adjacency) (distances, popped.1) in
      let skipped = search adjacency target fuel visited distances popped.1 in
      let entered = search adjacency target fuel (node_id ∷ visited) relaxed.0 relaxed.1 in
      if is_visited node_id visited then skipped else if node_id == target then ok cost else entered

  unfoldable pub edge_count : Adjacency F → ℕ
  edge_count [] = 0
  edge_count ((node_id, edges) ∷ rest) = length edges + edge_count rest

  unfoldable pub shortest_path_cost : String → String → Adjacency F → Result F
  shortest_path_cost source target adjacency =
      search adjacency target (suc (suc (edge_count adjacency))) [] ((source, of_ℕ 0) ∷ [])
        ((of_ℕ 0, source) ∷ [])

  unfoldable pub pool_affinity : String → String → ℕ → Topology F → Result F
  pool_affinity cluster_id pool_id prompt_tokens t = do
    node ← or_raise (lookup (pool_node_id cluster_id pool_id) t.nodes) key_error
    metadata ← or_raise node.metadata key_error
    let score = tier_score metadata.topology_tier
    let long_context_factor = min (decimal 10 1) (of_ℕ prompt_tokens ⊘ decimal 81920 1)
    let probe_affinity = get_or cluster_id score t.cluster_probe_affinity
    let blended = score ⊗ decimal 8 1 ⊕ probe_affinity ⊗ decimal 2 1
    ok (round (blended ⊗ (decimal 65 2 ⊕ decimal 35 2 ⊗ long_context_factor)) 4)

  unfoldable pub route_cost : String → String → Topology F → Result F
  route_cost cluster_id pool_id t = do
    gateway_id ← or_raise (lookup cluster_id t.cluster_gateways) key_error
    base_cost ← shortest_path_cost gateway_id (pool_node_id cluster_id pool_id) t.adjacency
    ok (round (base_cost ⊗ get_or cluster_id (decimal 10 1) t.cluster_probe_cost_factor) 4)
