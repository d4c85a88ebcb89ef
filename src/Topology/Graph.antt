-- ===== src/Topology/Graph.antt =====
-- topology_service/graph.py: the graph, and how it is built from the configuration. `read_snapshot`
-- stands for GpuTopologySnapshot.from_file.
use Prim.Native.String.{◌++◌ as ◌<>◌}
use nimbus_mesh_x.Base.{
  ℕ, String, ◌==◌, string_eq, if◌then◌else◌, List, [], ◌∷◌, ◌++◌, Option, some, none, Result, ok,
  key_error, or_raise, ◌>>=◌,
}
use nimbus_mesh_x.Base.Dict.{Dict, lookup, insert, get_or}
use nimbus_mesh_x.Float.{Float, ◌⊕◌, ◌⊖◌, ◌⊗◌, ◌⊘◌, decimal, max}
use nimbus_mesh_x.Types.{topology_tier_score}
use nimbus_mesh_x.Config.{PoolSpec, ClusterSpec}
use nimbus_mesh_x.Gpu.{GpuTopologySnapshot, overall_affinity, average_cost}

pub record TopologyLink (F : Type 0) : Type 0 where
  pub source : String
  pub target : String
  pub bandwidth_gbps : F
  pub latency_us : F
  pub cost : F

-- `metadata` of a node: a gateway has none.
pub record NodeMetadata : Type 0 where
  pub accelerator_type : String
  pub topology_tier : String
  pub gpu_count : ℕ

pub record TopologyNode : Type 0 where
  pub node_id : String
  pub kind : String
  pub cluster_id : String
  pub zone : String
  pub metadata : Option NodeMetadata

abbrev pub Adjacency : Type 0 → Type 0
Adjacency F = Dict String (List (TopologyLink F))

pub record Topology (F : Type 0) : Type 0 where
  pub nodes : Dict String TopologyNode
  pub adjacency : Adjacency F
  pub cluster_gateways : Dict String String
  pub cluster_probe_affinity : Dict String F
  pub cluster_probe_cost_factor : Dict String F

abbrev pub gateway_node_id : String → String
gateway_node_id cluster_id = "gateway:" <> cluster_id

unfoldable pub pool_node_id : String → String → String
pool_node_id cluster_id pool_id = "pool:" <> cluster_id <> ":" <> pool_id

module _ {F : Type 0} ⦃f : Float F⦄ where
  -- `TopologyService()` before the graph is built
  abbrev pub empty_topology : Topology F
  empty_topology = record {
    nodes = [];
    adjacency = [];
    cluster_gateways = [];
    cluster_probe_affinity = [];
    cluster_probe_cost_factor = [];
  }

  unfoldable pub add_edge : String → String → (bandwidth latency cost : F) → Topology F → Topology F
  add_edge source target bandwidth latency cost t =
      let link : TopologyLink F = record {
        source = source;
        target = target;
        bandwidth_gbps = bandwidth;
        latency_us = latency;
        cost = cost;
      } in
      record t { adjacency = insert source (get_or source [] t.adjacency ++ link ∷ []) t.adjacency }

  unfoldable pub tier_score : String → F
  unfolding get_or
  tier_score tier = get_or tier (decimal 6 1) topology_tier_score

  unfoldable pub add_pool : ClusterSpec F → PoolSpec F → Topology F → Topology F
  add_pool cluster pool t =
      let gateway = gateway_node_id cluster.cluster_id in
      let node = pool_node_id cluster.cluster_id pool.pool_id in
      let score = tier_score pool.topology_tier in
      let internal_cost = max (decimal 5 2) (decimal 12 1 ⊖ score) in
      let bandwidth = decimal 8000 1 ⊗ score in
      let latency = decimal 80 1 ⊕ (decimal 10 1 ⊖ score) ⊗ decimal 350 1 in
      let entry : TopologyNode = record {
        node_id = node;
        kind = "pool";
        cluster_id = cluster.cluster_id;
        zone = cluster.zone;
        metadata = some (record {
          accelerator_type = pool.accelerator_type;
          topology_tier = pool.topology_tier;
          gpu_count = pool.gpu_count;
        });
      } in
      add_edge node gateway bandwidth latency internal_cost (
        add_edge gateway node bandwidth latency internal_cost
          (record t { nodes = insert node entry t.nodes }))

  unfoldable pub add_pools : ClusterSpec F → List (PoolSpec F) → Topology F → Topology F
  add_pools cluster [] t = t
  add_pools cluster (pool ∷ pools) t = add_pools cluster pools (add_pool cluster pool t)

  unfoldable pub add_gateway : ClusterSpec F → Topology F → Topology F
  add_gateway cluster t =
      let gateway = gateway_node_id cluster.cluster_id in
      let entry : TopologyNode = record {
        node_id = gateway;
        kind = "gateway";
        cluster_id = cluster.cluster_id;
        zone = cluster.zone;
        metadata = none;
      } in
      record t {
        cluster_gateways = insert cluster.cluster_id gateway t.cluster_gateways;
        nodes = insert gateway entry t.nodes;
      }

  abbrev pub probed : ClusterSpec F → GpuTopologySnapshot F → Topology F → Topology F
  probed cluster parsed t = record t {
    cluster_probe_affinity =
        insert cluster.cluster_id (overall_affinity parsed) t.cluster_probe_affinity;
    cluster_probe_cost_factor =
        insert cluster.cluster_id (average_cost parsed) t.cluster_probe_cost_factor;
  }

  module _ (read_snapshot : String → Result (GpuTopologySnapshot F)) where
    -- `if cluster.gpu_topology_file:` the empty name is false too
    unfoldable pub add_probe : ClusterSpec F → Topology F → Result (Topology F)
    add_probe cluster t = elim cluster.gpu_topology_file [
      | none ↦ ok t
      | some name ↦
          if name == ""
          then ok t
          else (read_snapshot name >>= λ parsed. ok (probed cluster parsed t))
    ]

    -- the first loop of `_build_from_config`
    unfoldable pub add_clusters : List (ClusterSpec F) → Topology F → Result (Topology F)
    add_clusters [] t = ok t
    add_clusters (cluster ∷ clusters) t =
        add_probe cluster (add_pools cluster cluster.pools (add_gateway cluster t)) >>= λ probed.
        add_clusters clusters probed

  abbrev pub route_edge : String → F → String → Topology F → Topology F
  route_edge source_gateway cost target_gateway t =
      add_edge source_gateway target_gateway (decimal 4000 1 ⊘ max cost (decimal 5 1))
        (decimal 250 1 ⊗ cost) cost t

  -- the edges of one cluster to the others
  unfoldable pub add_routes : String → Dict String F → Topology F → Topology F
  add_routes source_gateway [] t = t
  add_routes source_gateway ((target_cluster_id, cost) ∷ costs) t =
      let next =
        if target_cluster_id == "ingress"
        then t
        else elim (lookup target_cluster_id t.cluster_gateways) [
          | some target_gateway ↦ route_edge source_gateway cost target_gateway t
          | none ↦ t
        ] in
      add_routes source_gateway costs next

  -- the second loop
  unfoldable pub add_network : List (ClusterSpec F) → Topology F → Result (Topology F)
  add_network [] t = ok t
  add_network (cluster ∷ clusters) t =
      or_raise (lookup cluster.cluster_id t.cluster_gateways) key_error >>= λ source_gateway.
      add_network clusters (add_routes source_gateway cluster.network_costs t)

  unfoldable pub build_topology :
      (String → Result (GpuTopologySnapshot F)) → List (ClusterSpec F) → Result (Topology F)
  build_topology read_snapshot clusters =
      add_clusters read_snapshot clusters empty_topology >>= λ t. add_network clusters t
