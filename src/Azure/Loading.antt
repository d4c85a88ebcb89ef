-- ===== src/Azure/Loading.antt =====
-- azure_sim/environment.py: `AzureInfraSimulator._load`, from the value that `yaml.safe_load` returns, and
-- the state that `__init__` leaves.
use nimbus_mesh_x.Base.{
  String, string_eq, Bool, ◌&&◌, if◌then◌else◌, List, [], ◌∷◌, Result, ok, ◌>>=◌, traverse,
}
use nimbus_mesh_x.Base.Int.{ℤ}
use nimbus_mesh_x.Base.Dict.{Dict, get_or, insert}
use nimbus_mesh_x.Float.{Float}
use nimbus_mesh_x.Json.{
  Value, array, no_values, Formats, methods, subscript, iterate, text_of, to_float, to_int,
}
use nimbus_mesh_x.Azure.{AzureSimulator}

pub record AzureNodePool (F : Type 0) : Type 0 where
  pub name : String
  pub gpu_type : String
  pub memory_gb : F
  pub network_bandwidth_gbps : F
  pub cost_per_hour : F
  pub node_count : ℤ

pub record AzureAksCluster (F : Type 0) : Type 0 where
  pub name : String
  pub region : String
  pub zone : String
  pub node_pools : List (AzureNodePool F)

abbrev pub ResourceGroups : Type 0 → Type 0
ResourceGroups F = Dict String (List (AzureAksCluster F))

module _ {F : Type 0} ⦃f : Float F⦄ (formats : Formats F) where
  unfoldable pub load_node_pool : Value F → Result (AzureNodePool F)
  load_node_pool item = do
    name ← subscript item "name" >>= text_of
    gpu_type ← subscript item "gpu_type" >>= text_of
    memory_gb ← subscript item "memory_gb" >>= to_float formats
    network_bandwidth_gbps ← subscript item "network_bandwidth_gbps" >>= to_float formats
    cost_per_hour ← subscript item "cost_per_hour" >>= to_float formats
    node_count ← subscript item "node_count" >>= to_int formats
    ok (record {
      name = name;
      gpu_type = gpu_type;
      memory_gb = memory_gb;
      network_bandwidth_gbps = network_bandwidth_gbps;
      cost_per_hour = cost_per_hour;
      node_count = node_count;
    })

  unfoldable pub load_cluster : Value F → Value F → Result (AzureAksCluster F)
  load_cluster group cluster = do
    d ← methods cluster
    items ← iterate (get_or "node_pools" (array no_values) d)
    node_pools ← traverse load_node_pool items
    name ← subscript cluster "name" >>= text_of
    region ← subscript group "region" >>= text_of
    zone ← subscript cluster "zone" >>= text_of
    ok (record { name = name; region = region; zone = zone; node_pools = node_pools })

  -- The loop over the groups: a name that comes again replaces what it had.
  unfoldable pub load_groups : List (Value F) → ResourceGroups F → Result (ResourceGroups F)
  load_groups [] loaded = ok loaded
  load_groups (group ∷ groups) loaded = do
    d ← methods group
    cluster_values ← iterate (get_or "aks_clusters" (array no_values) d)
    clusters ← traverse (load_cluster group) cluster_values
    name ← subscript group "name" >>= text_of
    load_groups groups (insert name clusters loaded)

  unfoldable pub load : Value F → Result (ResourceGroups F)
  load payload = do
    d ← methods payload
    groups ← iterate (get_or "resource_groups" (array no_values) d)
    load_groups groups []

  -- `__init__`, with the document of the file: the logs are emptied.
  unfoldable pub open_simulator :
      (has_yaml path_exists has_queue : Bool)
      → Value F
      → Result (ResourceGroups F × AzureSimulator F)
  open_simulator has_yaml path_exists has_queue payload =
      let simulator : AzureSimulator F = record {
        available = has_yaml && path_exists;
        ray_queue_enabled = has_queue;
        submitted = 0;
        completed = 0;
        cluster_costs = [];
        batch_log = [];
        monitor_log = [];
        cost_log = [];
      } in
      if has_yaml && path_exists
      then (load payload >>= λ groups. ok (groups, simulator))
      else ok ([], simulator)
