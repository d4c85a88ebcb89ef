-- ===== src/Tests/Served.antt =====
-- An execution and a run without a Redis server.
use nimbus_mesh_x.Base.{
  ◌≡◌, ◌+◌, refl, arith, string_eq, [], ◌∷◌, length, false, true, is_ok, value_of, ok,
}
use nimbus_mesh_x.Base.Int.{ℤ}
use nimbus_mesh_x.Float.{of_ℕ}
use nimbus_mesh_x.Float.Fixed.{fixed_float}
use nimbus_mesh_x.Base.Dict.{lookup, get_or, insert}
use nimbus_mesh_x.Float.{max}
use nimbus_mesh_x.Types.{RequestResult}
use nimbus_mesh_x.Backends.{find_backend, mock}
use nimbus_mesh_x.Topology.{
  add_probe, add_clusters, add_gateway, add_pools, add_pool, add_edge, tier_score, add_routes,
  add_network, build_topology, pool_node_id,
}
use nimbus_mesh_x.Cache.{total_entries}
use nimbus_mesh_x.ControlPlane.{ControlPlane, execute, make_control_plane, build_policy}
use nimbus_mesh_x.ControlPlane.Made.{IsStaffed, make_control_plane-IsReady}
use nimbus_mesh_x.Cache.{Directory}
use nimbus_mesh_x.Cache.Total.{HasRoom}
use nimbus_mesh_x.ControlPlane.Ready.{IsReady}
use nimbus_mesh_x.ControlPlane.Served.{execute_total}
use nimbus_mesh_x.Engine.{EngineState, run_requests}
use nimbus_mesh_x.Engine.Served.{run_requests_total}
use nimbus_mesh_x.Tests.Data.{
  request, redis, directory, plane, alone, config, cluster_spec, no_snapshot,
}
use nimbus_mesh_x.Tests.Plane.{served}
use nimbus_mesh_x.Tests.Runs.{engine}

abbrev offline : ControlPlane ℤ
offline = record plane {
  directory = record directory { redis_store = record redis { enabled = false } };
}

offline-IsReady : IsReady 2 offline.topology offline.clusters offline.directory
unfolding total_entries
offline-IsReady = record {
  distinct = (tt, tt);
  ready = ((refl, (tt, tt), ((refl, served), tt)), tt);
  some_pool = refl;
  has_room = record { room = omega arith; offline = refl; divides = refl };
}

execute_total_example :
    (r : RequestResult ℤ × ControlPlane ℤ) × (execute alone request (of_ℕ 5) offline ≡ ok r)
    × IsReady 1 r.1.topology r.1.clusters r.1.directory
execute_total_example = execute_total request (of_ℕ 5) 1 offline offline-IsReady

abbrev offline_engine : EngineState ℤ
offline_engine = record engine { control_plane = offline }

run_requests_total_example :
    (after : EngineState ℤ) × (run_requests alone (request ∷ request ∷ []) offline_engine
      ≡ ok after)
    × (length after.metrics.results ≡ length offline_engine.metrics.results + 2)
run_requests_total_example =
    run_requests_total (request ∷ request ∷ []) offline_engine offline-IsReady

abbrev local_directory : Directory ℤ
local_directory = offline.directory

local_directory-HasRoom : HasRoom 50 local_directory
unfolding total_entries
local_directory-HasRoom = record { room = omega arith; offline = refl; divides = refl }

made_ok : is_ok (make_control_plane no_snapshot local_directory config) ≡ true
unfolding make_control_plane build_policy lookup get_or insert max add_probe add_clusters
    add_gateway add_pools add_pool add_edge tier_score add_routes add_network build_topology
    pool_node_id
made_ok = refl

abbrev made : ControlPlane ℤ
made = (value_of (make_control_plane no_snapshot local_directory config) made_ok).0

cluster_spec-IsStaffed : IsStaffed cluster_spec
unfolding find_backend
cluster_spec-IsStaffed = (refl, ((omega arith, (mock, refl)), tt))

make_control_plane-IsReady_example : IsReady 50 made.topology made.clusters made.directory
make_control_plane-IsReady_example =
    make_control_plane-IsReady no_snapshot local_directory config made 50 refl
      (cluster_spec-IsStaffed, tt) local_directory-HasRoom
      (value_of (make_control_plane no_snapshot local_directory config) made_ok).1
