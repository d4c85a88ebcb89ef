-- ===== src/Types/Cluster.antt =====
-- nimbusmesh_x/types.py, `ClusterRuntime`.
use nimbus_mesh_x.Base.{String, Bool, List, foldl, any, ◌&&◌, if◌then◌else◌}
use nimbus_mesh_x.Base.Dict.{Dict}
use nimbus_mesh_x.Float.{Float, ◌⊗◌, ◌≤?◌}
use nimbus_mesh_x.Types.Pool.{PoolRuntime}

pub record ClusterRuntime (F : Type 0) : Type 0 where
  pub cluster_id : String
  pub zone : String
  pub ingress_cost : F
  pub network_costs : Dict String F
  pub base_congestion : F
  pub failure_windows : List (F × F)
  pub congestion_windows : List (F × F × F)
  pub pools : Dict String (PoolRuntime F)

module _ {F : Type 0} ⦃f : Float F⦄ where
  -- `start <= now <= end`
  abbrev pub within : F → F → F → Bool
  within now start stop = start ≤? now && now ≤? stop

  unfoldable pub effective_congestion : F → ClusterRuntime F → F
  effective_congestion now c =
      foldl (λ congestion w. if within now w.0 w.1 then congestion ⊗ w.2 else congestion)
        c.base_congestion c.congestion_windows

  unfoldable pub unavailable : F → ClusterRuntime F → Bool
  unavailable now c = any (λ w. within now w.0 w.1) c.failure_windows
