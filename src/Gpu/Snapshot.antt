-- ===== src/Gpu/Snapshot.antt =====
-- topology/gpu_topology_parser.py: the tables, `from_text` after its loop over the lines,
-- `overall_affinity` and `average_cost`.
use nimbus_mesh_x.Base.{
  String, ◌==◌, string_eq, if◌then◌else◌, List, [], ◌∷◌, ◌++◌, map, filter, length, is_nonempty,
  Result, ok, key_error, or_raise, ◌>>=◌, traverse,
}
use nimbus_mesh_x.Base.Dict.{Dict, lookup, get_or}
use nimbus_mesh_x.Float.{Float, ◌⊕◌, ◌⊖◌, ◌⊘◌, ◌<?◌, decimal, of_ℕ, round, sum, max}

-- The field `relations` is only shown, and left out.
pub record GpuTopologySnapshot (F : Type 0) : Type 0 where
  pub devices : List String
  pub adjacency_matrix : List (List F)
  pub latency_weights : List (List F)
  pub bandwidth_tiers : List (List F)

-- What is computed of one pair of devices: the cost, the latency weight and the bandwidth.
pub record Link (F : Type 0) : Type 0 where
  pub cost : F
  pub latency : F
  pub bandwidth : F

module _ {F : Type 0} ⦃f : Float F⦄ where
  -- BANDWIDTH_TIERS
  abbrev pub bandwidth_tiers_table : Dict String F
  bandwidth_tiers_table =
      ("X", decimal 0 1)
      ∷ ("NV1", decimal 10 1)
      ∷ ("NV2", decimal 12 1)
      ∷ ("NV4", decimal 14 1)
      ∷ ("NV8", decimal 18 1)
      ∷ ("NV12", decimal 20 1)
      ∷ ("NV16", decimal 22 1)
      ∷ ("NV18", decimal 23 1)
      ∷ ("NVSW", decimal 25 1)
      ∷ ("PIX", decimal 65 2)
      ∷ ("PXB", decimal 45 2)
      ∷ ("PHB", decimal 35 2)
      ∷ ("NODE", decimal 28 2)
      ∷ ("SYS", decimal 18 2)
      ∷ ("SOC", decimal 12 2)
      ∷ []

  -- LATENCY_WEIGHTS
  abbrev pub latency_weights_table : Dict String F
  latency_weights_table =
      ("X", decimal 0 1)
      ∷ ("NV1", decimal 15 2)
      ∷ ("NV2", decimal 12 2)
      ∷ ("NV4", decimal 1 1)
      ∷ ("NV8", decimal 8 2)
      ∷ ("NV12", decimal 7 2)
      ∷ ("NV16", decimal 6 2)
      ∷ ("NV18", decimal 5 2)
      ∷ ("NVSW", decimal 4 2)
      ∷ ("PIX", decimal 4 1)
      ∷ ("PXB", decimal 55 2)
      ∷ ("PHB", decimal 72 2)
      ∷ ("NODE", decimal 88 2)
      ∷ ("SYS", decimal 10 1)
      ∷ ("SOC", decimal 11 1)
      ∷ []

  unfoldable pub link_of : String → Link F
  unfolding get_or max
  link_of relation =
      let bw = get_or relation (decimal 1 1) bandwidth_tiers_table in
      let lat = get_or relation (decimal 12 1) latency_weights_table in
      let cost =
        if relation == "X" then decimal 0 1 else max (decimal 1 2) (decimal 12 1 ⊖ bw ⊕ lat) in
      record { cost = round cost 4; latency = lat; bandwidth = bw }

  -- `relations[source][target]` for each target
  unfoldable pub row_of :
      Dict String (Dict String String) → List String → String → Result (List (Link F))
  row_of relations targets source = or_raise (lookup source relations) key_error >>= λ edges.
      traverse
        (λ target. or_raise (lookup target edges) key_error >>= λ relation. ok (link_of relation))
        targets

  unfoldable pub snapshot_of :
      List String → Dict String (Dict String String) → Result (GpuTopologySnapshot F)
  snapshot_of gpu_devices relations =
      traverse (row_of relations gpu_devices) gpu_devices >>= λ rows. ok (record {
        devices = gpu_devices;
        adjacency_matrix = map (map (λ l. l.cost)) rows;
        latency_weights = map (map (λ l. l.latency)) rows;
        bandwidth_tiers = map (map (λ l. l.bandwidth)) rows;
      })

  -- the values above 0 of a matrix, row by row
  unfoldable pub positives : List (List F) → List F
  positives [] = []
  positives (row ∷ rows) = filter (λ value. decimal 0 1 <? value) row ++ positives rows

  -- `max(BANDWIDTH_TIERS.values())` is 2.5.
  unfoldable pub overall_affinity : GpuTopologySnapshot F → F
  overall_affinity s =
      let values = positives s.bandwidth_tiers in
      if is_nonempty values
      then round (sum values ⊘ of_ℕ (length values) ⊘ decimal 25 1) 4
      else decimal 0 1

  unfoldable pub average_cost : GpuTopologySnapshot F → F
  average_cost s =
      let values = positives s.adjacency_matrix in
      if is_nonempty values then round (sum values ⊘ of_ℕ (length values)) 4 else decimal 10 1
