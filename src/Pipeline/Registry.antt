-- ===== src/Pipeline/Registry.antt =====
-- data_pipeline/normalizers.py: the five normalizers as they are called, and NORMALIZER_REGISTRY.
use nimbus_mesh_x.Base.{ℕ, String, List, [], ◌∷◌, Option, Result, ok, ◌>>=◌}
use nimbus_mesh_x.Base.Int.{ℤ}
use nimbus_mesh_x.Base.Dict.{Dict}
use nimbus_mesh_x.Float.{Float}
use nimbus_mesh_x.Json.{Value, Formats}
use nimbus_mesh_x.Pipeline.Rows.{NormalizedWorkloadRow}
use nimbus_mesh_x.Pipeline.Normalizers.{collect, records_of, alibaba_row, generic_row}
use nimbus_mesh_x.Pipeline.Conversations.{sharegpt_row, lmsys_row, instruction_row}

-- What a normalizer reads: the rows of a CSV file, or the document of a JSON file.
pub data Dataset (F : Type 0) : Type 0 where
  csv : List (Value F) → Dataset F
  json : Value F → Dataset F

pub data Normalizer : Type 0 where
  alibaba_cluster_trace sharegpt_dataset lmsys_dataset instruction_dataset : Normalizer
  generic_workload_csv : Normalizer

-- NORMALIZER_REGISTRY
abbrev pub normalizer_registry : Dict String Normalizer
normalizer_registry =
    ("alibaba", alibaba_cluster_trace)
    ∷ ("sharegpt", sharegpt_dataset)
    ∷ ("lmsys", lmsys_dataset)
    ∷ ("openorca", instruction_dataset)
    ∷ ("ultrachat", instruction_dataset)
    ∷ ("dolly", instruction_dataset)
    ∷ ("mlperf", generic_workload_csv)
    ∷ ("azure_retail", generic_workload_csv)
    ∷ ("generic_csv", generic_workload_csv)
    ∷ []

module _ {F : Type 0} ⦃f : Float F⦄ where
  -- The records of a file, in the order in which the loop meets them.
  unfoldable pub records_in : Dataset F → Result (List (Value F))
  records_in (csv rows) = ok rows
  records_in (json payload) = records_of payload

  module _ (formats : Formats F) (hash : Value F → Result ℤ) where
    -- The body of the normalizer's loop.
    unfoldable pub normalizer_row :
        Normalizer → String → ℕ → Value F → Result (Option (NormalizedWorkloadRow F))
    normalizer_row alibaba_cluster_trace = alibaba_row formats
    normalizer_row sharegpt_dataset = sharegpt_row formats hash
    normalizer_row lmsys_dataset = lmsys_row formats
    normalizer_row instruction_dataset = instruction_row formats
    normalizer_row generic_workload_csv = generic_row formats

    unfoldable pub normalize :
        Normalizer → Dataset F → Option ℕ → String → Result (List (NormalizedWorkloadRow F))
    normalize normalizer dataset limit default_model = records_in dataset >>= λ records.
        collect (normalizer_row normalizer default_model) limit 0 0 records
