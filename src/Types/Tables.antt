-- ===== src/Types/Tables.antt =====
-- nimbusmesh_x/types.py, the tables and what is read off them. A service class is a data type: the
-- code lets no other text through than the three keys of SLA_PRIORITY.
use nimbus_mesh_x.Base.{
  ℕ, ◌+◌, ◌-◌, String, Result, ok, err, value_error, ◌==◌, string_eq, if◌then◌else◌, [], ◌∷◌,
}
use nimbus_mesh_x.Base.Dict.{Dict, get_or}
use nimbus_mesh_x.Float.{Float, ◌⊗◌, ◌⊘◌, decimal, of_ℕ}
use Prim.Native.Nat.{max}

pub data SlaClass : Type 0 where
  realtime interactive best_effort : SlaClass

-- SLA_PRIORITY
unfoldable pub sla_priority : SlaClass → ℕ
sla_priority realtime = 3
sla_priority interactive = 2
sla_priority best_effort = 1

unfoldable pub sla_text : SlaClass → String
sla_text realtime = "realtime"
sla_text interactive = "interactive"
sla_text best_effort = "best_effort"

unfoldable pub normalize_sla_class : String → Result SlaClass
normalize_sla_class sla_class =
    if sla_class == "realtime"
    then ok realtime
    else if sla_class == "interactive"
    then ok interactive
    else if sla_class == "best_effort"
    then ok best_effort
    else err value_error

module _ {F : Type 0} ⦃f : Float F⦄ where
  -- TOPOLOGY_TIER_SCORE
  abbrev pub topology_tier_score : Dict String F
  topology_tier_score =
      ("nvlink-mesh", decimal 10 1)
      ∷ ("nvlink-ring", decimal 92 2)
      ∷ ("pcie-fabric", decimal 72 2)
      ∷ ("ethernet", decimal 55 2)
      ∷ ("cpu-fallback", decimal 2 1)
      ∷ []

  -- MODEL_SCALE_HINTS
  abbrev pub model_scale_hints : Dict String F
  model_scale_hints =
      ("llama-3-70b", decimal 135 2)
      ∷ ("mixtral-8x7b", decimal 12 1)
      ∷ ("mistral-7b", decimal 75 2)
      ∷ ("llama-3-8b", decimal 6 1)
      ∷ ("deepseek-v2-lite", decimal 95 2)
      ∷ ("maia-sim", decimal 8 1)
      ∷ []

  unfoldable pub model_scale : String → F
  unfolding get_or
  model_scale model_id = get_or model_id (decimal 10 1) model_scale_hints

  -- `max(1, prompt + generation - saved)`: where the difference is negative, ℕ's is 0, and the
  -- maximum is 1 both ways.
  unfoldable pub estimate_request_memory_gb : ℕ → ℕ → String → ℕ → F
  unfolding model_scale
  estimate_request_memory_gb prompt_tokens generation_tokens model_id cache_saved_tokens =
      let effective_tokens = max 1 (prompt_tokens + generation_tokens - cache_saved_tokens) in
      of_ℕ effective_tokens ⊘ decimal 20480 1 ⊗ decimal 115 2 ⊗ model_scale model_id
