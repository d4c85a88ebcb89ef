-- ===== src/Types/Request.antt =====
-- nimbusmesh_x/types.py, `InferenceRequest`. `RequestArgs` holds the constructor's arguments, and
-- `make_request` is the constructor with its `__post_init__`. BLAKE2 is not computed: `digest` stands
-- for the hexadecimal digest of a text.
use Prim.Native.String.{◌++◌}
use nimbus_mesh_x.Base.{
  ℕ, zero, suc, ◌+◌, ◌/◌, String, not, Result, ok, err, value_error, ◌>>=◌, ◌>>◌, guard, ◌==◌,
  string_eq, if◌then◌else◌, Option, none, some,
}
use nimbus_mesh_x.Base.Int.{ℤ, pos, negsuc}
use nimbus_mesh_x.Base.Dict.{Dict}
use nimbus_mesh_x.Base.Text.{show}
use nimbus_mesh_x.Float.{Float, ◌≤?◌, ◌<?◌, of_ℕ}
use nimbus_mesh_x.Types.Tables.{SlaClass, normalize_sla_class}

pub record InferenceRequest (F : Type 0) : Type 0 where
  pub request_id : String
  pub tenant_id : String
  pub model_id : String
  pub prompt_tokens : ℕ
  pub generation_tokens : ℕ
  pub arrival_ts : F
  pub sla_class : SlaClass
  pub session_id : Option String
  pub prefix_signature : String
  pub max_latency_ms : F
  pub metadata : Dict String String

pub record RequestArgs (F : Type 0) : Type 0 where
  pub request_id : String
  pub tenant_id : String
  pub model_id : String
  pub prompt_tokens : ℤ
  pub generation_tokens : ℤ
  pub arrival_ts : F
  pub sla_class : String
  pub session_id : Option String
  pub prefix_signature : Option String
  pub max_latency_ms : F
  pub metadata : Dict String String

-- `session_id or 'anon'`: the empty text is false too
unfoldable pub session_or_anon : Option String → String
session_or_anon none = "anon"
session_or_anon (some s) = if s == "" then "anon" else s

-- The text between `f"` and `"` is joined from the right.
unfoldable pub stable_prefix_signature :
    (String → String) → String → String → Option String → String → String
unfolding session_or_anon
stable_prefix_signature digest tenant_id model_id session_id salt =
    digest (tenant_id ++ ":" ++ model_id ++ ":" ++ session_or_anon session_id ++ ":" ++ salt)

-- `none` where the count is not positive
unfoldable pub positive : ℤ → Option ℕ
positive (pos zero) = none
positive (pos (suc n)) = some (suc n)
positive (negsuc n) = none

unfoldable pub both : {A B : Type 0} → Option A → Option B → Option (A × B)
both (some a) (some b) = some (a, b)
both _ _ = none

-- `if prompt_tokens <= 0 or generation_tokens <= 0: raise`
unfoldable pub token_counts : ℤ → ℤ → Result (ℕ × ℕ)
unfolding positive both
token_counts prompt generation = elim (both (positive prompt) (positive generation)) [
  | some counts ↦ ok counts
  | none ↦ err value_error
]

unfoldable pub derived_signature :
    (String → String) → String → String → Option String → Option String → ℕ → ℕ → String
unfolding stable_prefix_signature show
derived_signature digest tenant_id model_id session_id (some given) prompt generation = given
derived_signature digest tenant_id model_id session_id none prompt generation =
    stable_prefix_signature digest tenant_id model_id session_id
      (show (prompt / 128) ++ ":" ++ show (generation / 64))

module _ {F : Type 0} ⦃f : Float F⦄ where
  unfoldable pub make_request : (String → String) → RequestArgs F → Result (InferenceRequest F)
  make_request digest a = do
    sla ← normalize_sla_class a.sla_class
    counts ← token_counts a.prompt_tokens a.generation_tokens
    guard (not (a.arrival_ts <? of_ℕ 0)) value_error
    guard (not (a.max_latency_ms ≤? of_ℕ 0)) value_error
    ok (record {
      request_id = a.request_id;
      tenant_id = a.tenant_id;
      model_id = a.model_id;
      prompt_tokens = counts.0;
      generation_tokens = counts.1;
      arrival_ts = a.arrival_ts;
      sla_class = sla;
      session_id = a.session_id;
      prefix_signature =
          derived_signature digest a.tenant_id a.model_id a.session_id a.prefix_signature counts.0
            counts.1;
      max_latency_ms = a.max_latency_ms;
      metadata = a.metadata;
    })

  unfoldable pub total_tokens : InferenceRequest F → ℕ
  total_tokens r = r.prompt_tokens + r.generation_tokens
