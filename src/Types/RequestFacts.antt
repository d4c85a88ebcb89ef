-- ===== src/Types/RequestFacts.antt =====
-- nimbusmesh_x/types.py: which arguments make a request, and what the request then holds.
use nimbus_mesh_x.Base.{
  ℕ, ◌<◌, ◌≡◌, refl, arith, ok, err, value_error, Error, String, string_eq, eq_of_beq, ◌↔◌,
}
use nimbus_mesh_x.Base.Int.{ℤ, pos}
use nimbus_mesh_x.Float.{Float, ◌≼◌, ◌≺◌, of_ℕ}
use nimbus_mesh_x.Types.{
  SlaClass, realtime, interactive, best_effort, sla_text, normalize_sla_class, RequestArgs,
  InferenceRequest, make_request, positive, both, token_counts, derived_signature,
}

normalize_sla_class-sla_text : (c : SlaClass) → normalize_sla_class (sla_text c) ≡ ok c
unfolding normalize_sla_class sla_text
normalize_sla_class-sla_text realtime = refl
normalize_sla_class-sla_text interactive = refl
normalize_sla_class-sla_text best_effort = refl

sla_text_of_ok : (s : String) (c : SlaClass) → normalize_sla_class s ≡ ok c → s ≡ sla_text c
unfolding normalize_sla_class sla_text
sla_text_of_ok s c h =
    ground (arith, eq_of_beq s "realtime", eq_of_beq s "interactive", eq_of_beq s "best_effort")

normalize_sla_class-err : (s : String) (e : Error) → normalize_sla_class s ≡ err e → e ≡ value_error
unfolding normalize_sla_class
normalize_sla_class-err s e h = ground arith

-- Exactly the text of a class is let through as that class.
pub normalize_sla_class_iff :
    (s : String) (c : SlaClass) → (normalize_sla_class s ≡ ok c) ↔ (s ≡ sla_text c)
normalize_sla_class_iff s c = (
  sla_text_of_ok s c,
  λ e.
      mathlib.Core.Path.subst (λ t. normalize_sla_class t ≡ ok c) (mathlib.Core.Path.sym e)
        (normalize_sla_class-sla_text c),
)

token_counts-ok :
    (a b : ℤ) (c : ℕ × ℕ)
    → token_counts a b ≡ ok c
    → (a ≡ pos c.0) × (b ≡ pos c.1) × (0 < c.0) × (0 < c.1)
unfolding token_counts positive both
token_counts-ok a b c h = ground arith

token_counts_of_pos : (m n : ℕ) → 0 < m → 0 < n → token_counts (pos m) (pos n) ≡ ok (m, n)
unfolding token_counts positive both
token_counts_of_pos m n h k = ground arith

token_counts-err : (a b : ℤ) (e : Error) → token_counts a b ≡ err e → e ≡ value_error
unfolding token_counts positive both
token_counts-err a b e h = ground arith

module _ {F : Type 0} ⦃f : Float F⦄ where
  -- What the code asks of the arguments, with the class and the counts that they give.
  pub record IsAccepted (a : RequestArgs F) (sla : SlaClass) (prompt generation : ℕ) : Type 0 where
    pub class_named : a.sla_class ≡ sla_text sla
    pub prompt_given : a.prompt_tokens ≡ pos prompt
    pub generation_given : a.generation_tokens ≡ pos generation
    pub prompt_pos : 0 < prompt
    pub generation_pos : 0 < generation
    pub arrival_nonneg : of_ℕ 0 ≼ a.arrival_ts
    pub latency_pos : of_ℕ 0 ≺ a.max_latency_ms

  -- A request that is made was made of accepted arguments (a known class, positive counts, an
  -- arrival that is not negative and a positive latency limit), and holds what they say.
  pub make_request-IsAccepted :
      (digest : String → String) (a : RequestArgs F) (r : InferenceRequest F)
      → make_request digest a ≡ ok r
      → IsAccepted a r.sla_class r.prompt_tokens r.generation_tokens
        × (r.arrival_ts ≡ a.arrival_ts)
        × (r.max_latency_ms ≡ a.max_latency_ms)
        × (r.tenant_id ≡ a.tenant_id)
        × (r.model_id ≡ a.model_id)
  unfolding make_request
  make_request-IsAccepted digest a r h = ground (
    arith,
    sla_text_of_ok a.sla_class r.sla_class,
    token_counts-ok a.prompt_tokens a.generation_tokens (r.prompt_tokens, r.generation_tokens),
  )

  -- Accepted arguments make a request, with their class and their counts.
  pub make_request_of_IsAccepted :
      (digest : String → String) (a : RequestArgs F) (sla : SlaClass) (prompt generation : ℕ)
      → IsAccepted a sla prompt generation
      → (r : InferenceRequest F) × (make_request digest a ≡ ok r)
        × (r.sla_class ≡ sla)
        × (r.prompt_tokens ≡ prompt)
        × (r.generation_tokens ≡ generation)
  unfolding make_request
  make_request_of_IsAccepted digest a sla prompt generation v =
      let named : normalize_sla_class a.sla_class ≡ ok sla =
        (normalize_sla_class_iff a.sla_class sla).1 v.class_named in
      let counted : token_counts a.prompt_tokens a.generation_tokens ≡ ok (prompt, generation) =
        rw (v.prompt_given, v.generation_given)
          (token_counts_of_pos prompt generation v.prompt_pos v.generation_pos) in
      (
        record {
          request_id = a.request_id;
          tenant_id = a.tenant_id;
          model_id = a.model_id;
          prompt_tokens = prompt;
          generation_tokens = generation;
          arrival_ts = a.arrival_ts;
          sla_class = sla;
          session_id = a.session_id;
          prefix_signature =
              derived_signature digest a.tenant_id a.model_id a.session_id a.prefix_signature prompt
                generation;
          max_latency_ms = a.max_latency_ms;
          metadata = a.metadata;
        },
        ground arith,
        refl,
        refl,
        refl,
      )

  -- Whatever is refused is refused with ValueError.
  pub make_request-err :
      (digest : String → String) (a : RequestArgs F) (e : Error)
      → make_request digest a ≡ err e
      → e ≡ value_error
  unfolding make_request
  make_request-err digest a e h = ground (
    arith,
    normalize_sla_class-err a.sla_class e,
    token_counts-err a.prompt_tokens a.generation_tokens e,
  )
