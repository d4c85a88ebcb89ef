-- ===== src/Pipeline/Replayed.antt =====
-- data_pipeline/utils.py and workload_gen/generator.py: normalized rows that are written and replayed as
-- a trace, which the configuration may cut.
use native.Mathlib.Nat.{max-eq_right}
use nimbus_mesh_x.Base.{
  zero, suc, take, take_all, length, All-take, Option, none, nat_beq, ltb, ◌&&◌, Bool-cases, Result,
  if◌then◌else◌, ◌>>=◌, ℕ, ◌≤◌, ◌^◌, ◌≡◌, refl, sym, ap, ◌∙◌, arith, inl, inr, String, string_eq,
  ◌==◌, false, if_false, List, [], ◌∷◌, All, some, ok, >>=-eq_of_ok, subst,
}
use nimbus_mesh_x.Base.Int.{pos}
use nimbus_mesh_x.Base.Dict.{get_or, lookup}
use nimbus_mesh_x.Float.{Float, negate, ◌≼◌, ◌≺◌, decimal, of_ℕ, round}
use nimbus_mesh_x.Float.Laws.{IsFloat, nonneg_of_ℕ, decimal_nonneg, le-max, round_nonneg}
use nimbus_mesh_x.Json.{truncate}
use nimbus_mesh_x.Config.{WorkloadConfig}
use nimbus_mesh_x.Types.{
  SlaClass, realtime, interactive, best_effort, sla_text, InferenceRequest, RequestArgs,
  make_request, stable_prefix_signature,
}
use nimbus_mesh_x.Types.RequestFacts.{IsAccepted, make_request_of_IsAccepted}
use nimbus_mesh_x.Workload.{
  Random, GeneratorState, latency_limits, token_salt, text_or, column_or, known_class, at_least_one,
  trace_arrival, trace_session, trace_request, trace_requests, TraceRow, first_timestamp,
  limited_rows, generate_from_trace, generate_requests, drawn_requests,
}
use nimbus_mesh_x.Pipeline.{NormalizedWorkloadRow, written, write_normalized_rows}
use nimbus_mesh_x.Pipeline.Normalized.{IsClass, IsNormalized}

class_of : (p : String) → IsClass p → (c : SlaClass) × (p ≡ sla_text c)
unfolding sla_text
class_of p (inl e) = (realtime, e)
class_of p (inr (inl e)) = (interactive, e)
class_of p (inr (inr e)) = (best_effort, e)

known_class-sla_text : (c : SlaClass) → known_class (sla_text c) ≡ sla_text c
unfolding known_class sla_text
known_class-sla_text realtime = refl
known_class-sla_text interactive = refl
known_class-sla_text best_effort = refl

text_or-sla_text : (c : SlaClass) (d : String) → text_or (sla_text c) d ≡ sla_text c
unfolding text_or sla_text
text_or-sla_text realtime d = refl
text_or-sla_text interactive d = refl
text_or-sla_text best_effort d = refl

-- A row that can be replayed: it is normalized, names a session, and its lengths are exact as floats.
pub record IsReplayable {F : Type 0} (row : NormalizedWorkloadRow F) : Type 0 where
  pub normalized : IsNormalized row
  pub named : (row.session_id == "") ≡ false
  pub prompt_exact : row.prompt_length ≤ 2 ^ 53
  pub output_exact : row.expected_output_length ≤ 2 ^ 53

module _ {F : Type 0} ⦃f : Float F⦄ (laws : IsFloat F) where
  truncate-of_ℕ : (n : ℕ) → n ≤ 2 ^ 53 → truncate {F = F} (of_ℕ n) ≡ ok (pos n)
  unfolding truncate
  truncate-of_ℕ n k = ground (
    arith,
    nonneg_of_ℕ laws n,
    laws.finite_of_ℕ n k,
    laws.negative_infinity,
    laws.le_trans (of_ℕ 0) (of_ℕ n) (negate f.infinity),
    laws.trunc_of_ℕ n k,
  )

  at_least_one-of_ℕ : (n : ℕ) → 1 ≤ n → n ≤ 2 ^ 53 → at_least_one {F = F} (of_ℕ n) ≡ ok n
  unfolding at_least_one
  at_least_one-of_ℕ n h k =
      >>=-eq_of_ok (truncate {F = F} (of_ℕ n)) _ (truncate-of_ℕ n k) ∙ ap ok (max-eq_right h)

  latency_pos :
      (c : SlaClass) → of_ℕ 0 ≺ get_or (sla_text c) (decimal {F = F} 18000 1) latency_limits
  unfolding sla_text get_or lookup
  latency_pos realtime = laws.decimal_pos 9000 1 (omega arith) (omega arith)
  latency_pos interactive = laws.decimal_pos 18000 1 (omega arith) (omega arith)
  latency_pos best_effort = laws.decimal_pos 42000 1 (omega arith) (omega arith)

  arrival_nonneg :
      (config : WorkloadConfig F) (first raw : F)
      → of_ℕ 0 ≼ round (trace_arrival config first raw) 4
  unfolding trace_arrival
  arrival_nonneg config first raw =
      round_nonneg laws _
        (laws.le_trans _ (decimal 0 1) _ (decimal_nonneg laws 0 1) (le-max laws (decimal 0 1) _).0)

-- The first ones under a limit that 0 lifts.
abbrev pub cut : {A : Type 0} → ℕ → List A → List A
cut count xs = if nat_beq count 0 then xs else take count xs

module _ {F : Type 0} where
  -- The request that a row stands for.
  abbrev pub IsReplay : NormalizedWorkloadRow F → InferenceRequest F → Type 0
  IsReplay row r =
      (r.prompt_tokens ≡ row.prompt_length)
      × (r.generation_tokens ≡ row.expected_output_length)
      × (sla_text r.sla_class ≡ row.priority_class)

  -- Rows in order, each with the request that it stands for.
  abbrev pub AreReplays : List (NormalizedWorkloadRow F) → List (InferenceRequest F) → Type 0
  AreReplays [] [] = Unit
  AreReplays (row ∷ rows) (r ∷ rs) = IsReplay row r × AreReplays rows rs
  AreReplays _ _ = ⊥

  AreReplays-take :
      (n : ℕ) (rows : List (NormalizedWorkloadRow F)) (rs : List (InferenceRequest F))
      → AreReplays rows rs
      → AreReplays (take n rows) (take n rs)
  AreReplays-take zero rows rs h = tt
  AreReplays-take (suc n) [] [] h = tt
  AreReplays-take (suc n) [] (r ∷ rs) h = h
  AreReplays-take (suc n) (row ∷ rows) [] h = h
  AreReplays-take (suc n) (row ∷ rows) (r ∷ rs) h = (h.0, AreReplays-take n rows rs h.1)

  -- The first rows under a limit that may be missing.
  abbrev pub limited : Option ℕ → List (NormalizedWorkloadRow F) → List (NormalizedWorkloadRow F)
  limited none rows = rows
  limited (some n) rows = take n rows

  AreReplays-cut :
      (count : ℕ) (rows : List (NormalizedWorkloadRow F)) (rs : List (InferenceRequest F))
      → AreReplays rows rs
      → AreReplays (cut count rows) (cut count rs)
  AreReplays-cut count rows rs h = elim (Bool-cases (nat_beq count 0)) [
    | inl lifted ↦ rw lifted h
    | inr counted ↦ rw counted (AreReplays-take count rows rs h)
  ]

  All-limited :
      (P : NormalizedWorkloadRow F → Type 0) (o : Option ℕ) (rows : List (NormalizedWorkloadRow F))
      → All P rows
      → All P (limited o rows)
  All-limited P none rows h = h
  All-limited P (some n) rows h = All-take P n rows h

  -- The test of the code before the cut
  kept-cut :
      (count : ℕ) (rs : List (InferenceRequest F))
      → (if ltb 0 count && ltb count (length rs) then take count rs else rs) ≡ cut count rs
  kept-cut count rs = ground (arith, take_all count rs)

module _ {F : Type 0} ⦃f : Float F⦄ where
  take-written :
      (n : ℕ) (rows : List (NormalizedWorkloadRow F))
      → take n (write_normalized_rows rows) ≡ write_normalized_rows (take n rows)
  unfolding write_normalized_rows
  take-written zero rows = refl
  take-written (suc n) [] = refl
  take-written (suc n) (row ∷ rows) = ap (λ ts. written row ∷ ts) (take-written n rows)

  limited-written :
      (o : Option ℕ) (rows : List (NormalizedWorkloadRow F))
      → (elim o [
        | none ↦ write_normalized_rows rows
        | some n ↦ take n (write_normalized_rows rows)
      ])
        ≡ write_normalized_rows (limited o rows)
  limited-written none rows = refl
  limited-written (some n) rows = take-written n rows

module _ {F R : Type 0} ⦃f : Float F⦄ (laws : IsFloat F) (rng : Random F R)
    (digest : String → String) (config : WorkloadConfig F) (first : F) where
  trace_session-written :
      (row : NormalizedWorkloadRow F) (tenant_id model_id : String) (s : GeneratorState R)
      → (row.session_id == "") ≡ false
      → trace_session rng digest config (some row.session_id) tenant_id model_id s
        ≡ ok (row.session_id, s)
  unfolding trace_session column_or text_or
  trace_session-written row tenant_id model_id s named =
      rw named (if_false (row.session_id == "") _ _ named)

  -- The arguments that the code passes on for a row that is written.
  abbrev replay_args : NormalizedWorkloadRow F → RequestArgs F
  replay_args row =
      let tenant_id = text_or row.tenant_id "tenant-unknown" in
      let model_id = column_or (some row.model_id) config.trace_default_model in
      let sla_class = text_or row.priority_class config.trace_default_sla in
      let prompt = row.prompt_length in
      let generation = row.expected_output_length in
      record {
        request_id = row.request_id;
        tenant_id = tenant_id;
        model_id = model_id;
        prompt_tokens = pos prompt;
        generation_tokens = pos generation;
        arrival_ts = round (trace_arrival config first (round row.timestamp 6)) 4;
        sla_class = known_class sla_class;
        session_id = some row.session_id;
        prefix_signature = some (
            stable_prefix_signature digest tenant_id model_id (some row.session_id)
              (token_salt prompt generation));
        max_latency_ms = get_or sla_class (decimal 18000 1) latency_limits;
        metadata = [];
      }

  replay_args-IsAccepted :
      (row : NormalizedWorkloadRow F) (c : SlaClass)
      → IsReplayable row
      → row.priority_class ≡ sla_text c
      → IsAccepted (replay_args row) c row.prompt_length row.expected_output_length
  replay_args-IsAccepted row c able named =
      let kept : text_or row.priority_class config.trace_default_sla ≡ sla_text c =
        ap (λ p. text_or p config.trace_default_sla) named
        ∙ text_or-sla_text c config.trace_default_sla in
      record {
        class_named = ap known_class kept ∙ known_class-sla_text c;
        prompt_given = refl;
        generation_given = refl;
        prompt_pos = let p = able.normalized.prompt in omega arith;
        generation_pos = let p = able.normalized.output in omega arith;
        arrival_nonneg = arrival_nonneg laws config first (round row.timestamp 6);
        latency_pos =
            subst (λ p. of_ℕ 0 ≺ get_or p (decimal {F = F} 18000 1) latency_limits) (sym kept)
              (latency_pos laws c);
      }

  trace_request-written :
      (row : NormalizedWorkloadRow F) (s : GeneratorState R)
      → IsReplayable row
      → (r : InferenceRequest F) × (trace_request rng digest config first (written row) s
          ≡ ok (r, s))
        × IsReplay row r
  unfolding trace_request written
  trace_request-written row s able =
      let (c, named) = class_of row.priority_class able.normalized.priority in
      let (r, made, class, prompt, output) =
        make_request_of_IsAccepted digest (replay_args row) c row.prompt_length
          row.expected_output_length (replay_args-IsAccepted row c able named) in
      let args = replay_args row in
      (
        r,
        >>=-eq_of_ok (at_least_one {F = F} (of_ℕ row.prompt_length)) _
              (at_least_one-of_ℕ laws row.prompt_length able.normalized.prompt able.prompt_exact)
            ∙ >>=-eq_of_ok (at_least_one {F = F} (of_ℕ row.expected_output_length)) _ (
                at_least_one-of_ℕ laws row.expected_output_length able.normalized.output
                  able.output_exact)
            ∙ >>=-eq_of_ok
                (trace_session rng digest config (some row.session_id) args.tenant_id args.model_id
                  s)
                _ (trace_session-written row args.tenant_id args.model_id s able.named)
            ∙ >>=-eq_of_ok (make_request digest args) _ made,
        (prompt, output, ap sla_text class ∙ sym named),
      )

  trace_requests-write_normalized_rows :
      (rows : List (NormalizedWorkloadRow F)) (s : GeneratorState R)
      → All IsReplayable rows
      → (rs : List (InferenceRequest F)) × (trace_requests rng digest config first
            (write_normalized_rows rows)
            s
          ≡ ok (rs, s))
        × AreReplays rows rs
  unfolding trace_requests write_normalized_rows
  trace_requests-write_normalized_rows [] s able = ([], refl, tt)
  trace_requests-write_normalized_rows (row ∷ rows) s able =
      let (r, made, replay) = trace_request-written row s able.0 in
      let (rs, others, replays) = trace_requests-write_normalized_rows rows s able.1 in
      (
        r ∷ rs,
        >>=-eq_of_ok (trace_request rng digest config first (written row) s) _ made
            ∙ >>=-eq_of_ok (trace_requests rng digest config first (write_normalized_rows rows) s) _
                others,
        (replay, replays),
      )

module _ {F R : Type 0} ⦃f : Float F⦄ (laws : IsFloat F) (rng : Random F R)
    (digest : String → String) (config : WorkloadConfig F) where
  generate_from_trace-write_normalized_rows :
      (rows : List (NormalizedWorkloadRow F)) (s : GeneratorState R)
      → All IsReplayable rows
      → (rs : List (InferenceRequest F)) × (generate_from_trace rng digest config
            (write_normalized_rows rows)
            s
          ≡ ok (rs, s))
        × AreReplays (cut config.request_count (limited config.trace_limit rows)) rs
  unfolding generate_from_trace limited_rows
  generate_from_trace-write_normalized_rows rows s able =
      let kept = limited config.trace_limit rows in
      let read = limited_rows config (write_normalized_rows rows) in
      let same : read ≡ write_normalized_rows kept = limited-written config.trace_limit rows in
      let (rs, made, replays) =
        trace_requests-write_normalized_rows laws rng digest config (first_timestamp read) kept s
          (All-limited IsReplayable config.trace_limit rows able) in
      (
        cut config.request_count rs,
        >>=-eq_of_ok (trace_requests rng digest config (first_timestamp read) read s) _
              (ap (λ ts. trace_requests rng digest config (first_timestamp read) ts s) same ∙ made)
            ∙ ap (λ kept_rs. ok (kept_rs, s)) (kept-cut config.request_count rs),
        AreReplays-cut config.request_count kept rs replays,
      )

  -- If a trace is set and the reader returns the rows as they were written from normalized rows
  -- that name a session and whose lengths are at most 2 ^ 53, then `generate_requests` does not
  -- raise. It makes one request for each row that is left when only the first `trace_limit` are
  -- kept, if that is set, and of those the first `request_count`, unless that is 0: in order, with
  -- the row's two lengths and its class of service.
  pub generate_requests-write_normalized_rows :
      (read_trace : String → Result (List (TraceRow F))) (path : String)
      (rows : List (NormalizedWorkloadRow F)) (s : GeneratorState R)
      → config.trace_path ≡ some path
      → (path == "") ≡ false
      → read_trace path ≡ ok (write_normalized_rows rows)
      → All IsReplayable rows
      → (rs : List (InferenceRequest F)) × (generate_requests rng digest read_trace config s
          ≡ ok (rs, s))
        × AreReplays (cut config.request_count (limited config.trace_limit rows)) rs
  unfolding generate_requests
  generate_requests-write_normalized_rows read_trace path rows s traced given read able =
      let (rs, made, replays) = generate_from_trace-write_normalized_rows rows s able in
      (
        rs,
        branch config.trace_path traced
            ∙ if_false (path == "") _ _ given
            ∙ >>=-eq_of_ok (read_trace path) _ read
            ∙ made,
        replays,
      )
    where
      branch :
          (o : Option String)
          → o ≡ some path
          → (elim o [
            | none ↦ drawn_requests rng digest config s
            | some p ↦
                if p == ""
                then drawn_requests rng digest config s
                else (read_trace p >>= λ ts. generate_from_trace rng digest config ts s)
          ])
            ≡ (if path == ""
                then drawn_requests rng digest config s
                else (read_trace path >>= λ ts. generate_from_trace rng digest config ts s))
      branch o e = rw e refl
