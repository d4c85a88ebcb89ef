-- ===== src/Pipeline/Normalized.antt =====
-- data_pipeline/normalizers.py: what holds of every row that a normalizer makes.
use Prim.Native.Nat.{max as greatest}
use native.Mathlib.Nat.{le-max_left}
use nimbus_mesh_x.Base.{
  ℕ, suc, ◌≤◌, ◌≡◌, refl, sym, subst, ◌∙◌, ◌⊎◌, inl, inr, arith, nat_beq, ◌%◌, ◌/◌, String,
  string_eq, ◌==◌, eq_of_beq, Bool-cases, if_both, if_true, if_false, not, List, [], ◌∷◌, All,
  Option, some, none, Result, ok, ◌>>=◌, >>=-eq-ok, ok-injective, Yields, >>=-Yields,
  >>=-Yields_any, Yields-ok,
}
use nimbus_mesh_x.Base.Int.{ℤ, pos, pos_part}
use nimbus_mesh_x.Base.Words.{lower}
use nimbus_mesh_x.Float.{Float, ◌⊕◌, ◌⊗◌, decimal}
use nimbus_mesh_x.Json.{
  Value, Formats, integer, text, ◌or◌, truth, truncate, methods, iterate, text_of, to_float,
}
use nimbus_mesh_x.Base.Text.{show, show_padded}
use nimbus_mesh_x.Base.Dict.{Dict, get_or}
use Prim.Native.String.{◌++◌ as ◌<>◌}
use nimbus_mesh_x.Pipeline.{
  NormalizedWorkloadRow, clamp_value, stripped, clamp_priority, approx_token_length, is_full,
  collect, at_least, usage, listen, length_of, conversations_of, lmsys_prompt, lmsys_output,
  instruction_prompt, instruction_output, alibaba_row, generic_lengths, generic_row, sharegpt_row,
  lmsys_row, instruction_row, Normalizer, alibaba_cluster_trace, sharegpt_dataset, lmsys_dataset,
  instruction_dataset, generic_workload_csv, Dataset, records_in, normalizer_row, normalize,
}

-- One of the three classes of service.
abbrev pub IsClass : String → Type 0
IsClass priority = (priority ≡ "realtime") ⊎ (priority ≡ "interactive") ⊎ (priority ≡ "best_effort")

pub record IsNormalized {F : Type 0} (row : NormalizedWorkloadRow F) : Type 0 where
  pub prompt : 1 ≤ row.prompt_length
  pub output : 1 ≤ row.expected_output_length
  pub priority : IsClass row.priority_class

clamp_value-IsClass : (value : String) → IsClass (clamp_value value)
unfolding clamp_value
clamp_value-IsClass value = ground (
  arith,
  eq_of_beq value "realtime",
  eq_of_beq value "interactive",
  eq_of_beq value "best_effort",
)

module _ {F : Type 0} ⦃f : Float F⦄ where
  clamp_priority-IsClass : (raw : Value F) → Yields IsClass (clamp_priority raw)
  unfolding clamp_priority
  clamp_priority-IsClass raw =
      >>=-Yields_any IsClass (stripped (raw or text "")) _
        (λ value. Yields-ok IsClass _ (clamp_value-IsClass (lower value)))

  approx_token_length_pos : (value : Value F) → Yields (λ n. 1 ≤ n) (approx_token_length value)
  unfolding approx_token_length
  approx_token_length_pos value =
      >>=-Yields_any (λ n. 1 ≤ n) (stripped (value or text "")) _
        (λ s.
          Yields-ok (λ n. 1 ≤ n) _
            (if_both (λ n. 1 ≤ n) (s == "") _ _ (omega arith) (le-max_left 1 _)))

  at_least-le : (least : ℕ) (x : F) → Yields (λ n. least ≤ n) (at_least least x)
  unfolding at_least
  at_least-le least x =
      >>=-Yields_any (λ n. least ≤ n) (truncate x) _
        (λ n. Yields-ok (λ n. least ≤ n) _ (le-max_left least (pos_part n)))

one_of_sixteen : (n : ℕ) → 1 ≤ greatest 16 n
one_of_sixteen n = let least = le-max_left 16 n in omega arith

module _ {F : Type 0} where
  -- A row, if one is made, is normalized.
  abbrev MayNormalize : Option (NormalizedWorkloadRow F) → Type 0
  MayNormalize none = Unit
  MayNormalize (some row) = IsNormalized row

  collect-IsNormalized :
      (body : ℕ → Value F → Result (Option (NormalizedWorkloadRow F))) (limit : Option ℕ)
      (index kept : ℕ) (records : List (Value F))
      → ((i : ℕ) (v : Value F) → Yields MayNormalize (body i v))
      → Yields (λ rows. All IsNormalized rows) (collect body limit index kept records)
  unfolding collect
  collect-IsNormalized body limit index kept [] made =
      Yields-ok (λ rows. All IsNormalized rows) [] tt
  collect-IsNormalized body limit index kept (v ∷ vs) made =
      if_both (Yields (λ rows. All IsNormalized rows)) (is_full limit kept) _ _
        (Yields-ok (λ rows. All IsNormalized rows) [] tt)
        (>>=-Yields MayNormalize (λ rows. All IsNormalized rows) (body index v) _ (made index v)
          (λ o m.
            elim o
                as (λ o.
                  MayNormalize o
                  → Yields (λ rows. All IsNormalized rows)
                      (elim o [
                        | none ↦ collect body limit (suc index) kept vs
                        | some row ↦
                            collect body limit (suc index) (suc kept) vs >>= λ rows. ok (row ∷ rows)
                      ])) [
                        | none ↦ λ nothing. collect-IsNormalized body limit (suc index) kept vs made
                        | some row ↦ λ new.
                            >>=-Yields (λ rows. All IsNormalized rows)
                              (λ rows. All IsNormalized rows) _ _
                              (collect-IsNormalized body limit (suc index) (suc kept) vs made)
                              (λ rows others.
                                Yields-ok (λ rows. All IsNormalized rows) (row ∷ rows)
                                  (new, others))
                      ]
              m))

module _ {F : Type 0} where
  made :
      (row : NormalizedWorkloadRow F) (o : Option (NormalizedWorkloadRow F))
      → ◌≡◌ {A = Result (Option (NormalizedWorkloadRow F))} (ok (some row)) (ok o)
      → 1 ≤ row.prompt_length
      → 1 ≤ row.expected_output_length
      → IsClass row.priority_class
      → MayNormalize o
  made row o h p q c =
      subst MayNormalize (ok-injective (some row) o h)
        (record { prompt = p; output = q; priority = c })

module _ {F : Type 0} ⦃f : Float F⦄ (formats : Formats F) where
  at_least_pos : (below : ℕ) (x : F) (n : ℕ) → at_least (suc below) x ≡ ok n → 1 ≤ n
  at_least_pos below x n h = let least = (at_least-le (suc below) x).holds n h in omega arith

  alibaba_row_normalizes :
      (default_model : String) (index : ℕ) (row : Value F)
      → Yields MayNormalize (alibaba_row formats default_model index row)
  unfolding alibaba_row
  alibaba_row_normalizes default_model index row = record {
    holds = λ o h.
        let (d, _, h1) = >>=-eq-ok (methods row) _ h in
        let (start_time, _, h2) =
          >>=-eq-ok (to_float formats (get_or "start_time" (integer (pos index)) d)) _ h1 in
        let (duration, _, h3) = >>=-eq-ok (usage formats "task_duration" "duration" d) _ h2 in
        let (cpu, _, h4) = >>=-eq-ok (usage formats "cpu_usage" "plan_cpu" d) _ h3 in
        let (memory, _, h5) = >>=-eq-ok (usage formats "memory_usage" "plan_mem" d) _ h4 in
        let (prompt, p, h6) =
          >>=-eq-ok (at_least 32 (cpu ⊗ decimal 2200 1 ⊕ memory ⊗ decimal 1000 1)) _ h5 in
        let (output, q, h7) = >>=-eq-ok (at_least 16 (duration ⊗ decimal 400 1)) _ h6 in
        let (request_id, _, h8) =
          >>=-eq-ok (text_of (get_or "task_id" (text ("alibaba-" <> show_padded 7 index)) d)) _
            h7 in
        let (priority, c, h9) =
          >>=-eq-ok (clamp_priority (get_or "priority" (text "interactive") d)) _ h8 in
        made _ o h9 (at_least_pos 31 _ prompt p) (at_least_pos 15 _ output q)
          ((clamp_priority-IsClass {F = F} _).holds priority c);
  }

  generic_lengths_pos :
      (d : Dict String (Value F)) → Yields (λ n. (1 ≤ n.0) × (1 ≤ n.1)) (generic_lengths formats d)
  unfolding generic_lengths
  generic_lengths_pos d =
      >>=-Yields_any (λ n. (1 ≤ n.0) × (1 ≤ n.1))
        (to_float formats (get_or "prompt_length" (integer (pos 1)) d)) _
        (λ x.
          >>=-Yields (λ n. 1 ≤ n) (λ n. (1 ≤ n.0) × (1 ≤ n.1)) (at_least 1 x) _ (at_least-le 1 x)
            (λ m p.
              >>=-Yields_any (λ n. (1 ≤ n.0) × (1 ≤ n.1))
                (to_float formats (get_or "expected_output_length" (integer (pos 1)) d)) _
                (λ y.
                  >>=-Yields (λ n. 1 ≤ n) (λ n. (1 ≤ n.0) × (1 ≤ n.1)) (at_least 1 y) _
                    (at_least-le 1 y)
                    (λ n q. Yields-ok (λ n. (1 ≤ n.0) × (1 ≤ n.1)) (m, n) (p, q)))))

  generic_row_normalizes :
      (default_model : String) (index : ℕ) (row : Value F)
      → Yields MayNormalize (generic_row formats default_model index row)
  unfolding generic_row
  generic_row_normalizes default_model index row = record {
    holds = λ o h.
        let (d, _, h1) = >>=-eq-ok (methods row) _ h in
        let (timestamp, _, h2) =
          >>=-eq-ok (to_float formats (get_or "timestamp" (integer (pos index)) d)) _ h1 in
        let (request_id, _, h3) =
          >>=-eq-ok (text_of (get_or "request_id" (text ("generic-" <> show_padded 7 index)) d)) _
            h2 in
        let (lengths, l, h4) = >>=-eq-ok (generic_lengths formats d) _ h3 in
        let (tenant_id, _, h5) =
          >>=-eq-ok (text_of (get_or "tenant_id" (text ("tenant-" <> show (index % 16))) d)) _ h4 in
        let (priority, c, h6) =
          >>=-eq-ok (clamp_priority (get_or "priority_class" (text "interactive") d)) _ h5 in
        let (model_id, _, h7) =
          >>=-eq-ok (text_of (get_or "model_id" (text default_model) d)) _ h6 in
        let (session_id, _, h8) =
          >>=-eq-ok (text_of (get_or "session_id" (text ("session-" <> show (index / 4))) d)) _
            h7 in
        let (p, q) = (generic_lengths_pos d).holds lengths l in
        made _ o h8 p q ((clamp_priority-IsClass {F = F} _).holds priority c);
  }

  lmsys_row_normalizes :
      (default_model : String) (index : ℕ) (row : Value F)
      → Yields MayNormalize (lmsys_row formats default_model index row)
  unfolding lmsys_row
  lmsys_row_normalizes default_model index row = record {
    holds = λ o h.
        let (d, _, h1) = >>=-eq-ok (methods row) _ h in
        let (prompt, p, h2) = >>=-eq-ok (length_of formats (lmsys_prompt formats d)) _ h1 in
        let (output, _, h3) = >>=-eq-ok (length_of formats (lmsys_output formats d)) _ h2 in
        made _ o h3 ((approx_token_length_pos {F = F} _).holds prompt p) (one_of_sixteen output)
          (if_both IsClass (nat_beq (index % 5) 0) _ _ (inl refl) (inr (inl refl)));
  }

  instruction_row_normalizes :
      (default_model : String) (index : ℕ) (row : Value F)
      → Yields MayNormalize (instruction_row formats default_model index row)
  unfolding instruction_row
  instruction_row_normalizes default_model index row = record {
    holds = λ o h.
        let (d, _, h1) = >>=-eq-ok (methods row) _ h in
        let (prompt, p, h2) = >>=-eq-ok (approx_token_length (instruction_prompt formats d)) _ h1 in
        let (output, _, h3) = >>=-eq-ok (length_of formats (instruction_output formats d)) _ h2 in
        made _ o h3 ((approx_token_length_pos {F = F} _).holds prompt p) (one_of_sixteen output)
          (inr (inl refl));
  }

  module _ (hash : Value F → Result ℤ) where
    sharegpt_row_normalizes :
        (default_model : String) (index : ℕ) (row : Value F)
        → Yields MayNormalize (sharegpt_row formats hash default_model index row)
    unfolding sharegpt_row
    sharegpt_row_normalizes default_model index row = record {
      holds = λ o h.
          let (d, _, h1) = >>=-eq-ok (methods row) _ h in
          elim (Bool-cases (not (truth (conversations_of d)))) [
            | inl empty ↦
                subst MayNormalize (ok-injective none o (sym (if_true _ (ok none) _ empty) ∙ h1)) tt
            | inr given ↦
                let (turns, _, h2) =
                  >>=-eq-ok (iterate (conversations_of d)) _
                    (sym (if_false _ (ok none) _ given) ∙ h1) in
                let (heard, _, h3) = >>=-eq-ok (listen turns (text "", text "")) _ h2 in
                let (prompt, p, h4) = >>=-eq-ok (approx_token_length heard.0) _ h3 in
                let (output, _, h5) = >>=-eq-ok (approx_token_length heard.1) _ h4 in
                let (hashed, _, h6) =
                  >>=-eq-ok (hash (get_or "id" (text ("sharegpt-" <> show_padded 6 index)) d)) _
                    h5 in
                made _ o h6 ((approx_token_length_pos {F = F} _).holds prompt p)
                  (one_of_sixteen output) (inr (inl refl))
          ];
    }

    normalizer_row_normalizes :
        (normalizer : Normalizer) (default_model : String) (index : ℕ) (row : Value F)
        → Yields MayNormalize (normalizer_row formats hash normalizer default_model index row)
    unfolding normalizer_row
    normalizer_row_normalizes alibaba_cluster_trace = alibaba_row_normalizes
    normalizer_row_normalizes sharegpt_dataset = sharegpt_row_normalizes
    normalizer_row_normalizes lmsys_dataset = lmsys_row_normalizes
    normalizer_row_normalizes instruction_dataset = instruction_row_normalizes
    normalizer_row_normalizes generic_workload_csv = generic_row_normalizes

    -- Every row that a normalizer of the registry makes has a prompt and an output of at least one
    -- token and one of the three classes of service, whatever the records are.
    pub normalize-IsNormalized :
        (normalizer : Normalizer) (dataset : Dataset F) (limit : Option ℕ) (default_model : String)
        (rows : List (NormalizedWorkloadRow F))
        → normalize formats hash normalizer dataset limit default_model ≡ ok rows
        → All IsNormalized rows
    unfolding normalize
    normalize-IsNormalized normalizer dataset limit default_model rows h =
        (>>=-Yields_any (λ rows. All IsNormalized rows) (records_in dataset) _
            (λ records.
              collect-IsNormalized _ limit 0 0 records
                (normalizer_row_normalizes normalizer default_model))).holds
          rows h
