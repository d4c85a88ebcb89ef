-- ===== src/Workload/Counted.antt =====
-- workload_gen/generator.py: how many requests are generated, with a trace and without one.
use Prim.Native.Nat.{min as least}
use nimbus_mesh_x.Base.{
  false, ℕ, suc, subst, eq_of_beq, ◌≡◌, refl, sym, ap, ◌∙◌, arith, ltb, nat_beq, ◌&&◌, String, ◌==◌,
  string_eq, Bool-cases, inl, inr, ◌⊎◌, if_true, if_false, if◌then◌else◌, List, [], ◌∷◌, length,
  length-take, take, Option, none, some, Result, ok, ◌>>=◌, >>=-eq-ok, ok-injective,
}
use nimbus_mesh_x.Float.{Float}
use nimbus_mesh_x.Config.{WorkloadConfig}
use nimbus_mesh_x.Types.{InferenceRequest}
use nimbus_mesh_x.Workload.{
  Random, GeneratorState, TraceRow, drawn_requests, trace_request, trace_requests, first_timestamp,
  limited_rows, generate_from_trace, generate_requests,
}
use nimbus_mesh_x.Workload.Arrivals.{length-drawn_requests}

-- No trace is set.
abbrev pub IsUntraced : Option String → Type 0
IsUntraced none = Unit
IsUntraced (some path) = path ≡ ""

-- How many of `n` there are under a limit that may be missing, and under one that 0 lifts.
abbrev pub at_most : Option ℕ → ℕ → ℕ
at_most none n = n
at_most (some limit) n = least limit n

abbrev pub capped : ℕ → ℕ → ℕ
capped count n = if nat_beq count 0 then n else least count n

module _ {F R : Type 0} ⦃f : Float F⦄ (rng : Random F R) (digest : String → String)
    (config : WorkloadConfig F) where
  length-trace_requests :
      (first_ts : F) (rows : List (TraceRow F)) (s : GeneratorState R)
      (made : List (InferenceRequest F) × GeneratorState R)
      → trace_requests rng digest config first_ts rows s ≡ ok made
      → length made.0 ≡ length rows
  unfolding trace_requests
  length-trace_requests first_ts [] s made h = ap (λ d. length d.0) (sym (ok-injective _ made h))
  length-trace_requests first_ts (row ∷ rows) s made h =
      let (first, _, h1) = >>=-eq-ok (trace_request rng digest config first_ts row s) _ h in
      let (others, rest, e) =
        >>=-eq-ok (trace_requests rng digest config first_ts rows first.1) _ h1 in
      ap (λ d. length d.0) (sym (ok-injective _ made e))
      ∙ ap suc (length-trace_requests first_ts rows first.1 others rest)

  length-limited :
      (limit : Option ℕ) (rows : List (TraceRow F))
      → length (elim limit [ none ↦ rows | some n ↦ take n rows ]) ≡ at_most limit (length rows)
  length-limited none rows = refl
  length-limited (some n) rows = length-take n rows

  length-generate_from_trace :
      (rows : List (TraceRow F)) (s : GeneratorState R)
      (made : List (InferenceRequest F) × GeneratorState R)
      → generate_from_trace rng digest config rows s ≡ ok made
      → length made.0 ≡ capped config.request_count (at_most config.trace_limit (length rows))
  unfolding generate_from_trace limited_rows
  length-generate_from_trace rows s made h =
      let kept = limited_rows config rows in
      let (all, read, e) =
        >>=-eq-ok (trace_requests rng digest config (first_timestamp kept) kept s) _ h in
      let count = length-trace_requests (first_timestamp kept) kept s all read in
      let limit = length-limited config.trace_limit rows in
      ap (λ d. length d.0) (sym (ok-injective _ made e))
      ∙ cut all.0
      ∙ ap (capped config.request_count) (count ∙ limit)
    where
      cut :
          (rs : List (InferenceRequest F))
          → length (
              if ltb 0 config.request_count && ltb config.request_count (length rs)
              then take config.request_count rs
              else rs)
            ≡ capped config.request_count (length rs)
      cut rs = ground (arith, length-take config.request_count rs)

  module _ (read_trace : String → Result (List (TraceRow F))) where
    -- If generating does not raise, then without a trace as many requests are generated as the
    -- configuration asks for, whatever is drawn and whichever the pattern of arrivals is; with a
    -- trace, as many as it has rows, but no more than `trace_limit`, if that is set, and no more
    -- than `request_count`, unless that is 0.
    pub generate_requests-length :
        (s : GeneratorState R) (made : List (InferenceRequest F) × GeneratorState R)
        → generate_requests rng digest read_trace config s ≡ ok made
        → IsUntraced config.trace_path × (length made.0 ≡ config.request_count)
          ⊎ ((path : String) × (rows : List (TraceRow F)) × (config.trace_path ≡ some path)
              × ((path == "") ≡ false)
              × (read_trace path ≡ ok rows)
              × (length made.0
                  ≡ capped config.request_count (at_most config.trace_limit (length rows))))
    unfolding generate_requests
    generate_requests-length s made h = cases config.trace_path refl h
      where
        cases :
            (o : Option String)
            → config.trace_path ≡ o
            → ◌≡◌ {A = Result (List (InferenceRequest F) × GeneratorState R)}
                (elim o [
                  | none ↦ drawn_requests rng digest config s
                  | some path ↦
                      if path == ""
                      then drawn_requests rng digest config s
                      else (read_trace path >>= λ rows.
                          generate_from_trace rng digest config rows s)
                ])
                (ok made)
            → IsUntraced config.trace_path × (length made.0 ≡ config.request_count)
              ⊎ ((path : String) × (rows : List (TraceRow F)) × (config.trace_path ≡ some path)
                  × ((path == "") ≡ false)
                  × (read_trace path ≡ ok rows)
                  × (length made.0
                      ≡ capped config.request_count (at_most config.trace_limit (length rows))))
        cases none e r =
            inl (subst IsUntraced (sym e) tt, length-drawn_requests rng digest config s made r)
        cases (some path) e r = elim (Bool-cases (path == "")) [
          | inl empty ↦ inl (
            subst IsUntraced (sym e) (eq_of_beq path "" empty),
            length-drawn_requests rng digest config s made (sym (if_true _ _ _ empty) ∙ r),
          )
          | inr given ↦
              let (rows, read, made_of) =
                >>=-eq-ok (read_trace path) _ (sym (if_false _ _ _ given) ∙ r) in
              inr (path, rows, e, given, read, length-generate_from_trace rows s made made_of)
        ]
