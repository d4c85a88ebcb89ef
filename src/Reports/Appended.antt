-- ===== src/Reports/Appended.antt =====
-- nimbusmesh_x/structured_logs.py: which lines a file of the fan-out holds after results are emitted.
use Prim.Native.String.{◌++◌ as ◌<>◌, len, slice}
use text.Mathlib.TextPositions.{len-append, slice-append_right}
use text.Mathlib.TextEquality.{eq_iff}
use mathlib.Core.List.{append-nil, append_assoc}
use nimbus_mesh_x.Base.{
  ℕ, ◌+◌, ◌≡◌, refl, sym, ap, ap₂, ◌∙◌, arith, of_Bool, String, string_eq, ◌==◌, eq_of_beq, Bool,
  true, Bool-cases, inl, inr, if◌then◌else◌, if_true, if_false, List, [], ◌∷◌, ◌++◌, length,
  length-append,
}
use nimbus_mesh_x.Base.Dict.{Dict, get_or-insert}
use nimbus_mesh_x.Float.{Float}
use nimbus_mesh_x.Types.{RequestResult}
use nimbus_mesh_x.Json.{Value, object, of_dict}
use nimbus_mesh_x.Reports.{
  Files, lines_of, append_line, LogName, scheduler_log, cache_log, topology_log, latency_log,
  failure_log, scheduler_log_v2, cache_log_v2, topology_log_v2, latency_log_v2, file_name, log_path,
  append_log, write_logs, log_writes, is_hit, emit_result,
}

append-cancel_left : (s t u : String) → s <> t ≡ s <> u → t ≡ u
append-cancel_left s t u h =
    let same : len t ≡ len u = omega (arith, len-append s t, len-append s u, ap len h) in
    sym (slice-append_right s t)
    ∙ ap₂ (λ v n. slice v (len s) (len s + n)) h same
    ∙ slice-append_right s u

-- The names of two logs, each after its separator, are equal.
abbrev pub is_same : LogName → LogName → Bool
is_same x y = ("/" <> file_name x) == ("/" <> file_name y)

-- Two logs of one directory are one file just if their names are equal.
log_path-beq :
    (base_dir : String) (x y : LogName) → (log_path base_dir x == log_path base_dir y) ≡ is_same x y
log_path-beq base_dir x y = ground (
  arith,
  eq_iff (log_path base_dir x) (log_path base_dir y),
  eq_iff ("/" <> file_name x) ("/" <> file_name y),
  append-cancel_left base_dir ("/" <> file_name x) ("/" <> file_name y),
)

module _ {F : Type 0} where
  abbrev pub log_lines : String → LogName → Files F → List (Value F)
  log_lines base_dir log files = lines_of (log_path base_dir log) files

  log_lines-append_log :
      (base_dir : String) (x y : LogName) (payload : Dict String (Value F)) (files : Files F)
      → log_lines base_dir x (append_log base_dir y payload files) ≡ (
          if is_same x y
          then log_lines base_dir x files ++ object (of_dict payload) ∷ []
          else log_lines base_dir x files)
  unfolding append_log append_line
  log_lines-append_log base_dir x y payload files =
      let line : Value F = object (of_dict payload) in
      let px = log_path base_dir x in
      let py = log_path base_dir y in
      let written = get_or-insert px py (lines_of py files ++ line ∷ []) [] files in
      elim (Bool-cases (is_same x y)) [
        | inl same ↦
            let here : (px == py) ≡ true = log_path-beq base_dir x y ∙ same in
            written
            ∙ if_true _ _ _ here
            ∙ ap (λ p. lines_of p files ++ line ∷ []) (sym (eq_of_beq px py here))
            ∙ sym (if_true _ _ (lines_of px files) same)
        | inr other ↦
            written
            ∙ if_false _ (lines_of py files ++ line ∷ []) _ (log_path-beq base_dir x y ∙ other)
            ∙ sym (if_false _ (lines_of px files ++ line ∷ []) _ other)
      ]

  -- What of a list of writes goes to one log.
  unfoldable pub written_to : LogName → List (LogName × Dict String (Value F)) → List (Value F)
  unfolding file_name
  written_to x [] = []
  written_to x ((y, payload) ∷ writes) =
      let rest = written_to x writes in
      if is_same x y then object (of_dict payload) ∷ rest else rest

  log_lines-write_logs :
      (base_dir : String) (x : LogName) (writes : List (LogName × Dict String (Value F)))
      (files : Files F)
      → log_lines base_dir x (write_logs base_dir writes files)
        ≡ log_lines base_dir x files ++ written_to x writes
  unfolding write_logs written_to
  log_lines-write_logs base_dir x [] files = sym (append-nil (log_lines base_dir x files))
  log_lines-write_logs base_dir x ((y, payload) ∷ writes) files =
      let line : Value F = object (of_dict payload) in
      let before = log_lines base_dir x files in
      let rest = written_to x writes in
      log_lines-write_logs base_dir x writes (append_log base_dir y payload files)
      ∙ ap (λ ls. ls ++ rest) (log_lines-append_log base_dir x y payload files)
      ∙ elim (Bool-cases (is_same x y)) [
        | inl same ↦
            ap (λ ls. ls ++ rest) (if_true _ (before ++ line ∷ []) before same)
            ∙ append_assoc before (line ∷ []) rest
            ∙ ap (λ ls. before ++ ls) (sym (if_true _ (line ∷ rest) rest same))
        | inr other ↦
            ap (λ ls. ls ++ rest) (if_false _ (before ++ line ∷ []) before other)
            ∙ ap (λ ls. before ++ ls) (sym (if_false _ (line ∷ rest) rest other))
      ]

module _ {F : Type 0} ⦃f : Float F⦄ where
  -- Every copy of a log has the lines that the log has.
  pub record IsMirrored (base_dir : String) (files : Files F) : Type 0 where
    pub scheduler :
        log_lines base_dir scheduler_log files ≡ log_lines base_dir scheduler_log_v2 files
    pub topology : log_lines base_dir topology_log files ≡ log_lines base_dir topology_log_v2 files
    pub latency : log_lines base_dir latency_log files ≡ log_lines base_dir latency_log_v2 files
    pub cache : log_lines base_dir cache_log files ≡ log_lines base_dir cache_log_v2 files

  log_lines-emit_result :
      (base_dir : String) (x : LogName) (result : RequestResult F) (files : Files F)
      → log_lines base_dir x (emit_result base_dir result files)
        ≡ log_lines base_dir x files ++ written_to x (log_writes result)
  unfolding emit_result
  log_lines-emit_result base_dir x result files =
      log_lines-write_logs base_dir x (log_writes result) files

  mirrored_writes :
      (result : RequestResult F)
      → (written_to scheduler_log (log_writes result)
          ≡ written_to scheduler_log_v2 (log_writes result))
        × (written_to topology_log (log_writes result)
            ≡ written_to topology_log_v2 (log_writes result))
        × (written_to latency_log (log_writes result)
            ≡ written_to latency_log_v2 (log_writes result))
        × (written_to cache_log (log_writes result) ≡ written_to cache_log_v2 (log_writes result))
  unfolding written_to log_writes
  mirrored_writes result = elim (Bool-cases (is_hit result)) [
    | inl hit ↦ rw hit (refl, refl, refl, refl)
    | inr miss ↦ rw miss (refl, refl, refl, refl)
  ]

  -- Emitting a result keeps the copies equal to their logs.
  pub emit_result-IsMirrored :
      (base_dir : String) (result : RequestResult F) (files : Files F)
      → IsMirrored base_dir files
      → IsMirrored base_dir (emit_result base_dir result files)
  emit_result-IsMirrored base_dir result files m =
      let (scheduler, topology, latency, cache) = mirrored_writes result in
      record {
        scheduler = both scheduler_log scheduler_log_v2 m.scheduler scheduler;
        topology = both topology_log topology_log_v2 m.topology topology;
        latency = both latency_log latency_log_v2 m.latency latency;
        cache = both cache_log cache_log_v2 m.cache cache;
      }
    where
      both :
          (x y : LogName)
          → log_lines base_dir x files ≡ log_lines base_dir y files
          → written_to x (log_writes result) ≡ written_to y (log_writes result)
          → log_lines base_dir x (emit_result base_dir result files)
            ≡ log_lines base_dir y (emit_result base_dir result files)
      both x y before new =
          log_lines-emit_result base_dir x result files
          ∙ ap₂ (λ u v. u ++ v) before new
          ∙ sym (log_lines-emit_result base_dir y result files)

  written_lengths :
      (result : RequestResult F)
      → (length (written_to scheduler_log (log_writes result)) ≡ 1)
        × (length (written_to cache_log (log_writes result)) ≡ of_Bool (is_hit result))
        × (length (written_to failure_log (log_writes result)) ≡ 0)
  unfolding written_to log_writes
  written_lengths result = elim (Bool-cases (is_hit result)) [
    | inl hit ↦ rw hit (refl, refl, refl)
    | inr miss ↦ rw miss (refl, refl, refl)
  ]

  -- A result adds one line to the log of the scheduler, one to the log of the cache if it has a
  -- hit, and none to the log of failures.
  pub emit_result-lengths :
      (base_dir : String) (result : RequestResult F) (files : Files F)
      → let after = emit_result base_dir result files in
        (length (log_lines base_dir scheduler_log after)
          ≡ length (log_lines base_dir scheduler_log files) + 1)
        × (length (log_lines base_dir cache_log after)
            ≡ length (log_lines base_dir cache_log files) + of_Bool (is_hit result))
        × (length (log_lines base_dir failure_log after)
            ≡ length (log_lines base_dir failure_log files))
  emit_result-lengths base_dir result files =
      let (scheduler, cache, failure) = written_lengths result in
      (
        longer scheduler_log 1 scheduler,
        longer cache_log (of_Bool (is_hit result)) cache,
        (let e = longer failure_log 0 failure in omega arith),
      )
    where
      longer :
          (x : LogName) (n : ℕ)
          → length (written_to x (log_writes result)) ≡ n
          → length (log_lines base_dir x (emit_result base_dir result files))
            ≡ length (log_lines base_dir x files) + n
      longer x n new =
          ap length (log_lines-emit_result base_dir x result files)
          ∙ length-append (log_lines base_dir x files) (written_to x (log_writes result))
          ∙ ap (λ m. length (log_lines base_dir x files) + m) new
