-- ===== src/Engine/Written.antt =====
-- simulators/engine.py: what a run leaves in the logs and in the database.
use nimbus_mesh_x.Base.{
  ℕ, ◌+◌, ◌≡◌, refl, sym, ap, subst, ◌∙◌, arith, of_Bool, String, string_eq, ◌==◌, Bool, false,
  Bool-cases, inl, inr, if◌then◌else◌, if_true, if_false, Option, some, none, List, [], ◌∷◌, ◌++◌,
  filter, length, length-append, ok, >>=-eq-ok, ok-injective,
}
use nimbus_mesh_x.Base.Dict.{get_or-insert}
use nimbus_mesh_x.Float.{Float}
use nimbus_mesh_x.Types.{InferenceRequest, RequestResult}
use nimbus_mesh_x.ControlPlane.{Routers}
use nimbus_mesh_x.Metrics.{note_submission, record_result}
use nimbus_mesh_x.Json.{Value}
use nimbus_mesh_x.Reports.{
  Files, append_line, LogName, scheduler_log, cache_log, log_path, emit_decision, is_hit, to_dict,
  ExperimentStore, result_row, write_result,
}
use nimbus_mesh_x.Reports.Appended.{
  log_lines, IsMirrored, emit_result-IsMirrored, emit_result-lengths,
}
use nimbus_mesh_x.Engine.{EngineState, log_dir, write_outputs, step, run_requests}
use nimbus_mesh_x.Engine.Runs.{step-eq-ok}

-- The decision log is none of the files of the fan-out.
abbrev pub IsApart : Option String → Type 0
IsApart none = Unit
IsApart (some path) = (log : LogName) → (log_path log_dir log == path) ≡ false

module _ {F : Type 0} where
  log_lines-emit_decision :
      (path : Option String) (payload : Value F) (files : Files F)
      → IsApart path
      → (log : LogName)
      → log_lines log_dir log (emit_decision path payload files) ≡ log_lines log_dir log files
  unfolding emit_decision append_line
  log_lines-emit_decision none payload files apart log = refl
  log_lines-emit_decision (some path) payload files apart log = elim (Bool-cases (path == "")) [
    | inl empty ↦ ap (λ fs. log_lines log_dir log fs) (if_true _ files _ empty)
    | inr given ↦
        ap (λ fs. log_lines log_dir log fs) (if_false _ files _ given)
        ∙ get_or-insert (log_path log_dir log) path _ [] files
        ∙ if_false _ _ _ (apart log)
  ]

  stored_rows :
      (config_name : String) (result : RequestResult F) (store : ExperimentStore F) (n : ℕ)
      → length store.experiment_results ≡ (if store.enabled then n else 0)
      → length (write_result config_name result store).experiment_results
        ≡ (if (write_result config_name result store).enabled then n + 1 else 0)
  unfolding write_result
  stored_rows config_name result store n h =
      let row = result_row config_name result in
      let longer = length-append store.experiment_results (row ∷ []) in ground arith

module _ {F : Type 0} ⦃f : Float F⦄ where
  -- The copies equal their logs, the scheduler's log has a line for each result and the cache's for
  -- each hit, and an enabled database has a row for each result.
  pub record IsLogged (s : EngineState F) : Type 0 where
    pub apart : IsApart s.outputs.decision_log_path
    pub mirrored : IsMirrored log_dir s.outputs.files
    pub scheduled :
        length (log_lines log_dir scheduler_log s.outputs.files) ≡ length s.metrics.results
    pub hits :
        length (log_lines log_dir cache_log s.outputs.files)
        ≡ length (filter (λ r. is_hit r) s.metrics.results)
    pub stored :
        length s.outputs.store.experiment_results
        ≡ (if s.outputs.store.enabled then length s.metrics.results else 0)

  length-filter-snoc :
      (p : RequestResult F → Bool) (r : RequestResult F) (rs : List (RequestResult F))
      → length (filter p (rs ++ r ∷ [])) ≡ length (filter p rs) + of_Bool (p r)
  length-filter-snoc p r [] = ground arith
  length-filter-snoc p r (x ∷ rs) = ground (arith, length-filter-snoc p r rs)

  IsMirrored-same :
      (files next : Files F)
      → ((log : LogName) → log_lines log_dir log next ≡ log_lines log_dir log files)
      → IsMirrored log_dir files
      → IsMirrored log_dir next
  IsMirrored-same files next same m = record {
    scheduler = same _ ∙ m.scheduler ∙ sym (same _);
    topology = same _ ∙ m.topology ∙ sym (same _);
    latency = same _ ∙ m.latency ∙ sym (same _);
    cache = same _ ∙ m.cache ∙ sym (same _);
  }

  step-IsLogged :
      (routers : Routers F) (request : InferenceRequest F) (s after : EngineState F)
      → IsLogged s
      → step routers request s ≡ ok after
      → IsLogged after
  unfolding write_outputs record_result note_submission
  step-IsLogged routers request s after logged h =
      let (result, executed, done, e) = step-eq-ok routers request s after h in
      let decided = emit_decision s.outputs.decision_log_path (to_dict result) s.outputs.files in
      let same =
        log_lines-emit_decision s.outputs.decision_log_path (to_dict result) s.outputs.files
          logged.apart in
      let (scheduled, hits, _) = emit_result-lengths log_dir result decided in
      let longer = length-append s.metrics.results (result ∷ []) in
      let filtered = length-filter-snoc (λ r. is_hit r) result s.metrics.results in
      subst IsLogged e (record {
        apart = logged.apart;
        mirrored =
            emit_result-IsMirrored log_dir result decided
              (IsMirrored-same s.outputs.files decided same logged.mirrored);
        scheduled =
            omega (arith, scheduled, longer, logged.scheduled, ap length (same scheduler_log));
        hits = omega (arith, hits, filtered, logged.hits, ap length (same cache_log));
        stored =
            stored_rows s.outputs.config_name result s.outputs.store (length s.metrics.results)
              logged.stored
            ∙ ap
                (λ n.
                  if (write_result s.outputs.config_name result s.outputs.store).enabled
                  then n
                  else 0)
                (sym longer);
      })

  -- Where the copy of each log has the log's lines, the scheduler's log has a line for each result
  -- and the cache's one for each hit, and an enabled database has a row for each result, it is so
  -- again after a run that does not raise. Condition: the decision log is none of those files.
  pub run_requests-IsLogged :
      (routers : Routers F) (requests : List (InferenceRequest F)) (s after : EngineState F)
      → IsLogged s
      → run_requests routers requests s ≡ ok after
      → IsLogged after
  unfolding run_requests
  run_requests-IsLogged routers [] s after logged h = subst IsLogged (ok-injective s after h) logged
  run_requests-IsLogged routers (request ∷ requests) s after logged h =
      let (mid, first, rest) = >>=-eq-ok (step routers request s) _ h in
      run_requests-IsLogged routers requests mid after
        (step-IsLogged routers request s mid logged first) rest
