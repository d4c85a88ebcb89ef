-- ===== src/Policies/Kinds.antt =====
-- policies/heuristics/simple.py, policies/rl/ and policies/gnn/: the keys of the policies, and the
-- methods `choose` and `observe_result`.
use nimbus_mesh_x.Base.{
  ℕ, ◌+◌, ◌-◌, ◌%◌, String, string_eq, pair_eq, nat_eq, Bool, true, false, ◌&&◌, ◌||◌, ltb, ◌==◌,
  List, [], ◌∷◌, length, get_elem?, if◌then◌else◌, Result, ok, err, zero_division_error,
  index_error, or_raise, ◌>>=◌, is_nonempty,
}
use nimbus_mesh_x.Base.Dict.{Dict, get_or, insert}
use nimbus_mesh_x.Float.{Float, ◌⊕◌, ◌⊖◌, ◌⊗◌, ◌⊘◌, ◌<?◌, negate, of_ℕ, decimal}
use nimbus_mesh_x.Types.{
  SlaClass, realtime, interactive, best_effort, InferenceRequest, CandidatePlacement, RequestResult,
  estimated_total_latency_ms,
}
use nimbus_mesh_x.Policies.Choice.{available_candidates, min_by, tuple_lt}

-- (cluster_id, pool_id)
abbrev pub PoolKey : Type 0
PoolKey = String × String

pub data Policy (F : Type 0) : Type 0 where
  -- `_cursor`
  round_robin : ℕ → Policy F
  least_queue : Policy F
  topology_greedy : Policy F
  cache_aware : Policy F
  multi_objective : Policy F
  -- `_pool_counts`
  spread : Dict PoolKey ℕ → Policy F
  -- `exploration_bonus`, `counts`, `value`
  contextual_bandit : F → Dict PoolKey ℕ → Dict PoolKey F → Policy F
  sb3_placeholder : Policy F
  gnn_placeholder : Policy F
  pyg_placeholder : Policy F

module _ {F : Type 0} ⦃f : Float F⦄ where
  abbrev pub pool_key : CandidatePlacement F → PoolKey
  pool_key c = (c.cluster_id, c.pool_id)

  -- LeastQueuePolicy
  unfoldable pub least_queue_key : CandidatePlacement F → List F
  least_queue_key c = c.queue_delay_ms ∷ c.network_cost ∷ c.accelerator_cost_per_1m_tokens ∷ []

  -- TopologyGreedyPolicy
  unfoldable pub topology_greedy_key : CandidatePlacement F → List F
  topology_greedy_key c =
      let objective =
        c.queue_delay_ms
        ⊕ c.network_cost ⊗ of_ℕ 14
        ⊖ c.topology_affinity ⊗ of_ℕ 110
        ⊕ c.congestion_score ⊗ of_ℕ 80 in
      objective ∷ []

  -- CacheAwarePolicy
  unfoldable pub cache_aware_key : CandidatePlacement F → List F
  cache_aware_key c =
      negate (c.expected_cache_hit_ratio ⊗ of_ℕ 1000)
      ∷ c.queue_delay_ms
      ∷ c.network_cost
      ∷ c.accelerator_cost_per_1m_tokens
      ∷ []

  unfoldable pub latency_weight : SlaClass → F
  latency_weight realtime = decimal 14 1
  latency_weight interactive = decimal 11 1
  latency_weight best_effort = decimal 75 2

  unfoldable pub cost_weight : SlaClass → F
  cost_weight realtime = decimal 25 2
  cost_weight _ = decimal 55 2

  unfoldable pub premium_penalty : SlaClass → Bool → F
  premium_penalty best_effort true = of_ℕ 70
  premium_penalty realtime false = of_ℕ 25
  premium_penalty _ _ = of_ℕ 0

  -- MultiObjectivePolicy
  unfoldable pub multi_objective_key : InferenceRequest F → CandidatePlacement F → List F
  multi_objective_key request c =
      let objective =
        estimated_total_latency_ms c ⊗ latency_weight request.sla_class
        ⊕ c.network_cost ⊗ of_ℕ 18
        ⊕ c.accelerator_cost_per_1m_tokens ⊗ cost_weight request.sla_class
        ⊕ c.congestion_score ⊗ of_ℕ 90
        ⊖ c.expected_cache_hit_ratio ⊗ of_ℕ 450
        ⊖ c.topology_affinity ⊗ of_ℕ 85
        ⊕ c.fairness_penalty ⊗ of_ℕ 110
        ⊖ get_or "cuda_cache_bonus" (of_ℕ 0) c.score_breakdown ⊗ of_ℕ 70
        ⊕ get_or "cuda_topology_penalty" (of_ℕ 0) c.score_breakdown ⊗ of_ℕ 65
        ⊕ get_or "cuda_load_penalty" (of_ℕ 0) c.score_breakdown ⊗ of_ℕ 55
        ⊕ premium_penalty request.sla_class c.premium in
      objective ∷ []

  -- SB3Policy, GNNPlaceholderPolicy and PyGGNNPolicy
  unfoldable pub sb3_key : CandidatePlacement F → List F
  sb3_key c = estimated_total_latency_ms c ∷ []

  unfoldable pub gnn_key : CandidatePlacement F → List F
  gnn_key c =
      let objective =
        estimated_total_latency_ms c
        ⊖ c.expected_cache_hit_ratio ⊗ of_ℕ 300
        ⊖ c.topology_affinity ⊗ of_ℕ 75 in
      objective ∷ []

  unfoldable pub pyg_key : CandidatePlacement F → List F
  pyg_key c =
      let objective =
        estimated_total_latency_ms c
        ⊖ c.topology_affinity ⊗ of_ℕ 120
        ⊖ c.expected_cache_hit_ratio ⊗ of_ℕ 320 in
      objective ∷ []

  -- the key of FailureAwareSpreadPolicy is below
  unfoldable pub spread_lt : Dict PoolKey ℕ → CandidatePlacement F → CandidatePlacement F → Bool
  spread_lt counts x y =
      let m = get_or (pool_key x) 0 counts in
      let n = get_or (pool_key y) 0 counts in
      ltb m n
      || m == n
        && tuple_lt (x.queue_delay_ms ∷ x.network_cost ∷ [])
            (y.queue_delay_ms ∷ y.network_cost ∷ [])

  -- `bandit_score`
  unfoldable pub bandit_score : F → Dict PoolKey ℕ → Dict PoolKey F → CandidatePlacement F → F
  bandit_score bonus counts value c =
      let mean_reward = get_or (pool_key c) (of_ℕ 0) value in
      let exploration = bonus ⊘ of_ℕ (1 + get_or (pool_key c) 0 counts) in
      let heuristic_hint =
        c.expected_cache_hit_ratio ⊗ of_ℕ 120
        ⊕ c.topology_affinity ⊗ of_ℕ 60
        ⊖ c.queue_delay_ms ⊗ decimal 8 2
        ⊖ c.accelerator_cost_per_1m_tokens ⊗ decimal 8 2 in
      mean_reward ⊕ heuristic_hint ⊕ exploration

  -- The key of `x` is before that of `y`: what `choose` looks for the first least of.
  unfoldable pub prefers :
      Policy F → InferenceRequest F → CandidatePlacement F → CandidatePlacement F → Bool
  prefers (round_robin cursor) request x y = false
  prefers least_queue request x y = tuple_lt (least_queue_key x) (least_queue_key y)
  prefers topology_greedy request x y = tuple_lt (topology_greedy_key x) (topology_greedy_key y)
  prefers cache_aware request x y = tuple_lt (cache_aware_key x) (cache_aware_key y)
  prefers multi_objective request x y =
      tuple_lt (multi_objective_key request x) (multi_objective_key request y)
  prefers (spread counts) request x y = spread_lt counts x y
  prefers (contextual_bandit bonus counts value) request x y =
      bandit_score bonus counts value y <? bandit_score bonus counts value x
  prefers sb3_placeholder request x y = tuple_lt (sb3_key x) (sb3_key y)
  prefers gnn_placeholder request x y = tuple_lt (gnn_key x) (gnn_key y)
  prefers pyg_placeholder request x y = tuple_lt (pyg_key x) (pyg_key y)

  -- What a policy notes of its own choice.
  unfoldable pub note_choice : CandidatePlacement F → Policy F → Policy F
  note_choice choice (spread counts) =
      spread (insert (pool_key choice) (get_or (pool_key choice) 0 counts + 1) counts)
  note_choice choice policy = policy

  -- RoundRobinPolicy.choose
  unfoldable pub choose_in_turn :
      ℕ → List (CandidatePlacement F) → Result (CandidatePlacement F × Policy F)
  choose_in_turn cursor usable =
      if is_nonempty usable
      then (or_raise (get_elem? usable (cursor % length usable)) index_error >>= λ choice.
          ok (choice, round_robin (cursor + 1)))
      else err zero_division_error

  unfoldable pub choose_best :
      Policy F
      → InferenceRequest F
      → List (CandidatePlacement F)
      → Result (CandidatePlacement F × Policy F)
  choose_best policy request usable =
      min_by (prefers policy request) usable >>= λ choice. ok (choice, note_choice choice policy)

  unfoldable pub choose :
      Policy F
      → InferenceRequest F
      → List (CandidatePlacement F)
      → Result (CandidatePlacement F × Policy F)
  choose (round_robin cursor) request candidates =
      choose_in_turn cursor (available_candidates candidates)
  choose policy request candidates = choose_best policy request (available_candidates candidates)

  -- the reward of ContextualBanditPolicy.observe_result
  unfoldable pub reward : RequestResult F → F
  reward result =
      (if result.sla_met then decimal 10 1 else negate (decimal 9 1)) ⊗ of_ℕ 120
      ⊕ result.cache_hit_ratio ⊗ of_ℕ 60
      ⊖ result.total_latency_ms ⊗ decimal 8 2
      ⊖ result.cost_usd ⊗ of_ℕ 9

  abbrev pub result_key : RequestResult F → PoolKey
  result_key result = (result.decision.cluster_id, result.decision.pool_id)

  -- `max(0, counts[key] - 1)` is the truncated difference.
  unfoldable pub observe_result : RequestResult F → Policy F → Policy F
  observe_result result (spread counts) =
      let key = result_key result in spread (insert key (get_or key 0 counts - 1) counts)
  observe_result result (contextual_bandit bonus counts value) =
      let key = result_key result in
      let pulls = get_or key 0 counts + 1 in
      let alpha = of_ℕ 1 ⊘ of_ℕ pulls in
      let mean = (of_ℕ 1 ⊖ alpha) ⊗ get_or key (of_ℕ 0) value ⊕ alpha ⊗ reward result in
      contextual_bandit bonus (insert key pulls counts) (insert key mean value)
  observe_result result policy = policy

  -- the attribute `name`
  unfoldable pub policy_name : Policy F → String
  policy_name (round_robin cursor) = "round_robin"
  policy_name least_queue = "least_queue"
  policy_name topology_greedy = "topology_greedy"
  policy_name cache_aware = "cache_aware"
  policy_name multi_objective = "multi_objective"
  policy_name (spread counts) = "spread"
  policy_name (contextual_bandit bonus counts value) = "contextual_bandit"
  policy_name sb3_placeholder = "sb3_placeholder"
  policy_name gnn_placeholder = "gnn_placeholder"
  policy_name pyg_placeholder = "pyg_placeholder"
