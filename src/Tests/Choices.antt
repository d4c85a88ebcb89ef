-- ===== src/Tests/Choices.antt =====
-- What the policies choose from two candidates, of which one is down.
use nimbus_mesh_x.Base.Dict.{lookup, get_or, insert, delete, Dict}
use nimbus_mesh_x.Base.Sort.{insert_sorted, sort}
use nimbus_mesh_x.Float.{max, min, sum, minimum}
use nimbus_mesh_x.Types.{
  sla_priority, sla_text, normalize_sla_class, model_scale, estimate_request_memory_gb,
  estimated_total_latency_ms, CandidatePlacement,
}
use nimbus_mesh_x.Policies.{
  available_candidates, least, min_by, tuple_lt, least_queue_key, topology_greedy_key,
  cache_aware_key, latency_weight, cost_weight, premium_penalty, multi_objective_key, sb3_key,
  gnn_key, pyg_key, spread_lt, bandit_score, prefers, note_choice, choose_in_turn, choose_best,
  choose, reward, observe_result, policy_name, PoolKey, round_robin, least_queue, spread,
}
use nimbus_mesh_x.Base.{
  ℕ, string_eq, pair_eq, ◌≡◌, ◌<◌, ◌+◌, refl, arith, List, [], ◌∷◌, length, get_elem?, All, inl,
  inr, true, false, ok, some,
}
use nimbus_mesh_x.Base.Int.{ℤ, ◌+ℤ◌, ◌-ℤ◌}
use nimbus_mesh_x.Float.Fixed.{fixed_float, Fixed-IsFloat}
use nimbus_mesh_x.Policies.Optimal.{choose-optimal}
use nimbus_mesh_x.Policies.Members.{choose_available}
use nimbus_mesh_x.Policies.Fair.{round_robin_fair, spread_returns}
use nimbus_mesh_x.Tests.Data.{request, candidate, down, result}

abbrev candidates : List (CandidatePlacement ℤ)
candidates = down ∷ candidate ∷ []

chosen : choose least_queue request candidates ≡ ok (candidate, least_queue)
unfolding ◌+ℤ◌ ◌-ℤ◌ lookup get_or insert delete insert_sorted sort max min sum minimum sla_priority
    sla_text normalize_sla_class model_scale estimate_request_memory_gb estimated_total_latency_ms
    available_candidates least min_by tuple_lt least_queue_key topology_greedy_key cache_aware_key
    latency_weight cost_weight premium_penalty multi_objective_key sb3_key gnn_key pyg_key spread_lt
    bandit_score prefers note_choice choose_in_turn choose_best choose reward observe_result
    policy_name
chosen = refl

choose-optimal_example :
    All (λ c. prefers least_queue request c candidate ≡ false) (available_candidates candidates)
choose-optimal_example =
    choose-optimal Fixed-IsFloat least_queue least_queue request candidates candidate chosen

choose_available_example : candidate.available ≡ true
choose_available_example =
    choose_available least_queue least_queue request candidates candidate candidate (inr (inl refl))
      refl chosen

one_up : 0 < length (available_candidates candidates)
unfolding available_candidates
one_up = omega arith

first_up : get_elem? (available_candidates candidates) 0 ≡ some candidate
unfolding available_candidates
first_up = refl

round_robin_fair_example :
    (k : ℕ) × (k < length (available_candidates candidates))
    × (choose (round_robin (7 + k)) request candidates ≡ ok (candidate, round_robin (7 + k + 1)))
round_robin_fair_example = round_robin_fair 7 0 request candidates candidate one_up first_up

spread_returns_example :
    (after : Dict PoolKey ℕ) × (observe_result result (note_choice candidate (spread []))
      ≡ spread after)
    × (get_or ("east", "pool-a") 0 after ≡ get_or {K = PoolKey} ("east", "pool-a") 0 [])
spread_returns_example = spread_returns [] candidate result ("east", "pool-a") refl
