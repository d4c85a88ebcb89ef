-- ===== src/Scheduler/Placing.antt =====
-- cluster_scheduler/local_scheduler.py: the slot that is taken, and what a placement does to the pool.
use nimbus_mesh_x.Base.{
  ℕ, zero, suc, ◌+◌, ◌<◌, ◌≡◌, refl, sym, ap, subst, arith, List, [], ◌∷◌, ◌++◌, get_or, set,
  length, length-set, All, true, Bool-cases, inl, inr, ◌⊎◌, ok, ok-injective,
}
use nimbus_mesh_x.Float.{Float, ◌≼◌, ◌<?◌, of_ℕ, max}
use nimbus_mesh_x.Float.Laws.{
  IsFloat, le_refl, le_of_lt, le_of_not_lt, le-max, max-le, le-plus, plus_nonneg,
}
use nimbus_mesh_x.Types.{
  InferenceRequest, PoolRuntime, CandidatePlacement, RoutingDecision, RequestResult,
}
use nimbus_mesh_x.Cache.{Directory, observe}
use nimbus_mesh_x.Backends.{Backend}
use nimbus_mesh_x.Backends.Bounds.{estimate_latency_nonneg}
use nimbus_mesh_x.Scheduler.{
  Placed, argmin, earliest_index, start_ts, occupy, latency_of, memory_of, completion_of,
  placed_result, place_request,
}

module _ {F : Type 0} where
  get_or-set_self : (xs : List F) (i : ℕ) (v d : F) → i < length xs → get_or (set xs i v) i d ≡ v
  get_or-set_self [] i v d h = absurd (omega arith)
  get_or-set_self (x ∷ xs) zero v d h = refl
  get_or-set_self (x ∷ xs) (suc i) v d h = get_or-set_self xs i v d (omega arith)

module _ {F : Type 0} ⦃f : Float F⦄ (laws : IsFloat F) where
  open laws use {le_trans, over_nonneg, decimal_pos}

  -- Where the least of `x` and `ys` is found.
  abbrev Least : F → F → ℕ → ℕ → List F → ℕ → Type 0
  Least d x best next ys r =
      (r ≡ best) × All (λ y. x ≼ y) ys
      ⊎ ((j : ℕ) × (r ≡ next + j)
          × (j < length ys)
          × (get_or ys j d ≼ x)
          × All (λ y. get_or ys j d ≼ y) ys)

  All-trans : (x y : F) (zs : List F) → x ≼ y → All (λ z. y ≼ z) zs → All (λ z. x ≼ z) zs
  All-trans x y [] h k = tt
  All-trans x y (z ∷ zs) h k = (le_trans x y z h k.0, All-trans x y zs h k.1)

  argmin-Least :
      (d x : F) (best next : ℕ) (ys : List F) → Least d x best next ys (argmin x best next ys)
  unfolding argmin
  argmin-Least d x best next [] = inl (refl, tt)
  argmin-Least d x best next (y ∷ ys) = elim (Bool-cases (y <? x)) [
    | inl less ↦ rw less (elim (argmin-Least d y next (suc next) ys) [
      | inl (here, low) ↦
          inr (0, omega (arith, here), omega arith, le_of_lt laws y x less, (le_refl laws y, low))
      | inr (j, there, small, low, rest) ↦ inr (
        suc j,
        omega (arith, there),
        omega arith,
        le_trans _ _ _ low (le_of_lt laws y x less),
        (low, rest),
      )
    ])
    | inr other ↦ rw other (elim (argmin-Least d x best (suc next) ys) [
      | inl (here, low) ↦ inl (here, (le_of_not_lt laws y x other, low))
      | inr (j, there, small, low, rest) ↦ inr (
        suc j,
        omega (arith, there),
        omega arith,
        low,
        (le_trans _ _ _ low (le_of_not_lt laws y x other), rest),
      )
    ])
  ]

  abbrev IsLeast : F → List F → ℕ → Type 0
  IsLeast d slots i = (i < length slots) × All (λ s. get_or slots i d ≼ s) slots

  slot-IsLeast : (d x : F) (ys : List F) (i : ℕ) → Least d x 0 1 ys i → IsLeast d (x ∷ ys) i
  slot-IsLeast d x ys i (inl (here, low)) =
      subst (IsLeast d (x ∷ ys)) (sym here) (omega arith, (le_refl laws x, low))
  slot-IsLeast d x ys i (inr (j, there, small, low, rest)) =
      let shift : suc j ≡ i = omega arith in
      subst (IsLeast d (x ∷ ys)) shift (omega arith, (low, rest))

  -- The index of the slot that is taken is in range, and no slot is free before it.
  pub earliest_index-least :
      (slots : List F) (i : ℕ) (d : F)
      → earliest_index slots ≡ ok i
      → (i < length slots) × All (λ s. get_or slots i d ≼ s) slots
  unfolding earliest_index
  earliest_index-least [] i d h = cc
  earliest_index-least (x ∷ ys) i d h =
      slot-IsLeast d x ys i
        (subst (Least d x 0 1 ys) (ok-injective _ i h) (argmin-Least d x 0 1 ys))

  max_mono_right : (now x y : F) → x ≼ y → max now x ≼ max now y
  max_mono_right now x y h =
      max-le laws now x (max now y) (le-max laws now y).0 (le_trans _ _ _ h (le-max laws now y).1)

  All-max : (now x : F) (ys : List F) → All (λ y. x ≼ y) ys → All (λ y. max now x ≼ max now y) ys
  All-max now x [] h = tt
  All-max now x (y ∷ ys) h = (max_mono_right now x y h.0, All-max now x ys h.1)

  -- A write of what is not less leaves no element less than it was.
  grows-set :
      (xs : List F) (i j : ℕ) (v d : F)
      → get_or xs i d ≼ v
      → get_or xs j d ≼ get_or (set xs i v) j d
  grows-set [] i j v d h = le_refl laws d
  grows-set (x ∷ xs) zero zero v d h = h
  grows-set (x ∷ xs) zero (suc j) v d h = le_refl laws (get_or xs j d)
  grows-set (x ∷ xs) (suc i) zero v d h = le_refl laws x
  grows-set (x ∷ xs) (suc i) (suc j) v d h = grows-set xs i j v d h

  completion_late :
      (start : F) (latency : F × F)
      → of_ℕ 0 ≼ latency.0
      → of_ℕ 0 ≼ latency.1
      → start ≼ completion_of start latency
  unfolding completion_of
  completion_late start latency p q =
      le-plus laws start _ (
        over_nonneg _ _ (plus_nonneg laws _ _ p q) (decimal_pos 1000 0 (omega arith) (omega arith)))

  module _ (request : InferenceRequest F) (candidate : CandidatePlacement F)
      (decision : RoutingDecision F) (pool : PoolRuntime F) (backend : Backend) (now : F)
      (directory : Directory F) where
    start_in : ℕ → F
    start_in slot = start_ts now (get_or pool.slot_available_at slot now)

    result_in : ℕ → RequestResult F
    unfolding start_in
    result_in slot =
        placed_result request candidate decision pool now (start_in slot)
          (latency_of backend request candidate pool)

    -- What a placement that does not raise consists of.
    place_request-eq-ok :
        (placed : Placed F)
        → place_request request candidate decision pool backend now directory ≡ ok placed
        → (slot : ℕ) × (earliest_index pool.slot_available_at ≡ ok slot)
          × (placed.result ≡ result_in slot)
          × (placed.pool
              ≡ occupy slot (result_in slot).completion_ts (memory_of request candidate) pool)
          × (observe (result_in slot) directory ≡ ok placed.directory)
    unfolding place_request result_in
    place_request-eq-ok placed h = ground arith

    completion_after :
        (slot : ℕ)
        → of_ℕ 0 ≼ candidate.network_cost
        → of_ℕ 0 ≼ candidate.congestion_score
        → start_in slot ≼ (result_in slot).completion_ts
    unfolding result_in placed_result latency_of
    completion_after slot network congestion =
        let (prefill, decode) =
          estimate_latency_nonneg laws backend request pool candidate.expected_cache_hit_ratio
            candidate.topology_affinity candidate.network_cost candidate.congestion_score network
            congestion in
        completion_late (start_in slot) _ prefill decode

    -- A placed request is admitted and starts no earlier than `now`, and no slot of the pool would
    -- let it start earlier; it completes no earlier than it starts. Condition: network cost and
    -- congestion of the candidate are not negative.
    pub place_request_starts :
        (placed : Placed F)
        → of_ℕ 0 ≼ candidate.network_cost
        → of_ℕ 0 ≼ candidate.congestion_score
        → place_request request candidate decision pool backend now directory ≡ ok placed
        → (placed.result.admitted ≡ true)
          × (now ≼ placed.result.actual_start_ts)
          × All (λ s. placed.result.actual_start_ts ≼ max now s) pool.slot_available_at
          × (placed.result.actual_start_ts ≼ placed.result.completion_ts)
    unfolding result_in start_in start_ts placed_result
    place_request_starts placed network congestion h =
        let (slot, found, result, _, _) = place_request-eq-ok placed h in
        let (_, least) = earliest_index-least pool.slot_available_at slot now found in
        let free = get_or pool.slot_available_at slot now in
        subst
          (λ r.
            (r.admitted ≡ true)
            × (now ≼ r.actual_start_ts)
            × All (λ s. r.actual_start_ts ≼ max now s) pool.slot_available_at
            × (r.actual_start_ts ≼ r.completion_ts))
          (sym result)
          (
            refl,
            (le-max laws now free).0,
            All-max now free pool.slot_available_at least,
            completion_after slot network congestion,
          )

    -- After a placement the pool has as many slots as before, of which none is free earlier; one
    -- more request is in flight, which ends at the result's completion; one decision more is
    -- counted. Condition: network cost and congestion of the candidate are not negative.
    pub place_request_pool :
        (placed : Placed F) (j : ℕ)
        → of_ℕ 0 ≼ candidate.network_cost
        → of_ℕ 0 ≼ candidate.congestion_score
        → place_request request candidate decision pool backend now directory ≡ ok placed
        → let after = placed.pool in
          (length after.slot_available_at ≡ length pool.slot_available_at)
          × (get_or pool.slot_available_at j now ≼ get_or after.slot_available_at j now)
          × (after.inflight_memory
              ≡ pool.inflight_memory
                ++ (placed.result.completion_ts, memory_of request candidate) ∷ [])
          × (after.decision_count ≡ pool.decision_count + 1)
    unfolding occupy
    place_request_pool placed j network congestion h =
        let (slot, found, result, occupied, _) = place_request-eq-ok placed h in
        let free = get_or pool.slot_available_at slot now in
        let later : free ≼ (result_in slot).completion_ts =
          le_trans free (start_in slot) _ (free_before slot)
            (completion_after slot network congestion) in
        subst
          (λ p.
            (length p.slot_available_at ≡ length pool.slot_available_at)
            × (get_or pool.slot_available_at j now ≼ get_or p.slot_available_at j now)
            × (p.inflight_memory
                ≡ pool.inflight_memory
                  ++ (placed.result.completion_ts, memory_of request candidate) ∷ [])
            × (p.decision_count ≡ pool.decision_count + 1))
          (sym occupied)
          (
            length-set pool.slot_available_at slot _,
            grows-set pool.slot_available_at slot j _ now later,
            ap
                (λ (r : RequestResult F).
                  pool.inflight_memory ++ (r.completion_ts, memory_of request candidate) ∷ [])
                (sym result),
            refl,
          )
      where
        free_before : (slot : ℕ) → get_or pool.slot_available_at slot now ≼ start_in slot
        free_before slot =
            unfold start_in start_ts in (le-max laws now (get_or pool.slot_available_at slot now)).1
