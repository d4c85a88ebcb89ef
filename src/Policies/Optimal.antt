-- ===== src/Policies/Optimal.antt =====
-- policies/: what the policies minimise.
use nimbus_mesh_x.Base.{
  ℕ, ◌≡◌, refl, subst, arith, Bool, true, false, List, [], ◌∷◌, All, if◌then◌else◌, ok,
  ok-injective, string_eq, pair_eq, nat_eq,
}
use nimbus_mesh_x.Base.Dict.{Dict}
use nimbus_mesh_x.Float.{Float, ◌<?◌}
use nimbus_mesh_x.Float.Laws.{IsFloat, le_refl}
use nimbus_mesh_x.Types.{InferenceRequest, CandidatePlacement}
use nimbus_mesh_x.Policies.{
  Policy, round_robin, least_queue, topology_greedy, cache_aware, multi_objective, spread,
  contextual_bandit, sb3_placeholder, gnn_placeholder, pyg_placeholder, least_queue_key,
  topology_greedy_key, cache_aware_key, multi_objective_key, sb3_key, gnn_key, pyg_key,
  available_candidates, least, min_by, tuple_lt, PoolKey, spread_lt, bandit_score, prefers,
  choose_best, choose,
}

-- `less` is the strict part of a total order of keys: `not (less y x)` is transitive.
pub record IsStrict {A : Type 0} (less : A → A → Bool) : Type 0 where
  pub irrefl : (x : A) → less x x ≡ false
  pub asym : (x y : A) → less x y ≡ true → less y x ≡ false
  pub trans : (x y z : A) → less y x ≡ false → less z y ≡ false → less z x ≡ false

module _ {A : Type 0} {less : A → A → Bool} (strict : IsStrict less) where
  open strict use {irrefl, asym, trans}

  -- Nothing is less than the first least element.
  least-least :
      (best : A) (xs : List A)
      → (less best (least less best xs) ≡ false) × All (λ x. less x (least less best xs) ≡ false) xs
  unfolding least
  least-least best [] = (irrefl best, tt)
  least-least best (x ∷ xs) =
      let next = if less x best then x else best in
      let (here, rest) = least-least next xs in
      (
        trans _ next best here (ground (arith, irrefl best, asym x best)),
        (trans _ next x here (ground (arith, irrefl x)), rest),
      )

module _ {F : Type 0} ⦃f : Float F⦄ (laws : IsFloat F) where
  open laws use {le_trans, le_total}

  tuple_lt_irrefl : (xs : List F) → tuple_lt xs xs ≡ false
  unfolding tuple_lt
  tuple_lt_irrefl [] = refl
  tuple_lt_irrefl (x ∷ xs) = ground (arith, le_refl laws x, tuple_lt_irrefl xs)

  tuple_lt_asym : (xs ys : List F) → tuple_lt xs ys ≡ true → tuple_lt ys xs ≡ false
  unfolding tuple_lt
  tuple_lt_asym [] [] h = cc
  tuple_lt_asym [] (y ∷ ys) h = refl
  tuple_lt_asym (x ∷ xs) [] h = cc
  tuple_lt_asym (x ∷ xs) (y ∷ ys) h = ground (arith, le_total x y, tuple_lt_asym xs ys)

  tuple_lt_trans :
      (xs ys zs : List F) → tuple_lt ys xs ≡ false → tuple_lt zs ys ≡ false → tuple_lt zs xs ≡ false
  unfolding tuple_lt
  tuple_lt_trans [] [] zs h k = k
  tuple_lt_trans [] (y ∷ ys) [] h k = refl
  tuple_lt_trans [] (y ∷ ys) (z ∷ zs) h k = refl
  tuple_lt_trans (x ∷ xs) [] zs h k = cc
  tuple_lt_trans (x ∷ xs) (y ∷ ys) [] h k = cc
  tuple_lt_trans (x ∷ xs) (y ∷ ys) (z ∷ zs) h k = ground (
    arith,
    le_total x y,
    le_total y z,
    le_total x z,
    le_trans x y z,
    le_trans z y x,
    le_trans y z x,
    le_trans x z y,
    le_trans y x z,
    le_trans z x y,
    tuple_lt_trans xs ys zs,
  )

  -- Comparing by a tuple of floats is strict.
  tuple-IsStrict : {A : Type 0} (key : A → List F) → IsStrict (λ x y. tuple_lt (key x) (key y))
  tuple-IsStrict key = record {
    irrefl = λ x. tuple_lt_irrefl (key x);
    asym = λ x y. tuple_lt_asym (key x) (key y);
    trans = λ x y z. tuple_lt_trans (key x) (key y) (key z);
  }

  spread-IsStrict : (counts : Dict PoolKey ℕ) → IsStrict (spread_lt {F = F} counts)
  unfolding spread_lt
  spread-IsStrict counts = record {
    irrefl = λ x. ground (arith, tuple_lt_irrefl (late x));
    asym = λ x y. ground (arith, tuple_lt_asym (late x) (late y));
    trans = λ x y z. ground (arith, tuple_lt_trans (late x) (late y) (late z));
  }
    where
      late : CandidatePlacement F → List F
      late c = c.queue_delay_ms ∷ c.network_cost ∷ []

  bandit-IsStrict :
      (bonus : F) (counts : Dict PoolKey ℕ) (value : Dict PoolKey F)
      → IsStrict (λ (x y : CandidatePlacement F).
        bandit_score bonus counts value y <? bandit_score bonus counts value x)
  bandit-IsStrict bonus counts value = record {
    irrefl = λ x. ground (arith, le_refl laws (bandit_score bonus counts value x));
    asym = λ x y.
        ground
          (arith, le_total (bandit_score bonus counts value x) (bandit_score bonus counts value y));
    trans = λ x y z. ground (
      arith,
      le_trans (bandit_score bonus counts value z) (bandit_score bonus counts value y)
          (bandit_score bonus counts value x),
    );
  }

  -- The preference of every policy is the strict part of a total order.
  prefers-IsStrict :
      (policy : Policy F) (request : InferenceRequest F) → IsStrict (prefers policy request)
  unfolding prefers
  prefers-IsStrict (round_robin n) request = record {
    irrefl = λ x. refl;
    asym = λ x y h. cc;
    trans = λ x y z h k. refl;
  }
  prefers-IsStrict least_queue request = tuple-IsStrict least_queue_key
  prefers-IsStrict topology_greedy request = tuple-IsStrict topology_greedy_key
  prefers-IsStrict cache_aware request = tuple-IsStrict cache_aware_key
  prefers-IsStrict multi_objective request = tuple-IsStrict (multi_objective_key request)
  prefers-IsStrict (spread counts) request = spread-IsStrict counts
  prefers-IsStrict (contextual_bandit bonus counts value) request =
      bandit-IsStrict bonus counts value
  prefers-IsStrict sb3_placeholder request = tuple-IsStrict sb3_key
  prefers-IsStrict gnn_placeholder request = tuple-IsStrict gnn_key
  prefers-IsStrict pyg_placeholder request = tuple-IsStrict pyg_key

  min_by-least :
      (policy : Policy F) (request : InferenceRequest F) (usable : List (CandidatePlacement F))
      (choice : CandidatePlacement F)
      → min_by (prefers policy request) usable ≡ ok choice
      → All (λ c. prefers policy request c choice ≡ false) usable
  unfolding min_by
  min_by-least policy request [] choice h = tt
  min_by-least policy request (x ∷ xs) choice h =
      subst (λ c. All (λ d. prefers policy request d c ≡ false) (x ∷ xs)) (ok-injective _ choice h)
        (least-least (prefers-IsStrict policy request) x xs)

  min_by_of_choose_best :
      (policy after : Policy F) (request : InferenceRequest F)
      (usable : List (CandidatePlacement F)) (choice : CandidatePlacement F)
      → choose_best policy request usable ≡ ok (choice, after)
      → min_by (prefers policy request) usable ≡ ok choice
  unfolding choose_best
  min_by_of_choose_best policy after request usable choice h = ground arith

  -- No candidate that a policy looks at (the available ones if there are any, or else all) is
  -- preferred to its choice, by the policy's own order; round robin prefers none.
  pub choose-optimal :
      (policy after : Policy F) (request : InferenceRequest F)
      (candidates : List (CandidatePlacement F)) (choice : CandidatePlacement F)
      → choose policy request candidates ≡ ok (choice, after)
      → All (λ c. prefers policy request c choice ≡ false) (available_candidates candidates)
  unfolding choose
  choose-optimal (round_robin n) after request candidates choice h =
      all_false (available_candidates candidates)
    where
      all_false :
          (cs : List (CandidatePlacement F))
          → All (λ c. prefers (round_robin n) request c choice ≡ false) cs
      all_false [] = tt
      all_false (c ∷ cs) = (unfold prefers in refl, all_false cs)
  choose-optimal policy after request candidates choice h =
      min_by-least policy request (available_candidates candidates) choice
        (min_by_of_choose_best policy after request (available_candidates candidates) choice h)
