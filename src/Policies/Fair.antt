-- ===== src/Policies/Fair.antt =====
-- policies/heuristics/simple.py: RoundRobinPolicy takes every candidate in its turn, and the counts of
-- FailureAwareSpreadPolicy.
use nimbus_mesh_x.Base.{
  ℕ, ◌+◌, ◌-◌, ◌%◌, ◌<◌, ◌≡◌, refl, sym, ap, subst, ◌∙◌, arith, List, [], ◌∷◌, length, get_elem?,
  some, true, is_nonempty, Bool-cases, inl, inr, if_true, if_false, Eq, eq_of_beq, ok, or_raise,
  index_error, ◌>>=◌, ◌==◌, string_eq, pair_eq, beq_refl,
}
use native.Mathlib.Nat.{mod-lt, mod-eq_of_lt, add-mod_right, add-mod-mod, mod-add-mod}
use nimbus_mesh_x.Base.Dict.{Dict, get_or, insert, get_or-insert}
use nimbus_mesh_x.Float.{Float}
use nimbus_mesh_x.Types.{InferenceRequest, CandidatePlacement, RequestResult}
use nimbus_mesh_x.Policies.{
  PoolKey, pool_key, result_key, Policy, round_robin, spread, available_candidates, choose_in_turn,
  choose, note_choice, observe_result,
}

-- How many steps after `c` the number `i` comes round.
abbrev steps_to : ℕ → ℕ → ℕ → ℕ
steps_to n c i = (i + (n - c % n)) % n

turn_comes : (n c i : ℕ) → i < n → (c + steps_to n c i) % n ≡ i
turn_comes n c i h =
    let rest = i + (n - c % n) in
    let below : c % n < n = mod-lt c (omega arith) in
    let whole : c % n + rest ≡ i + n = omega (arith, below) in
    add-mod-mod c rest n
    ∙ sym (mod-add-mod c n rest)
    ∙ ap (λ x. x % n) whole
    ∙ add-mod_right i n
    ∙ mod-eq_of_lt h

-- To count one up and then one down reads as before.
count_back :
    {K : Type 0} ⦃e : Eq K⦄ (j k : K) (d : Dict K ℕ)
    → let up = insert k (get_or k 0 d + 1) d in
      get_or j 0 (insert k (get_or k 0 up - 1) up) ≡ get_or j 0 d
count_back ⦃e⦄ j k d =
    let up = insert k (get_or k 0 d + 1) d in
    let own : get_or k 0 up ≡ get_or k 0 d + 1 =
      get_or-insert k k _ 0 d ∙ if_true _ _ _ (beq_refl k) in
    let gone : get_or k 0 d + 1 - 1 ≡ get_or k 0 d = omega arith in
    elim (Bool-cases (j == k)) [
      | inl same ↦
          get_or-insert j k _ 0 up
          ∙ if_true _ _ _ same
          ∙ ap (λ n. n - 1) own
          ∙ gone
          ∙ sym (ap (λ i. get_or i 0 d) (eq_of_beq j k same))
      | inr other ↦
          get_or-insert j k _ 0 up
          ∙ if_false _ _ _ other
          ∙ get_or-insert j k _ 0 d
          ∙ if_false _ _ _ other
    ]

module _ {F : Type 0} ⦃f : Float F⦄ where
  -- From any cursor, each of the candidates that round robin looks at is chosen within as many
  -- calls with those candidates as there are of them.
  pub round_robin_fair :
      (cursor i : ℕ) (request : InferenceRequest F) (candidates : List (CandidatePlacement F))
      (c : CandidatePlacement F)
      → i < length (available_candidates candidates)
      → get_elem? (available_candidates candidates) i ≡ some c
      → (k : ℕ) × (k < length (available_candidates candidates))
        × (choose (round_robin (cursor + k)) request candidates
            ≡ ok (c, round_robin (cursor + k + 1)))
  unfolding choose choose_in_turn
  round_robin_fair cursor i request candidates c h found =
      let usable = available_candidates candidates in
      let k = steps_to (length usable) cursor i in
      let here = turn_comes (length usable) cursor i h in
      (
        k,
        mod-lt (i + (length usable - cursor % length usable)) (omega arith),
        if_true (is_nonempty usable) _ _ (nonempty usable h)
            ∙ ap
                (λ j.
                  ◌>>=◌ {W = CandidatePlacement F × Policy F}
                    (or_raise (get_elem? usable j) index_error)
                    (λ d. ok (d, round_robin (cursor + k + 1))))
                here
            ∙ ap
                (λ o.
                  ◌>>=◌ {W = CandidatePlacement F × Policy F} (or_raise o index_error)
                    (λ d. ok (d, round_robin (cursor + k + 1))))
                found,
      )
    where
      nonempty : (xs : List (CandidatePlacement F)) → i < length xs → is_nonempty xs ≡ true
      nonempty [] small = absurd (omega arith)
      nonempty (x ∷ xs) small = refl

  -- When the spread policy observes the result of its own choice, its count of every pool is again
  -- what it was before the choice.
  pub spread_returns :
      (counts : Dict PoolKey ℕ) (choice : CandidatePlacement F) (result : RequestResult F)
      (key : PoolKey)
      → result_key result ≡ pool_key choice
      → (after : Dict PoolKey ℕ) × (observe_result result (note_choice choice (spread counts))
          ≡ spread after)
        × (get_or key 0 after ≡ get_or key 0 counts)
  unfolding observe_result note_choice
  spread_returns counts choice result key same = (
    _,
    refl,
    subst
        (λ k.
          get_or key 0 (
            insert k
              (get_or k 0 (insert (pool_key choice) (get_or (pool_key choice) 0 counts + 1) counts)
                - 1)
              (insert (pool_key choice) (get_or (pool_key choice) 0 counts + 1) counts))
          ≡ get_or key 0 counts)
        (sym same) (count_back key (pool_key choice) counts),
  )
