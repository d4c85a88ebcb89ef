-- ===== src/Policies/Members.antt =====
-- policies/: whom a policy chooses from.
use nimbus_mesh_x.Base.{
  ℕ, zero, suc, ◌+◌, ◌%◌, ◌<◌, ◌≡◌, refl, ◌∙◌, sym, ap, subst, arith, Bool, true, false, List, [],
  ◌∷◌, filter, length, get_elem?, Elem, Elem-filter, Elem-filter_of_test, All, All-filter,
  All_of_Elem, is_nonempty, Bool-cases, inl, inr, ◌⊎◌, if◌then◌else◌, if_true, if_false, ok, ◌>>=◌,
  some, ok-injective, or_raise, index_error,
}
use native.Mathlib.Nat.{mod-lt}
use nimbus_mesh_x.Float.{Float}
use nimbus_mesh_x.Types.{InferenceRequest, CandidatePlacement}
use nimbus_mesh_x.Policies.{
  Policy, round_robin, available_candidates, least, min_by, prefers, choose_in_turn, choose_best,
  choose,
}

module _ {A : Type 0} where
  least-Elem :
      (less : A → A → Bool) (best : A) (xs : List A) → Elem (least less best xs) (best ∷ xs)
  unfolding least
  least-Elem less best [] = inl refl
  least-Elem less best (x ∷ xs) =
      let next = if less x best then x else best in
      step (Bool-cases (less x best)) (least-Elem less next xs)
    where
      step :
          {a : A}
          → (less x best ≡ true) ⊎ (less x best ≡ false)
          → Elem a ((if less x best then x else best) ∷ xs)
          → Elem a (best ∷ x ∷ xs)
      step (inl better) (inl e) = inr (inl (e ∙ if_true _ x best better))
      step (inr worse) (inl e) = inl (e ∙ if_false _ x best worse)
      step d (inr m) = inr (inr m)

  min_by-Elem : (less : A → A → Bool) (xs : List A) (a : A) → min_by less xs ≡ ok a → Elem a xs
  unfolding min_by
  min_by-Elem less [] a h = cc
  min_by-Elem less (x ∷ xs) a h =
      subst (λ b. Elem b (x ∷ xs)) (ok-injective _ a h) (least-Elem less x xs)

  pub get_elem?-Elem : (xs : List A) (i : ℕ) (a : A) → get_elem? xs i ≡ some a → Elem a xs
  get_elem?-Elem [] i a h = cc
  get_elem?-Elem (x ∷ xs) zero a h = inl (cc)
  get_elem?-Elem (x ∷ xs) (suc i) a h = inr (get_elem?-Elem xs i a h)

  pub get_elem?_total : (xs : List A) (i : ℕ) → i < length xs → (a : A) × (get_elem? xs i ≡ some a)
  get_elem?_total [] i h = absurd (omega arith)
  get_elem?_total (x ∷ xs) zero h = (x, refl)
  get_elem?_total (x ∷ xs) (suc i) h = get_elem?_total xs i (omega arith)

is_nonempty_of_Elem : {A : Type 0} (a : A) (xs : List A) → Elem a xs → is_nonempty xs ≡ true
is_nonempty_of_Elem a [] m = absurd m
is_nonempty_of_Elem a (x ∷ xs) m = refl

module _ {F : Type 0} where
  available_candidates-Elem :
      (candidates : List (CandidatePlacement F)) (c : CandidatePlacement F)
      → Elem c (available_candidates candidates)
      → Elem c candidates
  unfolding available_candidates
  available_candidates-Elem candidates c m =
      let usable = filter (λ d. d.available) candidates in
      elim (Bool-cases (is_nonempty usable)) [
        | inl some_usable ↦
            Elem-filter (λ d. d.available) c candidates
              (subst (Elem c) (if_true _ usable candidates some_usable) m)
        | inr none_usable ↦ subst (Elem c) (if_false _ usable candidates none_usable) m
      ]

  All_available :
      (candidates : List (CandidatePlacement F)) (c : CandidatePlacement F)
      → Elem c candidates
      → c.available ≡ true
      → All (λ d. d.available ≡ true) (available_candidates candidates)
  unfolding available_candidates
  All_available candidates c m up =
      let usable = filter (λ d. d.available) candidates in
      subst (All (λ d. d.available ≡ true))
        (sym (
          if_true _ usable candidates (
            is_nonempty_of_Elem c usable
              (Elem-filter_of_test (λ d. d.available) c candidates m up))))
        (All-filter (λ d. d.available) candidates)

module _ {F : Type 0} ⦃f : Float F⦄ where
  choose_in_turn-Elem :
      (cursor : ℕ) (usable : List (CandidatePlacement F)) (choice : CandidatePlacement F)
      (after : Policy F)
      → choose_in_turn cursor usable ≡ ok (choice, after)
      → Elem choice usable
  unfolding choose_in_turn
  choose_in_turn-Elem cursor usable choice after h =
      get_elem?-Elem usable (cursor % length usable) choice (ground arith)

  choose_best-Elem :
      (policy after : Policy F) (request : InferenceRequest F)
      (usable : List (CandidatePlacement F)) (choice : CandidatePlacement F)
      → choose_best policy request usable ≡ ok (choice, after)
      → Elem choice usable
  unfolding choose_best
  choose_best-Elem policy after request usable choice h =
      min_by-Elem (prefers policy request) usable choice (ground arith)

  choose-Elem_usable :
      (policy after : Policy F) (request : InferenceRequest F)
      (candidates : List (CandidatePlacement F)) (choice : CandidatePlacement F)
      → choose policy request candidates ≡ ok (choice, after)
      → Elem choice (available_candidates candidates)
  unfolding choose
  choose-Elem_usable (round_robin n) after request candidates choice h =
      choose_in_turn-Elem n (available_candidates candidates) choice after h
  choose-Elem_usable policy after request candidates choice h =
      choose_best-Elem policy after request (available_candidates candidates) choice h

  -- Every policy chooses one of the candidates that it is given.
  pub choose-Elem :
      (policy after : Policy F) (request : InferenceRequest F)
      (candidates : List (CandidatePlacement F)) (choice : CandidatePlacement F)
      → choose policy request candidates ≡ ok (choice, after)
      → Elem choice candidates
  choose-Elem policy after request candidates choice h =
      available_candidates-Elem candidates choice
        (choose-Elem_usable policy after request candidates choice h)

  -- If some candidate is available, then the choice of every policy is available.
  pub choose_available :
      (policy after : Policy F) (request : InferenceRequest F)
      (candidates : List (CandidatePlacement F)) (choice c : CandidatePlacement F)
      → Elem c candidates
      → c.available ≡ true
      → choose policy request candidates ≡ ok (choice, after)
      → choice.available ≡ true
  choose_available policy after request candidates choice c m up h =
      All_of_Elem (λ d. d.available ≡ true) choice (available_candidates candidates)
        (All_available candidates c m up)
        (choose-Elem_usable policy after request candidates choice h)

  available_nonempty :
      (candidates : List (CandidatePlacement F))
      → is_nonempty candidates ≡ true
      → is_nonempty (available_candidates candidates) ≡ true
  unfolding available_candidates
  available_nonempty candidates h = ground arith

  in_turn_total :
      (cursor : ℕ) (usable : List (CandidatePlacement F))
      → is_nonempty usable ≡ true
      → (choice : CandidatePlacement F) × (choose_in_turn cursor usable
          ≡ ok (choice, round_robin (cursor + 1)))
  unfolding choose_in_turn
  in_turn_total cursor [] h = cc
  in_turn_total cursor (x ∷ xs) h =
      let small : cursor % length (x ∷ xs) < length (x ∷ xs) = mod-lt cursor (omega arith) in
      let (choice, e) = get_elem?_total (x ∷ xs) (cursor % length (x ∷ xs)) small in
      (choice, ap (λ o. or_raise o index_error >>= λ d. ok (d, round_robin (cursor + 1))) e)

  best_total :
      (policy : Policy F) (request : InferenceRequest F) (usable : List (CandidatePlacement F))
      → is_nonempty usable ≡ true
      → (choice : CandidatePlacement F) × (after : Policy F) × (choose_best policy request usable
          ≡ ok (choice, after))
  unfolding choose_best min_by
  best_total policy request [] h = cc
  best_total policy request (x ∷ xs) h = (least (prefers policy request) x xs, _, refl)

  -- Every policy chooses a candidate, without raising, when it is given at least one.
  pub choose_total :
      (policy : Policy F) (request : InferenceRequest F) (candidates : List (CandidatePlacement F))
      → is_nonempty candidates ≡ true
      → (choice : CandidatePlacement F) × (after : Policy F) × (choose policy request candidates
          ≡ ok (choice, after))
  unfolding choose
  choose_total (round_robin n) request candidates h =
      let (choice, e) = in_turn_total n _ (available_nonempty candidates h) in (choice, _, e)
  choose_total policy request candidates h =
      best_total policy request _ (available_nonempty candidates h)
