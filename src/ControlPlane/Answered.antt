-- ===== src/ControlPlane/Answered.antt =====
-- control_plane/service.py, grpc_layer/client.py and scheduler_core/cpp_bridge.py: what is chosen
-- whatever the schedulers outside of the process answer.
use nimbus_mesh_x.Base.{
  ℕ, zero, suc, ◌<◌, ltb, ◌≡◌, refl, ap, ◌∙◌, arith, true, inl, inr, ◌⊎◌, List, [], ◌∷◌, length,
  get_elem?, is_nonempty, Elem, Result, ok, ◌>>=◌, >>=-eq_of_ok, or_raise, index_error, Option,
  some, none, Bool-cases, if◌then◌else◌, if_true,
}
use nimbus_mesh_x.Base.Int.{ℤ, pos, negsuc}
use nimbus_mesh_x.Float.{Float}
use nimbus_mesh_x.Types.{InferenceRequest, CandidatePlacement}
use nimbus_mesh_x.Policies.{Policy}
use nimbus_mesh_x.Policies.Members.{choose-Elem, choose_total, get_elem?-Elem}
use nimbus_mesh_x.ControlPlane.{
  Router, Routers, in_range, grpc_choose, cpp_choose, choose_candidate,
}

module _ {A : Type 0} where
  get_elem?_small : (xs : List A) (i : ℕ) → i < length xs → (a : A) × (get_elem? xs i ≡ some a)
  get_elem?_small [] i h = absurd (omega arith)
  get_elem?_small (x ∷ xs) zero h = (x, refl)
  get_elem?_small (x ∷ xs) (suc i) h = get_elem?_small xs i (omega arith)

  -- No index, or the index of an element.
  abbrev Names : List A → Option ℕ → Type 0
  Names xs o = (o ≡ none) ⊎ ((i : ℕ) × (a : A) × (o ≡ some i) × (get_elem? xs i ≡ some a))

  in_range-Names : (xs : List A) (i : ℤ) → Names xs (in_range (length xs) i)
  unfolding in_range
  in_range-Names xs (negsuc i) = inl refl
  in_range-Names xs (pos i) = elim (Bool-cases (ltb i (length xs))) [
    | inl small ↦
        let (a, found) = get_elem?_small xs i (ground arith) in rw small (inr (i, a, refl, found))
    | inr large ↦ rw large (inl refl)
  ]

module _ {F : Type 0} ⦃f : Float F⦄ (request : InferenceRequest F)
    (cs : List (CandidatePlacement F)) where
  -- The scheduler, if there is one, answers with some number and does not raise.
  abbrev pub Answers : Option (Router F) → Type 0
  Answers client = (ask : Router F) → client ≡ some ask → (i : ℤ) × (ask request cs ≡ ok i)

  consulted :
      (client : Option (Router F))
      → Answers client
      → (o : Option ℕ) × (◌≡◌ {A = Result (Option ℕ)}
          (elim client [
            | none ↦ ok none
            | some ask ↦ ask request cs >>= λ i. ok (in_range (length cs) i)
          ])
          (ok o))
        × Names cs o
  consulted none answers = (none, refl, inl refl)
  consulted (some ask) answers =
      let (i, answered) = answers ask refl in
      (in_range (length cs) i, >>=-eq_of_ok _ _ answered, in_range-Names cs i)

  -- the same behind the test of the compiled scheduler core
  consulted_any :
      (client : Option (Router F))
      → Answers client
      → is_nonempty cs ≡ true
      → (o : Option ℕ) × (◌≡◌ {A = Result (Option ℕ)}
          (elim client [
            | none ↦ ok none
            | some ask ↦
                if is_nonempty cs
                then (ask request cs >>= λ i. ok (in_range (length cs) i))
                else ok none
          ])
          (ok o))
        × Names cs o
  consulted_any none answers some_candidate = (none, refl, inl refl)
  consulted_any (some ask) answers some_candidate =
      let (o, asked, found) = consulted (some ask) answers in
      (o, if_true (is_nonempty cs) _ _ some_candidate ∙ asked, found)

  module _ (routers : Routers F) where
    grpc_choose-Names :
        Answers routers.grpc_client
        → (o : Option ℕ) × (grpc_choose routers request cs ≡ ok o) × Names cs o
    unfolding grpc_choose
    grpc_choose-Names answers = consulted routers.grpc_client answers

    cpp_choose-Names :
        Answers routers.cpp_core
        → is_nonempty cs ≡ true
        → (o : Option ℕ) × (cpp_choose routers request cs ≡ ok o) × Names cs o
    unfolding cpp_choose
    cpp_choose-Names answers some_candidate = consulted_any routers.cpp_core answers some_candidate

    -- Whatever number a scheduler outside answers, an index or not, the choice does not raise and
    -- is one of the candidates, if there is one and no scheduler outside raises.
    pub choose_candidate_total :
        (policy : Policy F)
        → Answers routers.grpc_client
        → Answers routers.cpp_core
        → is_nonempty cs ≡ true
        → (choice : CandidatePlacement F) × (after : Policy F) × (choose_candidate routers policy
              request cs
            ≡ ok (choice, after))
          × Elem choice cs
    unfolding choose_candidate
    choose_candidate_total policy grpc cpp some_candidate =
        let (asked, e, found) = grpc_choose-Names grpc in
        elim found [
          | inr (i, c, at, held) ↦ (
            c,
            policy,
            >>=-eq_of_ok (grpc_choose routers request cs) _ (e ∙ ap ok at)
                ∙ >>=-eq_of_ok (or_raise (get_elem? cs i) index_error) _
                    (ap (λ o. or_raise o index_error) held),
            get_elem?-Elem cs i c held,
          )
          | inl silent ↦
              let (asked_too, d, found_too) = cpp_choose-Names cpp some_candidate in
              elim found_too [
                | inr (i, c, at, held) ↦ (
                  c,
                  policy,
                  >>=-eq_of_ok (grpc_choose routers request cs) _ (e ∙ ap ok silent)
                      ∙ >>=-eq_of_ok (cpp_choose routers request cs) _ (d ∙ ap ok at)
                      ∙ >>=-eq_of_ok (or_raise (get_elem? cs i) index_error) _
                          (ap (λ o. or_raise o index_error) held),
                  get_elem?-Elem cs i c held,
                )
                | inl quiet ↦
                    let (c, after, chosen) = choose_total policy request cs some_candidate in
                    (
                      c,
                      after,
                      >>=-eq_of_ok (grpc_choose routers request cs) _ (e ∙ ap ok silent)
                          ∙ >>=-eq_of_ok (cpp_choose routers request cs) _ (d ∙ ap ok quiet)
                          ∙ chosen,
                      choose-Elem policy after request cs c chosen,
                    )
              ]
        ]
