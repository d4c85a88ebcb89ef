-- ===== src/Topology/Shortest.antt =====
-- topology_service/graph.py: that the cost `shortest_path_cost` returns is least, where no edge has a
-- negative cost.
use nimbus_mesh_x.Base.{
  ℕ, zero, suc, ◌≡◌, refl, sym, ap, subst, ◌∙◌, String, ◌==◌, string_eq, eq_of_beq, beq_refl, true,
  Bool-cases, inl, inr, if◌then◌else◌, if_true, if_false, List, [], ◌∷◌, All, All_of_Elem, ok,
  ok-injective,
}
use nimbus_mesh_x.Base.Dict.{Dict, get_or, get_or-cons}
use nimbus_mesh_x.Float.{Float, ◌≼◌, ◌≺◌, of_ℕ}
use nimbus_mesh_x.Float.Laws.{IsFloat, le_refl}
use nimbus_mesh_x.Topology.{Adjacency, pop_least, is_visited, edges_of, search, shortest_path_cost}
use nimbus_mesh_x.Topology.Walks.{Walk}
use nimbus_mesh_x.Topology.Relaxed.{known, Elem-pop_least, pop_least-le}
use nimbus_mesh_x.Topology.Settled.{Invariant, Walk-IsWithin, Invariant-skip}
use nimbus_mesh_x.Topology.Entered.{Invariant-enter}

module _ {F : Type 0} ⦃f : Float F⦄ (laws : IsFloat F) (adjacency : Adjacency F)
    (source target : String) where
  open laws use {le_trans, plus_mono}

  module _ (nonneg : (u : String) → All (λ e. of_ℕ 0 ≼ e.cost) (edges_of u adjacency)) where
    popped_below :
        (visited : List String) (distances : Dict String F) (x : F × String)
        (xs : List (F × String)) (c : F)
        → Invariant adjacency source target visited distances (x ∷ xs)
        → Walk adjacency source target c
        → c ≺ f.infinity
        → (pop_least x xs).0.0 ≼ c
    popped_below visited distances x xs c inv w finite =
        elim (Walk-IsWithin laws adjacency source target inv nonneg w finite) [
          | inl (seen, le) ↦ let ahead = inv.ahead in absurd (cc)
          | inr (z, m, le) ↦ elim (Elem-pop_least z x xs m) [
            | inl popped ↦ subst (λ p. p.0 ≼ c) popped le
            | inr stays ↦ le_trans _ _ _ (All_of_Elem _ z _ (pop_least-le laws x xs).1 stays) le
          ]
        ]

    search_least :
        (fuel : ℕ) (visited : List String) (distances : Dict String F)
        (frontier : List (F × String)) (cost c : F)
        → Invariant adjacency source target visited distances frontier
        → search adjacency target fuel visited distances frontier ≡ ok cost
        → Walk adjacency source target c
        → c ≺ f.infinity
        → cost ≼ c
    unfolding search
    search_least zero visited distances frontier cost c inv h w finite = absurd (cc)
    search_least (suc fuel) visited distances [] cost c inv h w finite =
        elim (Walk-IsWithin laws adjacency source target inv nonneg w finite) [
          | inl (seen, le) ↦ let ahead = inv.ahead in absurd (cc)
          | inr (x, m, le) ↦ absurd m
        ]
    search_least (suc fuel) visited distances (x ∷ xs) cost c inv h w finite =
        let popped = pop_least x xs in
        let node = popped.0.1 in
        elim (Bool-cases (is_visited node visited)) [
          | inl seen ↦
              search_least fuel visited distances popped.1 cost c
                (Invariant-skip laws adjacency source target visited distances x xs seen inv)
                (sym (if_true _ _ _ seen) ∙ h) w finite
          | inr new ↦ elim (Bool-cases (node == target)) [
            | inl found ↦
                let same : popped.0.0 ≡ cost =
                  ok-injective _ cost
                    (sym (if_true _ (ok popped.0.0) _ found) ∙ sym (if_false _ _ _ new) ∙ h) in
                subst (λ v. v ≼ c) same (popped_below visited distances x xs c inv w finite)
            | inr other ↦
                search_least fuel (node ∷ visited) _ _ cost c
                  (Invariant-enter laws adjacency source target visited distances x xs inv nonneg
                    new other)
                  (sym (if_false _ (ok popped.0.0) _ other) ∙ sym (if_false _ _ _ new) ∙ h) w finite
          ]
        ]

    abbrev first : Dict String F
    first = (source, of_ℕ 0) ∷ []

    known-first : (n : String) → known n first ≡ (if n == source then of_ℕ 0 else f.infinity)
    known-first n =
        let absent : known n [] ≡ f.infinity = unfold get_or in refl in
        get_or-cons n source f.infinity (of_ℕ 0) []
        ∙ ap (λ v. if n == source then of_ℕ 0 else v) absent

    known_source : (n : String) → (n == source) ≡ true → known n first ≡ of_ℕ 0
    known_source n same = known-first n ∙ if_true _ _ _ same

    Invariant-start : Invariant adjacency source target [] first ((of_ℕ 0, source) ∷ [])
    Invariant-start = record {
      origin = rw (known_source source (beq_refl source)) (le_refl laws (of_ℕ 0));
      covered = λ n. elim (Bool-cases (n == source)) [
        | inl same ↦ inr (
            inr (
              (of_ℕ 0, source),
              inl refl,
              sym (eq_of_beq n source same),
              rw (known_source n same) (le_refl laws (of_ℕ 0)),
            ))
        | inr other ↦
            inr (inl (rw (known-first n ∙ if_false _ _ _ other) (le_refl laws f.infinity)))
      ];
      settled = λ u seen. absurd (cc);
      near = λ u seen. absurd (cc);
      honest = (rw (known_source source (beq_refl source)) (le_refl laws (of_ℕ 0)), tt);
      ahead = refl;
    }

    -- Where no edge has a negative cost, the cost that the search returns is at most the cost of
    -- any walk along the edges from the source to the target that costs less than infinity; so the
    -- search meets the specification of a least cost.
    pub shortest_path_cost-le :
        (cost c : F)
        → shortest_path_cost source target adjacency ≡ ok cost
        → Walk adjacency source target c
        → c ≺ f.infinity
        → cost ≼ c
    unfolding shortest_path_cost
    shortest_path_cost-le cost c h w finite =
        search_least _ [] _ _ cost c Invariant-start h w finite
