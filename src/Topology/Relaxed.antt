-- ===== src/Topology/Relaxed.antt =====
-- topology_service/graph.py: what the relaxation of a node's edges does to the distances and to the
-- frontier of `shortest_path_cost`, and what `heappop` takes from the frontier.
use nimbus_mesh_x.Base.{
  ◌≡◌, refl, sym, subst, ◌∙◌, arith, String, ◌==◌, string_eq, eq_of_beq, beq_refl, Bool, true,
  false, Bool-cases, inl, inr, ◌⊎◌, if◌then◌else◌, if_true, if_false, List, [], ◌∷◌, All, Elem,
}
use nimbus_mesh_x.Base.Dict.{Dict, get_or, get_or-insert, insert}
use nimbus_mesh_x.Float.{Float, ◌⊕◌, ◌<?◌, ◌≼◌, of_ℕ}
use nimbus_mesh_x.Float.Laws.{IsFloat, le_refl, le_of_lt, le_of_not_lt, le-plus}
use nimbus_mesh_x.Topology.{TopologyLink, earlier, pop_least, Reach, push_edge, relax, is_visited}

module _ {F : Type 0} ⦃f : Float F⦄ where
  -- The distance that is known of a node, infinity where there is none.
  abbrev pub known : String → Dict String F → F
  known n distances = get_or n f.infinity distances

  -- A node that is visited, or has no distance below infinity, or waits in the frontier at most at
  -- its distance.
  abbrev pub IsCovered : List String → Reach F → String → Type 0
  IsCovered visited (distances, frontier) n =
      (is_visited n visited ≡ true)
      ⊎ (f.infinity ≼ known n distances)
      ⊎ ((x : F × String) × Elem x frontier × (x.1 ≡ n) × (x.0 ≼ known n distances))

  -- The frontier holds no entry below the distance that is known of its node.
  abbrev pub IsHonest : Reach F → Type 0
  IsHonest (distances, frontier) = All (λ x. known x.1 distances ≼ x.0) frontier

  Elem-swap :
      (t : Bool) (z x y : F × String) (ys : List (F × String))
      → Elem z (x ∷ y ∷ ys)
      → Elem z ((if t then y else x) ∷ ys) ⊎ (z ≡ (if t then x else y))
  Elem-swap true z x y ys (inl here) = inr here
  Elem-swap true z x y ys (inr m) = inl m
  Elem-swap false z x y ys (inl here) = inl (inl here)
  Elem-swap false z x y ys (inr (inl here)) = inr here
  Elem-swap false z x y ys (inr (inr m)) = inl (inr m)

  -- A pair of the frontier is the one that is popped, or stays.
  pub Elem-pop_least :
      (z x : F × String) (xs : List (F × String))
      → Elem z (x ∷ xs)
      → (z ≡ (pop_least x xs).0) ⊎ Elem z (pop_least x xs).1
  unfolding pop_least
  Elem-pop_least z x [] m = m
  Elem-pop_least z x (y ∷ ys) m = elim (Elem-swap (earlier y x) z x y ys m) [
    | inr other ↦ inr (inl other)
    | inl next ↦ elim (Elem-pop_least z (if earlier y x then y else x) ys next) [
      | inl popped ↦ inl popped
      | inr stays ↦ inr (inr stays)
    ]
  ]

module _ {F : Type 0} ⦃f : Float F⦄ (laws : IsFloat F) where
  earlier-le : (x y : F × String) → earlier x y ≡ true → x.0 ≼ y.0
  earlier-le x y h = elim (Bool-cases (x.0 <? y.0)) [
    | inl e ↦ le_of_lt laws x.0 y.0 e
    | inr e ↦ ground arith
  ]

  le_of_not_earlier : (x y : F × String) → earlier x y ≡ false → y.0 ≼ x.0
  le_of_not_earlier x y h = ground arith

  earlier_least :
      (x y : F × String)
      → ((if earlier y x then y else x).0 ≼ x.0)
        × ((if earlier y x then y else x).0 ≼ (if earlier y x then x else y).0)
  earlier_least x y = elim (Bool-cases (earlier y x)) [
    | inl e ↦ rw e (earlier-le y x e, earlier-le y x e)
    | inr e ↦ rw e (le_refl laws x.0, le_of_not_earlier y x e)
  ]

  -- The pair that is popped costs at most what the others cost.
  pub pop_least-le :
      (x : F × String) (xs : List (F × String))
      → ((pop_least x xs).0.0 ≼ x.0) × All (λ y. (pop_least x xs).0.0 ≼ y.0) (pop_least x xs).1
  unfolding pop_least
  pop_least-le x [] = (le_refl laws x.0, tt)
  pop_least-le x (y ∷ ys) =
      let (least, rest) = pop_least-le (if earlier y x then y else x) ys in
      let (first, second) = earlier_least x y in
      (laws.le_trans _ _ _ least first, (laws.le_trans _ _ _ least second, rest))

  module _ (cost : F) (e : TopologyLink F) (distances : Dict String F)
      (frontier : List (F × String)) where
    abbrev closer : Bool
    closer = cost ⊕ e.cost <? known e.target distances

    push_edge-closer :
        closer ≡ true
        → push_edge cost e (distances, frontier)
          ≡ (insert e.target (cost ⊕ e.cost) distances, (cost ⊕ e.cost, e.target) ∷ frontier)
    unfolding push_edge
    push_edge-closer h = if_true _ _ _ h

    push_edge_other :
        closer ≡ false → push_edge cost e (distances, frontier) ≡ (distances, frontier)
    unfolding push_edge
    push_edge_other h = if_false _ _ _ h

    known-insert_target :
        (n : String)
        → (n == e.target) ≡ true
        → known n (insert e.target (cost ⊕ e.cost) distances) ≡ cost ⊕ e.cost
    known-insert_target n h =
        get_or-insert n e.target (cost ⊕ e.cost) f.infinity distances
        ∙ if_true _ (cost ⊕ e.cost) _ h

    known-insert_other :
        (n : String)
        → (n == e.target) ≡ false
        → known n (insert e.target (cost ⊕ e.cost) distances) ≡ known n distances
    known-insert_other n h =
        get_or-insert n e.target (cost ⊕ e.cost) f.infinity distances
        ∙ if_false _ (cost ⊕ e.cost) _ h

    -- What is known of the edge's target after the push is at most the cost along the edge.
    push_edge_settles : known e.target (push_edge cost e (distances, frontier)).0 ≼ cost ⊕ e.cost
    push_edge_settles = elim (Bool-cases closer) [
      | inl h ↦
          rw (push_edge-closer h, known-insert_target e.target (beq_refl e.target))
            (le_refl laws (cost ⊕ e.cost))
      | inr h ↦ rw (push_edge_other h) (le_of_not_lt laws _ _ h)
    ]

    -- No distance increases.
    push_edge-known-le :
        (n : String) → known n (push_edge cost e (distances, frontier)).0 ≼ known n distances
    push_edge-known-le n = elim (Bool-cases closer) [
      | inr h ↦ rw (push_edge_other h) (le_refl laws (known n distances))
      | inl h ↦ elim (Bool-cases (n == e.target)) [
        | inr other ↦
            rw (push_edge-closer h, known-insert_other n other) (le_refl laws (known n distances))
        | inl same ↦
            rw (push_edge-closer h, known-insert_target n same)
              (subst (λ m. cost ⊕ e.cost ≼ known m distances) (sym (eq_of_beq n e.target same))
                (le_of_lt laws _ _ h))
      ]
    ]

    -- A distance that is at most the cost of the node relaxed does not decrease.
    le-push_edge-known :
        of_ℕ 0 ≼ e.cost
        → (n : String) → known n distances ≼ cost
        → known n distances ≼ known n (push_edge cost e (distances, frontier)).0
    le-push_edge-known nonneg n near = elim (Bool-cases closer) [
      | inr h ↦ rw (push_edge_other h) (le_refl laws (known n distances))
      | inl h ↦ elim (Bool-cases (n == e.target)) [
        | inr other ↦
            rw (push_edge-closer h, known-insert_other n other) (le_refl laws (known n distances))
        | inl same ↦
            rw (push_edge-closer h, known-insert_target n same)
              (laws.le_trans _ cost _ near (le-plus laws cost e.cost nonneg))
      ]
    ]

    push_edge-IsCovered :
        (visited : List String) (n : String)
        → IsCovered visited (distances, frontier) n
        → IsCovered visited (push_edge cost e (distances, frontier)) n
    push_edge-IsCovered visited n c = elim (Bool-cases closer) [
      | inr h ↦ rw (push_edge_other h) c
      | inl h ↦ elim (Bool-cases (n == e.target)) [
        | inl same ↦
            let new = le_refl laws (cost ⊕ e.cost) in
            rw (push_edge-closer h) (
              inr (
                inr (
                  (cost ⊕ e.cost, e.target),
                  inl refl,
                  sym (eq_of_beq n e.target same),
                  rw (known-insert_target n same) new,
                )))
        | inr other ↦
            rw (push_edge-closer h, known-insert_other n other)
              (elim c [
                | inl seen ↦ inl seen
                | inr (inl far) ↦ inr (inl far)
                | inr (inr (x, m, at, le)) ↦ inr (inr (x, inr m, at, le))
              ])
      ]
    ]

  pub relax-known-le :
      (cost : F) (edges : List (TopologyLink F)) (state : Reach F) (n : String)
      → known n (relax cost edges state).0 ≼ known n state.0
  unfolding relax
  relax-known-le cost [] state n = le_refl laws (known n state.0)
  relax-known-le cost (e ∷ edges) state n =
      laws.le_trans _ _ _ (relax-known-le cost edges (push_edge cost e state) n)
        (push_edge-known-le cost e state.0 state.1 n)

  pub le-relax-known :
      (cost : F) (edges : List (TopologyLink F)) (state : Reach F)
      → All (λ e. of_ℕ 0 ≼ e.cost) edges
      → (n : String) → known n state.0 ≼ cost
      → known n state.0 ≼ known n (relax cost edges state).0
  unfolding relax
  le-relax-known cost [] state nonneg n near = le_refl laws (known n state.0)
  le-relax-known cost (e ∷ edges) state nonneg n near =
      laws.le_trans _ _ _ (le-push_edge-known cost e state.0 state.1 nonneg.0 n near) (
        le-relax-known cost edges (push_edge cost e state) nonneg.1 n
          (laws.le_trans _ _ _ (push_edge-known-le cost e state.0 state.1 n) near))

  pub relax_settles :
      (cost : F) (edges : List (TopologyLink F)) (state : Reach F)
      → All (λ e. known e.target (relax cost edges state).0 ≼ cost ⊕ e.cost) edges
  unfolding relax
  relax_settles cost [] state = tt
  relax_settles cost (e ∷ edges) state = (
    laws.le_trans _ _ _ (relax-known-le cost edges (push_edge cost e state) e.target)
        (push_edge_settles cost e state.0 state.1),
    relax_settles cost edges (push_edge cost e state),
  )

  pub relax-IsCovered :
      (cost : F) (edges : List (TopologyLink F)) (state : Reach F) (visited : List String)
      → (n : String) → IsCovered visited state n
      → IsCovered visited (relax cost edges state) n
  unfolding relax
  relax-IsCovered cost [] state visited n c = c
  relax-IsCovered cost (e ∷ edges) state visited n c =
      relax-IsCovered cost edges (push_edge cost e state) visited n
        (push_edge-IsCovered cost e state.0 state.1 visited n c)

  IsHonest-closer :
      (distances next : Dict String F) (frontier : List (F × String))
      → ((n : String) → known n next ≼ known n distances)
      → IsHonest (distances, frontier)
      → IsHonest (next, frontier)
  IsHonest-closer distances next [] less h = tt
  IsHonest-closer distances next (x ∷ xs) less h =
      (laws.le_trans _ _ _ (less x.1) h.0, IsHonest-closer distances next xs less h.1)

  push_edge-IsHonest :
      (cost : F) (e : TopologyLink F) (state : Reach F)
      → IsHonest state
      → IsHonest (push_edge cost e state)
  push_edge-IsHonest cost e (distances, frontier) h =
      elim (Bool-cases (closer cost e distances frontier)) [
        | inr far ↦ rw (push_edge_other cost e distances frontier far) h
        | inl near ↦
            let less : (n : String)
                → known n (insert e.target (cost ⊕ e.cost) distances) ≼ known n distances =
              λ n.
                subst (λ s. known n s.0 ≼ known n distances)
                  (push_edge-closer cost e distances frontier near)
                  (push_edge-known-le cost e distances frontier n) in
            rw (push_edge-closer cost e distances frontier near) (
              subst (λ v. v ≼ cost ⊕ e.cost)
                  (sym (known-insert_target cost e distances frontier e.target (beq_refl e.target)))
                  (le_refl laws (cost ⊕ e.cost)),
              IsHonest-closer distances _ frontier less h,
            )
      ]

  pub relax-IsHonest :
      (cost : F) (edges : List (TopologyLink F)) (state : Reach F)
      → IsHonest state
      → IsHonest (relax cost edges state)
  unfolding relax
  relax-IsHonest cost [] state h = h
  relax-IsHonest cost (e ∷ edges) state h =
      relax-IsHonest cost edges (push_edge cost e state) (push_edge-IsHonest cost e state h)
