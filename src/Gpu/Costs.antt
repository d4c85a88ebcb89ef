-- ===== src/Gpu/Costs.antt =====
-- topology/gpu_topology_parser.py: the costs of the links and the shape of the matrices.
use nimbus_mesh_x.Base.{
  ℕ, suc, ◌≡◌, sym, ap, subst, ◌∙◌, arith, String, ◌==◌, string_eq, false, if_false, List, [], ◌∷◌,
  map, length, length-map, All, Result, ok, >>=-eq-ok, ok-injective, or_raise, key_error, traverse,
}
use nimbus_mesh_x.Base.Dict.{Dict, lookup, get_or}
use nimbus_mesh_x.Float.{Float, ◌≼◌, ◌⊕◌, ◌⊖◌, decimal, round, max}
use nimbus_mesh_x.Float.Laws.{IsFloat, le-max}
use nimbus_mesh_x.Gpu.{
  GpuTopologySnapshot, bandwidth_tiers_table, latency_weights_table, Link, link_of, row_of,
  snapshot_of,
}

module _ {F : Type 0} ⦃f : Float F⦄ (laws : IsFloat F) where
  open laws use {round_mono, round_decimal}

  -- A link whose relation is not X costs at least 0.01.
  pub link_cost :
      (relation : String)
      → (relation == "X") ≡ false
      → decimal {F = F} 1 2 ≼ (link_of relation).cost
  unfolding link_of
  link_cost relation other =
      let bound : F = decimal 1 2 in
      let x =
        decimal 12 1
        ⊖ get_or relation (decimal 1 1) bandwidth_tiers_table
        ⊕ get_or relation (decimal 12 1) latency_weights_table in
      subst (λ (c : F). bound ≼ round c 4) (sym (if_false _ _ _ other))
        (subst (λ (c : F). c ≼ round (max bound x) 4) (round_decimal 1 2 (omega arith))
          (round_mono bound (max bound x) 4 (le-max laws bound x).0))

module _ {A B : Type 0} where
  length-traverse :
      (g : A → Result B) (xs : List A) (ys : List B) → traverse g xs ≡ ok ys → length ys ≡ length xs
  length-traverse g [] ys h = ap length (sym (ok-injective _ ys h))
  length-traverse g (x ∷ xs) ys h =
      let (y, _, h1) = >>=-eq-ok (g x) _ h in
      let (zs, rest, e) = >>=-eq-ok (traverse g xs) _ h1 in
      ap length (sym (ok-injective _ ys e)) ∙ ap suc (length-traverse g xs zs rest)

  traverse-All :
      (P : B → Type 0) (g : A → Result B) (xs : List A) (ys : List B)
      → ((x : A) (y : B) → g x ≡ ok y → P y)
      → traverse g xs ≡ ok ys
      → All P ys
  traverse-All P g [] ys each h = subst (All P) (ok-injective [] ys h) tt
  traverse-All P g (x ∷ xs) ys each h =
      let (y, one, h1) = >>=-eq-ok (g x) _ h in
      let (zs, rest, e) = >>=-eq-ok (traverse g xs) _ h1 in
      subst (All P) (ok-injective _ ys e) (each x y one, traverse-All P g xs zs each rest)

module _ {F : Type 0} ⦃f : Float F⦄ where
  All-costs :
      (n : ℕ) (rows : List (List (Link F)))
      → All (λ row. length row ≡ n) rows
      → All (λ row. length row ≡ n) (map (map (λ (l : Link F). l.cost)) rows)
  All-costs n [] h = tt
  All-costs n (row ∷ rows) h = (length-map (λ (l : Link F). l.cost) row ∙ h.0, All-costs n rows h.1)

  length-row_of :
      (relations : Dict String (Dict String String)) (targets : List String) (source : String)
      (row : List (Link F))
      → row_of relations targets source ≡ ok row
      → length row ≡ length targets
  unfolding row_of
  length-row_of relations targets source row h =
      let (edges, _, h1) = >>=-eq-ok (or_raise (lookup source relations) key_error) _ h in
      length-traverse _ targets row h1

  -- The matrix of costs of a snapshot is square: a row for each device, with a cost for each
  -- device, if no relation is missing.
  pub snapshot_of-square :
      (gpu_devices : List String) (relations : Dict String (Dict String String))
      (s : GpuTopologySnapshot F)
      → snapshot_of gpu_devices relations ≡ ok s
      → (length s.adjacency_matrix ≡ length gpu_devices)
        × All (λ row. length row ≡ length gpu_devices) s.adjacency_matrix
  unfolding snapshot_of
  snapshot_of-square gpu_devices relations s h =
      let (rows, made, e) = >>=-eq-ok (traverse (row_of relations gpu_devices) gpu_devices) _ h in
      subst
        (λ t.
          (length t.adjacency_matrix ≡ length gpu_devices)
          × All (λ row. length row ≡ length gpu_devices) t.adjacency_matrix)
        (ok-injective _ s e)
        (
          length-map (map (λ (l : Link F). l.cost)) rows
              ∙ length-traverse (row_of relations gpu_devices) gpu_devices rows made,
          All-costs (length gpu_devices) rows (
              traverse-All (λ row. length row ≡ length gpu_devices) (row_of relations gpu_devices)
                gpu_devices rows (length-row_of relations gpu_devices) made),
        )
