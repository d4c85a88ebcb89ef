-- ===== src/Metrics/Statistics.antt =====
-- nimbusmesh_x/metrics.py: `_quantile` and `_jains_index`. `sum(values) ** 2` is written as a product.
use nimbus_mesh_x.Base.{
  ◌-◌, ◌==◌, nat_eq, ◌&&◌, if◌then◌else◌, List, [], ◌∷◌, map, length, get_elem?, Result, ok,
  index_error, or_raise, ◌>>=◌,
}
use nimbus_mesh_x.Base.Sort.{sort}
use nimbus_mesh_x.Float.{Float, ◌⊕◌, ◌⊖◌, ◌⊗◌, ◌⊘◌, ◌≤?◌, of_ℕ, decimal, sum, trunc, ceil}

module _ {F : Type 0} ⦃f : Float F⦄ where
  -- The value at `index` of an ordered list.
  unfoldable pub interpolate : List F → F → Result F
  interpolate ordered index =
      let lower = trunc index in
      let upper = ceil index in
      or_raise (get_elem? ordered lower) index_error >>= λ low.
      if lower == upper
      then ok low
      else (or_raise (get_elem? ordered upper) index_error >>= λ high.
          ok (low ⊕ (high ⊖ low) ⊗ (index ⊖ of_ℕ lower)))

  unfoldable pub quantile : List F → F → Result F
  unfolding interpolate
  quantile [] q = ok (decimal 0 1)
  quantile (v ∷ values) q =
      let ordered = sort (λ x y. x ≤? y) (v ∷ values) in
      interpolate ordered (of_ℕ (length ordered - 1) ⊗ q)

  unfoldable pub jains_index : List F → F
  jains_index [] = decimal 10 1
  jains_index (v ∷ values) =
      let numerator = sum (v ∷ values) ⊗ sum (v ∷ values) in
      let denominator = of_ℕ (length (v ∷ values)) ⊗ sum (map (λ x. x ⊗ x) (v ∷ values)) in
      if denominator ≤? of_ℕ 0 && of_ℕ 0 ≤? denominator
      then decimal 10 1
      else numerator ⊘ denominator
