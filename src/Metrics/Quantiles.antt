-- ===== src/Metrics/Quantiles.antt =====
-- nimbusmesh_x/metrics.py: `_quantile` does not raise.
use nimbus_mesh_x.Base.{
  ℕ, suc, ◌-◌, ◌^◌, ◌≤◌, ◌<◌, ◌≡◌, refl, arith, Bool-cases, inl, inr, ◌==◌, nat_eq, List, [], ◌∷◌,
  length, ok,
}
use nimbus_mesh_x.Base.Sort.{sort, length-sort}
use nimbus_mesh_x.Float.{Float, ◌≼◌, ◌⊕◌, ◌⊖◌, ◌⊗◌, ◌≤?◌, of_ℕ, decimal, trunc, ceil}
use nimbus_mesh_x.Float.Laws.{IsFloat, le_refl, nonneg_of_ℕ}
use nimbus_mesh_x.Policies.Members.{get_elem?_total}
use nimbus_mesh_x.Metrics.{interpolate, quantile}

module _ {F : Type 0} ⦃f : Float F⦄ (laws : IsFloat F) where
  open laws use {le_trans, times_mono, times_one, trunc_mono, trunc_of_ℕ, ceil_mono, ceil_of_ℕ}

  index-le : (n : ℕ) (q : F) → of_ℕ 0 ≼ q → q ≼ of_ℕ 1 → of_ℕ n ⊗ q ≼ of_ℕ n
  index-le n q low high =
      le_trans _ _ _
        (times_mono (of_ℕ n) (of_ℕ n) q (of_ℕ 1) (nonneg_of_ℕ laws n) (le_refl laws (of_ℕ n)) low
          high)
        (times_one (of_ℕ n)).0

  interpolate_total :
      (ordered : List F) (index : F)
      → trunc index < length ordered
      → ceil index < length ordered
      → (v : F) × (interpolate ordered index ≡ ok v)
  unfolding interpolate
  interpolate_total ordered index low high =
      let (x, found_low) = get_elem?_total ordered (trunc index) low in
      let (y, found_high) = get_elem?_total ordered (ceil index) high in
      elim (Bool-cases (trunc index == ceil index)) [
        | inl same ↦ (x, rw (found_low, same) refl)
        | inr other ↦
            (x ⊕ (y ⊖ x) ⊗ (index ⊖ of_ℕ (trunc index)), rw (found_low, other, found_high) refl)
      ]

  -- A quantile between 0 and 1 is computed without an index out of range, for a list of any values
  -- of at most 2 ^ 53.
  pub quantile_total :
      (values : List F) (q : F)
      → of_ℕ 0 ≼ q
      → q ≼ of_ℕ 1
      → length values ≤ 2 ^ 53
      → (v : F) × (quantile values q ≡ ok v)
  unfolding quantile
  quantile_total [] q low high short = (decimal 0 1, refl)
  quantile_total (x ∷ xs) q low high short =
      let ordered = sort (λ a b. a ≤? b) (x ∷ xs) in
      let same : length ordered ≡ suc (length xs) = length-sort (λ a b. a ≤? b) (x ∷ xs) in
      let last = length ordered - 1 in
      let bound = index-le last q low high in
      let below = trunc_mono _ _ bound in
      let above = ceil_mono _ _ bound in
      let bottom = trunc_of_ℕ last (omega (arith, same, short)) in
      let top = ceil_of_ℕ last (omega (arith, same, short)) in
      interpolate_total ordered (of_ℕ last ⊗ q) (omega (arith, same, below, bottom))
        (omega (arith, same, above, top))
