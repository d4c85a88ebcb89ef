-- ===== src/Policies/Choice.antt =====
-- policies/heuristics/simple.py: the candidates that a policy looks at, and Python's `min` by a key.
use nimbus_mesh_x.Base.{
  Bool, true, false, ◌&&◌, List, [], ◌∷◌, filter, is_nonempty, if◌then◌else◌, Result, ok, err,
  value_error,
}
use nimbus_mesh_x.Float.{Float, ◌≤?◌, ◌<?◌}
use nimbus_mesh_x.Types.{CandidatePlacement}

module _ {F : Type 0} where
  -- `_available_candidates`, and `[… if candidate.available] or candidates`
  unfoldable pub available_candidates : List (CandidatePlacement F) → List (CandidatePlacement F)
  available_candidates candidates =
      let usable = filter (λ c. c.available) candidates in
      if is_nonempty usable then usable else candidates

module _ {A : Type 0} (less : A → A → Bool) where
  -- The first of the least elements, `best` before the list.
  unfoldable pub least : A → List A → A
  least best [] = best
  least best (x ∷ xs) = least (if less x best then x else best) xs

  -- `min(xs, key=…)`, where `less` compares the keys
  unfoldable pub min_by : List A → Result A
  unfolding least
  min_by [] = err value_error
  min_by (x ∷ xs) = ok (least x xs)

module _ {F : Type 0} ⦃f : Float F⦄ where
  -- `<` of tuples of floats, as lists
  unfoldable pub tuple_lt : List F → List F → Bool
  tuple_lt [] [] = false
  tuple_lt [] (y ∷ ys) = true
  tuple_lt (x ∷ xs) [] = false
  tuple_lt (x ∷ xs) (y ∷ ys) =
      let rest = tuple_lt xs ys in if x ≤? y && y ≤? x then rest else x <? y
