-- ===== src/Workload/Draws.antt =====
-- workload_gen/generator.py: `self.random`. The Mersenne twister is not computed: `Random F R` holds the
-- methods of `random.Random` that the generator calls, on a state of type `R`, and the logarithm.
use nimbus_mesh_x.Base.{
  ℕ, List, length, String, Result, ok, index_error, or_raise, ◌>>=◌, get_elem?,
}
use nimbus_mesh_x.Base.Dict.{Dict, keys, values}

pub record Random (F R : Type 0) : Type 0 where
  pub random : R → F × R
  pub uniform : F → F → R → F × R
  pub gauss : F → F → R → F × R
  pub lognormvariate : F → F → R → F × R
  pub expovariate : F → R → F × R
  -- `choices(population, weights=…, k=1)`: the index of what is chosen
  pub choices : List F → R → ℕ × R
  -- `choice` from a sequence of that length: the index
  pub choice : ℕ → R → ℕ × R
  -- `math.log`
  pub log : F → F

module _ {F R : Type 0} (rng : Random F R) where
  -- `random.choice(xs)`
  unfoldable pub draw : {A : Type 0} → List A → R → Result (A × R)
  draw xs r =
      let (i, after) = rng.choice (length xs) r in
      or_raise (get_elem? xs i) index_error >>= λ x. ok (x, after)

  -- `_weighted_choice`
  unfoldable pub weighted_choice : Dict String F → R → Result (String × R)
  weighted_choice weights r =
      let (i, after) = rng.choices (values weights) r in
      or_raise (get_elem? (keys weights) i) index_error >>= λ key. ok (key, after)
