-- ===== src/Float.antt =====
-- Python's `float`. The language's binary64 arithmetic is not computed here: a type of numbers `F`
-- with the operations that the code uses is an argument of everything that computes with floats, and
-- `Float.Laws` names what is known of them. `Float.Fixed` is a type of numbers that has the laws.
pub mod Laws
pub mod Fixed
use nimbus_mesh_x.Base.{ℕ, Bool, not, List, [], ◌∷◌, foldl, ◌≡◌, true, if◌then◌else◌}

-- `decimal m d` is the literal m / 10 ^ d, and `decimal n 0` is also `float(n)`.
pub record Float (F : Type 0) : Type 0 where
  pub le : F → F → Bool
  pub plus : F → F → F
  pub minus : F → F → F
  pub times : F → F → F
  pub over : F → F → F
  pub negate : F → F
  pub decimal : ℕ → ℕ → F
  pub round : F → ℕ → F
  -- `int(x)` of a value that is not negative
  pub trunc : F → ℕ
  -- `math.ceil(x)` of a value that is not negative
  pub ceil : F → ℕ
  pub infinity : F

module _ {F : Type 0} ⦃f : Float F⦄ where
  infixl 65 ◌⊕◌ ◌⊖◌
  infixl 70 ◌⊗◌ ◌⊘◌
  infix 50 ◌≤?◌ ◌<?◌
  infix 4 ◌≼◌ ◌≺◌
  abbrev pub ◌⊕◌ : F → F → F
  x ⊕ y = f.plus x y

  abbrev pub ◌⊖◌ : F → F → F
  x ⊖ y = f.minus x y

  abbrev pub ◌⊗◌ : F → F → F
  x ⊗ y = f.times x y

  abbrev pub ◌⊘◌ : F → F → F
  x ⊘ y = f.over x y

  abbrev pub negate : F → F
  negate x = f.negate x

  -- The tests `<=` and `<`, away from NaN.
  abbrev pub ◌≤?◌ : F → F → Bool
  x ≤? y = f.le x y

  abbrev pub ◌<?◌ : F → F → Bool
  x <? y = not (f.le y x)

  abbrev pub ◌≼◌ : F → F → Type 0
  x ≼ y = f.le x y ≡ true

  abbrev pub ◌≺◌ : F → F → Type 0
  x ≺ y = not (f.le y x) ≡ true

  abbrev pub decimal : ℕ → ℕ → F
  decimal m d = f.decimal m d

  abbrev pub of_ℕ : ℕ → F
  of_ℕ n = f.decimal n 0

  abbrev pub round : F → ℕ → F
  round x n = f.round x n

  abbrev pub trunc : F → ℕ
  trunc x = f.trunc x

  abbrev pub ceil : F → ℕ
  ceil x = f.ceil x

  -- `max(x, y)` and `min(x, y)` return the first of two equals.
  unfoldable pub max : F → F → F
  max x y = if x <? y then y else x

  unfoldable pub min : F → F → F
  min x y = if y <? x then y else x

  -- `sum(xs)`, from 0 and from the left
  unfoldable pub sum : List F → F
  sum xs = foldl (λ acc x. acc ⊕ x) (of_ℕ 0) xs

  -- `min(xs)` of a list with head `x`
  unfoldable pub minimum : F → List F → F
  unfolding min
  minimum x [] = x
  minimum x (y ∷ ys) = minimum (min x y) ys
