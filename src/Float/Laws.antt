-- ===== src/Float/Laws.antt =====
-- What the proofs use of binary64 arithmetic: facts of IEEE 754 with correct rounding that hold of
-- all values other than NaN for which the operation itself gives no NaN. No law says that a sum or a
-- product is exact.
use nimbus_mesh_x.Base.{ℕ, ◌≤◌, ◌<◌, ◌^◌, ◌*◌, ◌≡◌, ◌⊎◌, false, arith, List, [], ◌∷◌, All, foldl}
use nimbus_mesh_x.Float.{
  Float, negate, ◌⊕◌, ◌⊖◌, ◌⊗◌, ◌⊘◌, ◌<?◌, ◌≼◌, ◌≺◌, decimal, of_ℕ, round, trunc, ceil, max, min,
  sum, minimum,
}

pub record IsFloat (F : Type 0) ⦃f : Float F⦄ : Type 0 where
  pub le_trans : (x y z : F) → x ≼ y → y ≼ z → x ≼ z
  pub le_total : (x y : F) → (x ≼ y) ⊎ (y ≼ x)
  pub plus_mono : (a b c d : F) → a ≼ b → c ≼ d → a ⊕ c ≼ b ⊕ d
  pub plus_zero : (x : F) → (x ⊕ of_ℕ 0 ≼ x) × (x ≼ x ⊕ of_ℕ 0)
  pub plus_comm : (x y : F) → x ⊕ y ≡ y ⊕ x
  pub minus_mono : (a b c d : F) → a ≼ b → c ≼ d → a ⊖ d ≼ b ⊖ c
  pub minus_self : (x : F) → (x ⊖ x ≼ of_ℕ 0) × (of_ℕ 0 ≼ x ⊖ x)
  pub minus_zero : (x : F) → (x ⊖ of_ℕ 0 ≼ x) × (x ≼ x ⊖ of_ℕ 0)
  pub times_mono : (a b c d : F) → of_ℕ 0 ≼ a → a ≼ b → of_ℕ 0 ≼ c → c ≼ d → a ⊗ c ≼ b ⊗ d
  pub times_nonneg : (a b : F) → of_ℕ 0 ≼ a → of_ℕ 0 ≼ b → of_ℕ 0 ≼ a ⊗ b
  pub zero_times : (x : F) → of_ℕ 0 ≼ x → of_ℕ 0 ⊗ x ≡ of_ℕ 0
  pub times_one : (x : F) → (x ⊗ of_ℕ 1 ≼ x) × (x ≼ x ⊗ of_ℕ 1)
  pub over_nonneg : (a b : F) → of_ℕ 0 ≼ a → of_ℕ 0 ≺ b → of_ℕ 0 ≼ a ⊘ b
  pub decimal_mono : (m d n e : ℕ) → m * 10 ^ e ≤ n * 10 ^ d → decimal {F = F} m d ≼ decimal n e
  -- a literal is not rounded to zero (none of the code's has more than nine decimals)
  pub decimal_pos : (m d : ℕ) → 0 < m → d ≤ 9 → of_ℕ {F = F} 0 ≺ decimal m d
  pub round_mono : (x y : F) (n : ℕ) → x ≼ y → round x n ≼ round y n
  -- rounding to four decimals keeps a literal of at most two
  pub round_decimal : (m d : ℕ) → d ≤ 2 → round {F = F} (decimal m d) 4 ≡ decimal m d
  pub trunc_mono : (x y : F) → x ≼ y → trunc x ≤ trunc y
  pub ceil_mono : (x y : F) → x ≼ y → ceil x ≤ ceil y
  pub ceil_of_ℕ : (n : ℕ) → n ≤ 2 ^ 53 → ceil {F = F} (of_ℕ n) ≡ n
  -- integers up to 2 ^ 53 are exact
  pub trunc_of_ℕ : (n : ℕ) → n ≤ 2 ^ 53 → trunc {F = F} (of_ℕ n) ≡ n
  pub finite_of_ℕ : (n : ℕ) → n ≤ 2 ^ 53 → of_ℕ {F = F} n ≺ f.infinity
  pub negative_infinity : negate f.infinity ≺ of_ℕ {F = F} 0

module _ {F : Type 0} ⦃f : Float F⦄ (laws : IsFloat F) where
  open laws use {
    le_trans, le_total, plus_mono, plus_zero, plus_comm, minus_mono, minus_self, minus_zero,
    decimal_mono, round_mono, round_decimal,
  }

  pub le_refl : (x : F) → x ≼ x
  le_refl x = ground (arith, le_total x x)

  pub le_of_lt : (x y : F) → x ≺ y → x ≼ y
  le_of_lt x y h = ground (arith, le_total x y)

  pub lt_of_lt_of_le : (x y z : F) → x ≺ y → y ≼ z → x ≺ z
  lt_of_lt_of_le x y z h k = ground (arith, le_trans y z x)

  pub le_of_not_lt : (x y : F) → (x <? y) ≡ false → y ≼ x
  le_of_not_lt x y h = ground arith

  pub le-max : (x y : F) → (x ≼ max x y) × (y ≼ max x y)
  unfolding max
  le-max x y = ground (arith, le_total x y, le_refl x, le_refl y)

  pub max-le : (x y z : F) → x ≼ z → y ≼ z → max x y ≼ z
  unfolding max
  max-le x y z h k = ground arith

  pub min-le : (x y : F) → (min x y ≼ x) × (min x y ≼ y)
  unfolding min
  min-le x y = ground (arith, le_total x y, le_refl x, le_refl y)

  pub le-min : (x y z : F) → z ≼ x → z ≼ y → z ≼ min x y
  unfolding min
  le-min x y z h k = ground arith

  pub nonneg_of_ℕ : (n : ℕ) → of_ℕ {F = F} 0 ≼ of_ℕ n
  nonneg_of_ℕ n = decimal_mono 0 0 n 0 (omega arith)

  pub decimal_nonneg : (m d : ℕ) → of_ℕ {F = F} 0 ≼ decimal m d
  decimal_nonneg m d = decimal_mono 0 0 m d (omega arith)

  pub round_nonneg : (x : F) → of_ℕ 0 ≼ x → of_ℕ 0 ≼ round x 4
  round_nonneg x h =
      le_trans _ (round (of_ℕ 0) 4) _ (rw (round_decimal 0 0 (omega arith)) (le_refl (of_ℕ 0)))
        (round_mono _ x 4 h)

  pub minus_nonneg : (x y : F) → x ≼ y → of_ℕ 0 ≼ y ⊖ x
  minus_nonneg x y h = le_trans _ (x ⊖ x) _ (minus_self x).1 (minus_mono x y x x h (le_refl x))

  -- To add what is not negative is not to decrease.
  pub le-plus : (x y : F) → of_ℕ 0 ≼ y → x ≼ x ⊕ y
  le-plus x y h = le_trans _ (x ⊕ of_ℕ 0) _ (plus_zero x).1 (plus_mono x x (of_ℕ 0) y (le_refl x) h)

  pub le-plus_left : (x y : F) → of_ℕ 0 ≼ y → x ≼ y ⊕ x
  le-plus_left x y h = rw plus_comm (le-plus x y h)

  pub plus_nonneg : (x y : F) → of_ℕ 0 ≼ x → of_ℕ 0 ≼ y → of_ℕ 0 ≼ x ⊕ y
  plus_nonneg x y h k = le_trans _ x _ h (le-plus x y k)

  foldl-plus_nonneg :
      (xs : List F) (acc : F)
      → of_ℕ 0 ≼ acc
      → All (λ x. of_ℕ 0 ≼ x) xs
      → of_ℕ 0 ≼ foldl (λ a x. a ⊕ x) acc xs
  foldl-plus_nonneg [] acc h k = h
  foldl-plus_nonneg (x ∷ xs) acc h k = foldl-plus_nonneg xs (acc ⊕ x) (plus_nonneg acc x h k.0) k.1

  pub sum_nonneg : (xs : List F) → All (λ x. of_ℕ 0 ≼ x) xs → of_ℕ 0 ≼ sum xs
  unfolding sum
  sum_nonneg xs h = foldl-plus_nonneg xs (of_ℕ 0) (le_refl _) h

  All-le_trans : (x y : F) (zs : List F) → x ≼ y → All (λ z. y ≼ z) zs → All (λ z. x ≼ z) zs
  All-le_trans x y [] h k = tt
  All-le_trans x y (z ∷ zs) h k = (le_trans x y z h k.0, All-le_trans x y zs h k.1)

  -- `minimum` is below every element.
  pub minimum-le : (x : F) (ys : List F) → (minimum x ys ≼ x) × All (λ y. minimum x ys ≼ y) ys
  unfolding minimum
  minimum-le x [] = (le_refl x, tt)
  minimum-le x (y ∷ ys) =
      let (least, rest) = minimum-le (min x y) ys in
      let (left, right) = min-le x y in
      (le_trans _ _ _ least left, (le_trans _ _ _ least right, rest))

  -- and above every lower bound
  pub le-minimum : (x z : F) (ys : List F) → z ≼ x → All (λ y. z ≼ y) ys → z ≼ minimum x ys
  unfolding minimum
  le-minimum x z [] h k = h
  le-minimum x z (y ∷ ys) h k = le-minimum (min x y) z ys (le-min x y z h k.0) k.1
