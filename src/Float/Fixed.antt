-- ===== src/Float/Fixed.antt =====
-- Numbers that have the laws of `Float.Laws`, for the tests: fixed-point numbers with twelve decimals,
-- whose products and quotients are cut off towards zero and which are never rounded further.
use nimbus_mesh_x.Base.{ℕ, ◌+◌, ◌*◌, ◌/◌, ◌^◌, ◌≤◌, ◌<◌, ◌≡◌, refl, Bool, leb, arith}
use nimbus_mesh_x.Base.Int.{ℤ, pos, negsuc, pos_part, neg_part, ◌+ℤ◌, ◌-ℤ◌, sub_ℕ}
use native.Mathlib.Nat.{
  div-mul-le_self, le-div_iff_mul-le, le_of_mul-le-mul_right, mul-le-mul_right, mul-le-mul,
  one-le-pow, le_trans, pow-le-pow_right, zero-div,
}
use nimbus_mesh_x.Float.{Float, ◌≼◌, ◌≺◌}
use nimbus_mesh_x.Float.Laws.{IsFloat}

abbrev pub one : ℕ
one = 1_000_000_000_000

abbrev pub fixed_le : ℤ → ℤ → Bool
fixed_le a b = leb (pos_part a + neg_part b) (pos_part b + neg_part a)

abbrev pub fixed_decimal : ℕ → ℕ → ℤ
fixed_decimal m d = pos (m * one / 10 ^ d)

abbrev pub fixed_times : ℤ → ℤ → ℤ
fixed_times a b =
    sub_ℕ ((pos_part a * pos_part b + neg_part a * neg_part b) / one)
      ((pos_part a * neg_part b + neg_part a * pos_part b) / one)

abbrev pub fixed_over : ℤ → ℤ → ℤ
fixed_over a b =
    let size = pos_part b + neg_part b in
    sub_ℕ ((pos_part a * pos_part b + neg_part a * neg_part b) * one / (size * size))
      ((pos_part a * neg_part b + neg_part a * pos_part b) * one / (size * size))

instance abbrev pub fixed_float : Float ℤ
fixed_float = record {
  le = fixed_le;
  plus = ◌+ℤ◌;
  minus = ◌-ℤ◌;
  times = fixed_times;
  over = fixed_over;
  negate = λ a. pos 0 -ℤ a;
  decimal = fixed_decimal;
  round = λ x _. x;
  trunc = λ x. pos_part x / one;
  ceil = λ x. (pos_part x + 999_999_999_999) / one;
  infinity = pos (10 ^ 400);
}

div_cross : (a b d e : ℕ) → 0 < d → 0 < e → a * e ≤ b * d → a / d ≤ b / e
div_cross a b d e hd he h =
    let q = a / d in
    let low : q * d ≤ a = div-mul-le_self a d in
    let scaled : q * d * e ≤ a * e = mul-le-mul_right e low in
    (le-div_iff_mul-le he).1 (le_of_mul-le-mul_right {k = d} (omega arith) hd)

mul_div_mono : (a b c d : ℕ) → a ≤ b → c ≤ d → a * c / one ≤ b * d / one
mul_div_mono a b c d h k = let grows : a * c ≤ b * d = mul-le-mul h k in omega arith

ten_pow_pos : (d : ℕ) → 0 < 10 ^ d
ten_pow_pos d = one-le-pow d 10 (omega arith)

fixed_times_mono :
    (a b c d : ℤ) → pos 0 ≼ a → a ≼ b → pos 0 ≼ c → c ≼ d → fixed_times a c ≼ fixed_times b d
fixed_times_mono (pos a) (pos b) (pos c) (pos d) h i j k = ground (arith, mul_div_mono a b c d)
fixed_times_mono a b c d h i j k = absurd (ground arith)

fixed_times_nonneg : (a b : ℤ) → pos 0 ≼ a → pos 0 ≼ b → pos 0 ≼ fixed_times a b
fixed_times_nonneg (pos a) (pos b) h k = ground arith
fixed_times_nonneg a b h k = absurd (ground arith)

fixed_over_nonneg : (a b : ℤ) → pos 0 ≼ a → pos 0 ≺ b → pos 0 ≼ fixed_over a b
fixed_over_nonneg (pos a) (pos b) h k = ground (arith, zero-div ((b + 0) * (b + 0)))
fixed_over_nonneg a b h k = absurd (ground arith)

fixed_zero_times : (x : ℤ) → pos 0 ≼ x → fixed_times (pos 0) x ≡ pos 0
fixed_zero_times (pos n) h = ground arith
fixed_zero_times (negsuc n) h = ground arith

fixed_times_one :
    (x : ℤ) → (fixed_times x (fixed_decimal 1 0) ≼ x) × (x ≼ fixed_times x (fixed_decimal 1 0))
fixed_times_one (pos n) = ground arith
fixed_times_one (negsuc n) = ground arith

fixed_decimal_mono : (m d n e : ℕ) → m * 10 ^ e ≤ n * 10 ^ d → fixed_decimal m d ≼ fixed_decimal n e
fixed_decimal_mono m d n e h =
    let scaled : m * 10 ^ e * one ≤ n * 10 ^ d * one = mul-le-mul_right one h in
    ground (
      arith,
      div_cross (m * one) (n * one) (10 ^ d) (10 ^ e) (ten_pow_pos d) (ten_pow_pos e) (omega arith),
    )

fixed_decimal_pos : (m d : ℕ) → 0 < m → d ≤ 9 → pos 0 ≺ fixed_decimal m d
fixed_decimal_pos m d h k =
    let small : 10 ^ d ≤ 10 ^ 9 = pow-le-pow_right (omega arith) k in
    let large : 10 ^ d ≤ m * one = le_trans small (omega (arith, mul-le-mul_right one h)) in
    let quotient : 1 ≤ m * one / 10 ^ d = (le-div_iff_mul-le (ten_pow_pos d)).1 (omega arith) in
    ground arith

fixed_ceil_mono :
    (x y : ℤ) → x ≼ y → (pos_part x + 999_999_999_999) / one ≤ (pos_part y + 999_999_999_999) / one
fixed_ceil_mono (pos x) (pos y) h = ground arith
fixed_ceil_mono x y h = ground arith

fixed_trunc_mono : (x y : ℤ) → x ≼ y → pos_part x / one ≤ pos_part y / one
fixed_trunc_mono (pos x) (pos y) h = ground arith
fixed_trunc_mono x y h = ground arith

pub Fixed-IsFloat : IsFloat ℤ
unfolding ◌+ℤ◌ ◌-ℤ◌
Fixed-IsFloat = record {
  le_trans = λ x y z h k. ground arith;
  le_total = λ x y. ground arith;
  plus_mono = λ a b c d h k. ground arith;
  plus_zero = λ x. ground arith;
  plus_comm = λ x y. ground arith;
  minus_mono = λ a b c d h k. ground arith;
  minus_self = λ x. ground arith;
  minus_zero = λ x. ground arith;
  times_mono = fixed_times_mono;
  times_nonneg = fixed_times_nonneg;
  zero_times = fixed_zero_times;
  times_one = fixed_times_one;
  over_nonneg = fixed_over_nonneg;
  decimal_mono = fixed_decimal_mono;
  decimal_pos = fixed_decimal_pos;
  round_mono = λ x y n h. h;
  round_decimal = λ m d h. refl;
  trunc_mono = fixed_trunc_mono;
  trunc_of_ℕ = λ n h. ground arith;
  ceil_mono = fixed_ceil_mono;
  ceil_of_ℕ = λ n h. ground arith;
  finite_of_ℕ = λ n h. ground arith;
  negative_infinity = refl;
}
