-- ===== src/Decimal.antt =====
-- What the SDK uses of Python's decimal module, for finite numbers: a sign, a coefficient and an
-- exponent, the default context of 28 digits with ROUND_HALF_EVEN, and to_integral_exact.
pub mod Digits
pub mod Bounds
use py_stellar_base.Prelude.{
  ℕ, zero, suc, ◌+◌, ◌-◌, ◌*◌, ◌/◌, ◌%◌, ◌^◌, Bool, true, false, not, ◌&&◌, ◌||◌, ltb, leb, ◌==◌,
  if◌then◌else◌,
}
use py_stellar_base.Prelude.Int.{ℤ, pos, negsuc, pos_part, neg_part, ◌+ℤ◌}

-- (-1) ^ negative * coefficient * 10 ^ exponent
pub record Decimal : Type 0 where
  pub negative : Bool
  pub coefficient : ℕ
  pub exponent : ℤ

abbrev pub precision : ℕ
precision = 28

-- How many decimal digits a coefficient has; `fuel` above the coefficient is enough.
unfoldable pub digits_within : ℕ → ℕ → ℕ
digits_within zero n = 1
digits_within (suc fuel) n = elim (leb n 9) [ true ↦ 1 | false ↦ suc (digits_within fuel (n / 10)) ]

unfoldable pub digits : ℕ → ℕ
digits n = digits_within n n

-- The quotient by d, rounded to the nearest, a tie to the even one.
unfoldable pub half_even : ℕ → ℕ → ℕ
half_even n d =
    let q = n / d in
    let twice = 2 * (n % d) in if ltb twice d then q else if ltb d twice then q + 1 else q + q % 2

-- `_fix` of a result in the default context: no more than 28 digits are kept.
unfoldable pub fix : ℕ → ℤ → ℕ × ℤ
unfolding digits
fix c e =
    let dropped = digits c - precision in
    let rounded = half_even c (10 ^ dropped) in
    if leb (digits c) precision
    then (c, e)
    else if rounded == 10 ^ precision
    then (10 ^ (precision - 1), e +ℤ pos (dropped + 1))
    else (rounded, e +ℤ pos dropped)

-- Whether `to_integral_exact` discards nothing, and the integer that is left.
abbrev pub is_integral : ℕ → ℤ → Bool
is_integral c (pos k) = true
is_integral c (negsuc k) = c % 10 ^ suc k == 0

abbrev pub to_integer : ℕ → ℤ → ℕ
to_integer c (pos k) = c * 10 ^ k
to_integer c (negsuc k) = c / 10 ^ suc k
