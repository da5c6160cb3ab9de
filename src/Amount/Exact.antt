-- ===== src/Amount/Exact.antt =====
-- Amounts that pass check_amount are sent exactly, and amounts are read back.
use py_stellar_base.Prelude.{
  ℕ, zero, suc, ◌+◌, ◌-◌, ◌*◌, ◌/◌, ◌%◌, ◌^◌, ◌≤◌, ◌<◌, ◌≡◌, refl, ap, ◌∙◌, arith, true, not, ◌&&◌,
  ltb, leb,
}
use native.Mathlib.Nat.{pow-suc}
use py_stellar_base.Prelude.Int.{ℤ, pos, negsuc}
use py_stellar_base.Error.{ok, value_error, ◌>>◌, require, >>=-eq-ok, require-eq-ok}
use py_stellar_base.Decimal.{Decimal, is_integral, to_integer}
use py_stellar_base.Decimal.Digits.{fix-small, pow_pos}
use py_stellar_base.Amount.{
  one, max_amount, in_range, to_xdr_amount, small_exponent, stroops, check_amount,
}

-- A product of less than 28 digits is exact.
module _ (value : Decimal) (small : value.coefficient < 10 ^ 21) where
  pub to_xdr_amount_lem : to_xdr_amount value ≡ (do
    require (is_integral (value.coefficient * one) value.exponent) value_error
    require
        (in_range value.negative (to_integer (value.coefficient * one) value.exponent))
        value_error
    ok (to_integer (value.coefficient * one) value.exponent))
  unfolding to_xdr_amount
  to_xdr_amount_lem = rw (fix-small (value.coefficient * one) value.exponent (omega arith))

-- Seven decimal places are whole stroops.
shift_exact :
    (c k : ℕ) → k < 7 → (c * one % 10 ^ suc k ≡ 0) × (c * one / 10 ^ suc k ≡ c * 10 ^ (6 - k))
shift_exact c zero h = omega arith
shift_exact c (suc zero) h = omega arith
shift_exact c (suc (suc zero)) h = omega arith
shift_exact c (suc (suc (suc zero))) h = omega arith
shift_exact c (suc (suc (suc (suc zero)))) h = omega arith
shift_exact c (suc (suc (suc (suc (suc zero))))) h = omega arith
shift_exact c (suc (suc (suc (suc (suc (suc zero)))))) h = omega arith
shift_exact c (suc (suc (suc (suc (suc (suc (suc k))))))) h = absurd (omega arith)

pow_split : (k : ℕ) → 10 ^ (7 + k) ≡ one * 10 ^ k
pow_split zero = omega arith
pow_split (suc k) =
    let e : 7 + suc k ≡ suc (7 + k) = omega arith in
    rw e (omega (arith, pow-suc 10 (7 + k), pow-suc 10 k, pow_split k))

integral_stroops :
    (c : ℕ) (e : ℤ)
    → small_exponent e ≡ true
    → (is_integral (c * one) e ≡ true) × (to_integer (c * one) e ≡ stroops c e)
integral_stroops c (pos k) h = (refl, omega (arith, ap (λ (t : ℕ). c * t) (pow_split k)))
integral_stroops c (negsuc k) h = let (r, q) = shift_exact c k (ground arith) in (ground arith, q)

le-mul_pow : (c m : ℕ) → c ≤ c * 10 ^ m
le-mul_pow c m = grind (arith, pow_pos m)

coefficient-le-stroops : (c : ℕ) (e : ℤ) → c ≤ stroops c e
coefficient-le-stroops c (pos k) = le-mul_pow c (7 + k)
coefficient-le-stroops c (negsuc k) = le-mul_pow c (6 - k)

-- An amount that an operation's check lets through is converted exactly: the result is the coefficient
-- in units of the seventh decimal place, and it fits a signed 64-bit integer.
pub to_xdr_amount-check_amount :
    (value : Decimal)
    → check_amount value ≡ ok tt
    → (to_xdr_amount value ≡ ok (stroops value.coefficient value.exponent))
      × (stroops value.coefficient value.exponent < 2 ^ 63)
unfolding check_amount in_range
to_xdr_amount-check_amount value h =
    let c = value.coefficient in
    let e = value.exponent in
    let (_, r1, h1) = >>=-eq-ok (require (small_exponent e) _) _ h in
    let small : small_exponent e ≡ true = require-eq-ok _ _ r1 in
    let sized =
      require-eq-ok (not (value.negative && ltb 0 c) && leb (stroops c e) max_amount) _ h1 in
    let (integral, integer) = integral_stroops c e small in
    let bound : stroops c e ≤ max_amount = ground arith in
    (
      to_xdr_amount_lem value (omega (arith, coefficient-le-stroops c e))
          ∙ rw (integral, integer) (ground (arith, le-mul_pow c 0)),
      omega arith,
    )
