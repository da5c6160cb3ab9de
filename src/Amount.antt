-- ===== src/Amount.antt =====
-- Operation.to_xdr_amount and from_xdr_amount of stellar_sdk/operation/operation.py, and check_amount
-- of stellar_sdk/operation/utils.py. An amount is the finite Decimal that the argument reads as.
pub mod Exact
pub mod Rounding
use py_stellar_base.Prelude.{
  ℕ, zero, suc, ◌+◌, ◌-◌, ◌*◌, ◌/◌, ◌%◌, ◌^◌, Bool, true, false, not, ◌&&◌, ◌||◌, ltb, leb, ◌==◌,
  if◌then◌else◌,
}
use py_stellar_base.Prelude.Int.{ℤ, pos, negsuc}
use py_stellar_base.Error.{Result, ok, err, value_error, ◌>>=◌, ◌>>◌, require}
use py_stellar_base.Decimal.{Decimal, fix, is_integral, to_integer}

abbrev pub one : ℕ
one = 10 ^ 7

abbrev pub max_amount : ℕ
max_amount = 9223372036854775807

-- `amount < 0 or amount > 9223372036854775807`; minus zero is not below zero
unfoldable pub in_range : Bool → ℕ → Bool
in_range negative amount = not (negative && ltb 0 amount) && leb amount max_amount

-- `Decimal(value) * Operation._ONE` in the default context, then to_integral_exact, then the range
unfoldable pub to_xdr_amount : Decimal → Result ℕ
unfolding in_range
to_xdr_amount value =
    let (c, e) = fix (value.coefficient * one) value.exponent in
    do
      require (is_integral c e) value_error
      require (in_range value.negative (to_integer c e)) value_error
      ok (to_integer c e)

-- `Decimal(value) / Operation._ONE`: the quotient is exact, and its exponent is as near 0 as it can be.
unfoldable pub strip_zeros : ℕ → ℕ → Decimal
strip_zeros zero n = record { negative = false; coefficient = n; exponent = pos 0 }
strip_zeros (suc k) n = elim (n % 10 == 0) [
  | true ↦ strip_zeros k (n / 10)
  | false ↦ record { negative = false; coefficient = n; exponent = negsuc k }
]

unfoldable pub from_xdr_amount : ℕ → Decimal
from_xdr_amount value = strip_zeros 7 value

-- `abs(amount.as_tuple().exponent) > _EXPONENT`
abbrev pub small_exponent : ℤ → Bool
small_exponent (pos k) = leb k 7
small_exponent (negsuc k) = ltb k 7

-- The comparison with the limit, in units of 10 ^ -7; the exponent is small.
abbrev pub stroops : ℕ → ℤ → ℕ
stroops c (pos k) = c * 10 ^ (7 + k)
stroops c (negsuc k) = c * 10 ^ (6 - k)

unfoldable pub check_amount : Decimal → Result (Unit {0})
check_amount amount = do
  require (small_exponent amount.exponent) value_error
  require
      (not (amount.negative && ltb 0 amount.coefficient)
        && leb (stroops amount.coefficient amount.exponent) max_amount)
      value_error
