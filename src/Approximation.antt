-- ===== src/Approximation.antt =====
-- best_rational_approximation of stellar_sdk/utils.py, for a Decimal that is not negative.
pub mod Reciprocal
pub mod Loop
pub mod Lowest
use py_stellar_base.Prelude.{
  ℕ, zero, suc, ◌+◌, ◌-◌, ◌*◌, ◌/◌, ◌%◌, ◌^◌, Bool, true, false, ◌||◌, Option, none, some, ltb,
  ◌==◌, if◌then◌else◌,
}
use py_stellar_base.Prelude.Int.{ℤ, pos, negsuc, pos_part, neg_part, sub_ℕ}
use py_stellar_base.Error.{Result, ok, err, no_approximation, out_of_fuel, ◌>>=◌, ◌>>◌, require}
use py_stellar_base.Decimal.{precision, digits, fix, to_integer}

abbrev pub int32_max : ℕ
int32_max = 2147483647

-- `x > int32_max`, for x = c * 10 ^ e
abbrev pub exceeds_max : ℕ → ℤ → Bool
exceeds_max c (pos k) = ltb int32_max (c * 10 ^ k)
exceeds_max c (negsuc k) = ltb (int32_max * 10 ^ suc k) c

-- `f = x - a`, for the floor a of x
unfoldable pub fraction : ℕ → ℤ → ℕ × ℤ
fraction c (pos k) = (0, pos 0)
fraction c (negsuc k) = fix (c % 10 ^ suc k) (negsuc k)

-- A quotient that is not exact ends in no 0 or 5, so that rounding it again is right.
abbrev pub sticky : ℕ → ℕ → ℕ
sticky c power = let q = power / c in if q * c == power then q else if q % 5 == 0 then q + 1 else q

-- `1 / f`: one digit more than the context keeps, then `_fix`
unfoldable pub reciprocal : ℕ → ℤ → ℕ × ℤ
reciprocal c e =
    let shift = digits c + precision in
    fix (sticky c (10 ^ shift)) (sub_ℕ (neg_part e) (pos_part e + shift))

-- The last two entries of `fractions`: h and k of each.
pub record Fractions : Type 0 where
  pub h1 : ℕ
  pub k1 : ℕ
  pub h2 : ℕ
  pub k2 : ℕ

abbrev pub append : ℕ → Fractions → Fractions
append a s = record { h1 = a * s.h1 + s.h2; k1 = a * s.k1 + s.k2; h2 = s.h1; k2 = s.k1 }

-- The `while True` loop on fuel; h and k are integers below 10 ^ 28, which the context keeps whole.
unfoldable pub approximate : ℕ → ℕ → ℤ → Fractions → Option Fractions
approximate zero c e s = none
approximate (suc fuel) c e s = elim (exceeds_max c e) [
  | true ↦ some s
  | false ↦
      (let next = append (to_integer c e) s in
        let f = fraction c e in
        elim (ltb int32_max next.h1 || ltb int32_max next.k1) [
          | true ↦ some s
          | false ↦ elim (f.0 == 0) [
            | true ↦ some next
            | false ↦ (let x = reciprocal f.0 f.1 in approximate fuel x.0 x.1 next)
          ]
        ])
]

-- The entries [0, 1] and [1, 0] that the loop starts with.
abbrev pub start : Fractions
start = record { h1 = 1; k1 = 0; h2 = 0; k2 = 1 }

-- The result {"n": n, "d": d}.
pub record Ratio : Type 0 where
  pub n : ℕ
  pub d : ℕ

unfoldable pub last_fraction : Option Fractions → Result Ratio
last_fraction none = err out_of_fuel
last_fraction (some s) =
    if s.h1 == 0 || s.k1 == 0 then err no_approximation else ok (record { n = s.h1; d = s.k1 })

-- 48 rounds are enough: see Loop.
unfoldable pub best_rational_approximation : ℕ → ℤ → Result Ratio
unfolding approximate last_fraction
best_rational_approximation c e = last_fraction (approximate 48 c e start)
