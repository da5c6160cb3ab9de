-- ===== src/Float.antt =====
-- What the SDK uses of Python's float: the quotient of two ints, rounded to the nearest number of 53 bits, a tie
-- to the even one, its comparison with an int, and `int`, which cuts off.
pub mod Exact
use py_stellar_base.Prelude.{ℕ, zero, suc, ◌+◌, ◌*◌, ◌/◌, ◌^◌, Bool, true, false, ltb, leb, ◌==◌}
use py_stellar_base.Decimal.{half_even}

-- mantissa * 2 ^ up / 2 ^ down
pub record Float : Type 0 where
  pub mantissa : ℕ
  pub up : ℕ
  pub down : ℕ

-- The least power of two that brings a / b to at least 2 ^ 52
unfoldable pub raised : ℕ → ℕ → ℕ → ℕ
raised zero a b = 0
raised (suc fuel) a b = elim (leb (2 ^ 52 * b) a) [ true ↦ 0 | false ↦ suc (raised fuel (a * 2) b) ]

-- The least power of two by which a / b comes below 2 ^ 53
unfoldable pub lowered : ℕ → ℕ → ℕ → ℕ
lowered zero a b = 0
lowered (suc fuel) a b = elim (ltb a (2 ^ 53 * b)) [
  | true ↦ 0
  | false ↦ suc (lowered fuel a (b * 2))
]

-- a / b, for b above 0
unfoldable pub true_divide : ℕ → ℕ → Float
unfolding raised lowered
true_divide a b = elim (a == 0) [
  | true ↦ record { mantissa = 0; up = 0; down = 0 }
  | false ↦ elim (ltb a (2 ^ 53 * b)) [
    | true ↦
        (let s = raised (b + 53) a b in
          record { mantissa = half_even (a * 2 ^ s) b; up = 0; down = s })
    | false ↦
        (let e = lowered a a b in record { mantissa = half_even a (b * 2 ^ e); up = e; down = 0 })
  ]
]

unfoldable pub int_of : Float → ℕ
int_of x = x.mantissa * 2 ^ x.up / 2 ^ x.down

-- `k < x`
unfoldable pub is_below : ℕ → Float → Bool
is_below k x = ltb (k * 2 ^ x.down) (x.mantissa * 2 ^ x.up)

-- `k > x`
unfoldable pub is_above : ℕ → Float → Bool
is_above k x = ltb (x.mantissa * 2 ^ x.up) (k * 2 ^ x.down)
