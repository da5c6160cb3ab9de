-- ===== src/Price.antt =====
-- stellar_sdk/price.py.
use py_stellar_base.Prelude.{ℕ, Bool, ◌&&◌}
use py_stellar_base.Prelude.Int.{ℤ, pos, ◌==ℤ◌}
use py_stellar_base.Error.{Result, ok, ◌>>=◌}
use py_stellar_base.Approximation.{best_rational_approximation}

pub record Price : Type 0 where
  pub n : ℤ
  pub d : ℤ

-- Xdr.types.Price
pub record XdrPrice : Type 0 where
  pub n : ℤ
  pub d : ℤ

-- `Price.from_raw_price`, of a price that is not negative, by its coefficient and exponent
unfoldable pub from_raw_price : ℕ → ℤ → Result Price
from_raw_price coefficient exponent = do
  best_r ← best_rational_approximation coefficient exponent
  ok (record { n = pos best_r.n; d = pos best_r.d })

unfoldable pub to_xdr_object : Price → XdrPrice
to_xdr_object p = record { n = p.n; d = p.d }

unfoldable pub from_xdr_object : XdrPrice → Price
from_xdr_object x = record { n = x.n; d = x.d }

-- `__eq__`
unfoldable pub price_eq : Price → Price → Bool
price_eq a b = a.n ==ℤ b.n && a.d ==ℤ b.d
