-- ===== src/TimeBounds.antt =====
-- stellar_sdk/time_bounds.py. Times are Python integers.
pub mod Range
use py_stellar_base.Prelude.{ℕ, ◌+◌, ◌-◌, Bool, true, false, not, ◌&&◌, ltb, leb, if◌then◌else◌}
use py_stellar_base.Prelude.Int.{ℤ, pos, negsuc, ltb_ℤ, ◌==ℤ◌}
use py_stellar_base.Error.{Result, ok, err, value_error, ◌>>=◌, ◌>>◌, require}

pub record TimeBounds : Type 0 where
  pub min_time : ℤ
  pub max_time : ℤ

-- Xdr.types.TimeBounds
pub record XdrTimeBounds : Type 0 where
  pub min_time : ℤ
  pub max_time : ℤ

-- `TimeBounds.__init__`
unfoldable pub time_bounds : ℤ → ℤ → Result TimeBounds
time_bounds min_time max_time = do
  require (not (ltb_ℤ min_time (pos 0))) value_error
  require (not (ltb_ℤ max_time (pos 0))) value_error
  require (not (ltb_ℤ (pos 0) max_time && ltb_ℤ max_time min_time)) value_error
  ok (record { min_time = min_time; max_time = max_time })

unfoldable pub to_xdr_object : TimeBounds → XdrTimeBounds
to_xdr_object t = record { min_time = t.min_time; max_time = t.max_time }

unfoldable pub from_xdr_object : XdrTimeBounds → Result TimeBounds
unfolding time_bounds
from_xdr_object x = time_bounds x.min_time x.max_time

-- `__eq__`
unfoldable pub time_bounds_eq : TimeBounds → TimeBounds → Bool
time_bounds_eq a b = a.min_time ==ℤ b.min_time && a.max_time ==ℤ b.max_time
