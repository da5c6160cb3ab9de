-- ===== src/TimeBounds/Range.antt =====
-- Which bounds are accepted.
use py_stellar_base.Prelude.{
  Bool-cases, leb→le, zero, suc, ◌≤◌, ◌≡◌, refl, ◌⊎◌, inl, inr, arith, leb,
}
use py_stellar_base.Prelude.Int.{ℤ, pos, negsuc}
use py_stellar_base.Error.{ok, err, value_error}
use py_stellar_base.TimeBounds.{TimeBounds, time_bounds, to_xdr_object, from_xdr_object}

-- Both times are natural numbers, and the later one is unset (0) or no less than the earlier.
abbrev pub IsRange : ℤ → ℤ → Type 0
IsRange (pos lo) (pos hi) = (hi ≡ 0) ⊎ (lo ≤ hi)
IsRange (pos lo) (negsuc hi) = ⊥
IsRange (negsuc lo) (pos hi) = ⊥
IsRange (negsuc lo) (negsuc hi) = ⊥

in_range :
    (lo hi : ℤ) → IsRange lo hi → time_bounds lo hi ≡ ok (record { min_time = lo; max_time = hi })
unfolding time_bounds
in_range (pos lo) (pos hi) h = ground arith
in_range (pos lo) (negsuc hi) h = absurd h
in_range (negsuc lo) (pos hi) h = absurd h
in_range (negsuc lo) (negsuc hi) h = absurd h

-- The constructor returns the given times if they form a range, and raises ValueError if they do not.
pub time_bounds_accepts :
    (lo hi : ℤ)
    → (IsRange lo hi × (time_bounds lo hi ≡ ok (record { min_time = lo; max_time = hi })))
      ⊎ (¬ IsRange lo hi × (time_bounds lo hi ≡ err value_error))
unfolding time_bounds
time_bounds_accepts (pos lo) (pos zero) = inl (inl refl, ground arith)
time_bounds_accepts (pos lo) (pos (suc hi)) = elim (Bool-cases (leb lo (suc hi))) [
  | inl e ↦ inl (inr (leb→le lo (suc hi) e), ground arith)
  | inr e ↦ inr (λ h. ground arith, ground arith)
]
time_bounds_accepts (pos lo) (negsuc hi) = inr (λ h. h, ground arith)
time_bounds_accepts (negsuc lo) (pos hi) = inr (λ h. h, ground arith)
time_bounds_accepts (negsuc lo) (negsuc hi) = inr (λ h. h, ground arith)

-- Accepted bounds are read back from their XDR structure.
pub time_bounds-from_xdr-to_xdr :
    (t : TimeBounds) → IsRange t.min_time t.max_time → from_xdr_object (to_xdr_object t) ≡ ok t
unfolding from_xdr_object to_xdr_object
time_bounds-from_xdr-to_xdr t h = in_range t.min_time t.max_time h
