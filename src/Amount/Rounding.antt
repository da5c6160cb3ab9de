-- ===== src/Amount/Rounding.antt =====
-- Reading amounts back, and the amounts that the 28 digits of the default context change.
use py_stellar_base.Prelude.{
  ℕ, zero, suc, ◌+◌, ◌-◌, ◌*◌, ◌/◌, ◌%◌, ◌^◌, ◌≤◌, ◌<◌, ◌≡◌, refl, ap, ◌∙◌, arith, true, false,
}
use native.Mathlib.Nat.{pow-suc}
use native.Mathlib.Decide.{ℕ_discrete}
use py_stellar_base.Prelude.Int.{negsuc, ◌+ℤ◌}
use py_stellar_base.Error.{ok, err, value_error}
use py_stellar_base.Decimal.{Decimal, half_even, digits, fix}
use py_stellar_base.Decimal.Digits.{digits_within_lem}
use py_stellar_base.Amount.{
  one, max_amount, to_xdr_amount, strip_zeros, from_xdr_amount, small_exponent, stroops,
  check_amount,
}
use py_stellar_base.Amount.Exact.{to_xdr_amount-check_amount}

record Strips (k n : ℕ) (d : Decimal) : Type 0 where
  sign : d.negative ≡ false
  small : small_exponent d.exponent ≡ true
  amount : stroops d.coefficient d.exponent ≡ n * 10 ^ (7 - k)

module _ (k n : ℕ) where
  strip_zero : n % 10 ≡ 0 → strip_zeros (suc k) n ≡ strip_zeros k (n / 10)
  unfolding strip_zeros
  strip_zero h = ground arith

  strip_done :
      ¬ (n % 10 ≡ 0)
      → strip_zeros (suc k) n ≡ record { negative = false; coefficient = n; exponent = negsuc k }
  unfolding strip_zeros
  strip_done h = ground arith

regroup : (n p : ℕ) → n % 10 ≡ 0 → n / 10 * (p * 10) ≡ n * p
regroup n p h = let e : n ≡ n / 10 * 10 = omega arith in omega (arith, ap (λ (t : ℕ). t * p) e)

strip_zeros-Strips : (k n : ℕ) → k ≤ 7 → Strips k n (strip_zeros k n)
strip_zeros-Strips zero n h =
    unfold strip_zeros in record { sign = refl; small = refl; amount = refl }
strip_zeros-Strips (suc k) n h = elim (ℕ_discrete (n % 10) 0) [
  | yes e ↦
      let ih = strip_zeros-Strips k (n / 10) (omega arith) in
      let p : 7 - k ≡ suc (7 - suc k) = omega arith in
      let m : n / 10 * 10 ^ (7 - k) ≡ n * 10 ^ (7 - suc k) =
        rw (p, pow-suc 10 (7 - suc k)) (regroup n (10 ^ (7 - suc k)) e) in
      rw (strip_zero k n e) (record { sign = ih.sign; small = ih.small; amount = ih.amount ∙ m })
  | no e ↦
      let p : 6 - k ≡ 7 - suc k = omega arith in
      rw (strip_done k n e)
        (record { sign = refl; small = ground arith; amount = ap (λ (t : ℕ). n * 10 ^ t) p })
]

checks :
    (n : ℕ) (d : Decimal)
    → Strips 7 n d
    → n ≤ max_amount
    → (check_amount d ≡ ok tt) × (stroops d.coefficient d.exponent ≡ n)
unfolding check_amount
checks n d s h =
    let e : stroops d.coefficient d.exponent ≡ n = s.amount ∙ omega arith in
    (rw (s.small, s.sign) (ground (arith, e)), e)

-- Every amount of the network is read back, and what it reads as passes the check of the operations.
pub to_xdr_amount-from_xdr_amount :
    (n : ℕ)
    → n ≤ max_amount
    → (check_amount (from_xdr_amount n) ≡ ok tt) × (to_xdr_amount (from_xdr_amount n) ≡ ok n)
unfolding from_xdr_amount
to_xdr_amount-from_xdr_amount n h =
    let (accepted, e) = checks n (strip_zeros 7 n) (strip_zeros-Strips 7 n (omega arith)) h in
    (accepted, (to_xdr_amount-check_amount (strip_zeros 7 n) accepted).0 ∙ ap ok e)

-- 1 and d units of the 35th decimal place.
abbrev pub long_amount : ℕ → Decimal
long_amount d = record { negative = false; coefficient = 10 ^ 35 + d; exponent = negsuc 34 }

digits-long : (d : ℕ) → d < 5 * 10 ^ 7 → digits ((10 ^ 35 + d) * one) ≡ 43
unfolding digits
digits-long d h =
    digits_within_lem _ ((10 ^ 35 + d) * one) 42 (omega arith) (omega arith) (omega arith)

half_even-long : (d : ℕ) → d < 5 * 10 ^ 7 → half_even ((10 ^ 35 + d) * one) (10 ^ 15) ≡ 10 ^ 27
unfolding half_even
half_even-long d h = ground arith

fix-long : (d : ℕ) → d < 5 * 10 ^ 7 → fix ((10 ^ 35 + d) * one) (negsuc 34) ≡ (10 ^ 27, negsuc 19)
unfolding fix ◌+ℤ◌
fix-long d h = rw (digits-long d h, half_even-long d h)

-- 1 and less than fifty million units of the 35th decimal place is sent as 1, though it has more than
-- seven decimal places, which check_amount refuses.
pub to_xdr_amount-long_amount :
    (d : ℕ)
    → d < 5 * 10 ^ 7
    → (to_xdr_amount (long_amount d) ≡ ok one) × (check_amount (long_amount d) ≡ err value_error)
unfolding to_xdr_amount check_amount
to_xdr_amount-long_amount d h = (rw (fix-long d h), refl)
