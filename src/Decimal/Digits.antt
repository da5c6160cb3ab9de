-- ===== src/Decimal/Digits.antt =====
-- The number of digits, by powers of ten, and results that need no rounding.
use py_stellar_base.Prelude.{ℕ, zero, suc, ◌/◌, ◌^◌, ◌≤◌, ◌<◌, ◌≡◌, refl, arith, true, leb}
use native.Mathlib.Nat.{pow-suc}
use py_stellar_base.Prelude.Int.{ℤ}
use py_stellar_base.Decimal.{digits_within, fix}

pub pow_pos : (k : ℕ) → 1 ≤ 10 ^ k
pow_pos zero = omega arith
pow_pos (suc k) = omega (arith, pow-suc 10 k, pow_pos k)

digits_within-le : (fuel n k : ℕ) → n < 10 ^ suc k → digits_within fuel n ≤ suc k
unfolding digits_within
digits_within-le zero n k h = omega arith
digits_within-le (suc fuel) n zero h = ground arith
digits_within-le (suc fuel) n (suc k) h =
    ground (arith, digits_within-le fuel (n / 10) k (omega (arith, pow-suc 10 (suc k))))

-- A coefficient below 10 ^ 28 has at most 28 digits, and is not rounded.
pub fix-small : (c : ℕ) (e : ℤ) → c < 10 ^ 28 → fix c e ≡ (c, e)
unfolding fix
fix-small c e h = rw (fits (digits_within-le c c 27 h))
  where
    fits : digits_within c c ≤ 28 → leb (digits_within c c) 28 ≡ true
    fits p = ground arith

-- A number between two powers of ten has that many digits.
pub digits_within_lem :
    (fuel n k : ℕ) → 10 ^ k ≤ n → n < 10 ^ suc k → k ≤ fuel → digits_within fuel n ≡ suc k
unfolding digits_within
digits_within_lem zero n zero lo hi h = refl
digits_within_lem zero n (suc k) lo hi h = absurd (omega arith)
digits_within_lem (suc fuel) n zero lo hi h = ground arith
digits_within_lem (suc fuel) n (suc k) lo hi h = ground (
  arith,
  digits_within_lem fuel (n / 10) k (omega (arith, pow-suc 10 k))
      (omega (arith, pow-suc 10 (suc k))) (omega arith),
  pow_pos k,
  pow-suc 10 k,
)
