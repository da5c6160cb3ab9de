-- ===== src/Approximation/Reciprocal.antt =====
-- The fraction that is left is at most one, and its reciprocal at least one.
use py_stellar_base.Prelude.{
  ℕ, suc, ◌+◌, ◌-◌, ◌*◌, ◌%◌, ◌^◌, ◌≤◌, inl, inr, Bool-cases, ap, arith, leb,
}
use py_stellar_base.Prelude.Int.{ℤ, pos, negsuc, pos_part, neg_part, sub_ℕ}
use native.Mathlib.Nat.{
  mul-le-mul_right, pow-le-pow_right, le_of_mul-le-mul_right, mod-lt, le-div_iff_mul-le,
}
use py_stellar_base.Decimal.{digits, to_integer}
use py_stellar_base.Decimal.Digits.{pow_pos}
use py_stellar_base.Decimal.Bounds.{
  AtLeastOne, AtMostOne, AtLeastOne-sub_ℕ, fix-AtLeastOne, fix-AtMostOne, pow_add, pow_split,
  digits-bound,
}
use py_stellar_base.Approximation.{sticky, fraction, reciprocal}

pub fraction-AtMostOne : (c : ℕ) (e : ℤ) → AtMostOne ((fraction c e).0) ((fraction c e).1)
unfolding fraction
fraction-AtMostOne c (pos k) = omega arith
fraction-AtMostOne c (negsuc k) =
    fix-AtMostOne (c % 10 ^ suc k) (negsuc k) (omega (arith, mod-lt c (pow_pos (suc k))))

sticky-ge : (t power c : ℕ) → 1 ≤ c → t * c ≤ power → t ≤ sticky c power
sticky-ge t power c h p = ground (arith, (le-div_iff_mul-le h).1 p)

-- With S digits more than c has, the quotient 10 ^ S / c is long enough.
sticky-lower :
    (c p m shift : ℕ)
    → 1 ≤ c
    → c ≤ 10 ^ shift
    → c * 10 ^ p ≤ 10 ^ m
    → 10 ^ (p + shift) ≤ sticky c (10 ^ shift) * 10 ^ m
sticky-lower c p m shift h small le = elim (Bool-cases (leb m (p + shift))) [
  | inl e ↦
      (let q : m ≤ p + shift = ground arith in
        let t = 10 ^ (p + shift - m) in
        let below : t * c ≤ 10 ^ shift =
          le_of_mul-le-mul_right {k = 10 ^ m}
            (omega (
              arith,
              ap (λ n. n * c) (pow_split q),
              ap (λ n. n * c) (pow_add p shift),
              mul-le-mul_right (10 ^ shift) le,
            ))
            (pow_pos m) in
        omega (arith, pow_split q, mul-le-mul_right (10 ^ m) (sticky-ge t (10 ^ shift) c h below)))
  | inr e ↦
      (let q : p + shift ≤ m = ground arith in
        let some_digit : 1 ≤ sticky c (10 ^ shift) =
          sticky-ge 1 (10 ^ shift) c h (omega (arith, small)) in
        omega
          (arith, pow-le-pow_right {n = 10} (omega arith) q, mul-le-mul_right (10 ^ m) some_digit))
]

pub reciprocal-AtLeastOne :
    (c : ℕ) (e : ℤ) → 1 ≤ c → AtMostOne c e → AtLeastOne ((reciprocal c e).0) ((reciprocal c e).1)
unfolding reciprocal
reciprocal-AtLeastOne c e h p =
    let shift = digits c + 28 in
    fix-AtLeastOne (sticky c (10 ^ shift)) (sub_ℕ (neg_part e) (pos_part e + shift)) (
      AtLeastOne-sub_ℕ (sticky c (10 ^ shift)) (neg_part e) (pos_part e + shift)
        (sticky-lower c (pos_part e) (neg_part e) shift h (fits c) p))
  where
    fits : (c : ℕ) → c ≤ 10 ^ (digits c + 28)
    fits c = omega (
      arith,
      digits-bound c,
      pow-le-pow_right {n = 10} (omega arith) {i = digits c} {j = digits c + 28} (omega arith),
    )

pub to_integer-positive : (c : ℕ) (e : ℤ) → AtLeastOne c e → 1 ≤ to_integer c e
to_integer-positive c (pos k) h = h
to_integer-positive c (negsuc k) h = (le-div_iff_mul-le (pow_pos (suc k))).1 (omega (arith, h))
