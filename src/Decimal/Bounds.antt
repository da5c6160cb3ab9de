-- ===== src/Decimal/Bounds.antt =====
-- Rounding to the context's 28 digits keeps a number on its side of one.
use mathlib.Core.Path.{subst}
use py_stellar_base.Prelude.{
  ℕ, ◌⊎◌, inl, inr, zero, suc, ◌+◌, ◌-◌, ◌*◌, ◌/◌, ◌%◌, ◌^◌, ◌≤◌, ◌<◌, ◌≡◌, ap, sym, ◌∙◌, arith,
  leb, inl, inr, Bool-cases,
}
use py_stellar_base.Prelude.Int.{ℤ, pos_part, neg_part, sub_ℕ, sub_ℕ-cases, ◌+ℤ◌}
use native.Mathlib.Nat.{
  pow-suc, le-div_iff_mul-le, le_of_mul-le-mul_right, lt_of_mul-lt-mul_right, mul-le-mul,
  mul-le-mul_right, pow-le-pow_right, div-mul-le_self, div-add-mod',
}
use py_stellar_base.Decimal.{digits_within, digits, half_even, fix}
use py_stellar_base.Decimal.Digits.{pow_pos}

pub pow_add : (a b : ℕ) → 10 ^ (a + b) ≡ 10 ^ a * 10 ^ b
pow_add zero b = omega (arith, ap (λ n. 10 ^ n) {x = 0 + b} {y = b} (omega arith))
pow_add (suc a) b = omega (
  arith,
  ap (λ n. 10 ^ n) {x = suc a + b} {y = suc (a + b)} (omega arith),
  pow-suc 10 (a + b),
  ap (λ n. n * 10 ^ b) (pow-suc 10 a),
  pow_add a b,
)

pub pow_split : {a b : ℕ} → b ≤ a → 10 ^ a ≡ 10 ^ (a - b) * 10 ^ b
pow_split {a} {b} h = ap (λ n. 10 ^ n) {x = a} {y = a - b + b} (omega arith) ∙ pow_add (a - b) b

-- half_even lies between the integers that its argument lies between.
pub half_even-ge : (t n d : ℕ) → 0 < d → t * d ≤ n → t ≤ half_even n d
unfolding half_even
half_even-ge t n d p h = ground (arith, (le-div_iff_mul-le p).1 h)

pub half_even-le : (t n d : ℕ) → 0 < d → n ≤ t * d → half_even n d ≤ t
unfolding half_even
half_even-le t n d p h = ground (arith, exact, below)
  where
    exact : n / d ≤ t
    exact = le_of_mul-le-mul_right {m = n / d} {k = d} (omega (arith, div-mul-le_self n d)) p

    below : 0 < n % d → n / d < t
    below r = lt_of_mul-lt-mul_right d (omega (arith, div-add-mod' n d))

digits_within-pow : (fuel n : ℕ) → 1 ≤ n → 10 ^ digits_within fuel n ≤ 10 * n
unfolding digits_within
digits_within-pow zero n h = omega arith
digits_within-pow (suc fuel) n h =
    let longer : 9 < n → 10 ^ digits_within fuel (n / 10) ≤ 10 * (n / 10) =
      λ p. digits_within-pow fuel (n / 10) (omega arith) in
    ground (arith, pow-suc 10 (digits_within fuel (n / 10)), longer)

digits_within-bound : (fuel n : ℕ) → n ≤ fuel → n < 10 ^ digits_within fuel n
unfolding digits_within
digits_within-bound zero n h = omega arith
digits_within-bound (suc fuel) n h =
    let longer : 9 < n → n / 10 < 10 ^ digits_within fuel (n / 10) =
      λ p. digits_within-bound fuel (n / 10) (omega arith) in
    ground (arith, pow-suc 10 (digits_within fuel (n / 10)), longer)

-- A coefficient lies between the powers of ten that its number of digits names.
pub digits-pow : (n : ℕ) → 1 ≤ n → 10 ^ digits n ≤ 10 * n
unfolding digits
digits-pow n h = digits_within-pow n n h

pub digits-bound : (n : ℕ) → n < 10 ^ digits n
unfolding digits
digits-bound n = digits_within-bound n n (omega arith)

-- x ≥ 1 and x ≤ 1, for x = c * 10 ^ e
abbrev pub AtLeastOne : ℕ → ℤ → Type 0
AtLeastOne c e = 10 ^ neg_part e ≤ c * 10 ^ pos_part e

abbrev pub AtMostOne : ℕ → ℤ → Type 0
AtMostOne c e = c * 10 ^ pos_part e ≤ 10 ^ neg_part e

pos_part-sub_ℕ : (p m : ℕ) → pos_part (sub_ℕ p m) ≡ p - m
pos_part-sub_ℕ p m = elim (sub_ℕ-cases p m) [
  | inl h ↦ ap pos_part (h.1)
  | inr h ↦ ap pos_part (h.1) ∙ omega (arith, h.0)
]

neg_part-sub_ℕ : (p m : ℕ) → neg_part (sub_ℕ p m) ≡ m - p
neg_part-sub_ℕ p m = elim (sub_ℕ-cases p m) [
  | inl h ↦ ap neg_part (h.1) ∙ omega (arith, h.0)
  | inr h ↦ ap neg_part (h.1) ∙ omega (arith, h.0)
]

-- Both sides, divided by the smaller power.
lower : (c p m : ℕ) → 10 ^ m ≤ c * 10 ^ p → 10 ^ (m - p) ≤ c * 10 ^ (p - m)
lower c p m h = elim (Bool-cases (leb m p)) [
  | inl e ↦
      (let q : m ≤ p = ground arith in
        le_of_mul-le-mul_right {k = 10 ^ m}
          (omega (
            arith,
            ap (λ n. c * n) (pow_split q),
            ap (λ n. 10 ^ n * 10 ^ m) {x = m - p} {y = 0} (omega arith),
          ))
          (pow_pos m))
  | inr e ↦
      (let q : p ≤ m = ground arith in
        le_of_mul-le-mul_right {k = 10 ^ p}
          (omega
            (arith, pow_split q, ap (λ n. c * 10 ^ n * 10 ^ p) {x = p - m} {y = 0} (omega arith)))
          (pow_pos p))
]

upper : (c p m : ℕ) → c * 10 ^ p ≤ 10 ^ m → c * 10 ^ (p - m) ≤ 10 ^ (m - p)
upper c p m h = elim (Bool-cases (leb m p)) [
  | inl e ↦
      (let q : m ≤ p = ground arith in
        le_of_mul-le-mul_right {k = 10 ^ m}
          (omega (
            arith,
            ap (λ n. c * n) (pow_split q),
            ap (λ n. 10 ^ n * 10 ^ m) {x = m - p} {y = 0} (omega arith),
          ))
          (pow_pos m))
  | inr e ↦
      (let q : p ≤ m = ground arith in
        le_of_mul-le-mul_right {k = 10 ^ p}
          (omega
            (arith, pow_split q, ap (λ n. c * 10 ^ n * 10 ^ p) {x = p - m} {y = 0} (omega arith)))
          (pow_pos p))
]

-- A difference of exponents is as good as a quotient of powers.
pub AtLeastOne-sub_ℕ : (c p m : ℕ) → 10 ^ m ≤ c * 10 ^ p → AtLeastOne c (sub_ℕ p m)
AtLeastOne-sub_ℕ c p m h = rw (pos_part-sub_ℕ p m, neg_part-sub_ℕ p m) (lower c p m h)

pub AtMostOne-sub_ℕ : (c p m : ℕ) → c * 10 ^ p ≤ 10 ^ m → AtMostOne c (sub_ℕ p m)
AtMostOne-sub_ℕ c p m h = rw (pos_part-sub_ℕ p m, neg_part-sub_ℕ p m) (upper c p m h)

-- The rounded coefficient keeps its first digits.
rounded-large : (c dropped : ℕ) → 10 ^ 27 * 10 ^ dropped ≤ c → 10 ^ 27 ≤ half_even c (10 ^ dropped)
rounded-large c dropped h = half_even-ge (10 ^ 27) c (10 ^ dropped) (pow_pos dropped) h

positive_product : {a b : ℕ} → 1 ≤ a → 1 ≤ b → 1 ≤ a * b
positive_product {a} {b} p q = mul-le-mul {n₁ = 1} {m₁ = 1} p q

-- 10 ^ m as a multiple of the two powers that rounding separates.
pow_split-2 :
    (p m dropped : ℕ) → p + dropped ≤ m → 10 ^ m ≡ 10 ^ (m - (p + dropped)) * 10 ^ dropped * 10 ^ p
pow_split-2 p m dropped h =
    omega (arith, pow_split h, ap (λ n. 10 ^ (m - (p + dropped)) * n) (pow_add p dropped))

rounded-lower :
    (c p m dropped : ℕ)
    → 10 ^ 27 * 10 ^ dropped ≤ c
    → 10 ^ m ≤ c * 10 ^ p
    → 10 ^ m ≤ half_even c (10 ^ dropped) * 10 ^ (p + dropped)
rounded-lower c p m dropped large h = elim (Bool-cases (leb (p + dropped) m)) [
  | inl e ↦
      (let q : p + dropped ≤ m = ground arith in
        let t = 10 ^ (m - (p + dropped)) in
        let below : t * 10 ^ dropped ≤ c =
          le_of_mul-le-mul_right {k = 10 ^ p} (omega (arith, pow_split-2 p m dropped q, h))
            (pow_pos p) in
        omega (
          arith,
          pow_split q,
          mul-le-mul_right (10 ^ (p + dropped))
              (half_even-ge t c (10 ^ dropped) (pow_pos dropped) below),
        ))
  | inr e ↦
      (let q : m ≤ p + dropped = ground arith in
        omega (
          arith,
          pow-le-pow_right {n = 10} (omega arith) q,
          mul-le-mul_right {m = 1} {n = half_even c (10 ^ dropped)} (10 ^ (p + dropped))
              (omega (arith, rounded-large c dropped large)),
        ))
]

rounded-upper :
    (c p m dropped : ℕ)
    → 10 ^ 27 * 10 ^ dropped ≤ c
    → c * 10 ^ p ≤ 10 ^ m
    → half_even c (10 ^ dropped) * 10 ^ (p + dropped) ≤ 10 ^ m
rounded-upper c p m dropped large h = elim (Bool-cases (leb (p + dropped) m)) [
  | inl e ↦
      (let q : p + dropped ≤ m = ground arith in
        let t = 10 ^ (m - (p + dropped)) in
        let above : c ≤ t * 10 ^ dropped =
          le_of_mul-le-mul_right {k = 10 ^ p} (omega (arith, pow_split-2 p m dropped q, h))
            (pow_pos p) in
        omega (
          arith,
          pow_split q,
          mul-le-mul_right (10 ^ (p + dropped))
              (half_even-le t c (10 ^ dropped) (pow_pos dropped) above),
        ))
  | inr e ↦ absurd (
      let q : m ≤ p + dropped = ground arith in
      omega (
        arith,
        h,
        pow-le-pow_right {n = 10} (omega arith) q,
        ap (λ n. 10 ^ 27 * n) (pow_add p dropped),
        mul-le-mul_right (10 ^ p) large,
        pow_pos (p + dropped),
      ))
]

-- The same for `_fix`, which may drop one digit more.
fix-cases :
    (c : ℕ) (e : ℤ)
    → let r = half_even c (10 ^ (digits c - 28)) in
      (fix c e ≡ (c, e))
      ⊎ ((28 < digits c)
          × ((fix c e ≡ (r, sub_ℕ (pos_part e + (digits c - 28)) (neg_part e)))
              ⊎ ((r ≡ 10 ^ 28)
                  × (fix c e ≡ (10 ^ 27, sub_ℕ (pos_part e + (digits c - 28 + 1)) (neg_part e))))))
unfolding fix ◌+ℤ◌
fix-cases c e = ground arith

carry-lower :
    (c p m d : ℕ) → c ≡ 10 ^ 28 → 10 ^ m ≤ c * 10 ^ (p + d) → 10 ^ m ≤ 10 ^ 27 * 10 ^ (p + (d + 1))
carry-lower c p m d e h = omega (
  arith,
  ap (λ n. n * 10 ^ (p + d)) e,
  ap (λ n. 10 ^ 27 * 10 ^ n) {x = p + (d + 1)} {y = suc (p + d)} (omega arith),
  pow-suc 10 (p + d),
)

carry-upper :
    (c p m d : ℕ) → c ≡ 10 ^ 28 → c * 10 ^ (p + d) ≤ 10 ^ m → 10 ^ 27 * 10 ^ (p + (d + 1)) ≤ 10 ^ m
carry-upper c p m d e h = omega (
  arith,
  ap (λ n. n * 10 ^ (p + d)) e,
  ap (λ n. 10 ^ 27 * 10 ^ n) {x = p + (d + 1)} {y = suc (p + d)} (omega arith),
  pow-suc 10 (p + d),
)

-- A coefficient that is rounded is large.
few_digits : ¬ (28 < digits 0)
unfolding digits digits_within
few_digits p = omega arith

many_digits-large : (c : ℕ) → 28 < digits c → 10 ^ 27 * 10 ^ (digits c - 28) ≤ c
many_digits-large zero h = absurd (few_digits h)
many_digits-large (suc n) h = omega (
  arith,
  digits-pow (suc n) (omega arith),
  ap (λ d. 10 ^ d) {x = digits (suc n)} {y = suc (27 + (digits (suc n) - 28))} (omega arith),
  pow-suc 10 (27 + (digits (suc n) - 28)),
  pow_add 27 (digits (suc n) - 28),
)

pub fix-AtLeastOne : (c : ℕ) (e : ℤ) → AtLeastOne c e → AtLeastOne ((fix c e).0) ((fix c e).1)
fix-AtLeastOne c e h =
    let d = digits c - 28 in
    let rounded : 28 < digits c → 10 ^ neg_part e ≤ half_even c (10 ^ d) * 10 ^ (pos_part e + d) =
      λ many. rounded-lower c (pos_part e) (neg_part e) d (many_digits-large c many) h in
    elim (fix-cases c e) [
      | inl q ↦ subst (λ x. AtLeastOne (x.0) (x.1)) (sym q) h
      | inr (many, inl q) ↦
          (subst (λ x. AtLeastOne (x.0) (x.1)) (sym q)
            (AtLeastOne-sub_ℕ (half_even c (10 ^ d)) (pos_part e + d) (neg_part e) (rounded many)))
      | inr (many, inr (full, q)) ↦
          (subst (λ x. AtLeastOne (x.0) (x.1)) (sym q)
            (AtLeastOne-sub_ℕ (10 ^ 27) (pos_part e + (d + 1)) (neg_part e)
              (carry-lower (half_even c (10 ^ d)) (pos_part e) (neg_part e) d full (rounded many))))
    ]

pub fix-AtMostOne : (c : ℕ) (e : ℤ) → AtMostOne c e → AtMostOne ((fix c e).0) ((fix c e).1)
fix-AtMostOne c e h =
    let d = digits c - 28 in
    let rounded : 28 < digits c → half_even c (10 ^ d) * 10 ^ (pos_part e + d) ≤ 10 ^ neg_part e =
      λ many. rounded-upper c (pos_part e) (neg_part e) d (many_digits-large c many) h in
    elim (fix-cases c e) [
      | inl q ↦ subst (λ x. AtMostOne (x.0) (x.1)) (sym q) h
      | inr (many, inl q) ↦
          (subst (λ x. AtMostOne (x.0) (x.1)) (sym q)
            (AtMostOne-sub_ℕ (half_even c (10 ^ d)) (pos_part e + d) (neg_part e) (rounded many)))
      | inr (many, inr (full, q)) ↦
          (subst (λ x. AtMostOne (x.0) (x.1)) (sym q)
            (AtMostOne-sub_ℕ (10 ^ 27) (pos_part e + (d + 1)) (neg_part e)
              (carry-upper (half_even c (10 ^ d)) (pos_part e) (neg_part e) d full (rounded many))))
    ]
