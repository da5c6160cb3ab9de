-- ===== src/Float/Exact.antt =====
-- Quotients that a float holds exactly, and comparisons that it decides as the exact quotient does.
use mathlib.Core.Path.{subst}
use py_stellar_base.Prelude.{
  ℕ, zero, suc, ◌+◌, ◌*◌, ◌/◌, ◌%◌, ◌^◌, ◌≤◌, ◌<◌, ◌≡◌, refl, ap, sym, ◌∙◌, arith, true, false, ltb,
  leb, ltb→lt, lt→ltb, leb→le, ◌==◌, ==_iff, Bool-cases, inl, inr,
}
use native.Mathlib.Nat.{
  div-eq_of_eq-mul_left, mul-le-mul_right, mul_right_comm, pow-suc, pow-succ', mul_assoc,
  le-div_iff_mul-le, div-add-mod', lt_of_mul-lt-mul_right, div-mul-le_self,
}
use py_stellar_base.Decimal.{half_even}
use py_stellar_base.Decimal.Bounds.{half_even-ge, half_even-le}
use py_stellar_base.Float.{raised, lowered, true_divide, int_of, is_below}

pow_2_pos : (s : ℕ) → 1 ≤ 2 ^ s
pow_2_pos zero = omega arith
pow_2_pos (suc s) = omega (arith, pow-suc 2 s, pow_2_pos s)

half_even-exact : (k n : ℕ) → 0 < n → half_even (k * n) n ≡ k
half_even-exact k n p =
    omega
      (arith, half_even-ge k (k * n) n p (omega arith), half_even-le k (k * n) n p (omega arith))

-- The product by a positive number, whether there is one
zero_product : (b n : ℕ) → 0 < n → ((b * n) == 0) ≡ true → b ≡ 0
zero_product zero n p h = refl
zero_product (suc b) n p h =
    omega (arith, (==_iff (suc b * n) 0).0 h, mul-le-mul_right {m = 1} {n = suc b} n (omega arith))

below_product : (b c n : ℕ) → b < c → 0 < n → ltb (b * n) (c * n) ≡ true
below_product b c n h p =
    lt→ltb (b * n) (c * n) (omega (arith, mul-le-mul_right {m = suc b} {n = c} n h))

half_even-shifted : (b n s : ℕ) → 0 < n → half_even (b * n * 2 ^ s) n ≡ b * 2 ^ s
half_even-shifted b n s p =
    ap (λ x. half_even x n) (mul_right_comm b n (2 ^ s)) ∙ half_even-exact (b * 2 ^ s) n p

-- The quotient by its cases
true_divide-zero :
    (a b : ℕ) → (a == 0) ≡ true → true_divide a b ≡ record { mantissa = 0; up = 0; down = 0 }
unfolding true_divide
true_divide-zero a b z = rw (true_divide, z) refl

true_divide-small :
    (a b : ℕ)
    → (a == 0) ≡ false
    → ltb a (2 ^ 53 * b) ≡ true
    → true_divide a b ≡ record {
      mantissa = half_even (a * 2 ^ raised (b + 53) a b) b;
      up = 0;
      down = raised (b + 53) a b;
    }
unfolding true_divide
true_divide-small a b z h = rw (true_divide, z, h) refl

-- A quotient that comes out even below 2 ^ 53 is exact.
pub int_of-true_divide : (b n : ℕ) → b < 2 ^ 53 → 0 < n → int_of (true_divide (b * n) n) ≡ b
unfolding int_of
int_of-true_divide b n small p = elim (Bool-cases ((b * n) == 0)) [
  | inl z ↦ rw (true_divide-zero (b * n) n z, zero_product b n p z) refl
  | inr z ↦
      (let s = raised (n + 53) (b * n) n in
        rw
          (
            true_divide-small (b * n) n z (below_product b (2 ^ 53) n small p),
            half_even-shifted b n s p,
          )
          (div-eq_of_eq-mul_left (pow_2_pos s) (omega arith)))
]

pow_shift : (a f : ℕ) → a * 2 ^ suc f ≡ a * 2 * 2 ^ f
pow_shift a f = ap (λ x. a * x) (pow-succ' 2 f) ∙ sym (mul_assoc a 2 (2 ^ f))

-- The fuel of `raised` is enough.
raised-enough : (fuel a b : ℕ) → 2 ^ 52 * b ≤ a * 2 ^ fuel → 2 ^ 52 * b ≤ a * 2 ^ raised fuel a b
unfolding raised
raised-enough zero a b h = h
raised-enough (suc fuel) a b h = elim (Bool-cases (leb (2 ^ 52 * b) a)) [
  | inl l ↦ rw (raised, l) (omega (arith, leb→le (2 ^ 52 * b) a l))
  | inr l ↦
      (let next = raised-enough fuel (a * 2) b (omega (arith, pow_shift a fuel, h)) in
        rw (raised, l) (omega (arith, next, pow_shift a (raised fuel (a * 2) b))))
]

fuel-enough : (b : ℕ) → 2 ^ 52 * (b + 1) ≤ 2 ^ (b + 53)
fuel-enough zero = omega arith
fuel-enough (suc b) = omega (
  arith,
  ap (λ n. 2 ^ n) {x = suc b + 53} {y = suc (b + 53)} (omega arith) ∙ pow-suc 2 (b + 53),
  fuel-enough b,
)

raised-large : (a b : ℕ) → 1 ≤ a → 2 ^ 52 * b ≤ a * 2 ^ raised (b + 53) a b
raised-large a b h =
    raised-enough (b + 53) a b
      (omega (arith, fuel-enough b, mul-le-mul_right {m = 1} {n = a} (2 ^ (b + 53)) h))

-- More than half of the divisor above a multiple is rounded up.
not_lt : (a b : ℕ) → ltb a b ≡ false → b ≤ a
not_lt a b h = ground arith

not_ltb : (a b : ℕ) → b ≤ a → ltb a b ≡ false
not_ltb a b h = ground arith

not_le : (a b : ℕ) → leb a b ≡ false → b < a
not_le a b h = ground arith

half_even-up : (t n d : ℕ) → 0 < d → 2 * (t * d) + d < 2 * n → suc t ≤ half_even n d
unfolding half_even
half_even-up t n d p h = elim (Bool-cases (leb (suc t * d) n)) [
  | inl l ↦ half_even-ge (suc t) n d p (leb→le (suc t * d) n l)
  | inr l ↦
      (let at_most : n / d < suc t =
          lt_of_mul-lt-mul_right d (omega (arith, div-mul-le_self n d, not_le (suc t * d) n l)) in
        let at_least : t ≤ n / d = (le-div_iff_mul-le p).1 (omega (arith, h)) in
        let same : n / d ≡ t = omega arith in
        let rest : t * d + n % d ≡ n = subst (λ q. q * d + n % d ≡ n) same (div-add-mod' n d) in
        let above : ltb (2 * (n % d)) d ≡ false = ground arith in
        let over : ltb d (2 * (n % d)) ≡ true = lt→ltb d (2 * (n % d)) (omega (arith, h, rest)) in
        rw (above, over, same) (omega arith))
]

below_shifted :
    (k a b s : ℕ)
    → 0 < b
    → b < 2 * 2 ^ s
    → ltb (k * 2 ^ s) (half_even (a * 2 ^ s) b) ≡ ltb (k * b) a
below_shifted k a b s p wide = elim (Bool-cases (ltb (k * b) a)) [
  | inl l ↦
      (let apart = mul-le-mul_right {m = suc (k * b)} {n = a} (2 ^ s) (ltb→lt (k * b) a l) in
        let up =
          half_even-up (k * 2 ^ s) (a * 2 ^ s) b p
            (omega (arith, apart, mul_right_comm k b (2 ^ s), wide)) in
        lt→ltb (k * 2 ^ s) (half_even (a * 2 ^ s) b) up ∙ sym l)
  | inr l ↦
      (let together = mul-le-mul_right {m = a} {n = k * b} (2 ^ s) (not_lt (k * b) a l) in
        let down =
          half_even-le (k * 2 ^ s) (a * 2 ^ s) b p
            (omega (arith, together, mul_right_comm k b (2 ^ s))) in
        not_ltb (k * 2 ^ s) (half_even (a * 2 ^ s) b) down ∙ sym l)
]

-- Which integers the float of a quotient is above: those that the quotient is above, if the dividend is below 2 ^ 53.
pub is_below-true_divide :
    (k a b : ℕ) → a < 2 ^ 53 → 0 < b → is_below k (true_divide a b) ≡ ltb (k * b) a
unfolding is_below
is_below-true_divide k a b small p = elim (Bool-cases (a == 0)) [
  | inl z ↦
      (let none = (==_iff a 0).0 z in
        rw (true_divide-zero a b z)
          (not_ltb (k * 2 ^ 0) (0 * 2 ^ 0) (omega arith) ∙ sym (not_ltb (k * b) a (omega arith))))
  | inr z ↦
      (let s = raised (b + 53) a b in
        let positive : 1 ≤ a = ground arith in
        let room : a < 2 ^ 53 * b = omega arith in
        let wide : b < 2 * 2 ^ s = omega (
          arith,
          raised-large a b positive,
          mul-le-mul_right {m = suc a} {n = 2 ^ 53} (2 ^ s) small,
          pow_2_pos s,
        ) in
        rw (true_divide-small a b z (lt→ltb a (2 ^ 53 * b) room)) (
          ap (λ x. ltb (k * 2 ^ s) x) {x = half_even (a * 2 ^ s) b * 2 ^ 0}
            {y = half_even (a * 2 ^ s) b} (omega arith)
          ∙ below_shifted k a b s p wide))
]

-- The fuel of `lowered` is enough too.
lowered-enough :
    (fuel a b : ℕ) → a < 2 ^ 53 * (b * 2 ^ fuel) → a < 2 ^ 53 * (b * 2 ^ lowered fuel a b)
unfolding lowered
lowered-enough zero a b h = h
lowered-enough (suc fuel) a b h = elim (Bool-cases (ltb a (2 ^ 53 * b))) [
  | inl l ↦ rw (lowered, l) (omega (arith, ltb→lt a (2 ^ 53 * b) l))
  | inr l ↦
      (let next = lowered-enough fuel a (b * 2) (omega (arith, pow_shift b fuel, h)) in
        rw (lowered, l) (omega (arith, next, pow_shift b (lowered fuel a (b * 2)))))
]

lt-pow_2 : (a : ℕ) → a < 2 ^ a
lt-pow_2 zero = omega arith
lt-pow_2 (suc a) = omega (arith, pow-suc 2 a, lt-pow_2 a)

lowered-small : (a b : ℕ) → 1 ≤ b → a < 2 ^ 53 * (b * 2 ^ lowered a a b)
lowered-small a b h =
    lowered-enough a a b (omega (arith, lt-pow_2 a, mul-le-mul_right {m = 1} {n = b} (2 ^ a) h))
