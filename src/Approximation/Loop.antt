-- ===== src/Approximation/Loop.antt =====
-- The loop: what a round does, and that 48 rounds are enough.
use py_stellar_base.Prelude.{ℕ, zero, suc, ◌+◌, ◌*◌, ◌≤◌, ◌<◌, ◌≡◌, ◌⊎◌, inl, inr, arith, some, ◌∙◌}
use py_stellar_base.Prelude.Int.{ℤ}
use native.Mathlib.Nat.{le_trans}
use py_stellar_base.Decimal.{to_integer}
use py_stellar_base.Decimal.Bounds.{AtLeastOne}
use py_stellar_base.Approximation.Reciprocal.{
  fraction-AtMostOne, reciprocal-AtLeastOne, to_integer-positive,
}
use py_stellar_base.Approximation.{
  int32_max, fraction, reciprocal, Fractions, append, approximate, start,
}

-- A round that goes on has a fraction left, and entries that fit.
pub record Continues (c : ℕ) (e : ℤ) (s : Fractions) : Type 0 where
  pub left : 1 ≤ (fraction c e).0
  pub h_fits : (append (to_integer c e) s).h1 ≤ int32_max
  pub k_fits : (append (to_integer c e) s).k1 ≤ int32_max

pub round-cases :
    (fuel c : ℕ) (e : ℤ) (s : Fractions)
    → let next = append (to_integer c e) s in
      let f = fraction c e in
      let x = reciprocal (f.0) (f.1) in
      (approximate (suc fuel) c e s ≡ some s)
      ⊎ ((next.h1 ≤ int32_max) × (next.k1 ≤ int32_max) × (approximate (suc fuel) c e s ≡ some next))
      ⊎ (Continues c e s × (approximate (suc fuel) c e s ≡ approximate fuel (x.0) (x.1) next))
unfolding approximate
round-cases fuel c e s = ground arith

-- The least that k can be after j further rounds: each adds the entry before to the last.
unfoldable pub grow : ℕ → ℕ → ℕ → ℕ
grow zero a b = a
grow (suc j) a b = grow j (a + b) a

grow_47 : int32_max < grow 47 1 0
unfolding grow
grow_47 = omega arith

next_AtLeastOne :
    (c : ℕ) (e : ℤ)
    → 1 ≤ (fraction c e).0
    → let f = fraction c e in let x = reciprocal (f.0) (f.1) in AtLeastOne (x.0) (x.1)
next_AtLeastOne c e h =
    reciprocal-AtLeastOne ((fraction c e).0) ((fraction c e).1) h (fraction-AtMostOne c e)

append-grows : (a k1 k2 : ℕ) → 1 ≤ a → k1 + k2 ≤ a * k1 + k2
append-grows zero k1 k2 h = elim h [ ]
append-grows (suc a) k1 k2 h = grind arith

-- Fuel j is enough from a number that is at least one, when k outgrows the bound in j rounds.
approximate-returns :
    (j c : ℕ) (e : ℤ) (s : Fractions) (a b : ℕ)
    → AtLeastOne c e
    → a ≤ s.k1
    → b ≤ s.k2
    → s.k1 ≤ int32_max
    → int32_max < grow j a b
    → (r : Fractions) × (approximate j c e s ≡ some r)
unfolding grow
approximate-returns zero c e s a b x≥1 p q bound enough = absurd (omega arith)
approximate-returns (suc j) c e s a b x≥1 p q bound enough = elim (round-cases j c e s) [
  | inl h ↦ (s, h)
  | inr (inl (h, k, n)) ↦ (append (to_integer c e) s, n)
  | inr (inr (m, n)) ↦
      (let grown : a + b ≤ to_integer c e * s.k1 + s.k2 =
          le_trans (omega arith)
            (append-grows (to_integer c e) s.k1 s.k2 (to_integer-positive c e x≥1)) in
        let rest =
          approximate-returns j ((reciprocal ((fraction c e).0) ((fraction c e).1)).0)
            ((reciprocal ((fraction c e).0) ((fraction c e).1)).1) (append (to_integer c e) s)
            (a + b) a (next_AtLeastOne c e m.left) grown p m.k_fits enough in
        (rest.0, n ∙ rest.1))
]

-- The first round's number need not be at least one; its entry has k = 1.
pub approximate_48 : (c : ℕ) (e : ℤ) → (r : Fractions) × (approximate 48 c e start ≡ some r)
approximate_48 c e = elim (round-cases 47 c e start) [
  | inl h ↦ (start, h)
  | inr (inl (h, k, n)) ↦ (append (to_integer c e) start, n)
  | inr (inr (m, n)) ↦
      (let rest =
          approximate-returns 47 ((reciprocal ((fraction c e).0) ((fraction c e).1)).0)
            ((reciprocal ((fraction c e).0) ((fraction c e).1)).1) (append (to_integer c e) start) 1
            0 (next_AtLeastOne c e m.left) (omega arith) (omega arith) m.k_fits grow_47 in
        (rest.0, n ∙ rest.1))
]
