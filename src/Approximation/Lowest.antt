-- ===== src/Approximation/Lowest.antt =====
-- The entries of the loop are in lowest terms and below 2 ^ 31, and so is the result.
use py_stellar_base.Prelude.{
  ℕ, zero, suc, ◌+◌, ◌*◌, ◌≤◌, ◌≡◌, ◌⊎◌, inl, inr, refl, ap, sym, arith, ◌==◌, some, ◌∙◌, ◌||◌, leb,
  Option, Bool-cases,
}
use mathlib.Core.Path.{subst}
use mathlib.Core.Option.{some-injective}
use native.Mathlib.Nat.{mul-le-mul_right}
use py_stellar_base.Prelude.Int.{ℤ}
use py_stellar_base.Error.{ok, err, no_approximation}
use py_stellar_base.Decimal.{to_integer}
use py_stellar_base.Approximation.Loop.{round-cases, approximate_48}
use py_stellar_base.Approximation.{
  int32_max, fraction, reciprocal, Fractions, append, approximate, start, Ratio, last_fraction,
  best_rational_approximation,
}

-- h1 * k2 - h2 * k1 is 1 or -1.
abbrev pub Unimodular : Fractions → Type 0
Unimodular s = (s.h1 * s.k2 ≡ s.h2 * s.k1 + 1) ⊎ (s.h2 * s.k1 ≡ s.h1 * s.k2 + 1)

pub record Convergent (s : Fractions) : Type 0 where
  pub h_bound : s.h1 ≤ int32_max
  pub k_bound : s.k1 ≤ int32_max
  pub unimodular : Unimodular s

append-Unimodular : (a : ℕ) (s : Fractions) → Unimodular s → Unimodular (append a s)
append-Unimodular a s (inl h) = inr (omega (arith, h))
append-Unimodular a s (inr h) = inl (omega (arith, h))

pub approximate-Convergent :
    (fuel c : ℕ) (e : ℤ) (s r : Fractions)
    → Convergent s
    → approximate fuel c e s ≡ some r
    → Convergent r
unfolding approximate
approximate-Convergent zero c e s r inv h = cc
approximate-Convergent (suc fuel) c e s r inv h = elim (round-cases fuel c e s) [
  | inl n ↦ subst Convergent (some-injective s r (sym n ∙ h)) inv
  | inr (inl (p, q, n)) ↦
      subst Convergent (some-injective (append (to_integer c e) s) r (sym n ∙ h)) (record {
        h_bound = p;
        k_bound = q;
        unimodular = append-Unimodular (to_integer c e) s inv.unimodular;
      })
  | inr (inr (m, n)) ↦
      approximate-Convergent fuel ((reciprocal ((fraction c e).0) ((fraction c e).1)).0)
        ((reciprocal ((fraction c e).0) ((fraction c e).1)).1) (append (to_integer c e) s) r
        (record {
          h_bound = m.h_fits;
          k_bound = m.k_fits;
          unimodular = append-Unimodular (to_integer c e) s inv.unimodular;
        })
        (sym n ∙ h)
]

-- Only 1 divides both.
abbrev pub Coprime : ℕ → ℕ → Type 0
Coprime n d = (m x y : ℕ) → n ≡ x * m → d ≡ y * m → m ≡ 1

unit_factor : (m a b : ℕ) → a * m ≡ b * m + 1 → m ≡ 1
unit_factor m a b h = elim (Bool-cases (leb a b)) [
  | inl e ↦ (let q : a ≤ b = ground arith in absurd (omega (arith, mul-le-mul_right m q)))
  | inr e ↦
      (let q : b + 1 ≤ a = ground arith in
        let le : m ≤ 1 = omega (arith, mul-le-mul_right m q) in
        let ge : 1 ≤ m = ground arith in omega arith)
]

Unimodular-Coprime : (s : Fractions) → Unimodular s → Coprime s.h1 s.k1
Unimodular-Coprime s (inl h) m x y p q =
    unit_factor m (x * s.k2) (s.h2 * y)
      (omega (arith, h, ap (λ n. n * s.k2) p, ap (λ n. s.h2 * n) q))
Unimodular-Coprime s (inr h) m x y p q =
    unit_factor m (s.h2 * y) (x * s.k2)
      (omega (arith, h, ap (λ n. n * s.k2) p, ap (λ n. s.h2 * n) q))

-- A numerator and a denominator of a Price, as large as its XDR type takes, in lowest terms.
pub record Reduced (r : Ratio) : Type 0 where
  pub n_positive : 1 ≤ r.n
  pub n_bound : r.n ≤ int32_max
  pub d_positive : 1 ≤ r.d
  pub d_bound : r.d ≤ int32_max
  pub coprime : Coprime r.n r.d

last_fraction-Reduced :
    (s : Fractions)
    → Convergent s
    → (last_fraction (some s) ≡ err no_approximation)
      ⊎ ((r : Ratio) × (last_fraction (some s) ≡ ok r) × Reduced r)
unfolding last_fraction
last_fraction-Reduced s inv = elim (Bool-cases (s.h1 == 0 || s.k1 == 0)) [
  | inl e ↦ inl (ground arith)
  | inr e ↦ inr (
    record { n = s.h1; d = s.k1 },
    ground arith,
    record {
      n_positive = ground arith;
      n_bound = inv.h_bound;
      d_positive = ground arith;
      d_bound = inv.k_bound;
      coprime = Unimodular-Coprime s inv.unimodular;
    },
  )
]

start-Convergent : Convergent start
start-Convergent = record { h_bound = omega arith; k_bound = omega arith; unimodular = inl refl }

abbrev Outcome : Option Fractions → Type 0
Outcome r =
    (last_fraction r ≡ err no_approximation) ⊎ ((b : Ratio) × (last_fraction r ≡ ok b) × Reduced b)

-- The loop ends, for every decimal that is not negative: either no fraction fits, or the result is
-- a fraction in lowest terms whose parts lie between 1 and 2 ^ 31 - 1.
pub best_rational_approximation-Reduced :
    (c : ℕ) (e : ℤ)
    → (best_rational_approximation c e ≡ err no_approximation)
      ⊎ ((r : Ratio) × (best_rational_approximation c e ≡ ok r) × Reduced r)
unfolding best_rational_approximation
best_rational_approximation-Reduced c e =
    let loop = approximate_48 c e in
    subst Outcome (sym (loop.1)) (
      last_fraction-Reduced (loop.0)
        (approximate-Convergent 48 c e start (loop.0) start-Convergent (loop.1)))
