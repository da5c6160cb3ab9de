-- ===== src/Base32/Quantum.antt =====
-- One quantum: eight digits are read back as the 40 bits that they were written for.
use py_stellar_base.Prelude.{
  ℕ, ◌+◌, ◌*◌, ◌/◌, ◌%◌, ◌^◌, ◌<◌, ◌≡◌, refl, ◌∙◌, some, List, [], ◌∷◌, arith, take, All,
}
use py_stellar_base.Error.{ok}
use py_stellar_base.Base32.{
  IsByte, b32_digit, b32_value, from_bytes, to_bytes, quantum_digits, accumulate, pad_char,
}

pub value-digit : (d : ℕ) → d < 32 → b32_value (b32_digit d) ≡ some d
unfolding b32_value b32_digit
value-digit d h = ground arith

abbrev pub IsDigit : ℕ → Type 0
IsDigit c = ¬ (c ≡ pad_char) × (c < 128)

pub b32_digit-IsDigit : (d : ℕ) → d < 32 → IsDigit (b32_digit d)
unfolding b32_digit
b32_digit-IsDigit d h = (λ e. ground arith, ground arith)

-- A digit joins the accumulator.
absorb :
    (acc d acc' : ℕ) (cs : List ℕ)
    → d < 32
    → acc * 32 + d ≡ acc'
    → accumulate acc (b32_digit d ∷ cs) ≡ accumulate acc' cs
unfolding accumulate
absorb acc d acc' cs h e = ground (arith, value-digit d h)

module _ (n : ℕ) (fits : n < 2 ^ 40) where
  accumulate_two :
      (cs : List ℕ)
      → accumulate 0 (b32_digit (n / 2 ^ 35 % 32) ∷ b32_digit (n / 2 ^ 30 % 32) ∷ cs)
        ≡ accumulate (n / 2 ^ 30) cs
  accumulate_two cs =
      absorb 0 (n / 2 ^ 35 % 32) (n / 2 ^ 35) _ (omega arith) (omega arith)
      ∙ absorb (n / 2 ^ 35) (n / 2 ^ 30 % 32) (n / 2 ^ 30) cs (omega arith) (omega arith)

  accumulate_four :
      (cs : List ℕ)
      → accumulate (n / 2 ^ 30) (b32_digit (n / 2 ^ 25 % 32) ∷ b32_digit (n / 2 ^ 20 % 32) ∷ cs)
        ≡ accumulate (n / 2 ^ 20) cs
  accumulate_four cs =
      absorb (n / 2 ^ 30) (n / 2 ^ 25 % 32) (n / 2 ^ 25) _ (omega arith) (omega arith)
      ∙ absorb (n / 2 ^ 25) (n / 2 ^ 20 % 32) (n / 2 ^ 20) cs (omega arith) (omega arith)

  accumulate_five :
      (cs : List ℕ)
      → accumulate (n / 2 ^ 20) (b32_digit (n / 2 ^ 15 % 32) ∷ cs) ≡ accumulate (n / 2 ^ 15) cs
  accumulate_five cs =
      absorb (n / 2 ^ 20) (n / 2 ^ 15 % 32) (n / 2 ^ 15) cs (omega arith) (omega arith)

  accumulate_seven :
      (cs : List ℕ)
      → accumulate (n / 2 ^ 15) (b32_digit (n / 2 ^ 10 % 32) ∷ b32_digit (n / 2 ^ 5 % 32) ∷ cs)
        ≡ accumulate (n / 2 ^ 5) cs
  accumulate_seven cs =
      absorb (n / 2 ^ 15) (n / 2 ^ 10 % 32) (n / 2 ^ 10) _ (omega arith) (omega arith)
      ∙ absorb (n / 2 ^ 10) (n / 2 ^ 5 % 32) (n / 2 ^ 5) cs (omega arith) (omega arith)

  done : (m : ℕ) → accumulate m [] ≡ ok m
  unfolding accumulate
  done m = refl

  -- The first 2, 4, 5, 7 or 8 digits hold the first 10, 20, 25, 35 or 40 bits.
  pub accumulate-take_two : accumulate 0 (take 2 (quantum_digits n)) ≡ ok (n / 2 ^ 30)
  accumulate-take_two = accumulate_two [] ∙ done _

  pub accumulate-take_four : accumulate 0 (take 4 (quantum_digits n)) ≡ ok (n / 2 ^ 20)
  accumulate-take_four = accumulate_two _ ∙ accumulate_four [] ∙ done _

  pub accumulate-take_five : accumulate 0 (take 5 (quantum_digits n)) ≡ ok (n / 2 ^ 15)
  accumulate-take_five = accumulate_two _ ∙ accumulate_four _ ∙ accumulate_five [] ∙ done _

  pub accumulate-take_seven : accumulate 0 (take 7 (quantum_digits n)) ≡ ok (n / 2 ^ 5)
  accumulate-take_seven =
      accumulate_two _ ∙ accumulate_four _ ∙ accumulate_five _ ∙ accumulate_seven [] ∙ done _

  pub accumulate-quantum : accumulate 0 (quantum_digits n) ≡ ok n
  accumulate-quantum =
      accumulate_two _
      ∙ accumulate_four _
      ∙ accumulate_five _
      ∙ accumulate_seven _
      ∙ absorb (n / 2 ^ 5) (n % 32) n [] (omega arith) (omega arith)
      ∙ done _

  -- Each is an ASCII character and no padding.
  pub quantum_digits-IsDigit : All IsDigit (quantum_digits n)
  quantum_digits-IsDigit = (
    b32_digit-IsDigit _ (omega arith),
    (
      b32_digit-IsDigit _ (omega arith),
      (
        b32_digit-IsDigit _ (omega arith),
        (
          b32_digit-IsDigit _ (omega arith),
          (
            b32_digit-IsDigit _ (omega arith),
            (
              b32_digit-IsDigit _ (omega arith),
              (b32_digit-IsDigit _ (omega arith), (b32_digit-IsDigit _ (omega arith), tt)),
            ),
          ),
        ),
      ),
    ),
  )

module _ (a b c d e : ℕ) where
  pub from_bytes-lt :
      IsByte a → IsByte b → IsByte c → IsByte d → IsByte e → from_bytes a b c d e < 2 ^ 40
  from_bytes-lt ha hb hc hd he = omega arith

  pub to_bytes-from_bytes :
      IsByte a
      → IsByte b
      → IsByte c
      → IsByte d
      → IsByte e
      → to_bytes (from_bytes a b c d e) ≡ a ∷ b ∷ c ∷ d ∷ e ∷ []
  to_bytes-from_bytes ha hb hc hd he = ground arith
