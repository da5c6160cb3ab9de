-- ===== src/Base32/RoundTrip.antt =====
-- The decoder reads back what the encoder writes, whatever the number of bytes.
use py_stellar_base.Prelude.{
  ℕ, zero, suc, ◌+◌, ◌-◌, ◌*◌, ◌/◌, ◌%◌, ◌^◌, ◌<◌, ◌≡◌, refl, ◌∙◌, true, List, [], ◌∷◌, ◌++◌, ap,
  arith, length, length-append, length-replicate, take, All, All-append, rstrip, rstrip-append,
}
use py_stellar_base.Error.{ok}
use py_stellar_base.Base32.{
  IsByte, from_bytes, to_bytes, quantum_digits, accumulate, pad_char, b32_body, b32_padding,
  b32encode, b32decode, decode_quanta, last_quantum, valid_padding,
}
use py_stellar_base.Base32.Quantum.{
  IsDigit, from_bytes-lt, to_bytes-from_bytes, quantum_digits-IsDigit, accumulate-take_two,
  accumulate-take_four, accumulate-take_five, accumulate-take_seven, accumulate-quantum,
}

-- The digits of one quantum, whole or cut, are no padding.
take_digits : (n : ℕ) (xs : List ℕ) → All IsDigit xs → All IsDigit (take n xs)
take_digits zero xs h = tt
take_digits (suc n) [] h = tt
take_digits (suc n) (x ∷ xs) h = (h.0, take_digits n xs h.1)

pub b32_body-IsDigit : (bs : List ℕ) → All IsByte bs → All IsDigit (b32_body bs)
unfolding b32_body
b32_body-IsDigit [] h = tt
b32_body-IsDigit (a ∷ []) h =
    take_digits 2 (quantum_digits (from_bytes a 0 0 0 0))
      (quantum_digits-IsDigit (from_bytes a 0 0 0 0) (omega arith))
b32_body-IsDigit (a ∷ b ∷ []) h =
    take_digits 4 (quantum_digits (from_bytes a b 0 0 0))
      (quantum_digits-IsDigit (from_bytes a b 0 0 0) (omega arith))
b32_body-IsDigit (a ∷ b ∷ c ∷ []) h =
    take_digits 5 (quantum_digits (from_bytes a b c 0 0))
      (quantum_digits-IsDigit (from_bytes a b c 0 0) (omega arith))
b32_body-IsDigit (a ∷ b ∷ c ∷ d ∷ []) h =
    take_digits 7 (quantum_digits (from_bytes a b c d 0))
      (quantum_digits-IsDigit (from_bytes a b c d 0) (omega arith))
b32_body-IsDigit (a ∷ b ∷ c ∷ d ∷ e ∷ rest) (ha, (hb, (hc, (hd, (he, hs))))) =
    All-append IsDigit (quantum_digits (from_bytes a b c d e)) (b32_body rest)
      (quantum_digits-IsDigit _ (from_bytes-lt a b c d e ha hb hc hd he)) (b32_body-IsDigit rest hs)

pub ne_pad_char : (cs : List ℕ) → All IsDigit cs → All (λ c. ¬ (c ≡ pad_char)) cs
ne_pad_char [] h = tt
ne_pad_char (c ∷ cs) h = (h.0.0, ne_pad_char cs h.1)

-- The length of the text, and its padding, by the number of bytes left over.
pub length-b32_body : (bs : List ℕ) → length (b32_body bs) ≡ (8 * length bs + 4) / 5
unfolding b32_body
length-b32_body [] = omega arith
length-b32_body (a ∷ []) = omega arith
length-b32_body (a ∷ b ∷ []) = omega arith
length-b32_body (a ∷ b ∷ c ∷ []) = omega arith
length-b32_body (a ∷ b ∷ c ∷ d ∷ []) = omega arith
length-b32_body (a ∷ b ∷ c ∷ d ∷ e ∷ rest) = omega (arith, length-b32_body rest)

pub b32_padding_lem :
    (bs : List ℕ)
    → (b32_padding bs < 8)
      × ((length (b32_body bs) + b32_padding bs) % 8 ≡ 0)
      × (valid_padding (b32_padding bs) ≡ true)
unfolding b32_body b32_padding
b32_padding_lem [] = (omega arith, omega arith, refl)
b32_padding_lem (a ∷ []) = (omega arith, omega arith, refl)
b32_padding_lem (a ∷ b ∷ []) = (omega arith, omega arith, refl)
b32_padding_lem (a ∷ b ∷ c ∷ []) = (omega arith, omega arith, refl)
b32_padding_lem (a ∷ b ∷ c ∷ d ∷ []) = (omega arith, omega arith, refl)
b32_padding_lem (a ∷ b ∷ c ∷ d ∷ e ∷ rest) =
    let (lt, sum, valid) = b32_padding_lem rest in (lt, omega arith, valid)

-- A cut quantum: its accumulated digits, shifted back, are the bytes and the zeros that filled it.
cut_quantum :
    (p n acc : ℕ) (digits : List ℕ)
    → accumulate 0 digits ≡ ok acc
    → acc * 32 ^ p ≡ n
    → last_quantum p digits ≡ ok (take ((43 - 5 * p) / 8) (to_bytes n))
unfolding last_quantum
cut_quantum p n acc digits h e = rw (h, e)

decode_quanta-b32_body :
    (bs : List ℕ) → All IsByte bs → decode_quanta (b32_padding bs) (b32_body bs) ≡ ok bs
unfolding b32_body b32_padding decode_quanta
decode_quanta-b32_body [] h = refl
decode_quanta-b32_body (a ∷ []) h =
    cut_quantum 6 (from_bytes a 0 0 0 0) _ _
      (accumulate-take_two (from_bytes a 0 0 0 0) (omega arith)) (omega arith)
    ∙ ap (λ (t : List ℕ). ok (take 1 t))
        (to_bytes-from_bytes a 0 0 0 0 h.0 (omega arith) (omega arith) (omega arith) (omega arith))
decode_quanta-b32_body (a ∷ b ∷ []) h =
    cut_quantum 4 (from_bytes a b 0 0 0) _ _
      (accumulate-take_four (from_bytes a b 0 0 0) (omega arith)) (omega arith)
    ∙ ap (λ (t : List ℕ). ok (take 2 t))
        (to_bytes-from_bytes a b 0 0 0 (omega arith) (omega arith) (omega arith) (omega arith)
          (omega arith))
decode_quanta-b32_body (a ∷ b ∷ c ∷ []) h =
    cut_quantum 3 (from_bytes a b c 0 0) _ _
      (accumulate-take_five (from_bytes a b c 0 0) (omega arith)) (omega arith)
    ∙ ap (λ (t : List ℕ). ok (take 3 t))
        (to_bytes-from_bytes a b c 0 0 (omega arith) (omega arith) (omega arith) (omega arith)
          (omega arith))
decode_quanta-b32_body (a ∷ b ∷ c ∷ d ∷ []) h =
    cut_quantum 1 (from_bytes a b c d 0) _ _
      (accumulate-take_seven (from_bytes a b c d 0) (omega arith)) (omega arith)
    ∙ ap (λ (t : List ℕ). ok (take 4 t))
        (to_bytes-from_bytes a b c d 0 (omega arith) (omega arith) (omega arith) (omega arith)
          (omega arith))
decode_quanta-b32_body (a ∷ b ∷ c ∷ d ∷ e ∷ rest) (ha, (hb, (hc, (hd, (he, hs))))) =
    rw
      (
        accumulate-quantum (from_bytes a b c d e) (from_bytes-lt a b c d e ha hb hc hd he),
        decode_quanta-b32_body rest hs,
      )
      (ap (λ (t : List ℕ). ok (t ++ rest)) (to_bytes-from_bytes a b c d e ha hb hc hd he))

-- The length of the whole text is a multiple of 8.
pub length-b32encode : (bs : List ℕ) → length (b32encode bs) ≡ length (b32_body bs) + b32_padding bs
unfolding b32encode
length-b32encode bs =
    length-append (b32_body bs) _
    ∙ ap (λ (t : ℕ). length (b32_body bs) + t) (length-replicate (b32_padding bs) pad_char)

-- Stripping the padding leaves the digits.
pub rstrip-b32encode : (bs : List ℕ) → All IsByte bs → rstrip pad_char (b32encode bs) ≡ b32_body bs
unfolding b32encode
rstrip-b32encode bs h =
    rstrip-append pad_char (b32_padding bs) (b32_body bs)
      (ne_pad_char (b32_body bs) (b32_body-IsDigit bs h))

pub b32decode-b32encode : (bs : List ℕ) → All IsByte bs → b32decode (b32encode bs) ≡ ok bs
unfolding b32decode
b32decode-b32encode bs h =
    let (lt, sum, valid) = b32_padding_lem bs in
    rw (rstrip-b32encode bs h, length-b32encode bs)
      (ground (arith, decode_quanta-b32_body bs h, valid))
