-- ===== src/Base64/RoundTrip.antt =====
-- base64.b64decode reads what base64.b64encode writes.
use py_stellar_base.Prelude.{
  length, suc, zero, ℕ, ◌+◌, ◌*◌, ◌/◌, ◌%◌, ◌<◌, ◌≡◌, refl, arith, false, some, List, [], ◌∷◌, ◌++◌,
  ◌==◌, All,
}
use py_stellar_base.Error.{ok}
use py_stellar_base.Base32.{IsByte}
use py_stellar_base.Base64.{
  b64_digit, b64_value, b64encode, Position, go, at, b64_digit_move, b64_pad_move, b64_move,
  b64_from, b64decode,
}

b64_value-b64_digit :
    (d : ℕ) → d < 64 → (b64_value (b64_digit d) ≡ some d) × ((b64_digit d == b'=') ≡ false)
unfolding b64_value b64_digit
b64_value-b64_digit d h = ground arith

-- A digit where the decoder stands, before text that is read from the next position on.
b64_from-b64_digit :
    (p : Position) (d : ℕ) (next : Position) (done cs out : List ℕ)
    → d < 64
    → b64_digit_move p d ≡ go next done
    → b64_from next cs ≡ ok out
    → b64_from p (b64_digit d ∷ cs) ≡ ok (done ++ out)
unfolding b64_from b64_move
b64_from-b64_digit p d next done cs out small moved rest =
    let (value, other) = b64_value-b64_digit d small in
    rw (b64_from, other, value, moved, rest) refl

two_pads : (left : ℕ) → b64_from (at 2 left) (b'=' ∷ b'=' ∷ []) ≡ ok []
unfolding b64_from b64_move b64_pad_move
two_pads left = refl

one_pad : (left : ℕ) → b64_from (at 3 left) (b'=' ∷ []) ≡ ok []
unfolding b64_from b64_move b64_pad_move
one_pad left = refl

-- The digits of one, two and three bytes.
first_byte :
    (a d e : ℕ) (cs out : List ℕ)
    → a < 256
    → e < 16
    → d ≡ a % 4 * 16 + e
    → b64_from (at 2 e) cs ≡ ok out
    → b64_from (at 0 0) (b64_digit (a / 4) ∷ b64_digit d ∷ cs) ≡ ok (a ∷ out)
unfolding b64_digit_move
first_byte a d e cs out ha he hd h =
    b64_from-b64_digit (at 0 0) (a / 4) (at 1 (a / 4)) [] _ (a ∷ out) (omega arith) refl
      (b64_from-b64_digit (at 1 (a / 4)) d (at 2 e) (a ∷ []) cs out (omega arith) (ground arith) h)

second_byte :
    (b d e : ℕ) (cs out : List ℕ)
    → b < 256
    → e < 4
    → d ≡ b % 16 * 4 + e
    → b64_from (at 3 e) cs ≡ ok out
    → b64_from (at 2 (b / 16)) (b64_digit d ∷ cs) ≡ ok (b ∷ out)
unfolding b64_digit_move
second_byte b d e cs out hb he hd h =
    b64_from-b64_digit (at 2 (b / 16)) d (at 3 e) (b ∷ []) cs out (omega arith) (ground arith) h

third_byte :
    (c : ℕ) (cs out : List ℕ)
    → c < 256
    → b64_from (at 0 0) cs ≡ ok out
    → b64_from (at 3 (c / 64)) (b64_digit (c % 64) ∷ cs) ≡ ok (c ∷ out)
unfolding b64_digit_move
third_byte c cs out hc h =
    b64_from-b64_digit (at 3 (c / 64)) (c % 64) (at 0 0) (c ∷ []) cs out (omega arith)
      (ground arith) h

nothing : b64_from (at 0 0) [] ≡ ok []
unfolding b64_from
nothing = refl

encoded-b64_from :
    (bytes : List ℕ) → All IsByte bytes → b64_from (at 0 0) (b64encode bytes) ≡ ok bytes
unfolding b64encode
encoded-b64_from [] v = nothing
encoded-b64_from (a ∷ []) (ha, v) =
    first_byte a (a % 4 * 16) 0 _ [] ha (omega arith) (omega arith) (two_pads 0)
encoded-b64_from (a ∷ b ∷ []) (ha, (hb, v)) =
    first_byte a _ (b / 16) _ _ ha (omega arith) refl
      (second_byte b (b % 16 * 4) 0 _ [] hb (omega arith) (omega arith) (one_pad 0))
encoded-b64_from (a ∷ b ∷ c ∷ rest) (ha, (hb, (hc, v))) =
    first_byte a _ (b / 16) _ _ ha (omega arith) refl (
      second_byte b _ (c / 64) _ _ hb (omega arith) refl
        (third_byte c _ rest hc (encoded-b64_from rest v)))

-- Bytes are read back from their base 64 text.
pub b64decode-b64encode :
    (bytes : List ℕ) → All IsByte bytes → b64decode (b64encode bytes) ≡ ok bytes
unfolding b64decode
b64decode-b64encode bytes v = encoded-b64_from bytes v

-- Whole groups of three bytes are written without padding.
pub length-b64encode :
    (k : ℕ) (bytes : List ℕ) → length bytes ≡ 3 * k → length (b64encode bytes) ≡ 4 * k
unfolding b64encode
length-b64encode k [] h = omega arith
length-b64encode k (a ∷ []) h = omega arith
length-b64encode k (a ∷ b ∷ []) h = omega arith
length-b64encode zero (a ∷ b ∷ c ∷ rest) h = omega arith
length-b64encode (suc k) (a ∷ b ∷ c ∷ rest) h =
    let ih = length-b64encode k rest (omega arith) in omega (arith, ih)
