-- ===== src/Base32.antt =====
-- Python's base64.b32encode and base64.b32decode, which stellar_sdk/strkey.py calls. `bytes` and
-- ASCII texts are lists of numbers.
pub mod Quantum
pub mod RoundTrip
use py_stellar_base.Prelude.{
  ℕ, zero, suc, ◌+◌, ◌-◌, ◌*◌, ◌/◌, ◌%◌, ◌^◌, ◌<◌, Bool, true, false, Option, none, some, List, [],
  ◌∷◌, ◌++◌, map, ◌&&◌, ◌||◌, leb, ltb, ◌==◌, if◌then◌else◌, length, take, replicate, rstrip,
}
use py_stellar_base.Error.{Result, ok, err, binascii_error, ◌>>=◌}

abbrev pub IsByte : ℕ → Type 0
IsByte b = b < 256

abbrev pub pad_char : ℕ
pad_char = b'='

-- `_b32alphabet`: A to Z, then 2 to 7
unfoldable pub b32_digit : ℕ → ℕ
b32_digit d = if ltb d 26 then d + 65 else d + 24

-- `_b32rev`
unfoldable pub b32_value : ℕ → Option ℕ
b32_value c =
    if leb 65 c && leb c 90
    then some (c - 65)
    else if leb 50 c && leb c 55
    then some (c - 24)
    else none

-- `int.from_bytes(s[i: i + 5], 'big')`
abbrev pub from_bytes : ℕ → ℕ → ℕ → ℕ → ℕ → ℕ
from_bytes a b c d e = (((a * 256 + b) * 256 + c) * 256 + d) * 256 + e

-- `acc.to_bytes(5, 'big')`
abbrev pub to_bytes : ℕ → List ℕ
to_bytes n =
    (n / 2 ^ 32 % 256)
    ∷ (n / 2 ^ 24 % 256)
    ∷ (n / 2 ^ 16 % 256)
    ∷ (n / 2 ^ 8 % 256)
    ∷ (n % 256)
    ∷ []

-- The eight digits of a quantum of 40 bits.
abbrev pub quantum_digits : ℕ → List ℕ
quantum_digits n =
    b32_digit (n / 2 ^ 35 % 32)
    ∷ b32_digit (n / 2 ^ 30 % 32)
    ∷ b32_digit (n / 2 ^ 25 % 32)
    ∷ b32_digit (n / 2 ^ 20 % 32)
    ∷ b32_digit (n / 2 ^ 15 % 32)
    ∷ b32_digit (n / 2 ^ 10 % 32)
    ∷ b32_digit (n / 2 ^ 5 % 32)
    ∷ b32_digit (n % 32)
    ∷ []

-- The encoding without its padding: a last quantum of 1, 2, 3 or 4 bytes is filled with zeros, and
-- 2, 4, 5 or 7 of its digits are kept.
unfoldable pub b32_body : List ℕ → List ℕ
b32_body [] = []
b32_body (a ∷ []) = take 2 (quantum_digits (from_bytes a 0 0 0 0))
b32_body (a ∷ b ∷ []) = take 4 (quantum_digits (from_bytes a b 0 0 0))
b32_body (a ∷ b ∷ c ∷ []) = take 5 (quantum_digits (from_bytes a b c 0 0))
b32_body (a ∷ b ∷ c ∷ d ∷ []) = take 7 (quantum_digits (from_bytes a b c d 0))
b32_body (a ∷ b ∷ c ∷ d ∷ e ∷ rest) = quantum_digits (from_bytes a b c d e) ++ b32_body rest

-- How many `=` replace the digits that were left out.
unfoldable pub b32_padding : List ℕ → ℕ
b32_padding [] = 0
b32_padding (a ∷ []) = 6
b32_padding (a ∷ b ∷ []) = 4
b32_padding (a ∷ b ∷ c ∷ []) = 3
b32_padding (a ∷ b ∷ c ∷ d ∷ []) = 1
b32_padding (a ∷ b ∷ c ∷ d ∷ e ∷ rest) = b32_padding rest

unfoldable pub b32encode : List ℕ → List ℕ
b32encode s = b32_body s ++ replicate (b32_padding s) pad_char

-- `for c in quanta: acc = (acc << 5) + b32rev[c]`; a missing key is a binascii.Error
unfoldable pub accumulate : ℕ → List ℕ → Result ℕ
accumulate acc [] = ok acc
accumulate acc (c ∷ cs) = elim (b32_value c) [
  | none ↦ err binascii_error
  | some v ↦ accumulate (acc * 32 + v) cs
]

-- The last quantum, of fewer than eight digits, when `padchars` digits are missing.
unfoldable pub last_quantum : ℕ → List ℕ → Result (List ℕ)
last_quantum padchars quanta = do
  acc ← accumulate 0 quanta
  ok (take ((43 - 5 * padchars) / 8) (to_bytes (acc * 32 ^ padchars)))

unfoldable pub decode_quanta : ℕ → List ℕ → Result (List ℕ)
decode_quanta padchars [] = ok []
decode_quanta padchars (c0 ∷ c1 ∷ c2 ∷ c3 ∷ c4 ∷ c5 ∷ c6 ∷ c7 ∷ rest) = do
  acc ← accumulate 0 (c0 ∷ c1 ∷ c2 ∷ c3 ∷ c4 ∷ c5 ∷ c6 ∷ c7 ∷ [])
  more ← decode_quanta padchars rest
  ok (to_bytes acc ++ more)
decode_quanta padchars quanta = last_quantum padchars quanta

abbrev pub valid_padding : ℕ → Bool
valid_padding p = p == 0 || p == 1 || p == 3 || p == 4 || p == 6

unfoldable pub b32decode : List ℕ → Result (List ℕ)
b32decode s =
    let stripped = rstrip pad_char s in
    let padchars = length s - length stripped in
    if length s % 8 == 0 && valid_padding padchars
    then decode_quanta padchars stripped
    else err binascii_error
