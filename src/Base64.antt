-- ===== src/Base64.antt =====
-- Python's base64.b64encode and base64.b64decode without validation, which the challenges of web
-- authentication call. Bytes and ASCII texts are lists of numbers.
pub mod RoundTrip
use py_stellar_base.Prelude.{
  ℕ, ◌+◌, ◌-◌, ◌*◌, ◌/◌, ◌%◌, Option, none, some, List, [], ◌∷◌, ◌++◌, ◌&&◌, leb, ltb, ◌==◌,
  if◌then◌else◌,
}
use py_stellar_base.Error.{Result, ok, err, binascii_error, ◌>>=◌}

-- A to Z, a to z, 0 to 9, `+` and `/`
unfoldable pub b64_digit : ℕ → ℕ
b64_digit d =
    if ltb d 26
    then d + 65
    else if ltb d 52
    then d + 71
    else if ltb d 62
    then d - 4
    else if d == 62
    then b'+'
    else b'/'

unfoldable pub b64_value : ℕ → Option ℕ
b64_value c =
    if leb 65 c && leb c 90
    then some (c - 65)
    else if leb 97 c && leb c 122
    then some (c - 71)
    else if leb 48 c && leb c 57
    then some (c + 4)
    else if c == b'+'
    then some 62
    else if c == b'/'
    then some 63
    else none

unfoldable pub b64encode : List ℕ → List ℕ
unfolding b64_digit
b64encode [] = []
b64encode (a ∷ []) = b64_digit (a / 4) ∷ b64_digit (a % 4 * 16) ∷ b'=' ∷ b'=' ∷ []
b64encode (a ∷ b ∷ []) =
    b64_digit (a / 4) ∷ b64_digit (a % 4 * 16 + b / 16) ∷ b64_digit (b % 16 * 4) ∷ b'=' ∷ []
b64encode (a ∷ b ∷ c ∷ rest) =
    b64_digit (a / 4)
    ∷ b64_digit (a % 4 * 16 + b / 16)
    ∷ b64_digit (b % 16 * 4 + c / 64)
    ∷ b64_digit (c % 64)
    ∷ b64encode rest

-- The decoder between two characters: how many digits of the quantum it has read, the bits left of the last
-- one, and how many paddings it has seen.
pub record Position : Type 0 where
  pub quad_pos : ℕ
  pub left : ℕ
  pub pads : ℕ

-- After a character: the end of the input, or the next position and the bytes that are complete
pub data Move : Type 0 where
  stop : Move
  go : Position → List ℕ → Move

abbrev pub at : ℕ → ℕ → Position
at quad_pos left = record { quad_pos = quad_pos; left = left; pads = 0 }

unfoldable pub b64_digit_move : Position → ℕ → Move
b64_digit_move p v =
    if p.quad_pos == 0
    then go (at 1 v) []
    else if p.quad_pos == 1
    then go (at 2 (v % 16)) ((p.left * 4 + v / 16) ∷ [])
    else if p.quad_pos == 2
    then go (at 3 (v % 4)) ((p.left * 16 + v / 4) ∷ [])
    else go (at 0 0) ((p.left * 64 + v) ∷ [])

unfoldable pub b64_pad_move : Position → Move
b64_pad_move p =
    if leb 2 p.quad_pos
    then (if leb 4 (p.quad_pos + (p.pads + 1))
        then stop
        else go (record p { pads = p.pads + 1 }) [])
    else go p []

-- A character outside the alphabet is skipped.
unfoldable pub b64_move : Position → ℕ → Move
unfolding b64_digit_move b64_pad_move b64_value
b64_move p c =
    if c == b'='
    then b64_pad_move p
    else elim (b64_value c) [ none ↦ go p [] | some v ↦ b64_digit_move p v ]

unfoldable pub b64_from : Position → List ℕ → Result (List ℕ)
unfolding b64_move
b64_from p [] = if p.quad_pos == 0 then ok [] else err binascii_error
b64_from p (c ∷ cs) = elim (b64_move p c) [
  | stop ↦ ok []
  | go next done ↦ (do rest ← b64_from next cs; ok (done ++ rest))
]

unfoldable pub b64decode : List ℕ → Result (List ℕ)
unfolding b64_from
b64decode s = b64_from (at 0 0) s
