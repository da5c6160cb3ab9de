-- ===== src/Text.antt =====
-- The text routines of Python that the SDK calls: str.encode('utf-8'), bytes.decode(), bytes.hex and
-- bytes.fromhex. A text is the list of its code points.
pub mod Hex
pub mod Utf8
use py_stellar_base.Prelude.{
  ℕ, zero, suc, ◌+◌, ◌-◌, ◌*◌, ◌/◌, ◌%◌, Bool, true, false, List, [], ◌∷◌, ◌++◌, ◌&&◌, ◌||◌, not,
  ltb, leb, ◌==◌, if◌then◌else◌,
}
use py_stellar_base.Error.{Result, ok, err, unicode_error, builtin_value_error, ◌>>=◌}

unfoldable pub is_surrogate : ℕ → Bool
is_surrogate c = leb 0xd800 c && ltb c 0xe000

unfoldable pub encode_char : ℕ → Result (List ℕ)
unfolding is_surrogate
encode_char c =
    if ltb c 0x80
    then ok (c ∷ [])
    else if ltb c 0x800
    then ok ((0xc0 + c / 64) ∷ (0x80 + c % 64) ∷ [])
    else if is_surrogate c
    then err unicode_error
    else if ltb c 0x10000
    then ok ((0xe0 + c / 4096) ∷ (0x80 + c / 64 % 64) ∷ (0x80 + c % 64) ∷ [])
    else ok
        ((0xf0 + c / 262144) ∷ (0x80 + c / 4096 % 64) ∷ (0x80 + c / 64 % 64) ∷ (0x80 + c % 64) ∷ [])

-- `bytes(s, encoding="utf-8")`
unfoldable pub encode_utf8 : List ℕ → Result (List ℕ)
encode_utf8 [] = ok []
encode_utf8 (c ∷ cs) = do front ← encode_char c; rest ← encode_utf8 cs; ok (front ++ rest)

-- What a first byte announces: itself, or how many bytes follow, its bits, and the least code point.
pub data Lead : Type 0 where
  single : Lead
  lead : ℕ → ℕ → ℕ → Lead
  bad : Lead

unfoldable pub lead_of : ℕ → Lead
lead_of a =
    if ltb a 0x80
    then single
    else if leb 0xc2 a && ltb a 0xe0
    then lead 0 (a - 0xc0) 0x80
    else if leb 0xe0 a && ltb a 0xf0
    then lead 1 (a - 0xe0) 0x800
    else if leb 0xf0 a && ltb a 0xf5
    then lead 2 (a - 0xf0) 0x10000
    else bad

unfoldable pub is_continuation : ℕ → Bool
is_continuation b = leb 0x80 b && ltb b 0xc0

unfoldable pub is_code_point : ℕ → ℕ → Bool
unfolding is_surrogate
is_code_point least c = leb least c && ltb c 0x110000 && not (is_surrogate c)

-- Between characters, or inside one: how many bytes after the next, the bits so far, the least
-- code point.
pub data Decoder : Type 0 where
  between : Decoder
  inside : ℕ → ℕ → ℕ → Decoder

-- The state machine of bytes.decode(), one byte a round. A `let` waits, so each round reads one rest.
unfoldable pub decode_from : Decoder → List ℕ → Result (List ℕ)
decode_from between [] = ok []
decode_from (inside n acc least) [] = err unicode_error
decode_from between (a ∷ rest) = elim (lead_of a) [
  | single ↦ (do more ← decode_from between rest; ok (a ∷ more))
  | lead n acc least ↦ decode_from (inside n acc least) rest
  | bad ↦ err unicode_error
]
decode_from (inside zero acc least) (b ∷ rest) =
    let c = acc * 64 + (b - 0x80) in
    elim (is_continuation b && is_code_point least c) [
      | true ↦ (do more ← decode_from between rest; ok (c ∷ more))
      | false ↦ err unicode_error
    ]
decode_from (inside (suc n) acc least) (b ∷ rest) = elim (is_continuation b) [
  | true ↦ decode_from (inside n (acc * 64 + (b - 0x80)) least) rest
  | false ↦ err unicode_error
]

unfoldable pub decode_utf8 : List ℕ → Result (List ℕ)
decode_utf8 = decode_from between

unfoldable pub hex_digit : ℕ → ℕ
hex_digit d = if ltb d 10 then d + 48 else d + 87

-- `bytes.hex()`
unfoldable pub hex : List ℕ → List ℕ
hex [] = []
hex (b ∷ bs) = hex_digit (b / 16) ∷ hex_digit (b % 16) ∷ hex bs

unfoldable pub hex_value : ℕ → Result ℕ
hex_value c =
    if leb 48 c && leb c 57
    then ok (c - 48)
    else if leb 97 c && leb c 102
    then ok (c - 87)
    else if leb 65 c && leb c 70
    then ok (c - 55)
    else err builtin_value_error

unfoldable pub is_space : ℕ → Bool
is_space c = c == 32 || leb 9 c && leb c 13

-- `bytes.fromhex(s)`: spaces may stand between two bytes
unfoldable pub from_hex : List ℕ → Result (List ℕ)
from_hex [] = ok []
from_hex (c ∷ []) = if is_space c then ok [] else err builtin_value_error
from_hex (c ∷ d ∷ rest) = elim (is_space c) [
  | true ↦ from_hex (d ∷ rest)
  | false ↦ (do
    hi ← hex_value c
    lo ← hex_value d
    more ← from_hex rest
    ok ((hi * 16 + lo) ∷ more))
]
