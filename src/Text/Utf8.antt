-- ===== src/Text/Utf8.antt =====
-- bytes.decode() reads what str.encode('utf-8') writes.
use py_stellar_base.Prelude.{
  ℕ, zero, suc, ◌+◌, ◌*◌, ◌/◌, ◌%◌, ◌<◌, ◌≤◌, ◌≡◌, refl, arith, true, false, ◌∙◌, List, [], ◌∷◌,
  ◌++◌, All,
}
use py_stellar_base.Error.{ok, ◌>>=◌, >>=-eq-ok, ok-injective}
use py_stellar_base.Text.{
  is_surrogate, encode_char, encode_utf8, lead, lead_of, is_continuation, is_code_point, between,
  inside, decode_from, decode_utf8,
}

-- A code point of Unicode.
abbrev pub IsCodePoint : ℕ → Type 0
IsCodePoint c = c < 0x110000

-- One byte of a character that is read.
start :
    (a n acc least : ℕ) (rest : List ℕ)
    → lead_of a ≡ lead n acc least
    → decode_from between (a ∷ rest) ≡ decode_from (inside n acc least) rest
unfolding decode_from
start a n acc least rest h = rw (h, decode_from)

continue :
    (n acc least x : ℕ) (rest : List ℕ)
    → x < 64
    → decode_from (inside (suc n) acc least) ((0x80 + x) ∷ rest)
      ≡ decode_from (inside n (acc * 64 + x) least) rest
unfolding decode_from is_continuation
continue n acc least x rest h = ground arith

finish :
    (acc least x c : ℕ) (rest : List ℕ)
    → x < 64
    → acc * 64 + x ≡ c
    → is_code_point least c ≡ true
    → decode_from (inside zero acc least) ((0x80 + x) ∷ rest)
      ≡ (decode_from between rest >>= λ more. ok (c ∷ more))
unfolding decode_from is_continuation
finish acc least x c rest h e p = ground arith

-- The four shapes of a character.
module _ (c : ℕ) (rest : List ℕ) where
  abbrev Reads : List ℕ → Type 0
  Reads front =
      decode_from between (front ++ rest) ≡ (decode_from between rest >>= λ more. ok (c ∷ more))

  one_byte : c < 0x80 → Reads (c ∷ [])
  unfolding decode_from lead_of
  one_byte h = ground arith

  two_lead : 0x80 ≤ c → c < 0x800 → lead_of (0xc0 + c / 64) ≡ lead 0 (c / 64) 0x80
  unfolding lead_of
  two_lead lo hi = ground arith

  two_bytes : 0x80 ≤ c → c < 0x800 → Reads ((0xc0 + c / 64) ∷ (0x80 + c % 64) ∷ [])
  unfolding is_code_point
  two_bytes lo hi =
      start (0xc0 + c / 64) 0 (c / 64) 0x80 _ (two_lead lo hi)
      ∙ finish (c / 64) 0x80 (c % 64) c rest (omega arith) (omega arith) (ground arith)

  three_lead : 0x800 ≤ c → c < 0x10000 → lead_of (0xe0 + c / 4096) ≡ lead 1 (c / 4096) 0x800
  unfolding lead_of
  three_lead lo hi = ground arith

  three_bytes :
      0x800 ≤ c
      → c < 0x10000
      → is_surrogate c ≡ false
      → Reads ((0xe0 + c / 4096) ∷ (0x80 + c / 64 % 64) ∷ (0x80 + c % 64) ∷ [])
  unfolding is_code_point
  three_bytes lo hi s =
      start (0xe0 + c / 4096) 1 (c / 4096) 0x800 _ (three_lead lo hi)
      ∙ continue 0 (c / 4096) 0x800 (c / 64 % 64) _ (omega arith)
      ∙ finish (c / 4096 * 64 + c / 64 % 64) 0x800 (c % 64) c rest (omega arith) (omega arith)
          (ground arith)

  four_lead :
      0x10000 ≤ c → IsCodePoint c → lead_of (0xf0 + c / 262144) ≡ lead 2 (c / 262144) 0x10000
  unfolding lead_of
  four_lead lo hi = ground arith

  four_bytes :
      0x10000 ≤ c
      → IsCodePoint c
      → Reads (
          (0xf0 + c / 262144)
          ∷ (0x80 + c / 4096 % 64)
          ∷ (0x80 + c / 64 % 64)
          ∷ (0x80 + c % 64)
          ∷ [])
  unfolding is_code_point
  four_bytes lo hi =
      start (0xf0 + c / 262144) 2 (c / 262144) 0x10000 _ (four_lead lo hi)
      ∙ continue 1 (c / 262144) 0x10000 (c / 4096 % 64) _ (omega arith)
      ∙ continue 0 (c / 262144 * 64 + c / 4096 % 64) 0x10000 (c / 64 % 64) _ (omega arith)
      ∙ finish ((c / 262144 * 64 + c / 4096 % 64) * 64 + c / 64 % 64) 0x10000 (c % 64) c rest
          (omega arith) (omega arith) (ground arith)

  decode-encode_char : (front : List ℕ) → IsCodePoint c → encode_char c ≡ ok front → Reads front
  unfolding encode_char
  decode-encode_char front h e = ground (arith, one_byte, two_bytes, three_bytes, four_bytes)

-- A text that has an encoding is read back from it.
pub decode_utf8-encode_utf8 :
    (s bytes : List ℕ) → All IsCodePoint s → encode_utf8 s ≡ ok bytes → decode_utf8 bytes ≡ ok s
unfolding encode_utf8 decode_utf8
decode_utf8-encode_utf8 [] bytes h e = rw (← ok-injective e) (unfold decode_from in refl)
decode_utf8-encode_utf8 (c ∷ cs) bytes (hc, hs) e =
    let (front, r1, e1) = >>=-eq-ok (encode_char c) _ e in
    let (rest, r2, e2) = >>=-eq-ok (encode_utf8 cs) _ e1 in
    rw (
      ← ok-injective e2,
      decode-encode_char c rest front hc r1,
      decode_utf8-encode_utf8 cs rest hs r2,
    )

abbrev pub IsAscii : ℕ → Type 0
IsAscii c = c < 0x80

decode_from-ascii : (s : List ℕ) → All IsAscii s → decode_from between s ≡ ok s
decode_from-ascii [] h = unfold decode_from in refl
decode_from-ascii (c ∷ cs) (hc, hs) = one_byte c cs hc ∙ rw (decode_from-ascii cs hs)

-- ASCII bytes are their own text.
pub decode_utf8-ascii : (s : List ℕ) → All IsAscii s → decode_utf8 s ≡ ok s
unfolding decode_utf8
decode_utf8-ascii s h = decode_from-ascii s h
