-- ===== src/StrKey/RoundTrip.antt =====
-- encode_check then decode_check.
use Prim.Native.String.{String}
use py_stellar_base.Prelude.{
  ℕ, ◌+◌, ◌-◌, ◌%◌, ◌<◌, ◌≤◌, ◌≡◌, refl, ◌∙◌, ap, arith, true, ◌⊎◌, inl, inr, some, List, [], ◌∷◌,
  ◌++◌, leb, if◌then◌else◌, Bool-cases, list_eq_refl, length, length-append, length-replicate, take,
  drop, take_last, drop_last, take-append, drop-append, replicate, All, All-append,
}
use py_stellar_base.Error.{ok, err, value_error, binascii_error, ◌>>=◌}
use py_stellar_base.Base32.{IsByte, pad_char, b32_body, b32encode, b32decode}
use py_stellar_base.Base32.RoundTrip.{
  b32_body-IsDigit, length-b32_body, b32_padding_lem, rstrip-b32encode, b32decode-b32encode,
}
use py_stellar_base.Base32.Quantum.{IsDigit}
use py_stellar_base.StrKey.{
  Crc16, version_bytes, is_ascii, bytes_from_decode_data, pad_to_four, calculate_checksum,
  check_parts, check_decoded, decode_check, encode_payload, encode_check,
}

pub version_bytes_range :
    (name : String) (v : ℕ) → version_bytes name ≡ some v → (0 < v) × (v < 256)
unfolding version_bytes
version_bytes_range name v h = ground arith

module _ (crc : Crc16) where
  pub calculate_checksum-IsByte : (payload : List ℕ) → All IsByte (calculate_checksum crc payload)
  unfolding calculate_checksum
  calculate_checksum-IsByte payload = (omega arith, (omega (arith, crc.crc16xmodem-lt payload), tt))

  pub length-calculate_checksum : (payload : List ℕ) → length (calculate_checksum crc payload) ≡ 2
  unfolding calculate_checksum
  length-calculate_checksum payload = refl

-- A list is cut two elements before its end.
pub drop_last-append : (xs ys : List ℕ) → length ys ≡ 2 → drop_last 2 (xs ++ ys) ≡ xs
drop_last-append xs ys h =
    rw (length-append xs ys, h)
      (ap (λ (t : ℕ). take t (xs ++ ys)) (omega arith) ∙ take-append xs ys)

pub take_last-append : (xs ys : List ℕ) → length ys ≡ 2 → take_last 2 (xs ++ ys) ≡ ys
take_last-append xs ys h =
    rw (length-append xs ys, h)
      (ap (λ (t : ℕ). drop t (xs ++ ys)) (omega arith) ∙ drop-append xs ys)

-- The checks accept a payload with its checksum.
module _ (crc : Crc16) (name : String) (v : ℕ) (bytes : List ℕ)
    (named : version_bytes name ≡ some v) where
  check_parts-payload :
      check_parts crc (some v) (v ∷ []) (v ∷ bytes) (calculate_checksum crc (v ∷ bytes)) ≡ ok bytes
  unfolding check_parts
  check_parts-payload =
      rw (list_eq_refl (v ∷ []), list_eq_refl (calculate_checksum crc (v ∷ bytes)))

  pub check_decoded-payload :
      check_decoded crc name ((v ∷ bytes) ++ calculate_checksum crc (v ∷ bytes)) ≡ ok bytes
  unfolding check_decoded
  check_decoded-payload =
      rw
        (
          drop_last-append (v ∷ bytes) (calculate_checksum crc (v ∷ bytes))
              (length-calculate_checksum crc _),
          take_last-append (v ∷ bytes) (calculate_checksum crc (v ∷ bytes))
              (length-calculate_checksum crc _),
          named,
        )
        check_parts-payload

pub is_ascii-digits : (cs : List ℕ) → All IsDigit cs → is_ascii cs ≡ true
unfolding is_ascii
is_ascii-digits [] h = refl
is_ascii-digits (c ∷ cs) h = ground (arith, is_ascii-digits cs h.1)

bytes_from-digits : (cs : List ℕ) → All IsDigit cs → bytes_from_decode_data cs ≡ ok cs
unfolding bytes_from_decode_data
bytes_from-digits cs h = rw (is_ascii-digits cs h)

-- Padding to a multiple of four completes the text just if it lacks no more than three characters.
pad_to_four-b32_body :
    (p : List ℕ)
    → ¬ (length p % 5 ≡ 1)
    → ¬ (length p % 5 ≡ 2)
    → pad_to_four (b32_body p) ≡ b32encode p
unfolding pad_to_four b32encode
pad_to_four-b32_body p h1 h2 =
    ap (λ (n : ℕ). b32_body p ++ replicate n pad_char)
      (omega (arith, length-b32_body p, b32_padding_lem p))

b32decode-pad_to_four :
    (p : List ℕ)
    → (length p % 5 ≡ 1) ⊎ (length p % 5 ≡ 2)
    → b32decode (pad_to_four (b32_body p)) ≡ err binascii_error
unfolding b32decode pad_to_four
b32decode-pad_to_four p h = ground (
  arith,
  length-append (b32_body p) (replicate ((4 - length (b32_body p) % 4) % 4) pad_char),
  length-replicate ((4 - length (b32_body p) % 4) % 4) pad_char,
  length-b32_body p,
)

-- The payload with its checksum.
unfoldable pub sealed : Crc16 → ℕ → List ℕ → List ℕ
sealed crc v bytes = (v ∷ bytes) ++ calculate_checksum crc (v ∷ bytes)

pub length-sealed :
    (crc : Crc16) (v : ℕ) (bytes : List ℕ) → length (sealed crc v bytes) ≡ length bytes + 3
unfolding sealed
length-sealed crc v bytes = omega (
  arith,
  length-append (v ∷ bytes) (calculate_checksum crc (v ∷ bytes)),
  length-calculate_checksum crc (v ∷ bytes),
)

pub check_decoded-sealed :
    (crc : Crc16) (name : String) (v : ℕ) (bytes : List ℕ)
    → version_bytes name ≡ some v
    → check_decoded crc name (sealed crc v bytes) ≡ ok bytes
unfolding sealed
check_decoded-sealed crc name v bytes named = check_decoded-payload crc name v bytes named

module _ (crc : Crc16) (name : String) (v : ℕ) (bytes : List ℕ)
    (named : version_bytes name ≡ some v) (valid : All IsByte bytes) where
  abbrev whole : List ℕ
  whole = sealed crc v bytes

  pub sealed-IsByte : All IsByte (sealed crc v bytes)
  unfolding sealed
  sealed-IsByte =
      All-append IsByte (v ∷ bytes) _ ((version_bytes_range name v named).1, valid)
        (calculate_checksum-IsByte crc _)

  -- encode_check returns the digits of the payload with its checksum.
  pub encode_check_lem : encode_check crc name (some bytes) ≡ ok (b32_body (sealed crc v bytes))
  unfolding encode_check encode_payload sealed
  encode_check_lem =
      rw (named, encode_payload) (ap ok (rstrip-b32encode _ (unfold sealed in sealed-IsByte)))

  pub decode_check-text :
      length bytes % 5 ≤ 2 → decode_check crc name (b32_body (sealed crc v bytes)) ≡ ok bytes
  unfolding decode_check
  decode_check-text h =
      rw
        (
          bytes_from-digits (b32_body whole) (b32_body-IsDigit whole sealed-IsByte),
          pad_to_four-b32_body whole (omega (arith, length-sealed crc v bytes))
              (omega (arith, length-sealed crc v bytes)),
          b32decode-b32encode whole sealed-IsByte,
          list_eq_refl (b32encode whole),
        )
        (check_decoded-sealed crc name v bytes named)

  decode_short : 2 < length bytes % 5 → decode_check crc name (b32_body whole) ≡ err value_error
  unfolding decode_check
  decode_short h = rw (
    bytes_from-digits (b32_body whole) (b32_body-IsDigit whole sealed-IsByte),
    b32decode-pad_to_four whole (grind (arith, length-sealed crc v bytes)),
  )

  -- Decoding the text of `bytes` gives `bytes` back when the length of `bytes` leaves at most 2 after
  -- division by 5 (as 32 and 40 do), and otherwise raises the ValueError of a wrong padding.
  pub decode_check-encode_check :
      (encode_check crc name (some bytes) >>= decode_check crc name)
      ≡ (if leb (length bytes % 5) 2 then ok bytes else err value_error)
  decode_check-encode_check = rw encode_check_lem (elim (Bool-cases (leb (length bytes % 5) 2)) [
    | inl fits ↦ rw fits (decode_check-text (ground arith))
    | inr short ↦ rw short (decode_short (ground arith))
  ])
