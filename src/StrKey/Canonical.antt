-- ===== src/StrKey/Canonical.antt =====
-- decode_check accepts nothing but what encode_check writes, up to `=` at the end.
use Prim.Native.String.{String}
use py_stellar_base.Prelude.{
  ℕ, zero, suc, ◌-◌, ◌*◌, ◌%◌, ◌^◌, ◌<◌, ◌≡◌, ◌∙◌, ap, sym, arith, some, List, [], ◌∷◌, ◌++◌,
  list_eq, list_eq_sound, length, take, drop, take_last, drop_last, take-append-drop, rstrip,
  rstrip-append_replicate, All, All-append,
}
use mathlib.Core.Path.{subst}
use py_stellar_base.Error.{
  ok, >>=-eq-ok, require, require-eq-ok, or_raise, or_raise-eq-ok, ok-injective,
}
use py_stellar_base.Base32.{
  IsByte, pad_char, b32encode, b32decode, to_bytes, accumulate, decode_quanta, last_quantum,
}
use py_stellar_base.StrKey.{
  Crc16, version_bytes, bytes_from_decode_data, pad_to_four, calculate_checksum, check_parts,
  check_decoded, decode_check, encode_check,
}
use py_stellar_base.StrKey.RoundTrip.{version_bytes_range, sealed, encode_check_lem}
use py_stellar_base.Base32.RoundTrip.{rstrip-b32encode}

-- Decoding gives bytes.
take_bytes : (n : ℕ) (xs : List ℕ) → All IsByte xs → All IsByte (take n xs)
take_bytes zero xs h = tt
take_bytes (suc n) [] h = tt
take_bytes (suc n) (x ∷ xs) h = (h.0, take_bytes n xs h.1)

to_bytes-IsByte : (n : ℕ) → All IsByte (to_bytes n)
to_bytes-IsByte n = omega arith

last_quantum-IsByte : (p : ℕ) (cs bs : List ℕ) → last_quantum p cs ≡ ok bs → All IsByte bs
unfolding last_quantum
last_quantum-IsByte p cs bs h =
    let (acc, _, e) = >>=-eq-ok (accumulate 0 cs) _ h in
    rw (← ok-injective e) (take_bytes _ (to_bytes (acc * 32 ^ p)) (to_bytes-IsByte (acc * 32 ^ p)))

decode_quanta-IsByte : (p : ℕ) (cs bs : List ℕ) → decode_quanta p cs ≡ ok bs → All IsByte bs
unfolding decode_quanta
decode_quanta-IsByte p [] bs h = rw (← ok-injective h) tt
decode_quanta-IsByte p (c0 ∷ c1 ∷ c2 ∷ c3 ∷ c4 ∷ c5 ∷ c6 ∷ c7 ∷ rest) bs h =
    let (acc, _, e) = >>=-eq-ok (accumulate 0 (c0 ∷ c1 ∷ c2 ∷ c3 ∷ c4 ∷ c5 ∷ c6 ∷ c7 ∷ [])) _ h in
    let (more, m, e') = >>=-eq-ok (decode_quanta p rest) _ e in
    rw (← ok-injective e') (
      All-append IsByte (to_bytes acc) more (to_bytes-IsByte acc)
        (decode_quanta-IsByte p rest more m))
decode_quanta-IsByte p cs bs h = last_quantum-IsByte p cs bs h

pub b32decode-IsByte : (s bs : List ℕ) → b32decode s ≡ ok bs → All IsByte bs
unfolding b32decode
b32decode-IsByte s bs h =
    ground
      (arith, decode_quanta-IsByte (length s - length (rstrip pad_char s)) (rstrip pad_char s) bs)

bytes_from-eq-ok : (s bs : List ℕ) → bytes_from_decode_data s ≡ ok bs → bs ≡ s
unfolding bytes_from_decode_data
bytes_from-eq-ok s bs h = ground arith

-- What the checks have found when they return.
check_parts-eq-ok :
    (crc : Crc16) (v : ℕ) (version_byte payload checksum bytes : List ℕ)
    → check_parts crc (some v) version_byte payload checksum ≡ ok bytes
    → (version_byte ≡ v ∷ [])
      × (calculate_checksum crc payload ≡ checksum)
      × (drop 1 payload ≡ bytes)
unfolding check_parts
check_parts-eq-ok crc v version_byte payload checksum bytes h =
    let (_, r1, h1) = >>=-eq-ok (require (list_eq version_byte (v ∷ [])) _) _ h in
    let (_, r2, h2) =
      >>=-eq-ok (require (list_eq (calculate_checksum crc payload) checksum) _) _ h1 in
    (
      list_eq_sound _ _ (require-eq-ok _ _ r1),
      list_eq_sound _ _ (require-eq-ok _ _ r2),
      ok-injective h2,
    )

join :
    (crc : Crc16) (v : ℕ) (payload checksum bytes : List ℕ)
    → payload ≡ v ∷ bytes
    → calculate_checksum crc payload ≡ checksum
    → payload ++ checksum ≡ (v ∷ bytes) ++ calculate_checksum crc (v ∷ bytes)
join crc v payload checksum bytes e1 e2 = cc

-- A version byte and a checksum of two bytes leave only a payload with its checksum.
reassemble :
    (crc : Crc16) (v : ℕ) (d bytes : List ℕ)
    → 0 < v
    → (take 1 d ≡ v ∷ [])
    → (calculate_checksum crc (drop_last 2 d) ≡ take_last 2 d)
    → (drop 1 (drop_last 2 d) ≡ bytes)
    → d ≡ sealed crc v bytes
unfolding sealed calculate_checksum
reassemble crc v [] bytes pos e1 e2 e3 = cc
reassemble crc v (a ∷ []) bytes pos e1 e2 e3 = ground arith
reassemble crc v (a ∷ b ∷ []) bytes pos e1 e2 e3 = ground (arith, crc.crc16xmodem-nil)
reassemble crc v (a ∷ b ∷ c ∷ tl) bytes pos e1 e2 e3 =
    let d : List ℕ = a ∷ b ∷ c ∷ tl in
    let n : length d - 2 ≡ suc (length tl) = omega arith in
    let cut : drop_last 2 d ≡ a ∷ take (length tl) (b ∷ c ∷ tl) = ap (λ (n : ℕ). take n d) n in
    sym (take-append-drop (length d - 2) d)
    ∙ join crc v (drop_last 2 d) (take_last 2 d) bytes
        (cut ∙ cc (e1, e3, ap (λ (t : List ℕ). drop 1 t) cut)) e2

rstrip-pad_to_four : (s : List ℕ) → rstrip pad_char (pad_to_four s) ≡ rstrip pad_char s
unfolding pad_to_four
rstrip-pad_to_four s = rstrip-append_replicate pad_char ((4 - length s % 4) % 4) s

check_decoded-eq-ok :
    (crc : Crc16) (name : String) (v : ℕ) (d bytes : List ℕ)
    → version_bytes name ≡ some v
    → check_decoded crc name d ≡ ok bytes
    → d ≡ sealed crc v bytes
unfolding check_decoded
check_decoded-eq-ok crc name v d bytes named h =
    let (e1, e2, e3) = check_parts-eq-ok crc v _ _ _ bytes (rw named at h) in
    reassemble crc v d bytes (version_bytes_range name v named).0 e1 e2 e3

pub payload-IsByte :
    (crc : Crc16) (v : ℕ) (bytes : List ℕ) → All IsByte (sealed crc v bytes) → All IsByte bytes
unfolding sealed
payload-IsByte crc v bytes h = left_bytes bytes _ h.1
  where
    left_bytes : (xs ys : List ℕ) → All IsByte (xs ++ ys) → All IsByte xs
    left_bytes [] ys h = tt
    left_bytes (x ∷ xs) ys h = (h.0, left_bytes xs ys h.1)

module _ (crc : Crc16) (name : String) (v : ℕ) (s bytes : List ℕ)
    (named : version_bytes name ≡ some v) (decoded : decode_check crc name s ≡ ok bytes) where
  -- The text is the encoding of the payload with its checksum, up to padding, and its bytes are bytes.
  pub decode_check-eq-ok :
      (pad_to_four s ≡ b32encode (sealed crc v bytes)) × All IsByte (sealed crc v bytes)
  unfolding decode_check
  decode_check-eq-ok =
      let (bs, r1, h1) = >>=-eq-ok (bytes_from_decode_data s) _ decoded in
      let same = bytes_from-eq-ok s bs r1 in
      let (d, r2, h2) = >>=-eq-ok (or_raise (b32decode (pad_to_four bs)) _) _ h1 in
      let (_, r3, h3) = >>=-eq-ok (require (list_eq (pad_to_four bs) (b32encode d)) _) _ h2 in
      let whole = check_decoded-eq-ok crc name v d bytes named h3 in
      (
        cc (
          same,
          whole,
          list_eq_sound (pad_to_four bs) (b32encode d)
              (require-eq-ok (list_eq (pad_to_four bs) (b32encode d)) _ r3),
        ),
        subst (λ (t : List ℕ). All IsByte t) whole
            (b32decode-IsByte (pad_to_four bs) d (or_raise-eq-ok _ _ r2)),
      )

  -- Whatever decode_check accepts, encode_check writes from the bytes that it returned, but for `=` at
  -- the end: no two texts without `=` at the end stand for the same bytes.
  pub encode_check-decode_check : encode_check crc name (some bytes) ≡ ok (rstrip pad_char s)
  encode_check-decode_check =
      let (text, valid) = decode_check-eq-ok in
      encode_check_lem crc name v bytes named (payload-IsByte crc v bytes valid)
      ∙ ap ok (
          sym (rstrip-b32encode (sealed crc v bytes) valid)
          ∙ ap (rstrip pad_char) (sym text)
          ∙ rstrip-pad_to_four s)
