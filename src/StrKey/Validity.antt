-- ===== src/StrKey/Validity.antt =====
-- is_valid: exactly which texts it accepts.
use Prim.Native.String.{String}
use mathlib.Core.Path.{subst}
use mathlib.Core.List.{append-nil}
use py_stellar_base.Prelude.{
  ℕ, zero, suc, ◌%◌, ◌≤◌, ◌≡◌, refl, ◌∙◌, ap, sym, arith, true, ◌↔◌, ◌⊎◌, inl, inr, some, List, [],
  ◌∷◌, ◌++◌, ◌==◌, Bool-cases, list_eq_refl, length, replicate, rstrip, All,
}
use py_stellar_base.Error.{ok, succeeds-eq-true, ok-injective}
use py_stellar_base.Base32.{IsByte, pad_char, b32_body, b32_padding, b32encode}
use py_stellar_base.Base32.RoundTrip.{
  b32_body-IsDigit, length-b32_body, length-b32encode, b32_padding_lem, b32decode-b32encode,
}
use py_stellar_base.StrKey.{
  Crc16, version_bytes, is_ascii, bytes_from_decode_data, pad_to_four, decode_check, encode_check,
  is_valid,
}
use py_stellar_base.StrKey.RoundTrip.{
  is_ascii-digits, sealed, sealed-IsByte, length-sealed, encode_check_lem, decode_check-text,
  check_decoded-sealed,
}
use py_stellar_base.StrKey.Canonical.{decode_check-eq-ok, encode_check-decode_check, payload-IsByte}

is_ascii-append :
    (cs : List ℕ) (n : ℕ) → is_ascii cs ≡ true → is_ascii (cs ++ replicate n pad_char) ≡ true
unfolding is_ascii
is_ascii-append [] zero h = refl
is_ascii-append [] (suc n) h = is_ascii-append [] n refl
is_ascii-append (c ∷ cs) n h = ground (arith, is_ascii-append cs n)

-- A text whose length is a multiple of four is not padded.
pad_to_four_none : (s : List ℕ) → length s % 4 ≡ 0 → pad_to_four s ≡ s
unfolding pad_to_four
pad_to_four_none s h = rw h (append-nil s)

bytes_from-ascii : (s : List ℕ) → is_ascii s ≡ true → bytes_from_decode_data s ≡ ok s
unfolding bytes_from_decode_data
bytes_from-ascii s h = rw h

module _ (crc : Crc16) (name : String) (v : ℕ) (named : version_bytes name ≡ some v) where
  -- The padded text decodes too.
  decode_check-b32encode :
      (bytes : List ℕ)
      → All IsByte bytes
      → decode_check crc name (b32encode (sealed crc v bytes)) ≡ ok bytes
  unfolding decode_check
  decode_check-b32encode bytes valid =
      let p : List ℕ = sealed crc v bytes in
      let bs : All IsByte p = sealed-IsByte crc name v bytes named valid in
      rw
        (
          bytes_from-ascii (b32encode p) (
              unfold b32encode in
              is_ascii-append (b32_body p) (b32_padding p)
                (is_ascii-digits _ (b32_body-IsDigit p bs))),
          pad_to_four_none (b32encode p) (omega (arith, length-b32encode p, b32_padding_lem p)),
          b32decode-b32encode p bs,
          list_eq_refl (b32encode p),
        )
        (check_decoded-sealed crc name v bytes named)

  is_valid-of-decode :
      (s bytes : List ℕ)
      → length s ≡ 56
      → decode_check crc name s ≡ ok bytes
      → is_valid crc name s ≡ true
  unfolding is_valid
  is_valid-of-decode [] bytes n h = absurd (omega arith)
  is_valid-of-decode (c ∷ cs) bytes n h = rw h (ground arith)

  decode-of-is_valid :
      (s : List ℕ)
      → is_valid crc name s ≡ true
      → ((length s ≡ 56) ⊎ (length s ≡ 0)) × (bytes : List ℕ) × (decode_check crc name s ≡ ok bytes)
  unfolding is_valid
  decode-of-is_valid [] h =
      let (bytes, e) = succeeds-eq-true (decode_check crc name []) h in (inr refl, bytes, e)
  decode-of-is_valid (c ∷ cs) h = elim (Bool-cases (length (c ∷ cs) == 56)) [
    | inl n ↦
        let (bytes, e) = succeeds-eq-true (decode_check crc name (c ∷ cs)) (rw n at h) in
        (inl (ground arith), bytes, e)
    | inr n ↦ absurd (ground arith)
  ]

  length-b32encode-sealed :
      (bytes : List ℕ)
      → (28 ≤ length bytes) × (length bytes ≤ 32)
      → length (b32encode (sealed crc v bytes)) ≡ 56
  length-b32encode-sealed bytes h = omega (
    arith,
    length-b32encode (sealed crc v bytes),
    length-b32_body (sealed crc v bytes),
    b32_padding_lem (sealed crc v bytes),
    length-sealed crc v bytes,
  )

  length-payload :
      (bytes : List ℕ)
      → (length (b32encode (sealed crc v bytes)) ≡ 56)
        ⊎ (length (b32encode (sealed crc v bytes)) ≡ 0)
      → (28 ≤ length bytes) × (length bytes ≤ 32)
  length-payload bytes h = omega (
    arith,
    length-b32encode (sealed crc v bytes),
    length-b32_body (sealed crc v bytes),
    b32_padding_lem (sealed crc v bytes),
    length-sealed crc v bytes,
  )

  -- is_valid accepts exactly the padded texts of 28 to 32 bytes under the version byte of its name.
  pub is_valid_iff :
      (s : List ℕ)
      → (is_valid crc name s ≡ true) ↔ (
          (bytes : List ℕ) × (28 ≤ length bytes)
          × (length bytes ≤ 32)
          × All IsByte bytes
          × (s ≡ b32encode (sealed crc v bytes)))
  is_valid_iff s = (accepted, written)
    where
      accepted :
          is_valid crc name s ≡ true
          → (bytes : List ℕ) × (28 ≤ length bytes)
            × (length bytes ≤ 32)
            × All IsByte bytes
            × (s ≡ b32encode (sealed crc v bytes))
      accepted h =
          let (n, bytes, e) = decode-of-is_valid s h in
          let (text, valid) = decode_check-eq-ok crc name v s bytes named e in
          let same : s ≡ b32encode (sealed crc v bytes) =
            sym (pad_to_four_none s (omega arith)) ∙ text in
          let (lo, hi) =
            length-payload bytes
              (subst (λ (t : List ℕ). (length t ≡ 56) ⊎ (length t ≡ 0)) same n) in
          (bytes, lo, hi, payload-IsByte crc v bytes valid, same)

      written :
          (bytes : List ℕ) × (28 ≤ length bytes)
            × (length bytes ≤ 32)
            × All IsByte bytes
            × (s ≡ b32encode (sealed crc v bytes))
          → is_valid crc name s ≡ true
      written (bytes, lo, hi, valid, same) = rw same (
          is_valid-of-decode (b32encode (sealed crc v bytes)) bytes
            (length-b32encode-sealed bytes (lo, hi)) (decode_check-b32encode bytes valid))

  -- A valid text with no `=` at its end is what encode_check writes for 32 bytes.
  pub is_valid-unpadded :
      (s : List ℕ)
      → is_valid crc name s ≡ true
      → rstrip pad_char s ≡ s
      → (bytes : List ℕ) × (length bytes ≡ 32)
        × All IsByte bytes
        × (encode_check crc name (some bytes) ≡ ok s)
        × (decode_check crc name s ≡ ok bytes)
  is_valid-unpadded s h bare =
      let (n, bytes, e) = decode-of-is_valid s h in
      let (text, valid) = decode_check-eq-ok crc name v s bytes named e in
      let small = payload-IsByte crc v bytes valid in
      let written : encode_check crc name (some bytes) ≡ ok s =
        encode_check-decode_check crc name v s bytes named e ∙ ap ok bare in
      let digits : b32_body (sealed crc v bytes) ≡ s =
        ok-injective (sym (encode_check_lem crc name v bytes named small) ∙ written) in
      (
        bytes,
        omega (
          arith,
          n,
          ap (λ (t : List ℕ). length t) digits,
          length-b32_body (sealed crc v bytes),
          length-sealed crc v bytes,
        ),
        small,
        written,
        e,
      )

  -- The text of 32 bytes has 56 characters and is valid.
  pub encode_check-is_valid :
      (bytes : List ℕ)
      → length bytes ≡ 32
      → All IsByte bytes
      → (s : List ℕ) × (encode_check crc name (some bytes) ≡ ok s)
        × (length s ≡ 56)
        × (is_valid crc name s ≡ true)
  encode_check-is_valid bytes n valid =
      let p = sealed crc v bytes in
      let whole : length (b32_body p) ≡ 56 =
        omega (arith, length-b32_body p, length-sealed crc v bytes) in
      (
        b32_body p,
        encode_check_lem crc name v bytes named valid,
        whole,
        is_valid-of-decode (b32_body p) bytes whole
            (decode_check-text crc name v bytes named valid (omega arith)),
      )
