-- ===== src/StrKey/Muxed.antt =====
-- encode_muxed_account then decode_muxed_account: the identifier goes through a signed 64-bit word.
use py_stellar_base.Prelude.{
  ℕ, ◌-◌, ◌^◌, ◌<◌, ◌≤◌, ◌≡◌, refl, ◌∙◌, ap, arith, some, List, [], ◌++◌, length, length-append,
  take, drop, take-append, drop-append, All, All-append,
}
use mathlib.Core.List.{append-nil}
use py_stellar_base.Prelude.Int.{ℤ, pos, negsuc}
use py_stellar_base.Error.{ok, ◌>>=◌}
use py_stellar_base.Base32.{IsByte, b32_body}
use py_stellar_base.Base32.RoundTrip.{length-b32_body}
use py_stellar_base.Xdr.{pack_uint, pack_uint64, pack_uint256, unpack_uint256, low_64, as_signed}
use py_stellar_base.Xdr.Words.{unpack_int64-pack_int64, pack_uint256_lem, IsInt64, as_signed-low_64}
use py_stellar_base.StrKey.{
  Crc16, version_bytes, decode_check, encode_check, encode_ed25519_public_key,
  decode_ed25519_public_key, XdrMuxedAccount, ed25519, med25519, unpack_med25519,
  encode_muxed_account, decode_muxed_account,
}
use py_stellar_base.StrKey.RoundTrip.{sealed, length-sealed, encode_check_lem, decode_check-text}

-- A raw public key.
pub record IsKey (key : List ℕ) : Type 0 where
  pub size : length key ≡ 32
  pub bytes : All IsByte key

pack_uint64-IsByte : (id : ℤ) → All IsByte (pack_uint64 id)
unfolding pack_uint64 pack_uint
pack_uint64-IsByte id = omega arith

length-pack_uint64 : (id : ℤ) → length (pack_uint64 id) ≡ 8
unfolding pack_uint64 pack_uint
length-pack_uint64 id = refl

pub unpack_uint256_lem : (key : List ℕ) → length key ≡ 32 → unpack_uint256 key ≡ ok (key, [])
unfolding unpack_uint256
unpack_uint256_lem key h =
    let whole : take 32 key ≡ key = rw (append-nil, h) at (take-append key []) in
    let rest : drop 32 key ≡ [] = rw (append-nil, h) at (drop-append key []) in
    ground (arith, whole, rest)

unpack_med25519_lem :
    (id : ℤ) (key : List ℕ)
    → length key ≡ 32
    → unpack_med25519 (pack_uint64 id ++ pack_uint256 key)
      ≡ ok (med25519 (as_signed (low_64 id)) key)
unfolding unpack_med25519
unpack_med25519_lem id key h =
    rw (pack_uint256_lem key h, unpack_int64-pack_int64 id key, unpack_uint256_lem key h)

module _ (crc : Crc16) where
  -- The text of a public key has 56 characters and decodes to the key.
  pub decode_ed25519-encode_ed25519 :
      (key : List ℕ)
      → IsKey key
      → (s : List ℕ) × (encode_ed25519_public_key crc key ≡ ok s)
        × (length s ≡ 56)
        × (decode_ed25519_public_key crc s ≡ ok key)
  unfolding encode_ed25519_public_key decode_ed25519_public_key version_bytes
  decode_ed25519-encode_ed25519 key k =
      let p = sealed crc 0x30 key in
      (
        b32_body p,
        encode_check_lem crc "ed25519_public_key" 0x30 key refl k.bytes,
        omega (arith, k.size, length-b32_body p, length-sealed crc 0x30 key),
        rw (
            decode_check-text crc "ed25519_public_key" 0x30 key refl k.bytes
              (omega (arith, k.size))),
      )

  -- The text of an identifier and a key has 69 characters; the identifier comes back as the signed
  -- integer of its 64 low bits.
  pub decode_muxed-encode_muxed :
      (id : ℤ) (key : List ℕ)
      → IsKey key
      → (s : List ℕ) × (encode_muxed_account crc (med25519 id key) ≡ ok s)
        × (length s ≡ 69)
        × (decode_check crc "muxed_account" s ≡ ok (pack_uint64 id ++ pack_uint256 key))
        × (decode_muxed_account crc s ≡ ok (med25519 (as_signed (low_64 id)) key))
  unfolding encode_muxed_account decode_muxed_account version_bytes
  decode_muxed-encode_muxed id key k =
      let bytes = pack_uint64 id ++ pack_uint256 key in
      let p = sealed crc 0x60 bytes in
      let size : length bytes ≡ 40 =
        length-append (pack_uint64 id) (pack_uint256 key)
        ∙ omega (
          arith,
          length-pack_uint64 id,
          k.size,
          ap (λ (t : List ℕ). length t) (pack_uint256_lem key k.size),
        ) in
      let valid : All IsByte bytes =
        All-append IsByte (pack_uint64 id) (pack_uint256 key) (pack_uint64-IsByte id)
          (rw (pack_uint256_lem key k.size) k.bytes) in
      let text : length (b32_body p) ≡ 69 =
        omega (arith, size, length-b32_body p, length-sealed crc 0x60 bytes) in
      let back =
        decode_check-text crc "muxed_account" 0x60 bytes refl valid (omega (arith, size)) in
      (
        b32_body p,
        encode_check_lem crc "muxed_account" 0x60 bytes refl valid,
        text,
        back,
        rw (text, back, unpack_med25519_lem id key k.size),
      )

  -- `encode_muxed_account` writes what `encode_check` writes of the packed words.
  pub encode_check_words :
      (id : ℤ) (key : List ℕ)
      → encode_check crc "muxed_account" (some (pack_uint64 id ++ pack_uint256 key))
        ≡ encode_muxed_account crc (med25519 id key)
  unfolding encode_muxed_account
  encode_check_words id key = refl

abbrev pub key_of : XdrMuxedAccount → List ℕ
key_of (ed25519 key) = key
key_of (med25519 id key) = key

abbrev pub HasInt64 : XdrMuxedAccount → Type 0
HasInt64 (ed25519 key) = Unit
HasInt64 (med25519 id key) = IsInt64 id

module _ (crc : Crc16) where
  pub decode_public_key_text :
      (s key : List ℕ)
      → length s ≡ 56
      → decode_ed25519_public_key crc s ≡ ok key
      → decode_muxed_account crc s ≡ ok (ed25519 key)
  unfolding decode_muxed_account
  decode_public_key_text s key n e = rw (n, e)

  -- A muxed account with a key of 32 bytes and an identifier in the range of a signed 64-bit integer
  -- is read back from its text.
  pub decode_muxed_account-encode_muxed_account :
      (x : XdrMuxedAccount)
      → IsKey (key_of x)
      → HasInt64 x
      → (encode_muxed_account crc x >>= decode_muxed_account crc) ≡ ok x
  unfolding encode_muxed_account
  decode_muxed_account-encode_muxed_account (ed25519 key) k h =
      let (s, e, n, d) = decode_ed25519-encode_ed25519 crc key k in
      rw e (decode_public_key_text s key n d)
  decode_muxed_account-encode_muxed_account (med25519 id key) k h =
      let (s, e, n, c, d) = decode_muxed-encode_muxed crc id key k in
      rw e (d ∙ ap (λ (t : ℤ). ok (med25519 t key)) (as_signed-low_64 id h))

  -- An identifier from 2 ^ 63 to 2 ^ 64 - 1, which the protocol's uint64 allows, comes back from its
  -- text as a negative number, 2 ^ 64 less.
  pub decode_muxed_account_wide :
      (n : ℕ) (key : List ℕ)
      → IsKey key
      → 2 ^ 63 ≤ n
      → n < 2 ^ 64
      → (encode_muxed_account crc (med25519 (pos n) key) >>= decode_muxed_account crc)
        ≡ ok (med25519 (negsuc (2 ^ 64 - 1 - n)) key)
  unfolding low_64 as_signed
  decode_muxed_account_wide n key k lo hi =
      let (s, e, _, _, d) = decode_muxed-encode_muxed crc (pos n) key k in
      let wrapped : as_signed (low_64 (pos n)) ≡ negsuc (2 ^ 64 - 1 - n) = ground arith in
      rw e (d ∙ ap (λ (t : ℤ). ok (med25519 t key)) wrapped)
