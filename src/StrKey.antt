-- ===== src/StrKey.antt =====
-- stellar_sdk/strkey.py: the text form of keys and hashes. A text is the list of its code points;
-- the CRC of the third-party package crc16 is a parameter.
pub mod RoundTrip
pub mod Canonical
pub mod Validity
pub mod Muxed
use text.Mathlib.Text.{◌==◌ as str_eq}
use Prim.Native.String.{String}
use py_stellar_base.Prelude.{
  ℕ, ◌+◌, ◌-◌, ◌*◌, ◌/◌, ◌%◌, ◌^◌, ◌<◌, ◌≡◌, Bool, true, false, not, ◌&&◌, ◌||◌, Option, none, some,
  List, [], ◌∷◌, ◌++◌, ltb, leb, ◌==◌, if◌then◌else◌, list_eq, length, take, drop, take_last,
  drop_last, replicate, rstrip,
}
use py_stellar_base.Prelude.Int.{ℤ}
use py_stellar_base.Error.{
  Result, ok, err, value_error, type_error, ed25519_public_key_invalid, ed25519_secret_seed_invalid,
  muxed_account_invalid, ◌>>=◌, ◌>>◌, require, or_raise, succeeds,
}
use py_stellar_base.Base32.{pad_char, b32encode, b32decode}
use py_stellar_base.Xdr.{pack_int64, unpack_int64, pack_uint256, unpack_uint256}

-- What strkey.py relies on of `crc16xmodem`: sixteen bits, and 0 for no bytes.
pub record Crc16 : Type 0 where
  pub crc16xmodem : List ℕ → ℕ
  pub crc16xmodem-lt : (payload : List ℕ) → crc16xmodem payload < 65536
  pub crc16xmodem-nil : crc16xmodem [] ≡ 0

-- `_version_bytes.get(version_byte_name)`
unfoldable pub version_bytes : String → Option ℕ
version_bytes name =
    if str_eq name "ed25519_public_key"
    then some 0x30
    else if str_eq name "ed25519_secret_seed"
    then some 0x90
    else if str_eq name "pre_auth_tx"
    then some 0x98
    else if str_eq name "sha256_hash"
    then some 0xb8
    else if str_eq name "muxed_account"
    then some 0x60
    else none

unfoldable pub is_ascii : List ℕ → Bool
is_ascii [] = true
is_ascii (c ∷ cs) = ltb c 128 && is_ascii cs

-- `s.encode("ascii")`
unfoldable pub bytes_from_decode_data : List ℕ → Result (List ℕ)
unfolding is_ascii
bytes_from_decode_data s = if is_ascii s then ok s else err value_error

-- `encoded_data + b"=" * ((4 - len(encoded_data) % 4) % 4)`
unfoldable pub pad_to_four : List ℕ → List ℕ
pad_to_four s = s ++ replicate ((4 - length s % 4) % 4) pad_char

module _ (crc : Crc16) where
  -- `struct.pack("<H", crc16xmodem(payload))`
  unfoldable pub calculate_checksum : List ℕ → List ℕ
  calculate_checksum payload =
      let checksum = crc.crc16xmodem payload in (checksum % 256) ∷ (checksum / 256) ∷ []

  -- The checks of decode_check after the decoding: version byte, then checksum.
  unfoldable pub check_parts : Option ℕ → List ℕ → List ℕ → List ℕ → Result (List ℕ)
  check_parts none version_byte payload checksum = err type_error
  check_parts (some expected_version) version_byte payload checksum = do
    require (list_eq version_byte (expected_version ∷ [])) type_error
    require (list_eq (calculate_checksum payload) checksum) value_error
    ok (drop 1 payload)

  -- `decoded_data[0:1]`, `decoded_data[0:-2]` and `decoded_data[-2:]`
  unfoldable pub check_decoded : String → List ℕ → Result (List ℕ)
  check_decoded version_byte_name decoded_data =
      check_parts (version_bytes version_byte_name) (take 1 decoded_data) (drop_last 2 decoded_data)
        (take_last 2 decoded_data)

  unfoldable pub decode_check : String → List ℕ → Result (List ℕ)
  decode_check version_byte_name encoded = do
    bytes ← bytes_from_decode_data encoded
    let encoded_data = pad_to_four bytes
    decoded_data ← or_raise (b32decode encoded_data) value_error
    require (list_eq encoded_data (b32encode decoded_data)) value_error
    check_decoded version_byte_name decoded_data

  unfoldable pub encode_payload : Option ℕ → List ℕ → Result (List ℕ)
  encode_payload none bytes = err type_error
  encode_payload (some version_byte) bytes =
      let payload = version_byte ∷ bytes in
      ok (rstrip pad_char (b32encode (payload ++ calculate_checksum payload)))

  -- `data` is None or bytes
  unfoldable pub encode_check : String → Option (List ℕ) → Result (List ℕ)
  encode_check version_byte_name none = err value_error
  encode_check version_byte_name (some bytes) =
      encode_payload (version_bytes version_byte_name) bytes

  -- An empty text passes the test of the length and fails in decode_check.
  unfoldable pub is_valid : String → List ℕ → Bool
  is_valid version_byte_name [] = succeeds (decode_check version_byte_name [])
  is_valid version_byte_name (c ∷ cs) =
      if length (c ∷ cs) == 56 then succeeds (decode_check version_byte_name (c ∷ cs)) else false

  unfoldable pub encode_ed25519_public_key : List ℕ → Result (List ℕ)
  encode_ed25519_public_key bytes = encode_check "ed25519_public_key" (some bytes)

  unfoldable pub decode_ed25519_public_key : List ℕ → Result (List ℕ)
  decode_ed25519_public_key s =
      or_raise (decode_check "ed25519_public_key" s) ed25519_public_key_invalid

  unfoldable pub is_valid_ed25519_public_key : List ℕ → Bool
  is_valid_ed25519_public_key s = is_valid "ed25519_public_key" s

  unfoldable pub encode_ed25519_secret_seed : List ℕ → Result (List ℕ)
  encode_ed25519_secret_seed bytes = encode_check "ed25519_secret_seed" (some bytes)

  unfoldable pub decode_ed25519_secret_seed : List ℕ → Result (List ℕ)
  decode_ed25519_secret_seed s =
      or_raise (decode_check "ed25519_secret_seed" s) ed25519_secret_seed_invalid

  unfoldable pub is_valid_ed25519_secret_seed : List ℕ → Bool
  is_valid_ed25519_secret_seed s = is_valid "ed25519_secret_seed" s

  unfoldable pub encode_pre_auth_tx : List ℕ → Result (List ℕ)
  encode_pre_auth_tx bytes = encode_check "pre_auth_tx" (some bytes)

  unfoldable pub decode_pre_auth_tx : List ℕ → Result (List ℕ)
  decode_pre_auth_tx s = decode_check "pre_auth_tx" s

  unfoldable pub encode_sha256_hash : List ℕ → Result (List ℕ)
  encode_sha256_hash bytes = encode_check "sha256_hash" (some bytes)

  unfoldable pub decode_sha256_hash : List ℕ → Result (List ℕ)
  decode_sha256_hash s = decode_check "sha256_hash" s

-- Xdr.types.MuxedAccount, a union by its type: KEY_TYPE_ED25519 or KEY_TYPE_MUXED_ED25519
pub data XdrMuxedAccount : Type 0 where
  ed25519 : List ℕ → XdrMuxedAccount
  med25519 : ℤ → List ℕ → XdrMuxedAccount

-- `unpack_int64` and `unpack_uint256` on the decoded bytes
unfoldable pub unpack_med25519 : List ℕ → Result XdrMuxedAccount
unpack_med25519 xdr = do
  (id, rest) ← unpack_int64 xdr
  (key, _) ← unpack_uint256 rest
  ok (med25519 id key)

module _ (crc : Crc16) where
  unfoldable pub encode_muxed_account : XdrMuxedAccount → Result (List ℕ)
  encode_muxed_account (ed25519 key) = encode_ed25519_public_key crc key
  encode_muxed_account (med25519 id key) =
      encode_check crc "muxed_account" (some (pack_int64 id ++ pack_uint256 key))

  unfoldable pub decode_muxed_account : List ℕ → Result XdrMuxedAccount
  decode_muxed_account s =
      if length s == 56
      then (do key ← decode_ed25519_public_key crc s; ok (ed25519 key))
      else if length s == 69
      then (do
        xdr ← or_raise (decode_check crc "muxed_account" s) muxed_account_invalid
        unpack_med25519 xdr)
      else err value_error
