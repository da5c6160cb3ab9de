-- ===== src/MuxedAccount/RoundTrip.antt =====
-- An account, its text and its XDR union.
use py_stellar_base.Prelude.{ℕ, ◌≡◌, ◌∙◌, ap, sym, Option, none, some, List, ◌++◌, length}
use py_stellar_base.Prelude.Int.{ℤ}
use py_stellar_base.Error.{Result, ok, ◌>>=◌, ok-injective}
use py_stellar_base.Xdr.{pack_uint64, pack_uint256}
use py_stellar_base.Xdr.Words.{IsInt64, as_signed-low_64, unpack_int64-pack_int64, pack_uint256_lem}
use py_stellar_base.StrKey.{Crc16, encode_ed25519_public_key, decode_ed25519_public_key}
use py_stellar_base.StrKey.Muxed.{
  IsKey, decode_ed25519-encode_ed25519, decode_muxed-encode_muxed, encode_check_words,
  unpack_uint256_lem, decode_public_key_text,
}
use py_stellar_base.MuxedAccount.{
  MuxedAccount, muxed_account, account_id_muxed, from_words, from_account, to_xdr_object,
  from_xdr_object,
}

abbrev pub HasIdentifier : Option ℤ → Type 0
HasIdentifier none = Unit
HasIdentifier (some id) = IsInt64 id

-- The account id is the text of a key of 32 bytes, and the identifier fits a signed 64-bit integer.
pub record IsValid (crc : Crc16) (m : MuxedAccount) : Type 0 where
  pub key : List ℕ
  pub is_key : IsKey key
  pub text : encode_ed25519_public_key crc key ≡ ok m.account_id
  pub fits : HasIdentifier m.account_id_id

-- The address that stands for the account: its muxed text if it has an identifier.
abbrev pub address_of : MuxedAccount → Option (List ℕ) → List ℕ
address_of m none = m.account_id
address_of m (some s) = s

unfoldable pub address : Crc16 → MuxedAccount → Result (List ℕ)
address crc m = do s ← account_id_muxed crc m; ok (address_of m s)

module _ (crc : Crc16) (key : List ℕ) (k : IsKey key) (account_id : List ℕ)
    (text : encode_ed25519_public_key crc key ≡ ok account_id) where
  decoded : decode_ed25519_public_key crc account_id ≡ ok key
  decoded =
      let (s, e, n, d) = decode_ed25519-encode_ed25519 crc key k in
      ap (decode_ed25519_public_key crc) (ok-injective (sym text ∙ e)) ∙ d

  length_text : length account_id ≡ 56
  length_text =
      let (s, e, n, d) = decode_ed25519-encode_ed25519 crc key k in
      ap (λ (t : List ℕ). length t) (ok-injective (sym text ∙ e)) ∙ n

  pub muxed_account_lem :
      (id : Option ℤ)
      → muxed_account crc account_id id
        ≡ ok (record { account_id = account_id; account_id_id = id })
  unfolding muxed_account
  muxed_account_lem id = rw decoded

  from_words_lem :
      (id : ℤ)
      → IsInt64 id
      → from_words crc (pack_uint64 id ++ pack_uint256 key)
        ≡ ok (record { account_id = account_id; account_id_id = some id })
  unfolding from_words
  from_words_lem id fits =
      rw
        (
          pack_uint256_lem key k.size,
          unpack_int64-pack_int64 id key,
          unpack_uint256_lem key k.size,
          text,
          as_signed-low_64 id fits,
        )
        (muxed_account_lem (some id))

  from_address :
      (id : Option ℤ)
      → HasIdentifier id
      → (address crc (record { account_id = account_id; account_id_id = id }) >>= from_account crc)
        ≡ ok (record { account_id = account_id; account_id_id = id })
  unfolding address account_id_muxed from_account
  from_address none fits = rw length_text (muxed_account_lem none)
  from_address (some id) fits =
      let (s, e, n, c, d) = decode_muxed-encode_muxed crc id key k in
      rw (decoded, encode_check_words crc id key, e, n, c) (from_words_lem id fits)

  from_xdr :
      (id : Option ℤ)
      → HasIdentifier id
      → (to_xdr_object crc (record { account_id = account_id; account_id_id = id })
          >>= from_xdr_object crc)
        ≡ ok (record { account_id = account_id; account_id_id = id })
  unfolding to_xdr_object from_xdr_object
  from_xdr none fits =
      rw (decode_public_key_text crc account_id key length_text decoded, text)
        (muxed_account_lem none)
  from_xdr (some id) fits =
      let (s, e, n, c, d) = decode_muxed-encode_muxed crc id key k in
      rw (decoded, encode_check_words crc id key, e, d, as_signed-low_64 id fits, text)
        (muxed_account_lem (some id))

-- An account is read back from its address.
pub from_account-address :
    (crc : Crc16) (m : MuxedAccount) → IsValid crc m → (address crc m >>= from_account crc) ≡ ok m
from_account-address crc m v =
    from_address crc v.key v.is_key m.account_id v.text m.account_id_id v.fits

-- An account is read back from its XDR union.
pub from_xdr_object-to_xdr_object :
    (crc : Crc16) (m : MuxedAccount)
    → IsValid crc m
    → (to_xdr_object crc m >>= from_xdr_object crc) ≡ ok m
from_xdr_object-to_xdr_object crc m v =
    from_xdr crc v.key v.is_key m.account_id v.text m.account_id_id v.fits
