-- ===== src/MuxedAccount.antt =====
-- stellar_sdk/muxed_account.py.
pub mod RoundTrip
use py_stellar_base.Prelude.{
  ℕ, ◌+◌, Bool, true, false, ◌&&◌, Option, none, some, List, ◌++◌, ◌==◌, if◌then◌else◌, list_eq,
  length,
}
use py_stellar_base.Prelude.Int.{ℤ, ◌==ℤ◌}
use py_stellar_base.Error.{Result, ok, err, value_error, muxed_account_invalid, ◌>>=◌, or_raise}
use py_stellar_base.Xdr.{pack_int64, unpack_int64, pack_uint256, unpack_uint256}
use py_stellar_base.StrKey.{
  Crc16, decode_check, encode_check, encode_ed25519_public_key, decode_ed25519_public_key,
  XdrMuxedAccount, ed25519, med25519, decode_muxed_account,
}

pub record MuxedAccount : Type 0 where
  pub account_id : List ℕ
  pub account_id_id : Option ℤ

module _ (crc : Crc16) where
  -- utils.check_ed25519_public_key
  unfoldable pub check_ed25519_public_key : List ℕ → Result (Unit {0})
  check_ed25519_public_key public_key = do key ← decode_ed25519_public_key crc public_key; ok tt

  -- `MuxedAccount.__init__`
  unfoldable pub muxed_account : List ℕ → Option ℤ → Result MuxedAccount
  unfolding check_ed25519_public_key
  muxed_account account_id account_id_id = do
    checked ← check_ed25519_public_key account_id
    ok (record { account_id = account_id; account_id_id = account_id_id })

  unfoldable pub muxed_text : List ℕ → Option ℤ → Result (Option (List ℕ))
  muxed_text account_id none = ok none
  muxed_text account_id (some id) = do
    key ← decode_ed25519_public_key crc account_id
    s ← encode_check crc "muxed_account" (some (pack_int64 id ++ pack_uint256 key))
    ok (some s)

  -- The property `account_id_muxed`.
  unfoldable pub account_id_muxed : MuxedAccount → Result (Option (List ℕ))
  unfolding muxed_text
  account_id_muxed m = muxed_text m.account_id m.account_id_id

  -- The identifier and the key of a muxed text's bytes, as an account.
  unfoldable pub from_words : List ℕ → Result MuxedAccount
  unfolding muxed_account
  from_words xdr = do
    (account_id_id, rest) ← unpack_int64 xdr
    (key, _) ← unpack_uint256 rest
    account_id ← encode_ed25519_public_key crc key
    muxed_account account_id (some account_id_id)

  unfoldable pub from_account : List ℕ → Result MuxedAccount
  unfolding from_words
  from_account account =
      if length account == 56
      then muxed_account account none
      else if length account == 69
      then (do
        xdr ← or_raise (decode_check crc "muxed_account" account) muxed_account_invalid
        from_words xdr)
      else err value_error

  -- `StrKey.decode_muxed_account(None)` is a TypeError of `len`, which cannot happen here.
  unfoldable pub to_xdr_of : List ℕ → Option (List ℕ) → Result XdrMuxedAccount
  to_xdr_of account_id none = decode_muxed_account crc account_id
  to_xdr_of account_id (some s) = decode_muxed_account crc s

  unfoldable pub to_xdr_object : MuxedAccount → Result XdrMuxedAccount
  unfolding account_id_muxed to_xdr_of
  to_xdr_object m = do s ← account_id_muxed m; to_xdr_of m.account_id s

  unfoldable pub from_xdr_object : XdrMuxedAccount → Result MuxedAccount
  unfolding muxed_account
  from_xdr_object (ed25519 key) = do
    account_id ← encode_ed25519_public_key crc key
    muxed_account account_id none
  from_xdr_object (med25519 id key) = do
    account_id ← encode_ed25519_public_key crc key
    muxed_account account_id (some id)

abbrev id_eq : Option ℤ → Option ℤ → Bool
id_eq none none = true
id_eq none (some b) = false
id_eq (some a) none = false
id_eq (some a) (some b) = a ==ℤ b

-- `__eq__`
unfoldable pub muxed_eq : MuxedAccount → MuxedAccount → Bool
muxed_eq a b = list_eq a.account_id b.account_id && id_eq a.account_id_id b.account_id_id
