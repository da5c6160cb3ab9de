-- ===== src/Examples/Values.antt =====
-- The theorems on keys, addresses, assets, amounts, memos and time bounds at concrete arguments.
use py_stellar_base.Prelude.{
  ℕ, ◌+◌, ◌-◌, ◌%◌, ◌^◌, ◌≤◌, ◌<◌, ◌≡◌, refl, ◌↔◌, ◌⊎◌, arith, true, some, List, [], ◌∷◌, ◌++◌, leb,
  if◌then◌else◌, length, rstrip, All,
}
use py_stellar_base.Prelude.Int.{pos, negsuc}
use py_stellar_base.Error.{ok, err, value_error, ◌>>=◌}
use py_stellar_base.Base32.{pad_char, IsByte, b32encode}
use py_stellar_base.StrKey.{
  version_bytes, encode_check, decode_check, encode_ed25519_public_key, is_valid, med25519,
  encode_muxed_account, decode_muxed_account,
}
use py_stellar_base.StrKey.RoundTrip.{sealed, decode_check-encode_check}
use py_stellar_base.StrKey.Canonical.{encode_check-decode_check}
use py_stellar_base.StrKey.Validity.{is_valid_iff}
use py_stellar_base.StrKey.Muxed.{
  decode_muxed_account-encode_muxed_account, decode_muxed_account_wide,
}
use py_stellar_base.MuxedAccount
use py_stellar_base.MuxedAccount.{from_account}
use py_stellar_base.MuxedAccount.RoundTrip.{
  address, from_account-address, from_xdr_object-to_xdr_object,
}
use py_stellar_base.Keypair.{Keypair, secret, from_secret}
use py_stellar_base.Keypair.RoundTrip as KeypairLaws
use py_stellar_base.Keypair.RoundTrip.{
  Signs, sign_decorated-verify, from_secret-secret, from_public_key-public_key,
}
use py_stellar_base.Asset
use py_stellar_base.Asset.{matches_from, check_if_asset_code_is_valid, pad_code}
use py_stellar_base.Asset.Code.{IsWord, matches_iff}
use py_stellar_base.Asset.RoundTrip.{asset-from_xdr-to_xdr}
use py_stellar_base.Amount.{one, to_xdr_amount, from_xdr_amount, check_amount, stroops}
use py_stellar_base.Amount.Exact.{to_xdr_amount-check_amount}
use py_stellar_base.Amount.Rounding.{
  to_xdr_amount-from_xdr_amount, long_amount, to_xdr_amount-long_amount,
}
use py_stellar_base.Memo
use py_stellar_base.Memo.{
  Memo, str, bytes, id_memo, memo_id, hash_memo, make_hash_memo, make_return_hash_memo,
}
use py_stellar_base.Memo.RoundTrip as MemoLaws
use py_stellar_base.Memo.RoundTrip.{memo-from_xdr-to_xdr, memo-IsValid}
use py_stellar_base.TimeBounds.{time_bounds}
use py_stellar_base.TimeBounds.Range.{IsRange, time_bounds_accepts}
use py_stellar_base.Examples.{xmodem, toy_nacl, seed, key, seed_is_key, key_is_key}
use py_stellar_base.Examples.Keys.{
  account, key_text, muxed_server, muxed_server_valid, usd, usd_valid, some_amount,
  some_amount_accepted,
}

decode_check-encode_check_example :
    (encode_check xmodem "ed25519_public_key" (some key)
      >>= decode_check xmodem "ed25519_public_key")
    ≡ (if leb (length key % 5) 2 then ok key else err value_error)
unfolding version_bytes
decode_check-encode_check_example =
    decode_check-encode_check xmodem "ed25519_public_key" 0x30 key refl key_is_key.bytes

key_decoded : decode_check xmodem "ed25519_public_key" account ≡ ok key
unfolding encode_ed25519_public_key version_bytes
key_decoded =
    let all =
      decode_check-encode_check xmodem "ed25519_public_key" 0x30 key refl key_is_key.bytes in
    rw key_text at all

encode_check-decode_check_example :
    encode_check xmodem "ed25519_public_key" (some key) ≡ ok (rstrip pad_char account)
unfolding version_bytes
encode_check-decode_check_example =
    encode_check-decode_check xmodem "ed25519_public_key" 0x30 account key refl key_decoded

is_valid_iff_example : (is_valid xmodem "ed25519_public_key" account ≡ true) ↔ (
    (bs : List ℕ) × (28 ≤ length bs)
    × (length bs ≤ 32)
    × All IsByte bs
    × (account ≡ b32encode (sealed xmodem 0x30 bs)))
unfolding version_bytes
is_valid_iff_example = is_valid_iff xmodem "ed25519_public_key" 0x30 refl account

decode_muxed_account-encode_muxed_account_example :
    (encode_muxed_account xmodem (med25519 (negsuc 6) key) >>= decode_muxed_account xmodem)
    ≡ ok (med25519 (negsuc 6) key)
decode_muxed_account-encode_muxed_account_example =
    decode_muxed_account-encode_muxed_account xmodem (med25519 (negsuc 6) key) key_is_key
      (omega arith)

decode_muxed_account_wide_example :
    (encode_muxed_account xmodem (med25519 (pos (2 ^ 63 + 4)) key) >>= decode_muxed_account xmodem)
    ≡ ok (med25519 (negsuc (2 ^ 64 - 1 - (2 ^ 63 + 4))) key)
decode_muxed_account_wide_example =
    decode_muxed_account_wide xmodem (2 ^ 63 + 4) key key_is_key (omega arith) (omega arith)

from_account-address_example :
    (address xmodem muxed_server >>= from_account xmodem) ≡ ok muxed_server
from_account-address_example = from_account-address xmodem muxed_server muxed_server_valid

from_xdr_object-to_xdr_object_example :
    (MuxedAccount.to_xdr_object xmodem muxed_server >>= MuxedAccount.from_xdr_object xmodem)
    ≡ ok muxed_server
from_xdr_object-to_xdr_object_example =
    from_xdr_object-to_xdr_object xmodem muxed_server muxed_server_valid

abbrev signing : Keypair
signing = record { verify_key = key; signing_key = some seed }

signing_valid : KeypairLaws.IsValid toy_nacl signing
signing_valid = record { key = key_is_key; seed = (seed_is_key, refl) }

from_secret-secret_example : (secret xmodem signing >>= from_secret toy_nacl xmodem) ≡ ok signing
from_secret-secret_example = from_secret-secret xmodem toy_nacl key seed signing_valid

asset-from_xdr-to_xdr_example :
    (Asset.to_xdr_object xmodem usd >>= Asset.from_xdr_object xmodem) ≡ ok usd
asset-from_xdr-to_xdr_example = asset-from_xdr-to_xdr xmodem usd usd_valid

matches_iff_example : (matches_from 0 (b'U' ∷ b'S' ∷ b'D' ∷ 10 ∷ []) ≡ true) ↔ (
    IsWord 0 (b'U' ∷ b'S' ∷ b'D' ∷ 10 ∷ [])
    ⊎ ((w : List ℕ) × IsWord 0 w × ((b'U' ∷ b'S' ∷ b'D' ∷ 10 ∷ []) ≡ w ++ 10 ∷ [])))
matches_iff_example = matches_iff (b'U' ∷ b'S' ∷ b'D' ∷ 10 ∷ [])

to_xdr_amount-check_amount_example :
    (to_xdr_amount some_amount ≡ ok (stroops some_amount.coefficient some_amount.exponent))
    × (stroops some_amount.coefficient some_amount.exponent < 2 ^ 63)
to_xdr_amount-check_amount_example = to_xdr_amount-check_amount some_amount some_amount_accepted

to_xdr_amount-from_xdr_amount_example :
    (check_amount (from_xdr_amount 10000000) ≡ ok tt)
    × (to_xdr_amount (from_xdr_amount 10000000) ≡ ok 10000000)
to_xdr_amount-from_xdr_amount_example = to_xdr_amount-from_xdr_amount 10000000 (omega arith)

to_xdr_amount-long_amount_example :
    (to_xdr_amount (long_amount 3) ≡ ok one) × (check_amount (long_amount 3) ≡ err value_error)
to_xdr_amount-long_amount_example = to_xdr_amount-long_amount 3 (omega arith)

memo-from_xdr-to_xdr_example :
    Memo.from_xdr_object (Memo.to_xdr_object (id_memo (pos 9))) ≡ ok (id_memo (pos 9))
memo-from_xdr-to_xdr_example = memo-from_xdr-to_xdr (id_memo (pos 9)) (omega arith)

nine_read : Memo.from_xdr_object (memo_id (pos 9)) ≡ ok (id_memo (pos 9))
unfolding Memo.from_xdr_object Memo.make_id_memo
nine_read = refl

memo-IsValid_example : MemoLaws.IsValid (id_memo (pos 9))
memo-IsValid_example = memo-IsValid (memo_id (pos 9)) (id_memo (pos 9)) nine_read

time_bounds_accepts_example :
    (IsRange (pos 5) (pos 3)
      × (time_bounds (pos 5) (pos 3) ≡ ok (record { min_time = pos 5; max_time = pos 3 })))
    ⊎ (¬ IsRange (pos 5) (pos 3) × (time_bounds (pos 5) (pos 3) ≡ err value_error))
time_bounds_accepts_example = time_bounds_accepts (pos 5) (pos 3)
