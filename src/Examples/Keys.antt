-- ===== src/Examples/Keys.antt =====
-- The texts of the example keys, by running the code, and strkey.py at them.
use py_stellar_base.Prelude.{ℕ, ◌≡◌, refl, none, some, List, [], ◌∷◌}
use py_stellar_base.Error.{ok}
use py_stellar_base.Base32.{b32encode, b32_body, b32_padding, b32_digit}
use py_stellar_base.Prelude.Lists.{rstrip}
use py_stellar_base.StrKey.{
  version_bytes, calculate_checksum, encode_payload, encode_check, encode_ed25519_public_key,
}
use py_stellar_base.Examples.{xmodem, key, server_key}
use py_stellar_base.Prelude.Int.{pos}
use py_stellar_base.Examples.{key_is_key, server_key_is_key}
use py_stellar_base.MuxedAccount.{MuxedAccount}
use py_stellar_base.MuxedAccount.RoundTrip as AccountLaws
use py_stellar_base.Asset.{Asset, credit_alphanum4, is_alphanumeric, guess_asset_type}
use py_stellar_base.Asset.Code.{IsWord}
use py_stellar_base.Asset.RoundTrip as AssetLaws
use py_stellar_base.Operation.Sources.{IsAddress}
use py_stellar_base.Decimal.{Decimal}
use py_stellar_base.Amount.{from_xdr_amount, check_amount}
use py_stellar_base.Amount.Rounding.{to_xdr_amount-from_xdr_amount}
use py_stellar_base.Prelude.{arith}

abbrev pub account : List ℕ
account =
    b'G' ∷ b'A' ∷ b'E' ∷ b'A' ∷ b'S' ∷ b'C' ∷ b'Q' ∷ b'L' ∷ b'B' ∷ b'Q' ∷ b'G' ∷ b'Q' ∷ b'4' ∷ b'D'
    ∷ b'Y' ∷ b'Q' ∷ b'C' ∷ b'E' ∷ b'J' ∷ b'B' ∷ b'G' ∷ b'F' ∷ b'A' ∷ b'V' ∷ b'C' ∷ b'Y' ∷ b'L'
    ∷ b'R' ∷ b'Q' ∷ b'G' ∷ b'I' ∷ b'2' ∷ b'D' ∷ b'M' ∷ b'O' ∷ b'B' ∷ b'2' ∷ b'H' ∷ b'Q' ∷ b'7'
    ∷ b'E' ∷ b'A' ∷ b'Q' ∷ b'S' ∷ b'E' ∷ b'I' ∷ b'Z' ∷ b'E' ∷ b'E' ∷ b'U' ∷ b'T' ∷ b'C' ∷ b'P'
    ∷ b'O' ∷ b'B' ∷ b'Q' ∷ []

abbrev pub server : List ℕ
server =
    b'G' ∷ b'B' ∷ b'S' ∷ b'G' ∷ b'K' ∷ b'Z' ∷ b'T' ∷ b'H' ∷ b'N' ∷ b'B' ∷ b'U' ∷ b'W' ∷ b'U' ∷ b'2'
    ∷ b'3' ∷ b'M' ∷ b'N' ∷ b'V' ∷ b'X' ∷ b'G' ∷ b'6' ∷ b'4' ∷ b'D' ∷ b'R' ∷ b'O' ∷ b'J' ∷ b'Z'
    ∷ b'X' ∷ b'I' ∷ b'5' ∷ b'L' ∷ b'W' ∷ b'O' ∷ b'5' ∷ b'4' ∷ b'H' ∷ b'S' ∷ b'6' ∷ b'T' ∷ b'3'
    ∷ b'P' ∷ b'R' ∷ b'6' ∷ b'X' ∷ b'4' ∷ b'7' ∷ b'4' ∷ b'A' ∷ b'Q' ∷ b'G' ∷ b'B' ∷ b'I' ∷ b'G'
    ∷ b'H' ∷ b'P' ∷ b'W' ∷ []

pub key_text : encode_ed25519_public_key xmodem key ≡ ok account
unfolding encode_ed25519_public_key encode_check encode_payload version_bytes calculate_checksum
    b32encode b32_body b32_padding b32_digit rstrip
key_text = refl

pub server_text : encode_ed25519_public_key xmodem server_key ≡ ok server
unfolding encode_ed25519_public_key encode_check encode_payload version_bytes calculate_checksum
    b32encode b32_body b32_padding b32_digit rstrip
server_text = refl

-- A client without an identifier, and the server's account with one.
abbrev pub client : MuxedAccount
client = record { account_id = account; account_id_id = none }

abbrev pub muxed_server : MuxedAccount
muxed_server = record { account_id = server; account_id_id = some (pos 5) }

pub client_valid : AccountLaws.IsValid xmodem client
client_valid = record { key = key; is_key = key_is_key; text = key_text; fits = tt }

pub muxed_server_valid : AccountLaws.IsValid xmodem muxed_server
muxed_server_valid = record {
  key = server_key;
  is_key = server_key_is_key;
  text = server_text;
  fits = omega arith;
}

abbrev pub account_is_address : IsAddress xmodem account
account_is_address = record { key = key; is_key = key_is_key; text = key_text }

abbrev pub server_is_address : IsAddress xmodem server
server_is_address = record { key = server_key; is_key = server_key_is_key; text = server_text }

abbrev pub usd : Asset
usd = record { code = b'U' ∷ b'S' ∷ b'D' ∷ []; issuer = some server; asset_type = credit_alphanum4 }

pub usd-IsWord : IsWord 0 (b'U' ∷ b'S' ∷ b'D' ∷ [])
unfolding is_alphanumeric
usd-IsWord = record {
  letters = (refl, (refl, (refl, tt)));
  least = omega arith;
  most = omega arith;
}

pub usd_valid : AssetLaws.IsValid xmodem usd
unfolding guess_asset_type
usd_valid = record {
  word = usd-IsWord;
  issued = (server_key, server_key_is_key, server_text);
  typed = refl;
}

-- 1234.5678901
abbrev pub some_amount : Decimal
some_amount = from_xdr_amount 12345678901

pub some_amount_accepted : check_amount some_amount ≡ ok tt
some_amount_accepted = (to_xdr_amount-from_xdr_amount 12345678901 (omega arith)).0
