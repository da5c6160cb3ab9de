-- ===== src/Memo.antt =====
-- stellar_sdk/memo.py and utils.hex_to_bytes. The five classes are the constructors of `Memo`.
pub mod RoundTrip
use py_stellar_base.Prelude.{
  ℕ, ◌+◌, ◌-◌, ◌^◌, Bool, not, List, ltb, leb, ◌==◌, if◌then◌else◌, length,
}
use py_stellar_base.Prelude.Int.{ℤ, pos, negsuc, ltb_ℤ}
use py_stellar_base.Error.{Result, ok, err, memo_invalid, ◌>>=◌, ◌>>◌, require}
use py_stellar_base.Text.{encode_utf8, from_hex}

-- An argument that is a `str` or `bytes`.
pub data Text : Type 0 where
  str : List ℕ → Text
  bytes : List ℕ → Text

pub data Memo : Type 0 where
  none_memo : Memo
  text_memo : List ℕ → Memo
  id_memo : ℤ → Memo
  hash_memo : List ℕ → Memo
  return_hash_memo : List ℕ → Memo

-- Xdr.types.Memo, a union by its type. The last constructor is a type that memo.py does not know.
pub data XdrMemo : Type 0 where
  memo_none : XdrMemo
  memo_text : List ℕ → XdrMemo
  memo_id : ℤ → XdrMemo
  memo_hash : List ℕ → XdrMemo
  memo_return : List ℕ → XdrMemo
  memo_unknown : ℕ → XdrMemo

unfoldable pub hex_to_bytes : Text → Result (List ℕ)
hex_to_bytes (bytes b) = ok b
hex_to_bytes (str s) = from_hex s

unfoldable pub memo_bytes : Text → Result (List ℕ)
memo_bytes (bytes b) = ok b
memo_bytes (str s) = encode_utf8 s

-- `TextMemo.__init__`
unfoldable pub make_text_memo : Text → Result Memo
unfolding memo_bytes
make_text_memo text = do
  b ← memo_bytes text
  require (leb (length b) 28) memo_invalid
  ok (text_memo b)

-- `IdMemo.__init__`
unfoldable pub make_id_memo : ℤ → Result Memo
make_id_memo id = do
  require (not (ltb_ℤ id (pos 0))) memo_invalid
  require (not (ltb_ℤ (pos (2 ^ 64 - 1)) id)) memo_invalid
  ok (id_memo id)

-- `HashMemo.__init__`
unfoldable pub make_hash_memo : Text → Result Memo
unfolding hex_to_bytes
make_hash_memo hash = do
  b ← hex_to_bytes hash
  require (length b == 32) memo_invalid
  ok (hash_memo b)

-- `ReturnHashMemo.__init__`
unfoldable pub make_return_hash_memo : Text → Result Memo
unfolding hex_to_bytes
make_return_hash_memo hash = do
  b ← hex_to_bytes hash
  require (length b == 32) memo_invalid
  ok (return_hash_memo b)

unfoldable pub to_xdr_object : Memo → XdrMemo
to_xdr_object none_memo = memo_none
to_xdr_object (text_memo b) = memo_text b
to_xdr_object (id_memo n) = memo_id n
to_xdr_object (hash_memo b) = memo_hash b
to_xdr_object (return_hash_memo b) = memo_return b

-- An unknown type reads as no memo.
unfoldable pub from_xdr_object : XdrMemo → Result Memo
unfolding make_text_memo make_id_memo make_hash_memo make_return_hash_memo
from_xdr_object memo_none = ok none_memo
from_xdr_object (memo_text b) = make_text_memo (bytes b)
from_xdr_object (memo_id n) = make_id_memo n
from_xdr_object (memo_hash b) = make_hash_memo (bytes b)
from_xdr_object (memo_return b) = make_return_hash_memo (bytes b)
from_xdr_object (memo_unknown n) = ok none_memo
