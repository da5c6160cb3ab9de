-- ===== src/Operation/ManageData.antt =====
-- stellar_sdk/operation/manage_data.py.
use py_stellar_base.Prelude.{
  ℕ, ◌≡◌, refl, Bool, true, false, ◌&&◌, Option, none, some, List, leb, if◌then◌else◌, length, All,
}
use py_stellar_base.Error.{Result, ok, err, value_error, ◌>>=◌, ◌>>◌, require}
use py_stellar_base.StrKey.{Crc16}
use py_stellar_base.MuxedAccount.{MuxedAccount}
use py_stellar_base.Operation.{
  Account, XdrOperation, pack_xdr_array, unpack_xdr_array, parse_source, as_source, to_xdr_object,
  get_source_from_xdr_obj,
}
use py_stellar_base.Operation.Sources.{
  HasSource, source-ReadsBack, parse_source-as_source, unpack_xdr_array-pack_xdr_array,
}
use py_stellar_base.Memo.{Text, str, bytes}
use py_stellar_base.Text.{encode_utf8, decode_utf8}
use py_stellar_base.Text.Utf8.{IsCodePoint, decode_utf8-encode_utf8}

pub record ManageData : Type 0 where
  pub source : Option MuxedAccount
  pub data_name : List ℕ
  pub data_value : Option Text

-- Xdr.types.ManageDataOp
pub record ManageDataOp : Type 0 where
  pub data_name : List ℕ
  pub data_value : List (List ℕ)

-- `len` of a str or of bytes.
unfoldable pub text_length : Text → ℕ
text_length (str s) = length s
text_length (bytes b) = length b

unfoldable pub valid_data_val_len : Option Text → Bool
unfolding text_length
valid_data_val_len none = true
valid_data_val_len (some value) = leb (text_length value) 64

unfoldable pub data_value_bytes : Option Text → Result (Option (List ℕ))
data_value_bytes none = ok none
data_value_bytes (some (bytes b)) = ok (some b)
data_value_bytes (some (str s)) = do b ← encode_utf8 s; ok (some b)

abbrev pub as_bytes : Option (List ℕ) → Option Text
as_bytes none = none
as_bytes (some b) = some (bytes b)

module _ (crc : Crc16) where
  -- `ManageData.__init__`
  unfoldable pub manage_data : List ℕ → Option Text → Option Account → Result ManageData
  unfolding valid_data_val_len
  manage_data data_name data_value source = do
    s ← parse_source crc source
    require (leb (length data_name) 64 && valid_data_val_len data_value) value_error
    ok (record { source = s; data_name = data_name; data_value = data_value })

  unfoldable pub to_operation_body : ManageData → Result ManageDataOp
  unfolding data_value_bytes pack_xdr_array
  to_operation_body op = do
    data_name ← encode_utf8 op.data_name
    data_value ← data_value_bytes op.data_value
    ok (record { data_name = data_name; data_value = pack_xdr_array data_value })

  unfoldable pub from_xdr_object : XdrOperation ManageDataOp → Result ManageData
  unfolding unpack_xdr_array
  from_xdr_object x = do
    source ← get_source_from_xdr_obj crc x.source_account
    data_name ← decode_utf8 x.body.data_name
    manage_data data_name (as_bytes (unpack_xdr_array x.body.data_value)) (as_source source)

-- What the constructor accepts, with a name and a value that have an encoding.
pub record IsValid (crc : Crc16) (op : ManageData) (name : List ℕ) (value : Option (List ℕ))
    : Type 0 where
  pub source : HasSource crc op.source
  pub points : All IsCodePoint op.data_name
  pub encoded : encode_utf8 op.data_name ≡ ok name
  pub short : leb (length op.data_name) 64 ≡ true
  pub value_encoded : data_value_bytes op.data_value ≡ ok value

-- An operation whose name has at most 64 characters is read back, with its value as bytes, exactly when the
-- bytes of the value are at most 64. The constructor counts the characters of a value that is a str.
pub manage_data-from_xdr-to_xdr :
    (crc : Crc16) (op : ManageData) (name : List ℕ) (value : Option (List ℕ))
    → IsValid crc op name value
    → (to_xdr_object crc op.source (to_operation_body crc op) >>= from_xdr_object crc) ≡ (
        if valid_data_val_len (as_bytes value)
        then ok (record op { data_value = as_bytes value })
        else err value_error)
unfolding to_xdr_object to_operation_body from_xdr_object manage_data
manage_data-from_xdr-to_xdr crc op name value v =
    let s = source-ReadsBack crc op.source v.source in
    rw
      (
        s.written,
        v.encoded,
        v.value_encoded,
        s.read,
        decode_utf8-encode_utf8 op.data_name name v.points v.encoded,
        unpack_xdr_array-pack_xdr_array value,
        parse_source-as_source crc op.source,
        v.short,
      )
      (accept (valid_data_val_len (as_bytes value)) _)
  where
    accept :
        (b : Bool) (op : ManageData)
        → (require b value_error >>= λ _. ok op) ≡ (if b then ok op else err value_error)
    accept true op = refl
    accept false op = refl
