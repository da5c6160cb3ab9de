-- ===== src/Examples/Settings.antt =====
-- The theorems on operations that change settings of an account, at concrete arguments.
use py_stellar_base.Prelude.{◌≡◌, refl, arith, some, [], ◌∷◌, if◌then◌else◌}
use py_stellar_base.Error.{ok, err, value_error, ◌>>=◌}
use py_stellar_base.Memo.{str}
use py_stellar_base.Text.{encode_utf8, encode_char}
use py_stellar_base.Operation.{to_xdr_object}
use py_stellar_base.Examples.{xmodem}
use py_stellar_base.Examples.Keys.{client, client_valid}
use py_stellar_base.Operation.ManageData
use py_stellar_base.Operation.ManageData.{ManageData, manage_data-from_xdr-to_xdr}
use py_stellar_base.Operation.ManageData.{as_bytes, data_value_bytes, valid_data_val_len}

abbrev op_manage_data : ManageData
op_manage_data = record {
  source = some client;
  data_name = b'a' ∷ [];
  data_value = some (str (0xe9 ∷ []));
}

-- One character, written as two bytes.
op_manage_data_valid :
    ManageData.IsValid xmodem op_manage_data (b'a' ∷ []) (some (0xc3 ∷ 0xa9 ∷ []))
unfolding encode_utf8 encode_char data_value_bytes
op_manage_data_valid = record {
  source = client_valid;
  points = (omega arith, tt);
  encoded = refl;
  short = refl;
  value_encoded = refl;
}

manage_data-from_xdr-to_xdr_example :
    (to_xdr_object xmodem op_manage_data.source (ManageData.to_operation_body xmodem op_manage_data)
      >>= ManageData.from_xdr_object xmodem)
    ≡ (if valid_data_val_len (as_bytes (some (0xc3 ∷ 0xa9 ∷ [])))
        then ok (record op_manage_data { data_value = as_bytes (some (0xc3 ∷ 0xa9 ∷ [])) })
        else err value_error)
manage_data-from_xdr-to_xdr_example =
    manage_data-from_xdr-to_xdr xmodem op_manage_data (b'a' ∷ []) (some (0xc3 ∷ 0xa9 ∷ []))
      op_manage_data_valid
