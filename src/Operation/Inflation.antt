-- ===== src/Operation/Inflation.antt =====
-- stellar_sdk/operation/inflation.py.
use py_stellar_base.Prelude.{◌≡◌, Option}
use py_stellar_base.Error.{Result, ok, ◌>>=◌}
use py_stellar_base.StrKey.{Crc16}
use py_stellar_base.MuxedAccount.{MuxedAccount}
use py_stellar_base.Operation.{
  Account, XdrOperation, parse_source, as_source, to_xdr_object, get_source_from_xdr_obj,
}
use py_stellar_base.Operation.Sources.{HasSource, source-ReadsBack, parse_source-as_source}

pub record Inflation : Type 0 where
  pub source : Option MuxedAccount

module _ (crc : Crc16) where
  -- `Inflation.__init__`
  unfoldable pub inflation : Option Account → Result Inflation
  inflation source = do s ← parse_source crc source; ok (record { source = s })

  -- A body of its type alone.
  unfoldable pub to_operation_body : Inflation → Result (Unit {0})
  to_operation_body op = ok tt

  unfoldable pub from_xdr_object : XdrOperation (Unit {0}) → Result Inflation
  from_xdr_object x = do
    source ← get_source_from_xdr_obj crc x.source_account
    inflation (as_source source)

-- An operation with a valid source is read back from its XDR form.
pub inflation-from_xdr-to_xdr :
    (crc : Crc16) (op : Inflation)
    → HasSource crc op.source
    → (to_xdr_object crc op.source (to_operation_body crc op) >>= from_xdr_object crc) ≡ ok op
unfolding to_xdr_object to_operation_body from_xdr_object inflation
inflation-from_xdr-to_xdr crc op v =
    let s = source-ReadsBack crc op.source v in
    rw (s.written, s.read, parse_source-as_source crc op.source)
