-- ===== src/Operation/BumpSequence.antt =====
-- stellar_sdk/operation/bump_sequence.py.
use py_stellar_base.Prelude.{◌≡◌, Option}
use py_stellar_base.Prelude.Int.{ℤ}
use py_stellar_base.Error.{Result, ok, ◌>>=◌}
use py_stellar_base.StrKey.{Crc16}
use py_stellar_base.MuxedAccount.{MuxedAccount}
use py_stellar_base.Operation.{
  Account, XdrOperation, parse_source, as_source, to_xdr_object, get_source_from_xdr_obj,
}
use py_stellar_base.Operation.Sources.{HasSource, source-ReadsBack, parse_source-as_source}

pub record BumpSequence : Type 0 where
  pub source : Option MuxedAccount
  pub bump_to : ℤ

module _ (crc : Crc16) where
  -- `BumpSequence.__init__`
  unfoldable pub bump_sequence : ℤ → Option Account → Result BumpSequence
  bump_sequence bump_to source = do
    s ← parse_source crc source
    ok (record { source = s; bump_to = bump_to })

  unfoldable pub to_operation_body : BumpSequence → Result ℤ
  to_operation_body op = ok op.bump_to

  unfoldable pub from_xdr_object : XdrOperation ℤ → Result BumpSequence
  from_xdr_object x = do
    source ← get_source_from_xdr_obj crc x.source_account
    bump_sequence x.body (as_source source)

-- An operation with a valid source is read back from its XDR form.
pub bump_sequence-from_xdr-to_xdr :
    (crc : Crc16) (op : BumpSequence)
    → HasSource crc op.source
    → (to_xdr_object crc op.source (to_operation_body crc op) >>= from_xdr_object crc) ≡ ok op
unfolding to_xdr_object to_operation_body from_xdr_object bump_sequence
bump_sequence-from_xdr-to_xdr crc op v =
    let s = source-ReadsBack crc op.source v in
    rw (s.written, s.read, parse_source-as_source crc op.source)
