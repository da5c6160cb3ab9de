-- ===== src/Operation/AccountMerge.antt =====
-- stellar_sdk/operation/account_merge.py.
use py_stellar_base.Prelude.{◌≡◌, Option}
use py_stellar_base.Error.{Result, ok, ◌>>=◌}
use py_stellar_base.StrKey.{Crc16, XdrMuxedAccount}
use py_stellar_base.MuxedAccount
use py_stellar_base.MuxedAccount.{MuxedAccount}
use py_stellar_base.MuxedAccount.RoundTrip as AccountLaws
use py_stellar_base.Operation.{
  Account, muxed, XdrOperation, parse_mux_account_from_account, parse_source, as_source,
  to_xdr_object, get_source_from_xdr_obj,
}
use py_stellar_base.Operation.Sources.{
  HasSource, source-ReadsBack, muxed-ReadsBack, parse_source-as_source,
}

pub record AccountMerge : Type 0 where
  pub source : Option MuxedAccount
  pub destination : MuxedAccount

module _ (crc : Crc16) where
  -- `AccountMerge.__init__`
  unfoldable pub account_merge : Account → Option Account → Result AccountMerge
  account_merge destination source = do
    s ← parse_source crc source
    d ← parse_mux_account_from_account crc destination
    ok (record { source = s; destination = d })

  unfoldable pub to_operation_body : AccountMerge → Result XdrMuxedAccount
  to_operation_body op = MuxedAccount.to_xdr_object crc op.destination

  unfoldable pub from_xdr_object : XdrOperation XdrMuxedAccount → Result AccountMerge
  from_xdr_object x = do
    source ← get_source_from_xdr_obj crc x.source_account
    destination ← MuxedAccount.from_xdr_object crc x.body
    account_merge (muxed destination) (as_source source)

-- An operation with valid accounts is read back from its XDR form.
pub account_merge-from_xdr-to_xdr :
    (crc : Crc16) (op : AccountMerge)
    → HasSource crc op.source
    → AccountLaws.IsValid crc op.destination
    → (to_xdr_object crc op.source (to_operation_body crc op) >>= from_xdr_object crc) ≡ ok op
unfolding to_xdr_object to_operation_body from_xdr_object account_merge
    parse_mux_account_from_account
account_merge-from_xdr-to_xdr crc op v w =
    let s = source-ReadsBack crc op.source v in
    let d = muxed-ReadsBack crc op.destination w in
    rw (s.written, d.written, s.read, d.read, parse_source-as_source crc op.source)
