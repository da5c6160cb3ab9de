-- ===== src/Operation/Payment.antt =====
-- stellar_sdk/operation/payment.py.
use py_stellar_base.Prelude.{ℕ, ◌≡◌, Option}
use py_stellar_base.Error.{Result, ok, ◌>>=◌, ◌>>◌}
use py_stellar_base.StrKey.{Crc16, XdrMuxedAccount}
use py_stellar_base.MuxedAccount
use py_stellar_base.MuxedAccount.{MuxedAccount}
use py_stellar_base.MuxedAccount.RoundTrip as AccountLaws
use py_stellar_base.Asset
use py_stellar_base.Asset.{Asset, XdrAsset}
use py_stellar_base.Asset.RoundTrip as AssetLaws
use py_stellar_base.Decimal.{Decimal}
use py_stellar_base.Amount.{to_xdr_amount, from_xdr_amount, check_amount}
use py_stellar_base.Operation.{
  Account, muxed, XdrOperation, parse_mux_account_from_account, parse_source, as_source,
  to_xdr_object, get_source_from_xdr_obj,
}
use py_stellar_base.Operation.Sources.{
  HasSource, source-ReadsBack, muxed-ReadsBack, asset-ReadsBack, parse_source-as_source,
  ready_amount, resent,
}

pub record Payment : Type 0 where
  pub source : Option MuxedAccount
  pub destination : MuxedAccount
  pub asset : Asset
  pub amount : Decimal

-- Xdr.types.PaymentOp
pub record PaymentOp : Type 0 where
  pub destination : XdrMuxedAccount
  pub asset : XdrAsset
  pub amount : ℕ

module _ (crc : Crc16) where
  -- `Payment.__init__`
  unfoldable pub payment : Account → Asset → Decimal → Option Account → Result Payment
  payment destination asset amount source = do
    s ← parse_source crc source
    check_amount amount
    d ← parse_mux_account_from_account crc destination
    ok (record { source = s; destination = d; asset = asset; amount = amount })

  unfoldable pub to_operation_body : Payment → Result PaymentOp
  to_operation_body op = do
    asset ← Asset.to_xdr_object crc op.asset
    destination ← MuxedAccount.to_xdr_object crc op.destination
    amount ← to_xdr_amount op.amount
    ok (record { destination = destination; asset = asset; amount = amount })

  unfoldable pub from_xdr_object : XdrOperation PaymentOp → Result Payment
  from_xdr_object x = do
    source ← get_source_from_xdr_obj crc x.source_account
    destination ← MuxedAccount.from_xdr_object crc x.body.destination
    asset ← Asset.from_xdr_object crc x.body.asset
    payment (muxed destination) asset (from_xdr_amount x.body.amount) (as_source source)

-- What the constructor and the network accept.
pub record IsValid (crc : Crc16) (op : Payment) : Type 0 where
  pub source : HasSource crc op.source
  pub destination : AccountLaws.IsValid crc op.destination
  pub asset : AssetLaws.IsValid crc op.asset
  pub amount : check_amount op.amount ≡ ok tt

-- A valid payment is read back from its XDR form, its amount as the Decimal that the units read as.
pub payment-from_xdr-to_xdr :
    (crc : Crc16) (op : Payment)
    → IsValid crc op
    → (to_xdr_object crc op.source (to_operation_body crc op) >>= from_xdr_object crc)
      ≡ ok (record op { amount = resent op.amount })
unfolding to_xdr_object to_operation_body from_xdr_object payment parse_mux_account_from_account
payment-from_xdr-to_xdr crc op v =
    let s = source-ReadsBack crc op.source v.source in
    let d = muxed-ReadsBack crc op.destination v.destination in
    let a = asset-ReadsBack crc op.asset v.asset in
    let (sent, accepted) = ready_amount op.amount v.amount in
    rw (
      s.written,
      a.written,
      d.written,
      sent,
      s.read,
      d.read,
      a.read,
      parse_source-as_source crc op.source,
      accepted,
    )
