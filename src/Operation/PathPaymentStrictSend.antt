-- ===== src/Operation/PathPaymentStrictSend.antt =====
-- stellar_sdk/operation/path_payment_strict_send.py.
use py_stellar_base.Prelude.{ℕ, ◌≡◌, Option, List, All}
use py_stellar_base.Error.{Result, ok, ◌>>=◌, ◌>>◌}
use py_stellar_base.StrKey.{Crc16, XdrMuxedAccount}
use py_stellar_base.MuxedAccount
use py_stellar_base.MuxedAccount.{MuxedAccount}
use py_stellar_base.MuxedAccount.RoundTrip as AccountLaws
use py_stellar_base.Asset
use py_stellar_base.Asset.{Asset, XdrAsset}
use py_stellar_base.Asset.RoundTrip as AssetLaws
use py_stellar_base.Decimal.{Decimal}
use py_stellar_base.Amount.{to_xdr_amount, from_xdr_amount, check_amount}
use py_stellar_base.Operation.{
  Account, muxed, XdrOperation, map_result, parse_mux_account_from_account, parse_source, as_source,
  to_xdr_object, get_source_from_xdr_obj,
}
use py_stellar_base.Operation.Sources.{
  HasSource, source-ReadsBack, muxed-ReadsBack, asset-ReadsBack, path-ReadsBack,
  parse_source-as_source, ready_amount, resent,
}

pub record PathPaymentStrictSend : Type 0 where
  pub source : Option MuxedAccount
  pub destination : MuxedAccount
  pub send_asset : Asset
  pub send_amount : Decimal
  pub dest_asset : Asset
  pub dest_min : Decimal
  pub path : List Asset

-- Xdr.types.PathPaymentStrictSendOp
pub record PathPaymentStrictSendOp : Type 0 where
  pub send_asset : XdrAsset
  pub send_amount : ℕ
  pub destination : XdrMuxedAccount
  pub dest_asset : XdrAsset
  pub dest_min : ℕ
  pub path : List XdrAsset

module _ (crc : Crc16) where
  -- `PathPaymentStrictSend.__init__`
  unfoldable pub path_payment_strict_send :
      Account
      → Asset
      → Decimal
      → Asset
      → Decimal
      → List Asset
      → Option Account
      → Result PathPaymentStrictSend
  path_payment_strict_send destination send_asset send_amount dest_asset dest_min path source = do
    s ← parse_source crc source
    check_amount send_amount
    check_amount dest_min
    d ← parse_mux_account_from_account crc destination
    ok (record {
      source = s;
      destination = d;
      send_asset = send_asset;
      send_amount = send_amount;
      dest_asset = dest_asset;
      dest_min = dest_min;
      path = path;
    })

  unfoldable pub to_operation_body : PathPaymentStrictSend → Result PathPaymentStrictSendOp
  to_operation_body op = do
    destination ← MuxedAccount.to_xdr_object crc op.destination
    send_asset ← Asset.to_xdr_object crc op.send_asset
    dest_asset ← Asset.to_xdr_object crc op.dest_asset
    path ← map_result (Asset.to_xdr_object crc) op.path
    send_amount ← to_xdr_amount op.send_amount
    dest_min ← to_xdr_amount op.dest_min
    ok (record {
      send_asset = send_asset;
      send_amount = send_amount;
      destination = destination;
      dest_asset = dest_asset;
      dest_min = dest_min;
      path = path;
    })

  unfoldable pub from_xdr_object :
      XdrOperation PathPaymentStrictSendOp → Result PathPaymentStrictSend
  from_xdr_object x = do
    source ← get_source_from_xdr_obj crc x.source_account
    destination ← MuxedAccount.from_xdr_object crc x.body.destination
    send_asset ← Asset.from_xdr_object crc x.body.send_asset
    dest_asset ← Asset.from_xdr_object crc x.body.dest_asset
    path ← map_result (Asset.from_xdr_object crc) x.body.path
    path_payment_strict_send (muxed destination) send_asset (from_xdr_amount x.body.send_amount)
        dest_asset (from_xdr_amount x.body.dest_min) path (as_source source)

-- What the constructor and the network accept.
pub record IsValid (crc : Crc16) (op : PathPaymentStrictSend) : Type 0 where
  pub source : HasSource crc op.source
  pub destination : AccountLaws.IsValid crc op.destination
  pub send_asset : AssetLaws.IsValid crc op.send_asset
  pub dest_asset : AssetLaws.IsValid crc op.dest_asset
  pub path : All (AssetLaws.IsValid crc) op.path
  pub send_amount : check_amount op.send_amount ≡ ok tt
  pub dest_min : check_amount op.dest_min ≡ ok tt

-- A valid path payment is read back from its XDR form with its whole path, and its two amounts as the
-- Decimals that their units read as.
pub path_payment_strict_send-from_xdr-to_xdr :
    (crc : Crc16) (op : PathPaymentStrictSend)
    → IsValid crc op
    → (to_xdr_object crc op.source (to_operation_body crc op) >>= from_xdr_object crc)
      ≡ ok (record op { send_amount = resent op.send_amount; dest_min = resent op.dest_min })
unfolding to_xdr_object to_operation_body from_xdr_object path_payment_strict_send
    parse_mux_account_from_account
path_payment_strict_send-from_xdr-to_xdr crc op v =
    let s = source-ReadsBack crc op.source v.source in
    let d = muxed-ReadsBack crc op.destination v.destination in
    let a = asset-ReadsBack crc op.send_asset v.send_asset in
    let b = asset-ReadsBack crc op.dest_asset v.dest_asset in
    let p = path-ReadsBack crc op.path v.path in
    let (sent1, accepted1) = ready_amount op.send_amount v.send_amount in
    let (sent2, accepted2) = ready_amount op.dest_min v.dest_min in
    rw (
      s.written,
      d.written,
      a.written,
      b.written,
      p.written,
      sent1,
      sent2,
      s.read,
      d.read,
      a.read,
      b.read,
      p.read,
      parse_source-as_source crc op.source,
      accepted1,
      accepted2,
    )
