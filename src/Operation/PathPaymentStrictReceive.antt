-- ===== src/Operation/PathPaymentStrictReceive.antt =====
-- stellar_sdk/operation/path_payment_strict_receive.py.
use py_stellar_base.Prelude.{ℕ, ◌≡◌, Option, List, All}
use py_stellar_base.Error.{Result, ok, ◌>>=◌, ◌>>◌}
use py_stellar_base.StrKey.{Crc16, XdrMuxedAccount}
use py_stellar_base.MuxedAccount
use py_stellar_base.MuxedAccount.{MuxedAccount}
use py_stellar_base.MuxedAccount.RoundTrip as AccountLaws
use py_stellar_base.Asset
use py_stellar_base.Asset.{Asset, XdrAsset}
use py_stellar_base.Asset.RoundTrip as AssetLaws
use py_stellar_base.Decimal.{Decimal}
use py_stellar_base.Amount.{to_xdr_amount, from_xdr_amount, check_amount}
use py_stellar_base.Operation.{
  Account, muxed, XdrOperation, map_result, parse_mux_account_from_account, parse_source, as_source,
  to_xdr_object, get_source_from_xdr_obj,
}
use py_stellar_base.Operation.Sources.{
  HasSource, source-ReadsBack, muxed-ReadsBack, asset-ReadsBack, path-ReadsBack,
  parse_source-as_source, ready_amount, resent,
}

pub record PathPaymentStrictReceive : Type 0 where
  pub source : Option MuxedAccount
  pub destination : MuxedAccount
  pub send_asset : Asset
  pub send_max : Decimal
  pub dest_asset : Asset
  pub dest_amount : Decimal
  pub path : List Asset

-- Xdr.types.PathPaymentStrictReceiveOp
pub record PathPaymentStrictReceiveOp : Type 0 where
  pub send_asset : XdrAsset
  pub send_max : ℕ
  pub destination : XdrMuxedAccount
  pub dest_asset : XdrAsset
  pub dest_amount : ℕ
  pub path : List XdrAsset

module _ (crc : Crc16) where
  -- `PathPaymentStrictReceive.__init__`
  unfoldable pub path_payment_strict_receive :
      Account
      → Asset
      → Decimal
      → Asset
      → Decimal
      → List Asset
      → Option Account
      → Result PathPaymentStrictReceive
  path_payment_strict_receive destination send_asset send_max dest_asset dest_amount path source =
      do
        s ← parse_source crc source
        check_amount send_max
        check_amount dest_amount
        d ← parse_mux_account_from_account crc destination
        ok (record {
          source = s;
          destination = d;
          send_asset = send_asset;
          send_max = send_max;
          dest_asset = dest_asset;
          dest_amount = dest_amount;
          path = path;
        })

  unfoldable pub to_operation_body : PathPaymentStrictReceive → Result PathPaymentStrictReceiveOp
  to_operation_body op = do
    destination ← MuxedAccount.to_xdr_object crc op.destination
    send_asset ← Asset.to_xdr_object crc op.send_asset
    dest_asset ← Asset.to_xdr_object crc op.dest_asset
    path ← map_result (Asset.to_xdr_object crc) op.path
    send_max ← to_xdr_amount op.send_max
    dest_amount ← to_xdr_amount op.dest_amount
    ok (record {
      send_asset = send_asset;
      send_max = send_max;
      destination = destination;
      dest_asset = dest_asset;
      dest_amount = dest_amount;
      path = path;
    })

  unfoldable pub from_xdr_object :
      XdrOperation PathPaymentStrictReceiveOp → Result PathPaymentStrictReceive
  from_xdr_object x = do
    source ← get_source_from_xdr_obj crc x.source_account
    destination ← MuxedAccount.from_xdr_object crc x.body.destination
    send_asset ← Asset.from_xdr_object crc x.body.send_asset
    dest_asset ← Asset.from_xdr_object crc x.body.dest_asset
    path ← map_result (Asset.from_xdr_object crc) x.body.path
    path_payment_strict_receive (muxed destination) send_asset (from_xdr_amount x.body.send_max)
        dest_asset (from_xdr_amount x.body.dest_amount) path (as_source source)

-- What the constructor and the network accept.
pub record IsValid (crc : Crc16) (op : PathPaymentStrictReceive) : Type 0 where
  pub source : HasSource crc op.source
  pub destination : AccountLaws.IsValid crc op.destination
  pub send_asset : AssetLaws.IsValid crc op.send_asset
  pub dest_asset : AssetLaws.IsValid crc op.dest_asset
  pub path : All (AssetLaws.IsValid crc) op.path
  pub send_max : check_amount op.send_max ≡ ok tt
  pub dest_amount : check_amount op.dest_amount ≡ ok tt

-- A valid path payment is read back from its XDR form with its whole path, and its two amounts as the
-- Decimals that their units read as.
pub path_payment_strict_receive-from_xdr-to_xdr :
    (crc : Crc16) (op : PathPaymentStrictReceive)
    → IsValid crc op
    → (to_xdr_object crc op.source (to_operation_body crc op) >>= from_xdr_object crc)
      ≡ ok (record op { send_max = resent op.send_max; dest_amount = resent op.dest_amount })
unfolding to_xdr_object to_operation_body from_xdr_object path_payment_strict_receive
    parse_mux_account_from_account
path_payment_strict_receive-from_xdr-to_xdr crc op v =
    let s = source-ReadsBack crc op.source v.source in
    let d = muxed-ReadsBack crc op.destination v.destination in
    let a = asset-ReadsBack crc op.send_asset v.send_asset in
    let b = asset-ReadsBack crc op.dest_asset v.dest_asset in
    let p = path-ReadsBack crc op.path v.path in
    let (sent1, accepted1) = ready_amount op.send_max v.send_max in
    let (sent2, accepted2) = ready_amount op.dest_amount v.dest_amount in
    rw (
      s.written,
      d.written,
      a.written,
      b.written,
      p.written,
      sent1,
      sent2,
      s.read,
      d.read,
      a.read,
      b.read,
      p.read,
      parse_source-as_source crc op.source,
      accepted1,
      accepted2,
    )
