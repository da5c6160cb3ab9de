-- ===== src/Operation/ChangeTrust.antt =====
-- stellar_sdk/operation/change_trust.py.
use py_stellar_base.Prelude.{ℕ, ◌≡◌, false, Option, none, some}
use py_stellar_base.Prelude.Int.{negsuc}
use py_stellar_base.Error.{Result, ok, ◌>>=◌, ◌>>◌}
use py_stellar_base.StrKey.{Crc16}
use py_stellar_base.MuxedAccount.{MuxedAccount}
use py_stellar_base.Asset
use py_stellar_base.Asset.{Asset, XdrAsset}
use py_stellar_base.Asset.RoundTrip as AssetLaws
use py_stellar_base.Decimal.{Decimal}
use py_stellar_base.Amount.{to_xdr_amount, from_xdr_amount, check_amount}
use py_stellar_base.Operation.{
  Account, XdrOperation, parse_source, as_source, to_xdr_object, get_source_from_xdr_obj,
}
use py_stellar_base.Operation.Sources.{
  HasSource, source-ReadsBack, asset-ReadsBack, parse_source-as_source, ready_amount, resent,
}

pub record ChangeTrust : Type 0 where
  pub source : Option MuxedAccount
  pub asset : Asset
  pub limit : Decimal

-- Xdr.types.ChangeTrustOp
pub record ChangeTrustOp : Type 0 where
  pub line : XdrAsset
  pub limit : ℕ

-- `_DEFAULT_LIMIT`: 922337203685.4775807
abbrev pub default_limit : Decimal
default_limit = record { negative = false; coefficient = 9223372036854775807; exponent = negsuc 6 }

unfoldable pub limit_of : Option Decimal → Result Decimal
limit_of none = ok default_limit
limit_of (some limit) = do check_amount limit; ok limit

module _ (crc : Crc16) where
  -- `ChangeTrust.__init__`
  unfoldable pub change_trust : Asset → Option Decimal → Option Account → Result ChangeTrust
  unfolding limit_of
  change_trust asset limit source = do
    s ← parse_source crc source
    l ← limit_of limit
    ok (record { source = s; asset = asset; limit = l })

  unfoldable pub to_operation_body : ChangeTrust → Result ChangeTrustOp
  to_operation_body op = do
    line ← Asset.to_xdr_object crc op.asset
    limit ← to_xdr_amount op.limit
    ok (record { line = line; limit = limit })

  unfoldable pub from_xdr_object : XdrOperation ChangeTrustOp → Result ChangeTrust
  from_xdr_object x = do
    source ← get_source_from_xdr_obj crc x.source_account
    line ← Asset.from_xdr_object crc x.body.line
    change_trust line (some (from_xdr_amount x.body.limit)) (as_source source)

-- What the constructor and the network accept.
pub record IsValid (crc : Crc16) (op : ChangeTrust) : Type 0 where
  pub source : HasSource crc op.source
  pub asset : AssetLaws.IsValid crc op.asset
  pub limit : check_amount op.limit ≡ ok tt

-- A valid operation is read back from its XDR form, its limit as the Decimal that the units read as.
pub change_trust-from_xdr-to_xdr :
    (crc : Crc16) (op : ChangeTrust)
    → IsValid crc op
    → (to_xdr_object crc op.source (to_operation_body crc op) >>= from_xdr_object crc)
      ≡ ok (record op { limit = resent op.limit })
unfolding to_xdr_object to_operation_body from_xdr_object change_trust
change_trust-from_xdr-to_xdr crc op v =
    let s = source-ReadsBack crc op.source v.source in
    let a = asset-ReadsBack crc op.asset v.asset in
    let (sent, accepted) = ready_amount op.limit v.limit in
    rw (s.written, a.written, sent, s.read, a.read, parse_source-as_source crc op.source, accepted)
