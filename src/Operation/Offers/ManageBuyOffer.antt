-- ===== src/Operation/Offers/ManageBuyOffer.antt =====
-- stellar_sdk/operation/manage_buy_offer.py.
use py_stellar_base.Prelude.{ℕ, ◌≡◌, Option}
use py_stellar_base.Prelude.Int.{ℤ}
use py_stellar_base.Error.{Result, ok, ◌>>=◌, ◌>>◌}
use py_stellar_base.StrKey.{Crc16}
use py_stellar_base.MuxedAccount.{MuxedAccount}
use py_stellar_base.Asset
use py_stellar_base.Asset.{Asset, XdrAsset}
use py_stellar_base.Asset.RoundTrip as AssetLaws
use py_stellar_base.Decimal.{Decimal}
use py_stellar_base.Amount.{to_xdr_amount, from_xdr_amount, check_amount}
use py_stellar_base.Price
use py_stellar_base.Price.{XdrPrice}
use py_stellar_base.Operation.{
  Account, XdrOperation, parse_source, as_source, to_xdr_object, get_source_from_xdr_obj,
}
use py_stellar_base.Operation.Sources.{
  HasSource, source-ReadsBack, asset-ReadsBack, parse_source-as_source, ready_amount, resent,
}
use py_stellar_base.Operation.Offers.{
  OfferPrice, fraction, check_price, price_fraction, IsPrice, price-ReadsBack,
}

pub record ManageBuyOffer : Type 0 where
  pub source : Option MuxedAccount
  pub selling : Asset
  pub buying : Asset
  pub amount : Decimal
  pub price : OfferPrice
  pub offer_id : ℤ

-- Xdr.types.ManageBuyOfferOp
pub record ManageBuyOfferOp : Type 0 where
  pub selling : XdrAsset
  pub buying : XdrAsset
  pub buy_amount : ℕ
  pub price : XdrPrice
  pub offer_id : ℤ

module _ (crc : Crc16) where
  -- `ManageBuyOffer.__init__`
  unfoldable pub manage_buy_offer :
      Asset → Asset → Decimal → OfferPrice → ℤ → Option Account → Result ManageBuyOffer
  manage_buy_offer selling buying amount price offer_id source = do
    s ← parse_source crc source
    check_amount amount
    check_price price
    ok (record {
      source = s;
      selling = selling;
      buying = buying;
      amount = amount;
      price = price;
      offer_id = offer_id;
    })

  unfoldable pub to_operation_body : ManageBuyOffer → Result ManageBuyOfferOp
  to_operation_body op = do
    selling ← Asset.to_xdr_object crc op.selling
    buying ← Asset.to_xdr_object crc op.buying
    price ← price_fraction op.price
    amount ← to_xdr_amount op.amount
    ok (record {
      selling = selling;
      buying = buying;
      buy_amount = amount;
      price = Price.to_xdr_object price;
      offer_id = op.offer_id;
    })

  unfoldable pub from_xdr_object : XdrOperation ManageBuyOfferOp → Result ManageBuyOffer
  from_xdr_object x = do
    source ← get_source_from_xdr_obj crc x.source_account
    selling ← Asset.from_xdr_object crc x.body.selling
    buying ← Asset.from_xdr_object crc x.body.buying
    manage_buy_offer selling buying (from_xdr_amount x.body.buy_amount)
        (fraction (Price.from_xdr_object x.body.price)) x.body.offer_id (as_source source)

-- What the constructor and the network accept.
pub record IsValid (crc : Crc16) (op : ManageBuyOffer) : Type 0 where
  pub source : HasSource crc op.source
  pub selling : AssetLaws.IsValid crc op.selling
  pub buying : AssetLaws.IsValid crc op.buying
  pub amount : check_amount op.amount ≡ ok tt
  pub price : IsPrice op.price

-- A valid offer to buy is read back from its XDR form, its price as the fraction that was sent and its
-- amount as the Decimal that the units read as.
pub manage_buy_offer-from_xdr-to_xdr :
    (crc : Crc16) (op : ManageBuyOffer) (v : IsValid crc op)
    → (to_xdr_object crc op.source (to_operation_body crc op) >>= from_xdr_object crc)
      ≡ ok (record op { amount = resent op.amount; price = fraction v.price.sent })
unfolding to_xdr_object to_operation_body from_xdr_object manage_buy_offer check_price
manage_buy_offer-from_xdr-to_xdr crc op v =
    let s = source-ReadsBack crc op.source v.source in
    let a = asset-ReadsBack crc op.selling v.selling in
    let b = asset-ReadsBack crc op.buying v.buying in
    let (sent, accepted) = ready_amount op.amount v.amount in
    rw (
      s.written,
      a.written,
      b.written,
      v.price.approximated,
      sent,
      s.read,
      a.read,
      b.read,
      parse_source-as_source crc op.source,
      accepted,
      price-ReadsBack v.price.sent,
    )
