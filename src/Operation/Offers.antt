-- ===== src/Operation/Offers.antt =====
-- What the three offer operations share: the price argument, check_price of
-- stellar_sdk/operation/utils.py, and the fraction that is sent.
pub mod ManageBuyOffer
pub mod ManageSellOffer
pub mod CreatePassiveSellOffer
use py_stellar_base.Prelude.{◌≡◌, refl}
use py_stellar_base.Error.{Result, ok, ◌>>=◌}
use py_stellar_base.Decimal.{Decimal}
use py_stellar_base.Amount.{check_amount}
use py_stellar_base.Price
use py_stellar_base.Price.{Price, XdrPrice, from_raw_price}
use py_stellar_base.Operation.Sources.{ReadsBack}

-- A Price, or the finite Decimal that a text or a Decimal reads as.
pub data OfferPrice : Type 0 where
  fraction : Price → OfferPrice
  raw : Decimal → OfferPrice

unfoldable pub check_price : OfferPrice → Result (Unit {0})
check_price (fraction p) = ok tt
check_price (raw price) = check_amount price

-- `price_fraction` of `_to_operation_body`. The constructors keep only prices that check_price takes, so that
-- a raw one is not negative.
unfoldable pub price_fraction : OfferPrice → Result Price
price_fraction (fraction p) = ok p
price_fraction (raw price) = from_raw_price price.coefficient price.exponent

-- A price that the constructors take, and that is sent as a fraction.
pub record IsPrice (price : OfferPrice) : Type 0 where
  pub checked : check_price price ≡ ok tt
  pub sent : Price
  pub approximated : price_fraction price ≡ ok sent

pub price-ReadsBack : (p : Price) → Price.from_xdr_object (Price.to_xdr_object p) ≡ p
unfolding Price.from_xdr_object Price.to_xdr_object
price-ReadsBack p = refl
