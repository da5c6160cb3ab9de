-- ===== src/Examples/Prices.antt =====
-- The theorems on prices, offers and the union of all operations at concrete arguments.
use py_stellar_base.Prelude.{◌≡◌, ◌⊎◌, refl, some, false}
use py_stellar_base.Prelude.Int.{pos, negsuc, ◌+ℤ◌}
use py_stellar_base.Error.{ok, err, no_approximation, ◌>>=◌}
use py_stellar_base.Decimal.{Decimal, digits, digits_within, half_even, fix}
use py_stellar_base.Approximation.{
  Ratio, approximate, fraction, reciprocal, last_fraction, best_rational_approximation,
}
use py_stellar_base.Approximation.Lowest.{Reduced, best_rational_approximation-Reduced}
use py_stellar_base.Amount.{check_amount}
use py_stellar_base.Price.{Price, from_raw_price}
use py_stellar_base.Operation.Offers.{raw, check_price, price_fraction}
use py_stellar_base.Operation.Offers.ManageBuyOffer
use py_stellar_base.Operation.Offers.ManageBuyOffer.{
  ManageBuyOffer, manage_buy_offer-from_xdr-to_xdr,
}
use py_stellar_base.Operation.Dispatch
use py_stellar_base.Operation.Dispatch.{AnyOperation, manage_buy_offer}
use py_stellar_base.Operation.Dispatch.Laws.{resend, operation-from_xdr-to_xdr}
use py_stellar_base.Operation.Dispatch.Stable.{operation-to_xdr-from_xdr-to_xdr}
use py_stellar_base.Examples.{xmodem}
use py_stellar_base.Examples.Keys.{
  client, client_valid, usd, usd_valid, some_amount, some_amount_accepted,
}

-- 118.37
best_rational_approximation-Reduced_example :
    (best_rational_approximation 11837 (negsuc 1) ≡ err no_approximation)
    ⊎ ((r : Ratio) × (best_rational_approximation 11837 (negsuc 1) ≡ ok r) × Reduced r)
best_rational_approximation-Reduced_example = best_rational_approximation-Reduced 11837 (negsuc 1)

-- 1.25
abbrev price : Decimal
price = record { negative = false; coefficient = 125; exponent = negsuc 1 }

abbrev five_quarters : Price
five_quarters = record { n = pos 5; d = pos 4 }

price_checked : check_price (raw price) ≡ ok tt
unfolding check_price check_amount
price_checked = refl

raw_price : price_fraction (raw price) ≡ ok five_quarters
unfolding price_fraction from_raw_price best_rational_approximation approximate fraction reciprocal
    last_fraction fix digits digits_within half_even ◌+ℤ◌
raw_price = refl

abbrev pub op_manage_buy_offer : ManageBuyOffer
op_manage_buy_offer = record {
  source = some client;
  selling = usd;
  buying = usd;
  amount = some_amount;
  price = raw price;
  offer_id = pos 12;
}

pub op_manage_buy_offer_valid : ManageBuyOffer.IsValid xmodem op_manage_buy_offer
op_manage_buy_offer_valid = record {
  source = client_valid;
  selling = usd_valid;
  buying = usd_valid;
  amount = some_amount_accepted;
  price = record { checked = price_checked; sent = five_quarters; approximated = raw_price };
}

operation-from_xdr-to_xdr_example :
    (Dispatch.to_xdr_object xmodem (manage_buy_offer op_manage_buy_offer)
      >>= Dispatch.from_xdr_object xmodem)
    ≡ ok (resend xmodem (manage_buy_offer op_manage_buy_offer) op_manage_buy_offer_valid)
operation-from_xdr-to_xdr_example =
    operation-from_xdr-to_xdr xmodem (manage_buy_offer op_manage_buy_offer)
      op_manage_buy_offer_valid

operation-to_xdr-from_xdr-to_xdr_example :
    (Dispatch.to_xdr_object xmodem (manage_buy_offer op_manage_buy_offer)
      >>= Dispatch.from_xdr_object xmodem
      >>= Dispatch.to_xdr_object xmodem)
    ≡ Dispatch.to_xdr_object xmodem (manage_buy_offer op_manage_buy_offer)
operation-to_xdr-from_xdr-to_xdr_example =
    operation-to_xdr-from_xdr-to_xdr xmodem (manage_buy_offer op_manage_buy_offer)
      op_manage_buy_offer_valid
