-- ===== src/Operation/Dispatch/Stable.antt =====
-- An operation that was read back is sent again as it was.
use py_stellar_base.Prelude.{ℕ, Option, some, none, List, ◌≡◌, refl, sym, ◌∙◌, arith}
use py_stellar_base.Error.{ok, ◌>>=◌}
use py_stellar_base.StrKey.{Crc16}
use py_stellar_base.Decimal.{Decimal}
use py_stellar_base.Amount.{to_xdr_amount, check_amount, stroops}
use py_stellar_base.Amount.Exact.{to_xdr_amount-check_amount}
use py_stellar_base.Amount.Rounding.{to_xdr_amount-from_xdr_amount}
use py_stellar_base.Operation.Sources.{resent}
use py_stellar_base.Operation.CreateAccount
use py_stellar_base.Operation.Payment
use py_stellar_base.Operation.PathPaymentStrictReceive
use py_stellar_base.Operation.Offers.ManageSellOffer
use py_stellar_base.Operation.Offers.CreatePassiveSellOffer
use py_stellar_base.Operation.ChangeTrust
use py_stellar_base.Operation.ManageData
use py_stellar_base.Operation.Offers.ManageBuyOffer
use py_stellar_base.Operation.PathPaymentStrictSend
use py_stellar_base.Operation.Offers.{OfferPrice, IsPrice, fraction, price_fraction}
use py_stellar_base.Operation.Dispatch.{
  from_xdr_object, AnyOperation, create_account, payment, path_payment_strict_receive,
  manage_sell_offer, create_passive_sell_offer, set_options, change_trust, allow_trust,
  account_merge, inflation, manage_data, bump_sequence, manage_buy_offer, path_payment_strict_send,
  source_of, to_operation_body, to_xdr_object,
}
use py_stellar_base.Operation.Dispatch.Laws.{operation-from_xdr-to_xdr, IsValid, resend}

amount_again :
    (value : Decimal)
    → check_amount value ≡ ok tt
    → to_xdr_amount (resent value) ≡ to_xdr_amount value
amount_again value h =
    let (sent, bound) = to_xdr_amount-check_amount value h in
    let (_, again) =
      to_xdr_amount-from_xdr_amount (stroops value.coefficient value.exponent) (omega arith) in
    again ∙ sym sent

price_again :
    (price : OfferPrice) (p : IsPrice price)
    → price_fraction (fraction p.sent) ≡ price_fraction price
unfolding price_fraction
price_again price p = sym p.approximated

value_again :
    (value : Option (List ℕ)) → ManageData.data_value_bytes (ManageData.as_bytes value) ≡ ok value
unfolding ManageData.data_value_bytes
value_again none = refl
value_again (some b) = refl

body_again :
    (crc : Crc16) (op : AnyOperation) (v : IsValid crc op)
    → to_operation_body crc (resend crc op v) ≡ to_operation_body crc op
unfolding to_operation_body CreateAccount.to_operation_body Payment.to_operation_body
    PathPaymentStrictReceive.to_operation_body ManageSellOffer.to_operation_body
    CreatePassiveSellOffer.to_operation_body ChangeTrust.to_operation_body
    ManageData.to_operation_body ManageBuyOffer.to_operation_body
    PathPaymentStrictSend.to_operation_body
body_again crc (create_account op) v = rw (amount_again op.starting_balance v.starting_balance) refl
body_again crc (payment op) v = rw (amount_again op.amount v.amount) refl
body_again crc (path_payment_strict_receive op) v =
    rw (amount_again op.send_max v.send_max, amount_again op.dest_amount v.dest_amount) refl
body_again crc (manage_sell_offer op) v =
    rw (price_again op.price v.price, amount_again op.amount v.amount) refl
body_again crc (create_passive_sell_offer op) v =
    rw (price_again op.price v.price, amount_again op.amount v.amount) refl
body_again crc (set_options op) v = refl
body_again crc (change_trust op) v = rw (amount_again op.limit v.limit) refl
body_again crc (allow_trust op) v = refl
body_again crc (account_merge op) v = refl
body_again crc (inflation op) v = refl
body_again crc (manage_data op) v = rw (value_again v.1, v.2.value_encoded) refl
body_again crc (bump_sequence op) v = refl
body_again crc (manage_buy_offer op) v =
    rw (price_again op.price v.price, amount_again op.amount v.amount) refl
body_again crc (path_payment_strict_send op) v =
    rw (amount_again op.send_amount v.send_amount, amount_again op.dest_min v.dest_min) refl

source_again :
    (crc : Crc16) (op : AnyOperation) (v : IsValid crc op)
    → source_of (resend crc op v) ≡ source_of op
source_again crc (create_account op) v = refl
source_again crc (payment op) v = refl
source_again crc (path_payment_strict_receive op) v = refl
source_again crc (manage_sell_offer op) v = refl
source_again crc (create_passive_sell_offer op) v = refl
source_again crc (set_options op) v = refl
source_again crc (change_trust op) v = refl
source_again crc (allow_trust op) v = refl
source_again crc (account_merge op) v = refl
source_again crc (inflation op) v = refl
source_again crc (manage_data op) v = refl
source_again crc (bump_sequence op) v = refl
source_again crc (manage_buy_offer op) v = refl
source_again crc (path_payment_strict_send op) v = refl

pub to_xdr_object-resend :
    (crc : Crc16) (op : AnyOperation) (v : IsValid crc op)
    → to_xdr_object crc (resend crc op v) ≡ to_xdr_object crc op
unfolding to_xdr_object
to_xdr_object-resend crc op v = rw (source_again crc op v, body_again crc op v) refl

-- A valid operation of any class that is written to its XDR form, read back by `Operation.from_xdr_object` and
-- written again has the XDR form that it had.
pub operation-to_xdr-from_xdr-to_xdr :
    (crc : Crc16) (op : AnyOperation)
    → IsValid crc op
    → (to_xdr_object crc op >>= from_xdr_object crc >>= to_xdr_object crc) ≡ to_xdr_object crc op
operation-to_xdr-from_xdr-to_xdr crc op v =
    rw (operation-from_xdr-to_xdr crc op v) (to_xdr_object-resend crc op v)
