-- ===== src/Operation/Dispatch.antt =====
-- `Operation.to_xdr_object` and `Operation.from_xdr_object` of stellar_sdk/operation/operation.py over
-- the fourteen subclasses.
pub mod Laws
pub mod Stable
use py_stellar_base.Prelude.{ℕ, Option, List}
use py_stellar_base.Prelude.Int.{ℤ}
use py_stellar_base.Error.{Result, ok, err, not_implemented, ◌>>=◌}
use py_stellar_base.StrKey.{Crc16, XdrMuxedAccount}
use py_stellar_base.MuxedAccount.{MuxedAccount}
use py_stellar_base.Operation
use py_stellar_base.Operation.{XdrOperation}
use py_stellar_base.Operation.CreateAccount
use py_stellar_base.Operation.Payment
use py_stellar_base.Operation.PathPaymentStrictReceive
use py_stellar_base.Operation.PathPaymentStrictSend
use py_stellar_base.Operation.Offers.ManageSellOffer
use py_stellar_base.Operation.Offers.ManageBuyOffer
use py_stellar_base.Operation.Offers.CreatePassiveSellOffer
use py_stellar_base.Operation.SetOptions
use py_stellar_base.Operation.ChangeTrust
use py_stellar_base.Operation.AllowTrust
use py_stellar_base.Operation.AccountMerge
use py_stellar_base.Operation.Inflation
use py_stellar_base.Operation.ManageData
use py_stellar_base.Operation.BumpSequence

-- An object of one of the subclasses.
pub data AnyOperation : Type 0 where
  create_account : CreateAccount.CreateAccount → AnyOperation
  payment : Payment.Payment → AnyOperation
  path_payment_strict_receive : PathPaymentStrictReceive.PathPaymentStrictReceive → AnyOperation
  manage_sell_offer : ManageSellOffer.ManageSellOffer → AnyOperation
  create_passive_sell_offer : CreatePassiveSellOffer.CreatePassiveSellOffer → AnyOperation
  set_options : SetOptions.SetOptions → AnyOperation
  change_trust : ChangeTrust.ChangeTrust → AnyOperation
  allow_trust : AllowTrust.AllowTrust → AnyOperation
  account_merge : AccountMerge.AccountMerge → AnyOperation
  inflation : Inflation.Inflation → AnyOperation
  manage_data : ManageData.ManageData → AnyOperation
  bump_sequence : BumpSequence.BumpSequence → AnyOperation
  manage_buy_offer : ManageBuyOffer.ManageBuyOffer → AnyOperation
  path_payment_strict_send : PathPaymentStrictSend.PathPaymentStrictSend → AnyOperation

-- The body of Xdr.types.Operation, a union by its type. The last constructor is a type of no subclass.
pub data Body : Type 0 where
  create_account_op : CreateAccount.CreateAccountOp → Body
  payment_op : Payment.PaymentOp → Body
  path_payment_strict_receive_op : PathPaymentStrictReceive.PathPaymentStrictReceiveOp → Body
  manage_sell_offer_op : ManageSellOffer.ManageSellOfferOp → Body
  create_passive_sell_offer_op : CreatePassiveSellOffer.CreatePassiveSellOfferOp → Body
  set_options_op : SetOptions.SetOptionsOp → Body
  change_trust_op : ChangeTrust.ChangeTrustOp → Body
  allow_trust_op : AllowTrust.AllowTrustOp → Body
  destination : XdrMuxedAccount → Body
  inflation_op : Body
  manage_data_op : ManageData.ManageDataOp → Body
  bump_sequence_op : ℤ → Body
  manage_buy_offer_op : ManageBuyOffer.ManageBuyOfferOp → Body
  path_payment_strict_send_op : PathPaymentStrictSend.PathPaymentStrictSendOp → Body
  unknown_op : ℕ → Body

abbrev pub source_of : AnyOperation → Option MuxedAccount
source_of (create_account op) = op.source
source_of (payment op) = op.source
source_of (path_payment_strict_receive op) = op.source
source_of (manage_sell_offer op) = op.source
source_of (create_passive_sell_offer op) = op.source
source_of (set_options op) = op.source
source_of (change_trust op) = op.source
source_of (allow_trust op) = op.source
source_of (account_merge op) = op.source
source_of (inflation op) = op.source
source_of (manage_data op) = op.source
source_of (bump_sequence op) = op.source
source_of (manage_buy_offer op) = op.source
source_of (path_payment_strict_send op) = op.source

module _ (crc : Crc16) where
  -- `_to_operation_body` of the object's class
  unfoldable pub to_operation_body : AnyOperation → Result Body
  to_operation_body (create_account op) =
      CreateAccount.to_operation_body crc op >>= λ b. ok (create_account_op b)
  to_operation_body (payment op) = Payment.to_operation_body crc op >>= λ b. ok (payment_op b)
  to_operation_body (path_payment_strict_receive op) =
      PathPaymentStrictReceive.to_operation_body crc op >>= λ b.
      ok (path_payment_strict_receive_op b)
  to_operation_body (manage_sell_offer op) =
      ManageSellOffer.to_operation_body crc op >>= λ b. ok (manage_sell_offer_op b)
  to_operation_body (create_passive_sell_offer op) =
      CreatePassiveSellOffer.to_operation_body crc op >>= λ b. ok (create_passive_sell_offer_op b)
  to_operation_body (set_options op) =
      SetOptions.to_operation_body crc op >>= λ b. ok (set_options_op b)
  to_operation_body (change_trust op) =
      ChangeTrust.to_operation_body crc op >>= λ b. ok (change_trust_op b)
  to_operation_body (allow_trust op) =
      AllowTrust.to_operation_body crc op >>= λ b. ok (allow_trust_op b)
  to_operation_body (account_merge op) =
      AccountMerge.to_operation_body crc op >>= λ b. ok (destination b)
  to_operation_body (inflation op) = Inflation.to_operation_body crc op >>= λ b. ok inflation_op
  to_operation_body (manage_data op) =
      ManageData.to_operation_body crc op >>= λ b. ok (manage_data_op b)
  to_operation_body (bump_sequence op) =
      BumpSequence.to_operation_body crc op >>= λ b. ok (bump_sequence_op b)
  to_operation_body (manage_buy_offer op) =
      ManageBuyOffer.to_operation_body crc op >>= λ b. ok (manage_buy_offer_op b)
  to_operation_body (path_payment_strict_send op) =
      PathPaymentStrictSend.to_operation_body crc op >>= λ b. ok (path_payment_strict_send_op b)

  unfoldable pub to_xdr_object : AnyOperation → Result (XdrOperation Body)
  unfolding to_operation_body
  to_xdr_object op = Operation.to_xdr_object crc (source_of op) (to_operation_body op)

  -- The loop over `__subclasses__`, with the class's `from_xdr_object`
  unfoldable pub from_body : List XdrMuxedAccount → Body → Result AnyOperation
  from_body source_account (create_account_op b) =
      CreateAccount.from_xdr_object crc (record { source_account = source_account; body = b })
      >>= λ op. ok (create_account op)
  from_body source_account (payment_op b) =
      Payment.from_xdr_object crc (record { source_account = source_account; body = b }) >>= λ op.
      ok (payment op)
  from_body source_account (path_payment_strict_receive_op b) =
      PathPaymentStrictReceive.from_xdr_object crc
        (record { source_account = source_account; body = b })
      >>= λ op. ok (path_payment_strict_receive op)
  from_body source_account (manage_sell_offer_op b) =
      ManageSellOffer.from_xdr_object crc (record { source_account = source_account; body = b })
      >>= λ op. ok (manage_sell_offer op)
  from_body source_account (create_passive_sell_offer_op b) =
      CreatePassiveSellOffer.from_xdr_object crc
        (record { source_account = source_account; body = b })
      >>= λ op. ok (create_passive_sell_offer op)
  from_body source_account (set_options_op b) =
      SetOptions.from_xdr_object crc (record { source_account = source_account; body = b })
      >>= λ op. ok (set_options op)
  from_body source_account (change_trust_op b) =
      ChangeTrust.from_xdr_object crc (record { source_account = source_account; body = b })
      >>= λ op. ok (change_trust op)
  from_body source_account (allow_trust_op b) =
      AllowTrust.from_xdr_object crc (record { source_account = source_account; body = b })
      >>= λ op. ok (allow_trust op)
  from_body source_account (destination b) =
      AccountMerge.from_xdr_object crc (record { source_account = source_account; body = b })
      >>= λ op. ok (account_merge op)
  from_body source_account inflation_op =
      Inflation.from_xdr_object crc (record { source_account = source_account; body = tt })
      >>= λ op. ok (inflation op)
  from_body source_account (manage_data_op b) =
      ManageData.from_xdr_object crc (record { source_account = source_account; body = b })
      >>= λ op. ok (manage_data op)
  from_body source_account (bump_sequence_op b) =
      BumpSequence.from_xdr_object crc (record { source_account = source_account; body = b })
      >>= λ op. ok (bump_sequence op)
  from_body source_account (manage_buy_offer_op b) =
      ManageBuyOffer.from_xdr_object crc (record { source_account = source_account; body = b })
      >>= λ op. ok (manage_buy_offer op)
  from_body source_account (path_payment_strict_send_op b) =
      PathPaymentStrictSend.from_xdr_object crc
        (record { source_account = source_account; body = b })
      >>= λ op. ok (path_payment_strict_send op)
  from_body source_account (unknown_op type) = err not_implemented

  unfoldable pub from_xdr_object : XdrOperation Body → Result AnyOperation
  unfolding from_body
  from_xdr_object x = from_body x.source_account x.body
