-- ===== src/Operation/Dispatch/Laws.antt =====
-- Every valid operation is read back by the class that wrote it.
use py_stellar_base.Prelude.{◌∙◌, ℕ, Option, List, ◌≡◌, refl, true}
use py_stellar_base.Error.{Result, ok, err, ◌>>=◌}
use py_stellar_base.StrKey.{Crc16, XdrMuxedAccount}
use py_stellar_base.MuxedAccount.{MuxedAccount}
use py_stellar_base.MuxedAccount.RoundTrip as AccountLaws
use py_stellar_base.Operation
use py_stellar_base.Operation.{XdrOperation, source_to_xdr}
use py_stellar_base.Operation.Sources.{HasSource, resent}
use py_stellar_base.Operation.CreateAccount
use py_stellar_base.Operation.Payment
use py_stellar_base.Operation.PathPaymentStrictReceive
use py_stellar_base.Operation.Offers.ManageSellOffer
use py_stellar_base.Operation.Offers.CreatePassiveSellOffer
use py_stellar_base.Operation.SetOptions
use py_stellar_base.Operation.ChangeTrust
use py_stellar_base.Operation.AllowTrust
use py_stellar_base.Operation.AccountMerge
use py_stellar_base.Operation.Inflation
use py_stellar_base.Operation.ManageData
use py_stellar_base.Operation.BumpSequence
use py_stellar_base.Operation.Offers.ManageBuyOffer
use py_stellar_base.Operation.PathPaymentStrictSend
use py_stellar_base.Operation.Offers.{fraction}
use py_stellar_base.Operation.Dispatch.{
  AnyOperation, create_account, payment, path_payment_strict_receive, manage_sell_offer,
  create_passive_sell_offer, set_options, change_trust, allow_trust, account_merge, inflation,
  manage_data, bump_sequence, manage_buy_offer, path_payment_strict_send, Body, create_account_op,
  payment_op, path_payment_strict_receive_op, manage_sell_offer_op, create_passive_sell_offer_op,
  set_options_op, change_trust_op, allow_trust_op, destination, inflation_op, manage_data_op,
  bump_sequence_op, manage_buy_offer_op, path_payment_strict_send_op, to_operation_body,
  to_xdr_object, from_body, from_xdr_object,
}

-- What each class asks of its objects. A ManageData value is one whose bytes pass the check again.
abbrev pub IsValid : Crc16 → AnyOperation → Type 0
IsValid crc (create_account op) = CreateAccount.IsValid crc op
IsValid crc (payment op) = Payment.IsValid crc op
IsValid crc (path_payment_strict_receive op) = PathPaymentStrictReceive.IsValid crc op
IsValid crc (manage_sell_offer op) = ManageSellOffer.IsValid crc op
IsValid crc (create_passive_sell_offer op) = CreatePassiveSellOffer.IsValid crc op
IsValid crc (set_options op) = SetOptions.IsValid crc op
IsValid crc (change_trust op) = ChangeTrust.IsValid crc op
IsValid crc (allow_trust op) = AllowTrust.IsValid crc op
IsValid crc (account_merge op) = HasSource crc op.source × AccountLaws.IsValid crc op.destination
IsValid crc (inflation op) = HasSource crc op.source
IsValid crc (manage_data op) =
    (name : List ℕ) × (value : Option (List ℕ)) × ManageData.IsValid crc op name value
    × (ManageData.valid_data_val_len (ManageData.as_bytes value) ≡ true)
IsValid crc (bump_sequence op) = HasSource crc op.source
IsValid crc (manage_buy_offer op) = ManageBuyOffer.IsValid crc op
IsValid crc (path_payment_strict_send op) = PathPaymentStrictSend.IsValid crc op

-- The object that is read back: amounts as their units read, prices as fractions, values as bytes.
abbrev pub resend : (crc : Crc16) (op : AnyOperation) → IsValid crc op → AnyOperation
resend crc (create_account op) v =
    create_account (record op { starting_balance = resent op.starting_balance })
resend crc (payment op) v = payment (record op { amount = resent op.amount })
resend crc (path_payment_strict_receive op) v =
    path_payment_strict_receive
      (record op { send_max = resent op.send_max; dest_amount = resent op.dest_amount })
resend crc (manage_sell_offer op) v =
    manage_sell_offer (record op { amount = resent op.amount; price = fraction v.price.sent })
resend crc (create_passive_sell_offer op) v =
    create_passive_sell_offer
      (record op { amount = resent op.amount; price = fraction v.price.sent })
resend crc (set_options op) v = set_options op
resend crc (change_trust op) v = change_trust (record op { limit = resent op.limit })
resend crc (allow_trust op) v = allow_trust op
resend crc (account_merge op) v = account_merge op
resend crc (inflation op) v = inflation op
resend crc (manage_data op) v = manage_data (record op { data_value = ManageData.as_bytes v.1 })
resend crc (bump_sequence op) v = bump_sequence op
resend crc (manage_buy_offer op) v =
    manage_buy_offer (record op { amount = resent op.amount; price = fraction v.price.sent })
resend crc (path_payment_strict_send op) v =
    path_payment_strict_send
      (record op { send_amount = resent op.send_amount; dest_min = resent op.dest_min })

-- A class's own round trip is that of the union.
module _ {A B : Type 0} (crc : Crc16) (from : XdrOperation B → Result A) (tag : B → Body)
    (wrap : A → AnyOperation)
    (reads : (s : List XdrMuxedAccount) (b : B)
      → from_body crc s (tag b)
        ≡ (from (record { source_account = s; body = b }) >>= λ op. ok (wrap op))) where
  dispatched_parts :
      (s : Result (List XdrMuxedAccount)) (body : Result B) {a : A}
      → ((do x ← s; b ← body; ok (record { source_account = x; body = b })) >>= from) ≡ ok a
      → ((do x ← s; b ← (body >>= λ b. ok (tag b)); ok (record { source_account = x; body = b }))
          >>= from_xdr_object crc)
        ≡ ok (wrap a)
  unfolding from_xdr_object
  dispatched_parts (err e) body h = cc
  dispatched_parts (ok x) (err e) h = cc
  dispatched_parts (ok x) (ok b) h = rw (reads x b, h)

  dispatched :
      (source : Option MuxedAccount) (body : Result B) {a : A}
      → (Operation.to_xdr_object crc source body >>= from) ≡ ok a
      → (Operation.to_xdr_object crc source (body >>= λ b. ok (tag b)) >>= from_xdr_object crc)
        ≡ ok (wrap a)
  unfolding Operation.to_xdr_object
  dispatched source body h = dispatched_parts (source_to_xdr crc source) body h

-- A valid operation of any of the fourteen classes is read back from its XDR form by
-- `Operation.from_xdr_object` as an object of its own class: its amounts as the Decimals that their units
-- read as, its price as the fraction that was sent, its data value as bytes, and else unchanged. A home domain
-- that is given is not empty.
pub operation-from_xdr-to_xdr :
    (crc : Crc16) (op : AnyOperation) (v : IsValid crc op)
    → (to_xdr_object crc op >>= from_xdr_object crc) ≡ ok (resend crc op v)
unfolding to_xdr_object to_operation_body from_body
operation-from_xdr-to_xdr crc (create_account op) v =
    dispatched crc (CreateAccount.from_xdr_object crc) create_account_op create_account
      (λ s b. refl) op.source (CreateAccount.to_operation_body crc op)
      (CreateAccount.create_account-from_xdr-to_xdr crc op v)
operation-from_xdr-to_xdr crc (payment op) v =
    dispatched crc (Payment.from_xdr_object crc) payment_op payment (λ s b. refl) op.source
      (Payment.to_operation_body crc op) (Payment.payment-from_xdr-to_xdr crc op v)
operation-from_xdr-to_xdr crc (path_payment_strict_receive op) v =
    dispatched crc (PathPaymentStrictReceive.from_xdr_object crc) path_payment_strict_receive_op
      path_payment_strict_receive (λ s b. refl) op.source
      (PathPaymentStrictReceive.to_operation_body crc op)
      (PathPaymentStrictReceive.path_payment_strict_receive-from_xdr-to_xdr crc op v)
operation-from_xdr-to_xdr crc (manage_sell_offer op) v =
    dispatched crc (ManageSellOffer.from_xdr_object crc) manage_sell_offer_op manage_sell_offer
      (λ s b. refl) op.source (ManageSellOffer.to_operation_body crc op)
      (ManageSellOffer.manage_sell_offer-from_xdr-to_xdr crc op v)
operation-from_xdr-to_xdr crc (create_passive_sell_offer op) v =
    dispatched crc (CreatePassiveSellOffer.from_xdr_object crc) create_passive_sell_offer_op
      create_passive_sell_offer (λ s b. refl) op.source
      (CreatePassiveSellOffer.to_operation_body crc op)
      (CreatePassiveSellOffer.create_passive_sell_offer-from_xdr-to_xdr crc op v)
operation-from_xdr-to_xdr crc (set_options op) v =
    dispatched crc (SetOptions.from_xdr_object crc) set_options_op set_options (λ s b. refl)
      op.source (SetOptions.to_operation_body crc op)
      (SetOptions.set_options-from_xdr-to_xdr crc op v)
operation-from_xdr-to_xdr crc (change_trust op) v =
    dispatched crc (ChangeTrust.from_xdr_object crc) change_trust_op change_trust (λ s b. refl)
      op.source (ChangeTrust.to_operation_body crc op)
      (ChangeTrust.change_trust-from_xdr-to_xdr crc op v)
operation-from_xdr-to_xdr crc (allow_trust op) v =
    dispatched crc (AllowTrust.from_xdr_object crc) allow_trust_op allow_trust (λ s b. refl)
      op.source (AllowTrust.to_operation_body crc op)
      (AllowTrust.allow_trust-from_xdr-to_xdr crc op v)
operation-from_xdr-to_xdr crc (account_merge op) v =
    dispatched crc (AccountMerge.from_xdr_object crc) destination account_merge (λ s b. refl)
      op.source (AccountMerge.to_operation_body crc op)
      (AccountMerge.account_merge-from_xdr-to_xdr crc op v.0 v.1)
operation-from_xdr-to_xdr crc (inflation op) v =
    dispatched crc (Inflation.from_xdr_object crc) (λ b. inflation_op) inflation (λ s b. refl)
      op.source (Inflation.to_operation_body crc op) (Inflation.inflation-from_xdr-to_xdr crc op v)
operation-from_xdr-to_xdr crc (manage_data op) v =
    dispatched crc (ManageData.from_xdr_object crc) manage_data_op manage_data (λ s b. refl)
      op.source (ManageData.to_operation_body crc op)
      (ManageData.manage_data-from_xdr-to_xdr crc op v.0 v.1 v.2 ∙ rw v.3)
operation-from_xdr-to_xdr crc (bump_sequence op) v =
    dispatched crc (BumpSequence.from_xdr_object crc) bump_sequence_op bump_sequence (λ s b. refl)
      op.source (BumpSequence.to_operation_body crc op)
      (BumpSequence.bump_sequence-from_xdr-to_xdr crc op v)
operation-from_xdr-to_xdr crc (manage_buy_offer op) v =
    dispatched crc (ManageBuyOffer.from_xdr_object crc) manage_buy_offer_op manage_buy_offer
      (λ s b. refl) op.source (ManageBuyOffer.to_operation_body crc op)
      (ManageBuyOffer.manage_buy_offer-from_xdr-to_xdr crc op v)
operation-from_xdr-to_xdr crc (path_payment_strict_send op) v =
    dispatched crc (PathPaymentStrictSend.from_xdr_object crc) path_payment_strict_send_op
      path_payment_strict_send (λ s b. refl) op.source
      (PathPaymentStrictSend.to_operation_body crc op)
      (PathPaymentStrictSend.path_payment_strict_send-from_xdr-to_xdr crc op v)
