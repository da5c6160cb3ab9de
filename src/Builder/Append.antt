-- ===== src/Builder/Append.antt =====
-- The `append_*_op` methods of stellar_sdk/transaction_builder.py: an operation is made of the arguments,
-- and appended.
use py_stellar_base.Prelude.{ℕ, Option, none, some, List}
use py_stellar_base.Prelude.Int.{ℤ}
use py_stellar_base.Error.{Result, ok, ◌>>=◌}
use py_stellar_base.StrKey.{Crc16}
use py_stellar_base.Asset.{Asset, asset}
use py_stellar_base.Decimal.{Decimal}
use py_stellar_base.Memo.{Text, hex_to_bytes}
use py_stellar_base.Signer
use py_stellar_base.Signer.{Signer}
use py_stellar_base.Operation as Operation
use py_stellar_base.Operation.CreateAccount
use py_stellar_base.Operation.Payment
use py_stellar_base.Operation.PathPaymentStrictReceive
use py_stellar_base.Operation.PathPaymentStrictSend
use py_stellar_base.Operation.Offers.{OfferPrice}
use py_stellar_base.Operation.Offers.ManageSellOffer
use py_stellar_base.Operation.Offers.ManageBuyOffer
use py_stellar_base.Operation.Offers.CreatePassiveSellOffer
use py_stellar_base.Operation.SetOptions
use py_stellar_base.Operation.ChangeTrust
use py_stellar_base.Operation.AllowTrust
use py_stellar_base.Operation.AccountMerge
use py_stellar_base.Operation.Inflation
use py_stellar_base.Operation.ManageData
use py_stellar_base.Operation.BumpSequence
use py_stellar_base.Operation.Dispatch.{
  AnyOperation, create_account, payment, path_payment_strict_receive, path_payment_strict_send,
  manage_buy_offer, manage_sell_offer, create_passive_sell_offer, set_options, change_trust,
  allow_trust, account_merge, inflation, manage_data, bump_sequence,
}
use py_stellar_base.Builder.{TransactionBuilder, append_operation}

-- The optional arguments of SetOptions that the signer methods leave out.
abbrev pub only_signer : Signer → SetOptions.Options
only_signer signer = record {
  inflation_dest = none;
  clear_flags = none;
  set_flags = none;
  master_weight = none;
  low_threshold = none;
  med_threshold = none;
  high_threshold = none;
  home_domain = none;
  signer = some signer;
}

module _ (crc : Crc16) (b : TransactionBuilder) where
  -- What the methods share: the object is made, or the call raises before it is appended.
  unfoldable pub append_result :
      {A : Type 0} → (A → AnyOperation) → Result A → Result TransactionBuilder
  append_result wrap made = do op ← made; ok (append_operation b (wrap op))

  unfoldable pub append_create_account_op :
      List ℕ → Decimal → Option Operation.Account → Result TransactionBuilder
  unfolding append_result
  append_create_account_op destination starting_balance source =
      append_result create_account
        (CreateAccount.create_account crc destination starting_balance source)

  unfoldable pub append_change_trust_op :
      List ℕ
      → Option (List ℕ)
      → Option Decimal
      → Option Operation.Account
      → Result TransactionBuilder
  unfolding append_result
  append_change_trust_op asset_code asset_issuer limit source = do
    a ← asset crc asset_code asset_issuer
    append_result change_trust (ChangeTrust.change_trust crc a limit source)

  unfoldable pub append_payment_op :
      Operation.Account
      → Decimal
      → List ℕ
      → Option (List ℕ)
      → Option Operation.Account
      → Result TransactionBuilder
  unfolding append_result
  append_payment_op destination amount asset_code asset_issuer source = do
    a ← asset crc asset_code asset_issuer
    append_result payment (Payment.payment crc destination a amount source)

  -- `append_path_payment_op` is the same, for a subclass with no change but a warning.
  unfoldable pub append_path_payment_strict_receive_op :
      Operation.Account
      → List ℕ
      → Option (List ℕ)
      → Decimal
      → List ℕ
      → Option (List ℕ)
      → Decimal
      → List Asset
      → Option Operation.Account
      → Result TransactionBuilder
  unfolding append_result
  append_path_payment_strict_receive_op destination send_code send_issuer send_max dest_code
        dest_issuer dest_amount path source =
      do
        send_asset ← asset crc send_code send_issuer
        dest_asset ← asset crc dest_code dest_issuer
        append_result path_payment_strict_receive (
            PathPaymentStrictReceive.path_payment_strict_receive crc destination send_asset send_max
              dest_asset dest_amount path source)

  unfoldable pub append_path_payment_strict_send_op :
      Operation.Account
      → List ℕ
      → Option (List ℕ)
      → Decimal
      → List ℕ
      → Option (List ℕ)
      → Decimal
      → List Asset
      → Option Operation.Account
      → Result TransactionBuilder
  unfolding append_result
  append_path_payment_strict_send_op destination send_code send_issuer send_amount dest_code
        dest_issuer dest_min path source =
      do
        send_asset ← asset crc send_code send_issuer
        dest_asset ← asset crc dest_code dest_issuer
        append_result path_payment_strict_send (
            PathPaymentStrictSend.path_payment_strict_send crc destination send_asset send_amount
              dest_asset dest_min path source)

  unfoldable pub append_allow_trust_op :
      List ℕ → List ℕ → AllowTrust.Authorize → Option Operation.Account → Result TransactionBuilder
  unfolding append_result
  append_allow_trust_op trustor asset_code authorize source =
      append_result allow_trust (AllowTrust.allow_trust crc trustor asset_code authorize source)

  unfoldable pub append_set_options_op :
      SetOptions.Options → Option Operation.Account → Result TransactionBuilder
  unfolding append_result
  append_set_options_op options source =
      append_result set_options (SetOptions.set_options crc options source)

  unfoldable pub append_ed25519_public_key_signer :
      List ℕ → ℕ → Option Operation.Account → Result TransactionBuilder
  unfolding append_set_options_op
  append_ed25519_public_key_signer account_id weight source = do
    signer ← Signer.ed25519_public_key crc account_id weight
    append_set_options_op (only_signer signer) source

  unfoldable pub append_hashx_signer :
      Text → ℕ → Option Operation.Account → Result TransactionBuilder
  unfolding append_set_options_op
  append_hashx_signer sha256_hash weight source = do
    hash ← hex_to_bytes sha256_hash
    append_set_options_op (only_signer (Signer.sha256_hash hash weight)) source

  unfoldable pub append_pre_auth_tx_signer :
      Text → ℕ → Option Operation.Account → Result TransactionBuilder
  unfolding append_set_options_op
  append_pre_auth_tx_signer pre_auth_tx_hash weight source = do
    hash ← hex_to_bytes pre_auth_tx_hash
    append_set_options_op (only_signer (Signer.pre_auth_tx hash weight)) source

  unfoldable pub append_manage_buy_offer_op :
      List ℕ
      → Option (List ℕ)
      → List ℕ
      → Option (List ℕ)
      → Decimal
      → OfferPrice
      → ℤ
      → Option Operation.Account
      → Result TransactionBuilder
  unfolding append_result
  append_manage_buy_offer_op selling_code selling_issuer buying_code buying_issuer amount price
        offer_id source =
      do
        selling ← asset crc selling_code selling_issuer
        buying ← asset crc buying_code buying_issuer
        append_result manage_buy_offer
            (ManageBuyOffer.manage_buy_offer crc selling buying amount price offer_id source)

  unfoldable pub append_manage_sell_offer_op :
      List ℕ
      → Option (List ℕ)
      → List ℕ
      → Option (List ℕ)
      → Decimal
      → OfferPrice
      → ℤ
      → Option Operation.Account
      → Result TransactionBuilder
  unfolding append_result
  append_manage_sell_offer_op selling_code selling_issuer buying_code buying_issuer amount price
        offer_id source =
      do
        selling ← asset crc selling_code selling_issuer
        buying ← asset crc buying_code buying_issuer
        append_result manage_sell_offer
            (ManageSellOffer.manage_sell_offer crc selling buying amount price offer_id source)

  unfoldable pub append_create_passive_sell_offer_op :
      List ℕ
      → Option (List ℕ)
      → List ℕ
      → Option (List ℕ)
      → Decimal
      → OfferPrice
      → Option Operation.Account
      → Result TransactionBuilder
  unfolding append_result
  append_create_passive_sell_offer_op selling_code selling_issuer buying_code buying_issuer amount
        price source =
      do
        selling ← asset crc selling_code selling_issuer
        buying ← asset crc buying_code buying_issuer
        append_result create_passive_sell_offer (
            CreatePassiveSellOffer.create_passive_sell_offer crc selling buying amount price source)

  unfoldable pub append_account_merge_op :
      Operation.Account → Option Operation.Account → Result TransactionBuilder
  unfolding append_result
  append_account_merge_op destination source =
      append_result account_merge (AccountMerge.account_merge crc destination source)

  unfoldable pub append_inflation_op : Option Operation.Account → Result TransactionBuilder
  unfolding append_result
  append_inflation_op source = append_result inflation (Inflation.inflation crc source)

  unfoldable pub append_manage_data_op :
      List ℕ → Option Text → Option Operation.Account → Result TransactionBuilder
  unfolding append_result
  append_manage_data_op data_name data_value source =
      append_result manage_data (ManageData.manage_data crc data_name data_value source)

  unfoldable pub append_bump_sequence_op : ℤ → Option Operation.Account → Result TransactionBuilder
  unfolding append_result
  append_bump_sequence_op bump_to source =
      append_result bump_sequence (BumpSequence.bump_sequence crc bump_to source)
