-- ===== src/FeeBump.antt =====
-- stellar_sdk/fee_bump_transaction.py and fee_bump_transaction_envelope.py.
pub mod Accepts
pub mod RoundTrip
use py_stellar_base.Prelude.{
  ℕ, suc, ◌+◌, ◌*◌, Bool, true, false, not, ◌||◌, none, List, [], ◌∷◌, ◌++◌, ◌==◌, length, ◌⊎◌, inl,
  inr,
}
use py_stellar_base.Prelude.Int.{ℤ, pos, negsuc, ltb_ℤ, sub_ℕ}
use py_stellar_base.Error.{Result, ok, err, value_error, zero_division, ◌>>=◌, ◌>>◌, require}
use py_stellar_base.Float.{true_divide, int_of, is_below, is_above}
use py_stellar_base.StrKey.{Crc16, XdrMuxedAccount}
use py_stellar_base.MuxedAccount
use py_stellar_base.MuxedAccount.{MuxedAccount, from_account}
use py_stellar_base.Keypair.{DecoratedSignature, public_key}
use py_stellar_base.Transaction.{Source, keypair, muxed, address, Transaction}
use py_stellar_base.Envelope
use py_stellar_base.Envelope.{
  BaseEnvelope, TransactionEnvelope, XdrTransactionEnvelope, base_envelope,
}

abbrev pub minimum_fee : ℕ
minimum_fee = 100

pub record FeeBumpTransaction : Type 0 where
  pub fee_source : MuxedAccount
  pub base_fee : ℤ
  pub inner_transaction_envelope : TransactionEnvelope

-- Xdr.types.FeeBumpTransaction
pub record XdrFeeBumpTransaction : Type 0 where
  pub fee_source : XdrMuxedAccount
  pub fee : ℤ
  pub inner_tx : XdrTransactionEnvelope

-- A product with a length
unfoldable pub times : ℤ → ℕ → ℤ
times (pos a) n = pos (a * n)
times (negsuc a) n = sub_ℕ 0 (suc a * n)

-- `int(fee / n)`, of a quotient that is a float
unfoldable pub quotient : ℤ → ℕ → ℤ
quotient (pos a) n = pos (int_of (true_divide a n))
quotient (negsuc a) n = sub_ℕ 0 (int_of (true_divide (suc a) n))

-- `base_fee < fee / n`, of a quotient that is a float
unfoldable pub below_quotient : ℤ → ℤ → ℕ → Bool
below_quotient (pos b) (pos a) n = is_below b (true_divide a n)
below_quotient (pos b) (negsuc a) n = false
below_quotient (negsuc b) (pos a) n = true
below_quotient (negsuc b) (negsuc a) n = is_above (suc b) (true_divide (suc a) n)

-- `self.base_fee < fee / operations or self.base_fee < BASE_FEE`
unfoldable pub too_low : ℤ → ℤ → ℕ → Bool
unfolding below_quotient
too_low base_fee inner_fee operations =
    below_quotient base_fee inner_fee operations || ltb_ℤ base_fee (pos minimum_fee)

module _ (crc : Crc16) where
  unfoldable pub parse_fee_source : Source → Result MuxedAccount
  parse_fee_source (address s) = from_account crc s
  parse_fee_source (keypair kp) = do account_id ← public_key crc kp; from_account crc account_id
  parse_fee_source (muxed m) = ok m

  -- `FeeBumpTransaction.__init__`; the quotient by no operations raises.
  unfoldable pub fee_bump_transaction : Source → ℤ → TransactionEnvelope → Result FeeBumpTransaction
  unfolding parse_fee_source too_low
  fee_bump_transaction fee_source base_fee envelope = do
    require envelope.transaction.v1 value_error
    source ← parse_fee_source fee_source
    let operations = length envelope.transaction.operations
    require (not (operations == 0)) zero_division
    require (not (too_low base_fee envelope.transaction.fee operations)) value_error
    ok (record { fee_source = source; base_fee = base_fee; inner_transaction_envelope = envelope })

  unfoldable pub to_xdr_object : FeeBumpTransaction → Result XdrFeeBumpTransaction
  unfolding times
  to_xdr_object tx = do
    fee_source ← MuxedAccount.to_xdr_object crc tx.fee_source
    let operations = length tx.inner_transaction_envelope.transaction.operations
    inner_tx ← Envelope.to_xdr_object crc tx.inner_transaction_envelope
    ok (record {
      fee_source = fee_source;
      fee = times tx.base_fee (operations + 1);
      inner_tx = inner_tx;
    })

  module _ (sha256 : List ℕ → List ℕ) where
    unfoldable pub from_xdr_object : XdrFeeBumpTransaction → List ℕ → Result FeeBumpTransaction
    unfolding fee_bump_transaction quotient
    from_xdr_object x network_passphrase = do
      source ← MuxedAccount.from_xdr_object crc x.fee_source
      envelope ← Envelope.from_xdr_object crc sha256 x.inner_tx network_passphrase
      let operations = length envelope.transaction.operations
      fee_bump_transaction (muxed source) (quotient x.fee (operations + 1)) envelope

  -- `FeeBumpTransactionEnvelope.signature_base`: the network id, ENVELOPE_TYPE_TX_FEE_BUMP in four
  -- bytes, and the transaction. `pack` is `pack_FeeBumpTransaction` and then `get_buffer`.
  unfoldable pub signature_base :
      (XdrFeeBumpTransaction → Result (List ℕ)) → List ℕ → FeeBumpTransaction → Result (List ℕ)
  unfolding to_xdr_object
  signature_base pack network_id transaction = do
    x ← to_xdr_object transaction
    tx_buffer ← pack x
    ok (network_id ++ (0 ∷ (0 ∷ (0 ∷ (5 ∷ [])))) ++ tx_buffer)

abbrev pub FeeBumpTransactionEnvelope : Type 0
FeeBumpTransactionEnvelope = BaseEnvelope FeeBumpTransaction

-- Xdr.types.TransactionEnvelope of any type, and what unpacking may leave in it
pub data XdrEnvelope : Type 0 where
  envelope : XdrTransactionEnvelope → XdrEnvelope
  envelope_fee_bump : XdrFeeBumpTransaction → List DecoratedSignature → XdrEnvelope
  envelope_unknown : ℕ → XdrEnvelope

module _ (crc : Crc16) where
  unfoldable pub envelope_to_xdr : FeeBumpTransactionEnvelope → Result XdrEnvelope
  envelope_to_xdr te = do
    tx ← to_xdr_object crc te.transaction
    ok (envelope_fee_bump tx te.signatures)

  module _ (sha256 : List ℕ → List ℕ) where
    -- `FeeBumpTransactionEnvelope.from_xdr_object`
    unfoldable pub envelope_from_xdr : XdrEnvelope → List ℕ → Result FeeBumpTransactionEnvelope
    envelope_from_xdr (envelope_fee_bump x signatures) network_passphrase = do
      tx ← from_xdr_object crc sha256 x network_passphrase
      base_envelope sha256 tx network_passphrase signatures
    envelope_from_xdr (envelope x) network_passphrase = err value_error
    envelope_from_xdr (envelope_unknown type) network_passphrase = err value_error

    -- `parse_transaction_envelope_from_xdr` of stellar_sdk/helpers.py, of an unpacked object
    unfoldable pub parse_transaction_envelope :
        XdrEnvelope → List ℕ → Result (TransactionEnvelope ⊎ FeeBumpTransactionEnvelope)
    unfolding envelope_from_xdr
    parse_transaction_envelope (envelope_fee_bump x signatures) network_passphrase = do
      te ← envelope_from_xdr (envelope_fee_bump x signatures) network_passphrase
      ok (inr te)
    parse_transaction_envelope (envelope x) network_passphrase = do
      te ← Envelope.from_xdr_object crc sha256 x network_passphrase
      ok (inl te)
    parse_transaction_envelope (envelope_unknown type) network_passphrase = err value_error
