-- ===== src/Envelope.antt =====
-- stellar_sdk/base_transaction_envelope.py, transaction_envelope.py and network.py. The SHA-256 of hashlib
-- and the serialisation of an Xdr.types.Transaction are parameters.
pub mod Signing
pub mod RoundTrip
use py_stellar_base.Prelude.{
  ℕ, Bool, true, false, not, ◌&&◌, ◌||◌, Option, none, some, List, [], ◌∷◌, ◌++◌, list_eq,
  take_last,
}
use py_stellar_base.Error.{
  Result, ok, err, attribute_error, value_error, signature_exist, ◌>>=◌, ◌>>◌, require,
}
use py_stellar_base.Text.{encode_utf8}
use py_stellar_base.StrKey.{Crc16, XdrMuxedAccount}
use py_stellar_base.Keypair.{Ed25519, Keypair, DecoratedSignature, from_secret, sign_decorated}
use py_stellar_base.Memo.{Text, str, bytes, hex_to_bytes}
use py_stellar_base.Transaction
use py_stellar_base.Transaction.{Transaction, XdrTransaction, XdrTx, tx_v0, tx_v1}

-- `BaseTransactionEnvelope`, with the transaction that its subclasses add: T is its class.
pub record BaseEnvelope (T : Type 0) : Type 0 where
  pub network_id : List ℕ
  pub signatures : List DecoratedSignature
  pub transaction : T

abbrev pub TransactionEnvelope : Type 0
TransactionEnvelope = BaseEnvelope Transaction

-- Xdr.types.TransactionEnvelope, as far as a TransactionEnvelope writes it: a TransactionV0Envelope or a
-- TransactionV1Envelope, each with its transaction and its signatures.
pub data XdrTransactionEnvelope : Type 0 where
  envelope_v0 : XdrTransaction (List ℕ) → List DecoratedSignature → XdrTransactionEnvelope
  envelope_v1 : XdrTransaction XdrMuxedAccount → List DecoratedSignature → XdrTransactionEnvelope

-- A signer argument: a Keypair, or the text of a secret seed.
pub data SignerKey : Type 0 where
  keypair : Keypair → SignerKey
  secret : List ℕ → SignerKey

-- `sig.__dict__ in sig_dict`
abbrev pub signature_eq : DecoratedSignature → DecoratedSignature → Bool
signature_eq a b = list_eq a.hint b.hint && list_eq a.signature b.signature

unfoldable pub has_signature : DecoratedSignature → List DecoratedSignature → Bool
has_signature sig [] = false
has_signature sig (s ∷ rest) = signature_eq sig s || has_signature sig rest

-- The envelope with one more signature, unless it has it already
unfoldable pub add_signature :
    {T : Type 0} → BaseEnvelope T → DecoratedSignature → Result (BaseEnvelope T)
unfolding has_signature
add_signature te sig = do
  require (not (has_signature sig te.signatures)) signature_exist
  ok (record te { signatures = te.signatures ++ sig ∷ [] })

module _ (crc : Crc16) where
  unfoldable pub signer_keypair : Ed25519 → SignerKey → Result Keypair
  signer_keypair nacl (keypair kp) = ok kp
  signer_keypair nacl (secret s) = from_secret nacl crc s

module _ (sha256 : List ℕ → List ℕ) where
  -- `Network.network_id`
  unfoldable pub network_id : List ℕ → Result (List ℕ)
  network_id network_passphrase = do b ← encode_utf8 network_passphrase; ok (sha256 b)

  -- `__init__` of the base class and of a subclass
  unfoldable pub base_envelope :
      {T : Type 0} → T → List ℕ → List DecoratedSignature → Result (BaseEnvelope T)
  unfolding network_id
  base_envelope transaction network_passphrase signatures = do
    id ← network_id network_passphrase
    ok (record { network_id = id; signatures = signatures; transaction = transaction })

  -- `sign_hashx` of a preimage given as bytes, which is the signature; its hash gives the hint.
  unfoldable pub sign_hashx : {T : Type 0} → BaseEnvelope T → List ℕ → Result (BaseEnvelope T)
  unfolding add_signature
  sign_hashx te preimage =
      add_signature te (record { hint = take_last 4 (sha256 preimage); signature = preimage })

  -- `signature_base` is abstract: a subclass's reads the network id and the transaction.
  module _ {T : Type 0} (signature_base : List ℕ → T → Result (List ℕ)) where
    unfoldable pub hash : BaseEnvelope T → Result (List ℕ)
    hash te = do b ← signature_base te.network_id te.transaction; ok (sha256 b)

    unfoldable pub sign : Crc16 → Ed25519 → BaseEnvelope T → SignerKey → Result (BaseEnvelope T)
    unfolding hash add_signature signer_keypair
    sign crc nacl te signer = do
      kp ← signer_keypair crc nacl signer
      tx_hash ← hash te
      sig ← sign_decorated nacl kp tx_hash
      add_signature te sig

module _ (crc : Crc16) where
  -- The transaction as a v1 one: a v0 one is read back from its XDR object first.
  unfoldable pub as_v1 : Transaction → Result Transaction
  as_v1 tx = elim tx.v1 [
    | true ↦ ok tx
    | false ↦ (do
      x ← Transaction.to_xdr_object crc tx
      back ← Transaction.from_xdr_object crc x false
      ok (record back { v1 = true }))
  ]

  -- `pack` is `pack_Transaction` of the packer and then `get_buffer`.
  module _ (pack : XdrTransaction XdrMuxedAccount → Result (List ℕ)) where
    unfoldable pub pack_tx : XdrTx → Result (List ℕ)
    pack_tx (tx_v0 x) = err attribute_error
    pack_tx (tx_v1 x) = pack x

    -- The network id, ENVELOPE_TYPE_TX in four bytes, and the transaction
    unfoldable pub signature_base : List ℕ → Transaction → Result (List ℕ)
    unfolding pack_tx as_v1
    signature_base network_id transaction = do
      tx ← as_v1 transaction
      x ← Transaction.to_xdr_object crc tx
      tx_buffer ← pack_tx x
      ok (network_id ++ (0 ∷ (0 ∷ (0 ∷ (2 ∷ [])))) ++ tx_buffer)

  unfoldable pub from_xdr_object :
      (List ℕ → List ℕ) → XdrTransactionEnvelope → List ℕ → Result TransactionEnvelope
  unfolding base_envelope
  from_xdr_object sha256 (envelope_v0 x signatures) network_passphrase = do
    tx ← Transaction.from_xdr_object crc (tx_v0 x) false
    base_envelope sha256 tx network_passphrase signatures
  from_xdr_object sha256 (envelope_v1 x signatures) network_passphrase = do
    tx ← Transaction.from_xdr_object crc (tx_v1 x) true
    base_envelope sha256 tx network_passphrase signatures

-- `to_xdr_object`, with the envelope type of the transaction's flag
unfoldable pub envelope_of : XdrTx → List DecoratedSignature → XdrTransactionEnvelope
envelope_of (tx_v0 x) signatures = envelope_v0 x signatures
envelope_of (tx_v1 x) signatures = envelope_v1 x signatures

module _ (crc : Crc16) where
  unfoldable pub to_xdr_object : TransactionEnvelope → Result XdrTransactionEnvelope
  unfolding envelope_of
  to_xdr_object te = do
    tx ← Transaction.to_xdr_object crc te.transaction
    ok (envelope_of tx te.signatures)
