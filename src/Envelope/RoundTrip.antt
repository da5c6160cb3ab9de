-- ===== src/Envelope/RoundTrip.antt =====
-- Envelopes are read back from their XDR objects, and what was signed stays the same.
use py_stellar_base.Prelude.{ℕ, Bool, true, false, List, ◌≡◌, refl}
use py_stellar_base.Error.{Result, ok, ◌>>=◌, >>=-eq-ok}
use py_stellar_base.StrKey.{Crc16, XdrMuxedAccount}
use py_stellar_base.Keypair.{DecoratedSignature}
use py_stellar_base.Transaction
use py_stellar_base.Transaction.{Transaction, XdrTransaction, XdrTx, tx_v0, tx_v1}
use py_stellar_base.Transaction.RoundTrip.{
  IsValid, sent_back, transaction-from_xdr-to_xdr, sent_again,
}
use py_stellar_base.Envelope.{
  TransactionEnvelope, envelope_of, network_id, base_envelope, from_xdr_object, to_xdr_object,
  as_v1, signature_base, hash,
}

-- The XDR object of a transaction has the type that its flag says.
read_envelope :
    (sha256 : List ℕ → List ℕ) (crc : Crc16) (passphrase id : List ℕ)
    (sigs : List DecoratedSignature) (v1 : Bool) (back : Transaction) (x : XdrTx)
    → network_id sha256 passphrase ≡ ok id
    → Transaction.from_xdr_object crc x v1 ≡ ok back
    → from_xdr_object crc sha256 (envelope_of x sigs) passphrase
      ≡ ok (record { network_id = id; signatures = sigs; transaction = back })
unfolding from_xdr_object envelope_of base_envelope Transaction.from_xdr_object
read_envelope sha256 crc passphrase id sigs true back (tx_v0 x) n h = cc
read_envelope sha256 crc passphrase id sigs true back (tx_v1 x) n h = rw (h, n) refl
read_envelope sha256 crc passphrase id sigs false back (tx_v0 x) n h = rw (h, n) refl
read_envelope sha256 crc passphrase id sigs false back (tx_v1 x) n h = cc

-- An envelope of a valid transaction is read back from its XDR object with the passphrase of its network:
-- its signatures in order, its network id, and its transaction as `Transaction` reads it back.
pub envelope-from_xdr-to_xdr :
    (sha256 : List ℕ → List ℕ) (crc : Crc16) (passphrase : List ℕ) (te : TransactionEnvelope)
    (v : IsValid crc te.transaction)
    → network_id sha256 passphrase ≡ ok te.network_id
    → (to_xdr_object crc te >>= λ x. from_xdr_object crc sha256 x passphrase)
      ≡ ok (record te { transaction = sent_back crc te.transaction v te.transaction.v1 })
unfolding to_xdr_object
envelope-from_xdr-to_xdr sha256 crc passphrase te v n =
    let tx = te.transaction in
    let (x, written, read) =
      >>=-eq-ok (Transaction.to_xdr_object crc tx) _ (transaction-from_xdr-to_xdr crc tx v) in
    rw written (read_envelope sha256 crc passphrase te.network_id te.signatures tx.v1 _ x n read)

hash_again :
    (sha256 : List ℕ → List ℕ) (crc : Crc16)
    (pack : XdrTransaction XdrMuxedAccount → Result (List ℕ)) (te : TransactionEnvelope)
    (v : IsValid crc te.transaction) (v1 : Bool)
    → hash sha256
        (signature_base crc pack)
        (record te { transaction = sent_back crc te.transaction v v1 })
      ≡ hash sha256
          (signature_base crc pack)
          (record te { transaction = record te.transaction { v1 = v1 } })
unfolding hash signature_base as_v1
hash_again sha256 crc pack te v true = rw (sent_again crc te.transaction v true) refl
hash_again sha256 crc pack te v false = rw (sent_again crc te.transaction v false) refl

hash-sent_back :
    (sha256 : List ℕ → List ℕ) (crc : Crc16)
    (pack : XdrTransaction XdrMuxedAccount → Result (List ℕ)) (te : TransactionEnvelope)
    (v : IsValid crc te.transaction)
    → hash sha256
        (signature_base crc pack)
        (record te { transaction = sent_back crc te.transaction v te.transaction.v1 })
      ≡ hash sha256 (signature_base crc pack) te
hash-sent_back sha256 crc pack te v = hash_again sha256 crc pack te v te.transaction.v1

-- The envelope of a valid transaction, v0 or v1, that is written to its XDR object and read back has the hash
-- that was signed: its signatures stay as valid as they were.
pub hash-from_xdr-to_xdr :
    (sha256 : List ℕ → List ℕ) (crc : Crc16)
    (pack : XdrTransaction XdrMuxedAccount → Result (List ℕ)) (passphrase : List ℕ)
    (te : TransactionEnvelope)
    → IsValid crc te.transaction
    → network_id sha256 passphrase ≡ ok te.network_id
    → (do
      x ← to_xdr_object crc te
      back ← from_xdr_object crc sha256 x passphrase
      hash sha256 (signature_base crc pack) back)
      ≡ hash sha256 (signature_base crc pack) te
hash-from_xdr-to_xdr sha256 crc pack passphrase te v n =
    let (x, written, read) =
      >>=-eq-ok (to_xdr_object crc te) _ (envelope-from_xdr-to_xdr sha256 crc passphrase te v n) in
    rw (written, read) (hash-sent_back sha256 crc pack te v)
