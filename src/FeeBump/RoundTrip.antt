-- ===== src/FeeBump/RoundTrip.antt =====
-- Fee bumps are read back from their XDR objects.
use py_stellar_base.Prelude.{
  ℕ, ◌+◌, ◌^◌, ◌≤◌, ◌≡◌, true, false, ◌==◌, List, refl, ap, length, arith, inr,
}
use py_stellar_base.Prelude.Int.{ℤ, pos, negsuc, ◌<ℤ◌}
use py_stellar_base.Float.Exact.{int_of-true_divide}
use py_stellar_base.Error.{ok, ◌>>=◌, >>=-eq-ok}
use py_stellar_base.StrKey.{Crc16}
use py_stellar_base.MuxedAccount.RoundTrip as AccountLaws
use py_stellar_base.Operation.Sources.{muxed-ReadsBack}
use py_stellar_base.Transaction.RoundTrip as TransactionLaws
use py_stellar_base.Transaction.RoundTrip.{sent_back, length-resend_all}
use py_stellar_base.Envelope
use py_stellar_base.Envelope.{TransactionEnvelope, network_id, base_envelope}
use py_stellar_base.Envelope.RoundTrip.{envelope-from_xdr-to_xdr}
use py_stellar_base.FeeBump.{
  FeeBumpTransaction, FeeBumpTransactionEnvelope, times, quotient, too_low, to_xdr_object,
  from_xdr_object, envelope_to_xdr, parse_transaction_envelope,
}

-- What the constructor accepts, of a network with this passphrase, with a base fee that a float holds.
pub record IsValid (crc : Crc16) (sha256 : List ℕ → List ℕ) (passphrase : List ℕ)
    (tx : FeeBumpTransaction) : Type 0 where
  pub fee_source : AccountLaws.IsValid crc tx.fee_source
  pub inner : TransactionLaws.IsValid crc tx.inner_transaction_envelope.transaction
  pub network : network_id sha256 passphrase ≡ ok tx.inner_transaction_envelope.network_id
  pub v1 : tx.inner_transaction_envelope.transaction.v1 ≡ true
  pub some_operation : 1 ≤ length tx.inner_transaction_envelope.transaction.operations
  pub enough :
      too_low tx.base_fee tx.inner_transaction_envelope.transaction.fee
        (length tx.inner_transaction_envelope.transaction.operations)
      ≡ false
  pub exact : tx.base_fee <ℤ pos (2 ^ 53)

quotient-times :
    (base_fee fee : ℤ) (n : ℕ)
    → base_fee <ℤ pos (2 ^ 53)
    → too_low base_fee fee n ≡ false
    → quotient (times base_fee (n + 1)) (n + 1) ≡ base_fee
unfolding quotient times too_low
quotient-times (pos b) fee n small h =
    ap pos (int_of-true_divide b (n + 1) (omega arith) (omega arith))
quotient-times (negsuc b) fee n small h = ground arith

abbrev pub bumped_back :
    (crc : Crc16) (sha256 : List ℕ → List ℕ) (passphrase : List ℕ) (tx : FeeBumpTransaction)
    → IsValid crc sha256 passphrase tx
    → FeeBumpTransaction
bumped_back crc sha256 passphrase tx v =
    let te = tx.inner_transaction_envelope in
    record tx {
      inner_transaction_envelope = record te {
        transaction = sent_back crc te.transaction v.inner te.transaction.v1;
      };
    }

-- A valid fee bump with a base fee below 2 ^ 53 is read back from its XDR object with the same fee source and base fee: the fee that is sent
-- is the base fee for every operation and one more. The inner envelope is read back as an envelope is.
pub fee_bump-from_xdr-to_xdr :
    (crc : Crc16) (sha256 : List ℕ → List ℕ) (passphrase : List ℕ) (tx : FeeBumpTransaction)
    (v : IsValid crc sha256 passphrase tx)
    → (to_xdr_object crc tx >>= λ x. from_xdr_object crc sha256 x passphrase)
      ≡ ok (bumped_back crc sha256 passphrase tx v)
unfolding to_xdr_object from_xdr_object
fee_bump-from_xdr-to_xdr crc sha256 passphrase tx v =
    let te = tx.inner_transaction_envelope in
    let n = length te.transaction.operations in
    let s = muxed-ReadsBack crc tx.fee_source v.fee_source in
    let (x, written, read) =
      >>=-eq-ok (Envelope.to_xdr_object crc te) _
        (envelope-from_xdr-to_xdr sha256 crc passphrase te v.inner v.network) in
    let same = length-resend_all crc te.transaction.operations v.inner.operations in
    let nonzero : (n == 0) ≡ false = ground (arith, v.some_operation) in
    rw
      (
        s.written,
        written,
        s.read,
        read,
        same,
        quotient-times tx.base_fee te.transaction.fee n v.exact v.enough,
        v.v1,
        nonzero,
        v.enough,
      )
      refl

-- The same of the envelope, by `parse_transaction_envelope_from_xdr`: an envelope of a valid fee bump is
-- recognised as one, with its signatures.
pub fee_bump_envelope-parse :
    (crc : Crc16) (sha256 : List ℕ → List ℕ) (passphrase : List ℕ) (te : FeeBumpTransactionEnvelope)
    (v : IsValid crc sha256 passphrase te.transaction)
    → network_id sha256 passphrase ≡ ok te.network_id
    → (envelope_to_xdr crc te >>= λ x. parse_transaction_envelope crc sha256 x passphrase)
      ≡ ok (inr (record te { transaction = bumped_back crc sha256 passphrase te.transaction v }))
unfolding envelope_to_xdr parse_transaction_envelope base_envelope
fee_bump_envelope-parse crc sha256 passphrase te v n =
    let (x, written, read) =
      >>=-eq-ok (to_xdr_object crc te.transaction) _
        (fee_bump-from_xdr-to_xdr crc sha256 passphrase te.transaction v) in
    rw (written, read, n) refl
