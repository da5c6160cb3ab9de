-- ===== src/Builder/Reopened.antt =====
-- A builder that was opened from an envelope builds the envelope's transaction again.
use py_stellar_base.Prelude.{
  ℕ, zero, suc, ◌^◌, ◌<◌, ◌≤◌, ◌≡◌, refl, ap, sym, ◌∙◌, arith, false, ◌==◌, List, [], length, inl,
}
use py_stellar_base.Prelude.Int.{ℤ, pos, negsuc, ◌+ℤ◌}
use py_stellar_base.Float.Exact.{int_of-true_divide}
use py_stellar_base.Error.{ok, ◌>>=◌, >>=-eq-ok}
use py_stellar_base.StrKey.{Crc16}
use py_stellar_base.Operation.{parse_mux_account_from_account}
use py_stellar_base.Transaction.{Transaction}
use py_stellar_base.Transaction.RoundTrip as TransactionLaws
use py_stellar_base.Transaction.RoundTrip.{sent_back, length-resend_all}
use py_stellar_base.Envelope
use py_stellar_base.Envelope.{TransactionEnvelope, network_id}
use py_stellar_base.Envelope.RoundTrip.{envelope-from_xdr-to_xdr}
use py_stellar_base.FeeBump.{times, quotient, envelope}
use py_stellar_base.Builder.{
  TransactionBuilder, account, transaction_builder, build, reopen, from_xdr,
}
use py_stellar_base.Builder.History.{next_envelope, counted, build_lem}

before_next : (n : ℤ) → (n +ℤ negsuc 0) +ℤ pos 1 ≡ n
unfolding ◌+ℤ◌
before_next (pos zero) = ground arith
before_next (pos (suc n)) = ground arith
before_next (negsuc n) = ground arith

-- The fee pays a base fee for each of the operations. A base fee below 2 ^ 53, as every uint32 is, is exact as
-- a float.
pub record HasBaseFee (tx : Transaction) : Type 0 where
  pub base_fee : ℕ
  pub paid : tx.fee ≡ times (pos base_fee) (length tx.operations)
  pub some_operation : 1 ≤ length tx.operations
  pub exact : base_fee < 2 ^ 53

quotient_paid :
    (base_fee n : ℕ)
    → base_fee < 2 ^ 53
    → 1 ≤ n
    → quotient (times (pos base_fee) n) n ≡ pos base_fee
unfolding quotient times
quotient_paid base_fee n small h = ap pos (int_of-true_divide base_fee n small h)

-- The builder of `reopen`
abbrev pub reopened : TransactionEnvelope → List ℕ → ℕ → TransactionBuilder
reopened te passphrase base_fee = record {
  source_account = record {
    account_id = te.transaction.source;
    sequence = te.transaction.sequence +ℤ negsuc 0;
  };
  base_fee = pos base_fee;
  network_passphrase = passphrase;
  operations = te.transaction.operations;
  time_bounds = te.transaction.time_bounds;
  memo = te.transaction.memo;
  v1 = false;
}

reopen_lem :
    (crc : Crc16) (sha256 : List ℕ → List ℕ) (passphrase : List ℕ) (te : TransactionEnvelope)
    (f : HasBaseFee te.transaction)
    → reopen crc sha256 te passphrase ≡ ok (reopened te passphrase f.base_fee)
unfolding reopen account transaction_builder parse_mux_account_from_account
reopen_lem crc sha256 passphrase te f =
    let n = length te.transaction.operations in
    let nonzero : (n == 0) ≡ false = ground (arith, f.some_operation) in
    rw (nonzero, f.paid, quotient_paid f.base_fee n f.exact f.some_operation) refl

-- What is sent again: unsigned, and of type v0.
abbrev pub unsigned : TransactionEnvelope → TransactionEnvelope
unsigned te = record te { signatures = []; transaction = record te.transaction { v1 = false } }

next_again :
    (passphrase : List ℕ) (te : TransactionEnvelope) (f : HasBaseFee te.transaction)
    → next_envelope (reopened te passphrase f.base_fee) te.network_id ≡ unsigned te
next_again passphrase te f = rw (before_next te.transaction.sequence, f.paid) refl

-- `TransactionBuilder.from_xdr` of the XDR object of a valid envelope, whose fee is a base fee below 2 ^ 53 for
-- each of its operations, gives a builder that builds the transaction of that envelope, as it is read back: the same
-- source, sequence number, fee, memo, time bounds and operations, without the signatures, and always as v0.
pub build-from_xdr :
    (crc : Crc16) (sha256 : List ℕ → List ℕ) (passphrase : List ℕ) (te : TransactionEnvelope)
    (v : TransactionLaws.IsValid crc te.transaction)
    → HasBaseFee te.transaction
    → network_id sha256 passphrase ≡ ok te.network_id
    → let back = record te { transaction = sent_back crc te.transaction v te.transaction.v1 } in
      (b : TransactionBuilder) × ((Envelope.to_xdr_object crc te >>= λ x.
      from_xdr crc sha256 (envelope x) passphrase)
        ≡ ok (inl b))
      × (build crc sha256 b ≡ ok (unsigned back, counted b))
unfolding from_xdr
build-from_xdr crc sha256 passphrase te v f n =
    let back = record te { transaction = sent_back crc te.transaction v te.transaction.v1 } in
    let same = length-resend_all crc te.transaction.operations v.operations in
    let g : HasBaseFee back.transaction = record {
      base_fee = f.base_fee;
      paid = f.paid ∙ ap (times (pos f.base_fee)) (sym same);
      some_operation = omega (arith, same, f.some_operation);
      exact = f.exact;
    } in
    let (x, written, read) =
      >>=-eq-ok (Envelope.to_xdr_object crc te) _
        (envelope-from_xdr-to_xdr sha256 crc passphrase te v n) in
    (
      reopened back passphrase f.base_fee,
      rw (written, read) (rw (reopen_lem crc sha256 passphrase back g) refl),
      build_lem crc sha256 (reopened back passphrase f.base_fee) te.network_id n
          ∙ ap (λ t. ok (t, counted (reopened back passphrase f.base_fee)))
              (next_again passphrase back g),
    )
