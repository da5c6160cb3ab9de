-- ===== src/Examples/Envelopes.antt =====
-- The theorems on transactions, envelopes, fee bumps and the builder at concrete arguments.
use py_stellar_base.Prelude.{
  ℕ, ◌≡◌, ◌⊎◌, refl, arith, true, false, some, none, List, [], ◌∷◌, ◌++◌, length, inl, inr,
}
use py_stellar_base.Prelude.Int.{pos}
use py_stellar_base.Error.{Result, ok, err, signature_exist, value_error, zero_division, ◌>>=◌}
use py_stellar_base.Text.{encode_utf8, encode_char}
use py_stellar_base.StrKey.{XdrMuxedAccount}
use py_stellar_base.Keypair.{Keypair, DecoratedSignature, sign_decorated, signature_hint, verify}
use py_stellar_base.Keypair.RoundTrip as KeypairLaws
use py_stellar_base.Memo.{id_memo}
use py_stellar_base.Operation
use py_stellar_base.Operation.{map_result, source_to_xdr}
use py_stellar_base.Operation.Sources.{muxed-ReadsBack}
use py_stellar_base.Operation.Inflation
use py_stellar_base.Operation.Dispatch
use py_stellar_base.Operation.Dispatch.{AnyOperation, payment, manage_buy_offer, inflation}
use py_stellar_base.Transaction
use py_stellar_base.Transaction.{Transaction, XdrTransaction, XdrTx, tx_v1, muxed, xdr_transaction}
use py_stellar_base.Transaction.RoundTrip.{
  IsValid, sent_back, kept_source, resend_all, transaction-from_xdr-to_xdr,
}
use py_stellar_base.Envelope
use py_stellar_base.Envelope.{
  TransactionEnvelope, keypair, network_id, signature_base, as_v1, hash, sign, add_signature,
  has_signature, signer_keypair,
}
use py_stellar_base.Envelope.RoundTrip.{envelope-from_xdr-to_xdr, hash-from_xdr-to_xdr}
use py_stellar_base.Envelope.Signing.{sign-sign, sign-verify, IsAmong}
use py_stellar_base.Decimal.{half_even}
use py_stellar_base.Float.{is_below, true_divide}
use py_stellar_base.FeeBump.{
  FeeBumpTransaction, FeeBumpTransactionEnvelope, too_low, times, parse_fee_source,
  fee_bump_transaction, to_xdr_object, from_xdr_object, envelope_to_xdr, parse_transaction_envelope,
  envelope,
}
use py_stellar_base.FeeBump.Accepts.{IsEnough, IsTooLow, fee_bump_transaction-accepts}
use py_stellar_base.FeeBump.RoundTrip as BumpLaws
use py_stellar_base.FeeBump.RoundTrip.{
  bumped_back, fee_bump-from_xdr-to_xdr, fee_bump_envelope-parse,
}
use py_stellar_base.Builder.{
  Account, TransactionBuilder, transaction_builder, append_operation, build, from_xdr,
}
use py_stellar_base.Builder.History.{
  Session, Reach, stay, then_step, appended, envelope_built, IsConsistent, append_in, next_envelope,
  counted, build_lem, transaction_builder-IsConsistent,
}
use py_stellar_base.Builder.Reopened.{HasBaseFee, unsigned, build-from_xdr}
use py_stellar_base.Examples.{xmodem, toy_nacl, seed, key, seed_is_key, key_is_key}
use py_stellar_base.Examples.Keys.{client, client_valid, muxed_server, muxed_server_valid}
use py_stellar_base.Examples.Operations.{op_payment, op_payment_valid}
use py_stellar_base.Examples.Prices.{op_manage_buy_offer, op_manage_buy_offer_valid}

-- A stand-in for SHA-256, and for the packer: the number of operations.
abbrev pub digest : List ℕ → List ℕ
digest bytes = bytes

abbrev pub pack : XdrTransaction XdrMuxedAccount → Result (List ℕ)
pack x = ok (length x.operations ∷ [])

abbrev pub passphrase : List ℕ
passphrase = b'T' ∷ b'e' ∷ b's' ∷ b't' ∷ []

pub named : network_id digest passphrase ≡ ok passphrase
unfolding network_id encode_utf8 encode_char
named = refl

abbrev tx : Transaction
tx = record {
  source = muxed_server;
  sequence = pos 7;
  fee = pos 200;
  operations = payment op_payment ∷ manage_buy_offer op_manage_buy_offer ∷ [];
  memo = id_memo (pos 5);
  time_bounds = some (record { min_time = pos 3; max_time = pos 9 });
  v1 = true;
}

tx_valid : IsValid xmodem tx
tx_valid = record {
  source = muxed_server_valid;
  memo = omega arith;
  time_bounds = inr (omega arith);
  operations = (op_payment_valid, (op_manage_buy_offer_valid, tt));
}

transaction-from_xdr-to_xdr_example :
    (Transaction.to_xdr_object xmodem tx >>= λ x. Transaction.from_xdr_object xmodem x true)
    ≡ ok (record tx {
      source = kept_source true muxed_server;
      operations = resend_all xmodem tx.operations tx_valid.operations;
    })
transaction-from_xdr-to_xdr_example = transaction-from_xdr-to_xdr xmodem tx tx_valid

abbrev te : TransactionEnvelope
te = record { network_id = passphrase; signatures = []; transaction = tx }

envelope-from_xdr-to_xdr_example :
    (Envelope.to_xdr_object xmodem te >>= λ x. Envelope.from_xdr_object xmodem digest x passphrase)
    ≡ ok (record te { transaction = sent_back xmodem tx tx_valid true })
envelope-from_xdr-to_xdr_example =
    envelope-from_xdr-to_xdr digest xmodem passphrase te tx_valid named

hash-from_xdr-to_xdr_example :
    (do
      x ← Envelope.to_xdr_object xmodem te
      back ← Envelope.from_xdr_object xmodem digest x passphrase
      hash digest (signature_base xmodem pack) back)
    ≡ hash digest (signature_base xmodem pack) te
hash-from_xdr-to_xdr_example = hash-from_xdr-to_xdr digest xmodem pack passphrase te tx_valid named

abbrev short_tx : Transaction
short_tx = record tx { operations = inflation (record { source = none }) ∷ [] }

abbrev short_te : TransactionEnvelope
short_te = record te { transaction = short_tx }

abbrev short_hash : List ℕ
short_hash = passphrase ++ (0 ∷ (0 ∷ (0 ∷ (2 ∷ [])))) ++ 1 ∷ []

hashed : hash digest (signature_base xmodem pack) short_te ≡ ok short_hash
unfolding hash signature_base as_v1 Transaction.to_xdr_object xdr_transaction map_result
    Dispatch.to_xdr_object Operation.to_xdr_object Inflation.to_operation_body source_to_xdr
hashed = rw ((muxed-ReadsBack xmodem muxed_server muxed_server_valid).written) refl

abbrev signer : Keypair
signer = record { verify_key = key; signing_key = some seed }

signer_valid : KeypairLaws.IsValid toy_nacl signer
signer_valid = record { key = key_is_key; seed = (seed_is_key, refl) }

sign-verify_example :
    (sig : DecoratedSignature) × (sig.hint ≡ signature_hint signer)
    × (verify toy_nacl signer short_hash sig.signature ≡ ok tt)
    × ((IsAmong sig []
          × (sign digest (signature_base xmodem pack) xmodem toy_nacl short_te (keypair signer)
              ≡ err signature_exist))
        ⊎ (¬ IsAmong sig []
            × (sign digest (signature_base xmodem pack) xmodem toy_nacl short_te (keypair signer)
                ≡ ok (record short_te { signatures = sig ∷ [] }))))
sign-verify_example =
    sign-verify digest xmodem toy_nacl (signature_base xmodem pack) short_te key seed short_hash
      signer_valid hashed

abbrev signed_te : TransactionEnvelope
signed_te = record short_te {
  signatures = record { hint = signature_hint signer; signature = key ++ short_hash } ∷ [];
}

signs :
    sign digest (signature_base xmodem pack) xmodem toy_nacl short_te (keypair signer)
    ≡ ok signed_te
unfolding sign signer_keypair sign_decorated add_signature
signs = rw hashed refl

sign-sign_example :
    sign digest (signature_base xmodem pack) xmodem toy_nacl signed_te (keypair signer)
    ≡ err signature_exist
sign-sign_example =
    sign-sign digest xmodem toy_nacl (signature_base xmodem pack) short_te signed_te
      (keypair signer) signs

fee_source_parsed : parse_fee_source xmodem (muxed muxed_server) ≡ ok muxed_server
unfolding parse_fee_source
fee_source_parsed = refl

fee_bump_transaction-accepts_example :
    (IsEnough (pos 100) te
      × (fee_bump_transaction xmodem (muxed muxed_server) (pos 100) te
          ≡ ok (record {
            fee_source = muxed_server;
            base_fee = pos 100;
            inner_transaction_envelope = te;
          })))
    ⊎ ((true ≡ false)
        × (fee_bump_transaction xmodem (muxed muxed_server) (pos 100) te ≡ err value_error))
    ⊎ ((true ≡ true)
        × (length tx.operations ≡ 0)
        × (fee_bump_transaction xmodem (muxed muxed_server) (pos 100) te ≡ err zero_division))
    ⊎ (IsTooLow (pos 100) te
        × (fee_bump_transaction xmodem (muxed muxed_server) (pos 100) te ≡ err value_error))
fee_bump_transaction-accepts_example =
    fee_bump_transaction-accepts xmodem (muxed muxed_server) muxed_server (pos 100) te
      fee_source_parsed (omega arith)

abbrev bump : FeeBumpTransaction
bump = record { fee_source = client; base_fee = pos 150; inner_transaction_envelope = te }

bump_valid : BumpLaws.IsValid xmodem digest passphrase bump
unfolding too_low is_below true_divide half_even
bump_valid = record {
  fee_source = client_valid;
  inner = tx_valid;
  network = named;
  v1 = refl;
  some_operation = omega arith;
  enough = refl;
  exact = omega arith;
}

fee_bump-from_xdr-to_xdr_example :
    (to_xdr_object xmodem bump >>= λ x. from_xdr_object xmodem digest x passphrase)
    ≡ ok (bumped_back xmodem digest passphrase bump bump_valid)
fee_bump-from_xdr-to_xdr_example = fee_bump-from_xdr-to_xdr xmodem digest passphrase bump bump_valid

abbrev bump_te : FeeBumpTransactionEnvelope
bump_te = record { network_id = passphrase; signatures = []; transaction = bump }

fee_bump_envelope-parse_example :
    (envelope_to_xdr xmodem bump_te >>= λ x. parse_transaction_envelope xmodem digest x passphrase)
    ≡ ok (
        inr (record bump_te { transaction = bumped_back xmodem digest passphrase bump bump_valid }))
fee_bump_envelope-parse_example =
    fee_bump_envelope-parse xmodem digest passphrase bump_te bump_valid named

-- A builder that builds once between two operations
abbrev account : Account
account = record { account_id = client; sequence = pos 41 }

abbrev at_first : Session
at_first = record { builder = transaction_builder account passphrase (pos 100) false; built = [] }

abbrev appended_once : Session
appended_once = append_in at_first (payment op_payment)

abbrev built_once : Session
built_once = record {
  builder = counted appended_once.builder;
  built = next_envelope appended_once.builder passphrase ∷ [];
}

called : Reach xmodem digest at_first (append_in built_once (payment op_payment))
unfolding append_operation transaction_builder
called =
    then_step
      (then_step (then_step (stay at_first) (appended at_first (payment op_payment))) (
        envelope_built appended_once (next_envelope appended_once.builder passphrase)
          (counted appended_once.builder)
          (build_lem xmodem digest appended_once.builder passphrase named)))
      (appended built_once (payment op_payment))

transaction_builder-IsConsistent_example :
    IsConsistent (pos 41) (pos 100) (append_in built_once (payment op_payment))
transaction_builder-IsConsistent_example =
    transaction_builder-IsConsistent xmodem digest account passphrase (pos 100) false
      (append_in built_once (payment op_payment)) called

paid : HasBaseFee tx
unfolding times
paid = record { base_fee = 100; paid = refl; some_operation = omega arith; exact = omega arith }

build-from_xdr_example :
    (b : TransactionBuilder) × ((Envelope.to_xdr_object xmodem te >>= λ x.
    from_xdr xmodem digest (envelope x) passphrase)
      ≡ ok (inl b))
    × (build xmodem digest b
        ≡ ok (unsigned (record te { transaction = sent_back xmodem tx tx_valid true }), counted b))
build-from_xdr_example = build-from_xdr xmodem digest passphrase te tx_valid paid named
