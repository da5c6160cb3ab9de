-- ===== src/Examples/Building.antt =====
-- A challenge that the example server builds, and the theorems on reading and accepting it.
use py_stellar_base.Prelude.{
  ℕ, ◌≡◌, refl, ap, ◌∙◌, arith, true, false, some, List, [], ◌∷◌, ◌++◌, replicate,
}
use py_stellar_base.Prelude.Int.{pos}
use py_stellar_base.Error.{ok, ◌>>=◌}
use py_stellar_base.Text.{encode_utf8, encode_char}
use py_stellar_base.Keypair.{Keypair, secret, from_secret, signature_hint}
use py_stellar_base.Keypair.RoundTrip as KeypairLaws
use py_stellar_base.Keypair.RoundTrip.{from_secret-secret}
use py_stellar_base.StrKey.Muxed.{IsKey}
use py_stellar_base.Operation.{map_result}
use py_stellar_base.Operation.Sources.{muxed-ReadsBack}
use py_stellar_base.Operation.Dispatch
use py_stellar_base.Operation.Dispatch.{manage_data}
use py_stellar_base.Operation.Dispatch.Laws.{operation-from_xdr-to_xdr}
use py_stellar_base.Transaction
use py_stellar_base.Transaction.{Transaction, tx_v1, xdr_transaction}
use py_stellar_base.Transaction.RoundTrip as TransactionLaws
use py_stellar_base.Operation.Dispatch.Laws as OperationLaws
use py_stellar_base.Transaction.RoundTrip.{ReadsBackAs, reads_back_as, transaction-from_xdr-to_xdr}
use py_stellar_base.Envelope.{signature_base, as_v1, pack_tx, hash}
use py_stellar_base.FeeBump.{envelope}
use py_stellar_base.WebAuth.Read.{read_challenge_transaction, verify_threshold}
use py_stellar_base.WebAuth.Build.Accepted.{answer, verify_threshold-build_challenge_transaction}
use py_stellar_base.WebAuth.Build.{build_challenge_transaction}
use py_stellar_base.WebAuth.Build.RoundTrip.{
  IsReady, challenge_op, challenge_tx, challenge_te, challenge_tx_valid, sent_back-challenge_tx,
}
use py_stellar_base.WebAuth.Build.Reading.{
  IsServer, signed_te, read_challenge_transaction-build_challenge_transaction,
}
use py_stellar_base.Examples.{
  xmodem, toy_nacl, key, seed, counted, all_bytes_sound, server_key, server_key_is_key,
}
use py_stellar_base.Examples.Keys.{account, server, client_valid}
use py_stellar_base.Examples.Envelopes.{digest, pack, passphrase, named}
use py_stellar_base.Examples.Challenges.{client-HasText, server-HasText}
use py_stellar_base.Examples.Reading.{source_valid}

abbrev server_seed : List ℕ
server_seed = counted 32 99

server_seed_is_key : IsKey server_seed
server_seed_is_key = record { size = refl; bytes = all_bytes_sound server_seed refl }

abbrev server_keypair : Keypair
server_keypair = record { verify_key = server_key; signing_key = some server_seed }

server_keypair_valid : KeypairLaws.IsValid toy_nacl server_keypair
server_keypair_valid = record { key = server_key_is_key; seed = (server_seed_is_key, refl) }

secret_form :
    ReadsBackAs (secret xmodem) (from_secret toy_nacl xmodem) server_keypair server_keypair
secret_form =
    reads_back_as (secret xmodem) (from_secret toy_nacl xmodem) server_keypair server_keypair
      (from_secret-secret xmodem toy_nacl server_key server_seed server_keypair_valid)

owner : IsServer xmodem toy_nacl secret_form.form server_seed server
owner = record { opened = secret_form.read; has_text = server-HasText }

abbrev nonce : List ℕ
nonce = replicate 48 7

ready : IsReady xmodem digest 900 nonce server account (b'a' ∷ []) passphrase passphrase
unfolding encode_utf8 encode_char
ready = record {
  server_valid = source_valid;
  client_valid = client_valid;
  points =
      (omega arith, (omega arith, (omega arith, (omega arith, (omega arith, (omega arith, tt))))));
  name = b'a' ∷ b' ' ∷ b'a' ∷ b'u' ∷ b't' ∷ b'h' ∷ [];
  encoded = refl;
  short = refl;
  nonce_bytes = all_bytes_sound nonce refl;
  nonce_size = refl;
  timed = omega arith;
  network = named;
}

abbrev tx : Transaction
tx = challenge_tx 100 900 nonce server account (b'a' ∷ [])

valid : TransactionLaws.IsValid xmodem tx
valid =
    challenge_tx_valid xmodem digest 100 900 nonce server account (b'a' ∷ []) passphrase passphrase
      ready

v0_form :
    ReadsBackAs
      (Transaction.to_xdr_object xmodem)
      (λ x. Transaction.from_xdr_object xmodem x false)
      tx
      tx
v0_form =
    reads_back_as (Transaction.to_xdr_object xmodem)
      (λ x. Transaction.from_xdr_object xmodem x false) tx tx
      (transaction-from_xdr-to_xdr xmodem tx (
          challenge_tx_valid xmodem digest 100 900 nonce server account (b'a' ∷ []) passphrase
            passphrase ready)
        ∙ ap ok (
            sent_back-challenge_tx xmodem digest 100 900 nonce server account (b'a' ∷ []) passphrase
              passphrase ready))

op_form :
    ReadsBackAs
      (Dispatch.to_xdr_object xmodem)
      (Dispatch.from_xdr_object xmodem)
      (manage_data (challenge_op nonce account (b'a' ∷ [])))
      (OperationLaws.resend xmodem
        (manage_data (challenge_op nonce account (b'a' ∷ [])))
        (valid.operations.0))
op_form =
    reads_back_as (Dispatch.to_xdr_object xmodem) (Dispatch.from_xdr_object xmodem)
      (manage_data (challenge_op nonce account (b'a' ∷ [])))
      (OperationLaws.resend xmodem (manage_data (challenge_op nonce account (b'a' ∷ [])))
        (valid.operations.0))
      (operation-from_xdr-to_xdr xmodem (manage_data (challenge_op nonce account (b'a' ∷ [])))
        (valid.operations.0))

-- The transaction as it is hashed
v1_written :
    Transaction.to_xdr_object xmodem (record tx { v1 = true })
    ≡ ok (
        tx_v1 (
          xdr_transaction xmodem tx
            (op_form.form ∷ [])
            ((muxed-ReadsBack xmodem tx.source source_valid).form)))
unfolding Transaction.to_xdr_object map_result xdr_transaction
v1_written = rw (op_form.written, (muxed-ReadsBack xmodem tx.source source_valid).written) refl

hashed :
    hash digest
      (signature_base xmodem pack)
      (challenge_te 100 900 nonce server account (b'a' ∷ []) passphrase)
    ≡ ok (passphrase ++ (0 ∷ (0 ∷ (0 ∷ (2 ∷ [])))) ++ 1 ∷ [])
unfolding hash signature_base as_v1 pack_tx xdr_transaction
hashed = rw (v0_form.written, v0_form.read, v1_written) refl

read_challenge_transaction-build_challenge_transaction_example :
    (build_challenge_transaction xmodem digest toy_nacl pack
        (pos 100)
        nonce
        secret_form.form
        account
        (b'a' ∷ [])
        passphrase
        (pos 900)
      >>= λ x.
          read_challenge_transaction xmodem toy_nacl digest pack
            (pos 1000000000)
            (envelope x)
            server
            passphrase)
    ≡ ok (
      signed_te toy_nacl
          (challenge_te 100 900 nonce server account (b'a' ∷ []) passphrase)
          (passphrase ++ (0 ∷ (0 ∷ (0 ∷ (2 ∷ [])))) ++ 1 ∷ [])
          server_seed,
      account,
    )
read_challenge_transaction-build_challenge_transaction_example =
    read_challenge_transaction-build_challenge_transaction xmodem toy_nacl digest pack 100 900 nonce
      secret_form.form server_seed server account (b'a' ∷ []) passphrase passphrase
      (passphrase ++ (0 ∷ (0 ∷ (0 ∷ (2 ∷ [])))) ++ 1 ∷ []) ready owner refl refl hashed 1000000000
      (omega arith) (omega arith)

verify_threshold-build_challenge_transaction_example :
    (do
      x ←
          build_challenge_transaction xmodem digest toy_nacl pack
            (pos 100)
            nonce
            secret_form.form
            account
            (b'a' ∷ [])
            passphrase
            (pos 900)
      y ←
          answer xmodem toy_nacl digest pack passphrase
            (record { verify_key = key; signing_key = some seed })
            x
      verify_threshold xmodem toy_nacl digest pack
          (pos 1000000000)
          (envelope y)
          server
          passphrase
          2
          (record { account_id = account; weight = 3 } ∷ []))
    ≡ ok (record { account_id = account; weight = 3 } ∷ [])
unfolding signature_hint
verify_threshold-build_challenge_transaction_example =
    verify_threshold-build_challenge_transaction xmodem toy_nacl digest pack 100 900 nonce
      secret_form.form server_seed server seed account (b'a' ∷ []) passphrase passphrase
      (passphrase ++ (0 ∷ (0 ∷ (0 ∷ (2 ∷ [])))) ++ 1 ∷ []) ready owner client-HasText refl refl refl
      hashed 1000000000 3 2 (omega arith) (omega arith) (omega arith)
