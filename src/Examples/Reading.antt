-- ===== src/Examples/Reading.antt =====
-- A challenge as a client sends it back, signed by the server and the client, and the theorems on reading it.
use py_stellar_base.Prelude.{
  ℕ, ◌≤◌, ◌≡◌, refl, arith, true, some, none, List, [], ◌∷◌, ◌++◌, replicate, take_last, inr,
}
use py_stellar_base.Prelude.Int.{pos}
use py_stellar_base.Error.{ok}
use py_stellar_base.Text.{encode_utf8, encode_char}
use py_stellar_base.Base64.{b64decode, b64_from, b64_move, b64_digit_move, b64_pad_move, b64_value}
use py_stellar_base.Keypair.{public_key, signature_hint, verify}
use py_stellar_base.Memo.{bytes, none_memo}
use py_stellar_base.MuxedAccount.{MuxedAccount}
use py_stellar_base.MuxedAccount.RoundTrip as AccountLaws
use py_stellar_base.Operation.{map_result}
use py_stellar_base.Operation.Sources.{muxed-ReadsBack, from_public_key_lem}
use py_stellar_base.Operation.ManageData.{
  ManageData, data_value_bytes, valid_data_val_len, text_length,
}
use py_stellar_base.Operation.Dispatch
use py_stellar_base.Operation.Dispatch.{manage_data}
use py_stellar_base.Operation.Dispatch.Laws as OperationLaws
use py_stellar_base.Operation.Dispatch.Laws.{operation-from_xdr-to_xdr}
use py_stellar_base.Transaction
use py_stellar_base.Transaction.{Transaction, xdr_transaction}
use py_stellar_base.Transaction.RoundTrip as TransactionLaws
use py_stellar_base.Transaction.RoundTrip.{ReadsBackAs, reads_back_as}
use py_stellar_base.Envelope
use py_stellar_base.Envelope.{TransactionEnvelope, signature_base, as_v1, hash}
use py_stellar_base.Envelope.RoundTrip.{envelope-from_xdr-to_xdr}
use py_stellar_base.FeeBump.{envelope, times}
use py_stellar_base.WebAuth
use py_stellar_base.WebAuth.{
  Ed25519PublicKeySigner, Found, total_weight, signer_in_signers, split_server, check_found,
  verify_challenge_transaction, verify_challenge_transaction_signers,
  verify_te_signed_by_account_id, verify_transaction_signatures, match_signers, find_signature,
  takes, used,
}
use py_stellar_base.WebAuth.Read.{
  bounds_of, as_manage_data, manage_data_of, client_of, value_of, check_transaction, read_envelope,
  hashed_envelope, read_challenge_transaction, verify_signers, verify_threshold, verify_challenge,
}
use py_stellar_base.WebAuth.Read.Accepted.{IsRead, read_challenge_transaction-IsRead}
use py_stellar_base.WebAuth.Read.Verified.{
  IsVerified, verify_threshold-IsVerified, verify_challenge-IsVerified,
}
use py_stellar_base.WebAuth.Signatures.{Signs}
use py_stellar_base.WebAuth.Challenge.{Authenticated}
use py_stellar_base.Examples.{xmodem, toy_nacl, key, server_key, server_key_is_key}
use py_stellar_base.Examples.Keys.{
  client, client_valid, account, server, server_text, server_is_address, account_is_address,
}
use py_stellar_base.Examples.Envelopes.{digest, pack, passphrase, named}

abbrev source : MuxedAccount
source = record { account_id = server; account_id_id = none }

pub source_valid : AccountLaws.IsValid xmodem source
source_valid = record {
  key = server_key;
  is_key = server_key_is_key;
  text = server_text;
  fits = tt;
}

-- 48 bytes of zeros
abbrev value : List ℕ
value = replicate 64 b'A'

abbrev op : ManageData
op = record {
  source = some client;
  data_name = b'a' ∷ b' ' ∷ b'a' ∷ b'u' ∷ b't' ∷ b'h' ∷ [];
  data_value = some (bytes value);
}

op_valid : OperationLaws.IsValid xmodem (manage_data op)
unfolding encode_utf8 encode_char data_value_bytes valid_data_val_len text_length
op_valid = (
  op.data_name,
  some value,
  record {
    source = client_valid;
    points = (
      omega arith,
      (omega arith, (omega arith, (omega arith, (omega arith, (omega arith, tt))))),
    );
    encoded = refl;
    short = refl;
    value_encoded = refl;
  },
  refl,
)

abbrev tx : Transaction
tx = record {
  source = source;
  sequence = pos 0;
  fee = pos 100;
  operations = manage_data op ∷ [];
  memo = none_memo;
  time_bounds = some (record { min_time = pos 3; max_time = pos 9 });
  v1 = true;
}

tx_valid : TransactionLaws.IsValid xmodem tx
tx_valid = record {
  source = source_valid;
  memo = tt;
  time_bounds = inr (omega arith);
  operations = (op_valid, tt);
}

abbrev tx_hash : List ℕ
tx_hash = passphrase ++ (0 ∷ (0 ∷ (0 ∷ (2 ∷ [])))) ++ 1 ∷ []

-- Signed by the server and by the client
abbrev te : TransactionEnvelope
te = record {
  network_id = passphrase;
  signatures =
      record { hint = take_last 4 server_key; signature = server_key ++ tx_hash }
      ∷ record { hint = take_last 4 key; signature = key ++ tx_hash }
      ∷ [];
  transaction = tx;
}

op_form :
    ReadsBackAs
      (Dispatch.to_xdr_object xmodem)
      (Dispatch.from_xdr_object xmodem)
      (manage_data op)
      (manage_data op)
unfolding op_valid
op_form =
    reads_back_as (Dispatch.to_xdr_object xmodem) (Dispatch.from_xdr_object xmodem) (manage_data op)
      (manage_data op) (operation-from_xdr-to_xdr xmodem (manage_data op) op_valid)

hashed :
    hashed_envelope xmodem toy_nacl digest pack te
    ≡ ok (record { hash = tx_hash; signatures = te.signatures })
unfolding hashed_envelope hash signature_base as_v1 Transaction.to_xdr_object xdr_transaction
    map_result
hashed = rw ((muxed-ReadsBack xmodem source source_valid).written, op_form.written) refl

checked : check_transaction (pos 5000000) tx server ≡ ok client
unfolding check_transaction bounds_of as_manage_data manage_data_of client_of value_of times
    b64decode b64_from b64_move b64_digit_move b64_pad_move b64_value
checked = refl

signed :
    verify_te_signed_by_account_id xmodem toy_nacl
      (record { hash = tx_hash; signatures = te.signatures })
      server
    ≡ ok true
unfolding verify_te_signed_by_account_id verify_transaction_signatures match_signers find_signature
    takes used signature_hint verify
signed = rw (from_public_key_lem xmodem server server_is_address)

envelope_form :
    ReadsBackAs
      (Envelope.to_xdr_object xmodem)
      (λ x. Envelope.from_xdr_object xmodem digest x passphrase)
      te
      te
unfolding op_valid tx_valid
envelope_form =
    reads_back_as (Envelope.to_xdr_object xmodem)
      (λ x. Envelope.from_xdr_object xmodem digest x passphrase) te te
      (envelope-from_xdr-to_xdr digest xmodem passphrase te tx_valid named)

accepted :
    read_challenge_transaction xmodem toy_nacl digest pack
      (pos 5000000)
      (envelope envelope_form.form)
      server
      passphrase
    ≡ ok (te, account)
unfolding read_challenge_transaction read_envelope
accepted = rw (envelope_form.read, checked, hashed, signed) refl

read_challenge_transaction-IsRead_example :
    IsRead xmodem toy_nacl digest pack
      (pos 5000000)
      (envelope envelope_form.form)
      server
      passphrase
      te
      account
read_challenge_transaction-IsRead_example =
    read_challenge_transaction-IsRead xmodem toy_nacl digest pack (pos 5000000)
      (envelope envelope_form.form) server passphrase te account accepted

abbrev sent : WebAuth.TransactionEnvelope
sent = record { hash = tx_hash; signatures = te.signatures }

abbrev client_signer : Ed25519PublicKeySigner
client_signer = record { account_id = account; weight = 3 }

abbrev server_signer : Ed25519PublicKeySigner
server_signer = record { account_id = server; weight = 0 }

abbrev found : List Found
found =
    record { signer = client_signer; index = 1 } ∷ record { signer = server_signer; index = 0 } ∷ []

both_found : match_signers xmodem toy_nacl sent [] (client_signer ∷ server_signer ∷ []) ≡ ok found
unfolding match_signers find_signature takes used signature_hint verify
both_found = rw (
  from_public_key_lem xmodem account account_is_address,
  from_public_key_lem xmodem server server_is_address,
)

threshold_accepted :
    verify_threshold xmodem toy_nacl digest pack
      (pos 5000000)
      (envelope envelope_form.form)
      server
      passphrase
      2
      (client_signer ∷ [])
    ≡ ok (client_signer ∷ [])
unfolding verify_threshold verify_signers verify_challenge_transaction_signers
    verify_transaction_signatures split_server signer_in_signers check_found public_key total_weight
threshold_accepted =
    rw (
      accepted,
      hashed,
      from_public_key_lem xmodem server server_is_address,
      server_text,
      both_found,
    )

verify_threshold-IsVerified_example :
    IsVerified xmodem toy_nacl digest pack
      (pos 5000000)
      (envelope envelope_form.form)
      server
      passphrase
      (λ te client.
        Authenticated xmodem toy_nacl te server (client_signer ∷ []) (client_signer ∷ [])
        × (2 ≤ total_weight (client_signer ∷ [])))
verify_threshold-IsVerified_example =
    verify_threshold-IsVerified xmodem toy_nacl digest pack (pos 5000000)
      (envelope envelope_form.form) server passphrase 2 (client_signer ∷ []) (client_signer ∷ [])
      threshold_accepted

signed_by_client : verify_te_signed_by_account_id xmodem toy_nacl sent account ≡ ok true
unfolding verify_te_signed_by_account_id verify_transaction_signatures match_signers find_signature
    takes used signature_hint verify
signed_by_client = rw (from_public_key_lem xmodem account account_is_address)

challenge_accepted :
    verify_challenge xmodem toy_nacl digest pack
      (pos 5000000)
      (envelope envelope_form.form)
      server
      passphrase
    ≡ ok tt
unfolding verify_challenge verify_challenge_transaction
challenge_accepted = rw (accepted, hashed, signed_by_client) refl

verify_challenge-IsVerified_example :
    IsVerified xmodem toy_nacl digest pack
      (pos 5000000)
      (envelope envelope_form.form)
      server
      passphrase
      (λ te client. (k : ℕ) × Signs xmodem toy_nacl te client k)
verify_challenge-IsVerified_example =
    verify_challenge-IsVerified xmodem toy_nacl digest pack (pos 5000000)
      (envelope envelope_form.form) server passphrase challenge_accepted
