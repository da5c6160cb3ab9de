-- ===== src/WebAuth/Read.antt =====
-- read_challenge_transaction of stellar_sdk/sep/stellar_web_authentication.py, of an unpacked XDR object, and
-- the functions that read a challenge before they verify it.
pub mod Accepted
pub mod Verified
use py_stellar_base.Prelude.{
  ℕ, Bool, true, false, not, ◌&&◌, ◌||◌, Option, none, some, List, [], ◌∷◌, length, ltb, ◌==◌,
  list_eq,
}
use py_stellar_base.Prelude.Int.{ℤ, pos, ◌==ℤ◌, ltb_ℤ}
use py_stellar_base.Error.{
  Result, ok, err, value_error, invalid_challenge, builtin_type_error, ◌>>=◌, ◌>>◌, require,
  or_raise,
}
use py_stellar_base.Base64.{b64decode}
use py_stellar_base.StrKey.{Crc16, XdrMuxedAccount}
use py_stellar_base.Keypair.{Ed25519}
use py_stellar_base.Memo.{Text, str, bytes}
use py_stellar_base.MuxedAccount.{MuxedAccount}
use py_stellar_base.TimeBounds.{TimeBounds}
use py_stellar_base.Operation.ManageData.{ManageData}
use py_stellar_base.Operation.Dispatch.{AnyOperation, manage_data}
use py_stellar_base.Transaction.{Transaction, XdrTransaction}
use py_stellar_base.Envelope
use py_stellar_base.Envelope.{signature_base, hash}
use py_stellar_base.FeeBump.{times, XdrEnvelope, envelope, envelope_fee_bump, envelope_unknown}
use py_stellar_base.WebAuth
use py_stellar_base.WebAuth.{Ed25519PublicKeySigner, total_weight, verify_te_signed_by_account_id}

-- `startswith("M")`
abbrev pub is_muxed : List ℕ → Bool
is_muxed [] = false
is_muxed (c ∷ cs) = c == b'M'

unfoldable pub bounds_of : Option TimeBounds → Result TimeBounds
bounds_of none = err invalid_challenge
bounds_of (some t) = ok t

-- The one operation, if it is a ManageData
unfoldable pub as_manage_data : AnyOperation → Result ManageData
as_manage_data (manage_data op) = ok op
as_manage_data op = err invalid_challenge

unfoldable pub manage_data_of : List AnyOperation → Result ManageData
unfolding as_manage_data
manage_data_of [] = err invalid_challenge
manage_data_of (op ∷ []) = as_manage_data op
manage_data_of (op ∷ (next ∷ ops)) = err invalid_challenge

unfoldable pub client_of : Option MuxedAccount → Result MuxedAccount
client_of none = err invalid_challenge
client_of (some m) = ok m

-- `len(None)` raises; a value that was read is bytes.
unfoldable pub value_of : Option Text → Result (List ℕ)
value_of none = err builtin_type_error
value_of (some (str s)) = ok s
value_of (some (bytes b)) = ok b

-- `now` is time.time() in millionths of a second.
unfoldable pub check_transaction : ℤ → Transaction → List ℕ → Result MuxedAccount
unfolding bounds_of manage_data_of client_of value_of
check_transaction now tx server_account_id = do
  require (list_eq tx.source.account_id server_account_id) invalid_challenge
  require (tx.sequence ==ℤ pos 0) invalid_challenge
  bounds ← bounds_of tx.time_bounds
  require (not (bounds.max_time ==ℤ pos 0)) invalid_challenge
  require
      (not (ltb_ℤ now (times bounds.min_time 1000000) || ltb_ℤ (times bounds.max_time 1000000) now))
      invalid_challenge
  op ← manage_data_of tx.operations
  client_account ← client_of op.source
  value ← value_of op.data_value
  require (length value == 64) invalid_challenge
  nonce ← b64decode value
  require (length nonce == 48) invalid_challenge
  ok client_account

-- The object as a TransactionEnvelope, or not at all
unfoldable pub read_envelope :
    Crc16 → (List ℕ → List ℕ) → XdrEnvelope → List ℕ → Result Envelope.TransactionEnvelope
read_envelope crc sha256 (envelope_fee_bump x signatures) network_passphrase = err value_error
read_envelope crc sha256 (envelope_unknown type) network_passphrase = err invalid_challenge
read_envelope crc sha256 (envelope x) network_passphrase =
    or_raise (Envelope.from_xdr_object crc sha256 x network_passphrase) invalid_challenge

module _ (crc : Crc16) (nacl : Ed25519) (sha256 : List ℕ → List ℕ)
    (pack : XdrTransaction XdrMuxedAccount → Result (List ℕ)) where
  -- The envelope as the verification reads it. The code takes the hash after the test that there are
  -- signatures, and again for each check.
  unfoldable pub hashed_envelope : Envelope.TransactionEnvelope → Result WebAuth.TransactionEnvelope
  hashed_envelope te = do
    tx_hash ← hash sha256 (signature_base crc pack) te
    ok (record { hash = tx_hash; signatures = te.signatures })

  unfoldable pub read_challenge_transaction :
      ℤ → XdrEnvelope → List ℕ → List ℕ → Result (Envelope.TransactionEnvelope × List ℕ)
  unfolding check_transaction read_envelope hashed_envelope
  read_challenge_transaction now x server_account_id network_passphrase = do
    require (not (is_muxed server_account_id)) value_error
    te ← read_envelope crc sha256 x network_passphrase
    client_account ← check_transaction now te.transaction server_account_id
    hashed ← hashed_envelope te
    signed ← verify_te_signed_by_account_id crc nacl hashed server_account_id
    require signed invalid_challenge
    ok (te, client_account.account_id)

  -- `verify_challenge_transaction_signers` from its first line
  unfoldable pub verify_signers :
      ℤ
      → XdrEnvelope
      → List ℕ
      → List ℕ
      → List Ed25519PublicKeySigner
      → Result (List Ed25519PublicKeySigner)
  unfolding read_challenge_transaction
  verify_signers now x server_account_id network_passphrase signers = do
    require (not (length signers == 0)) invalid_challenge
    r ← read_challenge_transaction now x server_account_id network_passphrase
    hashed ← hashed_envelope (r.0)
    WebAuth.verify_challenge_transaction_signers crc nacl hashed server_account_id signers

  -- `verify_challenge_transaction_threshold` from its first line
  unfoldable pub verify_threshold :
      ℤ
      → XdrEnvelope
      → List ℕ
      → List ℕ
      → ℕ
      → List Ed25519PublicKeySigner
      → Result (List Ed25519PublicKeySigner)
  unfolding verify_signers
  verify_threshold now x server_account_id network_passphrase threshold signers = do
    signers_found ← verify_signers now x server_account_id network_passphrase signers
    require (not (ltb (total_weight signers_found) threshold)) invalid_challenge
    ok signers_found

  -- `verify_challenge_transaction` from its first line
  unfoldable pub verify_challenge : ℤ → XdrEnvelope → List ℕ → List ℕ → Result (Unit {0})
  unfolding read_challenge_transaction
  verify_challenge now x server_account_id network_passphrase = do
    r ← read_challenge_transaction now x server_account_id network_passphrase
    hashed ← hashed_envelope (r.0)
    WebAuth.verify_challenge_transaction crc nacl hashed (r.1)
