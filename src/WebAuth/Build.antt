-- ===== src/WebAuth/Build.antt =====
-- build_challenge_transaction of stellar_sdk/sep/stellar_web_authentication.py, to the XDR object.
pub mod RoundTrip
pub mod Reading
pub mod Accepted
use py_stellar_base.Prelude.{ℕ, not, some, false, List, [], ◌∷◌, ◌++◌}
use py_stellar_base.Prelude.Int.{ℤ, pos, negsuc, ◌+ℤ◌}
use py_stellar_base.Error.{Result, ok, value_error, ◌>>=◌, ◌>>◌, require}
use py_stellar_base.Base64.{b64encode}
use py_stellar_base.StrKey.{Crc16, XdrMuxedAccount}
use py_stellar_base.Keypair.{Ed25519, from_secret, public_key}
use py_stellar_base.Memo.{bytes}
use py_stellar_base.Operation as Operation
use py_stellar_base.Transaction.{XdrTransaction}
use py_stellar_base.Envelope
use py_stellar_base.Envelope.{keypair, signature_base, sign, XdrTransactionEnvelope}
use py_stellar_base.Builder.{account, transaction_builder, add_time_bounds, build}
use py_stellar_base.Builder.Append.{append_manage_data_op}
use py_stellar_base.WebAuth.Read.{is_muxed}

-- `"{} auth".format(anchor_name)`
abbrev pub challenge_name : List ℕ → List ℕ
challenge_name anchor_name = anchor_name ++ b' ' ∷ b'a' ∷ b'u' ∷ b't' ∷ b'h' ∷ []

module _ (crc : Crc16) (sha256 : List ℕ → List ℕ) where
  -- The envelope before it is signed. `now` is int(time.time()), `nonce` is os.urandom(48).
  unfoldable pub unsigned_challenge :
      ℤ → List ℕ → List ℕ → List ℕ → List ℕ → List ℕ → ℤ → Result Envelope.TransactionEnvelope
  unsigned_challenge now nonce server client_account_id anchor_name network_passphrase timeout = do
    server_account ← account crc (Operation.address server) (negsuc 0)
    b ←
        add_time_bounds (transaction_builder server_account network_passphrase (pos 100) false) now
          (now +ℤ timeout)
    b ←
        append_manage_data_op crc b (challenge_name anchor_name) (some (bytes (b64encode nonce)))
          (some (Operation.address client_account_id))
    r ← build crc sha256 b
    ok (r.0)

  module _ (nacl : Ed25519) (pack : XdrTransaction XdrMuxedAccount → Result (List ℕ)) where
    unfoldable pub build_challenge_transaction :
        ℤ → List ℕ → List ℕ → List ℕ → List ℕ → List ℕ → ℤ → Result XdrTransactionEnvelope
    unfolding unsigned_challenge
    build_challenge_transaction now nonce server_secret client_account_id anchor_name
          network_passphrase timeout =
        do
          require (not (is_muxed client_account_id)) value_error
          server_keypair ← from_secret nacl crc server_secret
          server ← public_key crc server_keypair
          te ←
              unsigned_challenge now nonce server client_account_id anchor_name network_passphrase
                timeout
          signed ← sign sha256 (signature_base crc pack) crc nacl te (keypair server_keypair)
          Envelope.to_xdr_object crc signed
