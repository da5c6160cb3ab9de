-- ===== src/WebAuth/Read/Verified.antt =====
-- The checks of stellar_sdk/sep/stellar_web_authentication.py as a caller starts them, from the XDR object on.
use mathlib.Core.Path.{subst}
use py_stellar_base.Prelude.{ℕ, ◌≤◌, ◌≡◌, ◌∙◌, ap, not, List, length, ◌==◌, ltb}
use py_stellar_base.Prelude.Int.{ℤ}
use py_stellar_base.Error.{
  Result, ok, invalid_challenge, require, >>=-eq-ok, require-eq-ok, ok-injective,
}
use py_stellar_base.StrKey.{Crc16, XdrMuxedAccount}
use py_stellar_base.Keypair.{Ed25519}
use py_stellar_base.Transaction.{XdrTransaction}
use py_stellar_base.Envelope
use py_stellar_base.FeeBump.{XdrEnvelope}
use py_stellar_base.WebAuth
use py_stellar_base.WebAuth.{
  Ed25519PublicKeySigner, total_weight, verify_te_signed_by_account_id,
  verify_challenge_transaction,
}
use py_stellar_base.WebAuth.Signatures.{Signs}
use py_stellar_base.WebAuth.Clients.{not-ltb}
use py_stellar_base.WebAuth.Challenge.{
  Authenticated, verify_challenge_transaction_signers-Authenticated,
}
use py_stellar_base.WebAuth.Read.{
  hashed_envelope, read_challenge_transaction, verify_signers, verify_threshold, verify_challenge,
}
use py_stellar_base.WebAuth.Read.Accepted.{
  IsRead, read_challenge_transaction-IsRead, verify_te_signed_by_account_id-Signs,
}

-- A challenge that was read, and what holds of its envelope with the hash of its transaction.
pub record IsVerified (crc : Crc16) (nacl : Ed25519) (sha256 : List ℕ → List ℕ)
    (pack : XdrTransaction XdrMuxedAccount → Result (List ℕ)) (now : ℤ) (x : XdrEnvelope)
    (server passphrase : List ℕ) (P : WebAuth.TransactionEnvelope → List ℕ → Type 0) : Type 0 where
  pub te : Envelope.TransactionEnvelope
  pub client_account_id : List ℕ
  pub read : IsRead crc nacl sha256 pack now x server passphrase te client_account_id
  pub hashed : WebAuth.TransactionEnvelope
  pub hash : hashed_envelope crc nacl sha256 pack te ≡ ok hashed
  pub verified : P hashed client_account_id

module _ (crc : Crc16) (nacl : Ed25519) (sha256 : List ℕ → List ℕ)
    (pack : XdrTransaction XdrMuxedAccount → Result (List ℕ)) (now : ℤ) (x : XdrEnvelope)
    (server passphrase : List ℕ) where
  verify_signers-IsVerified :
      (signers clients : List Ed25519PublicKeySigner)
      → verify_signers crc nacl sha256 pack now x server passphrase signers ≡ ok clients
      → IsVerified crc nacl sha256 pack now x server passphrase
          (λ te client. Authenticated crc nacl te server signers clients)
  unfolding verify_signers
  verify_signers-IsVerified signers clients h =
      let (_, _, h1) = >>=-eq-ok (require (not (length signers == 0)) invalid_challenge) _ h in
      let (r, is_read, h2) =
        >>=-eq-ok (read_challenge_transaction crc nacl sha256 pack now x server passphrase) _ h1 in
      let (hashed, hash, h3) = >>=-eq-ok (hashed_envelope crc nacl sha256 pack (r.0)) _ h2 in
      record {
        te = r.0;
        client_account_id = r.1;
        read =
            read_challenge_transaction-IsRead crc nacl sha256 pack now x server passphrase (r.0)
              (r.1) is_read;
        hashed = hashed;
        hash = hash;
        verified =
            verify_challenge_transaction_signers-Authenticated crc nacl hashed server signers
              clients h3;
      }

  -- When verify_challenge_transaction_threshold returns signers for a challenge as it was sent, the challenge reads
  -- as one of the server that is valid now, the signers are authenticated for the hash of its transaction in this
  -- network, by signatures of its envelope, and their weights sum to at least the threshold.
  pub verify_threshold-IsVerified :
      (threshold : ℕ) (signers clients : List Ed25519PublicKeySigner)
      → verify_threshold crc nacl sha256 pack now x server passphrase threshold signers ≡ ok clients
      → IsVerified crc nacl sha256 pack now x server passphrase (λ te client.
        Authenticated crc nacl te server signers clients × (threshold ≤ total_weight clients))
  unfolding verify_threshold
  verify_threshold-IsVerified threshold signers clients h =
      let (found, accepted, h1) =
        >>=-eq-ok (verify_signers crc nacl sha256 pack now x server passphrase signers) _ h in
      let (_, weighed, h2) =
        >>=-eq-ok (require (not (ltb (total_weight found) threshold)) invalid_challenge) _ h1 in
      let same = ok-injective h2 in
      let v = verify_signers-IsVerified signers clients (accepted ∙ ap ok same) in
      record {
        te = v.te;
        client_account_id = v.client_account_id;
        read = v.read;
        hashed = v.hashed;
        hash = v.hash;
        verified = (
          v.verified,
          subst (λ c. threshold ≤ total_weight c) same
              (not-ltb (total_weight found) threshold (require-eq-ok _ _ weighed)),
        );
      }

  -- When verify_challenge_transaction accepts a challenge as it was sent, the challenge reads as one of the server
  -- that is valid now, and a signature of its envelope is the client's, over the hash of its transaction in this
  -- network.
  pub verify_challenge-IsVerified :
      verify_challenge crc nacl sha256 pack now x server passphrase ≡ ok tt
      → IsVerified crc nacl sha256 pack now x server passphrase
          (λ te client. (k : ℕ) × Signs crc nacl te client k)
  unfolding verify_challenge verify_challenge_transaction
  verify_challenge-IsVerified h =
      let (r, is_read, h1) =
        >>=-eq-ok (read_challenge_transaction crc nacl sha256 pack now x server passphrase) _ h in
      let (hashed, hash, h2) = >>=-eq-ok (hashed_envelope crc nacl sha256 pack (r.0)) _ h1 in
      let (signed, by, h3) =
        >>=-eq-ok (verify_te_signed_by_account_id crc nacl hashed (r.1)) _ h2 in
      record {
        te = r.0;
        client_account_id = r.1;
        read =
            read_challenge_transaction-IsRead crc nacl sha256 pack now x server passphrase (r.0)
              (r.1) is_read;
        hashed = hashed;
        hash = hash;
        verified =
            verify_te_signed_by_account_id-Signs crc nacl hashed (r.1)
              (by ∙ ap ok (require-eq-ok signed invalid_challenge h3));
      }
