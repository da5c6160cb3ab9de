-- ===== src/WebAuth.antt =====
-- stellar_sdk/sep/stellar_web_authentication.py, from the envelope that read_challenge_transaction
-- returns: which signers signed it. And stellar_sdk/sep/ed25519_public_key_signer.py.
pub mod Signatures
pub mod Accounts
pub mod Clients
pub mod Challenge
pub mod Acceptance
pub mod Read
pub mod Build
use py_stellar_base.Prelude.{
  ℕ, zero, suc, ◌+◌, Bool, true, false, not, ◌&&◌, ◌||◌, Option, none, some, List, [], ◌∷◌, ◌++◌,
  map, ltb, ◌==◌, list_eq, length,
}
use py_stellar_base.Error.{Result, ok, err, invalid_challenge, ◌>>=◌, ◌>>◌, require, succeeds}
use py_stellar_base.StrKey.{Crc16}
use py_stellar_base.Keypair.{
  Ed25519, Keypair, DecoratedSignature, from_public_key, public_key, signature_hint, verify,
}

-- The weight of a signer is from 0 to 255.
pub record Ed25519PublicKeySigner : Type 0 where
  pub account_id : List ℕ
  pub weight : ℕ

-- What the code reads of a TransactionEnvelope: `hash()` and `signatures`.
pub record TransactionEnvelope : Type 0 where
  pub hash : List ℕ
  pub signatures : List DecoratedSignature

-- `index in signature_used`
unfoldable pub used : ℕ → List ℕ → Bool
used i [] = false
used i (j ∷ js) = i == j || used i js

-- `_signer_in_signers`
unfoldable pub signer_in_signers : Ed25519PublicKeySigner → List Ed25519PublicKeySigner → Bool
signer_in_signers signer [] = false
signer_in_signers signer (s ∷ signers) =
    list_eq s.account_id signer.account_id || signer_in_signers signer signers

-- Whether the inner loop takes a signature: not used, the hint of the key, and it verifies.
unfoldable pub takes : Ed25519 → Keypair → List ℕ → List ℕ → ℕ → DecoratedSignature → Bool
takes nacl kp tx_hash signature_used index d =
    not (used index signature_used)
    && list_eq d.hint (signature_hint kp)
    && succeeds (verify nacl kp tx_hash d.signature)

-- The inner loop of `_verify_transaction_signatures`, up to its break: the index that is taken.
unfoldable pub find_signature :
    Ed25519 → Keypair → List ℕ → List ℕ → ℕ → List DecoratedSignature → Option ℕ
find_signature nacl kp tx_hash signature_used index [] = none
find_signature nacl kp tx_hash signature_used index (d ∷ rest) =
    elim (takes nacl kp tx_hash signature_used index d) [
      | true ↦ some index
      | false ↦ find_signature nacl kp tx_hash signature_used (suc index) rest
    ]

-- A signer that was found, with the index that was added to `signature_used` for it.
pub record Found : Type 0 where
  pub signer : Ed25519PublicKeySigner
  pub index : ℕ

-- The loop over `all_signers_found`: whether the server is one, and the others without repeats.
unfoldable pub split_server :
    List ℕ
    → List Ed25519PublicKeySigner
    → Bool
    → List Ed25519PublicKeySigner
    → Bool × List Ed25519PublicKeySigner
unfolding signer_in_signers
split_server server [] server_signer_found signers_found = (server_signer_found, signers_found)
split_server server (signer ∷ rest) server_signer_found signers_found =
    elim (list_eq signer.account_id server) [
      | true ↦ split_server server rest true signers_found
      | false ↦ elim (signer_in_signers signer signers_found) [
        | true ↦ split_server server rest server_signer_found signers_found
        | false ↦ split_server server rest server_signer_found (signers_found ++ signer ∷ [])
      ]
    ]

unfoldable pub check_found :
    TransactionEnvelope
    → List Ed25519PublicKeySigner
    → Bool
    → List Ed25519PublicKeySigner
    → Result (List Ed25519PublicKeySigner)
check_found te all_signers_found server_signer_found signers_found = do
  require server_signer_found invalid_challenge
  require (not (length signers_found == 0)) invalid_challenge
  require (length all_signers_found == length te.signatures) invalid_challenge
  ok signers_found

unfoldable pub total_weight : List Ed25519PublicKeySigner → ℕ
total_weight [] = 0
total_weight (s ∷ signers) = s.weight + total_weight signers

module _ (crc : Crc16) (nacl : Ed25519) where
  -- The outer loop: each signer found with its signature, in the order of the signers.
  unfoldable pub match_signers :
      TransactionEnvelope → List ℕ → List Ed25519PublicKeySigner → Result (List Found)
  match_signers te signature_used [] = ok []
  match_signers te signature_used (signer ∷ signers) = do
    kp ← from_public_key crc signer.account_id
    elim (find_signature nacl kp te.hash signature_used 0 te.signatures) [
      | none ↦ match_signers te signature_used signers
      | some index ↦ (do
        found ← match_signers te (index ∷ signature_used) signers
        ok (record { signer = signer; index = index } ∷ found))
    ]

  -- `_verify_transaction_signatures`
  unfoldable pub verify_transaction_signatures :
      TransactionEnvelope → List Ed25519PublicKeySigner → Result (List Ed25519PublicKeySigner)
  unfolding match_signers
  verify_transaction_signatures te signers = do
    require (not (length te.signatures == 0)) invalid_challenge
    found ← match_signers te [] signers
    ok (map Found.signer found)

  -- `_verify_te_signed_by_account_id`
  unfoldable pub verify_te_signed_by_account_id : TransactionEnvelope → List ℕ → Result Bool
  unfolding verify_transaction_signatures
  verify_te_signed_by_account_id te account_id = do
    found ← verify_transaction_signatures te (record { account_id = account_id; weight = 0 } ∷ [])
    ok (not (length found == 0))

  -- The end of `verify_challenge_transaction`, for the client account that was read
  unfoldable pub verify_challenge_transaction : TransactionEnvelope → List ℕ → Result (Unit {0})
  unfolding verify_te_signed_by_account_id
  verify_challenge_transaction te client_account_id = do
    signed ← verify_te_signed_by_account_id te client_account_id
    require signed invalid_challenge

  -- `verify_challenge_transaction_signers` after the challenge was read (`verify_signers` of Read has the
  -- whole of it). No Ed25519PublicKeySigner equals a str, so the test `signer == server_keypair.public_key`
  -- leaves every signer in `client_signers`.
  unfoldable pub verify_challenge_transaction_signers :
      TransactionEnvelope
      → List ℕ
      → List Ed25519PublicKeySigner
      → Result (List Ed25519PublicKeySigner)
  unfolding verify_transaction_signatures split_server check_found
  verify_challenge_transaction_signers te server_account_id signers = do
    server_keypair ← from_public_key crc server_account_id
    server ← public_key crc server_keypair
    all_signers_found ←
        verify_transaction_signatures te
          (signers ++ record { account_id = server; weight = 0 } ∷ [])
    let (server_signer_found, signers_found) = split_server server all_signers_found false []
    check_found te all_signers_found server_signer_found signers_found
