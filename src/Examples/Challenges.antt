-- ===== src/Examples/Challenges.antt =====
-- A challenge that its server and one client signed, and the theorems at it.
use py_stellar_base.Prelude.{refl, ℕ, ◌≡◌, List, [], ◌∷◌, ◌++◌, take_last}
use py_stellar_base.Error.{ok}
use py_stellar_base.Keypair.{public_key, signature_hint, verify}
use py_stellar_base.WebAuth.{
  Ed25519PublicKeySigner, TransactionEnvelope, Found, used, signer_in_signers, takes,
  find_signature, match_signers, verify_transaction_signatures, split_server, check_found,
  verify_challenge_transaction_signers,
}
use py_stellar_base.WebAuth.Challenge.{
  Authenticated, verify_challenge_transaction_signers-Authenticated,
}
use py_stellar_base.WebAuth.Acceptance.{HasText}
use py_stellar_base.Examples.{counted, seed}
use py_stellar_base.Examples.Keys.{key_text}
use py_stellar_base.Operation.Sources.{from_public_key_lem}
use py_stellar_base.Examples.{xmodem, toy_nacl, key, server_key}
use py_stellar_base.Examples.Keys.{
  account, server, server_text, account_is_address, server_is_address,
}

abbrev tx_hash : List ℕ
tx_hash = 1 ∷ 2 ∷ 3 ∷ []

abbrev challenge : TransactionEnvelope
challenge = record {
  hash = tx_hash;
  signatures =
      record { hint = take_last 4 server_key; signature = server_key ++ tx_hash }
      ∷ record { hint = take_last 4 key; signature = key ++ tx_hash }
      ∷ [];
}

abbrev client_signer : Ed25519PublicKeySigner
client_signer = record { account_id = account; weight = 3 }

abbrev server_signer : Ed25519PublicKeySigner
server_signer = record { account_id = server; weight = 0 }

abbrev found : List Found
found =
    record { signer = client_signer; index = 1 } ∷ record { signer = server_signer; index = 0 } ∷ []

both_found :
    match_signers xmodem toy_nacl challenge [] (client_signer ∷ server_signer ∷ []) ≡ ok found
unfolding match_signers find_signature takes used signature_hint verify
both_found = rw (
  from_public_key_lem xmodem account account_is_address,
  from_public_key_lem xmodem server server_is_address,
)

accepted :
    verify_challenge_transaction_signers xmodem toy_nacl challenge server (client_signer ∷ [])
    ≡ ok (client_signer ∷ [])
unfolding verify_challenge_transaction_signers verify_transaction_signatures split_server
    signer_in_signers check_found public_key
accepted = rw (from_public_key_lem xmodem server server_is_address, server_text, both_found)

verify_challenge_transaction_signers-Authenticated_example :
    Authenticated xmodem toy_nacl challenge server (client_signer ∷ []) (client_signer ∷ [])
verify_challenge_transaction_signers-Authenticated_example =
    verify_challenge_transaction_signers-Authenticated xmodem toy_nacl challenge server
      (client_signer ∷ []) (client_signer ∷ []) accepted

pub client-HasText : HasText xmodem toy_nacl seed account
unfolding public_key
client-HasText = record {
  size = refl;
  named = from_public_key_lem xmodem account account_is_address;
  text = key_text;
}

pub server-HasText : HasText xmodem toy_nacl (counted 32 99) server
unfolding public_key
server-HasText = record {
  size = refl;
  named = from_public_key_lem xmodem server server_is_address;
  text = server_text;
}
