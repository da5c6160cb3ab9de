-- ===== src/WebAuth/Build/Accepted.antt =====
-- From build_challenge_transaction to verify_challenge_transaction_threshold of the challenge that its client
-- signed and sent back.
use py_stellar_base.Prelude.{
  ℕ, ◌+◌, ◌*◌, ◌≤◌, ◌≡◌, refl, arith, inl, inr, Bool-cases, false, some, List, [], ◌∷◌, ltb,
  list_eq, list_eq_sound,
}
use py_stellar_base.Prelude.Int.{pos}
use py_stellar_base.Error.{Result, ok, ◌>>=◌}
use py_stellar_base.StrKey.{Crc16, XdrMuxedAccount}
use py_stellar_base.Keypair.{Ed25519, Keypair, DecoratedSignature, sign_decorated}
use py_stellar_base.Keypair as Keypair
use py_stellar_base.Transaction.{XdrTransaction}
use py_stellar_base.Transaction.RoundTrip.{ReadsBackAs}
use py_stellar_base.Envelope
use py_stellar_base.Envelope.{
  TransactionEnvelope, signature_base, hash, keypair, sign, signer_keypair, add_signature,
  has_signature,
}
use py_stellar_base.FeeBump.{envelope}
use py_stellar_base.WebAuth.{Ed25519PublicKeySigner, total_weight}
use py_stellar_base.WebAuth.Acceptance.{
  HasText, signed_by, keypair_of, verify_challenge_transaction_signers-signed_challenge,
}
use py_stellar_base.WebAuth.Read.{is_muxed, verify_signers, verify_threshold}
use py_stellar_base.WebAuth.Build.{build_challenge_transaction}
use py_stellar_base.WebAuth.Build.RoundTrip.{IsReady, challenge_te}
use py_stellar_base.WebAuth.Build.Reading.{
  IsServer, with_signatures, hashed_lem, form, build_lem, read_lem,
}

list_eq-false_comm : (s t : List ℕ) → list_eq s t ≡ false → list_eq t s ≡ false
list_eq-false_comm s t h = elim (Bool-cases (list_eq t s)) [
  | inl e ↦ cc (list_eq_sound t s e, h)
  | inr e ↦ e
]

weight_enough : (w threshold : ℕ) → threshold ≤ w → ltb (w + 0) threshold ≡ false
weight_enough w threshold h = ground arith

-- What the client does with the challenge that it is sent: it reads it, signs it and writes it again.
abbrev pub answer :
    (crc : Crc16) (nacl : Ed25519) (sha256 : List ℕ → List ℕ)
    (pack : XdrTransaction XdrMuxedAccount → Result (List ℕ)) (passphrase : List ℕ)
    → Keypair
    → Envelope.XdrTransactionEnvelope
    → Result Envelope.XdrTransactionEnvelope
answer crc nacl sha256 pack passphrase kp x = do
  te ← Envelope.from_xdr_object crc sha256 x passphrase
  signed ← sign sha256 (signature_base crc pack) crc nacl te (keypair kp)
  Envelope.to_xdr_object crc signed

module _ (crc : Crc16) (nacl : Ed25519) (sha256 : List ℕ → List ℕ)
    (pack : XdrTransaction XdrMuxedAccount → Result (List ℕ)) (now timeout : ℕ)
    (nonce secret seed server client_seed client anchor passphrase id tx_hash : List ℕ)
    (ready : IsReady crc sha256 timeout nonce server client anchor passphrase id)
    (owner : IsServer crc nacl secret seed server) (signer : HasText crc nacl client_seed client)
    (server_plain : is_muxed server ≡ false) (client_plain : is_muxed client ≡ false)
    (apart : list_eq
        (Keypair.signature_hint (keypair_of nacl seed))
        (Keypair.signature_hint (keypair_of nacl client_seed))
      ≡ false)
    (hashed : hash sha256
        (signature_base crc pack)
        (challenge_te now timeout nonce server client anchor id)
      ≡ ok tx_hash) where
  abbrev te : TransactionEnvelope
  te = challenge_te now timeout nonce server client anchor id

  abbrev by_server : List DecoratedSignature
  by_server = signed_by nacl tx_hash seed ∷ []

  abbrev by_both : List DecoratedSignature
  by_both = signed_by nacl tx_hash seed ∷ signed_by nacl tx_hash client_seed ∷ []

  abbrev parts :
      (sigs : List DecoratedSignature)
      → ReadsBackAs
          (Envelope.to_xdr_object crc)
          (λ x. Envelope.from_xdr_object crc sha256 x passphrase)
          (with_signatures te sigs)
          (with_signatures te sigs)
  parts =
      form crc nacl sha256 pack now timeout nonce secret seed server client anchor passphrase id
        tx_hash ready owner server_plain client_plain hashed

  abbrev sent : List DecoratedSignature → Envelope.XdrTransactionEnvelope
  sent sigs =
      (form crc nacl sha256 pack now timeout nonce secret seed server client anchor passphrase id
        tx_hash ready owner server_plain client_plain hashed sigs).form

  client_signs :
      sign sha256 (signature_base crc pack) crc nacl (with_signatures te by_server) (
        keypair
          (record { verify_key = nacl.verify_key_of client_seed; signing_key = some client_seed }))
      ≡ ok (with_signatures te by_both)
  unfolding sign signer_keypair sign_decorated Keypair.sign Keypair.sign_of Keypair.signature_hint
      add_signature has_signature hash
  client_signs = rw (hashed, list_eq-false_comm _ _ apart) refl

  answered :
      answer crc nacl sha256 pack passphrase
        (record { verify_key = nacl.verify_key_of client_seed; signing_key = some client_seed })
        (sent by_server)
      ≡ ok (sent by_both)
  answered = rw ((parts by_server).read, client_signs, (parts by_both).written) refl

  verified :
      (m weight threshold : ℕ)
      → now * 1000000 ≤ m
      → m ≤ (now + timeout) * 1000000
      → threshold ≤ weight
      → let one : List Ed25519PublicKeySigner =
          record { account_id = client; weight = weight } ∷ [] in
        verify_threshold crc nacl sha256 pack
          (pos m)
          (envelope (sent by_both))
          server
          passphrase
          threshold
          one
        ≡ ok one
  unfolding verify_threshold verify_signers total_weight
  verified m weight threshold begun not_over reached =
      rw
        (
          read_lem crc nacl sha256 pack now timeout nonce secret seed server client anchor
              passphrase id tx_hash ready owner server_plain client_plain hashed m
              (signed_by nacl tx_hash client_seed ∷ []) begun not_over,
          hashed_lem crc nacl sha256 pack now timeout nonce secret seed server client anchor
              passphrase id tx_hash ready owner server_plain client_plain hashed by_both,
          verify_challenge_transaction_signers-signed_challenge crc nacl tx_hash seed server
              client_seed client weight owner.has_text signer apart,
          weight_enough weight threshold reached,
        )
        refl

  -- A challenge that a server builds for a client, neither of them a muxed account, and that the client signs, is
  -- accepted by that server for that client, at any time from its making to its timeout, for every threshold that
  -- the client's weight reaches. The arguments are valid (IsReady, IsServer, HasText), the hints of the two keys
  -- differ, and the transaction has a hash.
  pub verify_threshold-build_challenge_transaction :
      (m weight threshold : ℕ)
      → now * 1000000 ≤ m
      → m ≤ (now + timeout) * 1000000
      → threshold ≤ weight
      → let one : List Ed25519PublicKeySigner =
          record { account_id = client; weight = weight } ∷ [] in
        (do
          x ←
              build_challenge_transaction crc sha256 nacl pack
                (pos now)
                nonce
                secret
                client
                anchor
                passphrase
                (pos timeout)
          y ←
              answer crc nacl sha256 pack passphrase
                (record {
                  verify_key = nacl.verify_key_of client_seed;
                  signing_key = some client_seed;
                })
                x
          verify_threshold crc nacl sha256 pack
              (pos m)
              (envelope y)
              server
              passphrase
              threshold
              one)
        ≡ ok one
  verify_threshold-build_challenge_transaction m weight threshold begun not_over reached =
      rw
        (
          build_lem crc nacl sha256 pack now timeout nonce secret seed server client anchor
              passphrase id tx_hash ready owner server_plain client_plain hashed,
          answered,
          verified m weight threshold begun not_over reached,
        )
        refl
