-- ===== src/WebAuth/Build/Reading.antt =====
-- From build_challenge_transaction to read_challenge_transaction of the same challenge.
use py_stellar_base.Prelude.{
  ℕ, ◌+◌, ◌*◌, ◌≤◌, ◌≡◌, refl, arith, length, ◌==◌, ap, ◌∙◌, true, false, some, List, [], ◌∷◌,
}
use py_stellar_base.Prelude.Int.{pos}
use py_stellar_base.Error.{Result, ok, ◌>>=◌}
use py_stellar_base.StrKey.{Crc16, XdrMuxedAccount}
use py_stellar_base.Keypair.{Ed25519, DecoratedSignature, from_secret, public_key, sign_decorated}
use py_stellar_base.Keypair as Keypair
use py_stellar_base.Transaction.{XdrTransaction}
use py_stellar_base.Transaction.RoundTrip.{ReadsBackAs, reads_back_as}
use py_stellar_base.Envelope
use py_stellar_base.Envelope.{
  TransactionEnvelope, signature_base, hash, keypair, sign, signer_keypair, add_signature,
  has_signature,
}
use py_stellar_base.Envelope.RoundTrip.{envelope-from_xdr-to_xdr}
use py_stellar_base.FeeBump.{envelope}
use py_stellar_base.WebAuth
use py_stellar_base.WebAuth.{
  match_signers, verify_transaction_signatures, verify_te_signed_by_account_id,
}
use py_stellar_base.WebAuth.Acceptance.{
  HasText, signed_by, keypair_of, takes_own, find_first, match_step,
}
use py_stellar_base.WebAuth.Read.{
  is_muxed, read_envelope, hashed_envelope, read_challenge_transaction,
}
use py_stellar_base.WebAuth.Build.{build_challenge_transaction}
use py_stellar_base.WebAuth.Build.RoundTrip.{
  IsReady, challenge_te, challenge_tx_valid, sent_back-challenge_tx, unsigned_challenge_lem,
  check_transaction-challenge_tx,
}

-- A server's secret, with the text of its public key.
pub record IsServer (crc : Crc16) (nacl : Ed25519) (secret seed server : List ℕ) : Type 0 where
  pub opened :
      from_secret nacl crc secret
      ≡ ok (record { verify_key = nacl.verify_key_of seed; signing_key = some seed })
  pub has_text : HasText crc nacl seed server

-- The envelope of a challenge with the server's signature over its hash.
abbrev pub signed_te : Ed25519 → TransactionEnvelope → List ℕ → List ℕ → TransactionEnvelope
signed_te nacl te tx_hash seed = record te { signatures = signed_by nacl tx_hash seed ∷ [] }

-- The same with other signatures
abbrev pub with_signatures : TransactionEnvelope → List DecoratedSignature → TransactionEnvelope
with_signatures te sigs = record te { signatures = sigs }

-- The server is found whatever signatures follow its own.
signed_by_server :
    (crc : Crc16) (nacl : Ed25519) (seed server tx_hash : List ℕ) (more : List DecoratedSignature)
    → HasText crc nacl seed server
    → verify_te_signed_by_account_id crc nacl
        (record { hash = tx_hash; signatures = signed_by nacl tx_hash seed ∷ more })
        server
      ≡ ok true
unfolding verify_te_signed_by_account_id verify_transaction_signatures
signed_by_server crc nacl seed server tx_hash more text =
    let signed : WebAuth.TransactionEnvelope = record {
      hash = tx_hash;
      signatures = signed_by nacl tx_hash seed ∷ more;
    } in
    let some_signature : (length signed.signatures == 0) ≡ false = ground arith in
    rw
      (
        some_signature,
        match_step crc nacl signed [] (record { account_id = server; weight = 0 }) []
            (keypair_of nacl seed) 0 [] text.named
            (find_first nacl (keypair_of nacl seed) tx_hash [] (signed_by nacl tx_hash seed) more
              (takes_own nacl tx_hash [] seed 0 text.size (unfold WebAuth.used in refl)))
            (unfold match_signers in refl),
      )
      refl

module _ (crc : Crc16) (nacl : Ed25519) (sha256 : List ℕ → List ℕ)
    (pack : XdrTransaction XdrMuxedAccount → Result (List ℕ)) (now timeout : ℕ)
    (nonce secret seed server client anchor passphrase id tx_hash : List ℕ)
    (ready : IsReady crc sha256 timeout nonce server client anchor passphrase id)
    (owner : IsServer crc nacl secret seed server) (server_plain : is_muxed server ≡ false)
    (client_plain : is_muxed client ≡ false)
    (hashed : hash sha256
        (signature_base crc pack)
        (challenge_te now timeout nonce server client anchor id)
      ≡ ok tx_hash) where
  sign_lem :
      sign sha256
        (signature_base crc pack)
        crc
        nacl
        (challenge_te now timeout nonce server client anchor id)
        (keypair (record { verify_key = nacl.verify_key_of seed; signing_key = some seed }))
      ≡ ok (signed_te nacl (challenge_te now timeout nonce server client anchor id) tx_hash seed)
  unfolding sign signer_keypair sign_decorated Keypair.sign Keypair.sign_of Keypair.signature_hint
      add_signature has_signature
  sign_lem = rw hashed refl

  pub hashed_lem :
      (sigs : List DecoratedSignature)
      → hashed_envelope crc nacl sha256 pack
          (with_signatures (challenge_te now timeout nonce server client anchor id) sigs)
        ≡ ok (record { hash = tx_hash; signatures = sigs })
  unfolding hashed_envelope hash
  hashed_lem sigs = rw hashed refl

  pub form :
      (sigs : List DecoratedSignature)
      → ReadsBackAs
          (Envelope.to_xdr_object crc)
          (λ x. Envelope.from_xdr_object crc sha256 x passphrase)
          (with_signatures (challenge_te now timeout nonce server client anchor id) sigs)
          (with_signatures (challenge_te now timeout nonce server client anchor id) sigs)
  form sigs =
      let te = with_signatures (challenge_te now timeout nonce server client anchor id) sigs in
      reads_back_as (Envelope.to_xdr_object crc)
        (λ x. Envelope.from_xdr_object crc sha256 x passphrase) te te
        (envelope-from_xdr-to_xdr sha256 crc passphrase te
            (challenge_tx_valid crc sha256 now timeout nonce server client anchor passphrase id
              ready)
            ready.network
          ∙ ap (λ tx. ok (record te { transaction = tx }))
              (sent_back-challenge_tx crc sha256 now timeout nonce server client anchor passphrase
                id ready))

  pub build_lem :
      build_challenge_transaction crc sha256 nacl pack
        (pos now)
        nonce
        secret
        client
        anchor
        passphrase
        (pos timeout)
      ≡ ok (form (signed_by nacl tx_hash seed ∷ [])).form
  unfolding build_challenge_transaction public_key
  build_lem =
      rw
        (
          client_plain,
          owner.opened,
          owner.has_text.text,
          unsigned_challenge_lem crc sha256 now timeout nonce server client anchor passphrase id
              ready,
          sign_lem,
          (form (signed_by nacl tx_hash seed ∷ [])).written,
        )
        refl

  -- A challenge that has more signatures after the server's is read in the same way.
  pub read_lem :
      (m : ℕ) (more : List DecoratedSignature)
      → now * 1000000 ≤ m
      → m ≤ (now + timeout) * 1000000
      → let sigs = signed_by nacl tx_hash seed ∷ more in
        read_challenge_transaction crc nacl sha256 pack
          (pos m)
          (envelope (form sigs).form)
          server
          passphrase
        ≡ ok (with_signatures (challenge_te now timeout nonce server client anchor id) sigs, client)
  unfolding read_challenge_transaction read_envelope
  read_lem m more begun not_over =
      let sigs = signed_by nacl tx_hash seed ∷ more in
      rw
        (
          server_plain,
          (form sigs).read,
          check_transaction-challenge_tx crc sha256 now timeout nonce server client anchor
              passphrase id ready m begun not_over,
          hashed_lem sigs,
          signed_by_server crc nacl seed server tx_hash more owner.has_text,
        )
        refl

  -- A challenge that a server builds for a client, neither of them a muxed account, is read by that server, at any
  -- time from its making to its timeout, as the envelope that was signed and the account of the client. The
  -- arguments are valid (IsReady, IsServer), and the transaction has a hash.
  pub read_challenge_transaction-build_challenge_transaction :
      (m : ℕ)
      → now * 1000000 ≤ m
      → m ≤ (now + timeout) * 1000000
      → (build_challenge_transaction crc sha256 nacl pack
            (pos now)
            nonce
            secret
            client
            anchor
            passphrase
            (pos timeout)
          >>= λ x.
              read_challenge_transaction crc nacl sha256 pack
                (pos m)
                (envelope x)
                server
                passphrase)
        ≡ ok (
          signed_te nacl (challenge_te now timeout nonce server client anchor id) tx_hash seed,
          client,
        )
  read_challenge_transaction-build_challenge_transaction m begun not_over =
      rw (build_lem, read_lem m [] begun not_over) refl
