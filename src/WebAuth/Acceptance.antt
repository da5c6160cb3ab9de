-- ===== src/WebAuth/Acceptance.antt =====
-- The signatures of a challenge that its server signed first and one client second.
use mathlib.Core.Path.{subst}
use py_stellar_base.Prelude.{
  ℕ, ◌≡◌, refl, sym, ◌∙◌, ap, inl, inr, true, false, none, some, List, [], ◌∷◌, list_eq,
  list_eq_sound, list_eq_refl, length, Bool-cases,
}
use py_stellar_base.Error.{ok, ◌>>=◌, ok-injective}
use py_stellar_base.StrKey.{Crc16}
use py_stellar_base.Keypair.{
  Ed25519, Keypair, DecoratedSignature, from_public_key, public_key, signature_hint, verify,
}
use py_stellar_base.WebAuth.{
  Ed25519PublicKeySigner, TransactionEnvelope, Found, used, signer_in_signers, takes,
  find_signature, match_signers, verify_transaction_signatures, split_server, check_found,
  verify_challenge_transaction_signers,
}

-- The public key of a seed, as from_public_key gives it.
abbrev pub keypair_of : Ed25519 → List ℕ → Keypair
keypair_of nacl seed = record { verify_key = nacl.verify_key_of seed; signing_key = none }

-- What sign_decorated gives for a seed.
abbrev pub signed_by : Ed25519 → List ℕ → List ℕ → DecoratedSignature
signed_by nacl hash seed = record {
  hint = signature_hint (keypair_of nacl seed);
  signature = nacl.sign_with seed hash;
}

abbrev pub signed_challenge : Ed25519 → List ℕ → List ℕ → List ℕ → TransactionEnvelope
signed_challenge nacl hash server_seed client_seed = record {
  hash = hash;
  signatures = signed_by nacl hash server_seed ∷ signed_by nacl hash client_seed ∷ [];
}

-- A seed of 32 bytes, with the text of its public key.
pub record HasText (crc : Crc16) (nacl : Ed25519) (seed account_id : List ℕ) : Type 0 where
  pub size : length seed ≡ 32
  pub named : from_public_key crc account_id ≡ ok (keypair_of nacl seed)
  pub text : public_key crc (keypair_of nacl seed) ≡ ok account_id

-- A key takes its own signature, unless it is used.
pub takes_own :
    (nacl : Ed25519) (hash u seed : List ℕ) (i : ℕ)
    → length seed ≡ 32
    → used i u ≡ false
    → takes nacl (keypair_of nacl seed) hash u i (signed_by nacl hash seed) ≡ true
unfolding takes verify used
takes_own nacl hash u seed i size fresh = rw (
  fresh,
  list_eq_refl (signature_hint (keypair_of nacl seed)),
  nacl.verifies-sign_with seed hash size,
)

-- It passes over a signature under another hint.
takes_other :
    (nacl : Ed25519) (hash other seed : List ℕ) (i : ℕ)
    → list_eq (signature_hint (keypair_of nacl other)) (signature_hint (keypair_of nacl seed))
      ≡ false
    → takes nacl (keypair_of nacl seed) hash [] i (signed_by nacl hash other) ≡ false
unfolding takes used
takes_other nacl hash other seed i apart = rw apart

pub find_first :
    (nacl : Ed25519) (kp : Keypair) (hash u : List ℕ) (d : DecoratedSignature)
    (ds : List DecoratedSignature)
    → takes nacl kp hash u 0 d ≡ true
    → find_signature nacl kp hash u 0 (d ∷ ds) ≡ some 0
unfolding find_signature
find_first nacl kp hash u d ds h = rw (find_signature, h)

find_second :
    (nacl : Ed25519) (kp : Keypair) (hash u : List ℕ) (d e : DecoratedSignature)
    → takes nacl kp hash u 0 d ≡ false
    → takes nacl kp hash u 1 e ≡ true
    → find_signature nacl kp hash u 0 (d ∷ e ∷ []) ≡ some 1
unfolding find_signature
find_second nacl kp hash u d e h k = rw (find_signature, h, find_signature, k)

-- One round of the outer loop that finds a signature.
pub match_step :
    (crc : Crc16) (nacl : Ed25519) (te : TransactionEnvelope) (u : List ℕ)
    (s : Ed25519PublicKeySigner) (ss : List Ed25519PublicKeySigner) (kp : Keypair) (i : ℕ)
    (fs : List Found)
    → from_public_key crc s.account_id ≡ ok kp
    → find_signature nacl kp te.hash u 0 te.signatures ≡ some i
    → match_signers crc nacl te (i ∷ u) ss ≡ ok fs
    → match_signers crc nacl te u (s ∷ ss) ≡ ok (record { signer = s; index = i } ∷ fs)
unfolding match_signers
match_step crc nacl te u s ss kp i fs named found rest =
    let next : (elim (find_signature nacl kp te.hash u 0 te.signatures) [
      | none ↦ match_signers crc nacl te u ss
      | some index ↦ (do
        found ← match_signers crc nacl te (index ∷ u) ss
        ok (record { signer = s; index = index } ∷ found))
    ])
        ≡ ok (record { signer = s; index = i } ∷ fs) =
      rw found (ap (λ r. r >>= λ gs. ok (record { signer = s; index = i } ∷ gs)) rest) in
    rw named next

module _ (crc : Crc16) (nacl : Ed25519) (hash server_seed server client_seed client : List ℕ)
    (weight : ℕ) (s : HasText crc nacl server_seed server) (c : HasText crc nacl client_seed client)
    (apart : list_eq
        (signature_hint (keypair_of nacl server_seed))
        (signature_hint (keypair_of nacl client_seed))
      ≡ false) where
  abbrev te : TransactionEnvelope
  te = signed_challenge nacl hash server_seed client_seed

  abbrev client_signer : Ed25519PublicKeySigner
  client_signer = record { account_id = client; weight = weight }

  abbrev server_signer : Ed25519PublicKeySigner
  server_signer = record { account_id = server; weight = 0 }

  -- Equal texts would have equal hints.
  texts_apart : list_eq client server ≡ false
  texts_apart = elim (Bool-cases (list_eq client server)) [
    | inl e ↦
        (let same = list_eq_sound client server e in
          let keys = ok-injective (sym c.named ∙ ap (from_public_key crc) same ∙ s.named) in
          let hints : list_eq (signature_hint (keypair_of nacl server_seed))
                (signature_hint (keypair_of nacl client_seed))
              ≡ true =
            subst
              (λ k.
                list_eq (signature_hint k) (signature_hint (keypair_of nacl client_seed)) ≡ true)
              keys (list_eq_refl (signature_hint (keypair_of nacl client_seed))) in
          cc)
    | inr e ↦ e
  ]

  find_client : find_signature nacl (keypair_of nacl client_seed) hash [] 0 te.signatures ≡ some 1
  find_client =
      find_second nacl (keypair_of nacl client_seed) hash [] (signed_by nacl hash server_seed)
        (signed_by nacl hash client_seed) (takes_other nacl hash server_seed client_seed 0 apart)
        (takes_own nacl hash [] client_seed 1 c.size (unfold used in refl))

  find_server :
      find_signature nacl (keypair_of nacl server_seed) hash (1 ∷ []) 0 te.signatures ≡ some 0
  find_server =
      find_first nacl (keypair_of nacl server_seed) hash (1 ∷ []) (signed_by nacl hash server_seed)
        (signed_by nacl hash client_seed ∷ [])
        (takes_own nacl hash (1 ∷ []) server_seed 0 s.size (unfold used in refl))

  both_found :
      match_signers crc nacl te [] (client_signer ∷ server_signer ∷ [])
      ≡ ok (
          record { signer = client_signer; index = 1 }
          ∷ record { signer = server_signer; index = 0 }
          ∷ [])
  unfolding match_signers
  both_found =
      match_step crc nacl te [] client_signer (server_signer ∷ []) _ 1 _ c.named find_client
        (match_step crc nacl te (1 ∷ []) server_signer [] _ 0 _ s.named find_server refl)

  -- The signatures of such a challenge are all accounted for.
  pub verify_challenge_transaction_signers-signed_challenge :
      verify_challenge_transaction_signers crc nacl te server (client_signer ∷ [])
      ≡ ok (client_signer ∷ [])
  unfolding verify_challenge_transaction_signers verify_transaction_signatures split_server
      signer_in_signers check_found
  verify_challenge_transaction_signers-signed_challenge =
      rw (s.named, s.text, both_found, texts_apart, list_eq_refl server)
