-- ===== src/Envelope/Signing.antt =====
-- What signing an envelope does to its signatures.
use mathlib.Core.Path.{subst}
use py_stellar_base.Prelude.{
  ℕ, true, false, not, some, List, [], ◌∷◌, ◌++◌, list_eq, list_eq_refl, list_eq_sound, Bool, ◌&&◌,
  ◌∙◌, ap, sym, ◌⊎◌, inl, inr, Bool-cases, ◌≡◌, refl, arith,
}
use py_stellar_base.Error.{
  Result, ok, err, signature_exist, require, >>=-eq-ok, require-eq-ok, ok-injective,
}
use py_stellar_base.StrKey.{Crc16}
use py_stellar_base.Keypair.{
  Ed25519, Keypair, DecoratedSignature, sign_decorated, verify, signature_hint,
}
use py_stellar_base.Keypair.RoundTrip.{IsValid, sign_decorated-verify}
use py_stellar_base.Envelope.{
  BaseEnvelope, SignerKey, keypair, signature_eq, has_signature, add_signature, hash,
  signer_keypair, sign,
}

has_signature-append :
    (sig : DecoratedSignature) (sigs : List DecoratedSignature)
    → has_signature sig (sigs ++ sig ∷ []) ≡ true
unfolding has_signature
has_signature-append sig [] = ground (arith, list_eq_refl sig.hint, list_eq_refl sig.signature)
has_signature-append sig (s ∷ sigs) = ground (arith, has_signature-append sig sigs)

add_signature-eq-ok :
    {T : Type 0} (te out : BaseEnvelope T) (sig : DecoratedSignature)
    → add_signature te sig ≡ ok out
    → (has_signature sig te.signatures ≡ false)
      × (record te { signatures = te.signatures ++ sig ∷ [] } ≡ out)
unfolding add_signature
add_signature-eq-ok te out sig h =
    let (_, fresh, e) =
      >>=-eq-ok (require (not (has_signature sig te.signatures)) signature_exist) _ h in
    let q = require-eq-ok (not (has_signature sig te.signatures)) signature_exist fresh in
    (ground arith, ok-injective e)

module _ (sha256 : List ℕ → List ℕ) (crc : Crc16) (nacl : Ed25519) {T : Type 0}
    (base : List ℕ → T → Result (List ℕ)) (te out : BaseEnvelope T) (signer : SignerKey) where
  -- The keypair, the hash and the signature of a signing that succeeds.
  pub record Signing : Type 0 where
    pub kp : Keypair
    pub tx_hash : List ℕ
    pub sig : DecoratedSignature
    pub opened : signer_keypair crc nacl signer ≡ ok kp
    pub hashed : hash sha256 base te ≡ ok tx_hash
    pub signed : sign_decorated nacl kp tx_hash ≡ ok sig
    pub added : add_signature te sig ≡ ok out

  sign-eq-ok : sign sha256 base crc nacl te signer ≡ ok out → Signing
  unfolding sign
  sign-eq-ok h =
      let (kp, opened, h1) = >>=-eq-ok (signer_keypair crc nacl signer) _ h in
      let (tx_hash, hashed, h2) = >>=-eq-ok (hash sha256 base te) _ h1 in
      let (sig, signed, added) = >>=-eq-ok (sign_decorated nacl kp tx_hash) _ h2 in
      record {
        kp = kp;
        tx_hash = tx_hash;
        sig = sig;
        opened = opened;
        hashed = hashed;
        signed = signed;
        added = added;
      }

  -- The hash does not read the signatures.
  hash-add_signature :
      (sigs : List DecoratedSignature)
      → hash sha256 base (record te { signatures = sigs }) ≡ hash sha256 base te
  unfolding hash
  hash-add_signature sigs = refl

  -- Signing once more with the signer of a signing that succeeded raises SignatureExistError.
  pub sign-sign :
      sign sha256 base crc nacl te signer ≡ ok out
      → sign sha256 base crc nacl out signer ≡ err signature_exist
  unfolding sign add_signature
  sign-sign h =
      let s = sign-eq-ok h in
      let (fresh, e) = add_signature-eq-ok te out s.sig s.added in
      subst (λ t. sign sha256 base crc nacl t signer ≡ err signature_exist) e
        (rw
          (
            s.opened,
            hash-add_signature (te.signatures ++ s.sig ∷ []),
            s.hashed,
            s.signed,
            has_signature-append s.sig te.signatures,
          )
          refl)

-- A signature that stands in a list.
abbrev pub IsAmong : DecoratedSignature → List DecoratedSignature → Type 0
IsAmong sig [] = ⊥
IsAmong sig (s ∷ sigs) = (s ≡ sig) ⊎ IsAmong sig sigs

both : (a b : Bool) → (a && b) ≡ true → (a ≡ true) × (b ≡ true)
both a b h = ground arith

signature_eq_sound : (a b : DecoratedSignature) → signature_eq a b ≡ true → b ≡ a
signature_eq_sound a b h =
    let (hints, signatures) = both (list_eq a.hint b.hint) (list_eq a.signature b.signature) h in
    ap (λ t. record b { hint = t }) (sym (list_eq_sound a.hint b.hint hints))
    ∙ ap (λ t. record a { signature = t }) (sym (list_eq_sound a.signature b.signature signatures))

signature_eq_refl : (a : DecoratedSignature) → signature_eq a a ≡ true
signature_eq_refl a = rw (list_eq_refl a.hint, list_eq_refl a.signature) refl

has_signature_sound :
    (sig : DecoratedSignature) (sigs : List DecoratedSignature)
    → has_signature sig sigs ≡ true
    → IsAmong sig sigs
unfolding has_signature
has_signature_sound sig [] h = cc
has_signature_sound sig (s ∷ sigs) h = elim (Bool-cases (signature_eq sig s)) [
  | inl e ↦ inl (signature_eq_sound sig s e)
  | inr e ↦ inr (has_signature_sound sig sigs (ground arith))
]

IsAmong-has_signature :
    (sig : DecoratedSignature) (sigs : List DecoratedSignature)
    → IsAmong sig sigs
    → has_signature sig sigs ≡ true
unfolding has_signature
IsAmong-has_signature sig [] h = absurd h
IsAmong-has_signature sig (s ∷ sigs) (inl e) = rw (e, signature_eq_refl sig) refl
IsAmong-has_signature sig (s ∷ sigs) (inr m) = ground (arith, IsAmong-has_signature sig sigs m)

-- With a keypair that holds a seed, on an envelope that has a hash, signing makes a signature with the hint of
-- the key, which the key verifies of the hash. If that signature stands in the envelope, signing raises
-- SignatureExistError; if not, it is added at the end.
pub sign-verify :
    (sha256 : List ℕ → List ℕ) (crc : Crc16) (nacl : Ed25519) {T : Type 0}
    (base : List ℕ → T → Result (List ℕ)) (te : BaseEnvelope T) (key seed tx_hash : List ℕ)
    → let kp : Keypair = record { verify_key = key; signing_key = some seed } in
      IsValid nacl kp
      → hash sha256 base te ≡ ok tx_hash
      → (sig : DecoratedSignature) × (sig.hint ≡ signature_hint kp)
        × (verify nacl kp tx_hash sig.signature ≡ ok tt)
        × ((IsAmong sig te.signatures
              × (sign sha256 base crc nacl te (keypair kp) ≡ err signature_exist))
            ⊎ (¬ IsAmong sig te.signatures
                × (sign sha256 base crc nacl te (keypair kp)
                    ≡ ok (record te { signatures = te.signatures ++ sig ∷ [] }))))
unfolding sign signer_keypair add_signature
sign-verify sha256 crc nacl base te key seed tx_hash v h =
    let (sig, signed, hint, verified) =
      sign_decorated-verify nacl (record { verify_key = key; signing_key = some seed }) tx_hash v in
    (
      sig,
      hint,
      verified,
      elim (Bool-cases (has_signature sig te.signatures)) [
        | inl e ↦ inl (has_signature_sound sig te.signatures e, rw (h, signed, e))
        | inr e ↦
            inr (λ m. ground (arith, IsAmong-has_signature sig te.signatures m), rw (h, signed, e))
      ],
    )
