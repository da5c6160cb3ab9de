-- ===== src/WebAuth/Signatures.antt =====
-- `_verify_transaction_signatures` of stellar_sdk/sep/stellar_web_authentication.py.
use py_stellar_base.Prelude.{
  ℕ, zero, suc, ◌+◌, ◌<◌, ◌≡◌, refl, sym, arith, inl, inr, Bool, true, false, not, ◌&&◌, Option,
  none, some, List, [], ◌∷◌, if◌then◌else◌, list_eq, list_eq_sound, length, Bool-cases,
  Option-cases,
}
use mathlib.Core.Path.{subst}
use py_stellar_base.Error.{Error, ok, require, succeeds, >>=-eq-ok, ok-injective}
use py_stellar_base.StrKey.{Crc16}
use py_stellar_base.Keypair.{
  Ed25519, Keypair, DecoratedSignature, from_public_key, signature_hint, verify,
}
use py_stellar_base.WebAuth.{
  Ed25519PublicKeySigner, TransactionEnvelope, Found, used, takes, find_signature, match_signers,
}

abbrev pub signature_at : ℕ → List DecoratedSignature → Option DecoratedSignature
signature_at k [] = none
signature_at zero (d ∷ ds) = some d
signature_at (suc k) (d ∷ ds) = signature_at k ds

-- A signature of the envelope, by its index, that the key of a signer made.
pub record Signs (crc : Crc16) (nacl : Ed25519) (te : TransactionEnvelope) (account_id : List ℕ)
    (index : ℕ) : Type 0 where
  pub kp : Keypair
  pub named : from_public_key crc account_id ≡ ok kp
  pub signature : DecoratedSignature
  pub stands : signature_at index te.signatures ≡ some signature
  pub hinted : signature.hint ≡ signature_hint kp
  pub verified : nacl.verifies kp.verify_key te.hash signature.signature ≡ true

-- How many signatures are left, from an index on.
abbrev pub unused : List ℕ → ℕ → List DecoratedSignature → ℕ
unused u i [] = 0
unused u i (d ∷ ds) = (if used i u then 0 else 1) + unused u (suc i) ds

-- An index that is taken is in range, was not used, and its signature passed every test.
pub record Taken (nacl : Ed25519) (kp : Keypair) (h u : List ℕ) (i j : ℕ)
    (ds : List DecoratedSignature) : Type 0 where
  pub offset : ℕ
  pub place : j ≡ i + offset
  pub range : offset < length ds
  pub signature : DecoratedSignature
  pub stands : signature_at offset ds ≡ some signature
  pub passed : takes nacl kp h u j signature ≡ true

find_signature-Taken :
    (nacl : Ed25519) (kp : Keypair) (h u : List ℕ) (i j : ℕ) (ds : List DecoratedSignature)
    → find_signature nacl kp h u i ds ≡ some j
    → Taken nacl kp h u i j ds
unfolding find_signature
find_signature-Taken nacl kp h u i j [] found = cc
find_signature-Taken nacl kp h u i j (d ∷ ds) found = elim (Bool-cases (takes nacl kp h u i d)) [
  | inl t ↦
      (let taken : some i ≡ some j = rw (find_signature, t) at found in
        let j_is : i ≡ j = cc in
        record {
          offset = 0;
          place = omega arith;
          range = omega arith;
          signature = d;
          stands = refl;
          passed = rw j_is at t;
        })
  | inr f ↦
      (let r = find_signature-Taken nacl kp h u (suc i) j ds (rw (find_signature, f) at found) in
        record {
          offset = suc r.offset;
          place = (omega arith);
          range = (omega arith);
          signature = r.signature;
          stands = r.stands;
          passed = r.passed;
        })
]

unused-past :
    (u : List ℕ) (j i : ℕ) (ds : List DecoratedSignature)
    → j < i
    → unused (j ∷ u) i ds ≡ unused u i ds
unfolding used
unused-past u j i [] h = refl
unused-past u j i (d ∷ ds) h = let rest = unused-past u j (suc i) ds (omega arith) in ground arith

unused-take :
    (u : List ℕ) (i j k : ℕ) (ds : List DecoratedSignature)
    → j ≡ i + k
    → used j u ≡ false
    → k < length ds
    → unused u i ds ≡ suc (unused (j ∷ u) i ds)
unfolding used
unused-take u i j k [] e f h = omega arith
unused-take u i j zero (d ∷ ds) e f h =
    let same : i ≡ j = omega arith in
    let fresh : used i u ≡ false = rw (sym same) at f in
    let rest = unused-past u j (suc i) ds (omega arith) in ground arith
unused-take u i j (suc k) (d ∷ ds) e f h =
    let rest = unused-take u (suc i) j k ds (omega arith) f (omega arith) in ground arith

signature_at-range :
    (k : ℕ) (ds : List DecoratedSignature) {d : DecoratedSignature}
    → signature_at k ds ≡ some d
    → k < length ds
signature_at-range k [] h = cc
signature_at-range zero (d ∷ ds) h = omega arith
signature_at-range (suc k) (d ∷ ds) h = let r = signature_at-range k ds h in omega arith

and-true : (a b : Bool) → (a && b) ≡ true → (a ≡ true) × (b ≡ true)
and-true true b h = (refl, h)
and-true false b h = cc

pub not-true : (b : Bool) → not b ≡ true → b ≡ false
not-true true h = cc
not-true false h = refl

succeeds-require : (b : Bool) (e : Error) → succeeds (require b e) ≡ true → b ≡ true
succeeds-require true e h = refl
succeeds-require false e h = h

-- What a signature that was taken is: new, and made by the key.
takes-Signs :
    (crc : Crc16) (nacl : Ed25519) (te : TransactionEnvelope) (account_id : List ℕ) (u : List ℕ)
    (j : ℕ) (kp : Keypair)
    → from_public_key crc account_id ≡ ok kp
    → Taken nacl kp te.hash u 0 j te.signatures
    → (used j u ≡ false) × Signs crc nacl te account_id j
unfolding takes verify
takes-Signs crc nacl te account_id u j kp named t =
    let hint = list_eq t.signature.hint (signature_hint kp) in
    let (front, ver) =
      and-true (not (used j u) && hint) (succeeds (verify nacl kp te.hash t.signature.signature))
        t.passed in
    let (fresh, hinted) = and-true (not (used j u)) hint front in
    let place : t.offset ≡ j = omega arith in
    (
      not-true (used j u) fresh,
      record {
        kp = kp;
        named = named;
        signature = t.signature;
        stands = rw place at t.stands;
        hinted = list_eq_sound t.signature.hint (signature_hint kp) hinted;
        verified =
            succeeds-require (nacl.verifies kp.verify_key te.hash t.signature.signature) _ ver;
      },
    )

-- The indexes used after some signers were found.
abbrev pub used_after : List ℕ → List Found → List ℕ
used_after u [] = u
used_after u (f ∷ fs) = used_after (f.index ∷ u) fs

module _ (crc : Crc16) (nacl : Ed25519) (te : TransactionEnvelope) where
  -- Every signer found made the signature of its index, which no signer before it used.
  abbrev pub IsMatched : List ℕ → List Found → Type 0
  IsMatched u [] = Unit
  IsMatched u (f ∷ fs) =
      (used f.index u ≡ false)
      × Signs crc nacl te f.signer.account_id f.index
      × IsMatched (f.index ∷ u) fs

  -- Each signer found takes one of the signatures that are left.
  pub matched_count :
      (u : List ℕ) (fs : List Found)
      → IsMatched u fs
      → length fs + unused (used_after u fs) 0 te.signatures ≡ unused u 0 te.signatures
  matched_count u [] m = omega arith
  matched_count u (f ∷ fs) (fresh, signs, m) =
      let rest = matched_count (f.index ∷ u) fs m in
      let one =
        unused-take u 0 f.index f.index te.signatures (omega arith) fresh
          (signature_at-range f.index te.signatures signs.stands) in
      omega arith

  -- The signers that the loops find were each found by a signature of the envelope that its key made over the
  -- hash, under the hint of the key, and no signature serves two of them.
  pub match_signers-IsMatched :
      (u : List ℕ) (signers : List Ed25519PublicKeySigner) (fs : List Found)
      → match_signers crc nacl te u signers ≡ ok fs
      → IsMatched u fs
  unfolding match_signers
  match_signers-IsMatched u [] fs h = subst (IsMatched u) (ok-injective h) tt
  match_signers-IsMatched u (s ∷ signers) fs h =
      let (kp, named, h2) = >>=-eq-ok (from_public_key crc s.account_id) _ h in
      elim (Option-cases (find_signature nacl kp te.hash u 0 te.signatures)) [
        | inl n ↦ match_signers-IsMatched u signers fs (rw n at h2)
        | inr (j, found) ↦
            (let h3 = rw found at h2 in
              let (rest, hr, he) = >>=-eq-ok (match_signers crc nacl te (j ∷ u) signers) _ h3 in
              let m = match_signers-IsMatched (j ∷ u) signers rest hr in
              let t = find_signature-Taken nacl kp te.hash u 0 j te.signatures found in
              let (fresh, signs) = takes-Signs crc nacl te s.account_id u j kp named t in
              subst (IsMatched u) (ok-injective he) (fresh, signs, m))
      ]
