-- ===== src/WebAuth/Accounts.antt =====
-- Which signatures of an envelope the signers found account for.
use py_stellar_base.Prelude.{
  ℕ, zero, suc, ◌+◌, ◌<◌, ◌≡◌, refl, sym, arith, inl, inr, true, false, List, [], ◌∷◌, ◌==◌, ==_iff,
  length, All, Bool-cases,
}
use mathlib.Core.Path.{subst}
use py_stellar_base.StrKey.{Crc16}
use py_stellar_base.Keypair.{Ed25519, DecoratedSignature}
use py_stellar_base.WebAuth.{Ed25519PublicKeySigner, TransactionEnvelope, Found, used}
use py_stellar_base.WebAuth.Signatures.{Signs, unused, IsMatched, used_after}

-- A list that was matched with as many signers as there are signatures accounts for every one.
module _ (crc : Crc16) (nacl : Ed25519) (te : TransactionEnvelope) where
  pub unused_none :
      (u : List ℕ) (i k : ℕ) (ds : List DecoratedSignature)
      → unused u i ds ≡ 0
      → k < length ds
      → used (i + k) u ≡ true
  unfolding used
  unused_none u i k [] h r = ground arith
  unused_none u i zero (d ∷ ds) h r = ground arith
  unused_none u i (suc k) (d ∷ ds) h r =
      let next : used (suc i + k) u ≡ true =
        unused_none u (suc i) k ds (ground arith) (omega arith) in
      let same : suc i + k ≡ i + suc k = omega arith in rw same at next

  pub unused_nil : (i : ℕ) (ds : List DecoratedSignature) → unused [] i ds ≡ length ds
  unfolding used
  unused_nil i [] = refl
  unused_nil i (d ∷ ds) = let r = unused_nil (suc i) ds in omega arith

  -- A signature by one of the accounts that `P` holds of.
  abbrev pub SignedBy : (Ed25519PublicKeySigner → Type 0) → ℕ → Type 0
  SignedBy P k = (s : Ed25519PublicKeySigner) × P s × Signs crc nacl te s.account_id k

  pub used_after-SignedBy :
      {P : Ed25519PublicKeySigner → Type 0} (u : List ℕ) (fs : List Found) (k : ℕ)
      → IsMatched crc nacl te u fs
      → All (λ f. P (Found.signer f)) fs
      → used k u ≡ false
      → used k (used_after u fs) ≡ true
      → SignedBy P k
  unfolding used
  used_after-SignedBy u [] k m ps n y = cc
  used_after-SignedBy u (f ∷ fs) k (fresh, signs, m) (p, ps) n y =
      elim (Bool-cases (k == f.index)) [
        | inl e ↦ (
          f.signer,
          p,
          subst (Signs crc nacl te f.signer.account_id) (sym ((==_iff k f.index).0 e)) signs,
        )
        | inr e ↦ used_after-SignedBy (f.index ∷ u) fs k m ps (ground arith) y
      ]
