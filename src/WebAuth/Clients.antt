-- ===== src/WebAuth/Clients.antt =====
-- The loops of verify_challenge_transaction_signers over the signers found.
use mathlib.Core.Path.{subst}
use mathlib.Core.List.{append_assoc}
use py_stellar_base.Prelude.{
  ℕ, suc, ◌≤◌, ◌≡◌, refl, ap, sym, arith, ◌⊎◌, inl, inr, Bool, true, false, not, ◌||◌, List, [],
  ◌∷◌, ◌++◌, map, ltb, ◌==◌, list_eq, list_eq_sound, list_eq_refl, length, All, All-append,
  Bool-cases, Option-cases,
}
use py_stellar_base.Error.{ok, >>=-eq-ok, ok-injective}
use py_stellar_base.StrKey.{Crc16}
use py_stellar_base.Keypair.{Ed25519, from_public_key}
use py_stellar_base.WebAuth.{
  Ed25519PublicKeySigner, TransactionEnvelope, Found, find_signature, match_signers,
  signer_in_signers, split_server,
}
use py_stellar_base.WebAuth.Signatures.{Signs, IsMatched}

-- A signer is one of a list.
abbrev pub IsIn : List Ed25519PublicKeySigner → Ed25519PublicKeySigner → Type 0
IsIn [] s = ⊥
IsIn (t ∷ ts) s = (t ≡ s) ⊎ IsIn ts s

abbrev pub IsDistinct : List Ed25519PublicKeySigner → Type 0
IsDistinct [] = Unit
IsDistinct (s ∷ ss) = All (λ t. ¬ (t.account_id ≡ s.account_id)) ss × IsDistinct ss

module _ (crc : Crc16) (nacl : Ed25519) (te : TransactionEnvelope) where
  -- Signers that were found are among those that were asked for.
  pub match_signers-All :
      (P : Ed25519PublicKeySigner → Type 0) (u : List ℕ) (signers : List Ed25519PublicKeySigner)
      (fs : List Found)
      → match_signers crc nacl te u signers ≡ ok fs
      → All P signers
      → All (λ f. P (Found.signer f)) fs
  unfolding match_signers
  match_signers-All P u [] fs h ps = subst (All _) (ok-injective h) tt
  match_signers-All P u (s ∷ signers) fs h (p, ps) =
      let (kp, named, h2) = >>=-eq-ok (from_public_key crc s.account_id) _ h in
      elim (Option-cases (find_signature nacl kp te.hash u 0 te.signatures)) [
        | inl n ↦ match_signers-All P u signers fs (rw n at h2) ps
        | inr (j, found) ↦
            (let h3 = rw found at h2 in
              let (rest, hr, he) = >>=-eq-ok (match_signers crc nacl te (j ∷ u) signers) _ h3 in
              subst (All _) (ok-injective he) (p, match_signers-All P (j ∷ u) signers rest hr ps))
      ]

  -- Every one that was found made a signature.
  pub IsMatched-All :
      (u : List ℕ) (fs : List Found)
      → IsMatched crc nacl te u fs
      → All (λ f. Signs crc nacl te (Found.signer f).account_id (Found.index f)) fs
  IsMatched-All u [] m = tt
  IsMatched-All u (f ∷ fs) (fresh, signs, m) = (signs, IsMatched-All (f.index ∷ u) fs m)

or-false : (a b : Bool) → (a || b) ≡ false → (a ≡ false) × (b ≡ false)
or-false true b h = cc
or-false false b h = (refl, h)

list_eq-false : (a b : List ℕ) → list_eq a b ≡ false → ¬ (b ≡ a)
list_eq-false a b h e =
    let t : list_eq a b ≡ true = subst (λ x. list_eq x b ≡ true) e (list_eq_refl b) in cc

pub IsDistinct-snoc :
    (ss : List Ed25519PublicKeySigner) (s : Ed25519PublicKeySigner)
    → signer_in_signers s ss ≡ false
    → IsDistinct ss
    → IsDistinct (ss ++ s ∷ [])
unfolding signer_in_signers
IsDistinct-snoc [] s h d = (tt, tt)
IsDistinct-snoc (t ∷ ss) s h (new, d) =
    let (apart, h2) = or-false (list_eq t.account_id s.account_id) (signer_in_signers s ss) h in
    (
      All-append _ ss (s ∷ []) new (list_eq-false t.account_id s.account_id apart, tt),
      IsDistinct-snoc ss s h2 d,
    )

module _ (Q : Ed25519PublicKeySigner → Type 0) (server : List ℕ) where
  abbrev pub IsClient : Ed25519PublicKeySigner → Type 0
  IsClient s = Q s × ¬ (s.account_id ≡ server)

  -- A result of the loop: clients apart from the server and from each other, and the server seen only
  -- if it was there.
  abbrev pub IsSplit : Bool → Bool × List Ed25519PublicKeySigner → Type 0
  IsSplit flag r =
      All IsClient r.1
      × IsDistinct r.1
      × (r.0 ≡ true
          → (flag ≡ true) ⊎ ((s : Ed25519PublicKeySigner) × Q s × (s.account_id ≡ server)))

  pub split_server-IsSplit :
      (all found : List Ed25519PublicKeySigner) (flag : Bool)
      → All Q all
      → All IsClient found
      → IsDistinct found
      → IsSplit flag (split_server server all flag found)
  unfolding split_server
  split_server-IsSplit [] found flag qs cs d = (cs, d, λ h. inl h)
  split_server-IsSplit (s ∷ all) found flag (q, qs) cs d =
      elim (Bool-cases (list_eq s.account_id server)) [
        | inl e ↦
            (let step : split_server server (s ∷ all) flag found
                  ≡ split_server server all true found =
                rw (split_server, e) in
              let (cs2, d2, seen) = split_server-IsSplit all found true qs cs d in
              subst (IsSplit flag) (sym step)
                (cs2, d2, λ h. inr (s, q, list_eq_sound s.account_id server e)))
        | inr e ↦ elim (Bool-cases (signer_in_signers s found)) [
          | inl m ↦
              (let step : split_server server (s ∷ all) flag found
                    ≡ split_server server all flag found =
                  rw (split_server, e, m) in
                subst (IsSplit flag) (sym step) (split_server-IsSplit all found flag qs cs d))
          | inr m ↦
              (let step : split_server server (s ∷ all) flag found
                    ≡ split_server server all flag (found ++ s ∷ []) =
                  rw (split_server, e, m) in
                let other : ¬ (s.account_id ≡ server) =
                  λ same. list_eq-false s.account_id server e (sym same) in
                subst (IsSplit flag) (sym step) (
                  split_server-IsSplit all (found ++ s ∷ []) flag qs
                    (All-append _ found (s ∷ []) cs ((q, other), tt))
                    (IsDistinct-snoc found s m d)))
        ]
      ]

pub IsIn-append :
    (before : List Ed25519PublicKeySigner) (s : Ed25519PublicKeySigner)
    (ss : List Ed25519PublicKeySigner)
    → IsIn (before ++ s ∷ ss) s
IsIn-append [] s ss = inl refl
IsIn-append (t ∷ before) s ss = inr (IsIn-append before s ss)

-- The members of a list are in it, whatever is put before.
pub IsIn-All : (before ss : List Ed25519PublicKeySigner) → All (IsIn (before ++ ss)) ss
IsIn-All before [] = tt
IsIn-All before (s ∷ ss) = (
  IsIn-append before s ss,
  subst (λ l. All (IsIn l) ss) (append_assoc before (s ∷ []) ss) (IsIn-All (before ++ s ∷ []) ss),
)

pub All-map :
    {A B : Type 0} (P : B → Type 0) (f : A → B) (xs : List A)
    → All (λ a. P (f a)) xs
    → All P (map f xs)
All-map P f [] h = tt
All-map P f (x ∷ xs) h = (h.0, All-map P f xs h.1)

pub All-both :
    {A : Type 0} (P Q : A → Type 0) (xs : List A) → All P xs → All Q xs → All (λ a. P a × Q a) xs
All-both P Q [] h k = tt
All-both P Q (x ∷ xs) h k = ((h.0, k.0), All-both P Q xs h.1 k.1)

pub All-weaken :
    {A : Type 0} (P Q : A → Type 0) (f : (a : A) → P a → Q a) (xs : List A) → All P xs → All Q xs
All-weaken P Q f [] h = tt
All-weaken P Q f (x ∷ xs) h = (f x h.0, All-weaken P Q f xs h.1)

pub length-map : {A B : Type 0} (f : A → B) (xs : List A) → length (map f xs) ≡ length xs
length-map f [] = refl
length-map f (x ∷ xs) = ap suc (length-map f xs)

pub not-ltb : (a b : ℕ) → not (ltb a b) ≡ true → b ≤ a
not-ltb a b h = ground arith

pub not-zero : (n : ℕ) → not (n == 0) ≡ true → 1 ≤ n
not-zero n h = ground arith
