-- ===== src/WebAuth/Challenge.antt =====
-- What is known of a challenge that verify_challenge_transaction_signers accepts.
use mathlib.Core.Path.{subst}
use py_stellar_base.Prelude.{
  ℕ, zero, suc, ◌+◌, ◌≤◌, ◌<◌, ◌≡◌, refl, ◌∙◌, ap, sym, arith, ◌⊎◌, inl, inr, Bool, true, false,
  not, List, [], ◌∷◌, ◌++◌, map, ◌==◌, ==_iff, length, All, All-append,
}
use py_stellar_base.Error.{
  ok, invalid_challenge, ◌>>=◌, require, >>=-eq-ok, ok-injective, require-eq-ok,
}
use py_stellar_base.StrKey.{Crc16}
use py_stellar_base.Keypair.{Ed25519, from_public_key, public_key}
use py_stellar_base.WebAuth.{
  Ed25519PublicKeySigner, TransactionEnvelope, Found, used, match_signers,
  verify_transaction_signatures, split_server, check_found, verify_challenge_transaction_signers,
}
use py_stellar_base.WebAuth.Signatures.{Signs, matched_count, match_signers-IsMatched, used_after}
use py_stellar_base.WebAuth.Accounts.{unused_nil, unused_none, used_after-SignedBy, SignedBy}
use py_stellar_base.WebAuth.Clients.{
  IsIn, IsDistinct, match_signers-All, IsMatched-All, IsClient, split_server-IsSplit, IsIn-All,
  All-map, All-both, All-weaken, length-map, not-zero,
}

-- A predicate of every number below a bound.
abbrev pub Below : (ℕ → Type 0) → ℕ → Type 0
Below P zero = Unit
Below P (suc n) = P n × Below P n

all_Below : (P : ℕ → Type 0) (n : ℕ) → ((k : ℕ) → k < n → P k) → Below P n
all_Below P zero f = tt
all_Below P (suc n) f = (f n (omega arith), all_Below P n (λ k h. f k (omega (arith, h))))

-- What a caller may rely on when signers are returned. `server` is the text of the server's key.
pub record Authenticated (crc : Crc16) (nacl : Ed25519) (te : TransactionEnvelope)
    (server_account_id : List ℕ) (signers clients : List Ed25519PublicKeySigner) : Type 0 where
  pub server : List ℕ
  pub named : (from_public_key crc server_account_id >>= public_key crc) ≡ ok server
  pub server_signed : (k : ℕ) × Signs crc nacl te server k
  pub some_client : 1 ≤ length clients
  pub clients_signed :
      All
        (λ s.
          IsIn signers s × ¬ (s.account_id ≡ server) × ((k : ℕ) × Signs crc nacl te s.account_id k))
        clients
  pub distinct : IsDistinct clients
  pub accounted :
      Below
        (SignedBy crc nacl te (λ s. IsIn signers s ⊎ (s.account_id ≡ server)))
        (length te.signatures)

verify_transaction_signatures-eq-ok :
    (crc : Crc16) (nacl : Ed25519) (te : TransactionEnvelope)
    (asked all : List Ed25519PublicKeySigner)
    → verify_transaction_signatures crc nacl te asked ≡ ok all
    → (fs : List Found) × (match_signers crc nacl te [] asked ≡ ok fs) × (map Found.signer fs ≡ all)
unfolding verify_transaction_signatures
verify_transaction_signatures-eq-ok crc nacl te asked all h =
    let (_, _, h1) = >>=-eq-ok (require (not (length te.signatures == 0)) invalid_challenge) _ h in
    let (fs, found, h2) = >>=-eq-ok (match_signers crc nacl te [] asked) _ h1 in
    (fs, found, ok-injective h2)

check_found-eq-ok :
    (te : TransactionEnvelope) (all : List Ed25519PublicKeySigner) (flag : Bool)
    (out clients : List Ed25519PublicKeySigner)
    → check_found te all flag out ≡ ok clients
    → (flag ≡ true) × (1 ≤ length out) × (length all ≡ length te.signatures) × (out ≡ clients)
unfolding check_found
check_found-eq-ok te all flag out clients h =
    let (_, seen, h1) = >>=-eq-ok (require flag invalid_challenge) _ h in
    let (_, some_client, h2) = >>=-eq-ok (require (not (length out == 0)) invalid_challenge) _ h1 in
    let (_, every, h3) =
      >>=-eq-ok (require (length all == length te.signatures) invalid_challenge) _ h2 in
    (
      require-eq-ok flag _ seen,
      not-zero (length out) (require-eq-ok _ _ some_client),
      (==_iff (length all) (length te.signatures)).0 (require-eq-ok _ _ every),
      ok-injective h3,
    )

module _ (crc : Crc16) (nacl : Ed25519) (te : TransactionEnvelope) (server : List ℕ)
    (signers : List Ed25519PublicKeySigner) where
  abbrev IsKnown : Ed25519PublicKeySigner → Type 0
  IsKnown s = IsIn signers s ⊎ (s.account_id ≡ server)

  abbrev IsSigner : Ed25519PublicKeySigner → Type 0
  IsSigner s = IsKnown s × ((k : ℕ) × Signs crc nacl te s.account_id k)

  abbrev asked : List Ed25519PublicKeySigner
  asked = signers ++ record { account_id = server; weight = 0 } ∷ []

  asked-IsKnown : All IsKnown asked
  asked-IsKnown =
      All-append IsKnown signers _
        (All-weaken (IsIn signers) IsKnown (λ s h. inl h) signers (IsIn-All [] signers))
        (inr refl, tt)

  found-IsSigner :
      (fs : List Found)
      → match_signers crc nacl te [] asked ≡ ok fs
      → All (λ f. IsSigner (Found.signer f)) fs
  found-IsSigner fs h =
      let known = match_signers-All crc nacl te IsKnown [] asked fs h asked-IsKnown in
      let signs =
        IsMatched-All crc nacl te [] fs (match_signers-IsMatched crc nacl te [] asked fs h) in
      All-weaken
        (λ f.
          IsKnown (Found.signer f) × Signs crc nacl te (Found.signer f).account_id (Found.index f))
        (λ f. IsSigner (Found.signer f)) (λ f h. (h.0, (f.index, h.1))) fs
        (All-both _ _ fs known signs)

  -- As many signers as signatures account for every signature.
  found-accounted :
      (fs : List Found) (k : ℕ)
      → match_signers crc nacl te [] asked ≡ ok fs
      → length fs ≡ length te.signatures
      → k < length te.signatures
      → SignedBy crc nacl te IsKnown k
  unfolding used
  found-accounted fs k h n r =
      let m = match_signers-IsMatched crc nacl te [] asked fs h in
      let count = matched_count crc nacl te [] fs m in
      let start = unused_nil crc nacl te 0 te.signatures in
      let zero_k : 0 + k ≡ k = omega arith in
      let taken = unused_none crc nacl te (used_after [] fs) 0 k te.signatures (omega arith) r in
      used_after-SignedBy crc nacl te [] fs k m
        (match_signers-All crc nacl te IsKnown [] asked fs h asked-IsKnown) refl
        (rw zero_k at taken)

  client_of :
      (s : Ed25519PublicKeySigner)
      → IsClient IsSigner server s
      → IsIn signers s × ¬ (s.account_id ≡ server) × ((k : ℕ) × Signs crc nacl te s.account_id k)
  client_of s ((inl known, signs), apart) = (known, apart, signs)
  client_of s ((inr same, signs), apart) = elim (apart same) [ ]

-- The server is seen only as a signer that was found.
server-Signs :
    (crc : Crc16) (nacl : Ed25519) (te : TransactionEnvelope) (server : List ℕ)
    (signers : List Ed25519PublicKeySigner)
    → (false ≡ true)
      ⊎ ((s : Ed25519PublicKeySigner) × IsSigner crc nacl te server signers s
          × (s.account_id ≡ server))
    → (k : ℕ) × Signs crc nacl te server k
server-Signs crc nacl te server signers (inl h) = cc
server-Signs crc nacl te server signers (inr (s, (known, signs), same)) =
    subst (λ a. (k : ℕ) × Signs crc nacl te a k) same signs

-- The last checks, on what the loops found.
found-Authenticated :
    (crc : Crc16) (nacl : Ed25519) (te : TransactionEnvelope) (server_account_id server : List ℕ)
    (signers all clients : List Ed25519PublicKeySigner)
    → (from_public_key crc server_account_id >>= public_key crc) ≡ ok server
    → verify_transaction_signatures crc nacl te (asked crc nacl te server signers) ≡ ok all
    → (let r = split_server server all false [] in check_found te all r.0 r.1 ≡ ok clients)
    → Authenticated crc nacl te server_account_id signers clients
found-Authenticated crc nacl te id server signers all clients named found checked =
    let (fs, matched, same) = verify_transaction_signatures-eq-ok crc nacl te _ all found in
    let (flag, some_client, every, out) = check_found-eq-ok te all _ _ clients checked in
    let is_signer = subst (All _) same (
      All-map (IsSigner crc nacl te server signers) Found.signer fs
        (found-IsSigner crc nacl te server signers fs matched)) in
    let (are_clients, distinct, seen) =
      split_server-IsSplit (IsSigner crc nacl te server signers) server all [] false is_signer tt
        tt in
    record {
      server = server;
      named = named;
      server_signed = server-Signs crc nacl te server signers (seen flag);
      some_client = subst (λ l. 1 ≤ length l) out some_client;
      clients_signed =
          subst (All _) out (All-weaken _ _ (client_of crc nacl te server signers) _ are_clients);
      distinct = subst IsDistinct out distinct;
      accounted = all_Below _ (length te.signatures) (λ k r.
          found-accounted crc nacl te server signers fs k matched
            (sym (length-map Found.signer fs) ∙ ap length same ∙ every) r);
    }

-- When signers are returned, the server and each of them signed, they are among the signers given, none is
-- the server or stands twice, and every signature of the envelope is the server's or a given signer's.
pub verify_challenge_transaction_signers-Authenticated :
    (crc : Crc16) (nacl : Ed25519) (te : TransactionEnvelope) (server_account_id : List ℕ)
    (signers clients : List Ed25519PublicKeySigner)
    → verify_challenge_transaction_signers crc nacl te server_account_id signers ≡ ok clients
    → Authenticated crc nacl te server_account_id signers clients
unfolding verify_challenge_transaction_signers
verify_challenge_transaction_signers-Authenticated crc nacl te id signers clients h =
    let (kp, named, h2) = >>=-eq-ok (from_public_key crc id) _ h in
    let (server, text, h3) = >>=-eq-ok (public_key crc kp) _ h2 in
    let (all, found, checked) =
      >>=-eq-ok (verify_transaction_signatures crc nacl te (asked crc nacl te server signers)) _
        h3 in
    found-Authenticated crc nacl te id server signers all clients (rw (named, text)) found checked
