-- ===== src/WebAuth/Read/Accepted.antt =====
-- What is known of a challenge that read_challenge_transaction returns.
use mathlib.Core.Path.{subst}
use py_stellar_base.Prelude.{
  ℕ, ◌≡◌, refl, sym, ap, ◌∙◌, arith, Bool, true, false, not, ◌||◌, Option, none, some, List, [],
  ◌∷◌, length, ◌==◌, ==_iff, list_eq, list_eq_sound,
}
use py_stellar_base.Prelude.Int.{ℤ, pos, ◌==ℤ◌, ==ℤ_sound, ltb_ℤ, ◌<ℤ◌, ltb_ℤ_iff}
use py_stellar_base.Error.{
  Result, ok, value_error, invalid_challenge, require, >>=-eq-ok, require-eq-ok, ok-injective,
}
use py_stellar_base.Base64.{b64decode}
use py_stellar_base.StrKey.{Crc16, XdrMuxedAccount}
use py_stellar_base.Keypair.{Ed25519}
use py_stellar_base.MuxedAccount.{MuxedAccount}
use py_stellar_base.TimeBounds.{TimeBounds}
use py_stellar_base.Operation.ManageData.{ManageData}
use py_stellar_base.Operation.Dispatch.{
  AnyOperation, manage_data, create_account, payment, path_payment_strict_receive,
  manage_sell_offer, create_passive_sell_offer, set_options, change_trust, allow_trust,
  account_merge, inflation, bump_sequence, manage_buy_offer, path_payment_strict_send,
}
use py_stellar_base.Transaction.{Transaction, XdrTransaction}
use py_stellar_base.Envelope
use py_stellar_base.FeeBump.{times, XdrEnvelope}
use py_stellar_base.WebAuth
use py_stellar_base.WebAuth.{
  Ed25519PublicKeySigner, Found, match_signers, verify_transaction_signatures,
  verify_te_signed_by_account_id,
}
use py_stellar_base.WebAuth.Signatures.{Signs, not-true, match_signers-IsMatched}
use py_stellar_base.WebAuth.Clients.{match_signers-All, length-map}
use py_stellar_base.WebAuth.Read.{
  is_muxed, bounds_of, as_manage_data, manage_data_of, client_of, value_of, check_transaction,
  read_envelope, hashed_envelope, read_challenge_transaction,
}

-- The fields of a challenge: those of the transaction, and one ManageData operation of the client whose value
-- is the base 64 text of 48 bytes. `now` is within the time bounds, which have an end.
pub record IsChallenge (now : ℤ) (tx : Transaction) (server_account_id client_account_id : List ℕ)
    : Type 0 where
  pub source : tx.source.account_id ≡ server_account_id
  pub sequence : tx.sequence ≡ pos 0
  pub bounds : TimeBounds
  pub bounded : tx.time_bounds ≡ some bounds
  pub finite : ¬ (bounds.max_time ≡ pos 0)
  pub begun : ¬ (now <ℤ times bounds.min_time 1000000)
  pub not_over : ¬ (times bounds.max_time 1000000 <ℤ now)
  pub op : ManageData
  pub single : tx.operations ≡ manage_data op ∷ []
  pub client : MuxedAccount
  pub client_source : op.source ≡ some client
  pub client_named : client.account_id ≡ client_account_id
  pub value : List ℕ
  pub given : value_of op.data_value ≡ ok value
  pub nonce : List ℕ
  pub decoded : b64decode value ≡ ok nonce
  pub size : length nonce ≡ 48

bounds_of-eq-ok : (o : Option TimeBounds) (t : TimeBounds) → bounds_of o ≡ ok t → o ≡ some t
unfolding bounds_of
bounds_of-eq-ok none t h = cc
bounds_of-eq-ok (some u) t h = ap some (ok-injective h)

client_of-eq-ok : (o : Option MuxedAccount) (m : MuxedAccount) → client_of o ≡ ok m → o ≡ some m
unfolding client_of
client_of-eq-ok none m h = cc
client_of-eq-ok (some u) m h = ap some (ok-injective h)

as_manage_data-eq-ok :
    (o : AnyOperation) (op : ManageData) → as_manage_data o ≡ ok op → o ≡ manage_data op
unfolding as_manage_data
as_manage_data-eq-ok (manage_data p) op h = ap manage_data (ok-injective h)
as_manage_data-eq-ok (create_account p) op h = cc
as_manage_data-eq-ok (payment p) op h = cc
as_manage_data-eq-ok (path_payment_strict_receive p) op h = cc
as_manage_data-eq-ok (manage_sell_offer p) op h = cc
as_manage_data-eq-ok (create_passive_sell_offer p) op h = cc
as_manage_data-eq-ok (set_options p) op h = cc
as_manage_data-eq-ok (change_trust p) op h = cc
as_manage_data-eq-ok (allow_trust p) op h = cc
as_manage_data-eq-ok (account_merge p) op h = cc
as_manage_data-eq-ok (inflation p) op h = cc
as_manage_data-eq-ok (bump_sequence p) op h = cc
as_manage_data-eq-ok (manage_buy_offer p) op h = cc
as_manage_data-eq-ok (path_payment_strict_send p) op h = cc

manage_data_of-eq-ok :
    (ops : List AnyOperation) (op : ManageData)
    → manage_data_of ops ≡ ok op
    → ops ≡ manage_data op ∷ []
unfolding manage_data_of
manage_data_of-eq-ok [] op h = cc
manage_data_of-eq-ok (o ∷ []) op h = ap (λ o. o ∷ []) (as_manage_data-eq-ok o op h)
manage_data_of-eq-ok (o ∷ (p ∷ ops)) op h = cc

not_zero : (n : ℤ) → not (n ==ℤ pos 0) ≡ true → ¬ (n ≡ pos 0)
not_zero n h q = ground arith

neither : (a b : Bool) → not (a || b) ≡ true → (a ≡ false) × (b ≡ false)
neither a b h = ground arith

not_less : (a b : ℤ) → ltb_ℤ a b ≡ false → ¬ (a <ℤ b)
not_less a b h p = ground (arith, (ltb_ℤ_iff a b).1 p)

check_transaction-IsChallenge :
    (now : ℤ) (tx : Transaction) (server : List ℕ) (client : MuxedAccount)
    → check_transaction now tx server ≡ ok client
    → IsChallenge now tx server client.account_id
unfolding check_transaction
check_transaction-IsChallenge now tx server client h =
    let (_, e1, h1) =
      >>=-eq-ok (require (list_eq tx.source.account_id server) invalid_challenge) _ h in
    let (_, e2, h2) = >>=-eq-ok (require (tx.sequence ==ℤ pos 0) invalid_challenge) _ h1 in
    let (t, e3, h3) = >>=-eq-ok (bounds_of tx.time_bounds) _ h2 in
    let (_, e4, h4) = >>=-eq-ok (require (not (t.max_time ==ℤ pos 0)) invalid_challenge) _ h3 in
    let inside =
      not (ltb_ℤ now (times t.min_time 1000000) || ltb_ℤ (times t.max_time 1000000) now) in
    let (_, e5, h5) = >>=-eq-ok (require inside invalid_challenge) _ h4 in
    let (op, e6, h6) = >>=-eq-ok (manage_data_of tx.operations) _ h5 in
    let (m, e7, h7) = >>=-eq-ok (client_of op.source) _ h6 in
    let (value, e8, h8) = >>=-eq-ok (value_of op.data_value) _ h7 in
    let (_, e9, h9) = >>=-eq-ok (require (length value == 64) invalid_challenge) _ h8 in
    let (nonce, e10, h10) = >>=-eq-ok (b64decode value) _ h9 in
    let (_, e11, h11) = >>=-eq-ok (require (length nonce == 48) invalid_challenge) _ h10 in
    let (early, late) =
      neither (ltb_ℤ now (times t.min_time 1000000)) (ltb_ℤ (times t.max_time 1000000) now)
        (require-eq-ok inside _ e5) in
    record {
      source = list_eq_sound tx.source.account_id server (require-eq-ok _ _ e1);
      sequence = ==ℤ_sound tx.sequence (pos 0) (require-eq-ok _ _ e2);
      bounds = t;
      bounded = bounds_of-eq-ok tx.time_bounds t e3;
      finite = not_zero t.max_time (require-eq-ok _ _ e4);
      begun = not_less now (times t.min_time 1000000) early;
      not_over = not_less (times t.max_time 1000000) now late;
      op = op;
      single = manage_data_of-eq-ok tx.operations op e6;
      client = m;
      client_source = client_of-eq-ok op.source m e7;
      client_named = ap (λ m. MuxedAccount.account_id m) (ok-injective h11);
      value = value;
      given = e8;
      nonce = nonce;
      decoded = e10;
      size = (==_iff (length nonce) 48).0 (require-eq-ok _ _ e11);
    }

-- A server that was found is one that signed.
found-Signs :
    (crc : Crc16) (nacl : Ed25519) (te : WebAuth.TransactionEnvelope) (server : List ℕ)
    (fs : List Found)
    → match_signers crc nacl te [] (record { account_id = server; weight = 0 } ∷ []) ≡ ok fs
    → not (length fs == 0) ≡ true
    → (k : ℕ) × Signs crc nacl te server k
found-Signs crc nacl te server [] h n = cc
found-Signs crc nacl te server (f ∷ fs) h n =
    let m =
      match_signers-IsMatched crc nacl te [] (record { account_id = server; weight = 0 } ∷ [])
        (f ∷ fs) h in
    let named =
      match_signers-All crc nacl te (λ s. s.account_id ≡ server) []
        (record { account_id = server; weight = 0 } ∷ []) (f ∷ fs) h (refl, tt) in
    (f.index, subst (λ a. Signs crc nacl te a f.index) (named.0) (m.1))

pub verify_te_signed_by_account_id-Signs :
    (crc : Crc16) (nacl : Ed25519) (te : WebAuth.TransactionEnvelope) (server : List ℕ)
    → verify_te_signed_by_account_id crc nacl te server ≡ ok true
    → (k : ℕ) × Signs crc nacl te server k
unfolding verify_te_signed_by_account_id verify_transaction_signatures
verify_te_signed_by_account_id-Signs crc nacl te server h =
    let one = record { account_id = server; weight = 0 } ∷ [] in
    let (all, found, h1) = >>=-eq-ok (verify_transaction_signatures crc nacl te one) _ h in
    let (_, some_signature, h2) =
      >>=-eq-ok (require (not (length te.signatures == 0)) invalid_challenge) _ found in
    let (fs, matched, h3) = >>=-eq-ok (match_signers crc nacl te [] one) _ h2 in
    found-Signs crc nacl te server fs matched (
      subst (λ n. not (n == 0) ≡ true) (length-map Found.signer fs)
        (subst (λ all. not (length all == 0) ≡ true) (sym (ok-injective h3)) (ok-injective h1)))

-- What the caller of read_challenge_transaction knows of the envelope and the client that it returns.
pub record IsRead (crc : Crc16) (nacl : Ed25519) (sha256 : List ℕ → List ℕ)
    (pack : XdrTransaction XdrMuxedAccount → Result (List ℕ)) (now : ℤ) (x : XdrEnvelope)
    (server passphrase : List ℕ) (te : Envelope.TransactionEnvelope) (client_account_id : List ℕ)
    : Type 0 where
  pub not_muxed : is_muxed server ≡ false
  pub sent : read_envelope crc sha256 x passphrase ≡ ok te
  pub challenge : IsChallenge now te.transaction server client_account_id
  pub hashed : WebAuth.TransactionEnvelope
  pub hash : hashed_envelope crc nacl sha256 pack te ≡ ok hashed
  pub server_signed : (k : ℕ) × Signs crc nacl hashed server k

-- When read_challenge_transaction returns an envelope and a client, the server's account id is no muxed one, the
-- envelope is the one that was sent, its transaction is a challenge of the server to the client at this time, and
-- a signature on it is the server's, over the hash of the transaction in this network.
pub read_challenge_transaction-IsRead :
    (crc : Crc16) (nacl : Ed25519) (sha256 : List ℕ → List ℕ)
    (pack : XdrTransaction XdrMuxedAccount → Result (List ℕ)) (now : ℤ) (x : XdrEnvelope)
    (server passphrase : List ℕ) (te : Envelope.TransactionEnvelope) (client_account_id : List ℕ)
    → read_challenge_transaction crc nacl sha256 pack now x server passphrase
      ≡ ok (te, client_account_id)
    → IsRead crc nacl sha256 pack now x server passphrase te client_account_id
unfolding read_challenge_transaction
read_challenge_transaction-IsRead crc nacl sha256 pack now x server passphrase te client_account_id
      h =
    let (_, e1, h1) = >>=-eq-ok (require (not (is_muxed server)) value_error) _ h in
    let (t, e2, h2) = >>=-eq-ok (read_envelope crc sha256 x passphrase) _ h1 in
    let (m, e3, h3) = >>=-eq-ok (check_transaction now t.transaction server) _ h2 in
    let (hashed, e4, h4) = >>=-eq-ok (hashed_envelope crc nacl sha256 pack t) _ h3 in
    let (signed, e5, h5) = >>=-eq-ok (verify_te_signed_by_account_id crc nacl hashed server) _ h4 in
    let (_, e6, h6) = >>=-eq-ok (require signed invalid_challenge) _ h5 in
    let is_true = require-eq-ok signed invalid_challenge e6 in
    let same_te = ap (λ p. p.0) (ok-injective h6) in
    let same_client = ap (λ p. p.1) (ok-injective h6) in
    subst (λ te. IsRead crc nacl sha256 pack now x server passphrase te client_account_id) same_te
      (subst (λ c. IsRead crc nacl sha256 pack now x server passphrase t c) same_client
        (record {
          not_muxed =
              not-true (is_muxed server) (require-eq-ok (not (is_muxed server)) value_error e1);
          sent = e2;
          challenge = check_transaction-IsChallenge now t.transaction server m e3;
          hashed = hashed;
          hash = e4;
          server_signed =
              verify_te_signed_by_account_id-Signs crc nacl hashed server (e5 ∙ ap ok is_true);
        }))
