-- ===== src/Builder/History.antt =====
-- Calls on one builder in any order: the transactions that it built are numbered in a row, share its list
-- of operations, and pay the base fee for the operations that they had when they were built.
use mathlib.Core.Path.{subst}
use py_stellar_base.Prelude.{
  ℕ, ◌≤◌, ◌≡◌, refl, ap, ◌∙◌, arith, Bool, List, [], ◌∷◌, ◌++◌, map, length, length-append, All,
  Option, none, some,
}
use py_stellar_base.Prelude.Int.{ℤ, pos, ◌+ℤ◌}
use py_stellar_base.Error.{ok, >>=-eq-ok, ok-injective}
use py_stellar_base.StrKey.{Crc16}
use py_stellar_base.Memo.{Memo}
use py_stellar_base.TimeBounds
use py_stellar_base.Operation.Dispatch.{AnyOperation}
use py_stellar_base.Transaction.{Transaction}
use py_stellar_base.Transaction
use py_stellar_base.Envelope.{TransactionEnvelope, base_envelope, network_id}
use py_stellar_base.FeeBump.{times}
use py_stellar_base.Builder.{
  Account, TransactionBuilder, increment_sequence_number, transaction_builder, append_operation,
  add_memo, add_time_bounds, set_timeout, build,
}

-- A builder and the envelopes that it built, the last one first.
pub record Session : Type 0 where
  pub builder : TransactionBuilder
  pub built : List TransactionEnvelope

-- A built transaction holds the builder's own list, so that an append reaches it too.
abbrev pub share : List AnyOperation → TransactionEnvelope → TransactionEnvelope
share operations te = record te { transaction = record te.transaction { operations = operations } }

abbrev pub append_in : Session → AnyOperation → Session
append_in s op =
    let b = append_operation s.builder op in
    record { builder = b; built = map (share b.operations) s.built }

module _ (crc : Crc16) (sha256 : List ℕ → List ℕ) where
  -- One call of a method that returns.
  pub data Step : Session → Session → Type 0 where
    appended : (s : Session) (op : AnyOperation) → Step s (append_in s op)
    memo_added : (s : Session) (m : Memo) → Step s (record s { builder = add_memo s.builder m })
    time_bounds_added :
        (s : Session) (lo hi : ℤ) (b : TransactionBuilder)
        → add_time_bounds s.builder lo hi ≡ ok b
        → Step s (record s { builder = b })
    timeout_set :
        (s : Session) (now timeout : ℤ) (b : TransactionBuilder)
        → set_timeout now s.builder timeout ≡ ok b
        → Step s (record s { builder = b })
    envelope_built :
        (s : Session) (te : TransactionEnvelope) (b : TransactionBuilder)
        → build crc sha256 s.builder ≡ ok (te, b)
        → Step s (record { builder = b; built = te ∷ s.built })

  pub data Reach : Session → Session → Type 0 where
    stay : (s : Session) → Reach s s
    then_step : {s t u : Session} → Reach s t → Step t u → Reach s u

-- The sequence numbers of the envelopes count up from `start` to `last`.
pub data Numbered (start : ℤ) : List TransactionEnvelope → ℤ → Type 0 where
  none_built : Numbered start [] start
  next_built :
      (te : TransactionEnvelope) (built : List TransactionEnvelope) (last : ℤ)
      → Numbered start built last
      → te.transaction.sequence ≡ last +ℤ pos 1
      → Numbered start (te ∷ built) (last +ℤ pos 1)

-- Paid for as many operations as there were, which are no more than there are.
abbrev pub IsPaid : ℤ → List AnyOperation → TransactionEnvelope → Type 0
IsPaid base_fee operations te =
    (te.transaction.operations ≡ operations)
    × ((k : ℕ) × (k ≤ length operations) × (te.transaction.fee ≡ times base_fee k))

pub record IsConsistent (start base_fee : ℤ) (s : Session) : Type 0 where
  pub base : s.builder.base_fee ≡ base_fee
  pub numbered : Numbered start s.built s.builder.source_account.sequence
  pub paid : All (IsPaid base_fee s.builder.operations) s.built

share-Numbered :
    (start last : ℤ) (operations : List AnyOperation) (built : List TransactionEnvelope)
    → Numbered start built last
    → Numbered start (map (share operations) built) last
share-Numbered start last operations built none_built = none_built
share-Numbered start last operations built (next_built te rest before n e) =
    next_built (share operations te) (map (share operations) rest) before
      (share-Numbered start before operations rest n) e

share-IsPaid :
    (base_fee : ℤ) (operations : List AnyOperation) (op : AnyOperation)
    (built : List TransactionEnvelope)
    → All (IsPaid base_fee operations) built
    → All (IsPaid base_fee (operations ++ op ∷ [])) (map (share (operations ++ op ∷ [])) built)
share-IsPaid base_fee operations op [] h = tt
share-IsPaid base_fee operations op (te ∷ built) ((same, (k, le, paid)), hs) = (
  (refl, (k, omega (arith, length-append operations (op ∷ [])), paid)),
  share-IsPaid base_fee operations op built hs,
)

-- The envelope that a builder makes next, in a network with this id
abbrev pub next_transaction : TransactionBuilder → Transaction
next_transaction b = record {
  source = b.source_account.account_id;
  sequence = b.source_account.sequence +ℤ pos 1;
  fee = times b.base_fee (length b.operations);
  operations = b.operations;
  memo = b.memo;
  time_bounds = b.time_bounds;
  v1 = b.v1;
}

abbrev pub next_envelope : TransactionBuilder → List ℕ → TransactionEnvelope
next_envelope b id = record { network_id = id; signatures = []; transaction = next_transaction b }

abbrev pub counted : TransactionBuilder → TransactionBuilder
counted b = record b { source_account = increment_sequence_number b.source_account }

module _ (crc : Crc16) (sha256 : List ℕ → List ℕ) (b : TransactionBuilder) where
  pub build_lem :
      (id : List ℕ)
      → network_id sha256 b.network_passphrase ≡ ok id
      → build crc sha256 b ≡ ok (next_envelope b id, counted b)
  unfolding build Transaction.transaction Transaction.parse_source Transaction.memo_or_none
      base_envelope
  build_lem id h = rw h refl

  build-eq-ok :
      (out : TransactionBuilder) (te : TransactionEnvelope)
      → build crc sha256 b ≡ ok (te, out)
      → (id : List ℕ) × (next_envelope b id ≡ te) × (counted b ≡ out)
  unfolding build Transaction.transaction Transaction.parse_source Transaction.memo_or_none
      base_envelope
  build-eq-ok out te h =
      let (te0, h1, e1) =
        >>=-eq-ok (base_envelope sha256 (next_transaction b) b.network_passphrase []) _ h in
      let (id, named, e2) = >>=-eq-ok (network_id sha256 b.network_passphrase) _ h1 in
      let e = ok-injective e1 in (id, ok-injective e2 ∙ ap (λ p. p.0) e, ap (λ p. p.1) e)

add_time_bounds-eq-ok :
    (b out : TransactionBuilder) (lo hi : ℤ)
    → add_time_bounds b lo hi ≡ ok out
    → record b { time_bounds = out.time_bounds } ≡ out
unfolding add_time_bounds
add_time_bounds-eq-ok b out lo hi h =
    let (t, made, e) = >>=-eq-ok (TimeBounds.time_bounds lo hi) _ h in
    subst (λ o. record b { time_bounds = TransactionBuilder.time_bounds o } ≡ o) (ok-injective e)
      refl

set_timeout_from :
    (now : ℤ) (b out : TransactionBuilder) (timeout : ℤ) (o : Option TimeBounds.TimeBounds)
    → set_timeout now (record b { time_bounds = o }) timeout ≡ ok out
    → record b { time_bounds = out.time_bounds } ≡ out
unfolding set_timeout
set_timeout_from now b out timeout (some t) h = cc
set_timeout_from now b out timeout none h =
    let (t, made, e) = >>=-eq-ok (TimeBounds.time_bounds (pos 0) (now +ℤ timeout)) _ h in
    subst (λ o. record b { time_bounds = TransactionBuilder.time_bounds o } ≡ o) (ok-injective e)
      refl

set_timeout-eq-ok :
    (now : ℤ) (b out : TransactionBuilder) (timeout : ℤ)
    → set_timeout now b timeout ≡ ok out
    → record b { time_bounds = out.time_bounds } ≡ out
set_timeout-eq-ok now b out timeout h = set_timeout_from now b out timeout b.time_bounds h

-- Every call keeps the builder consistent with what it built.
Step-IsConsistent :
    (crc : Crc16) (sha256 : List ℕ → List ℕ) (start base_fee : ℤ) {s t : Session}
    → IsConsistent start base_fee s
    → Step crc sha256 s t
    → IsConsistent start base_fee t
unfolding append_operation add_memo increment_sequence_number
Step-IsConsistent crc sha256 start base_fee c (appended s op) = record {
  base = c.base;
  numbered =
      share-Numbered start s.builder.source_account.sequence (s.builder.operations ++ op ∷ [])
        s.built c.numbered;
  paid = share-IsPaid base_fee s.builder.operations op s.built c.paid;
}
Step-IsConsistent crc sha256 start base_fee c (memo_added s m) = record {
  base = c.base;
  numbered = c.numbered;
  paid = c.paid;
}
Step-IsConsistent crc sha256 start base_fee c (time_bounds_added s lo hi b h) =
    subst (λ b. IsConsistent start base_fee (record { builder = b; built = s.built }))
      (add_time_bounds-eq-ok s.builder b lo hi h)
      (record { base = c.base; numbered = c.numbered; paid = c.paid })
Step-IsConsistent crc sha256 start base_fee c (timeout_set s now timeout b h) =
    subst (λ b. IsConsistent start base_fee (record { builder = b; built = s.built }))
      (set_timeout-eq-ok now s.builder b timeout h)
      (record { base = c.base; numbered = c.numbered; paid = c.paid })
Step-IsConsistent crc sha256 start base_fee c (envelope_built s te b h) =
    let (id, made, out) = build-eq-ok crc sha256 s.builder b te h in
    subst (λ b. IsConsistent start base_fee (record { builder = b; built = te ∷ s.built })) out
      (subst
        (λ te.
          IsConsistent start base_fee
            (record { builder = counted s.builder; built = te ∷ s.built }))
        made
        (record {
          base = c.base;
          numbered =
              next_built (next_envelope s.builder id) s.built s.builder.source_account.sequence
                c.numbered refl;
          paid = (
            (
              refl,
              (
                length s.builder.operations,
                omega arith,
                ap (λ b. times b (length s.builder.operations)) c.base,
              ),
            ),
            c.paid,
          );
        }))

Reach-IsConsistent :
    (crc : Crc16) (sha256 : List ℕ → List ℕ) (start base_fee : ℤ) {s t : Session}
    → IsConsistent start base_fee s
    → Reach crc sha256 s t
    → IsConsistent start base_fee t
Reach-IsConsistent crc sha256 start base_fee c (stay s) = c
Reach-IsConsistent crc sha256 start base_fee c (then_step r s) =
    Step-IsConsistent crc sha256 start base_fee (Reach-IsConsistent crc sha256 start base_fee c r) s

-- After any calls on a new builder: the transactions that it built have the sequence numbers that follow the
-- account's first one, in a row, and the account holds the last; each of them holds the builder's list of
-- operations as it is now; and its fee is the base fee for a number of operations that is no more than that.
pub transaction_builder-IsConsistent :
    (crc : Crc16) (sha256 : List ℕ → List ℕ) (source_account : Account) (passphrase : List ℕ)
    (base_fee : ℤ) (v1 : Bool) (s : Session)
    → Reach crc sha256
        (record { builder = transaction_builder source_account passphrase base_fee v1; built = [] })
        s
    → IsConsistent source_account.sequence base_fee s
unfolding transaction_builder
transaction_builder-IsConsistent crc sha256 source_account passphrase base_fee v1 s r =
    Reach-IsConsistent crc sha256 source_account.sequence base_fee
      (record { base = refl; numbered = none_built; paid = tt }) r
