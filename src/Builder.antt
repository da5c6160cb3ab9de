-- ===== src/Builder.antt =====
-- stellar_sdk/account.py and transaction_builder.py. A builder shares its Account with the program, and its
-- list of operations with the transactions that it built: both are parts of the one state.
pub mod Append
pub mod History
pub mod Reopened
use py_stellar_base.Prelude.{
  ℕ, ◌+◌, Bool, false, not, Option, none, some, List, [], ◌∷◌, ◌++◌, length, ◌==◌, ◌⊎◌, inl, inr,
}
use py_stellar_base.Prelude.Int.{ℤ, pos, negsuc, ◌+ℤ◌}
use py_stellar_base.Error.{Result, ok, err, value_error, zero_division, ◌>>=◌, ◌>>◌, require}
use py_stellar_base.StrKey.{Crc16}
use py_stellar_base.MuxedAccount.{MuxedAccount}
use py_stellar_base.Keypair.{DecoratedSignature}
use py_stellar_base.Memo.{
  Memo, Text, none_memo, make_text_memo, make_id_memo, make_hash_memo, make_return_hash_memo,
  hex_to_bytes,
}
use py_stellar_base.Memo
use py_stellar_base.TimeBounds
use py_stellar_base.TimeBounds.{TimeBounds}
use py_stellar_base.Operation.{parse_mux_account_from_account}
use py_stellar_base.Operation as Operation
use py_stellar_base.Operation.Dispatch.{AnyOperation}
use py_stellar_base.Transaction
use py_stellar_base.Transaction.{Source, muxed, Transaction}
use py_stellar_base.Envelope
use py_stellar_base.Envelope.{TransactionEnvelope, base_envelope}
use py_stellar_base.FeeBump.{
  times, quotient, fee_bump_transaction, FeeBumpTransactionEnvelope, XdrEnvelope, envelope,
  envelope_fee_bump, envelope_unknown, envelope_from_xdr,
}

pub record Account : Type 0 where
  pub account_id : MuxedAccount
  pub sequence : ℤ

pub record TransactionBuilder : Type 0 where
  pub source_account : Account
  pub base_fee : ℤ
  pub network_passphrase : List ℕ
  pub operations : List AnyOperation
  pub time_bounds : Option TimeBounds
  pub memo : Memo
  pub v1 : Bool

-- `Account.__init__`
unfoldable pub account : Crc16 → Operation.Account → ℤ → Result Account
account crc account_id sequence = do
  m ← parse_mux_account_from_account crc account_id
  ok (record { account_id = m; sequence = sequence })

unfoldable pub increment_sequence_number : Account → Account
increment_sequence_number a = record a { sequence = a.sequence +ℤ pos 1 }

-- `TransactionBuilder.__init__`
unfoldable pub transaction_builder : Account → List ℕ → ℤ → Bool → TransactionBuilder
transaction_builder source_account network_passphrase base_fee v1 = record {
  source_account = source_account;
  base_fee = base_fee;
  network_passphrase = network_passphrase;
  operations = [];
  time_bounds = none;
  memo = none_memo;
  v1 = v1;
}

unfoldable pub append_operation : TransactionBuilder → AnyOperation → TransactionBuilder
append_operation b operation = record b { operations = b.operations ++ operation ∷ [] }

unfoldable pub add_memo : TransactionBuilder → Memo → TransactionBuilder
add_memo b memo = record b { memo = memo }

unfoldable pub add_text_memo : TransactionBuilder → Text → Result TransactionBuilder
unfolding add_memo
add_text_memo b memo_text = do memo ← make_text_memo memo_text; ok (add_memo b memo)

unfoldable pub add_id_memo : TransactionBuilder → ℤ → Result TransactionBuilder
unfolding add_memo
add_id_memo b memo_id = do memo ← make_id_memo memo_id; ok (add_memo b memo)

unfoldable pub add_hash_memo : TransactionBuilder → Text → Result TransactionBuilder
unfolding add_memo
add_hash_memo b memo_hash = do
  hash ← hex_to_bytes memo_hash
  memo ← make_hash_memo (Memo.bytes hash)
  ok (add_memo b memo)

unfoldable pub add_return_hash_memo : TransactionBuilder → Text → Result TransactionBuilder
unfolding add_memo
add_return_hash_memo b memo_return = do
  hash ← hex_to_bytes memo_return
  memo ← make_return_hash_memo (Memo.bytes hash)
  ok (add_memo b memo)

unfoldable pub add_time_bounds : TransactionBuilder → ℤ → ℤ → Result TransactionBuilder
add_time_bounds b min_time max_time = do
  t ← TimeBounds.time_bounds min_time max_time
  ok (record b { time_bounds = some t })

-- `now` is `int(time.time())`.
unfoldable pub set_timeout : ℤ → TransactionBuilder → ℤ → Result TransactionBuilder
set_timeout now b timeout = elim b.time_bounds [
  | some t ↦ err value_error
  | none ↦ (do
    t ← TimeBounds.time_bounds (pos 0) (now +ℤ timeout)
    ok (record b { time_bounds = some t }))
]

module _ (crc : Crc16) (sha256 : List ℕ → List ℕ) where
  -- The envelope, and the builder with its account's next sequence number
  unfoldable pub build : TransactionBuilder → Result (TransactionEnvelope × TransactionBuilder)
  unfolding increment_sequence_number
  build b = do
    tx ←
        Transaction.transaction crc (muxed b.source_account.account_id)
          (b.source_account.sequence +ℤ pos 1) (times b.base_fee (length b.operations)) b.operations
          (some b.memo) b.time_bounds b.v1
    te ← base_envelope sha256 tx b.network_passphrase []
    ok (te, record b { source_account = increment_sequence_number b.source_account })

  unfoldable pub build_fee_bump_transaction :
      Source → ℤ → TransactionEnvelope → List ℕ → Result FeeBumpTransactionEnvelope
  build_fee_bump_transaction fee_source base_fee inner_transaction_envelope network_passphrase = do
    tx ← fee_bump_transaction crc fee_source base_fee inner_transaction_envelope
    base_envelope sha256 tx network_passphrase []

  -- A builder with the fields of an envelope; its `v1` is the default. No operations is a division by zero.
  unfoldable pub reopen : TransactionEnvelope → List ℕ → Result TransactionBuilder
  unfolding account transaction_builder
  reopen te network_passphrase = do
    let tx = te.transaction
    source_account ← account crc (Operation.muxed tx.source) (tx.sequence +ℤ negsuc 0)
    require (not (length tx.operations == 0)) zero_division
    let b =
        transaction_builder source_account network_passphrase
          (quotient tx.fee (length tx.operations)) false
    ok (record b { time_bounds = tx.time_bounds; operations = tx.operations; memo = tx.memo })

  -- `from_xdr`, of an unpacked object
  unfoldable pub from_xdr :
      XdrEnvelope → List ℕ → Result (TransactionBuilder ⊎ FeeBumpTransactionEnvelope)
  unfolding reopen
  from_xdr (envelope_fee_bump x signatures) network_passphrase = do
    te ← envelope_from_xdr crc sha256 (envelope_fee_bump x signatures) network_passphrase
    ok (inr te)
  from_xdr (envelope x) network_passphrase = do
    te ← Envelope.from_xdr_object crc sha256 x network_passphrase
    b ← reopen te network_passphrase
    ok (inl b)
  from_xdr (envelope_unknown type) network_passphrase = err value_error
