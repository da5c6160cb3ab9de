-- ===== src/Transaction.antt =====
-- stellar_sdk/transaction.py.
pub mod RoundTrip
use py_stellar_base.Prelude.{ℕ, Bool, true, false, Option, none, some, List, [], ◌∷◌}
use py_stellar_base.Prelude.Int.{ℤ}
use py_stellar_base.Error.{Result, ok, err, attribute_error, ◌>>=◌}
use py_stellar_base.StrKey.{Crc16, XdrMuxedAccount, encode_ed25519_public_key}
use py_stellar_base.MuxedAccount
use py_stellar_base.MuxedAccount.{MuxedAccount, muxed_account, from_account}
use py_stellar_base.Keypair.{Keypair, from_public_key, public_key, xdr_account_id}
use py_stellar_base.Memo
use py_stellar_base.Memo.{Memo, XdrMemo, none_memo}
use py_stellar_base.TimeBounds
use py_stellar_base.TimeBounds.{TimeBounds, XdrTimeBounds}
use py_stellar_base.Operation.{XdrOperation, map_result, pack_xdr_array, unpack_xdr_array}
use py_stellar_base.Operation.Dispatch
use py_stellar_base.Operation.Dispatch.{AnyOperation, Body}

-- A source argument: a Keypair, a MuxedAccount, or the text of an account.
pub data Source : Type 0 where
  keypair : Keypair → Source
  muxed : MuxedAccount → Source
  address : List ℕ → Source

-- `v1` names the field; the later fields are as in the source.
pub record Transaction : Type 0 where
  pub source : MuxedAccount
  pub sequence : ℤ
  pub fee : ℤ
  pub operations : List AnyOperation
  pub memo : Memo
  pub time_bounds : Option TimeBounds
  pub v1 : Bool

-- What Xdr.types.TransactionV0 and Xdr.types.Transaction share after the source account. `ext` is void.
pub record XdrTransaction (S : Type 0) : Type 0 where
  pub source_account : S
  pub fee : ℤ
  pub seq_num : ℤ
  pub time_bounds : List XdrTimeBounds
  pub memo : XdrMemo
  pub operations : List (XdrOperation Body)

-- Either type, by the type of its source account: an ed25519 key or a muxed account.
pub data XdrTx : Type 0 where
  tx_v0 : XdrTransaction (List ℕ) → XdrTx
  tx_v1 : XdrTransaction XdrMuxedAccount → XdrTx

unfoldable pub time_bounds_to_xdr : Option TimeBounds → List XdrTimeBounds
unfolding pack_xdr_array
time_bounds_to_xdr none = []
time_bounds_to_xdr (some t) = pack_xdr_array (some (TimeBounds.to_xdr_object t))

unfoldable pub time_bounds_from_xdr : List XdrTimeBounds → Result (Option TimeBounds)
time_bounds_from_xdr [] = ok none
time_bounds_from_xdr (x ∷ rest) = do t ← TimeBounds.from_xdr_object x; ok (some t)

unfoldable pub memo_or_none : Option Memo → Memo
memo_or_none none = none_memo
memo_or_none (some m) = m

module _ (crc : Crc16) where
  unfoldable pub parse_source : Source → Result MuxedAccount
  parse_source (keypair kp) = do account_id ← public_key crc kp; muxed_account crc account_id none
  parse_source (muxed m) = ok m
  parse_source (address s) = from_account crc s

  -- `Transaction.__init__`
  unfoldable pub transaction :
      Source
      → ℤ
      → ℤ
      → List AnyOperation
      → Option Memo
      → Option TimeBounds
      → Bool
      → Result Transaction
  unfolding parse_source memo_or_none
  transaction source sequence fee operations memo time_bounds v1 = do
    s ← parse_source source
    ok (record {
      source = s;
      sequence = sequence;
      fee = fee;
      operations = operations;
      memo = memo_or_none memo;
      time_bounds = time_bounds;
      v1 = v1;
    })

  unfoldable pub xdr_transaction :
      {S : Type 0} → Transaction → List (XdrOperation Body) → S → XdrTransaction S
  unfolding time_bounds_to_xdr
  xdr_transaction tx operations source_xdr = record {
    source_account = source_xdr;
    fee = tx.fee;
    seq_num = tx.sequence;
    time_bounds = time_bounds_to_xdr tx.time_bounds;
    memo = Memo.to_xdr_object tx.memo;
    operations = operations;
  }

  unfoldable pub to_xdr_object : Transaction → Result XdrTx
  unfolding xdr_transaction
  to_xdr_object tx = do
    operations ← map_result (Dispatch.to_xdr_object crc) tx.operations
    elim tx.v1 [
      | true ↦ (do
        source_xdr ← MuxedAccount.to_xdr_object crc tx.source
        ok (tx_v1 (xdr_transaction tx operations source_xdr)))
      | false ↦ (do
        kp ← from_public_key crc tx.source.account_id
        ok (tx_v0 (xdr_transaction tx operations (xdr_account_id kp))))
    ]

  -- The fields after the source account, then the constructor
  unfoldable pub from_fields : {S : Type 0} → Source → XdrTransaction S → Bool → Result Transaction
  unfolding transaction time_bounds_from_xdr
  from_fields source x v1 = do
    time_bounds ← time_bounds_from_xdr x.time_bounds
    memo ← Memo.from_xdr_object x.memo
    operations ← map_result (Dispatch.from_xdr_object crc) x.operations
    transaction source x.seq_num x.fee operations (some memo) time_bounds v1

  -- The other type has no such source attribute.
  unfoldable pub from_xdr_object : XdrTx → Bool → Result Transaction
  unfolding from_fields
  from_xdr_object (tx_v1 x) true = do
    source ← MuxedAccount.from_xdr_object crc x.source_account
    from_fields (muxed source) x true
  from_xdr_object (tx_v0 x) true = err attribute_error
  from_xdr_object (tx_v0 x) false = do
    source ← encode_ed25519_public_key crc x.source_account
    from_fields (address source) x false
  from_xdr_object (tx_v1 x) false = err attribute_error
