-- ===== src/Transaction/RoundTrip.antt =====
-- Valid transactions are read back from their XDR objects.
use py_stellar_base.Prelude.{
  suc, length, Bool, true, false, Option, none, some, List, [], ◌∷◌, ◌≡◌, refl, ap, if◌then◌else◌,
}
use py_stellar_base.Error.{Result, ok, ◌>>=◌, >>=-eq-ok}
use py_stellar_base.StrKey.{Crc16}
use py_stellar_base.MuxedAccount
use py_stellar_base.MuxedAccount.{MuxedAccount, from_account}
use py_stellar_base.MuxedAccount.RoundTrip as AccountLaws
use py_stellar_base.MuxedAccount.RoundTrip.{from_account-address}
use py_stellar_base.Memo.RoundTrip as MemoLaws
use py_stellar_base.TimeBounds.{TimeBounds}
use py_stellar_base.TimeBounds.Range.{IsRange, time_bounds-from_xdr-to_xdr}
use py_stellar_base.Operation.{map_result, pack_xdr_array}
use py_stellar_base.Operation.Sources.{muxed-ReadsBack, IsAddress, from_public_key_lem}
use py_stellar_base.Operation.Dispatch
use py_stellar_base.Operation.Dispatch.{AnyOperation}
use py_stellar_base.Operation.Dispatch.Stable.{to_xdr_object-resend}
use py_stellar_base.Operation.Dispatch.Laws as OperationLaws
use py_stellar_base.Transaction.{
  Transaction, time_bounds_to_xdr, time_bounds_from_xdr, memo_or_none, parse_source, transaction,
  xdr_transaction, to_xdr_object, from_fields, from_xdr_object,
}

abbrev pub HasTimeBounds : Option TimeBounds → Type 0
HasTimeBounds none = Unit
HasTimeBounds (some t) = IsRange t.min_time t.max_time

abbrev pub AllValid : Crc16 → List AnyOperation → Type 0
AllValid crc [] = Unit
AllValid crc (op ∷ ops) = OperationLaws.IsValid crc op × AllValid crc ops

abbrev pub resend_all :
    (crc : Crc16) (ops : List AnyOperation) → AllValid crc ops → List AnyOperation
resend_all crc [] v = []
resend_all crc (op ∷ ops) v = OperationLaws.resend crc op (v.0) ∷ resend_all crc ops (v.1)

-- What the constructors of the parts accept.
pub record IsValid (crc : Crc16) (tx : Transaction) : Type 0 where
  pub source : AccountLaws.IsValid crc tx.source
  pub memo : MemoLaws.IsValid tx.memo
  pub time_bounds : HasTimeBounds tx.time_bounds
  pub operations : AllValid crc tx.operations

-- A TransactionV0 has no room for the identifier of a muxed source.
abbrev pub kept_source : Bool → MuxedAccount → MuxedAccount
kept_source v1 m = if v1 then m else record m { account_id_id = none }

-- Every list of valid operations has an XDR form, and is read back in its order.
pub record ReadsBackAs {A B : Type 0} (to : A → Result B) (from : B → Result A) (a b : A)
    : Type 0 where
  pub form : B
  pub written : to a ≡ ok form
  pub read : from form ≡ ok b

time_bounds_lem :
    (t : Option TimeBounds) → HasTimeBounds t → time_bounds_from_xdr (time_bounds_to_xdr t) ≡ ok t
unfolding time_bounds_from_xdr time_bounds_to_xdr pack_xdr_array
time_bounds_lem none v = refl
time_bounds_lem (some t) v = rw (time_bounds-from_xdr-to_xdr t v)

pub reads_back_as :
    {A B : Type 0} (to : A → Result B) (from : B → Result A) (a b : A)
    → (to a >>= from) ≡ ok b
    → ReadsBackAs to from a b
reads_back_as to from a b h =
    let (x, w, r) = >>=-eq-ok (to a) from h in record { form = x; written = w; read = r }

operations-ReadsBackAs :
    (crc : Crc16) (ops : List AnyOperation) (v : AllValid crc ops)
    → ReadsBackAs
        (map_result (Dispatch.to_xdr_object crc))
        (map_result (Dispatch.from_xdr_object crc))
        ops
        (resend_all crc ops v)
unfolding map_result
operations-ReadsBackAs crc [] v = record { form = []; written = refl; read = refl }
operations-ReadsBackAs crc (op ∷ ops) v =
    let r =
      reads_back_as (Dispatch.to_xdr_object crc) (Dispatch.from_xdr_object crc) op
        (OperationLaws.resend crc op (v.0))
        (OperationLaws.operation-from_xdr-to_xdr crc op (v.0)) in
    let rs = operations-ReadsBackAs crc ops (v.1) in
    record {
      form = r.form ∷ rs.form;
      written = rw (r.written, rs.written);
      read = rw (r.read, rs.read);
    }

-- The text of the key alone stands for the account without its identifier.
pub from_account_key :
    (crc : Crc16) (m : MuxedAccount)
    → AccountLaws.IsValid crc m
    → from_account crc m.account_id ≡ ok (record m { account_id_id = none })
unfolding AccountLaws.address MuxedAccount.account_id_muxed
from_account_key crc m v =
    from_account-address crc (record m { account_id_id = none })
      (record { key = v.key; is_key = v.is_key; text = v.text; fits = tt })

abbrev pub sent_back : (crc : Crc16) (tx : Transaction) → IsValid crc tx → Bool → Transaction
sent_back crc tx v v1 = record tx {
  source = kept_source v1 tx.source;
  operations = resend_all crc tx.operations v.operations;
  v1 = v1;
}

read_back :
    (crc : Crc16) (tx : Transaction) (v : IsValid crc tx) (v1 : Bool)
    → (to_xdr_object crc (record tx { v1 = v1 }) >>= λ x. from_xdr_object crc x v1)
      ≡ ok (sent_back crc tx v v1)
unfolding to_xdr_object from_xdr_object xdr_transaction from_fields transaction parse_source
    memo_or_none
read_back crc tx v true =
    let ops = operations-ReadsBackAs crc tx.operations v.operations in
    let s = muxed-ReadsBack crc tx.source v.source in
    rw (
      ops.written,
      s.written,
      s.read,
      time_bounds_lem tx.time_bounds v.time_bounds,
      MemoLaws.memo-from_xdr-to_xdr tx.memo v.memo,
      ops.read,
    )
read_back crc tx v false =
    let ops = operations-ReadsBackAs crc tx.operations v.operations in
    let a : IsAddress crc tx.source.account_id = record {
      key = v.source.key;
      is_key = v.source.is_key;
      text = v.source.text;
    } in
    rw (
      ops.written,
      from_public_key_lem crc tx.source.account_id a,
      v.source.text,
      time_bounds_lem tx.time_bounds v.time_bounds,
      MemoLaws.memo-from_xdr-to_xdr tx.memo v.memo,
      ops.read,
      from_account_key crc tx.source v.source,
    )

-- A valid transaction is read back from its XDR object, all operations in order, each as the object that
-- its own XDR form reads as. The source keeps its identifier in a v1 transaction and loses it in a v0 one.
pub transaction-from_xdr-to_xdr :
    (crc : Crc16) (tx : Transaction) (v : IsValid crc tx)
    → (to_xdr_object crc tx >>= λ x. from_xdr_object crc x tx.v1)
      ≡ ok (record tx {
        source = kept_source tx.v1 tx.source;
        operations = resend_all crc tx.operations v.operations;
      })
transaction-from_xdr-to_xdr crc tx v = read_back crc tx v tx.v1

operations_again :
    (crc : Crc16) (ops : List AnyOperation) (v : AllValid crc ops)
    → map_result (Dispatch.to_xdr_object crc) (resend_all crc ops v)
      ≡ map_result (Dispatch.to_xdr_object crc) ops
unfolding map_result
operations_again crc [] v = refl
operations_again crc (op ∷ ops) v =
    rw (to_xdr_object-resend crc op (v.0), operations_again crc ops (v.1)) refl

pub sent_again :
    (crc : Crc16) (tx : Transaction) (v : IsValid crc tx) (v1 : Bool)
    → to_xdr_object crc (sent_back crc tx v v1) ≡ to_xdr_object crc (record tx { v1 = v1 })
unfolding to_xdr_object xdr_transaction
sent_again crc tx v true = rw (operations_again crc tx.operations v.operations) refl
sent_again crc tx v false = rw (operations_again crc tx.operations v.operations) refl

-- A valid transaction that was sent and read back has the XDR object that it had.
pub to_xdr_object-sent_back :
    (crc : Crc16) (tx : Transaction) (v : IsValid crc tx)
    → to_xdr_object crc (sent_back crc tx v tx.v1) ≡ to_xdr_object crc tx
to_xdr_object-sent_back crc tx v = sent_again crc tx v tx.v1

pub length-resend_all :
    (crc : Crc16) (ops : List AnyOperation) (v : AllValid crc ops)
    → length (resend_all crc ops v) ≡ length ops
length-resend_all crc [] v = refl
length-resend_all crc (op ∷ ops) v = ap suc (length-resend_all crc ops (v.1))
