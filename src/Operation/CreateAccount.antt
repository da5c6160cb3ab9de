-- ===== src/Operation/CreateAccount.antt =====
-- stellar_sdk/operation/create_account.py.
use py_stellar_base.Prelude.{ℕ, ◌≡◌, Option, List}
use py_stellar_base.Error.{Result, ok, ◌>>=◌, ◌>>◌}
use py_stellar_base.StrKey.{Crc16, encode_ed25519_public_key}
use py_stellar_base.MuxedAccount.{MuxedAccount}
use py_stellar_base.Keypair.{from_public_key, xdr_account_id}
use py_stellar_base.Decimal.{Decimal}
use py_stellar_base.Amount.{to_xdr_amount, from_xdr_amount, check_amount}
use py_stellar_base.Operation.{
  Account, XdrOperation, parse_source, as_source, to_xdr_object, get_source_from_xdr_obj,
  check_ed25519_public_key,
}
use py_stellar_base.Operation.Sources.{
  HasSource, source-ReadsBack, IsAddress, from_public_key_lem, check_ed25519_public_key_lem,
  parse_source-as_source, ready_amount, resent,
}

pub record CreateAccount : Type 0 where
  pub source : Option MuxedAccount
  pub destination : List ℕ
  pub starting_balance : Decimal

-- Xdr.types.CreateAccountOp
pub record CreateAccountOp : Type 0 where
  pub destination : List ℕ
  pub starting_balance : ℕ

module _ (crc : Crc16) where
  -- `CreateAccount.__init__`
  unfoldable pub create_account : List ℕ → Decimal → Option Account → Result CreateAccount
  create_account destination starting_balance source = do
    s ← parse_source crc source
    check_ed25519_public_key crc destination
    check_amount starting_balance
    ok (record { source = s; destination = destination; starting_balance = starting_balance })

  unfoldable pub to_operation_body : CreateAccount → Result CreateAccountOp
  to_operation_body op = do
    kp ← from_public_key crc op.destination
    balance ← to_xdr_amount op.starting_balance
    ok (record { destination = xdr_account_id kp; starting_balance = balance })

  unfoldable pub from_xdr_object : XdrOperation CreateAccountOp → Result CreateAccount
  from_xdr_object x = do
    source ← get_source_from_xdr_obj crc x.source_account
    destination ← encode_ed25519_public_key crc x.body.destination
    create_account destination (from_xdr_amount x.body.starting_balance) (as_source source)

-- What the constructor and the network accept.
pub record IsValid (crc : Crc16) (op : CreateAccount) : Type 0 where
  pub source : HasSource crc op.source
  pub destination : IsAddress crc op.destination
  pub starting_balance : check_amount op.starting_balance ≡ ok tt

-- A valid operation is read back from its XDR form, its balance as the Decimal that the units read as.
pub create_account-from_xdr-to_xdr :
    (crc : Crc16) (op : CreateAccount)
    → IsValid crc op
    → (to_xdr_object crc op.source (to_operation_body crc op) >>= from_xdr_object crc)
      ≡ ok (record op { starting_balance = resent op.starting_balance })
unfolding to_xdr_object to_operation_body from_xdr_object create_account
create_account-from_xdr-to_xdr crc op v =
    let s = source-ReadsBack crc op.source v.source in
    let (sent, accepted) = ready_amount op.starting_balance v.starting_balance in
    rw (
      s.written,
      from_public_key_lem crc op.destination v.destination,
      sent,
      s.read,
      v.destination.text,
      parse_source-as_source crc op.source,
      check_ed25519_public_key_lem crc op.destination v.destination,
      accepted,
    )
