-- ===== src/Operation.antt =====
-- stellar_sdk/operation/operation.py and utils.py: what every operation shares. Each class is a child
-- module, with a record for its object and one for its XDR body.
pub mod Sources
pub mod Payment
pub mod CreateAccount
pub mod PathPaymentStrictReceive
pub mod PathPaymentStrictSend
pub mod AccountMerge
pub mod Inflation
pub mod BumpSequence
pub mod ChangeTrust
pub mod ManageData
pub mod AllowTrust
pub mod SetOptions
pub mod Offers
pub mod Dispatch
use py_stellar_base.Prelude.{ℕ, Bool, Option, none, some, List, [], ◌∷◌}
use py_stellar_base.Error.{Result, ok, err, ◌>>=◌}
use py_stellar_base.StrKey.{Crc16, XdrMuxedAccount, decode_muxed_account}
use py_stellar_base.MuxedAccount
use py_stellar_base.MuxedAccount.{MuxedAccount, from_account}
use py_stellar_base.Keypair.{Keypair, from_public_key}

-- An account argument: a MuxedAccount, or the text of one.
pub data Account : Type 0 where
  muxed : MuxedAccount → Account
  address : List ℕ → Account

-- Xdr.types.Operation: zero or one source account, and a body.
pub record XdrOperation (B : Type 0) : Type 0 where
  pub source_account : List XdrMuxedAccount
  pub body : B

module _ {A B : Type 0} (f : A → Result B) where
  -- `[f(x) for x in xs]`
  unfoldable pub map_result : List A → Result (List B)
  map_result [] = ok []
  map_result (x ∷ xs) = do y ← f x; ys ← map_result xs; ok (y ∷ ys)

-- pack_xdr_array and unpack_xdr_array of stellar_sdk/utils.py
module _ {A : Type 0} where
  unfoldable pub pack_xdr_array : Option A → List A
  pack_xdr_array none = []
  pack_xdr_array (some x) = x ∷ []

  unfoldable pub unpack_xdr_array : List A → Option A
  unpack_xdr_array [] = none
  unpack_xdr_array (x ∷ xs) = some x

-- A source that was read, as the argument of a constructor.
abbrev pub as_source : Option MuxedAccount → Option Account
as_source none = none
as_source (some m) = some (muxed m)

module _ (crc : Crc16) where
  unfoldable pub parse_mux_account_from_account : Account → Result MuxedAccount
  parse_mux_account_from_account (muxed m) = ok m
  parse_mux_account_from_account (address s) = from_account crc s

  -- `Operation.__init__`
  unfoldable pub parse_source : Option Account → Result (Option MuxedAccount)
  unfolding parse_mux_account_from_account
  parse_source none = ok none
  parse_source (some source) = do m ← parse_mux_account_from_account source; ok (some m)

  unfoldable pub source_to_xdr : Option MuxedAccount → Result (List XdrMuxedAccount)
  source_to_xdr none = ok []
  source_to_xdr (some m) = do x ← MuxedAccount.to_xdr_object crc m; ok (x ∷ [])

  -- `Operation.to_xdr_object`: the source account, then the body of the subclass
  unfoldable pub to_xdr_object :
      {B : Type 0} → Option MuxedAccount → Result B → Result (XdrOperation B)
  unfolding source_to_xdr
  to_xdr_object source operation_body = do
    source_account ← source_to_xdr source
    body ← operation_body
    ok (record { source_account = source_account; body = body })

  unfoldable pub get_source_from_xdr_obj : List XdrMuxedAccount → Result (Option MuxedAccount)
  get_source_from_xdr_obj [] = ok none
  get_source_from_xdr_obj (x ∷ rest) = do m ← MuxedAccount.from_xdr_object crc x; ok (some m)

  -- utils.check_ed25519_public_key of operation/utils.py
  unfoldable pub check_ed25519_public_key : List ℕ → Result (Unit {0})
  check_ed25519_public_key public_key = do kp ← from_public_key crc public_key; ok tt

  unfoldable pub check_source : Option (List ℕ) → Result (Unit {0})
  check_source none = ok tt
  check_source (some source) = do x ← decode_muxed_account crc source; ok tt
