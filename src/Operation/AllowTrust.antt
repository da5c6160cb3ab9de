-- ===== src/Operation/AllowTrust.antt =====
-- stellar_sdk/operation/allow_trust.py.
use py_stellar_base.Prelude.{
  ℕ, ◌≡◌, Bool, true, false, Option, List, ◌==◌, if◌then◌else◌, length, rstrip,
}
use py_stellar_base.Error.{Result, ok, err, ◌>>=◌, ◌>>◌}
use py_stellar_base.StrKey.{Crc16, encode_ed25519_public_key}
use py_stellar_base.MuxedAccount.{MuxedAccount}
use py_stellar_base.Keypair.{from_public_key, xdr_account_id}
use py_stellar_base.Operation.{
  Account, XdrOperation, parse_source, as_source, to_xdr_object, get_source_from_xdr_obj,
  check_ed25519_public_key,
}
use py_stellar_base.Operation.Sources.{
  HasSource, source-ReadsBack, IsAddress, from_public_key_lem, check_ed25519_public_key_lem,
  parse_source-as_source,
}
use py_stellar_base.Error.{attribute_error}
use py_stellar_base.Asset.{check_if_asset_code_is_valid, pad_code}
use py_stellar_base.Asset.Code.{IsWord, matches-word}
use py_stellar_base.Asset.RoundTrip.{strip_code}
use py_stellar_base.Text.{decode_utf8}
use py_stellar_base.Prelude.{Bool-cases, inl, inr}

-- A TrustLineEntryFlag is an IntFlag, which stands for any number.
pub data Authorize : Type 0 where
  boolean : Bool → Authorize
  flag : ℕ → Authorize

pub record AllowTrust : Type 0 where
  pub source : Option MuxedAccount
  pub trustor : List ℕ
  pub asset_code : List ℕ
  pub authorize : ℕ

-- `asset` of Xdr.types.AllowTrustOp, a union by its type
pub data XdrAssetCode : Type 0 where
  asset_code4 asset_code12 : List ℕ → XdrAssetCode
  asset_code_other : ℕ → XdrAssetCode

-- Xdr.types.AllowTrustOp
pub record AllowTrustOp : Type 0 where
  pub trustor : List ℕ
  pub asset : XdrAssetCode
  pub authorize : ℕ

unfoldable pub authorize_flag : Authorize → ℕ
authorize_flag (boolean true) = 1
authorize_flag (boolean false) = 0
authorize_flag (flag n) = n

unfoldable pub asset_code_to_xdr : List ℕ → XdrAssetCode
asset_code_to_xdr asset_code =
    if length asset_code == 4 then asset_code4 asset_code else asset_code12 asset_code

-- `asset_type.type` in the last branch, on a number
unfoldable pub asset_code_from_xdr : XdrAssetCode → Result (List ℕ)
asset_code_from_xdr (asset_code4 b) = decode_utf8 b
asset_code_from_xdr (asset_code12 b) = decode_utf8 b
asset_code_from_xdr (asset_code_other n) = err attribute_error

module _ (crc : Crc16) where
  -- `AllowTrust.__init__`
  unfoldable pub allow_trust : List ℕ → List ℕ → Authorize → Option Account → Result AllowTrust
  unfolding authorize_flag
  allow_trust trustor asset_code authorize source = do
    s ← parse_source crc source
    check_ed25519_public_key crc trustor
    check_if_asset_code_is_valid asset_code
    ok (record {
      source = s;
      trustor = trustor;
      asset_code = asset_code;
      authorize = authorize_flag authorize;
    })

  unfoldable pub to_operation_body : AllowTrust → Result AllowTrustOp
  unfolding asset_code_to_xdr
  to_operation_body op = do
    check_if_asset_code_is_valid op.asset_code
    kp ← from_public_key crc op.trustor
    ok (record {
      trustor = xdr_account_id kp;
      asset = asset_code_to_xdr (pad_code op.asset_code);
      authorize = op.authorize;
    })

  unfoldable pub from_xdr_object : XdrOperation AllowTrustOp → Result AllowTrust
  unfolding asset_code_from_xdr
  from_xdr_object x = do
    source ← get_source_from_xdr_obj crc x.source_account
    trustor ← encode_ed25519_public_key crc x.body.trustor
    asset_code ← asset_code_from_xdr x.body.asset
    allow_trust trustor (rstrip 0 asset_code) (flag x.body.authorize) (as_source source)

-- Either branch of the union is decoded the same way.
pub asset_code_from_xdr-asset_code_to_xdr :
    (asset_code : List ℕ)
    → asset_code_from_xdr (asset_code_to_xdr asset_code) ≡ decode_utf8 asset_code
unfolding asset_code_from_xdr asset_code_to_xdr
asset_code_from_xdr-asset_code_to_xdr asset_code = elim (Bool-cases (length asset_code == 4)) [
  | inl e ↦ rw e
  | inr e ↦ rw e
]

-- What the constructor and the network accept.
pub record IsValid (crc : Crc16) (op : AllowTrust) : Type 0 where
  pub source : HasSource crc op.source
  pub trustor : IsAddress crc op.trustor
  pub word : IsWord 0 op.asset_code

-- A valid operation is read back from its XDR form, with its flag.
pub allow_trust-from_xdr-to_xdr :
    (crc : Crc16) (op : AllowTrust)
    → IsValid crc op
    → (to_xdr_object crc op.source (to_operation_body crc op) >>= from_xdr_object crc) ≡ ok op
unfolding to_xdr_object to_operation_body from_xdr_object allow_trust authorize_flag
    check_if_asset_code_is_valid
allow_trust-from_xdr-to_xdr crc op v =
    let s = source-ReadsBack crc op.source v.source in
    let (decoded, stripped) = strip_code op.asset_code v.word in
    rw (
      s.written,
      matches-word 0 op.asset_code v.word,
      from_public_key_lem crc op.trustor v.trustor,
      s.read,
      v.trustor.text,
      asset_code_from_xdr-asset_code_to_xdr (pad_code op.asset_code),
      decoded,
      stripped,
      parse_source-as_source crc op.source,
      check_ed25519_public_key_lem crc op.trustor v.trustor,
      matches-word 0 op.asset_code v.word,
    )
