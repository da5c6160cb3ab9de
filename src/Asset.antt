-- ===== src/Asset.antt =====
-- stellar_sdk/asset.py.
pub mod Code
pub mod RoundTrip
use py_stellar_base.Prelude.{
  ℕ, zero, suc, ◌+◌, ◌-◌, ◌≤◌, Bool, true, false, not, ◌&&◌, ◌||◌, Option, none, some, List, [],
  ◌∷◌, ◌++◌, ltb, leb, ◌==◌, if◌then◌else◌, list_eq, length, replicate, rstrip,
}
use py_stellar_base.Error.{
  Result, ok, err, asset_code_invalid, asset_issuer_invalid, ◌>>=◌, ◌>>◌, require,
}
use py_stellar_base.StrKey.{Crc16, is_valid_ed25519_public_key, encode_ed25519_public_key}
use py_stellar_base.Keypair.{Keypair, from_public_key, xdr_account_id}
use py_stellar_base.Text.{decode_utf8}

-- `_type`: the strings "native", "credit_alphanum4" and "credit_alphanum12"
pub data AssetType : Type 0 where
  native credit_alphanum4 credit_alphanum12 : AssetType

pub record Asset : Type 0 where
  pub code : List ℕ
  pub issuer : Option (List ℕ)
  pub asset_type : AssetType

-- Xdr.types.Asset, a union by its type; assetCode and the issuer's raw key
pub data XdrAsset : Type 0 where
  asset_native : XdrAsset
  alphanum4 : List ℕ → List ℕ → XdrAsset
  alphanum12 : List ℕ → List ℕ → XdrAsset

abbrev pub xlm : List ℕ
xlm = b'X' ∷ b'L' ∷ b'M' ∷ []

unfoldable pub is_alphanumeric : ℕ → Bool
is_alphanumeric c = leb b'a' c && leb c b'z' || leb b'A' c && leb c b'Z' || leb b'0' c && leb c b'9'

abbrev pub one_to_twelve : ℕ → Bool
one_to_twelve n = leb 1 n && leb n 12

-- `re.compile(r"^[a-zA-Z0-9]{1,12}$").match`, after n characters of the class: `$` matches at the
-- end, and before a line feed that is the last character.
unfoldable pub matches_from : ℕ → List ℕ → Bool
matches_from n [] = one_to_twelve n
matches_from n (c ∷ []) =
    if is_alphanumeric c then one_to_twelve (n + 1) else c == 10 && one_to_twelve n
matches_from n (c ∷ (d ∷ rest)) = is_alphanumeric c && matches_from (n + 1) (d ∷ rest)

unfoldable pub check_if_asset_code_is_valid : List ℕ → Result (Unit {0})
check_if_asset_code_is_valid code = require (matches_from 0 code) asset_code_invalid

unfoldable pub guess_asset_type : List ℕ → Option (List ℕ) → AssetType
guess_asset_type code none =
    if list_eq code xlm
    then native
    else if ltb 4 (length code)
    then credit_alphanum12
    else credit_alphanum4
guess_asset_type code (some issuer) =
    if ltb 4 (length code) then credit_alphanum12 else credit_alphanum4

unfoldable pub is_native : Asset → Bool
is_native a = elim a.issuer [ none ↦ true | some issuer ↦ false ]

-- `bytearray(self.code, "ascii") + b"\x00" * pad_length`; a code that was accepted is ASCII, and a
-- negative pad_length adds nothing
unfoldable pub pad_code : List ℕ → List ℕ
pad_code code =
    let size = length code in code ++ replicate (if leb size 4 then 4 - size else 12 - size) 0

module _ (crc : Crc16) where
  unfoldable pub check_issuer : List ℕ → Option (List ℕ) → Result (Unit {0})
  check_issuer code none = require (list_eq code xlm) asset_issuer_invalid
  check_issuer code (some issuer) =
      require (is_valid_ed25519_public_key crc issuer) asset_issuer_invalid

  -- `Asset.__init__`
  unfoldable pub asset : List ℕ → Option (List ℕ) → Result Asset
  asset code issuer = do
    check_if_asset_code_is_valid code
    check_issuer code issuer
    ok (record { code = code; issuer = issuer; asset_type = guess_asset_type code issuer })

  unfoldable pub to_xdr_of : List ℕ → Option (List ℕ) → Result XdrAsset
  to_xdr_of code none = ok asset_native
  to_xdr_of code (some issuer) = do
    kp ← from_public_key crc issuer
    ok (
        if leb (length code) 4
        then alphanum4 (pad_code code) (xdr_account_id kp)
        else alphanum12 (pad_code code) (xdr_account_id kp))

  unfoldable pub to_xdr_object : Asset → Result XdrAsset
  unfolding to_xdr_of
  to_xdr_object a = to_xdr_of a.code a.issuer

  -- `assetCode.decode().rstrip("\x00")` and the text of the issuer's key
  unfoldable pub from_code : List ℕ → List ℕ → Result Asset
  from_code asset_code key = do
    issuer ← encode_ed25519_public_key crc key
    code ← decode_utf8 asset_code
    asset (rstrip 0 code) (some issuer)

  unfoldable pub from_xdr_object : XdrAsset → Result Asset
  unfolding from_code
  from_xdr_object asset_native = asset xlm none
  from_xdr_object (alphanum4 asset_code key) = from_code asset_code key
  from_xdr_object (alphanum12 asset_code key) = from_code asset_code key

abbrev text_eq : Option (List ℕ) → Option (List ℕ) → Bool
text_eq none none = true
text_eq none (some b) = false
text_eq (some a) none = false
text_eq (some a) (some b) = list_eq a b

-- `__eq__`
unfoldable pub asset_eq : Asset → Asset → Bool
asset_eq a b = list_eq a.code b.code && text_eq a.issuer b.issuer
