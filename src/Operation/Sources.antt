-- ===== src/Operation/Sources.antt =====
-- The parts that operations share are read back from their XDR forms.
use py_stellar_base.Prelude.{
  ℕ, ◌≡◌, refl, ◌∙◌, sym, arith, Option, none, some, List, [], ◌∷◌, ==_iff, length, All,
}
use py_stellar_base.Error.{Result, ok, ◌>>=◌, >>=-eq-ok, ok-injective}
use py_stellar_base.StrKey.{Crc16, encode_ed25519_public_key}
use py_stellar_base.StrKey.Muxed.{IsKey, decode_ed25519-encode_ed25519}
use py_stellar_base.MuxedAccount
use py_stellar_base.MuxedAccount.{MuxedAccount}
use py_stellar_base.MuxedAccount.RoundTrip.{IsValid, from_xdr_object-to_xdr_object}
use py_stellar_base.Asset
use py_stellar_base.Asset.{Asset, XdrAsset}
use py_stellar_base.Asset.RoundTrip as AssetLaws
use py_stellar_base.Keypair.{from_public_key}
use py_stellar_base.Decimal.{Decimal}
use py_stellar_base.Amount.{to_xdr_amount, from_xdr_amount, check_amount, stroops}
use py_stellar_base.Amount.Exact.{to_xdr_amount-check_amount}
use py_stellar_base.Amount.Rounding.{to_xdr_amount-from_xdr_amount}
use py_stellar_base.Operation.{
  pack_xdr_array, unpack_xdr_array, map_result, source_to_xdr, get_source_from_xdr_obj,
  check_ed25519_public_key, parse_source, as_source,
}

abbrev pub HasSource : Crc16 → Option MuxedAccount → Type 0
HasSource crc none = Unit
HasSource crc (some m) = IsValid crc m

-- A value that has an XDR form, and is read back from it.
pub record ReadsBack {A B : Type 0} (to : A → Result B) (from : B → Result A) (a : A) : Type 0 where
  pub form : B
  pub written : to a ≡ ok form
  pub read : from form ≡ ok a

pub reads_back :
    {A B : Type 0} (to : A → Result B) (from : B → Result A) (a : A)
    → (to a >>= from) ≡ ok a
    → ReadsBack to from a
reads_back to from a h =
    let (b, w, r) = >>=-eq-ok (to a) from h in record { form = b; written = w; read = r }

pub unpack_xdr_array-pack_xdr_array :
    {A : Type 0} (x : Option A) → unpack_xdr_array (pack_xdr_array x) ≡ x
unfolding pack_xdr_array unpack_xdr_array
unpack_xdr_array-pack_xdr_array none = refl
unpack_xdr_array-pack_xdr_array (some x) = refl

-- An amount that passes the check is sent, and what is read of it passes the check again.
abbrev pub resent : Decimal → Decimal
resent value = from_xdr_amount (stroops value.coefficient value.exponent)

pub ready_amount :
    (value : Decimal)
    → check_amount value ≡ ok tt
    → (to_xdr_amount value ≡ ok (stroops value.coefficient value.exponent))
      × (check_amount (resent value) ≡ ok tt)
ready_amount value h =
    let (sent, bound) = to_xdr_amount-check_amount value h in
    let (accepted, _) =
      to_xdr_amount-from_xdr_amount (stroops value.coefficient value.exponent) (omega arith) in
    (sent, accepted)

module _ (crc : Crc16) where
  pub muxed-ReadsBack :
      (m : MuxedAccount)
      → IsValid crc m
      → ReadsBack (MuxedAccount.to_xdr_object crc) (MuxedAccount.from_xdr_object crc) m
  muxed-ReadsBack m v = reads_back _ _ m (from_xdr_object-to_xdr_object crc m v)

  pub source-ReadsBack :
      (source : Option MuxedAccount)
      → HasSource crc source
      → ReadsBack (source_to_xdr crc) (get_source_from_xdr_obj crc) source
  unfolding source_to_xdr get_source_from_xdr_obj
  source-ReadsBack none v = record { form = []; written = refl; read = refl }
  source-ReadsBack (some m) v =
      let r = muxed-ReadsBack m v in
      record { form = r.form ∷ []; written = rw r.written; read = rw r.read }

  pub asset-ReadsBack :
      (a : Asset)
      → AssetLaws.IsValid crc a
      → ReadsBack (Asset.to_xdr_object crc) (Asset.from_xdr_object crc) a
  asset-ReadsBack a v = reads_back _ _ a (AssetLaws.asset-from_xdr-to_xdr crc a v)

  -- A list of assets is read back one by one.
  pub path-ReadsBack :
      (path : List Asset)
      → All (AssetLaws.IsValid crc) path
      → ReadsBack
          (map_result (Asset.to_xdr_object crc))
          (map_result (Asset.from_xdr_object crc))
          path
  unfolding map_result
  path-ReadsBack [] v = record { form = []; written = refl; read = refl }
  path-ReadsBack (a ∷ path) (va, vs) =
      let r = asset-ReadsBack a va in
      let rs = path-ReadsBack path vs in
      record {
        form = r.form ∷ rs.form;
        written = rw (r.written, rs.written);
        read = rw (r.read, rs.read);
      }

  -- The text of a key of 32 bytes passes the check, stands for the key, and is written again from it.
  pub record IsAddress (s : List ℕ) : Type 0 where
    pub key : List ℕ
    pub is_key : IsKey key
    pub text : encode_ed25519_public_key crc key ≡ ok s

  pub from_public_key_lem :
      (s : List ℕ) (a : IsAddress s)
      → from_public_key crc s ≡ ok (record { verify_key = a.key; signing_key = none })
  unfolding from_public_key
  from_public_key_lem s a =
      let (t, e, n, d) = decode_ed25519-encode_ed25519 crc a.key a.is_key in
      rw (ok-injective (sym a.text ∙ e), d, (==_iff (length a.key) 32).1 a.is_key.size)

  pub check_ed25519_public_key_lem :
      (s : List ℕ) → IsAddress s → check_ed25519_public_key crc s ≡ ok tt
  unfolding check_ed25519_public_key
  check_ed25519_public_key_lem s a = rw (from_public_key_lem s a)

  pub parse_source-as_source :
      (source : Option MuxedAccount) → parse_source crc (as_source source) ≡ ok source
  unfolding parse_source
  parse_source-as_source none = refl
  parse_source-as_source (some m) = refl
