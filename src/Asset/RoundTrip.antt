-- ===== src/Asset/RoundTrip.antt =====
-- Assets and their XDR unions.
use py_stellar_base.Prelude.{
  ℕ, zero, suc, ◌+◌, ◌-◌, ◌≤◌, ◌≡◌, refl, sym, ◌∙◌, ap, arith, true, inl, inr, Bool-cases, Option,
  none, some, List, [], ◌∷◌, ◌++◌, leb, ==_iff, if◌then◌else◌, length, length-append,
  length-replicate, replicate, rstrip, rstrip-append, All, All-append,
}
use py_stellar_base.Error.{ok, ◌>>=◌, ok-injective, >>=-eq-ok}
use py_stellar_base.StrKey.{
  Crc16, version_bytes, encode_ed25519_public_key, is_valid_ed25519_public_key,
}
use py_stellar_base.StrKey.Muxed.{IsKey, decode_ed25519-encode_ed25519}
use py_stellar_base.StrKey.Validity.{encode_check-is_valid}
use py_stellar_base.Keypair.{from_public_key}
use py_stellar_base.Text.{decode_utf8}
use py_stellar_base.Text.Utf8.{IsAscii, decode_utf8-ascii}
use py_stellar_base.Asset.{
  Asset, AssetType, alphanum4, alphanum12, xlm, is_alphanumeric, check_if_asset_code_is_valid,
  check_issuer, guess_asset_type, pad_code, asset, to_xdr_of, to_xdr_object, from_code,
  from_xdr_object, matches_from,
}
use py_stellar_base.Asset.Code.{IsAlphanumeric, IsWord, matches-word, matches-newline}

abbrev pub HasIssuer : Crc16 → List ℕ → Option (List ℕ) → Type 0
HasIssuer crc code none = code ≡ xlm
HasIssuer crc code (some issuer) =
    (key : List ℕ) × IsKey key × (encode_ed25519_public_key crc key ≡ ok issuer)

-- The code is a word of letters and digits; the issuer, which only the native asset lacks, is the text
-- of a key of 32 bytes.
pub record IsValid (crc : Crc16) (a : Asset) : Type 0 where
  pub word : IsWord 0 a.code
  pub issued : HasIssuer crc a.code a.issuer
  pub typed : a.asset_type ≡ guess_asset_type a.code a.issuer

alphanumeric-IsAscii :
    (code : List ℕ) → All IsAlphanumeric code → All IsAscii code × All (λ c. ¬ (c ≡ 0)) code
unfolding is_alphanumeric
alphanumeric-IsAscii [] h = (tt, tt)
alphanumeric-IsAscii (c ∷ cs) h =
    let (ascii, no_zero) = alphanumeric-IsAscii cs h.1 in
    ((ground arith, ascii), (λ e. ground arith, no_zero))

replicate-IsAscii : (n : ℕ) → All IsAscii (replicate n 0)
replicate-IsAscii zero = tt
replicate-IsAscii (suc n) = (omega arith, replicate-IsAscii n)

-- The padded code has four or twelve bytes.
pub length-pad_code :
    (code : List ℕ)
    → IsWord 0 code
    → length (pad_code code) ≡ (if leb (length code) 4 then 4 else 12)
unfolding pad_code
length-pad_code code w =
    length-append code _
    ∙ ap (λ (t : ℕ). length code + t)
        (length-replicate (if leb (length code) 4 then 4 - length code else 12 - length code) 0)
    ∙ pad_sum (length code) (omega (arith, w.most))
  where
    pad_sum :
        (n : ℕ) → n ≤ 12 → n + (if leb n 4 then 4 - n else 12 - n) ≡ (if leb n 4 then 4 else 12)
    pad_sum n h = ground arith

-- Twelve letters or digits and a line feed are an accepted code, and are sent as thirteen bytes, one
-- more than the protocol's assetCode holds.
pub length-pad_code_newline :
    (w : List ℕ)
    → IsWord 0 w
    → length w ≡ 12
    → (check_if_asset_code_is_valid (w ++ 10 ∷ []) ≡ ok tt)
      × (length (pad_code (w ++ 10 ∷ [])) ≡ 13)
unfolding pad_code check_if_asset_code_is_valid
length-pad_code_newline w v n = (
  rw (matches-newline 0 w v),
  rw (length-append w (10 ∷ []), n, length-append (w ++ 10 ∷ []) [], length-append w (10 ∷ []), n),
)

pub strip_code :
    (code : List ℕ)
    → IsWord 0 code
    → (decode_utf8 (pad_code code) ≡ ok (pad_code code)) × (rstrip 0 (pad_code code) ≡ code)
unfolding pad_code
strip_code code w =
    let n : ℕ = if leb (length code) 4 then 4 - length code else 12 - length code in
    let (ascii, no_zero) = alphanumeric-IsAscii code w.letters in
    (
      decode_utf8-ascii (code ++ replicate n 0)
          (All-append IsAscii code (replicate n 0) ascii (replicate-IsAscii n)),
      rstrip-append 0 n code no_zero,
    )

module _ (crc : Crc16) (code issuer key : List ℕ) (word : IsWord 0 code) (k : IsKey key)
    (text : encode_ed25519_public_key crc key ≡ ok issuer) where
  issuer_valid : is_valid_ed25519_public_key crc issuer ≡ true
  unfolding is_valid_ed25519_public_key encode_ed25519_public_key version_bytes
  issuer_valid =
      let (s, e, n, v) =
        encode_check-is_valid crc "ed25519_public_key" 0x30 refl key k.size k.bytes in
      rw (ok-injective (sym text ∙ e)) v

  issuer_key : (from_public_key crc issuer >>= λ kp. ok kp.verify_key) ≡ ok key
  unfolding from_public_key
  issuer_key =
      let (s, e, n, d) = decode_ed25519-encode_ed25519 crc key k in
      rw (ok-injective (sym text ∙ e), d, (==_iff (length key) 32).1 k.size)

  -- The constructor accepts the code and the issuer.
  pub asset_lem :
      asset crc code (some issuer)
      ≡ ok (record {
        code = code;
        issuer = some issuer;
        asset_type = guess_asset_type code (some issuer);
      })
  unfolding asset check_if_asset_code_is_valid check_issuer
  asset_lem = rw (matches-word 0 code word, issuer_valid)

  from_code_lem : from_code crc (pad_code code) key ≡ asset crc code (some issuer)
  unfolding from_code
  from_code_lem = let (d, r) = strip_code code word in rw (text, d, r)

  to_xdr_lem :
      to_xdr_of crc code (some issuer)
      ≡ ok (
          if leb (length code) 4
          then alphanum4 (pad_code code) key
          else alphanum12 (pad_code code) key)
  unfolding to_xdr_of
  to_xdr_lem =
      let (kp, e, same) = >>=-eq-ok (from_public_key crc issuer) _ issuer_key in
      rw (e, ok-injective same)

  credit_round_trip :
      (to_xdr_of crc code (some issuer) >>= from_xdr_object crc) ≡ asset crc code (some issuer)
  unfolding from_xdr_object
  credit_round_trip = rw to_xdr_lem (elim (Bool-cases (leb (length code) 4)) [
    | inl e ↦ rw e from_code_lem
    | inr e ↦ rw e from_code_lem
  ])

round_trip :
    (crc : Crc16) (code : List ℕ) (issuer : Option (List ℕ))
    → IsWord 0 code
    → HasIssuer crc code issuer
    → (to_xdr_of crc code issuer >>= from_xdr_object crc)
      ≡ ok (record { code = code; issuer = issuer; asset_type = guess_asset_type code issuer })
round_trip crc code none word same = rw same (
    unfold to_xdr_of from_xdr_object asset check_if_asset_code_is_valid check_issuer matches_from
      is_alphanumeric guess_asset_type in
    refl)
round_trip crc code (some issuer) word (key, k, text) =
    credit_round_trip crc code issuer key word k text ∙ asset_lem crc code issuer key word k text

-- A valid asset is read back from its XDR union, native or not.
pub asset-from_xdr-to_xdr :
    (crc : Crc16) (a : Asset) → IsValid crc a → (to_xdr_object crc a >>= from_xdr_object crc) ≡ ok a
unfolding to_xdr_object
asset-from_xdr-to_xdr crc a v =
    round_trip crc a.code a.issuer v.word v.issued
    ∙ ap (λ (t : AssetType). ok (record { code = a.code; issuer = a.issuer; asset_type = t }))
        (sym v.typed)
