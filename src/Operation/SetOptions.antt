-- ===== src/Operation/SetOptions.antt =====
-- stellar_sdk/operation/set_options.py.
use py_stellar_base.Prelude.{ℕ, ◌≡◌, refl, Option, none, some, List, [], ◌∷◌, All}
use py_stellar_base.Error.{Result, ok, err, ◌>>=◌, ◌>>◌}
use py_stellar_base.StrKey.{Crc16, encode_ed25519_public_key}
use py_stellar_base.MuxedAccount.{MuxedAccount}
use py_stellar_base.Keypair.{from_public_key, xdr_account_id}
use py_stellar_base.Operation.{
  Account, XdrOperation, pack_xdr_array, unpack_xdr_array, parse_source, as_source, to_xdr_object,
  get_source_from_xdr_obj, check_ed25519_public_key,
}
use py_stellar_base.Operation.Sources.{
  HasSource, source-ReadsBack, IsAddress, from_public_key_lem, check_ed25519_public_key_lem,
  parse_source-as_source, unpack_xdr_array-pack_xdr_array, ReadsBack, reads_back,
}
use py_stellar_base.Error.{builtin_type_error}
use py_stellar_base.Memo.{Text, str, bytes}
use py_stellar_base.Text.{encode_utf8, decode_utf8}
use py_stellar_base.Text.Utf8.{IsCodePoint, decode_utf8-encode_utf8}
use py_stellar_base.Signer
use py_stellar_base.Signer.{Signer, XdrSigner, IsSignerKey, signer-from_xdr-to_xdr}

pub record SetOptions : Type 0 where
  pub source : Option MuxedAccount
  pub inflation_dest : Option (List ℕ)
  pub clear_flags : Option ℕ
  pub set_flags : Option ℕ
  pub master_weight : Option ℕ
  pub low_threshold : Option ℕ
  pub med_threshold : Option ℕ
  pub high_threshold : Option ℕ
  pub home_domain : Option Text
  pub signer : Option Signer

-- Xdr.types.SetOptionsOp
pub record SetOptionsOp : Type 0 where
  pub inflation_dest : List (List ℕ)
  pub clear_flags : List ℕ
  pub set_flags : List ℕ
  pub master_weight : List ℕ
  pub low_threshold : List ℕ
  pub med_threshold : List ℕ
  pub high_threshold : List ℕ
  pub home_domain : List (List ℕ)
  pub signer : List XdrSigner

-- The arguments of the constructor but the source.
pub record Options : Type 0 where
  pub inflation_dest : Option (List ℕ)
  pub clear_flags : Option ℕ
  pub set_flags : Option ℕ
  pub master_weight : Option ℕ
  pub low_threshold : Option ℕ
  pub med_threshold : Option ℕ
  pub high_threshold : Option ℕ
  pub home_domain : Option Text
  pub signer : Option Signer

-- A domain that is None or empty is not sent; `bytes(b, encoding="utf-8")` raises.
unfoldable pub home_domain_to_xdr : Option Text → Result (List (List ℕ))
home_domain_to_xdr none = ok []
home_domain_to_xdr (some (str [])) = ok []
home_domain_to_xdr (some (str (c ∷ s))) = do b ← encode_utf8 (c ∷ s); ok (b ∷ [])
home_domain_to_xdr (some (bytes [])) = ok []
home_domain_to_xdr (some (bytes (c ∷ b))) = err builtin_type_error

-- An empty domain that is read stays bytes.
unfoldable pub home_domain_from_xdr : List (List ℕ) → Result (Option Text)
home_domain_from_xdr [] = ok none
home_domain_from_xdr ([] ∷ bs) = ok (some (bytes []))
home_domain_from_xdr ((c ∷ b) ∷ bs) = do s ← decode_utf8 (c ∷ b); ok (some (str s))

unfoldable pub signer_to_xdr : Option Signer → List XdrSigner
signer_to_xdr none = []
signer_to_xdr (some s) = Signer.to_xdr_object s ∷ []

module _ (crc : Crc16) where
  unfoldable pub check_inflation_dest : Option (List ℕ) → Result (Unit {0})
  check_inflation_dest none = ok tt
  check_inflation_dest (some d) = check_ed25519_public_key crc d

  -- `SetOptions.__init__`
  unfoldable pub set_options : Options → Option Account → Result SetOptions
  unfolding check_inflation_dest
  set_options o source = do
    s ← parse_source crc source
    check_inflation_dest o.inflation_dest
    ok (record {
      source = s;
      inflation_dest = o.inflation_dest;
      clear_flags = o.clear_flags;
      set_flags = o.set_flags;
      master_weight = o.master_weight;
      low_threshold = o.low_threshold;
      med_threshold = o.med_threshold;
      high_threshold = o.high_threshold;
      home_domain = o.home_domain;
      signer = o.signer;
    })

  unfoldable pub inflation_dest_to_xdr : Option (List ℕ) → Result (List (List ℕ))
  inflation_dest_to_xdr none = ok []
  inflation_dest_to_xdr (some d) = do kp ← from_public_key crc d; ok (xdr_account_id kp ∷ [])

  unfoldable pub inflation_dest_from_xdr : List (List ℕ) → Result (Option (List ℕ))
  inflation_dest_from_xdr [] = ok none
  inflation_dest_from_xdr (key ∷ keys) = do d ← encode_ed25519_public_key crc key; ok (some d)

  unfoldable pub signer_from_xdr : List XdrSigner → Result (Option Signer)
  signer_from_xdr [] = ok none
  signer_from_xdr (x ∷ xs) = do s ← Signer.from_xdr_object crc x; ok (some s)

  unfoldable pub to_operation_body : SetOptions → Result SetOptionsOp
  unfolding inflation_dest_to_xdr home_domain_to_xdr signer_to_xdr
  to_operation_body op = do
    inflation_dest ← inflation_dest_to_xdr op.inflation_dest
    home_domain ← home_domain_to_xdr op.home_domain
    ok (record {
      inflation_dest = inflation_dest;
      clear_flags = pack_xdr_array op.clear_flags;
      set_flags = pack_xdr_array op.set_flags;
      master_weight = pack_xdr_array op.master_weight;
      low_threshold = pack_xdr_array op.low_threshold;
      med_threshold = pack_xdr_array op.med_threshold;
      high_threshold = pack_xdr_array op.high_threshold;
      home_domain = home_domain;
      signer = signer_to_xdr op.signer;
    })

  unfoldable pub from_xdr_object : XdrOperation SetOptionsOp → Result SetOptions
  unfolding inflation_dest_from_xdr home_domain_from_xdr signer_from_xdr
  from_xdr_object x = do
    source ← get_source_from_xdr_obj crc x.source_account
    inflation_dest ← inflation_dest_from_xdr x.body.inflation_dest
    home_domain ← home_domain_from_xdr x.body.home_domain
    signer ← signer_from_xdr x.body.signer
    set_options
        (record {
          inflation_dest = inflation_dest;
          clear_flags = unpack_xdr_array x.body.clear_flags;
          set_flags = unpack_xdr_array x.body.set_flags;
          master_weight = unpack_xdr_array x.body.master_weight;
          low_threshold = unpack_xdr_array x.body.low_threshold;
          med_threshold = unpack_xdr_array x.body.med_threshold;
          high_threshold = unpack_xdr_array x.body.high_threshold;
          home_domain = home_domain;
          signer = signer;
        })
        (as_source source)

abbrev pub HasInflationDest : Crc16 → Option (List ℕ) → Type 0
HasInflationDest crc none = Unit
HasInflationDest crc (some d) = IsAddress crc d

-- No domain, or a text that is not empty and has an encoding.
abbrev pub IsHomeDomain : Option Text → Type 0
IsHomeDomain none = Unit
IsHomeDomain (some (str [])) = ⊥
IsHomeDomain (some (str (c ∷ s))) =
    All IsCodePoint (c ∷ s) × ((b : ℕ) × (bs : List ℕ) × (encode_utf8 (c ∷ s) ≡ ok (b ∷ bs)))
IsHomeDomain (some (bytes b)) = ⊥

abbrev pub HasSigner : Option Signer → Type 0
HasSigner none = Unit
HasSigner (some s) = IsSignerKey s.signer_key

-- What the constructor and the network accept, less an empty domain.
pub record IsValid (crc : Crc16) (op : SetOptions) : Type 0 where
  pub source : HasSource crc op.source
  pub inflation_dest : HasInflationDest crc op.inflation_dest
  pub home_domain : IsHomeDomain op.home_domain
  pub signer : HasSigner op.signer

inflation_dest-ReadsBack :
    (crc : Crc16) (d : Option (List ℕ))
    → HasInflationDest crc d
    → ReadsBack (inflation_dest_to_xdr crc) (inflation_dest_from_xdr crc) d
unfolding inflation_dest_to_xdr inflation_dest_from_xdr
inflation_dest-ReadsBack crc none h = reads_back _ _ none refl
inflation_dest-ReadsBack crc (some d) h =
    reads_back _ _ (some d) (rw (from_public_key_lem crc d h, h.text))

home_domain-ReadsBack :
    (d : Option Text) → IsHomeDomain d → ReadsBack home_domain_to_xdr home_domain_from_xdr d
unfolding home_domain_to_xdr home_domain_from_xdr
home_domain-ReadsBack none h = reads_back _ _ none refl
home_domain-ReadsBack (some (str [])) h = elim h [ ]
home_domain-ReadsBack (some (str (c ∷ s))) (points, (b, bs, e)) =
    reads_back _ _ (some (str (c ∷ s))) (rw (e, decode_utf8-encode_utf8 (c ∷ s) (b ∷ bs) points e))
home_domain-ReadsBack (some (bytes b)) h = elim h [ ]

signer_reads_back :
    (crc : Crc16) (s : Option Signer) → HasSigner s → signer_from_xdr crc (signer_to_xdr s) ≡ ok s
unfolding signer_from_xdr signer_to_xdr
signer_reads_back crc none h = refl
signer_reads_back crc (some s) h = rw (signer-from_xdr-to_xdr crc s h)

check_inflation_dest_lem :
    (crc : Crc16) (d : Option (List ℕ))
    → HasInflationDest crc d
    → check_inflation_dest crc d ≡ ok tt
unfolding check_inflation_dest
check_inflation_dest_lem crc none h = refl
check_inflation_dest_lem crc (some d) h = check_ed25519_public_key_lem crc d h

-- A valid operation is read back from its XDR form with every option, given or not.
pub set_options-from_xdr-to_xdr :
    (crc : Crc16) (op : SetOptions)
    → IsValid crc op
    → (to_xdr_object crc op.source (to_operation_body crc op) >>= from_xdr_object crc) ≡ ok op
unfolding to_xdr_object to_operation_body from_xdr_object set_options
set_options-from_xdr-to_xdr crc op v =
    let s = source-ReadsBack crc op.source v.source in
    let i = inflation_dest-ReadsBack crc op.inflation_dest v.inflation_dest in
    let h = home_domain-ReadsBack op.home_domain v.home_domain in
    rw (
      s.written,
      i.written,
      h.written,
      s.read,
      i.read,
      h.read,
      signer_reads_back crc op.signer v.signer,
      parse_source-as_source crc op.source,
      check_inflation_dest_lem crc op.inflation_dest v.inflation_dest,
      unpack_xdr_array-pack_xdr_array op.clear_flags,
      unpack_xdr_array-pack_xdr_array op.set_flags,
      unpack_xdr_array-pack_xdr_array op.master_weight,
      unpack_xdr_array-pack_xdr_array op.low_threshold,
      unpack_xdr_array-pack_xdr_array op.med_threshold,
      unpack_xdr_array-pack_xdr_array op.high_threshold,
    )
