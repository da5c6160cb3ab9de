-- ===== src/Signer.antt =====
-- stellar_sdk/signer.py.
use py_stellar_base.Prelude.{ℕ, ◌≡◌, refl, List}
use py_stellar_base.Error.{Result, ok, err, value_error, ◌>>=◌}
use py_stellar_base.StrKey.{Crc16, encode_ed25519_public_key, decode_ed25519_public_key}
use py_stellar_base.StrKey.Muxed.{IsKey, decode_ed25519-encode_ed25519}

-- Xdr.types.SignerKey, a union by its type. The last constructor is a type that signer.py does not know.
pub data SignerKey : Type 0 where
  signer_ed25519 signer_pre_auth_tx signer_hash_x : List ℕ → SignerKey
  signer_unknown : ℕ → SignerKey

pub record Signer : Type 0 where
  pub signer_key : SignerKey
  pub weight : ℕ

-- Xdr.types.Signer
pub record XdrSigner : Type 0 where
  pub key : SignerKey
  pub weight : ℕ

unfoldable pub pre_auth_tx : List ℕ → ℕ → Signer
pre_auth_tx pre_auth_tx_hash weight = record {
  signer_key = signer_pre_auth_tx pre_auth_tx_hash;
  weight = weight;
}

unfoldable pub sha256_hash : List ℕ → ℕ → Signer
sha256_hash hash weight = record { signer_key = signer_hash_x hash; weight = weight }

unfoldable pub to_xdr_object : Signer → XdrSigner
to_xdr_object s = record { key = s.signer_key; weight = s.weight }

module _ (crc : Crc16) where
  unfoldable pub ed25519_public_key : List ℕ → ℕ → Result Signer
  ed25519_public_key account_id weight = do
    key ← decode_ed25519_public_key crc account_id
    ok (record { signer_key = signer_ed25519 key; weight = weight })

  unfoldable pub signer_of : SignerKey → ℕ → Result Signer
  unfolding ed25519_public_key pre_auth_tx sha256_hash
  signer_of (signer_ed25519 key) weight = do
    account_id ← encode_ed25519_public_key crc key
    ed25519_public_key account_id weight
  signer_of (signer_pre_auth_tx hash) weight = ok (pre_auth_tx hash weight)
  signer_of (signer_hash_x hash) weight = ok (sha256_hash hash weight)
  signer_of (signer_unknown n) weight = err value_error

  unfoldable pub from_xdr_object : XdrSigner → Result Signer
  unfolding signer_of
  from_xdr_object x = signer_of x.key x.weight

-- A key of one of the three kinds; an ed25519 key has 32 bytes.
abbrev pub IsSignerKey : SignerKey → Type 0
IsSignerKey (signer_ed25519 key) = IsKey key
IsSignerKey (signer_pre_auth_tx hash) = Unit
IsSignerKey (signer_hash_x hash) = Unit
IsSignerKey (signer_unknown n) = ⊥

signer_of_lem :
    (crc : Crc16) (key : SignerKey) (weight : ℕ)
    → IsSignerKey key
    → signer_of crc key weight ≡ ok (record { signer_key = key; weight = weight })
unfolding signer_of
signer_of_lem crc (signer_ed25519 key) weight k =
    let (s, e, n, d) = decode_ed25519-encode_ed25519 crc key k in rw (e, d)
signer_of_lem crc (signer_pre_auth_tx hash) weight k = refl
signer_of_lem crc (signer_hash_x hash) weight k = refl
signer_of_lem crc (signer_unknown n) weight k = elim k [ ]

-- A signer of a known kind is read back from its XDR form.
pub signer-from_xdr-to_xdr :
    (crc : Crc16) (s : Signer)
    → IsSignerKey s.signer_key
    → from_xdr_object crc (to_xdr_object s) ≡ ok s
unfolding from_xdr_object to_xdr_object
signer-from_xdr-to_xdr crc s k = signer_of_lem crc s.signer_key s.weight k
