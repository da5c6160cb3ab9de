-- ===== src/Keypair/RoundTrip.antt =====
-- Keypairs and their texts, and what they sign.
use py_stellar_base.Prelude.{
  ℕ, ◌≡◌, refl, sym, ap, arith, true, Option, none, some, List, ==_iff, length,
}
use py_stellar_base.Error.{ok, err, ◌>>=◌, missing_secret_seed}
use py_stellar_base.Base32.{b32_body}
use py_stellar_base.StrKey.{
  Crc16, version_bytes, encode_ed25519_secret_seed, decode_ed25519_secret_seed,
}
use py_stellar_base.StrKey.RoundTrip.{sealed, encode_check_lem, decode_check-text}
use py_stellar_base.StrKey.Muxed.{IsKey, decode_ed25519-encode_ed25519}
use py_stellar_base.Keypair.{
  Ed25519, Keypair, DecoratedSignature, can_sign, from_public_key, public_key, secret,
  from_raw_ed25519_seed, from_secret, verify, sign_decorated, signature_hint,
}

-- A keypair holds a public key of 32 bytes, and its seed, if it has one, is that of the key.
abbrev pub HasSeed : Ed25519 → List ℕ → Option (List ℕ) → Type 0
HasSeed nacl key none = Unit
HasSeed nacl key (some seed) = IsKey seed × (key ≡ nacl.verify_key_of seed)

pub record IsValid (nacl : Ed25519) (kp : Keypair) : Type 0 where
  pub key : IsKey kp.verify_key
  pub seed : HasSeed nacl kp.verify_key kp.signing_key

-- A seed of 32 bytes gives a valid keypair, which can sign.
pub from_raw_ed25519_seed-IsValid :
    (nacl : Ed25519) (raw : List ℕ)
    → IsKey raw
    → (kp : Keypair) × (from_raw_ed25519_seed nacl raw ≡ ok kp)
      × IsValid nacl kp
      × (can_sign kp ≡ true)
unfolding from_raw_ed25519_seed can_sign
from_raw_ed25519_seed-IsValid nacl raw k = (
  record { verify_key = nacl.verify_key_of raw; signing_key = some raw },
  rw ((==_iff (length raw) 32).1 k.size),
  record {
    key = record {
      size = nacl.length-verify_key_of raw k.size;
      bytes = nacl.verify_key_of-IsByte raw;
    };
    seed = (k, refl);
  },
  refl,
)

-- The text of the public key gives the keypair back without its seed.
pub from_public_key-public_key :
    (crc : Crc16) (nacl : Ed25519) (kp : Keypair)
    → IsValid nacl kp
    → (public_key crc kp >>= from_public_key crc) ≡ ok (record kp { signing_key = none })
unfolding public_key from_public_key
from_public_key-public_key crc nacl kp v =
    let (s, e, n, d) = decode_ed25519-encode_ed25519 crc kp.verify_key v.key in
    rw (e, d, (==_iff (length kp.verify_key) 32).1 v.key.size)

seed_text :
    (crc : Crc16) (seed : List ℕ)
    → IsKey seed
    → (s : List ℕ) × (encode_ed25519_secret_seed crc seed ≡ ok s)
      × (decode_ed25519_secret_seed crc s ≡ ok seed)
unfolding encode_ed25519_secret_seed decode_ed25519_secret_seed version_bytes
seed_text crc seed k = (
  b32_body (sealed crc 0x90 seed),
  encode_check_lem crc "ed25519_secret_seed" 0x90 seed refl k.bytes,
  rw (decode_check-text crc "ed25519_secret_seed" 0x90 seed refl k.bytes (omega (arith, k.size))),
)

-- The text of the secret seed gives the whole keypair back.
pub from_secret-secret :
    (crc : Crc16) (nacl : Ed25519) (key seed : List ℕ)
    → IsValid nacl (record { verify_key = key; signing_key = some seed })
    → (secret crc (record { verify_key = key; signing_key = some seed }) >>= from_secret nacl crc)
      ≡ ok (record { verify_key = key; signing_key = some seed })
unfolding secret from_secret
from_secret-secret crc nacl key seed v =
    let (k, same) = v.seed in
    let (s, e, d) = seed_text crc seed k in
    rw (e, d, (==_iff (length seed) 32).1 k.size)
      (ap (λ (t : List ℕ). ok (record { verify_key = t; signing_key = some seed })) (sym same))

-- What `sign_decorated` does with a seed and without one.
abbrev pub Signs : Ed25519 → Keypair → List ℕ → Option (List ℕ) → Type 0
Signs nacl kp message none = sign_decorated nacl kp message ≡ err missing_secret_seed
Signs nacl kp message (some seed) =
    (s : DecoratedSignature) × (sign_decorated nacl kp message ≡ ok s)
    × (s.hint ≡ signature_hint kp)
    × (verify nacl kp message s.signature ≡ ok tt)

signing_key-Signs :
    (nacl : Ed25519) (key message : List ℕ) (seed : Option (List ℕ))
    → HasSeed nacl key seed
    → Signs nacl (record { verify_key = key; signing_key = seed }) message seed
unfolding sign_decorated verify
signing_key-Signs nacl key message none h = refl
signing_key-Signs nacl key message (some seed) (k, same) = (
  record {
    hint = signature_hint (record { verify_key = key; signing_key = some seed });
    signature = nacl.sign_with seed message;
  },
  refl,
  refl,
  rw (same, nacl.verifies-sign_with seed message k.size),
)

-- What a valid keypair with a seed signs, its own public key verifies, and the hint of the decorated
-- signature is the key's; without a seed it raises.
pub sign_decorated-verify :
    (nacl : Ed25519) (kp : Keypair) (message : List ℕ)
    → IsValid nacl kp
    → Signs nacl kp message kp.signing_key
sign_decorated-verify nacl kp message v =
    signing_key-Signs nacl kp.verify_key message kp.signing_key v.seed
