-- ===== src/Keypair.antt =====
-- stellar_sdk/keypair.py. The Ed25519 keys of the third-party package nacl are a parameter.
pub mod RoundTrip
use py_stellar_base.Prelude.{
  ℕ, ◌≡◌, Bool, true, false, ◌&&◌, Option, none, some, List, ◌==◌, if◌then◌else◌, list_eq, length,
  take_last, All,
}
use py_stellar_base.Error.{
  Result, ok, err, builtin_value_error, missing_secret_seed, bad_signature, ◌>>=◌, ◌>>◌, require,
}
use py_stellar_base.Base32.{IsByte}
use py_stellar_base.StrKey.{
  Crc16, encode_ed25519_public_key, decode_ed25519_public_key, encode_ed25519_secret_seed,
  decode_ed25519_secret_seed,
}

-- What keypair.py relies on of `nacl.signing`: the public key of a seed of 32 bytes has 32 bytes, and
-- a signature verifies under the public key of the seed that made it.
pub record Ed25519 : Type 0 where
  pub verify_key_of : List ℕ → List ℕ
  pub sign_with : List ℕ → List ℕ → List ℕ
  pub verifies : List ℕ → List ℕ → List ℕ → Bool
  pub length-verify_key_of : (seed : List ℕ) → length seed ≡ 32 → length (verify_key_of seed) ≡ 32
  pub verify_key_of-IsByte : (seed : List ℕ) → All IsByte (verify_key_of seed)
  pub verifies-sign_with :
      (seed message : List ℕ)
      → length seed ≡ 32
      → verifies (verify_key_of seed) message (sign_with seed message) ≡ true

pub record Keypair : Type 0 where
  pub verify_key : List ℕ
  pub signing_key : Option (List ℕ)

-- Xdr.types.DecoratedSignature
pub record DecoratedSignature : Type 0 where
  pub hint : List ℕ
  pub signature : List ℕ

-- `ed25519.VerifyKey(raw_public_key)` wants 32 bytes.
unfoldable pub from_raw_ed25519_public_key : List ℕ → Result Keypair
from_raw_ed25519_public_key raw_public_key = do
  require (length raw_public_key == 32) builtin_value_error
  ok (record { verify_key = raw_public_key; signing_key = none })

unfoldable pub can_sign : Keypair → Bool
can_sign kp = elim kp.signing_key [ none ↦ false | some seed ↦ true ]

-- `self.xdr_account_id().ed25519[-4:]`
unfoldable pub signature_hint : Keypair → List ℕ
signature_hint kp = take_last 4 kp.verify_key

abbrev pub raw_public_key : Keypair → List ℕ
raw_public_key kp = kp.verify_key

abbrev pub xdr_account_id : Keypair → List ℕ
xdr_account_id kp = kp.verify_key

abbrev seed_eq : Option (List ℕ) → Option (List ℕ) → Bool
seed_eq none none = true
seed_eq none (some b) = false
seed_eq (some a) none = false
seed_eq (some a) (some b) = list_eq a b

-- `__eq__`
unfoldable pub keypair_eq : Keypair → Keypair → Bool
keypair_eq a b = list_eq a.verify_key b.verify_key && seed_eq a.signing_key b.signing_key

module _ (crc : Crc16) where
  unfoldable pub from_public_key : List ℕ → Result Keypair
  unfolding from_raw_ed25519_public_key
  from_public_key public_key = do
    key ← decode_ed25519_public_key crc public_key
    from_raw_ed25519_public_key key

  unfoldable pub public_key : Keypair → Result (List ℕ)
  public_key kp = encode_ed25519_public_key crc kp.verify_key

  unfoldable pub secret_of : Option (List ℕ) → Result (List ℕ)
  secret_of none = err missing_secret_seed
  secret_of (some seed) = encode_ed25519_secret_seed crc seed

  -- The property `secret`.
  unfoldable pub secret : Keypair → Result (List ℕ)
  unfolding secret_of
  secret kp = secret_of kp.signing_key

module _ (nacl : Ed25519) where
  -- `ed25519.SigningKey(raw_seed)` wants 32 bytes.
  unfoldable pub from_raw_ed25519_seed : List ℕ → Result Keypair
  from_raw_ed25519_seed raw_seed = do
    require (length raw_seed == 32) builtin_value_error
    ok (record { verify_key = nacl.verify_key_of raw_seed; signing_key = some raw_seed })

  unfoldable pub from_secret : Crc16 → List ℕ → Result Keypair
  unfolding from_raw_ed25519_seed
  from_secret crc s = do
    raw_secret ← decode_ed25519_secret_seed crc s
    from_raw_ed25519_seed raw_secret

  -- `random`, given the bytes of os.urandom(32)
  unfoldable pub random : List ℕ → Result Keypair
  unfolding from_raw_ed25519_seed
  random urandom = from_raw_ed25519_seed urandom

  unfoldable pub sign_of : Option (List ℕ) → List ℕ → Result (List ℕ)
  sign_of none message = err missing_secret_seed
  sign_of (some seed) message = ok (nacl.sign_with seed message)

  unfoldable pub sign : Keypair → List ℕ → Result (List ℕ)
  unfolding sign_of
  sign kp message = sign_of kp.signing_key message

  unfoldable pub verify : Keypair → List ℕ → List ℕ → Result (Unit {0})
  verify kp message signature =
      require (nacl.verifies kp.verify_key message signature) bad_signature

  unfoldable pub sign_decorated : Keypair → List ℕ → Result DecoratedSignature
  unfolding sign signature_hint
  sign_decorated kp message = do
    s ← sign kp message
    ok (record { hint = signature_hint kp; signature = s })
