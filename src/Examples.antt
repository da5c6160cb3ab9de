-- ===== src/Examples.antt =====
-- Concrete arguments for the theorems: the CRC-16/XMODEM of the package crc16, a stand-in for the keys
-- of nacl, and accounts.
pub mod Keys
pub mod Values
pub mod Operations
pub mod Settings
pub mod Challenges
pub mod Prices
pub mod Envelopes
pub mod Reading
pub mod Building
use Prim.Native.Nat.{bit_xor}
use py_stellar_base.Prelude.{
  ℕ, zero, suc, ◌+◌, ◌*◌, ◌/◌, ◌%◌, ◌<◌, ◌≡◌, refl, ◌∙◌, ap, sym, arith, Bool, true, false, ◌&&◌,
  Option, none, some, List, [], ◌∷◌, ◌++◌, map, ltb, ltb→lt, leb, if◌then◌else◌, list_eq,
  list_eq_refl, length, replicate, All,
}
use py_stellar_base.Base32.{IsByte}
use py_stellar_base.StrKey.{Crc16}
use py_stellar_base.StrKey.Muxed.{IsKey}
use py_stellar_base.Keypair.{Ed25519}

-- One bit of the register, by the polynomial 0x1021.
abbrev pub crc_bit : ℕ → ℕ
crc_bit r = if leb 32768 r then bit_xor (r * 2 % 65536) 0x1021 else r * 2

abbrev pub crc_bits : ℕ → ℕ → ℕ
crc_bits zero r = r
crc_bits (suc n) r = crc_bits n (crc_bit r)

abbrev pub crc_from : ℕ → List ℕ → ℕ
crc_from r [] = r % 65536
crc_from r (b ∷ bs) = crc_from (crc_bits 8 (bit_xor r (b * 256))) bs

pub crc_from-lt : (r : ℕ) (bs : List ℕ) → crc_from r bs < 65536
crc_from-lt r [] = omega arith
crc_from-lt r (b ∷ bs) = crc_from-lt (crc_bits 8 (bit_xor r (b * 256))) bs

abbrev pub xmodem : Crc16
xmodem = record {
  crc16xmodem = crc_from 0;
  crc16xmodem-lt = λ payload. crc_from-lt 0 payload;
  crc16xmodem-nil = refl;
}

abbrev pub key_of_seed : List ℕ → List ℕ
key_of_seed seed = map (λ b. (b + 1) % 256) seed

pub length-key_of_seed : (seed : List ℕ) → length (key_of_seed seed) ≡ length seed
length-key_of_seed [] = refl
length-key_of_seed (b ∷ seed) = ap suc (length-key_of_seed seed)

pub key_of_seed-IsByte : (seed : List ℕ) → All IsByte (key_of_seed seed)
key_of_seed-IsByte [] = tt
key_of_seed-IsByte (b ∷ seed) = (omega arith, key_of_seed-IsByte seed)

-- A signature is the public key and the message.
abbrev pub toy_nacl : Ed25519
toy_nacl = record {
  verify_key_of = key_of_seed;
  sign_with = λ seed message. key_of_seed seed ++ message;
  verifies = λ key message signature. list_eq signature (key ++ message);
  length-verify_key_of = λ seed h. length-key_of_seed seed ∙ h;
  verify_key_of-IsByte = key_of_seed-IsByte;
  verifies-sign_with = λ seed message h. list_eq_refl (key_of_seed seed ++ message);
}

-- Bytes, checked by evaluation.
abbrev all_bytes : List ℕ → Bool
all_bytes [] = true
all_bytes (b ∷ bs) = ltb b 256 && all_bytes bs

pub all_bytes_sound : (bs : List ℕ) → all_bytes bs ≡ true → All IsByte bs
all_bytes_sound [] h = tt
all_bytes_sound (b ∷ bs) h =
    let (first, rest) = both (ltb b 256) (all_bytes bs) h in
    (ltb→lt b 256 first, all_bytes_sound bs rest)
  where
    both : (a c : Bool) → (a && c) ≡ true → (a ≡ true) × (c ≡ true)
    both true c h = (refl, h)
    both false c h = cc

-- The key whose bytes are n, n + 1 and so on.
abbrev pub counted : ℕ → ℕ → List ℕ
counted zero n = []
counted (suc size) n = n ∷ counted size (n + 1)

abbrev pub seed : List ℕ
seed = counted 32 7

abbrev pub key : List ℕ
key = counted 32 8

abbrev pub server_key : List ℕ
server_key = counted 32 100

pub seed_is_key : IsKey seed
seed_is_key = record { size = refl; bytes = all_bytes_sound seed refl }

pub key_is_key : IsKey key
key_is_key = record { size = refl; bytes = all_bytes_sound key refl }

pub server_key_is_key : IsKey server_key
server_key_is_key = record { size = refl; bytes = all_bytes_sound server_key refl }
