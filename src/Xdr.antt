-- ===== src/Xdr.antt =====
-- Python's xdrlib primitives behind stellar_sdk/xdr/StellarXDR_pack.py (pack_int64, pack_uint64,
-- pack_uint256 and their unpackers): a packer's buffer is a list of bytes, an unpacker reads from
-- the front of the bytes that are left.
pub mod Words
use py_stellar_base.Prelude.{
  ℕ, zero, suc, ◌+◌, ◌-◌, ◌*◌, ◌/◌, ◌%◌, ◌^◌, ◌<◌, Bool, List, [], ◌∷◌, ◌++◌, ltb, leb,
  if◌then◌else◌, length, take, drop, replicate,
}
use py_stellar_base.Prelude.Int.{ℤ, pos, negsuc}
use py_stellar_base.Error.{Result, ok, err, eof_error, ◌>>=◌}

abbrev pub Unpacker : Type 0 → Type 0
Unpacker A = List ℕ → Result (A × List ℕ)

-- `struct.pack('>L', x)` of a number below 2 ^ 32
unfoldable pub pack_uint : ℕ → List ℕ
pack_uint x = (x / 2 ^ 24 % 256) ∷ (x / 2 ^ 16 % 256) ∷ (x / 2 ^ 8 % 256) ∷ (x % 256) ∷ []

unfoldable pub unpack_uint : Unpacker ℕ
unpack_uint (a ∷ b ∷ c ∷ d ∷ rest) = ok (((a * 256 + b) * 256 + c) * 256 + d, rest)
unpack_uint _ = err eof_error

-- The 64 low bits of an integer in two's complement.
unfoldable pub low_64 : ℤ → ℕ
low_64 (pos n) = n % 2 ^ 64
low_64 (negsuc n) = 2 ^ 64 - 1 - n % 2 ^ 64

-- `x - 0x10000000000000000` from 2 ^ 63 on
unfoldable pub as_signed : ℕ → ℤ
as_signed x = if ltb x (2 ^ 63) then pos x else negsuc (2 ^ 64 - 1 - x)

-- pack_uhyper, and pack_hyper, which is the same function: `x>>32 & 0xffffffff`, `x & 0xffffffff`
unfoldable pub pack_uint64 : ℤ → List ℕ
pack_uint64 x = pack_uint (low_64 x / 2 ^ 32) ++ pack_uint (low_64 x % 2 ^ 32)

abbrev pub pack_int64 : ℤ → List ℕ
pack_int64 = pack_uint64

unfoldable pub unpack_uint64 : Unpacker ℕ
unpack_uint64 bs = do
  (hi, rest) ← unpack_uint bs
  (lo, rest') ← unpack_uint rest
  ok (hi * 2 ^ 32 + lo, rest')

unfoldable pub unpack_int64 : Unpacker ℤ
unpack_int64 bs = do (x, rest) ← unpack_uint64 bs; ok (as_signed x, rest)

-- `pack_fopaque(32, data)`: a long value is cut, a short one filled with zeros
unfoldable pub pack_uint256 : List ℕ → List ℕ
pack_uint256 bs = take 32 bs ++ replicate (32 - length bs) 0

unfoldable pub unpack_uint256 : Unpacker (List ℕ)
unpack_uint256 bs = if leb 32 (length bs) then ok (take 32 bs, drop 32 bs) else err eof_error
