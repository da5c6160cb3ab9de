-- ===== src/Xdr/Words.antt =====
-- What the primitives read back of what they wrote.
use py_stellar_base.Prelude.{
  ℕ, ◌/◌, ◌%◌, ◌^◌, ◌<◌, ◌≡◌, ap, arith, List, [], ◌++◌, length, take, take-append,
}
use mathlib.Core.List.{append-nil, append_assoc}
use py_stellar_base.Prelude.Int.{ℤ, pos, negsuc}
use py_stellar_base.Error.{ok}
use py_stellar_base.Xdr.{
  pack_uint, unpack_uint, low_64, as_signed, pack_uint64, unpack_uint64, unpack_int64, pack_uint256,
}

pub unpack_uint-pack_uint :
    (x : ℕ) (rest : List ℕ) → x < 2 ^ 32 → unpack_uint (pack_uint x ++ rest) ≡ ok (x, rest)
unfolding unpack_uint pack_uint
unpack_uint-pack_uint x rest h = ap (λ (t : ℕ). ok (t, rest)) (omega arith)

low_64-lt : (x : ℤ) → low_64 x < 2 ^ 64
unfolding low_64
low_64-lt (pos n) = omega arith
low_64-lt (negsuc n) = omega arith

pub unpack_uint64-pack_uint64 :
    (x : ℤ) (rest : List ℕ) → unpack_uint64 (pack_uint64 x ++ rest) ≡ ok (low_64 x, rest)
unfolding unpack_uint64 pack_uint64
unpack_uint64-pack_uint64 x rest =
    rw
      (
        append_assoc,
        unpack_uint-pack_uint (low_64 x / 2 ^ 32) _ (omega (arith, low_64-lt x)),
        unpack_uint-pack_uint (low_64 x % 2 ^ 32) rest (omega arith),
      )
      (ap (λ (t : ℕ). ok (t, rest)) (omega arith))

pub unpack_int64-pack_int64 :
    (x : ℤ) (rest : List ℕ) → unpack_int64 (pack_uint64 x ++ rest) ≡ ok (as_signed (low_64 x), rest)
unfolding unpack_int64
unpack_int64-pack_int64 x rest = rw (unpack_uint64-pack_uint64 x rest)

-- A signed 64-bit integer.
abbrev pub IsInt64 : ℤ → Type 0
IsInt64 (pos n) = n < 2 ^ 63
IsInt64 (negsuc n) = n < 2 ^ 63

pub as_signed-low_64 : (x : ℤ) → IsInt64 x → as_signed (low_64 x) ≡ x
unfolding as_signed low_64
as_signed-low_64 (pos n) h = ground arith
as_signed-low_64 (negsuc n) h = ground arith

pub pack_uint256_lem : (key : List ℕ) → length key ≡ 32 → pack_uint256 key ≡ key
unfolding pack_uint256
pack_uint256_lem key h = rw (← h, take_all key) (ground (arith, append-nil key))
  where
    take_all : (xs : List ℕ) → take (length xs) xs ≡ xs
    take_all xs = rw append-nil at (take-append xs [])
