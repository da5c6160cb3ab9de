-- ===== src/Memo/RoundTrip.antt =====
-- Memos that the constructors accept, and their XDR unions.
use py_stellar_base.Prelude.{
  ℕ, ◌-◌, ◌^◌, ◌<◌, ◌≤◌, ◌≡◌, refl, arith, true, not, leb→le, ==_iff, List, leb, ◌==◌, length, All,
}
use py_stellar_base.Prelude.Int.{ℤ, pos, negsuc, ltb_ℤ}
use py_stellar_base.Error.{ok, require, >>=-eq-ok, require-eq-ok, ok-injective}
use py_stellar_base.Base32.{IsByte}
use py_stellar_base.Text.{hex}
use py_stellar_base.Text.Hex.{from_hex-hex}
use py_stellar_base.Memo.{
  Text, str, bytes, Memo, none_memo, text_memo, id_memo, hash_memo, return_hash_memo, XdrMemo,
  memo_none, memo_text, memo_id, memo_hash, memo_return, memo_unknown, hex_to_bytes, memo_bytes,
  make_text_memo, make_id_memo, make_hash_memo, make_return_hash_memo, to_xdr_object,
  from_xdr_object,
}

-- What the protocol allows in a memo.
abbrev pub IsValid : Memo → Type 0
IsValid none_memo = Unit
IsValid (text_memo b) = length b ≤ 28
IsValid (id_memo (pos n)) = n < 2 ^ 64
IsValid (id_memo (negsuc n)) = ⊥
IsValid (hash_memo b) = length b ≡ 32
IsValid (return_hash_memo b) = length b ≡ 32

-- A valid memo is read back from its XDR union.
pub memo-from_xdr-to_xdr : (m : Memo) → IsValid m → from_xdr_object (to_xdr_object m) ≡ ok m
unfolding from_xdr_object to_xdr_object
memo-from_xdr-to_xdr none_memo v = refl
memo-from_xdr-to_xdr (text_memo b) v = ground arith
memo-from_xdr-to_xdr (id_memo (pos n)) v = ground arith
memo-from_xdr-to_xdr (id_memo (negsuc n)) v = absurd v
memo-from_xdr-to_xdr (hash_memo b) v = ground arith
memo-from_xdr-to_xdr (return_hash_memo b) v = ground arith

make_text_memo-IsValid : (t : Text) (m : Memo) → make_text_memo t ≡ ok m → IsValid m
unfolding make_text_memo
make_text_memo-IsValid t m h =
    let (b, r1, h1) = >>=-eq-ok (memo_bytes t) _ h in
    let (_, r2, h2) = >>=-eq-ok (require (leb (length b) 28) _) _ h1 in
    rw (← ok-injective h2) (leb→le (length b) 28 (require-eq-ok _ _ r2))

make_id_memo-IsValid : (n : ℤ) (m : Memo) → make_id_memo n ≡ ok m → IsValid m
unfolding make_id_memo
make_id_memo-IsValid (pos n) m h =
    let (_, r1, h1) = >>=-eq-ok (require (not (ltb_ℤ (pos n) (pos 0))) _) _ h in
    let (_, r2, h2) = >>=-eq-ok (require (not (ltb_ℤ (pos (2 ^ 64 - 1)) (pos n))) _) _ h1 in
    rw (← ok-injective h2) (in_range (require-eq-ok _ _ r2))
  where
    in_range : not (ltb_ℤ (pos (2 ^ 64 - 1)) (pos n)) ≡ true → n < 2 ^ 64
    in_range e = ground arith
make_id_memo-IsValid (negsuc n) m h = absurd (ground arith)

make_hash_memo-IsValid : (t : Text) (m : Memo) → make_hash_memo t ≡ ok m → IsValid m
unfolding make_hash_memo
make_hash_memo-IsValid t m h =
    let (b, r1, h1) = >>=-eq-ok (hex_to_bytes t) _ h in
    let (_, r2, h2) = >>=-eq-ok (require (length b == 32) _) _ h1 in
    rw (← ok-injective h2) ((==_iff (length b) 32).0 (require-eq-ok _ _ r2))

make_return_hash_memo-IsValid : (t : Text) (m : Memo) → make_return_hash_memo t ≡ ok m → IsValid m
unfolding make_return_hash_memo
make_return_hash_memo-IsValid t m h =
    let (b, r1, h1) = >>=-eq-ok (hex_to_bytes t) _ h in
    let (_, r2, h2) = >>=-eq-ok (require (length b == 32) _) _ h1 in
    rw (← ok-injective h2) ((==_iff (length b) 32).0 (require-eq-ok _ _ r2))

-- Whatever union is read, a memo that results is one that the protocol allows.
pub memo-IsValid : (x : XdrMemo) (m : Memo) → from_xdr_object x ≡ ok m → IsValid m
unfolding from_xdr_object
memo-IsValid memo_none m h = rw (← ok-injective h) tt
memo-IsValid (memo_text b) m h = make_text_memo-IsValid (bytes b) m h
memo-IsValid (memo_id n) m h = make_id_memo-IsValid n m h
memo-IsValid (memo_hash b) m h = make_hash_memo-IsValid (bytes b) m h
memo-IsValid (memo_return b) m h = make_return_hash_memo-IsValid (bytes b) m h
memo-IsValid (memo_unknown n) m h = rw (← ok-injective h) tt

-- A hash memo may be given by the hexadecimal text of its bytes.
make_hash_memo-hex :
    (b : List ℕ)
    → All IsByte b
    → (make_hash_memo (str (hex b)) ≡ make_hash_memo (bytes b))
      × (make_return_hash_memo (str (hex b)) ≡ make_return_hash_memo (bytes b))
unfolding make_hash_memo make_return_hash_memo
make_hash_memo-hex b h = (rw (from_hex-hex b h), rw (from_hex-hex b h))
