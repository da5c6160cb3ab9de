-- ===== src/Text/Hex.antt =====
-- bytes.fromhex reads what bytes.hex writes.
use py_stellar_base.Prelude.{
  ℕ, ◌+◌, ◌*◌, ◌/◌, ◌%◌, ◌<◌, ◌≡◌, refl, ◌∙◌, arith, false, List, [], ◌∷◌, All, length,
}
use py_stellar_base.Error.{ok}
use py_stellar_base.Base32.{IsByte}
use py_stellar_base.Text.{hex_digit, hex, hex_value, is_space, from_hex}

hex_value-hex_digit : (d : ℕ) → d < 16 → hex_value (hex_digit d) ≡ ok d
unfolding hex_value hex_digit
hex_value-hex_digit d h = ground arith

is_space-hex_digit : (d : ℕ) → d < 16 → is_space (hex_digit d) ≡ false
unfolding is_space hex_digit
is_space-hex_digit d h = ground arith

from_hex_step :
    (c d hi lo : ℕ) (rest more : List ℕ)
    → is_space c ≡ false
    → hex_value c ≡ ok hi
    → hex_value d ≡ ok lo
    → from_hex rest ≡ ok more
    → from_hex (c ∷ d ∷ rest) ≡ ok ((hi * 16 + lo) ∷ more)
unfolding from_hex
from_hex_step c d hi lo rest more h1 h2 h3 h4 = ground arith

pub from_hex-hex : (bs : List ℕ) → All IsByte bs → from_hex (hex bs) ≡ ok bs
unfolding hex
from_hex-hex [] h = unfold from_hex in refl
from_hex-hex (b ∷ bs) (hb, hs) =
    from_hex_step (hex_digit (b / 16)) (hex_digit (b % 16)) (b / 16) (b % 16) (hex bs) bs
      (is_space-hex_digit (b / 16) (omega arith)) (hex_value-hex_digit (b / 16) (omega arith))
      (hex_value-hex_digit (b % 16) (omega arith)) (from_hex-hex bs hs)
    ∙ ground arith

pub length-hex : (bs : List ℕ) → length (hex bs) ≡ 2 * length bs
unfolding hex
length-hex [] = omega arith
length-hex (b ∷ bs) = omega (arith, length-hex bs)
