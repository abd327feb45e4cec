-- ===== src/Native/Parse/Hex.antt =====
-- Bytes printed in hexadecimal and read back.
use leanexe.Base.{
  ℕ, ◌*◌, ◌/◌, ◌%◌, ◌<◌, ◌≡◌, refl, true, some, [], ◌∷◌, ◌==◌, arith, Text, All, length, bit_or,
}
use leanexe.Base.Bits.{bit_or-low}
use leanexe.Base.Decimal.{hex_digit, hex_byte}
use leanexe.Base.Run.{ok}
use leanexe.Native.Machine.{World}
use leanexe.Native.Parse.{hex_nibble, hex_pairs, parse_hex}
use leanexe.Native.Show.{hex_text}

abbrev pub Bytes : Text → Type 0
Bytes = All (λ b. b < 256)

hex_nibble-hex_digit : (n : ℕ) → n < 16 → hex_nibble (hex_digit n) ≡ some n
unfolding hex_nibble hex_digit
hex_nibble-hex_digit n small = ground arith

nibbles : (b : ℕ) → b < 256 → bit_or (b / 16 % 16 * 16) (b % 16) ≡ b
nibbles b small = omega (arith, bit_or-low 4 (b / 16 % 16) (b % 16) (omega arith))

hex_text-length : (bs : Text) → length (hex_text bs) ≡ 2 * length bs
unfolding hex_text hex_byte
hex_text-length [] = refl
hex_text-length (b ∷ bs) = omega (arith, hex_text-length bs)

hex_pairs-hex_text : (bs : Text) (w : World) → Bytes bs → hex_pairs (hex_text bs) w ≡ ok bs w
unfolding hex_text hex_byte hex_pairs
hex_pairs-hex_text [] w _ = refl
hex_pairs-hex_text (b ∷ bs) w (small, rest) = rw (
  hex_nibble-hex_digit (b / 16 % 16) (omega arith),
  hex_nibble-hex_digit (b % 16) (omega arith),
  hex_pairs-hex_text bs w rest,
  nibbles b small,
  hex_pairs,
)

-- The hexadecimal print of bytes, as `print_bytes` makes it, is read back by `parse_hex` as those
-- bytes, and the world is left as it was.
pub parse_hex-hex_text : (bs : Text) (w : World) → Bytes bs → parse_hex (hex_text bs) w ≡ ok bs w
unfolding parse_hex
parse_hex-hex_text bs w small =
    let even : (length (hex_text bs) % 2 == 0) ≡ true = ground (arith, hex_text-length bs) in
    rw even (hex_pairs-hex_text bs w small)
