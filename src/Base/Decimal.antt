-- ===== src/Base/Decimal.antt =====
-- Decimal and hexadecimal prints of unsigned integers, as the C library's `printf` makes them, and
-- `strtoull` with base 10.
pub mod RoundTrip
pub mod Lengths
use leanexe.Base.Tests.{ltb, leb, ◌==◌, if◌then◌else◌, Text, u64_mod}
use Prim.Native.Nat.{ℕ, zero, suc, ◌+◌, ◌-◌, ◌*◌, ◌/◌, ◌%◌}
use mathlib.Core.Bool.{Bool, true, false, ◌&&◌, ◌||◌}
use mathlib.Core.List.{[], ◌∷◌}

-- `do { digit; n /= 10 } while (n != 0)`, on fuel; `decimal` gives it `n + 1` rounds.
unfoldable pub digits_loop : ℕ → ℕ → Text → Text
digits_loop zero n out = out
digits_loop (suc f) n out =
    let rest = digits_loop f (n / 10) ((b'0' + n % 10) ∷ out) in
    if n / 10 == 0 then (b'0' + n % 10) ∷ out else rest

unfoldable pub decimal : ℕ → Text
decimal n = digits_loop (suc n) n []

unfoldable pub hex_digit : ℕ → ℕ
hex_digit n = if ltb n 10 then b'0' + n else b'a' + (n - 10)

-- `%02x` of a byte.
unfoldable pub hex_byte : ℕ → Text
hex_byte b = hex_digit (b / 16 % 16) ∷ hex_digit (b % 16) ∷ []

unfoldable pub is_digit : ℕ → Bool
is_digit c = leb b'0' c && leb c b'9'

unfoldable pub is_space : ℕ → Bool
is_space c = c == 32 || (leb 9 c && leb c 13)

-- The longest run of digits, read as a number with no bound, and the text behind it.
unfoldable pub take_digits : Text → ℕ → ℕ × Text
take_digits [] n = (n, [])
take_digits (c ∷ s) n = if is_digit c then take_digits s (n * 10 + (c - b'0')) else (n, c ∷ s)

unfoldable pub skip_spaces : Text → Text
skip_spaces [] = []
skip_spaces (c ∷ s) = if is_space c then skip_spaces s else c ∷ s

unfoldable pub starts_with_digit : Text → Bool
starts_with_digit [] = false
starts_with_digit (c ∷ s) = is_digit c

abbrev pub saturate : ℕ → ℕ
saturate n = if ltb n u64_mod then n else u64_mod - 1

-- After the sign; `whole` is the text before the spaces, at which `end` stands if no digit was read.
unfoldable pub convert : Bool → Text → Text → ℕ × Text
convert minus whole s =
    if starts_with_digit s
    then (let (n, rest) = take_digits s 0 in
        (if minus && ltb n u64_mod then (u64_mod - n) % u64_mod else saturate n, rest))
    else (0, whole)

unfoldable pub signed : Text → Text → ℕ × Text
signed whole [] = (0, whole)
signed whole (c ∷ s) =
    if c == b'-'
    then convert true whole s
    else if c == b'+'
    then convert false whole s
    else convert false whole (c ∷ s)

-- The value and the text at `*end`: spaces, a sign, and digits; a value too large is `ULLONG_MAX`,
-- and a sign `-` negates modulo 2^64.
unfoldable pub strtoull : Text → ℕ × Text
strtoull text = signed text (skip_spaces text)

-- The number behind the sign, which `strtoull` finds out of range when it takes more than 64 bits.
unfoldable pub magnitude : Text → ℕ
magnitude [] = 0
magnitude (c ∷ s) =
    let (after_sign, _) = take_digits s 0 in
    let (whole, _) = take_digits (c ∷ s) 0 in if c == b'-' || c == b'+' then after_sign else whole

-- Whether `strtoull` sets `errno`.
unfoldable pub overflows : Text → Bool
overflows text = leb u64_mod (magnitude (skip_spaces text))
