-- ===== src/Base/Decimal/Lengths.antt =====
-- The text that `strtoull` leaves is a suffix of its argument, so it is no longer.
use leanexe.Base.Tests.{Text}
use leanexe.Base.Lists.{length}
use Prim.Native.Nat.{ℕ, ◌≤◌, ◌+◌, ◌-◌, ◌*◌}
use mathlib.Core.Bool.{Bool, true, false}
use mathlib.Core.List.{[], ◌∷◌}
use native.Mathlib.Omega.{arith}
use leanexe.Base.Decimal.{take_digits, skip_spaces, convert, signed, strtoull}

length-take_digits : (s : Text) (n : ℕ) → length (take_digits s n).1 ≤ length s
unfolding take_digits
length-take_digits [] n = omega arith
length-take_digits (c ∷ s) n = ground (arith, length-take_digits s (n * 10 + (c - b'0')))

length-skip_spaces : (s : Text) → length (skip_spaces s) ≤ length s
unfolding skip_spaces
length-skip_spaces [] = omega arith
length-skip_spaces (c ∷ s) = ground (arith, length-skip_spaces s)

length-convert :
    (minus : Bool) (whole s : Text)
    → length s ≤ length whole
    → length (convert minus whole s).1 ≤ length whole
unfolding convert
length-convert minus whole s h = ground (arith, length-take_digits s 0)

length-signed :
    (whole s : Text) → length s ≤ length whole → length (signed whole s).1 ≤ length whole
unfolding signed
length-signed whole [] h = omega arith
length-signed whole (c ∷ s) h = ground (
  arith,
  length-convert true whole s,
  length-convert false whole s,
  length-convert false whole (c ∷ s),
)

pub length-strtoull : (s : Text) → length (strtoull s).1 ≤ length s
unfolding strtoull
length-strtoull s = length-signed s (skip_spaces s) (length-skip_spaces s)
