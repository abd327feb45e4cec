-- ===== src/Base/Lines/Lengths.antt =====
-- `fgets` takes at least a byte of a text that has one.
use leanexe.Base.Tests.{◌==◌, Text}
use leanexe.Base.Lists.{length}
use Prim.Native.Nat.{ℕ, zero, suc, ◌≤◌, ◌<◌}
use mathlib.Core.Bool.{false}
use mathlib.Core.Path.{◌≡◌}
use mathlib.Core.List.{[], ◌∷◌}
use native.Mathlib.Omega.{arith}
use leanexe.Base.Lines.{fgets}

length-fgets : (n : ℕ) (s : Text) → length (fgets n s).1 ≤ length s
unfolding fgets
length-fgets zero s = omega arith
length-fgets (suc n) [] = omega arith
length-fgets (suc n) (c ∷ s) = ground (arith, length-fgets n s)

pub length-fgets_less :
    (n : ℕ) (s : Text) → (length s == 0) ≡ false → length (fgets (suc n) s).1 < length s
unfolding fgets
length-fgets_less n [] h = ground (arith, h)
length-fgets_less n (c ∷ s) h = ground (arith, length-fgets n s)
