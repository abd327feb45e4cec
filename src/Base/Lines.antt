-- ===== src/Base/Lines.antt =====
-- The C library's readers of lines and of tokens that spaces part.
pub mod Lengths
use leanexe.Base.Tests.{◌==◌, if◌then◌else◌, Text}
use Prim.Native.Nat.{ℕ, zero, suc}
use mathlib.Core.Bool.{Bool, true, false}
use mathlib.Core.List.{List, [], ◌∷◌}
use mathlib.Core.Option.{Option, none, some}

-- `fgets` into `size + 1` bytes: at most `size` bytes, up to a newline.
unfoldable pub fgets : ℕ → Text → Text × Text
fgets zero s = ([], s)
fgets (suc n) [] = ([], [])
fgets (suc n) (c ∷ s) =
    let (line, rest) = fgets n s in if c == b'\n' then (c ∷ [], s) else (c ∷ line, rest)

-- The C string in a buffer: the bytes before the first zero.
unfoldable pub c_string : Text → Text
c_string [] = []
c_string (c ∷ s) = if c == 0 then [] else c ∷ c_string s

-- `strtok`: the next token, which starts behind the spaces, and the text behind the space that ends
-- it; no token where only spaces are left.
unfoldable pub skip_blanks : Text → Text
skip_blanks [] = []
skip_blanks (c ∷ s) = if c == b' ' then skip_blanks s else c ∷ s

unfoldable pub break_blank : Text → Text × Text
break_blank [] = ([], [])
break_blank (c ∷ s) =
    let (token, rest) = break_blank s in if c == b' ' then ([], s) else (c ∷ token, rest)

unfoldable pub token_of : Text → Option Text × Text
token_of [] = (none, [])
token_of (c ∷ s) = let (token, rest) = break_blank (c ∷ s) in (some token, rest)

unfoldable pub strtok : Text → Option Text × Text
strtok text = token_of (skip_blanks text)

-- The first `n` tokens of a line.
unfoldable pub split_tokens : ℕ → Text → List Text
split_tokens zero line = []
split_tokens (suc n) line =
    let (token, rest) = strtok line in elim token [ none ↦ [] | some t ↦ t ∷ split_tokens n rest ]
