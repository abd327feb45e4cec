-- ===== src/Native/Parse/Tokens.antt =====
-- `read_token` on a text that begins with a token.
use leanexe.Base.{
  ℕ, zero, suc, ◌+◌, ◌/◌, ◌^◌, ◌≤◌, ◌<◌, ◌≡◌, refl, false, none, some, [], ◌∷◌, ◌++◌, inl, inr,
  Bool-cases, true, append-nil, ◌%◌, arith, length, Text, ◌==◌, leb,
}
use native.Mathlib.Nat.{pow-suc}
use leanexe.Base.Decimal.{decimal, digits_loop}
use leanexe.Base.Run.{ok}
use leanexe.Native.Machine.{World}
use leanexe.Native.Parse.{break_comma, read_token}
use leanexe.Native.Parse.Numbers.{NoComma}

-- What may stand behind a token: nothing, or a comma and more text.
pub data Rest : Text → Type 0 where
  nothing : Rest []
  comma : (s : Text) → Rest (b',' ∷ s)

-- The text behind the token's comma.
abbrev pub behind : Text → Text
behind [] = []
behind (c ∷ s) = s

break_comma-append : (t s : Text) → NoComma t → break_comma (t ++ b',' ∷ s) ≡ (t, some s)
unfolding break_comma
break_comma-append [] s _ = refl
break_comma-append (c ∷ t) s (other, h) = rw (other, break_comma-append t s h)

break_comma_one : (t : Text) → NoComma t → break_comma t ≡ (t, none)
unfolding break_comma
break_comma_one [] _ = refl
break_comma_one (c ∷ t) (other, h) = rw (other, break_comma_one t h)

pub read_token-ok :
    {rest : Text} (t : Text) (w : World)
    → Rest rest
    → NoComma t
    → 0 < length t
    → length t < 32
    → read_token 32 (t ++ rest) w ≡ ok (t, behind rest) w
unfolding read_token
read_token-ok t w nothing plain lo hi =
    let some_text : (length t == 0) ≡ false = ground arith in
    let fits : leb 32 (length t) ≡ false = ground arith in
    rw (append-nil, break_comma_one t plain, some_text, fits)
read_token-ok t w (comma s) plain lo hi =
    let some_text : (length t == 0) ≡ false = ground arith in
    let fits : leb 32 (length t) ≡ false = ground arith in
    rw (break_comma-append t s plain, some_text, fits)

-- A number below `10 ^ (k + 1)` has at most `k + 1` digits.
digits_loop-le :
    (k f n : ℕ) (out : Text) → n < 10 ^ suc k → length (digits_loop f n out) ≤ suc k + length out
unfolding digits_loop
digits_loop-le k zero n out h = omega arith
digits_loop-le zero (suc f) n out h =
    let one : (n / 10 == 0) ≡ true = ground arith in rw one (omega arith)
digits_loop-le (suc k) (suc f) n out h = elim (Bool-cases (n / 10 == 0)) [
  | inl done ↦ rw done (omega arith)
  | inr more ↦ rw more (
      omega (
        arith,
        digits_loop-le k f (n / 10) ((b'0' + n % 10) ∷ out) (omega (arith, pow-suc 10 (suc k))),
      ))
]

pub decimal-lt : (n : ℕ) → n < 2 ^ 64 → length (decimal n) < 32
unfolding decimal
decimal-lt n h = omega (arith, digits_loop-le 19 (suc n) n [] (omega arith))
