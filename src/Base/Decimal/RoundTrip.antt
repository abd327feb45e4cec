-- ===== src/Base/Decimal/RoundTrip.antt =====
-- `strtoull` reads a decimal print back.
use Prim.Native.Nat.{ℕ, zero, suc, ◌+◌, ◌/◌, ◌%◌, ◌<◌}
use mathlib.Core.Path.{◌≡◌, refl, ap, ◌∙◌}
use mathlib.Core.Logic.{inl, inr}
use mathlib.Core.Bool.{true, false}
use mathlib.Core.List.{[], ◌∷◌, ◌++◌}
use native.Mathlib.Omega.{arith}
use leanexe.Base.Lists.{All, length}
use leanexe.Base.Tests.{◌==◌, Text, Bool-cases, u64_mod}
use leanexe.Base.Decimal.{
  digits_loop, decimal, is_digit, is_space, take_digits, skip_spaces, starts_with_digit, saturate,
  convert, signed, strtoull,
}

abbrev pub IsDigits : Text → Type 0
IsDigits = All (λ c. is_digit c ≡ true)

-- The text does not begin with a digit.
abbrev pub Ends : Text → Type 0
Ends s = starts_with_digit s ≡ false

take_last : (n : ℕ) (s : Text) → take_digits ((b'0' + n % 10) ∷ s) (n / 10) ≡ take_digits s n
unfolding take_digits is_digit
take_last n s = ground arith

take-digits_loop :
    (f n : ℕ) (out rest : Text)
    → n < f
    → take_digits (digits_loop f n out ++ rest) 0 ≡ take_digits (out ++ rest) n
unfolding digits_loop
take-digits_loop zero n out rest h = absurd (omega arith)
take-digits_loop (suc f) n out rest h = elim (Bool-cases (n / 10 == 0)) [
  | inl done ↦
      let small : 0 ≡ n / 10 = ground arith in
      rw done (ap (take_digits (((b'0' + n % 10) ∷ out) ++ rest)) small ∙ take_last n (out ++ rest))
  | inr more ↦ rw more (
      take-digits_loop f (n / 10) ((b'0' + n % 10) ∷ out) rest (ground arith)
      ∙ take_last n (out ++ rest))
]

take_ended : (n : ℕ) (rest : Text) → Ends rest → take_digits rest n ≡ (n, rest)
unfolding take_digits starts_with_digit
take_ended n [] h = refl
take_ended n (c ∷ s) h = rw h

pub take-decimal : (n : ℕ) (rest : Text) → Ends rest → take_digits (decimal n ++ rest) 0 ≡ (n, rest)
unfolding decimal
take-decimal n rest h = take-digits_loop (suc n) n [] rest (omega arith) ∙ take_ended n rest h

last_IsDigit : (n : ℕ) → is_digit (b'0' + n % 10) ≡ true
unfolding is_digit
last_IsDigit n = ground arith

digits_loop-IsDigits : (f n : ℕ) (out : Text) → IsDigits out → IsDigits (digits_loop f n out)
unfolding digits_loop
digits_loop-IsDigits zero n out h = h
digits_loop-IsDigits (suc f) n out h = elim (Bool-cases (n / 10 == 0)) [
  | inl done ↦ rw done (last_IsDigit n, h)
  | inr more ↦ rw more (digits_loop-IsDigits f (n / 10) _ (last_IsDigit n, h))
]

pub decimal-IsDigits : (n : ℕ) → IsDigits (decimal n)
unfolding decimal
decimal-IsDigits n = digits_loop-IsDigits (suc n) n [] tt

digits_loop-length : (f n : ℕ) (out : Text) → 0 < f → length out < length (digits_loop f n out)
unfolding digits_loop
digits_loop-length zero n out h = absurd (omega arith)
digits_loop-length (suc zero) n out h = elim (Bool-cases (n / 10 == 0)) [
  | inl done ↦ rw done (omega arith)
  | inr more ↦ rw more (omega arith)
]
digits_loop-length (suc (suc f)) n out h = elim (Bool-cases (n / 10 == 0)) [
  | inl done ↦ rw done (omega arith)
  | inr more ↦ rw more (omega (arith, digits_loop-length (suc f) (n / 10) ((b'0' + n % 10) ∷ out)))
]

pub decimal-length : (n : ℕ) → 0 < length (decimal n)
unfolding decimal
decimal-length n = digits_loop-length (suc n) n [] (omega arith)

-- On a text that begins with a digit.
pub strtoull_digits :
    (c : ℕ) (s : Text)
    → is_digit c ≡ true
    → strtoull (c ∷ s) ≡ (let (n, rest) = take_digits (c ∷ s) 0 in (saturate n, rest))
unfolding strtoull skip_spaces signed convert starts_with_digit is_digit is_space
strtoull_digits c s h = ground arith

strtoull_taken :
    (t rest : Text) (n : ℕ)
    → 0 < length t
    → IsDigits t
    → take_digits (t ++ rest) 0 ≡ (n, rest)
    → n < u64_mod
    → strtoull (t ++ rest) ≡ (n, rest)
strtoull_taken [] rest n h _ e small = absurd (omega arith)
strtoull_taken (c ∷ s) rest n h (digit, _) e small =
    let exact : saturate n ≡ n = ground arith in strtoull_digits c (s ++ rest) digit ∙ rw (e, exact)

-- `strtoull` reads the decimal print of a 64-bit word back, and stops behind it.
pub strtoull-decimal :
    (n : ℕ) (rest : Text) → n < u64_mod → Ends rest → strtoull (decimal n ++ rest) ≡ (n, rest)
strtoull-decimal n rest small ends =
    strtoull_taken (decimal n) rest n (decimal-length n) (decimal-IsDigits n)
      (take-decimal n rest ends) small
