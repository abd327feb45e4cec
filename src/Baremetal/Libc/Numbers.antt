-- ===== src/Baremetal/Libc/Numbers.antt =====
-- `strtoull` of tools/baremetal/libc/libc.c on the decimal print of a number.
use leanexe.Base.{
  ℕ, zero, suc, ◌+◌, ◌-◌, ◌*◌, ◌%◌, ◌<◌, ◌≡◌, refl, ap, sym, ◌∙◌, false, some, [], ◌∷◌, arith, Text,
  length, add64, u64_mod, append-nil,
}
use leanexe.Base.Decimal.{is_digit, take_digits, decimal, starts_with_digit}
use leanexe.Base.Decimal.RoundTrip.{IsDigits, take-decimal, decimal-IsDigits}
use leanexe.Baremetal.Libc.{strtoull_loop, strtoull}
use leanexe.Baremetal.Libc.Strings.{CString}

zero_ends : is_digit 0 ≡ false
unfolding is_digit
zero_ends = refl

-- The loop computes modulo 2^64 what `take_digits` computes without a bound.
strtoull_loop-CString :
    (f : ℕ) (m : ℕ → ℕ) (p n : ℕ) (s : Text)
    → length s < f
    → CString m p s
    → IsDigits s
    → strtoull_loop f m p (n % u64_mod) ≡ some ((take_digits s n).0 % u64_mod, p + length s)
unfolding strtoull_loop take_digits
strtoull_loop-CString zero m p n s short h digits = absurd (omega arith)
strtoull_loop-CString (suc f) m p n [] short end digits =
    let e : p ≡ p + 0 = omega arith in rw (end, zero_ends) (ap (λ q. some (n % u64_mod, q)) e)
strtoull_loop-CString (suc f) m p n (c ∷ s) short (first, positive, h) (digit, digits) =
    let step : add64 (n % u64_mod * 10) (c - b'0') ≡ (n * 10 + (c - b'0')) % u64_mod =
      omega arith in
    let e : p + 1 + length s ≡ p + suc (length s) = omega arith in
    rw (first, digit, step)
      (strtoull_loop-CString f m (p + 1) (n * 10 + (c - b'0')) s (omega arith) h digits
        ∙ ap (λ q. some ((take_digits s (n * 10 + (c - b'0'))).0 % u64_mod, q)) e)

-- `strtoull` on the decimal print of any number, as a string in memory, gives that number modulo
-- 2^64 and the address of the zero byte behind it; one round for each digit and one more are enough.
pub strtoull-decimal_memory :
    (m : ℕ → ℕ) (p n : ℕ)
    → CString m p (decimal n)
    → strtoull (length (decimal n) + 1) m p ≡ some (n % u64_mod, p + length (decimal n))
unfolding strtoull
strtoull-decimal_memory m p n h =
    let taken : take_digits (decimal n) 0 ≡ (n, []) =
      ap (λ s. take_digits s 0) (sym (append-nil (decimal n)))
      ∙ take-decimal n [] (unfold starts_with_digit in refl) in
    strtoull_loop-CString (length (decimal n) + 1) m p 0 (decimal n) (omega arith) h
      (decimal-IsDigits n)
    ∙ ap (λ r. some (r.0 % u64_mod, p + length (decimal n))) taken
