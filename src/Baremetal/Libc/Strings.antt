-- ===== src/Baremetal/Libc/Strings.antt =====
-- The string functions of tools/baremetal/libc/libc.c against lists of bytes.
use mathlib.Core.Path.{subst}
use leanexe.Base.{
  ◌&&◌, not, ℕ, zero, suc, ◌+◌, ◌<◌, ◌≡◌, ap, sym, ◌∙◌, Bool, true, false, Bool-cases, inl, inr,
  some, [], ◌∷◌, ◌==◌, ltb, arith, Text, length, ==_iff, text_eq,
}
use leanexe.Baremetal.Libc.{ℤ, diff, strlen_loop, strlen, strcmp}

-- The bytes from address `p` on are those of `s`, none of them zero, and a zero byte behind them.
abbrev pub CString : (ℕ → ℕ) → ℕ → Text → Type 0
CString m p [] = m p ≡ 0
CString m p (c ∷ s) = (m p ≡ c) × (0 < c) × CString m (p + 1) s

strlen_loop-CString :
    (f : ℕ) (m : ℕ → ℕ) (p n : ℕ) (s : Text)
    → length s < f
    → CString m (p + n) s
    → strlen_loop f m p n ≡ some (n + length s)
unfolding strlen_loop
strlen_loop-CString zero m p n s short h = absurd (omega arith)
strlen_loop-CString (suc f) m p n [] short end =
    let ends : (m (p + n) == 0) ≡ true = (==_iff (m (p + n)) 0).1 end in
    let e : n ≡ n + 0 = omega arith in rw ends (ap some e)
strlen_loop-CString (suc f) m p n (c ∷ s) short (first, positive, h) =
    let goes : (m (p + n) == 0) ≡ false = ground arith in
    let next : p + n + 1 ≡ p + (n + 1) = omega arith in
    let e : n + 1 + length s ≡ n + suc (length s) = omega arith in
    rw goes (
      strlen_loop-CString f m p (n + 1) s (omega arith) (subst (λ q. CString m q s) next h)
      ∙ ap some e)

-- `strlen` of a string in memory is the number of its bytes, and one round for each byte and one for
-- the zero byte are enough.
pub strlen-CString :
    (m : ℕ → ℕ) (p : ℕ) (s : Text) → CString m p s → strlen (length s + 1) m p ≡ some (length s)
unfolding strlen
strlen-CString m p s h =
    let start : p ≡ p + 0 = omega arith in
    let none_before : 0 + length s ≡ length s = omega arith in
    strlen_loop-CString (length s + 1) m p 0 s (omega arith) (subst (λ q. CString m q s) start h)
    ∙ ap some none_before

-- The test `strcmp(a, b) == 0`.
unfoldable pub is_zero : ℤ → Bool
is_zero (ℤ.pos n) = n == 0
is_zero (ℤ.negsuc n) = false

diff-is_zero : (a b : ℕ) → is_zero (diff a b) ≡ (a == b)
unfolding diff is_zero
diff-is_zero a b = elim (Bool-cases (ltb a b)) [
  | inl less ↦ rw less (ground arith)
  | inr other ↦ rw other (ground arith)
]

strcmp_stop :
    (f : ℕ) (m : ℕ → ℕ) (p q : ℕ)
    → (not (m p == 0) && (m p == m q)) ≡ false
    → strcmp (suc f) m p q ≡ some (diff (m p) (m q))
unfolding strcmp
strcmp_stop f m p q e = rw e

strcmp_next :
    (f : ℕ) (m : ℕ → ℕ) (p q : ℕ)
    → (not (m p == 0) && (m p == m q)) ≡ true
    → strcmp (suc f) m p q ≡ strcmp f m (p + 1) (q + 1)
unfolding strcmp
strcmp_next f m p q e = rw e

-- `strcmp` of two strings in memory is zero exactly when they have the same bytes, and one round for
-- each byte of the first string and one for its zero byte are enough.
pub strcmp-CString :
    (m : ℕ → ℕ) (s t : Text) (p q : ℕ)
    → CString m p s
    → CString m q t
    → (r : ℤ) × (strcmp (suc (length s)) m p q ≡ some r) × (is_zero r ≡ text_eq s t)
unfolding text_eq
strcmp-CString m [] [] p q end_p end_q = (
  diff (m p) (m q),
  strcmp_stop 0 m p q (ground (arith, end_p)),
  diff-is_zero (m p) (m q) ∙ (==_iff (m p) (m q)).1 (end_p ∙ sym end_q),
)
strcmp-CString m [] (d ∷ t) p q end_p (first, positive, h) = (
  diff (m p) (m q),
  strcmp_stop 0 m p q (ground (arith, end_p)),
  diff-is_zero (m p) (m q) ∙ ground (arith, end_p, first, positive),
)
strcmp-CString m (c ∷ s) [] p q (first, positive, h) end_q = (
  diff (m p) (m q),
  strcmp_stop (suc (length s)) m p q (ground (arith, first, positive, end_q)),
  diff-is_zero (m p) (m q) ∙ ground (arith, end_q, first, positive),
)
strcmp-CString m (c ∷ s) (d ∷ t) p q (first, positive, h) (first', positive', h') =
    elim (Bool-cases (c == d)) [
      | inl same ↦
          let (r, e, zero_iff) = strcmp-CString m s t (p + 1) (q + 1) h h' in
          let both : (not (m p == 0) && (m p == m q)) ≡ true =
            ground (arith, first, first', positive, same) in
          (r, strcmp_next (suc (length s)) m p q both ∙ e, rw same zero_iff)
      | inr other ↦
          let stop : (not (m p == 0) && (m p == m q)) ≡ false =
            ground (arith, first, first', positive, other) in
          (
            diff (m p) (m q),
            strcmp_stop (suc (length s)) m p q stop,
            rw other (diff-is_zero (m p) (m q) ∙ ground (arith, first, first', other)),
          )
    ]
