-- ===== src/Baremetal/Tests.antt =====
-- The theorems about the bare-metal C library at concrete inputs.
use leanexe.Base.{
  ℕ, ◌+◌, ◌*◌, ◌%◌, ◌≤◌, ◌<◌, ◌⊎◌, ◌≡◌, refl, some, [], ◌∷◌, length, get_or, codes, arith, text_eq,
  true, u64_mod,
}
use leanexe.Base.Decimal.{decimal, digits_loop}
use leanexe.Base.Run.{ok, exited}
use leanexe.Baremetal.Uart.{World, malloc, arena_words}
use leanexe.Baremetal.Uart.Arena.{Sound, malloc-Sound}
use leanexe.Baremetal.Libc.{ℤ, strlen, strcmp, strtoull}
use leanexe.Baremetal.Libc.Strings.{is_zero, strlen-CString, strcmp-CString}
use leanexe.Baremetal.Libc.Numbers.{strtoull-decimal_memory}

-- The strings `key` at address 0 and `kex` at address 4, and `42` at address 8.
abbrev bytes : ℕ → ℕ
bytes q = get_or (b'k' ∷ b'e' ∷ b'y' ∷ 0 ∷ b'k' ∷ b'e' ∷ b'x' ∷ 0 ∷ b'4' ∷ b'2' ∷ 0 ∷ []) q 0

strlen-CString_example : strlen (length (codes "key") + 1) bytes 0 ≡ some (length (codes "key"))
strlen-CString_example =
    strlen-CString bytes 0 (codes "key")
      (refl, omega arith, (refl, omega arith, (refl, omega arith, refl)))

strcmp-CString_example :
    (r : ℤ) × (strcmp 4 bytes 0 4 ≡ some r) × (is_zero r ≡ text_eq (codes "key") (codes "kex"))
strcmp-CString_example =
    strcmp-CString bytes (codes "key") (codes "kex") 0 4
      (refl, omega arith, (refl, omega arith, (refl, omega arith, refl)))
      (refl, omega arith, (refl, omega arith, (refl, omega arith, refl)))

strtoull-decimal_memory_example :
    strtoull (length (decimal 42) + 1) bytes 8 ≡ some (42 % u64_mod, 8 + length (decimal 42))
unfolding decimal digits_loop
strtoull-decimal_memory_example =
    strtoull-decimal_memory bytes 8 42 (refl, omega arith, (refl, omega arith, refl))

abbrev some_used : World
some_used = record { out = []; bol = true; arena_used = 4; memory = bytes }

malloc-Sound_example :
    ((used : ℕ) × (malloc 20 some_used
        ≡ ok some_used.arena_used (record some_used { arena_used = used }))
      × (8 * some_used.arena_used % 16 ≡ 0)
      × (8 * some_used.arena_used + 20 ≤ 8 * used)
      × Sound (record some_used { arena_used = used }))
    ⊎ ((w' : World) × (malloc 20 some_used ≡ exited 1 w')
        × (8 * arena_words < 8 * some_used.arena_used + 20 + 16))
malloc-Sound_example =
    malloc-Sound 20 some_used (omega arith) (record { even = refl; bounded = omega arith })
