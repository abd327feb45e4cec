-- ===== src/Baremetal/Uart/Arena.antt =====
-- The blocks of `malloc` in tools/baremetal/libc/libc.c.
use leanexe.Base.{
  ℕ, ◌+◌, ◌-◌, ◌*◌, ◌%◌, ◌^◌, ◌≤◌, ◌<◌, ◌≡◌, Bool-cases, inl, inr, ltb, arith, ◌⊎◌, codes,
}
use leanexe.Base.Run.{ok, exited}
use leanexe.Baremetal.Uart.{World, Stream, put_str, block_words, arena_words, malloc}

-- The arena is used in whole blocks of 16 bytes, and no further than its end.
pub record Sound (w : World) : Type 0 where
  pub even : w.arena_used % 2 ≡ 0
  pub bounded : w.arena_used ≤ arena_words

-- Enough words for `n` bytes and an even number of them.
block_words_lem :
    (n : ℕ)
    → n < 2 ^ 64 - 15
    → (n ≤ 8 * block_words n) × (block_words n % 2 ≡ 0) × (8 * block_words n < n + 16)
unfolding block_words
block_words_lem n small = (omega arith, omega arith, omega arith)

-- For a request of fewer than 2^64 - 15 bytes, `malloc` gives a block of at least that size that
-- starts at a multiple of 16 bytes in the arena, behind every earlier block and inside the arena,
-- and keeps the arena in order, the rest of the state unchanged; or it ends the process with status
-- 1, which happens only when fewer than `n + 16` bytes are left.
pub malloc-Sound :
    (n : ℕ) (w : World)
    → n < 2 ^ 64 - 15
    → Sound w
    → ((used : ℕ) × (malloc n w ≡ ok w.arena_used (record w { arena_used = used }))
        × (8 * w.arena_used % 16 ≡ 0)
        × (8 * w.arena_used + n ≤ 8 * used)
        × Sound (record w { arena_used = used }))
      ⊎ ((w' : World) × (malloc n w ≡ exited 1 w') × (8 * arena_words < 8 * w.arena_used + n + 16))
unfolding malloc
malloc-Sound n w small sound =
    let (room, even, tight) = block_words_lem n small in
    elim (Bool-cases (ltb arena_words (w.arena_used + block_words n))) [
      | inl full ↦ inr (
        put_str Stream.stderr (codes "out of memory\n") w,
        simp full,
        ground (arith, full, tight),
      )
      | inr fits ↦ inl (
        w.arena_used + block_words n,
        simp fits,
        omega (arith, sound.even),
        omega (arith, room),
        record { even = omega (arith, sound.even, even); bounded = ground (arith, fits) },
      )
    ]
