-- ===== src/Baremetal/Uart.antt =====
-- The output of tools/baremetal/libc/libc.c: the streams over the UART, and the arena of `malloc`.
pub mod Arena
use Prim.Native.String.{String}
use leanexe.Base.{
  ℕ, ◌+◌, ◌*◌, ◌/◌, ◌%◌, Bool, true, false, ◌&&◌, List, [], ◌∷◌, ◌++◌, ltb, ◌==◌, if◌then◌else◌,
  Text, codes, add64, mul64,
}
use leanexe.Base.Decimal.{decimal}
use leanexe.Base.Run.{ok, exited, Cmd, ◌>>=◌}

pub data Stream : Type 0 where
  stdout stderr : Stream

-- The bytes written to `lx_out`, whether standard error is at the start of a line, the words of the
-- arena in use, and the host's memory. Nothing depends on the line start of standard output.
pub record World : Type 0 where
  pub out : Text
  pub bol : Bool
  pub arena_used : ℕ
  pub memory : ℕ → ℕ

unfoldable pub put : Stream → ℕ → World → World
put Stream.stdout c w = record w { out = w.out ++ c ∷ [] }
put Stream.stderr c w = record w {
  out = w.out ++ ((if w.bol then codes "E:" else []) ++ c ∷ []);
  bol = c == b'\n';
}

unfoldable pub put_str : Stream → Text → World → World
put_str f [] w = w
put_str f (c ∷ s) w = put_str f s (put f c w)

-- The digits are put into `buf` from the last one on and written from the first one on.
unfoldable pub put_dec : Stream → ℕ → World → World
put_dec f v w = put_str f (decimal v) w

abbrev pub arena_words : ℕ
arena_words = 2097152

-- `(n + 15) / 8 & ~1`, with the sum modulo 2^64.
unfoldable pub block_words : ℕ → ℕ
block_words n = add64 n 15 / 8 / 2 * 2

-- The result is the index of the block's first word in the arena.
unfoldable pub malloc : ℕ → Cmd World ℕ
malloc n w =
    if ltb arena_words (w.arena_used + block_words n)
    then exited 1 (put_str Stream.stderr (codes "out of memory\n") w)
    else ok w.arena_used (record w { arena_used = w.arena_used + block_words n })

-- `arena` is the address of the arena's first word.
unfoldable pub clear : ℕ → ℕ → (ℕ → ℕ) → ℕ → ℕ
clear p n m q = if ltb q p then m q else if ltb q (p + n) then 0 else m q

unfoldable pub calloc : ℕ → ℕ → ℕ → Cmd World ℕ
calloc arena n size = do
  block ← malloc (mul64 n size)
  λ w. ok block (record w { memory = clear (arena + 8 * block) (mul64 n size) w.memory })
