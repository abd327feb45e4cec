-- ===== src/Native/Memory/Access.antt =====
-- `check_range`, `write_u64_at` and `read_u64_at` on every branch.
use Prim.Native.String.{String}
use leanexe.Base.{ℕ, ◌+◌, ◌^◌, ◌≤◌, ◌<◌, ◌≡◌, ◌↔◌, ◌⊎◌, true, false, arith, ◌++◌, [], ◌∷◌}
use leanexe.Base.Run.{Run, ok, exited, ◌>>◌}
use leanexe.Native.Machine.{Report, World, die, fail}
use leanexe.Native.Memory.{
  memory_len, out_of_range, check_range, put_word, get_word, set_memory, write_u64_at, read_u64_at,
}
use leanexe.Native.Memory.Words.{put_word-outside, get_word-put_word, get_word-same}

-- The word at address `p`.
abbrev pub word_at : (ℕ → ℕ) → ℕ → ℕ
word_at m p = get_word 8 0 p 0 m

-- The world after a word is stored.
abbrev pub stored : ℕ → ℕ → World → World
stored p v w = set_memory (put_word 8 0 p v w.store.memory) w

pub out_of_range_iff : (mlen p len : ℕ) → (out_of_range mlen p len ≡ false) ↔ (p + len ≤ mlen)
unfolding out_of_range
out_of_range_iff mlen p len = ground arith

pub check_range-ok :
    (p len : ℕ) (message : String) (w : World)
    → p + len ≤ memory_len w
    → check_range p len message w ≡ ok tt w
unfolding check_range
check_range-ok p len message w h = rw ((out_of_range_iff (memory_len w) p len).1 h)

pub read-ok :
    (p : ℕ) (w : World) → p + 8 ≤ memory_len w → read_u64_at p w ≡ ok (word_at w.store.memory p) w
read-ok p w h = unfold read_u64_at in rw (check_range-ok p 8 _ w h)

pub write-ok :
    (p v : ℕ) (w : World) → p + 8 ≤ memory_len w → write_u64_at p v w ≡ ok tt (stored p v w)
write-ok p v w h = unfold write_u64_at in rw (check_range-ok p 8 _ w h)

pub word_at-put_word :
    (p v q : ℕ) (m : ℕ → ℕ)
    → (p + 8 ≤ q) ⊎ (q + 8 ≤ p)
    → word_at (put_word 8 0 p v m) q ≡ word_at m q
word_at-put_word p v q m apart =
    get_word-same 8 0 q 0 (put_word 8 0 p v m) m
      λ k lo hi. put_word-outside 8 0 p v m (q + k) (omega arith)

-- The end of the process with status 1 and one line on standard error, all else unchanged.
abbrev pub Dies : {A : Type 0} → String → World → Run World A → Type 0
Dies message w r = r ≡ exited 1 (record w { reports = w.reports ++ Report.line message ∷ [] })

module _ (p : ℕ) (w : World) where
  -- A word written inside memory is read back from its address: for every 64-bit value and every
  -- address whose eight bytes lie in memory, the write succeeds, and the read after it gives the
  -- value and leaves the world as the write left it.
  pub read-write :
      (v : ℕ)
      → v < 2 ^ 64
      → p + 8 ≤ memory_len w
      → (do write_u64_at p v; read_u64_at p) w ≡ ok v (stored p v w)
  read-write v small h =
      rw (write-ok p v w h, read-ok p (stored p v w) h, get_word-put_word p v w.store.memory small)

  -- A word that does not overlap the one written reads as before: where both lie in memory and
  -- their bytes are disjoint, a read of `q` after a write at `p` gives what stood at `q`.
  pub read-write_apart :
      (v q : ℕ)
      → p + 8 ≤ memory_len w
      → q + 8 ≤ memory_len w
      → (p + 8 ≤ q) ⊎ (q + 8 ≤ p)
      → (do write_u64_at p v; read_u64_at q) w ≡ ok (word_at w.store.memory q) (stored p v w)
  read-write_apart v q h k apart =
      rw (write-ok p v w h, read-ok q (stored p v w) k, word_at-put_word p v q _ apart)

  -- An access whose eight bytes do not all lie in memory ends the process with status 1 and its
  -- message, and changes nothing else, for a write of any value and for a read.
  pub access_refused :
      (v : ℕ)
      → memory_len w < p + 8
      → Dies "u64 write is outside memory" w (write_u64_at p v w)
        × Dies "u64 read is outside memory" w (read_u64_at p w)
  unfolding write_u64_at read_u64_at check_range die fail
  access_refused v h =
      let refused : out_of_range (memory_len w) p 8 ≡ true =
        ground (arith, out_of_range_iff (memory_len w) p 8) in
      (rw refused, rw refused)
