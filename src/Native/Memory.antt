-- ===== src/Native/Memory.antt =====
-- The host's accesses to the module's memory: range checks and little-endian words.
pub mod Words
pub mod Access
pub mod Blocks
use Prim.Native.String.{String}
use leanexe.Base.{
  ℕ, zero, suc, ◌+◌, ◌-◌, ◌*◌, ◌/◌, ◌%◌, ◌^◌, bit_or, Bool, ◌||◌, [], ◌∷◌, ltb, ◌==◌, if◌then◌else◌,
  Text,
}
use leanexe.Base.Run.{ok, ◌>>◌}
use leanexe.Native.Machine.{World, M, die}

-- `(size_t)lx_pages * 65536`.
abbrev pub memory_len : World → ℕ
memory_len w = w.store.pages * 65536

abbrev pub update : (ℕ → ℕ) → ℕ → ℕ → ℕ → ℕ
update f p v q = if p == q then v else f q

-- Whether `check_range` refuses.
unfoldable pub out_of_range : ℕ → ℕ → ℕ → Bool
out_of_range mlen ptr len = ltb mlen ptr || ltb (mlen - ptr) len

unfoldable pub check_range : ℕ → ℕ → String → M (Unit {0})
check_range ptr len message w =
    if out_of_range (memory_len w) ptr len then die message w else ok tt w

-- `for (i = 0; i < 8; i++) memory()[ptr + i] = (unsigned char)(value >> (i * 8))`; the first
-- argument counts the rounds left.
unfoldable pub put_word : ℕ → ℕ → ℕ → ℕ → (ℕ → ℕ) → ℕ → ℕ
put_word zero i ptr value m = m
put_word (suc n) i ptr value m =
    put_word n (i + 1) ptr value (update m (ptr + i) (value / 2 ^ (i * 8) % 256))

-- `for (i = 0; i < 8; i++) value |= (u64)memory()[ptr + i] << (i * 8)`.
unfoldable pub get_word : ℕ → ℕ → ℕ → ℕ → (ℕ → ℕ) → ℕ
get_word zero i ptr value m = value
get_word (suc n) i ptr value m = get_word n (i + 1) ptr (bit_or value (m (ptr + i) * 2 ^ (i * 8))) m

-- `memcpy(memory() + ptr, bytes, len)`.
unfoldable pub put_bytes : ℕ → Text → (ℕ → ℕ) → ℕ → ℕ
put_bytes ptr [] m = m
put_bytes ptr (b ∷ bs) m = put_bytes (ptr + 1) bs (update m ptr b)

abbrev pub set_memory : (ℕ → ℕ) → World → World
set_memory m w = record w { store = record (w.store) { memory = m } }

unfoldable pub write_u64_at : ℕ → ℕ → M (Unit {0})
write_u64_at ptr value = do
  check_range ptr 8 "u64 write is outside memory"
  λ w. ok tt (set_memory (put_word 8 0 ptr value w.store.memory) w)

unfoldable pub read_u64_at : ℕ → M ℕ
read_u64_at ptr = do
  check_range ptr 8 "u64 read is outside memory"
  λ w. ok (get_word 8 0 ptr 0 w.store.memory) w
