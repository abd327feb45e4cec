-- ===== src/Wasm/Memory.antt =====
-- The Wasmtime host's accesses to the linear memory.
use Prim.Native.String.{String}
use leanexe.Base.{ℕ, if◌then◌else◌, Text, length}
use leanexe.Base.Run.{ok, ◌>>◌}
use leanexe.Native.Memory.{out_of_range, put_word, get_word, put_bytes}
use leanexe.Wasm.Machine.{World, M}
use leanexe.Wasm.Outcome.{die}

-- `ptr > memory_len || len > memory_len - (size_t)ptr`, or `die`.
unfoldable pub check_range : ℕ → ℕ → String → M (Unit {0})
check_range ptr len message w = if out_of_range w.store.size ptr len then die message w else ok tt w

unfoldable pub require_memory : String → M (Unit {0})
require_memory message w = if w.has_memory then ok tt w else die message w

abbrev pub set_memory : (ℕ → ℕ) → World → World
set_memory m w = record w { store = record (w.store) { memory = m } }

unfoldable pub write_u64_at : ℕ → ℕ → M (Unit {0})
write_u64_at ptr value = do
  require_memory "missing memory export"
  check_range ptr 8 "u64 write is outside memory"
  λ w. ok tt (set_memory (put_word 8 0 ptr value w.store.memory) w)

unfoldable pub read_u64_at : ℕ → M ℕ
read_u64_at ptr = do
  require_memory "missing memory export"
  check_range ptr 8 "u64 read is outside memory"
  λ w. ok (get_word 8 0 ptr 0 w.store.memory) w

-- `memcpy` into the memory.
unfoldable pub copy_bytes : ℕ → Text → M (Unit {0})
copy_bytes ptr bytes w = ok tt (set_memory (put_bytes ptr bytes w.store.memory) w)

unfoldable pub write_bytes_at : ℕ → Text → M (Unit {0})
write_bytes_at ptr bytes = do
  require_memory "missing memory export"
  check_range ptr (length bytes) "byte write is outside memory"
  copy_bytes ptr bytes
