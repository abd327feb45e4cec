-- ===== src/Wasm/Show.antt =====
-- The printing of byte strings and arrays by the Wasmtime host.
use Prim.Native.String.{String}
use leanexe.Base.{
  ℕ, zero, suc, ◌+◌, ◌-◌, ◌*◌, ◌/◌, ◌&&◌, not, none, some, [], ◌∷◌, ◌++◌, ltb, ◌==◌, if◌then◌else◌,
  Text, codes, add64, mul64, u64_mod,
}
use leanexe.Base.Decimal.{decimal}
use leanexe.Base.Run.{ok, pure, ◌>>=◌, ◌>>◌}
use leanexe.Native.Machine.{Sink}
use leanexe.Native.Show.{bytes_at, hex_text}
use leanexe.Wasm.Machine.{M, Report, print}
use leanexe.Wasm.Outcome.{die, fail}
use leanexe.Wasm.Memory.{require_memory, check_range, read_u64_at}
use leanexe.Wasm.Walk.{emit}

unfoldable pub print_bytes : ℕ → ℕ → M (Unit {0})
print_bytes ptr len = do
  require_memory "ByteArray result requires exported memory"
  check_range ptr len "ByteArray result is outside memory"
  λ w. print (hex_text (bytes_at len w.store.memory ptr)) w
  print (codes "\n")

-- The length of the array at `ptr`, once its elements are known to lie in memory; `too_large` is the
-- message for a length that overflows.
unfoldable pub array_len : String → ℕ → M ℕ
array_len too_large ptr = do
  require_memory "Array UInt64 result requires exported memory"
  len ← read_u64_at ptr
  if ltb ((u64_mod - 1 - 8) / 8) len
      then die too_large
      else (do check_range ptr (8 + len * 8) "Array UInt64 result is outside memory"; pure len)

-- The elements from index `i` on; the first argument counts the rounds left.
unfoldable pub print_items : ℕ → ℕ → ℕ → M (Unit {0})
print_items zero i ptr = pure tt
print_items (suc n) i ptr = do
  emit (not (i == 0)) (codes ", ")
  word ← read_u64_at (add64 (add64 ptr 8) (mul64 i 8))
  print (decimal word)
  print_items n (i + 1) ptr

unfoldable pub print_u64_array : String → ℕ → M (Unit {0})
print_u64_array too_large ptr = do
  len ← array_len too_large ptr
  print (codes "[")
  print_items len 0 ptr
  print (codes "]\n")

unfoldable pub write_sink : Text → ℕ → Text → Sink → M (Unit {0})
write_sink path len bytes sink w =
    if not (len == 0) && ltb sink.takes len
    then fail (Report.perror (codes "fwrite")) w
    else if sink.closes
    then ok tt (record w { written = w.written ++ (path, bytes) ∷ [] })
    else fail (Report.perror (codes "fclose")) w

unfoldable pub save_bytes : Text → ℕ → ℕ → M (Unit {0})
save_bytes path len ptr w = elim (w.sinks path) [
  | none ↦ fail (Report.perror path) w
  | some sink ↦ write_sink path len (bytes_at (len * 8) w.store.memory (ptr + 8)) sink w
]

-- The elements of the array as little-endian words in the file at `path`, and their number.
unfoldable pub save_u64_array : ℕ → Text → M ℕ
save_u64_array ptr path = do
  len ← array_len "Array UInt64 result is outside memory" ptr
  save_bytes path len ptr
  pure len
