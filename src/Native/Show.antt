-- ===== src/Native/Show.antt =====
-- The printing of results: words, arrays, byte strings, and the records of lists and trees. The walk
-- of a list makes a round for each `k` up to `memory_len() / 16`, and the walks of trees count the
-- records that they visit, so their fuel is one more than the rounds that these tests allow.
pub mod Ends
use Prim.Native.String.{String}
use leanexe.Base.{
  ℕ, zero, suc, ◌+◌, ◌-◌, ◌*◌, ◌/◌, Bool, true, false, ◌&&◌, not, none, some, [], ◌∷◌, ◌++◌, ltb,
  ◌==◌, if◌then◌else◌, Text, codes, add64, sub64, mul64, u64_mod,
}
use leanexe.Base.Decimal.{decimal, hex_byte}
use leanexe.Base.Run.{ok, out_of_fuel, pure, ◌>>=◌, ◌>>◌}
use leanexe.Native.Machine.{Sink, Report, M, die, fail, print}
use leanexe.Native.Memory.{memory_len, check_range, read_u64_at}
use leanexe.Native.Alloc.{record_header_valid, mask_bit}

abbrev pub object_magic : ℕ
object_magic = 5501223100278326855

-- `read_u64_at(ptr) != value`, or `die`.
unfoldable pub expect_word : ℕ → ℕ → String → M (Unit {0})
expect_word ptr value message = do
  word ← read_u64_at ptr
  if word == value then pure tt else die message

-- The tests that every record passes: the magic number, count 1 and kind 1.
unfoldable pub check_object : ℕ → String → M (Unit {0})
check_object ptr message = if ltb ptr 48 then die message else (do
  expect_word (sub64 ptr 48) object_magic message
  expect_word (sub64 ptr 40) 1 message
  expect_word (sub64 ptr 24) 1 message)

unfoldable pub check_record : ℕ → ℕ → ℕ → String → M (Unit {0})
check_record ptr width mask message = do
  check_object ptr message
  expect_word (sub64 ptr 16) width message
  expect_word (sub64 ptr 8) mask message

unfoldable pub print_if : Bool → Text → M (Unit {0})
print_if b t = if b then print t else pure tt

-- One record of the list: its tests and its element. The result is the pointer to the next.
unfoldable pub print_cell : ℕ → ℕ → M ℕ
print_cell k ptr = do
  check_record ptr 2 2 "list result has a wrong record header"
  print_if (not (k == 0)) (codes ", ")
  word ← read_u64_at ptr
  print (decimal word)
  read_u64_at (add64 ptr 8)

unfoldable pub chain_loop : ℕ → ℕ → ℕ → M (Unit {0})
chain_loop zero k ptr w = out_of_fuel
chain_loop (suc f) k ptr w = elim (ptr == 0) [
  | true ↦ ok tt w
  | false ↦ elim (ltb (memory_len w / 16) k) [
    | true ↦ die "list result does not end" w
    | false ↦ (do next ← print_cell k ptr; chain_loop f (k + 1) next) w
  ]
]

unfoldable pub print_u64_chain : ℕ → M (Unit {0})
print_u64_chain ptr = do
  print (codes "[")
  λ w. chain_loop (memory_len w / 16 + 2) 0 ptr w
  print (codes "]\n")

-- The result is the count of the records visited so far.
unfoldable pub print_u64_tree_at : ℕ → ℕ → ℕ → M ℕ
print_u64_tree_at zero ptr count w = out_of_fuel
print_u64_tree_at (suc f) ptr count w = elim (ptr == 0) [
  | true ↦ (do print (codes "."); pure count) w
  | false ↦ elim (ltb (memory_len w / 72) (count + 1)) [
    | true ↦ die "tree result does not end" w
    | false ↦
        (do
          check_record ptr 3 5 "tree result has a wrong record header"
          key ← read_u64_at (add64 ptr 8)
          print (decimal key ++ codes ",")
          left ← read_u64_at ptr
          count ← print_u64_tree_at f left (count + 1)
          print (codes ",")
          right ← read_u64_at (add64 ptr 16)
          print_u64_tree_at f right count)
          w
  ]
]

unfoldable pub print_u64_tree : ℕ → M (Unit {0})
print_u64_tree ptr = do
  count ← λ w. print_u64_tree_at (memory_len w / 72 + 2) ptr 0 w
  print (codes "\n")

-- The slots from index `i` on; `tree` prints a slot whose mask bit is set.
unfoldable pub print_slots : (ℕ → ℕ → M ℕ) → ℕ → ℕ → ℕ → ℕ → ℕ → M ℕ
print_slots tree zero i mask ptr count = pure count
print_slots tree (suc n) i mask ptr count = do
  slot ← read_u64_at (add64 ptr (mul64 8 i))
  print (codes ",")
  count ← elim (mask_bit mask i) [
    | true ↦ tree slot count
    | false ↦ do print (decimal slot); pure count
  ]
  print_slots tree n (i + 1) mask ptr count

unfoldable pub print_records_at : ℕ → ℕ → ℕ → M ℕ
print_records_at zero ptr count w = out_of_fuel
print_records_at (suc f) ptr count w = elim (ptr == 0) [
  | true ↦ (do print (codes "."); pure count) w
  | false ↦ elim (ltb (memory_len w / 56) (count + 1)) [
    | true ↦ die "tree result does not end" w
    | false ↦
        (do
          check_object ptr "tree result has a wrong record header"
          width ← read_u64_at (sub64 ptr 16)
          mask ← read_u64_at (sub64 ptr 8)
          elim (record_header_valid width mask) [
            | false ↦ die "tree result has a wrong record header"
            | true ↦ do
              print (decimal width ++ codes "," ++ decimal mask)
              print_slots (print_records_at f) width 0 mask ptr (count + 1)
          ])
          w
  ]
]

unfoldable pub print_records : ℕ → M (Unit {0})
print_records ptr = do
  count ← λ w. print_records_at (memory_len w / 56 + 2) ptr 0 w
  print (codes "\n")

-- The elements from index `i` on; the first argument counts the rounds left.
unfoldable pub print_items : ℕ → ℕ → ℕ → M (Unit {0})
print_items zero i ptr = pure tt
print_items (suc n) i ptr = do
  print_if (not (i == 0)) (codes ", ")
  word ← read_u64_at (add64 (add64 ptr 8) (mul64 i 8))
  print (decimal word)
  print_items n (i + 1) ptr

-- The length of the array at `ptr`, once its elements are known to lie in memory.
unfoldable pub array_len : ℕ → M ℕ
array_len ptr = do
  len ← read_u64_at ptr
  if ltb ((u64_mod - 1 - 8) / 8) len then die "Array UInt64 result length is too large" else (do
    check_range ptr (add64 8 (mul64 len 8)) "Array UInt64 result is outside memory"
    pure len)

unfoldable pub print_u64_array : ℕ → M (Unit {0})
print_u64_array ptr = do
  len ← array_len ptr
  print (codes "[")
  print_items len 0 ptr
  print (codes "]\n")

-- `n` bytes of memory from address `p` on.
unfoldable pub bytes_at : ℕ → (ℕ → ℕ) → ℕ → Text
bytes_at zero m p = []
bytes_at (suc n) m p = m p ∷ bytes_at n m (p + 1)

unfoldable pub write_sink : Text → ℕ → Text → Sink → M (Unit {0})
write_sink path len bytes sink w =
    if not (len == 0) && ltb sink.takes len
    then fail 1 (Report.perror (codes "fwrite")) w
    else if sink.closes
    then ok tt (record w { written = w.written ++ (path, bytes) ∷ [] })
    else fail 1 (Report.perror (codes "fclose")) w

-- The elements of the array as little-endian words in the file at `path`.
unfoldable pub save_u64_array : ℕ → Text → M (Unit {0})
save_u64_array ptr path = do
  len ← array_len ptr
  λ w. elim (w.sinks path) [
    | none ↦ fail 1 (Report.perror path) w
    | some sink ↦ write_sink path len (bytes_at (len * 8) w.store.memory (ptr + 8)) sink w
  ]

unfoldable pub hex_text : Text → Text
hex_text [] = []
hex_text (b ∷ bs) = hex_byte b ++ hex_text bs

unfoldable pub print_bytes : ℕ → ℕ → M (Unit {0})
print_bytes ptr len = do
  check_range ptr len "ByteArray result is outside memory"
  λ w. print (hex_text (bytes_at len w.store.memory ptr)) w
  print (codes "\n")
