-- ===== src/Wasm/Walk.antt =====
-- The walks of the Wasmtime host over list and tree results. Each result is walked twice: `out` is
-- false in the walk that checks and true in the walk that prints. The fuel is one more than the
-- rounds that the tests against the memory's size allow.
pub mod Prints
pub mod Complete
pub mod CompleteRecords
use Prim.Native.String.{String}
use leanexe.Base.{
  ℕ, zero, suc, ◌+◌, ◌/◌, Bool, true, false, ◌&&◌, not, ◌++◌, ltb, ◌==◌, if◌then◌else◌, Text, codes,
  add64, sub64, mul64,
}
use leanexe.Base.Decimal.{decimal}
use leanexe.Base.Run.{ok, out_of_fuel, pure, ◌>>=◌, ◌>>◌}
use leanexe.Native.Alloc.{record_header_valid, mask_bit}
use leanexe.Native.Show.{object_magic}
use leanexe.Wasm.Machine.{M, print}
use leanexe.Wasm.Outcome.{die}
use leanexe.Wasm.Memory.{read_u64_at}

-- `read_u64_at(ptr) != value`, or `die`.
unfoldable pub expect_word : ℕ → ℕ → String → M (Unit {0})
expect_word ptr value message = do
  word ← read_u64_at ptr
  if word == value then pure tt else die message

-- The tests that every record passes: the magic number, count 1 and kind 1.
unfoldable pub check_object : ℕ → String → M (Unit {0})
check_object ptr message = if ltb ptr 48 then die message else (do
  expect_word (sub64 ptr 48) object_magic message
  expect_word (sub64 ptr 40) 1 message
  expect_word (sub64 ptr 24) 1 message)

unfoldable pub check_record : ℕ → ℕ → ℕ → String → M (Unit {0})
check_record ptr width mask message = do
  check_object ptr message
  expect_word (sub64 ptr 16) width message
  expect_word (sub64 ptr 8) mask message

-- The output of a walk: none in the walk that checks, the control output in the walk that prints.
unfoldable pub emit : Bool → Text → M (Unit {0})
emit out t = if out then print t else pure tt

-- One record of the list: its tests and its element. The result is the pointer to the next.
unfoldable pub walk_cell : Bool → ℕ → ℕ → M ℕ
walk_cell out k ptr = do
  check_record ptr 2 2 "list result has a wrong record header"
  emit (out && not (k == 0)) (codes ", ")
  word ← read_u64_at ptr
  emit out (decimal word)
  read_u64_at (add64 ptr 8)

unfoldable pub chain_loop : Bool → ℕ → ℕ → ℕ → M (Unit {0})
chain_loop out zero k ptr w = out_of_fuel
chain_loop out (suc f) k ptr w = elim (ptr == 0) [
  | true ↦ ok tt w
  | false ↦ elim (ltb (w.store.size / 16) k) [
    | true ↦ die "list result does not end" w
    | false ↦ (do next ← walk_cell out k ptr; chain_loop out f (k + 1) next) w
  ]
]

unfoldable pub walk_u64_chain : Bool → ℕ → M (Unit {0})
walk_u64_chain out ptr = do
  emit out (codes "[")
  λ w. chain_loop out (w.store.size / 16 + 2) 0 ptr w
  emit out (codes "]\n")

unfoldable pub print_u64_chain : ℕ → M (Unit {0})
print_u64_chain ptr = do walk_u64_chain false ptr; walk_u64_chain true ptr

-- The result is the count of the records visited so far.
unfoldable pub walk_u64_tree : Bool → ℕ → ℕ → ℕ → M ℕ
walk_u64_tree out zero ptr count w = out_of_fuel
walk_u64_tree out (suc f) ptr count w = elim (ptr == 0) [
  | true ↦ (do emit out (codes "."); pure count) w
  | false ↦ elim (ltb (w.store.size / 72) (count + 1)) [
    | true ↦ die "tree result does not end" w
    | false ↦
        (do
          check_record ptr 3 5 "tree result has a wrong record header"
          key ← read_u64_at (add64 ptr 8)
          emit out (decimal key ++ codes ",")
          left ← read_u64_at ptr
          count ← walk_u64_tree out f left (count + 1)
          emit out (codes ",")
          right ← read_u64_at (add64 ptr 16)
          walk_u64_tree out f right count)
          w
  ]
]

unfoldable pub print_u64_tree : ℕ → M (Unit {0})
print_u64_tree ptr = do
  count ← λ w. walk_u64_tree false (w.store.size / 72 + 2) ptr 0 w
  count ← λ w. walk_u64_tree true (w.store.size / 72 + 2) ptr 0 w
  print (codes "\n")

-- The slots from index `i` on; `tree` prints a slot whose mask bit is set.
unfoldable pub walk_slots : Bool → (ℕ → ℕ → M ℕ) → ℕ → ℕ → ℕ → ℕ → ℕ → M ℕ
walk_slots out tree zero i mask ptr count = pure count
walk_slots out tree (suc n) i mask ptr count = do
  emit out (codes ",")
  slot ← read_u64_at (add64 ptr (mul64 8 i))
  count ← elim (mask_bit mask i) [
    | true ↦ tree slot count
    | false ↦ do emit out (decimal slot); pure count
  ]
  walk_slots out tree n (i + 1) mask ptr count

unfoldable pub walk_records : Bool → ℕ → ℕ → ℕ → M ℕ
walk_records out zero ptr count w = out_of_fuel
walk_records out (suc f) ptr count w = elim (ptr == 0) [
  | true ↦ (do emit out (codes "."); pure count) w
  | false ↦ elim (ltb (w.store.size / 56) (count + 1)) [
    | true ↦ die "tree result does not end" w
    | false ↦
        (do
          check_object ptr "tree result has a wrong record header"
          width ← read_u64_at (sub64 ptr 16)
          mask ← read_u64_at (sub64 ptr 8)
          elim (record_header_valid width mask) [
            | false ↦ die "tree result has a wrong record header"
            | true ↦ do
              emit out (decimal width ++ codes "," ++ decimal mask)
              walk_slots out (walk_records out f) width 0 mask ptr (count + 1)
          ])
          w
  ]
]

unfoldable pub print_records : ℕ → M (Unit {0})
print_records ptr = do
  count ← λ w. walk_records false (w.store.size / 56 + 2) ptr 0 w
  count ← λ w. walk_records true (w.store.size / 56 + 2) ptr 0 w
  print (codes "\n")
