-- ===== src/Wasm/Alloc.antt =====
-- The placing of arguments in the linear memory by the module's `alloc` export, as in
-- tools/native-host.c. A tree's description is read on fuel: each level reads a token, so the text's
-- length and one more suffice.
use leanexe.Base.{
  ℕ, zero, suc, ◌+◌, ◌/◌, ◌%◌, true, false, none, some, List, [], ◌∷◌, ◌==◌, if◌then◌else◌, Text,
  text_eq, length, codes, add64, sub64, mul64,
}
use leanexe.Base.Run.{ok, out_of_fuel, pure, ◌>>=◌, ◌>>◌}
use leanexe.Native.Alloc.{record_header_valid, mask_bit}
use leanexe.Wasm.Machine.{Func, M}
use leanexe.Wasm.Outcome.{die}
use leanexe.Wasm.Parse.{read_file, parse_u64, read_token}
use leanexe.Wasm.Memory.{require_memory, check_range, copy_bytes, write_u64_at}
use leanexe.Wasm.Start.{call_i64_func, call_alloc}

unfoldable pub require_alloc : M Func
require_alloc w = elim w.alloc [
  | none ↦ die "ByteArray argument requires exported memory and alloc" w
  | some alloc ↦ ok alloc w
]

unfoldable pub alloc_bytes : Text → M ℕ
alloc_bytes bytes = do
  require_memory "ByteArray argument requires exported memory and alloc"
  alloc ← require_alloc
  ptr ← call_i64_func alloc (length bytes)
  check_range ptr (length bytes) "allocation is outside memory"
  copy_bytes ptr bytes
  pure ptr

-- The elements from index `i` on.
unfoldable pub write_items : ℕ → ℕ → List ℕ → M (Unit {0})
write_items ptr i [] = pure tt
write_items ptr i (x ∷ xs) = do
  write_u64_at (add64 (add64 ptr 8) (mul64 i 8)) x
  write_items ptr (i + 1) xs

unfoldable pub alloc_u64_array : List ℕ → M ℕ
alloc_u64_array values = do
  ptr ← call_alloc (add64 8 (mul64 (length values) 8))
  write_u64_at ptr (length values)
  write_items ptr 0 values
  pure ptr

-- The header words that the host sets in a record's cell: kind, width and mask.
unfoldable pub write_header : ℕ → ℕ → ℕ → M (Unit {0})
write_header cell width mask = do
  write_u64_at (sub64 cell 24) 1
  write_u64_at (sub64 cell 16) width
  write_u64_at (sub64 cell 8) mask

-- One round of the loop: a record of the element and the pointer to the rest.
unfoldable pub alloc_cell : ℕ → ℕ → M ℕ
alloc_cell value next = do
  cell ← call_alloc 16
  write_header cell 2 2
  write_u64_at cell value
  write_u64_at (add64 cell 8) next
  pure cell

-- The loop runs from the last element to the first.
unfoldable pub alloc_u64_chain : List ℕ → M ℕ
alloc_u64_chain [] = pure 0
alloc_u64_chain (x ∷ xs) = do next ← alloc_u64_chain xs; alloc_cell x next

unfoldable pub alloc_node : ℕ → ℕ → ℕ → M ℕ
alloc_node left key right = do
  cell ← call_alloc 24
  write_header cell 3 5
  write_u64_at cell left
  write_u64_at (add64 cell 8) key
  write_u64_at (add64 cell 16) right
  pure cell

-- The tree at the text's start and the text behind it.
unfoldable pub alloc_u64_tree : ℕ → Text → M (ℕ × Text)
alloc_u64_tree zero text = λ _. out_of_fuel
alloc_u64_tree (suc f) text = do
  (token, text) ← read_token 32 text
  elim (text_eq token (codes ".")) [
    | true ↦ pure (0, text)
    | false ↦ do
      key ← parse_u64 token
      (left, text) ← alloc_u64_tree f text
      (right, text) ← alloc_u64_tree f text
      cell ← alloc_node left key right
      pure (cell, text)
  ]

-- The slots from index `i` on; `tree` allocates a slot whose mask bit is set.
unfoldable pub alloc_slots : (Text → M (ℕ × Text)) → ℕ → ℕ → ℕ → Text → M (List ℕ × Text)
alloc_slots tree zero i mask text = pure ([], text)
alloc_slots tree (suc n) i mask text = do
  (slot, text) ← elim (mask_bit mask i) [
    | true ↦ tree text
    | false ↦ do (token, text) ← read_token 32 text; value ← parse_u64 token; pure (value, text)
  ]
  (slots, text) ← alloc_slots tree n (i + 1) mask text
  pure (slot ∷ slots, text)

unfoldable pub write_slots : ℕ → ℕ → List ℕ → M (Unit {0})
write_slots cell i [] = pure tt
write_slots cell i (x ∷ xs) = do
  write_u64_at (add64 cell (mul64 8 i)) x
  write_slots cell (i + 1) xs

unfoldable pub alloc_record : ℕ → ℕ → List ℕ → M ℕ
alloc_record width mask slots = do
  cell ← call_alloc (mul64 8 width)
  write_header cell width mask
  write_slots cell 0 slots
  pure cell

unfoldable pub alloc_records : ℕ → Text → M (ℕ × Text)
alloc_records zero text = λ _. out_of_fuel
alloc_records (suc f) text = do
  (token, text) ← read_token 32 text
  elim (text_eq token (codes ".")) [
    | true ↦ pure (0, text)
    | false ↦ do
      width ← parse_u64 token
      (token, text) ← read_token 32 text
      mask ← parse_u64 token
      elim (record_header_valid width mask) [
        | false ↦ die "bad record header in tree description"
        | true ↦ do
          (slots, text) ← alloc_slots (alloc_records f) width 0 mask text
          cell ← alloc_record width mask slots
          pure (cell, text)
      ]
  ]

unfoldable pub alloc_u64_file : Text → M ℕ
alloc_u64_file path = do
  bytes ← read_file path
  if length bytes % 8 == 0
      then (do
        ptr ← call_alloc (add64 8 (length bytes))
        write_u64_at ptr (length bytes / 8)
        check_range ptr (8 + length bytes) "allocation is outside memory"
        copy_bytes (ptr + 8) bytes
        pure ptr)
      else die "file-u64 file length is not a multiple of 8"
