-- ===== src/Native/Alloc.antt =====
-- The placing of arguments in the module's memory by its `alloc` export: byte strings, arrays, and
-- the records of lists and trees. A tree's description is read on fuel, one round for each byte of
-- text: each level of the recursion reads a token, so the text's length and one more suffice.
pub mod Ends
use leanexe.Base.{
  ℕ, zero, suc, ◌+◌, ◌/◌, ◌%◌, ◌^◌, Bool, true, false, ◌&&◌, ◌||◌, none, some, List, [], ◌∷◌, leb,
  ◌==◌, if◌then◌else◌, Text, text_eq, length, get_or, codes, add64, sub64, mul64,
}
use leanexe.Base.Run.{ok, out_of_fuel, pure, ◌>>=◌, ◌>>◌}
use leanexe.Native.Machine.{Module, M, die, find_export, host_invoke}
use leanexe.Native.Memory.{check_range, put_bytes, set_memory, write_u64_at}
use leanexe.Native.Parse.{read_file, host_parse_u64, read_token}

unfoldable pub call_alloc : Module → ℕ → M ℕ
call_alloc m len = elim (find_export m (codes "alloc")) [
  | none ↦ die "missing alloc export"
  | some alloc ↦ do results ← host_invoke alloc (len ∷ []); pure (get_or results 0 0)
]

-- `memcpy` into the module's memory.
unfoldable pub copy_bytes : ℕ → Text → M (Unit {0})
copy_bytes ptr bytes w = ok tt (set_memory (put_bytes ptr bytes w.store.memory) w)

unfoldable pub alloc_bytes : Module → Text → M ℕ
alloc_bytes m bytes = do
  ptr ← call_alloc m (length bytes)
  check_range ptr (length bytes) "allocation is outside memory"
  copy_bytes ptr bytes
  pure ptr

-- The elements from index `i` on.
unfoldable pub write_items : ℕ → ℕ → List ℕ → M (Unit {0})
write_items ptr i [] = pure tt
write_items ptr i (x ∷ xs) = do
  write_u64_at (add64 (add64 ptr 8) (mul64 i 8)) x
  write_items ptr (i + 1) xs

unfoldable pub alloc_u64_array : Module → List ℕ → M ℕ
alloc_u64_array m values = do
  ptr ← call_alloc m (add64 8 (mul64 (length values) 8))
  write_u64_at ptr (length values)
  write_items ptr 0 values
  pure ptr

-- The header words that the host sets in a record's cell: kind, width and mask.
unfoldable pub write_header : ℕ → ℕ → ℕ → M (Unit {0})
write_header cell width mask = do
  write_u64_at (sub64 cell 24) 1
  write_u64_at (sub64 cell 16) width
  write_u64_at (sub64 cell 8) mask

-- One round of the loop: a record of the element and the pointer to the rest.
unfoldable pub alloc_cell : Module → ℕ → ℕ → M ℕ
alloc_cell m value next = do
  cell ← call_alloc m 16
  write_header cell 2 2
  write_u64_at cell value
  write_u64_at (add64 cell 8) next
  pure cell

-- The loop runs from the last element to the first.
unfoldable pub alloc_u64_chain : Module → List ℕ → M ℕ
alloc_u64_chain m [] = pure 0
alloc_u64_chain m (x ∷ xs) = do next ← alloc_u64_chain m xs; alloc_cell m x next

unfoldable pub alloc_node : Module → ℕ → ℕ → ℕ → M ℕ
alloc_node m left key right = do
  cell ← call_alloc m 24
  write_header cell 3 5
  write_u64_at cell left
  write_u64_at (add64 cell 8) key
  write_u64_at (add64 cell 16) right
  pure cell

-- The tree at the text's start and the text behind it.
unfoldable pub alloc_u64_tree : Module → ℕ → Text → M (ℕ × Text)
alloc_u64_tree m zero text = λ _. out_of_fuel
alloc_u64_tree m (suc f) text = do
  (token, text) ← read_token 32 text
  elim (text_eq token (codes ".")) [
    | true ↦ pure (0, text)
    | false ↦ do
      key ← host_parse_u64 token
      (left, text) ← alloc_u64_tree m f text
      (right, text) ← alloc_u64_tree m f text
      cell ← alloc_node m left key right
      pure (cell, text)
  ]

unfoldable pub mask_fits : ℕ → ℕ → Bool
mask_fits width mask = width == 64 || mask / 2 ^ width == 0

unfoldable pub record_header_valid : ℕ → ℕ → Bool
record_header_valid width mask = leb 1 width && (leb width 64 && mask_fits width mask)

-- `(mask >> i) & 1`.
unfoldable pub mask_bit : ℕ → ℕ → Bool
mask_bit mask i = mask / 2 ^ i % 2 == 1

-- The slots from index `i` on; `tree` allocates a slot whose mask bit is set.
unfoldable pub alloc_slots : (Text → M (ℕ × Text)) → ℕ → ℕ → ℕ → Text → M (List ℕ × Text)
alloc_slots tree zero i mask text = pure ([], text)
alloc_slots tree (suc n) i mask text = do
  (slot, text) ← elim (mask_bit mask i) [
    | true ↦ tree text
    | false ↦ do
      (token, text) ← read_token 32 text
      value ← host_parse_u64 token
      pure (value, text)
  ]
  (slots, text) ← alloc_slots tree n (i + 1) mask text
  pure (slot ∷ slots, text)

unfoldable pub write_slots : ℕ → ℕ → List ℕ → M (Unit {0})
write_slots cell i [] = pure tt
write_slots cell i (x ∷ xs) = do
  write_u64_at (add64 cell (mul64 8 i)) x
  write_slots cell (i + 1) xs

unfoldable pub alloc_record : Module → ℕ → ℕ → List ℕ → M ℕ
alloc_record m width mask slots = do
  cell ← call_alloc m (mul64 8 width)
  write_header cell width mask
  write_slots cell 0 slots
  pure cell

unfoldable pub alloc_records : Module → ℕ → Text → M (ℕ × Text)
alloc_records m zero text = λ _. out_of_fuel
alloc_records m (suc f) text = do
  (token, text) ← read_token 32 text
  elim (text_eq token (codes ".")) [
    | true ↦ pure (0, text)
    | false ↦ do
      width ← host_parse_u64 token
      (token, text) ← read_token 32 text
      mask ← host_parse_u64 token
      elim (record_header_valid width mask) [
        | false ↦ die "bad record header in tree description"
        | true ↦ do
          (slots, text) ← alloc_slots (alloc_records m f) width 0 mask text
          cell ← alloc_record m width mask slots
          pure (cell, text)
      ]
  ]

unfoldable pub alloc_u64_file : Module → Text → M ℕ
alloc_u64_file m path = do
  bytes ← read_file path
  if length bytes % 8 == 0
      then (do
        ptr ← call_alloc m (add64 8 (length bytes))
        write_u64_at ptr (length bytes / 8)
        check_range (add64 ptr 8) (length bytes) "allocation is outside memory"
        copy_bytes (add64 ptr 8) bytes
        pure ptr)
      else die "file-u64 file length is not a multiple of 8"
