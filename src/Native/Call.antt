-- ===== src/Native/Call.antt =====
-- The host's commands: argument specs, result kinds, the call of an export, and `main`.
pub mod Bounds
use leanexe.Base.{
  ℕ, zero, suc, ◌+◌, true, false, ◌&&◌, ◌||◌, not, Option, none, some, List, [], ◌∷◌, ◌++◌, ltb,
  ◌==◌, if◌then◌else◌, Text, text_eq, starts_with, length, get_elem?, get_or, drop, codes,
}
use leanexe.Base.Decimal.{decimal}
use leanexe.Base.Run.{ok, pure, ◌>>=◌, ◌>>◌}
use leanexe.Native.Machine.{
  Export, GlobalExport, Module, Report, M, fail, die, print, find_export, host_get_export,
  host_invoke,
}
use leanexe.Native.Parse.{
  parse_hex, read_file, host_parse_u64, comma_items, parse_u64_list, is_empty,
}
use leanexe.Native.Alloc.{
  alloc_bytes, alloc_u64_array, alloc_u64_chain, alloc_u64_tree, alloc_records, alloc_u64_file,
}
use leanexe.Native.Show.{
  print_u64_chain, print_u64_tree, print_records, print_u64_array, print_bytes, print_if,
  save_u64_array,
}

-- A tree's description must end where the tree ends.
unfoldable pub whole_tree : ℕ × Text → M (List ℕ)
whole_tree (ptr, rest) = if is_empty rest then pure (ptr ∷ []) else die "bad tree description"

unfoldable pub bytes_arg : Module → Text → M (List ℕ)
bytes_arg m bytes = do ptr ← alloc_bytes m bytes; pure (ptr ∷ length bytes ∷ [])

unfoldable pub f32_arg : ℕ → M (List ℕ)
f32_arg bits = if ltb 0xFFFFFFFF bits then die "f32 bits exceed 32 bits" else pure (bits ∷ [])

-- The words of the argument `spec`; none for an unknown spec.
unfoldable pub parse_arg : Module → Text → M (List ℕ)
parse_arg m spec =
    if starts_with spec (codes "i64:") || starts_with spec (codes "f64:")
    then (do value ← host_parse_u64 (drop 4 spec); pure (value ∷ []))
    else if starts_with spec (codes "f32:")
    then (do bits ← host_parse_u64 (drop 4 spec); f32_arg bits)
    else if starts_with spec (codes "bytes:")
    then (do bytes ← parse_hex (drop 6 spec); bytes_arg m bytes)
    else if starts_with spec (codes "bytes-file:")
    then (do bytes ← read_file (drop 11 spec); bytes_arg m bytes)
    else if starts_with spec (codes "file-u64:")
    then (do ptr ← alloc_u64_file m (drop 9 spec); pure (ptr ∷ []))
    else if starts_with spec (codes "array-u64:")
    then (do
      values ← parse_u64_list (drop 10 spec)
      ptr ← alloc_u64_array m values
      pure (ptr ∷ []))
    else if starts_with spec (codes "tree-u64:")
    then (do result ← alloc_u64_tree m (length spec + 1) (drop 9 spec); whole_tree result)
    else if starts_with spec (codes "records-u64:")
    then (do result ← alloc_records m (length spec + 1) (drop 12 spec); whole_tree result)
    else if starts_with spec (codes "chain-u64:")
    then (do
      values ← parse_u64_list (drop 10 spec)
      ptr ← alloc_u64_chain m values
      pure (ptr ∷ []))
    else pure []

-- The kind of result `index` of a kind `list:K1,K2,...`; `room` is the size of the buffer that the
-- name and its zero byte are copied to.
unfoldable pub list_result_kind : Text → ℕ → ℕ → M Text
list_result_kind kind index room = elim (get_elem? (comma_items (drop 5 kind)) index) [
  | none ↦ die "result list is too short"
  | some item ↦ if ltb room (length item + 1) then die "result kind is too long" else pure item
]

-- A `bytes` item is two results, the address and the length.
abbrev pub item_width : Text → ℕ
item_width item = if text_eq item (codes "bytes") then 2 else 1

unfoldable pub count_items : Text → ℕ → ℕ → ℕ → M ℕ
count_items kind zero i count = pure count
count_items kind (suc n) i count = do
  item ← list_result_kind kind i 32
  count_items kind n (i + 1) (count + item_width item)

unfoldable pub list_count : Text → M ℕ
list_count kind =
    let items = length (comma_items (drop 5 kind)) in
    if ltb 128 items then die "too many results" else (do
      count ← count_items kind items 0 0
      if ltb 128 count then die "too many results" else pure count)

unfoldable pub slots_count : Text → M ℕ
slots_count text = do
  count ← host_parse_u64 text
  if ltb 128 count then die "too many result slots" else pure count

unfoldable pub result_count_from_kind : Text → M ℕ
result_count_from_kind kind =
    if text_eq kind (codes "i64") || text_eq kind (codes "f64") || text_eq kind (codes "f32")
    then pure 1
    else if starts_with kind (codes "list:")
    then list_count kind
    else if text_eq kind (codes "bytes")
    then pure 2
    else if text_eq kind (codes "array-u64")
        || text_eq kind (codes "chain-u64")
        || text_eq kind (codes "tree-u64")
        || text_eq kind (codes "records-u64")
        || starts_with kind (codes "file-u64:")
    then pure 1
    else if starts_with kind (codes "slots:")
    then slots_count (drop 6 kind)
    else die "unknown result kind"

unfoldable pub print_result : Text → ℕ → M (Unit {0})
print_result kind value =
    if text_eq kind (codes "f64") || text_eq kind (codes "i64") || text_eq kind (codes "f32")
    then print (decimal value ++ codes "\n")
    else if text_eq kind (codes "array-u64")
    then print_u64_array value
    else if text_eq kind (codes "chain-u64")
    then print_u64_chain value
    else if text_eq kind (codes "tree-u64")
    then print_u64_tree value
    else if text_eq kind (codes "records-u64")
    then print_records value
    else die "unknown result kind in list"

-- The arguments after those of `args`, which is how many slots of `args[256]` are filled.
unfoldable pub place_loop : Module → List Text → List ℕ → M (List ℕ)
place_loop m [] args = pure args
place_loop m (spec ∷ specs) args =
    if ltb 256 (length args + 2) then die "too many arguments" else (do
      words ← parse_arg m spec
      elim (length words == 0) [
        | true ↦ fail 1 (Report.named "unknown argument spec: %s" spec)
        | false ↦ place_loop m specs (args ++ words)
      ])

-- The arguments, and the number of results that `kind` describes; both must fit the type of `e`.
unfoldable pub host_place_args : Module → Export → Text → Text → List Text → M (List ℕ × ℕ)
host_place_args m e func_name kind argv = do
  args ← place_loop m argv []
  nresults ← result_count_from_kind kind
  elim (length args == length e.params && nresults == length e.results) [
    | true ↦ pure (args, nresults)
    | false ↦ fail 1 (Report.named "the call of %s does not match its type" func_name)
  ]

-- The items of a list, result `i` on; each round prints one item, so `nresults` rounds suffice.
unfoldable pub print_list : ℕ → Text → List ℕ → ℕ → ℕ → ℕ → M (Unit {0})
print_list zero kind results nresults i item = pure tt
print_list (suc n) kind results nresults i item = elim (ltb i nresults) [
  | false ↦ pure tt
  | true ↦ do
    name ← list_result_kind kind item 32
    elim (text_eq name (codes "bytes")) [
      | true ↦ do
        print_bytes (get_or results i 0) (get_or results (i + 1) 0)
        print_list n kind results nresults (i + 2) (item + 1)
      | false ↦ do
        print_result name (get_or results i 0)
        print_list n kind results nresults (i + 1) (item + 1)
    ]
]

unfoldable pub print_words : ℕ → List ℕ → ℕ → M (Unit {0})
print_words zero results i = pure tt
print_words (suc n) results i = do
  print_if (not (i == 0)) (codes " ")
  print (decimal (get_or results i 0))
  print_words n results (i + 1)

unfoldable pub host_print_results : Text → List ℕ → ℕ → M (Unit {0})
host_print_results kind results nresults =
    if starts_with kind (codes "list:")
    then print_list nresults kind results nresults 0 0
    else if text_eq kind (codes "bytes")
    then print_bytes (get_or results 0 0) (get_or results 1 0)
    else if text_eq kind (codes "array-u64")
        || text_eq kind (codes "chain-u64")
        || text_eq kind (codes "tree-u64")
        || text_eq kind (codes "records-u64")
        || text_eq kind (codes "f64")
        || text_eq kind (codes "f32")
    then print_result kind (get_or results 0 0)
    else if starts_with kind (codes "file-u64:")
    then save_u64_array (get_or results 0 0) (drop 9 kind)
    else (do print_words nresults results 0; print (codes "\n"))

unfoldable pub call_export : Module → Text → Text → List Text → M (Unit {0})
call_export m func_name kind argv = do
  e ← host_get_export m func_name
  (args, nresults) ← host_place_args m e func_name kind argv
  results ← host_invoke e args
  host_print_results kind results nresults

unfoldable pub search_globals : Text → List GlobalExport → Option GlobalExport
search_globals name [] = none
search_globals name (g ∷ gs) = if text_eq g.name name then some g else search_globals name gs

unfoldable pub read_global : Module → Text → M ℕ
read_global m name w = elim (search_globals name m.global_exports) [
  | none ↦ fail 1 (Report.named "missing export: %s" name) w
  | some g ↦ ok (w.store.globals g.value) w
]

unfoldable pub usage : {A : Type 0} → M A
usage = fail 2 (Report.line "usage: HOST call|call-stats FUNC RESULT [ARG...]")

-- `lx_status = 0; lx_init(); if (lx_status != 0) die(...)`.
unfoldable pub init_module : Module → M (Unit {0})
init_module m w =
    let w' = record w { store = m.init (record (w.store) { status = 0 }) } in
    if w'.store.status == 0 then ok tt w' else die "lx_init failed" w'

unfoldable pub host_start : Module → M (Unit {0})
host_start m = do
  init_module m
  elim (find_export m (codes "reset")) [
    | none ↦ pure tt
    | some reset ↦ do results ← host_invoke reset []; pure tt
  ]

-- C leaves the order of the two reads, arguments of one `printf`, to the compiler. They change nothing:
-- the order only decides which of two missing exports is reported. Here the first is read first.
unfoldable pub print_stats : Module → M (Unit {0})
print_stats m = do
  allocs ← read_global m (codes "allocCount")
  frees ← read_global m (codes "freeCount")
  print (codes "stats " ++ decimal allocs ++ codes " " ++ decimal frees ++ codes "\n")

unfoldable pub run_command : Module → Text → Text → Text → List Text → M ℕ
run_command m command func_name kind argv =
    if text_eq command (codes "call") || text_eq command (codes "call-stats")
    then (do
      host_start m
      call_export m func_name kind argv
      elim (text_eq command (codes "call-stats")) [
        | true ↦ do print_stats m; pure 0
        | false ↦ pure 0
      ])
    else usage

-- `main`, over `argv` with the program's name first.
unfoldable pub main : Module → List Text → M ℕ
main m (host ∷ command ∷ func_name ∷ kind ∷ argv) = run_command m command func_name kind argv
main m argv = usage
