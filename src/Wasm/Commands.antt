-- ===== src/Wasm/Commands.antt =====
-- The commands of the script and session modes, one function for each branch of the loop in
-- `command_script`.
use leanexe.Base.{
  ℕ, zero, suc, ◌+◌, Bool, true, false, ◌&&◌, ◌||◌, not, Option, none, some, List, [], ◌∷◌, ◌++◌,
  leb, ◌==◌, if◌then◌else◌, Text, text_eq, length, codes,
}
use leanexe.Base.Lines.{strtok}
use leanexe.Base.Decimal.{decimal}
use leanexe.Base.Run.{ok, pure, ◌>>=◌, ◌>>◌}
use leanexe.Native.Memory.{update}
use leanexe.Wasm.Machine.{Val, M, print}
use leanexe.Wasm.Outcome.{die}
use leanexe.Wasm.Parse.{read_file, parse_hex, parse_u64}
use leanexe.Wasm.Start.{get_func, i64_val, val_at, call_alloc}
use leanexe.Wasm.Memory.{require_memory, write_u64_at, read_u64_at, write_bytes_at}
use leanexe.Wasm.Alloc.{alloc_bytes, alloc_u64_file}
use leanexe.Wasm.Show.{save_u64_array}
use leanexe.Wasm.Args.{f64_val}
use leanexe.Wasm.Call.{print_stats, invoke_func}
use leanexe.Wasm.Script.{
  Script, checked_add_u64, parse_index, allocation_id, resolve_script_value, print_memory_range,
  tokens1, tokens2, tokens3, token_and_rest, require,
}

abbrev pub set_id : Script → ℕ → ℕ → Script
set_id s id value = record s { ids = update s.ids id value }

unfoldable pub pointer_or_word : Bool → Script → Text → M ℕ
pointer_or_word true s text = do id ← parse_index text "pointer id is too large"; pure (s.ids id)
pointer_or_word false s text = parse_u64 text

unfoldable pub add_arg : Script → M Val → M Script
add_arg s value =
    if leb 256 (length s.args)
    then die "too many arguments"
    else (do v ← value; pure (record s { args = s.args ++ v ∷ [] }))

unfoldable pub arg_value : Bool → Script → Text → M Val
arg_value true s text = do
  id ← parse_index text "pointer id is too large"
  pure (i64_val (s.ids id))
arg_value false s text = do value ← resolve_script_value s text; pure (i64_val value)

unfoldable pub f64_bits : Text → M Val
f64_bits text = do bits ← parse_u64 text; pure (f64_val bits)

unfoldable pub result_words : ℕ → List Val → ℕ → Text
result_words zero results i = []
result_words (suc n) results i =
    codes " " ++ (decimal (val_at results i).bits ++ result_words n results (i + 1))

unfoldable pub refuse_dump : Option Text → M (Unit {0})
refuse_dump none = pure tt
refuse_dump (some text) = do
  dump ← parse_u64 text
  if dump == 0 then pure tt else die "full memory dump is unsupported; use read-memory"

unfoldable pub script_call : Bool → Script → Text → Text → Option Text → M Script
script_call session s func_name nresults_text dump_text = do
  refuse_dump dump_text
  require (not s.called || session) "script may call only one export"
  nresults ← parse_u64 nresults_text
  require (leb nresults 128) "too many result slots"
  func ← get_func func_name
  results ← invoke_func func s.args nresults
  print (codes "results" ++ (result_words nresults results 0 ++ codes "\n"))
  pure (record s { args = []; results = results; nresults = nresults; called = true })

-- The function and the result count must be there; the third token may be missing.
unfoldable pub call_tokens : Bool → Script → Text → M Script
call_tokens session s line =
    let (name, line) = strtok line in
    let (count, line) = strtok line in
    let (dump, line) = strtok line in
    elim name [
      | none ↦ die "call requires function and result count"
      | some name ↦ elim count [
        | none ↦ die "call requires function and result count"
        | some count ↦ script_call session s name count dump
      ]
    ]

unfoldable pub read_variable : Script → Text → Text → Text → M Script
read_variable s id_text ptr_text offset_text = do
  require s.called "read-u64 requires a prior call"
  id ← parse_index id_text "u64 variable id is too large"
  ptr ← resolve_script_value s ptr_text
  offset ← resolve_script_value s offset_text
  address ← checked_add_u64 ptr offset
  value ← read_u64_at address
  print (codes "u64 " ++ (decimal id ++ (codes " " ++ (decimal value ++ codes "\n"))))
  pure (record s { vars = update s.vars id value })

unfoldable pub read_range : Script → Text → Text → M Script
read_range s ptr_text len_text = do
  require s.called "read-memory requires a prior call"
  ptr ← resolve_script_value s ptr_text
  len ← resolve_script_value s len_text
  print_memory_range ptr len
  pure s

unfoldable pub write_word : Bool → Script → Text → Text → Text → M Script
write_word is_ptr s id_text offset_text value_text = do
  id ← allocation_id id_text
  value ← pointer_or_word is_ptr s value_text
  offset ← parse_u64 offset_text
  address ← checked_add_u64 (s.ids id) offset
  write_u64_at address value
  pure s

unfoldable pub write_hex : Script → Text → Text → Text → M Script
write_hex s id_text offset_text hex = do
  id ← allocation_id id_text
  bytes ← parse_hex hex
  offset ← parse_u64 offset_text
  address ← checked_add_u64 (s.ids id) offset
  write_bytes_at address bytes
  pure s

unfoldable pub show_memory_size : Script → M Script
show_memory_size s = do
  require_memory "missing memory export"
  λ w. print (codes "memory-size " ++ (decimal w.store.size ++ codes "\n")) w
  pure s

-- A command that stores its result in `ids[id]`.
unfoldable pub store_id : Script → Text → M ℕ → M Script
store_id s id_text value = do id ← allocation_id id_text; v ← value; pure (set_id s id v)

unfoldable pub alloc_size : Text → M ℕ
alloc_size size_text = do size ← parse_u64 size_text; call_alloc size

unfoldable pub alloc_file : Text → M ℕ
alloc_file path = do bytes ← read_file path; alloc_bytes bytes

unfoldable pub alloc_hex : Text → M ℕ
alloc_hex hex = do bytes ← parse_hex hex; alloc_bytes bytes

unfoldable pub save_words : Script → Text → Text → M Script
save_words s value_text path = do
  ptr ← resolve_script_value s value_text
  count ← save_u64_array ptr path
  print (codes "saved " ++ (decimal count ++ codes "\n"))
  pure s

unfoldable pub show_stats : Script → M Script
show_stats s = do print_stats; pure s

-- Every command but `done`.
unfoldable pub run_command : Bool → Script → Text → Text → M Script
run_command session s command line =
    if text_eq command (codes "alloc")
    then tokens2 "alloc requires id and size" line (λ id size. store_id s id (alloc_size size))
    else if text_eq command (codes "bytes-file")
    then token_and_rest "bytes-file requires id and path" line
        (λ id path. store_id s id (alloc_file path))
    else if text_eq command (codes "file-u64")
    then token_and_rest "file-u64 requires id and path" line
        (λ id path. store_id s id (alloc_u64_file path))
    else if text_eq command (codes "keep")
    then tokens2 "keep requires id and value" line
        (λ id value. store_id s id (resolve_script_value s value))
    else if text_eq command (codes "save-u64")
    then token_and_rest "save-u64 requires a pointer and a path" line (save_words s)
    else if text_eq command (codes "bytes")
    then tokens2 "bytes requires id and hex" line (λ id hex. store_id s id (alloc_hex hex))
    else if text_eq command (codes "write-u64") || text_eq command (codes "write-ptr")
    then tokens3 "write requires id, offset, and value" line
        (write_word (text_eq command (codes "write-ptr")) s)
    else if text_eq command (codes "write-bytes")
    then tokens3 "write-bytes requires id, offset, and hex" line (write_hex s)
    else if text_eq command (codes "arg-u64") || text_eq command (codes "arg-ptr")
    then tokens1 "arg requires value" line
        (λ value. add_arg s (arg_value (text_eq command (codes "arg-ptr")) s value))
    else if text_eq command (codes "arg-f64")
    then tokens1 "arg-f64 requires bits" line (λ bits. add_arg s (f64_bits bits))
    else if text_eq command (codes "call")
    then call_tokens session s line
    else if text_eq command (codes "read-u64")
    then tokens3 "read-u64 requires id, pointer, and offset" line (read_variable s)
    else if text_eq command (codes "read-memory")
    then tokens2 "read-memory requires pointer and length" line (read_range s)
    else if text_eq command (codes "stats")
    then show_stats s
    else if text_eq command (codes "memory-size")
    then show_memory_size s
    else die "unknown script command"

unfoldable pub flush_session : Bool → M (Unit {0})
flush_session session w =
    if session && not w.control_flushes then die "cannot flush session output" w else ok tt w
