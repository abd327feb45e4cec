-- ===== src/Native/Examples.antt =====
-- A small translated module with an allocator, and runs of the host on it.
use leanexe.Base.{
  ℕ, ◌==◌, if◌then◌else◌, ◌*◌, ◌≡◌, refl, List, [], ◌∷◌, none, some, arith, Text, codes, get_or,
  text_eq, starts_with,
}
use leanexe.Base.Decimal.{
  decimal, digits_loop, hex_byte, hex_digit, is_digit, is_space, take_digits, skip_spaces,
  starts_with_digit, convert, signed, strtoull,
}
use leanexe.Base.Run.{Run, ok, exited, out_of_fuel}
use leanexe.Native.Machine.{Store, World, Module}
use leanexe.Native.Memory.Blocks.{put_words}
use leanexe.Native.Heap.{Fits, Allocator}
use leanexe.Native.Heap.Runtime.{
  needed, header, trap, ensured, installed, bump, alloc_body, alloc_export, runtime_allocator,
}
use leanexe.Native.Machine.{
  fail, die, print, trap_message, search_exports, find_export, host_get_export, host_invoke,
}
use leanexe.Native.Memory.{
  out_of_range, check_range, put_word, get_word, put_bytes, write_u64_at, read_u64_at,
}
use leanexe.Native.Parse.{
  hex_nibble, hex_pairs, parse_hex, is_empty, host_parse_u64, break_comma, comma_items, parse_items,
  parse_u64_list, read_token, take_exactly, read_source, read_file,
}
use leanexe.Native.Alloc.{
  call_alloc, copy_bytes, alloc_bytes, write_items, alloc_u64_array, write_header, alloc_cell,
  alloc_u64_chain, alloc_node, alloc_u64_tree, mask_fits, record_header_valid, mask_bit,
  alloc_slots, write_slots, alloc_record, alloc_records, alloc_u64_file,
}
use leanexe.Native.Show.{
  expect_word, check_object, check_record, print_if, print_cell, chain_loop, print_u64_chain,
  print_u64_tree_at, print_u64_tree, print_slots, print_records_at, print_records, print_items,
  array_len, print_u64_array, bytes_at, write_sink, save_u64_array, hex_text, print_bytes,
}
use leanexe.Native.Call.{
  whole_tree, bytes_arg, f32_arg, parse_arg, list_result_kind, count_items, list_count, slots_count,
  result_count_from_kind, print_result, place_loop, host_place_args, print_list, print_words,
  host_print_results, call_export, search_globals, read_global, usage, init_module, host_start,
  print_stats, run_command, main,
}

-- The modules' `alloc` traps where the free list is not empty: this module never frees a block.
abbrev pub no_free_list : ℕ → Store → Store × List ℕ
no_free_list need s = (record s { status = 1 }, [])

-- Returns its argument twice.
abbrev pub twice : List ℕ → Store → Store × List ℕ
twice args s = (s, get_or args 0 0 ∷ get_or args 0 0 ∷ [])

-- Traps at `unreachable`.
abbrev pub trapping : List ℕ → Store → Store × List ℕ
trapping args s = (record s { status = 1 }, [])

-- The heap starts at 4096.
abbrev pub heap_base : ℕ → ℕ
heap_base i = if i == 0 then 4096 else 0

abbrev pub toy : Module
toy = record {
  exports =
      alloc_export no_free_list 16
      ∷ record { name = codes "twice"; params = codes "l"; results = codes "ll"; call = twice }
      ∷ record { name = codes "trap"; params = []; results = []; call = trapping }
      ∷ [];
  global_exports =
      record { name = codes "allocCount"; value = 2 }
      ∷ record { name = codes "freeCount"; value = 3 }
      ∷ [];
  init = λ s. record s { status = 0; pages = 1; globals = heap_base };
}

abbrev pub fresh : World
fresh = record {
  store = record { status = 0; pages = 1; memory = λ _. 0; globals = heap_base };
  out = [];
  reports = [];
  sources = λ _. none;
  sinks = λ _. none;
  written = [];
}

-- What a run leaves on standard output, behind its exit status.
abbrev pub shown : {A : Type 0} → Run World A → Text
shown (ok _ w) = 0 ∷ w.out
shown (exited n w) = n ∷ w.out
shown out_of_fuel = []

-- Everything that a run computes with.
run : List Text → Text
unfolding text_eq starts_with decimal digits_loop hex_byte hex_digit is_digit is_space take_digits
    skip_spaces starts_with_digit convert signed strtoull put_words fail die print trap_message
    search_exports find_export host_get_export host_invoke out_of_range check_range put_word
    get_word put_bytes write_u64_at read_u64_at hex_nibble hex_pairs parse_hex is_empty
    host_parse_u64 break_comma comma_items parse_items parse_u64_list read_token take_exactly
    read_source read_file call_alloc copy_bytes alloc_bytes write_items alloc_u64_array write_header
    alloc_cell alloc_u64_chain alloc_node alloc_u64_tree mask_fits record_header_valid mask_bit
    alloc_slots write_slots alloc_record alloc_records alloc_u64_file expect_word check_object
    check_record print_if print_cell chain_loop print_u64_chain print_u64_tree_at print_u64_tree
    print_slots print_records_at print_records print_items array_len print_u64_array bytes_at
    write_sink save_u64_array hex_text print_bytes whole_tree bytes_arg f32_arg parse_arg
    list_result_kind count_items list_count slots_count result_count_from_kind print_result
    place_loop host_place_args print_list print_words host_print_results call_export search_globals
    read_global usage init_module host_start print_stats run_command main needed header trap ensured
    installed bump alloc_body
run argv = shown (main toy argv fresh)

call_args : Text → Text → Text → List Text
call_args f kind spec = codes "host" ∷ codes "call" ∷ f ∷ kind ∷ spec ∷ []

list_run :
    run (call_args (codes "twice") (codes "list:chain-u64,i64") (codes "chain-u64:5,77"))
    ≡ 0 ∷ codes "[5, 77]\n4208\n"
unfolding run call_args
list_run = refl

tree_run :
    run (call_args (codes "twice") (codes "list:tree-u64,i64") (codes "tree-u64:5,7,.,.,9,.,."))
    ≡ 0 ∷ codes "5,7,.,.,9,.,.\n4288\n"
unfolding run call_args
tree_run = refl

records_run :
    run (
      call_args
        (codes "twice")
        (codes "list:records-u64,records-u64")
        (codes "records-u64:2,2,8,1,0,4"))
    ≡ 0 ∷ codes "2,2,8,1,0,4\n2,2,8,1,0,4\n"
unfolding run call_args
records_run = refl

trap_run : run (codes "host" ∷ codes "call" ∷ codes "trap" ∷ codes "slots:0" ∷ []) ≡ 2 ∷ []
unfolding run
trap_run = refl

stats_run :
    run (codes "host" ∷ codes "call-stats" ∷ codes "twice" ∷ codes "slots:2" ∷ codes "i64:12" ∷ [])
    ≡ 0 ∷ codes "12 12\nstats 0 0\n"
unfolding run
stats_run = refl

pub toy_found : find_export toy (codes "alloc") ≡ some (alloc_export no_free_list 16)
unfolding run
toy_found = refl

-- Up to 16 pages.
abbrev pub toy_alloc : Allocator toy
toy_alloc = runtime_allocator no_free_list 16 (omega arith) toy toy_found

-- A block of more than a page makes the memory grow, and one of more than all pages traps.
grow_run :
    ((bump 16 70000 fresh.store).0.pages ≡ 2) × ((bump 16 (16 * 65536) fresh.store).0.status ≡ 1)
unfolding run
grow_run = (refl, refl)

pub fresh-Fits : Fits fresh.store
fresh-Fits = record { pages = omega arith; inside = omega arith; none_free = refl }

pub place_loop_run :
    place_loop toy (codes "i64:5" ∷ codes "f64:7" ∷ []) [] fresh ≡ ok (5 ∷ 7 ∷ []) fresh
unfolding run
place_loop_run = refl

pub count_run : result_count_from_kind (codes "list:bytes,i64") fresh ≡ ok 3 fresh
unfolding run
count_run = refl

pub number_run : host_parse_u64 (codes "42") fresh ≡ ok 42 fresh
unfolding run
number_run = refl
