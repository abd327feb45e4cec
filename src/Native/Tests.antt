-- ===== src/Native/Tests.antt =====
-- The theorems about the native host at concrete inputs.
use leanexe.Base.{◌<◌, ℕ, ◌≡◌, inl, [], ◌∷◌, ◌++◌, arith, codes, length, ◌≤◌}
use leanexe.Base.Run.{ok, ◌>>◌}
use leanexe.Native.Machine.{Store}
use leanexe.Native.Memory.{memory_len, write_u64_at, read_u64_at}
use leanexe.Native.Memory.Access.{
  word_at, stored, Dies, read-write, read-write_apart, access_refused,
}
use leanexe.Base.Decimal.{decimal}
use leanexe.Native.Parse.{host_parse_u64, parse_u64_list, parse_hex}
use leanexe.Native.Parse.Hex.{parse_hex-hex_text}
use leanexe.Base.Run.Halting.{Halts}
use leanexe.Native.Show.{hex_text, print_u64_chain, print_u64_tree}
use leanexe.Native.Alloc.{alloc_u64_tree}
use leanexe.Native.Alloc.Ends.{alloc_u64_tree-Halts}
use leanexe.Native.Show.Ends.Trees.{print-Halts}
use leanexe.Native.Parse.Numbers.{comma_text, host_parse_u64-decimal, parse_u64_list-comma_text}
use leanexe.Native.Call.Bounds.{place_loop-bounded, result_count_from_kind-bounded}
use leanexe.Native.Call.{parse_arg, print_result}
use leanexe.Native.Heap.Checks.{said}
use leanexe.Native.Heap.ChainPrint.{list_line}
use leanexe.Native.Heap.Tree.{Tree, leaf, node, tree_text}
use leanexe.Native.Heap.Arguments.{print_result-chain_arg, print_result-tree_arg}
use leanexe.Native.Examples.{toy, fresh, toy_alloc, fresh-Fits, place_loop_run, count_run}

read-write_example :
    (do write_u64_at 16 0x0102030405060708; read_u64_at 16) fresh
    ≡ ok 0x0102030405060708 (stored 16 0x0102030405060708 fresh)
read-write_example = read-write 16 fresh 0x0102030405060708 (omega arith) (omega arith)

read-write_apart_example :
    (do write_u64_at 16 7; read_u64_at 24) fresh
    ≡ ok (word_at fresh.store.memory 24) (stored 16 7 fresh)
read-write_apart_example =
    read-write_apart 16 fresh 7 24 (omega arith) (omega arith) (inl (omega arith))

access_refused_example :
    Dies "u64 write is outside memory" fresh (write_u64_at 65529 7 fresh)
    × Dies "u64 read is outside memory" fresh (read_u64_at 65529 fresh)
access_refused_example = access_refused 65529 fresh 7 (omega arith)

print_result-chain_arg_example :
    (s : Store) × (p : ℕ) × (parse_arg toy (codes "chain-u64:" ++ comma_text (5 ∷ 77 ∷ [])) fresh
      ≡ ok (p ∷ []) (record fresh { store = s }))
    × (print_result (codes "chain-u64") p (record fresh { store = s })
        ≡ ok tt (said (list_line (5 ∷ 77 ∷ [])) (record fresh { store = s })))
print_result-chain_arg_example =
    print_result-chain_arg toy toy_alloc (5 ∷ 77 ∷ []) fresh (omega arith) fresh-Fits (omega arith)

abbrev two_levels : Tree
two_levels = node (node leaf 7 leaf) 5 (node leaf 9 leaf)

print_result-tree_arg_example :
    (s : Store) × (p : ℕ) × (parse_arg toy (codes "tree-u64:" ++ tree_text two_levels) fresh
      ≡ ok (p ∷ []) (record fresh { store = s }))
    × (print_result (codes "tree-u64") p (record fresh { store = s })
        ≡ ok tt (said (tree_text two_levels ++ codes "\n") (record fresh { store = s })))
print_result-tree_arg_example =
    print_result-tree_arg toy toy_alloc two_levels fresh (omega arith) fresh-Fits (omega arith)

host_parse_u64-decimal_example : host_parse_u64 (decimal 42) fresh ≡ ok 42 fresh
host_parse_u64-decimal_example = host_parse_u64-decimal 42 fresh (omega arith)

parse_u64_list-comma_text_example :
    parse_u64_list (comma_text (5 ∷ 77 ∷ [])) fresh ≡ ok (5 ∷ 77 ∷ []) fresh
parse_u64_list-comma_text_example =
    parse_u64_list-comma_text (5 ∷ 77 ∷ []) fresh (omega arith, (omega arith, tt))

place_loop-bounded_example : length {A = ℕ} (5 ∷ 7 ∷ []) ≤ 256
place_loop-bounded_example =
    place_loop-bounded toy (codes "i64:5" ∷ codes "f64:7" ∷ []) fresh fresh (5 ∷ 7 ∷ [])
      place_loop_run

result_count_from_kind-bounded_example : 3 ≤ 128
result_count_from_kind-bounded_example =
    result_count_from_kind-bounded (codes "list:bytes,i64") fresh fresh 3 count_run

parse_hex-hex_text_example : parse_hex (hex_text (0 ∷ 171 ∷ [])) fresh ≡ ok (0 ∷ 171 ∷ []) fresh
parse_hex-hex_text_example =
    parse_hex-hex_text (0 ∷ 171 ∷ []) fresh (omega arith, (omega arith, tt))

print-Halts_example :
    Halts (λ w'. memory_len w' ≡ memory_len fresh) (λ _. Unit) (print_u64_chain 64 fresh)
    × Halts (λ w'. memory_len w' ≡ memory_len fresh) (λ _. Unit) (print_u64_tree 64 fresh)
print-Halts_example = print-Halts 64 fresh

alloc_u64_tree-Halts_example :
    Halts (λ w'. Unit) (λ p. length p.1 < 5) (alloc_u64_tree toy 6 (codes "7,.,.") fresh)
alloc_u64_tree-Halts_example = alloc_u64_tree-Halts toy (codes "7,.,.") fresh
